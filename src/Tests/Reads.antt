-- ===== src/Tests/Reads.antt =====
-- OpenCompressedFile.cc and BlockCache.cc: a file of two blocks, read across their border.
use lzopfs.Base.{
  ℕ, zero, suc, ◌+◌, ◌<◌, ◌≡◌, refl, sym, ap, ◌∙◌, List, [], ◌∷◌, ◌++◌, Option, some, arith, ◌==◌,
  if◌then◌else◌, mod64, inl, inr, ℕ_discrete, get_elem?,
}
use lzopfs.Blocks.{Block, Buffer, plain, Result, ok, err, runtime}
use lzopfs.Blocks.Contents.{In, Part}
use lzopfs.Read.{Sink, callback}
use lzopfs.Read.Callback.{IsGood, Served, callback_lem}
use lzopfs.Lru.{LruMap, empty}
use lzopfs.Lru
use lzopfs.Lru.Nodes.{deref, unlink, map_find, map_erase, last?, init}
use lzopfs.Lru.Methods.{empty-IsValid}
use lzopfs.Cache.{Key-discrete, key_of, Map, Request, Event, work, others, read, store}
use lzopfs.Cache.Coherence.{IsCoherent, store-IsCoherent}
use lzopfs.Cache.Invariants.{IsFile, Coherent, Answer}
use lzopfs.Cache.Reading.{read_lem, read-end}
use lzopfs.Cache.Finishing.{read-returns}

abbrev pub first : Block
first = record { usize = 3; csize = 3; uoff = 0; coff = 10; kind = plain }

abbrev pub second : Block
second = record { usize = 2; csize = 2; uoff = 3; coff = 20; kind = plain }

abbrev pub blocks : List Block
blocks = first ∷ second ∷ []

abbrev pub contents : Buffer
contents = 1 ∷ 2 ∷ 3 ∷ 4 ∷ 5 ∷ []

-- A decompressor that knows the two blocks.
abbrev pub decode : Block → Result Buffer
decode b = if b.coff == 10 then ok (1 ∷ 2 ∷ 3 ∷ []) else ok (4 ∷ 5 ∷ [])

distinct : (b c : Block) → In b blocks → In c blocks → b.coff ≡ c.coff → b ≡ c
distinct b c (inl p) (inl q) e = p ∙ sym q
distinct b c (inl p) (inr (inl q)) e =
    absurd (omega (arith, ap (λ (x : Block). x.coff) p, ap (λ (x : Block). x.coff) q))
distinct b c (inr (inl p)) (inl q) e =
    absurd (omega (arith, ap (λ (x : Block). x.coff) p, ap (λ (x : Block). x.coff) q))
distinct b c (inr (inl p)) (inr (inl q)) e = p ∙ sym q
distinct b c h (inr (inr k)) e = absurd k
distinct b c (inr (inr h)) k e = absurd h

pub is_file : IsFile decode blocks contents
is_file = record {
  encodes = (
    1 ∷ 2 ∷ 3 ∷ [],
    4 ∷ 5 ∷ [],
    refl,
    refl,
    refl,
    refl,
    omega arith,
    (4 ∷ 5 ∷ [], [], refl, refl, refl, refl, omega arith, refl),
  );
  distinct = distinct;
  short = omega arith;
}

-- Two bytes from the third on: the last of the first block and the first of the second.
abbrev request : Request
request = record { id = 97 ∷ []; size = 2; offset = 2 }

abbrev nothing_cached : Map
nothing_cached = empty 100

nothing_cached-IsCoherent : IsCoherent decode (97 ∷ []) blocks nothing_cached
unfolding empty
nothing_cached-IsCoherent = record {
  valid = empty-IsValid Key-discrete 100 (omega arith);
  entries_right = tt;
}

-- Both jobs run, the second first, with a step of another thread between them.
abbrev schedule : List Event
schedule =
    work 1
    ∷ work 1
    ∷ work 0
    ∷ others nothing_cached
    ∷ work 1
    ∷ work 1
    ∷ work 0
    ∷ work 0
    ∷ work 1
    ∷ work 0
    ∷ work 0
    ∷ []

read_runs :
    read decode request schedule blocks nothing_cached (0 ∷ 0 ∷ []) ≡ ok (some (3 ∷ 4 ∷ [], 2))
unfolding read empty Lru.find Lru.add map_find map_erase deref unlink last? init Key-discrete store
    callback ℕ_discrete
read_runs = refl

small : request.offset + request.size < mod64
small = omega arith

read_lem_example :
    (r : Option (Buffer × ℕ)) × (read decode request schedule blocks nothing_cached (0 ∷ 0 ∷ [])
      ≡ ok r)
    × ((a : Buffer × ℕ) → r ≡ some a → Answer contents request a)
read_lem_example =
    read_lem decode blocks contents is_file request small schedule nothing_cached (0 ∷ 0 ∷ [])
      nothing_cached-IsCoherent (nothing_cached-IsCoherent, tt) refl (omega arith)

-- After one step of the second job.
read-returns_example :
    (more : List Event) × (a : Buffer × ℕ) × Coherent decode blocks contents request more
    × (read decode request (work 1 ∷ [] ++ more) blocks nothing_cached (0 ∷ 0 ∷ []) ≡ ok (some a))
read-returns_example =
    read-returns decode blocks contents is_file request small (work 1 ∷ []) nothing_cached
      (0 ∷ 0 ∷ []) nothing_cached-IsCoherent tt refl (omega arith)

abbrev behind : Request
behind = record { id = 97 ∷ []; size = 2; offset = 5 }

read-end_example : read decode behind [] blocks nothing_cached (0 ∷ 0 ∷ []) ≡ err runtime
read-end_example =
    read-end decode blocks contents is_file behind (omega arith) [] nothing_cached (0 ∷ 0 ∷ [])
      (omega arith)

-- The cache with the first block in it.
with_first :
    (m : Map) × (store nothing_cached (key_of (97 ∷ []) first) (1 ∷ 2 ∷ 3 ∷ []) ≡ ok m)
    × IsCoherent decode (97 ∷ []) blocks m
with_first =
    store-IsCoherent decode (97 ∷ []) blocks distinct nothing_cached first (1 ∷ 2 ∷ 3 ∷ [])
      (inl refl) refl nothing_cached-IsCoherent

abbrev cached : Map
cached = with_first.0

second-Part : Part contents second (4 ∷ 5 ∷ [])
second-Part = record { size = refl; inside = omega arith; bytes = second_bytes }
  where
    second_bytes : (i : ℕ) → i < 2 → get_elem? (4 ∷ 5 ∷ []) i ≡ get_elem? contents (3 + i)
    second_bytes zero h = refl
    second_bytes (suc zero) h = refl
    second_bytes (suc (suc i)) h = absurd (omega arith)

abbrev fresh_sink : Sink
fresh_sink = record { buf = 0 ∷ 0 ∷ []; max_end = 2 }

callback_lem_example :
    (s : Sink) × (callback 2 2 second (4 ∷ 5 ∷ []) fresh_sink ≡ ok s)
    × IsGood contents 2 2 s
    × Served contents 2 2 second s
    × ((c : Block) → Served contents 2 2 c fresh_sink → Served contents 2 2 c s)
callback_lem_example =
    callback_lem contents 2 2 (omega arith) (omega arith) second (4 ∷ 5 ∷ []) second-Part
      (record { begins = omega arith; ends = omega arith }) fresh_sink
      (record { room = refl; from = omega arith; within = omega arith })
