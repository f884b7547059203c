-- ===== src/Fuse/Shown.antt =====
-- lzopfs.cc: what the file system shows of a file that was added.
use lzopfs.Base.{
  ℕ, ◌+◌, ◌<◌, ◌≡◌, refl, ap, ◌∙◌, List, [], ◌∷◌, ◌++◌, Option, none, some, true, false, equal,
  equal_refl, equal-eq-true, Bool-cases, inl, inr, ◌⊎◌, ◌≤◌, arith, mod64, length,
}
use lzopfs.Blocks.{Block, Buffer, Result, ok, uncompressed_size}
use lzopfs.Blocks.Tiles.{uncompressed_size-Tiles, end_from}
use lzopfs.Blocks.Contents.{Encodes-Tiles}
use lzopfs.Paths.{dest_name, slash}
use lzopfs.Files.{FileMap, add_file}
use lzopfs.Files.Table.{Refused, find_file-add_file}
use lzopfs.Cache.{Event, Map, read}
use lzopfs.Cache.Invariants.{IsFile, Answer, Coherent}
use lzopfs.Cache.Coherence.{IsCoherent}
use lzopfs.Cache.Reading.{read_lem, read-end}
use lzopfs.Fuse.Mount.{asked}
use lzopfs.Fuse.{Source, lf_getattr, lf_read, done, regular, count, waits, exits}

abbrev pub shown_name : Source → List ℕ
shown_name s = dest_name s.class s.path

-- The size of a file is the length of its contents.
size_lem :
    (decode : Block → Result Buffer) (bs : List Block) (contents : Buffer)
    → IsFile decode bs contents
    → uncompressed_size bs ≡ length contents
unfolding uncompressed_size end_from
size_lem decode [] contents file =
    ground (arith, (Encodes-Tiles decode 0 [] contents file.encodes).1)
size_lem decode (b ∷ bs) contents file =
    let (tiles, ends) = Encodes-Tiles decode 0 (b ∷ bs) contents file.encodes in
    uncompressed_size-Tiles 0 b bs tiles (omega (arith, ends, file.short)) ∙ ends ∙ omega arith

not_root : (x : ℕ) (name : List ℕ) → equal (slash ∷ x ∷ name) (slash ∷ []) ≡ false
not_root x name = elim (Bool-cases (equal (slash ∷ x ∷ name) (slash ∷ []))) [
  | inl e ↦ absurd (cc (equal-eq-true (slash ∷ x ∷ name) (slash ∷ []) e))
  | inr e ↦ e
]

-- When the openers of all earlier classes refuse a file by its format, the next opens it, its name
-- is not empty, and its blocks begin at different places and decompress to its contents of less
-- than 2^64 bytes, then after the file was added the handler getattr at the root with that name
-- answers a regular file of the length of the contents.
pub lf_getattr-add_file :
    (decode : Block → Result Buffer) (contents : Buffer)
    (refusing later : List (List ℕ → Result Source)) (opener : List ℕ → Result Source) (s : Source)
    (x : ℕ) (name : List ℕ) (m : FileMap Source)
    → Refused refusing s.path
    → opener s.path ≡ ok s
    → shown_name s ≡ x ∷ name
    → IsFile decode s.blocks contents
    → lf_getattr (add_file shown_name (refusing ++ opener ∷ later) s.path m) (slash ∷ x ∷ name)
      ≡ done (regular 1 (length contents))
unfolding lf_getattr
lf_getattr-add_file decode contents refusing later opener s x name m refused opens called file =
    let found =
      find_file-add_file shown_name refusing later opener s.path (slash ∷ x ∷ name) s m refused
        opens in
    let same : equal (slash ∷ shown_name s) (slash ∷ x ∷ name) ≡ true =
      ap (λ n. equal (slash ∷ n) (slash ∷ x ∷ name)) called ∙ equal_refl (slash ∷ x ∷ name) in
    ground (arith, found, same, size_lem decode s.blocks contents file, not_root x name)

module _ (decode : Block → Result Buffer) (s : Source) (contents : Buffer)
    (file : IsFile decode s.blocks contents) (size offset : ℕ) (small : offset + size < mod64)
    (events : List Event) (m : Map) (buf : Buffer) where
  -- The handler read at or behind the end of a file whose blocks decompress to its contents of less
  -- than 2^64 bytes and begin at different places, with an end below 2^64, ends the program.
  pub lf_read-exits : length contents ≤ offset → lf_read decode events s m buf size offset ≡ exits
  unfolding lf_read
  lf_read-exits behind =
      rw
        (
          read-end decode s.blocks contents file (asked s size offset) small events m buf behind,
          lf_read,
        )
        refl

  replied :
      (r : Option (Buffer × ℕ))
      → ((a : Buffer × ℕ) → r ≡ some a → Answer contents (asked s size offset) a)
      → read decode (asked s size offset) events s.blocks m buf ≡ ok r
      → (lf_read decode events s m buf size offset ≡ waits)
        ⊎ ((r : Buffer) × (n : ℕ) × (lf_read decode events s m buf size offset ≡ count r n)
            × Answer contents (asked s size offset) (r, n))
  unfolding lf_read
  replied none right e = inl (rw (e, lf_read) refl)
  replied (some (r, n)) right e = inr (r, n, rw (e, lf_read) refl, right (r, n) refl)

  -- The handler read at a place inside a file whose blocks decompress to its contents, with an end
  -- below 2^64, on a coherent cache and with the buffer of the size asked for, under any schedule of
  -- its jobs and of other threads that keep the cache coherent, does not end the program: it still
  -- waits, or it returns the bytes of the file that were asked for, with their count.
  pub lf_read_lem :
      IsCoherent decode s.path s.blocks m
      → Coherent decode s.blocks contents (asked s size offset) events
      → length buf ≡ size
      → offset < length contents
      → (lf_read decode events s m buf size offset ≡ waits)
        ⊎ ((r : Buffer) × (n : ℕ) × (lf_read decode events s m buf size offset ≡ count r n)
            × Answer contents (asked s size offset) (r, n))
  lf_read_lem coherent others room inside =
      let (r, returns, right) =
        read_lem decode s.blocks contents file (asked s size offset) small events m buf coherent
          others room inside in
      replied r right returns
