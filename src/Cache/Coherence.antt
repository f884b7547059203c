-- ===== src/Cache/Coherence.antt =====
-- BlockCache.cc: what the cache holds for a file is the data of the file's blocks.
use lzopfs.Base.{
  ℕ, ◌-◌, ◌≡◌, sym, ap, ◌∙◌, subst, List, [], ◌∷◌, Option, none, some, if_pos, if_neg, length,
  arith, Option-cases, inl, inr, ◌⊎◌, dec_lt,
}
use mathlib.Core.Option
use lzopfs.Blocks.{Block, Buffer, Result, ok}
use lzopfs.Blocks.Contents.{In}
use lzopfs.Lru.{LruMap}
use lzopfs.Lru
use lzopfs.Lru.Nodes.{Entry}
use lzopfs.Lru.Links.{lookup, remove}
use lzopfs.Lru.Back.{trim}
use lzopfs.Lru.Room.{entries}
use lzopfs.Lru.Touch.{touch}
use lzopfs.Lru.Methods.{IsValid, find_lem, add_present, add_over_weight, add_absent}
use lzopfs.Cache.{Key, Key-discrete, key_of, Map, store}

abbrev pub All : (Entry Key Buffer → Type 0) → List (Entry Key Buffer) → Type 0
All P [] = Unit
All P (e ∷ es) = P e × All P es

module _ (P : Entry Key Buffer → Type 0) where
  All-remove :
      (k : Key) (es : List (Entry Key Buffer)) → All P es → All P (remove Key-discrete k es)
  unfolding remove
  All-remove k [] h = tt
  All-remove k (e ∷ es) h = elim (Key-discrete k e.key) [
    | yes p ↦ rw (if_pos (Key-discrete k e.key) p) h.1
    | no p ↦ rw (if_neg (Key-discrete k e.key) p) (h.0, All-remove k es h.1)
  ]

  All-lookup :
      (k : Key) (es : List (Entry Key Buffer)) {e : Entry Key Buffer}
      → All P es
      → lookup Key-discrete k es ≡ some e
      → P e × (e.key ≡ k)
  unfolding lookup
  All-lookup k [] h found = cc
  All-lookup k (c ∷ es) {e} h found = elim (Key-discrete k c.key) [
    | yes p ↦
        let same : c ≡ e = cc (rw (if_pos (Key-discrete k c.key) p) at found) in
        (subst P same h.0, ap (λ x. x.key) (sym same) ∙ sym p)
    | no p ↦ All-lookup k es h.1 (rw (if_neg (Key-discrete k c.key) p) at found)
  ]

  pub All-touch :
      (k : Key) (es : List (Entry Key Buffer)) → All P es → All P (touch Key-discrete k es)
  unfolding touch
  All-touch k es h = elim (Option-cases (lookup Key-discrete k es)) [
    | inl e ↦ rw (e, touch) h
    | inr (c, e) ↦ rw (e, touch) ((All-lookup k es h e).0, All-remove k es h)
  ]

  pub All-trim : (c : ℕ) (es : List (Entry Key Buffer)) → All P es → All P (trim c es)
  unfolding trim
  All-trim c [] h = tt
  All-trim c (e ∷ es) h = ground (arith, All-trim (c - e.weight) es h.1)

module _ (decode : Block → Result Buffer) (id : List ℕ) (bs : List Block) where
  -- What an entry says of a block of the file is true.
  pub record IsRight (e : Entry Key Buffer) : Type 0 where
    pub right : (b : Block) → In b bs → e.key ≡ key_of id b → decode b ≡ ok e.value

  pub record IsCoherent (m : Map) : Type 0 where
    pub valid : IsValid Key-discrete m
    pub entries_right : All IsRight (entries m)

  found_right :
      (m : Map) (b : Block) (r : Option Buffer)
      → In b bs
      → IsCoherent m
      → r
        ≡ Option.map
            (λ (e : Entry Key Buffer). e.value)
            (lookup Key-discrete (key_of id b) (entries m))
      → (r ≡ none) ⊎ ((d : Buffer) × (r ≡ some d) × (decode b ≡ ok d))
  found_right m b r h c value =
      elim (Option-cases (lookup Key-discrete (key_of id b) (entries m))) [
        | inl e ↦ inl (value ∙ rw e)
        | inr (x, e) ↦
            let (right, same) = All-lookup IsRight (key_of id b) (entries m) c.entries_right e in
            inr (x.value, value ∙ rw e, right.right b h same)
      ]

  -- A lookup for a block of the file in a coherent cache does not fault and keeps the cache
  -- coherent, and it finds nothing or what the block decompresses to.
  pub find-IsCoherent :
      (m : Map) (b : Block)
      → In b bs
      → IsCoherent m
      → (m' : Map) × (r : Option Buffer) × (Lru.find Key-discrete m (key_of id b) ≡ some (m', r))
        × IsCoherent m'
        × ((r ≡ none) ⊎ ((d : Buffer) × (r ≡ some d) × (decode b ≡ ok d)))
  find-IsCoherent m b h c =
      let (m', r, found, (valid, order, value, most)) =
        find_lem Key-discrete m (key_of id b) c.valid in
      (
        m',
        r,
        found,
        record {
          valid = valid;
          entries_right = rw order (All-touch IsRight (key_of id b) (entries m) c.entries_right);
        },
        found_right m b r h c value,
      )

  -- When no two blocks of the file begin at the same place of the compressed file, to store the data
  -- that a block of it decompresses to in a coherent cache does not fault and keeps the cache
  -- coherent, also when the data is too heavy for it.
  pub store-IsCoherent :
      ((b c : Block) → In b bs → In c bs → b.coff ≡ c.coff → b ≡ c)
      → (m : Map) (b : Block) (d : Buffer) → In b bs
      → decode b ≡ ok d
      → IsCoherent m
      → (m' : Map) × (store m (key_of id b) d ≡ ok m') × IsCoherent m'
  unfolding store
  store-IsCoherent distinct m b d h e c = elim (Option-cases (lookup Key-discrete k (entries m))) [
    | inr (x, present) ↦
        let (m', added, valid, order, most) =
          add_present Key-discrete m k d (length d) x c.valid present in
        (
          m',
          rw (added, store),
          record {
            valid = valid;
            entries_right = rw order (All-touch IsRight k (entries m) c.entries_right);
          },
        )
    | inl absent ↦ elim (dec_lt m.max_weight (length d)) [
      | yes heavy ↦
          (m, rw (add_over_weight Key-discrete m k d (length d) c.valid absent heavy, store), c)
      | no light ↦
          let (m', added, valid, order, most) =
            add_absent Key-discrete m k d (length d) c.valid absent (omega arith) in
          (
            m',
            rw (added, store),
            record {
              valid = valid;
              entries_right = rw order (new, All-trim IsRight _ (entries m) c.entries_right);
            },
          )
    ]
  ]
    where
      k : Key
      k = key_of id b

      new : IsRight (record { key = k; value = d; weight = length d })
      new = record {
        right = λ b' h' same.
            subst (λ x. decode x ≡ ok d) (distinct b b' h h' (ap (λ x. x.offset) same)) e;
      }
