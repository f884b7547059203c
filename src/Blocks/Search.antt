-- ===== src/Blocks/Search.antt =====
-- CompressedFile.cc: `findBlock` finds the block of each position, and nothing behind the end.
use lzopfs.Base.{
  ℕ, zero, suc, ◌+◌, ◌-◌, ◌/◌, ◌<◌, ◌≤◌, ◌≡◌, refl, List, [], ◌∷◌, some, true, false, ltb, arith,
  get_elem?, length, mod64, drop, Bool-cases, inl, inr, ap, sym, subst, ◌∙◌, ◌++◌,
}
use lzopfs.Blocks.{
  check_sizes, warns, Block, before, before_at, lower_bound, find_block, not_end, ok, err, runtime,
}
use lzopfs.Blocks.Tiles.{Tiles, end_from, le-end_from, before-Tiles, index_of}

-- A block that begins behind the position does not lie before it.
before-behind :
    (u off : ℕ) (bs : List Block) (j : ℕ) {b : Block}
    → Tiles u bs
    → end_from u bs < mod64
    → off < u
    → get_elem? bs j ≡ some b
    → before b off ≡ false
unfolding end_from
before-behind u off [] j t h lt e = cc
before-behind u off (c ∷ bs) zero {b} t h lt e =
    ground (arith, before-Tiles u off c t.0 t.1, le-end_from (u + c.usize) bs)
before-behind u off (c ∷ bs) (suc j) t h lt e =
    before-behind (u + c.usize) off bs j t.2 h (omega arith) e

-- The order is partitioned at `index_of`.
before-index_of :
    (u off : ℕ) (bs : List Block) (j : ℕ) {b : Block}
    → Tiles u bs
    → end_from u bs < mod64
    → get_elem? bs j ≡ some b
    → before b off ≡ ltb j (index_of off bs)
unfolding end_from index_of
before-index_of u off [] j t h e = cc
before-index_of u off (c ∷ bs) zero {b} t h e = ground arith
before-index_of u off (c ∷ bs) (suc j) {b} t h e = elim (Bool-cases (before c off)) [
  | inl before_c ↦ ground (arith, before-index_of (u + c.usize) off bs j {b = b} t.2 h e)
  | inr behind_c ↦ ground (
    arith,
    before-Tiles u off c t.0 t.1,
    le-end_from (u + c.usize) bs,
    before-behind (u + c.usize) off bs j {b = b} t.2 h,
  )
]

index_of-le-length : (off : ℕ) (bs : List Block) → index_of off bs ≤ length bs
unfolding index_of
index_of-le-length off [] = omega arith
index_of-le-length off (c ∷ bs) = ground (arith, index_of-le-length off bs)

get_elem?-lt : (bs : List Block) (i : ℕ) → i < length bs → (b : Block) × (get_elem? bs i ≡ some b)
get_elem?-lt [] i h = absurd (omega arith)
get_elem?-lt (b ∷ bs) zero h = (b, refl)
get_elem?-lt (b ∷ bs) (suc i) h = get_elem?-lt bs i (omega arith)

module _ (off : ℕ) (bs : List Block) (t : Tiles 0 bs) (h : end_from 0 bs < mod64) where
  before_at-index_of : (i : ℕ) → i < length bs → before_at bs off i ≡ ltb i (index_of off bs)
  unfolding before_at
  before_at-index_of i lt =
      let (b, e) = get_elem?-lt bs i lt in rw (e, before_at) (before-index_of 0 off bs i t h e)

  lower_bound_lem :
      (fuel first len : ℕ)
      → len ≤ fuel
      → first ≤ index_of off bs
      → index_of off bs ≤ first + len
      → first + len ≤ length bs
      → lower_bound fuel bs off first len ≡ index_of off bs
  unfolding lower_bound
  lower_bound_lem zero first len f l r b = omega arith
  lower_bound_lem (suc fuel) first zero f l r b = omega arith
  lower_bound_lem (suc fuel) first (suc len) f l r b = ground (
    arith,
    before_at-index_of (first + suc len / 2),
    lower_bound_lem fuel (first + suc len / 2 + 1) (suc len - suc len / 2 - 1),
    lower_bound_lem fuel first (suc len / 2),
  )

-- What `find_block` leaves of the list: from the block of the position on.
unfoldable pub seek : ℕ → List Block → List Block
seek off [] = []
seek off (b ∷ bs) = elim (before b off) [ true ↦ seek off bs | false ↦ b ∷ bs ]

drop-index_of : (off : ℕ) (bs : List Block) → drop (index_of off bs) bs ≡ seek off bs
unfolding index_of seek
drop-index_of off [] = refl
drop-index_of off (b ∷ bs) = ground (arith, drop-index_of off bs)

-- The search agrees with the linear one.
find_block-seek :
    (off : ℕ) (bs : List Block)
    → Tiles 0 bs
    → end_from 0 bs < mod64
    → find_block bs off ≡ not_end (seek off bs)
unfolding find_block
find_block-seek off bs t h =
    let stop =
      lower_bound_lem off bs t h (length bs) 0 (length bs) (omega arith) (omega arith)
        (omega (arith, index_of-le-length off bs)) (omega arith) in
    ap (λ i. not_end (drop i bs)) stop ∙ ap not_end (drop-index_of off bs)

seek-suffix : (off : ℕ) (bs : List Block) → (pre : List Block) × (bs ≡ pre ++ seek off bs)
unfolding seek
seek-suffix off [] = ([], refl)
seek-suffix off (b ∷ bs) = elim (Bool-cases (before b off)) [
  | inl e ↦ let (pre, split) = seek-suffix off bs in (b ∷ pre, rw (e, seek) (ap (◌∷◌ b) split))
  | inr e ↦ ([], rw (e, seek))
]

-- What a successful search yields: an iterator at the block that holds the position, over a list
-- that covers the rest of the file.
pub record Holds (u off : ℕ) (bs : List Block) (b : Block) (rest : List Block) : Type 0 where
  pub tiles : Tiles b.uoff (b ∷ rest)
  pub starts : b.uoff ≤ off
  pub ends : off < b.uoff + b.usize
  pub same_end : end_from b.uoff (b ∷ rest) ≡ end_from u bs

seek-Holds :
    (u off : ℕ) (bs : List Block)
    → Tiles u bs
    → end_from u bs < mod64
    → u ≤ off
    → off < end_from u bs
    → (b : Block) × (rest : List Block) × (seek off bs ≡ b ∷ rest) × Holds u off bs b rest
unfolding end_from seek
seek-Holds u off [] t h lo hi = absurd (omega arith)
seek-Holds u off (c ∷ bs) t h lo hi =
    let fits : u + c.usize < mod64 = omega (arith, le-end_from (u + c.usize) bs) in
    let test = before-Tiles u off c t.0 t.1 fits in
    elim (Bool-cases (before c off)) [
      | inl e ↦
          let past : u + c.usize ≤ off = ground arith in
          let (b, rest, found, holds) = seek-Holds (u + c.usize) off bs t.2 h past hi in
          (
            b,
            rest,
            rw (e, seek) found,
            record {
              tiles = holds.tiles;
              starts = holds.starts;
              ends = holds.ends;
              same_end = holds.same_end;
            },
          )
      | inr e ↦ (
        c,
        bs,
        rw (e, seek),
        record {
          tiles = subst (λ p. Tiles p (c ∷ bs)) (sym t.0) t;
          starts = omega (arith, t.0);
          ends = ground arith;
          same_end = ap (λ p. end_from p (c ∷ bs)) t.0;
        },
      )
    ]

seek-none :
    (u off : ℕ) (bs : List Block)
    → Tiles u bs
    → end_from u bs < mod64
    → end_from u bs ≤ off
    → seek off bs ≡ []
unfolding end_from seek
seek-none u off [] t h le = refl
seek-none u off (c ∷ bs) t h le = ground (
  arith,
  before-Tiles u off c t.0 t.1,
  le-end_from (u + c.usize) bs,
  seek-none (u + c.usize) off bs t.2,
)

-- In a list of nonempty blocks that follow each other without gaps from 0 and end below 2^64, the
-- binary search for a position before the end finds the block that holds it, with the rest of the
-- list behind it.
pub find_block-Holds :
    (off : ℕ) (bs : List Block)
    → Tiles 0 bs
    → end_from 0 bs < mod64
    → off < end_from 0 bs
    → (pre : List Block) × (b : Block) × (rest : List Block) × (find_block bs off ≡ ok (b ∷ rest))
      × (bs ≡ pre ++ b ∷ rest)
      × Holds 0 off bs b rest
find_block-Holds off bs t h lt =
    let (b, rest, found, holds) = seek-Holds 0 off bs t h (omega arith) lt in
    let (pre, split) = seek-suffix off bs in
    (
      pre,
      b,
      rest,
      find_block-seek off bs t h ∙ ap not_end found,
      split ∙ ap (◌++◌ pre) found,
      holds,
    )

-- In a list of nonempty blocks that follow each other without gaps from 0 and end below 2^64, the
-- search for a position at or behind the end is an error.
pub find_block-end :
    (off : ℕ) (bs : List Block)
    → Tiles 0 bs
    → end_from 0 bs < mod64
    → end_from 0 bs ≤ off
    → find_block bs off ≡ err runtime
find_block-end off bs t h le = find_block-seek off bs t h ∙ ap not_end (seek-none 0 off bs t h le)

-- The checks of the sizes of such a list begin at its first block, and look at all of them.
pub check_sizes-Tiles :
    (max_block : ℕ) (b : Block) (bs : List Block)
    → Tiles 0 (b ∷ bs)
    → end_from 0 (b ∷ bs) < mod64
    → check_sizes max_block (b ∷ bs) ≡ ok (warns max_block (b ∷ bs))
unfolding check_sizes end_from seek
check_sizes-Tiles max_block b bs t h =
    let low = le-end_from (0 + b.usize) bs in
    let first : before b 0 ≡ false = before-Tiles 0 0 b t.0 t.1 (omega arith) ∙ ground arith in
    let found = find_block-seek 0 (b ∷ bs) t h in ground (arith, found, first)
