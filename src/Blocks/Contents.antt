-- ===== src/Blocks/Contents.antt =====
-- CompressedFile.h: what `decompressBlock` and the index of a file mean together. The decompressors
-- are not part of the repository: `decode` stands for `decompressBlock` on an open file.
use lzopfs.Base.{
  ℕ, ◌+◌, ◌-◌, ◌<◌, ◌≤◌, ◌≡◌, List, [], ◌∷◌, ◌++◌, length, ◌⊎◌, inl, inr, get_elem?,
  get_elem?-append, length-append, arith, ap, subst, ◌∙◌, sym,
}
use lzopfs.Blocks.{Block, Buffer, Result, ok}
use lzopfs.Blocks.Tiles.{Tiles, end_from}

-- The block is on the list.
abbrev pub In : Block → List Block → Type 0
In b [] = ⊥
In b (c ∷ bs) = (b ≡ c) ⊎ In b bs

pub In-append : (b : Block) (pre bs : List Block) → In b bs → In b (pre ++ bs)
In-append b [] bs h = h
In-append b (c ∷ pre) bs h = inr (In-append b pre bs h)

-- The data of a block is its part of the file's contents.
pub record Part (contents : Buffer) (b : Block) (d : Buffer) : Type 0 where
  pub size : length d ≡ b.usize
  pub inside : b.uoff + b.usize ≤ length contents
  pub bytes : (i : ℕ) → i < b.usize → get_elem? d i ≡ get_elem? contents (b.uoff + i)

module _ (decode : Block → Result Buffer) where
  -- The blocks from the position `u` on decompress, in their order, to the given contents.
  abbrev pub Encodes : ℕ → List Block → Buffer → Type 0
  Encodes u [] contents = contents ≡ []
  Encodes u (b ∷ bs) contents =
      (d : Buffer) × (rest : Buffer) × (contents ≡ d ++ rest)
      × (decode b ≡ ok d)
      × (length d ≡ b.usize)
      × (b.uoff ≡ u)
      × (0 < b.usize)
      × Encodes (u + b.usize) bs rest

  pub Encodes-Tiles :
      (u : ℕ) (bs : List Block) (contents : Buffer)
      → Encodes u bs contents
      → Tiles u bs × (end_from u bs ≡ u + length contents)
  unfolding end_from
  Encodes-Tiles u [] contents e = (tt, omega (arith, ap length e))
  Encodes-Tiles u (b ∷ bs) contents (d, rest, split, _, size, at, pos, more) =
      let (tiles, ends) = Encodes-Tiles (u + b.usize) bs rest more in
      ((at, pos, tiles), omega (arith, ap length split, length-append d rest))

  -- The data of every block on the list is its part of what comes from `u` on.
  Encodes-shifted :
      (u : ℕ) (bs : List Block) (contents : Buffer) (b : Block)
      → Encodes u bs contents
      → In b bs
      → (d : Buffer) × (decode b ≡ ok d)
        × (length d ≡ b.usize)
        × (u ≤ b.uoff)
        × (b.uoff + b.usize ≤ u + length contents)
        × ((i : ℕ) → i < b.usize → get_elem? d i ≡ get_elem? contents (b.uoff - u + i))
  Encodes-shifted u [] contents b e h = absurd h
  Encodes-shifted u (c ∷ bs) contents b (d, rest, split, found, size, at, pos, more) (inl same) =
      subst
        (λ x.
          (d : Buffer) × (decode x ≡ ok d)
          × (length d ≡ x.usize)
          × (u ≤ x.uoff)
          × (x.uoff + x.usize ≤ u + length contents)
          × ((i : ℕ) → i < x.usize → get_elem? d i ≡ get_elem? contents (x.uoff - u + i)))
        (sym same)
        (
          d,
          found,
          size,
          omega arith,
          omega (arith, ap length split, length-append d rest),
          λ i h. rw split (ground (arith, get_elem?-append d rest i)),
        )
  Encodes-shifted u (c ∷ bs) contents b (d, rest, split, found, size, at, pos, more) (inr later) =
      let (d', found', size', above, inside, bytes) =
        Encodes-shifted (u + c.usize) bs rest b more later in
      (
        d',
        found',
        size',
        omega arith,
        omega (arith, ap length split, length-append d rest),
        λ i h. bytes i h ∙ rw split (ground (arith, get_elem?-append d rest (b.uoff - u + i))),
      )

  pub Encodes-Part :
      (bs : List Block) (contents : Buffer) (b : Block)
      → Encodes 0 bs contents
      → In b bs
      → (d : Buffer) × (decode b ≡ ok d) × Part contents b d
  Encodes-Part bs contents b e h =
      let (d, found, size, above, inside, bytes) = Encodes-shifted 0 bs contents b e h in
      (
        d,
        found,
        record {
          size = size;
          inside = omega arith;
          bytes = λ i k. bytes i k ∙ ap (λ j. get_elem? contents (j + i)) (omega arith);
        },
      )
