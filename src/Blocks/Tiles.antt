-- ===== src/Blocks/Tiles.antt =====
-- CompressedFile.cc: blocks that cover a file without gaps, as every index builder leaves them.
use lzopfs.Base.{ℕ, suc, ◌+◌, ◌<◌, ◌≤◌, ◌≡◌, List, [], ◌∷◌, true, false, leb, arith, length, mod64}
use lzopfs.Blocks.{Block, before, uncompressed_size}

-- The blocks from the position `u` on, each where the one before it ends, and none empty.
abbrev pub Tiles : ℕ → List Block → Type 0
Tiles u [] = Unit
Tiles u (b ∷ bs) = (b.uoff ≡ u) × (0 < b.usize) × Tiles (u + b.usize) bs

-- Where they end.
unfoldable pub end_from : ℕ → List Block → ℕ
end_from u [] = u
end_from u (b ∷ bs) = end_from (u + b.usize) bs

pub le-end_from : (u : ℕ) (bs : List Block) → u ≤ end_from u bs
unfolding end_from
le-end_from u [] = omega arith
le-end_from u (b ∷ bs) = omega (arith, le-end_from (u + b.usize) bs)

-- Of a nonempty list of nonempty blocks that follow each other without gaps and end below 2^64, the
-- uncompressed size is the end of the last block.
pub uncompressed_size-Tiles :
    (u : ℕ) (b : Block) (bs : List Block)
    → Tiles u (b ∷ bs)
    → end_from u (b ∷ bs) < mod64
    → uncompressed_size (b ∷ bs) ≡ end_from u (b ∷ bs)
unfolding uncompressed_size end_from
uncompressed_size-Tiles u b [] t h = omega arith
uncompressed_size-Tiles u b (b' ∷ bs) t h = uncompressed_size-Tiles (u + b.usize) b' bs t.2 h

pub before-Tiles :
    (u off : ℕ) (b : Block)
    → b.uoff ≡ u
    → 0 < b.usize
    → u + b.usize < mod64
    → before b off ≡ leb (u + b.usize) off
unfolding before
before-Tiles u off b e p h = ground arith

-- The index of the first block that ends behind the position.
unfoldable pub index_of : ℕ → List Block → ℕ
index_of off [] = 0
index_of off (b ∷ bs) = elim (before b off) [ true ↦ suc (index_of off bs) | false ↦ 0 ]

-- No more blocks than bytes.
pub length-Tiles : (u : ℕ) (bs : List Block) → Tiles u bs → u + length bs ≤ end_from u bs
unfolding end_from
length-Tiles u [] t = omega arith
length-Tiles u (b ∷ bs) t = omega (arith, length-Tiles (u + b.usize) bs t.2)
