-- ===== src/Gzip/Marks.antt =====
-- GzipFile.cc: how blocks are added to the index. The sizes of a block are known only when the next
-- one is added.
use lzopfs.Base.{ℕ, ◌%◌, List, [], ◌∷◌, ◌++◌, sub64, mod32, ◌≡◌, refl, ap, ◌∙◌}
use mathlib.Core.List.{append_assoc}
use lzopfs.Blocks.{Block, Buffer, gzip}

-- `setLastBlockSize`
unfoldable pub set_last_size : ℕ → ℕ → List Block → List Block
set_last_size uoff coff [] = []
set_last_size uoff coff (b ∷ []) =
    record b { usize = sub64 uoff b.uoff % mod32; csize = sub64 coff b.coff % mod32 } ∷ []
set_last_size uoff coff (b ∷ b' ∷ bs) = b ∷ set_last_size uoff coff (b' ∷ bs)

-- What a block is added with; an empty dictionary stands for none.
pub record Mark : Type 0 where
  pub uoff : ℕ
  pub coff : ℕ
  pub bits : ℕ
  pub dict : Buffer

-- `GzipBlock(uoff, coff, bits)`, with its dictionary
abbrev pub new_block : Mark → Block
new_block m = record {
  usize = 0;
  csize = 0;
  uoff = m.uoff;
  coff = m.coff;
  kind = gzip m.bits m.dict;
}

-- `addBlock`, and what the caller writes to the dictionary.
unfoldable pub add_block : Mark → List Block → List Block
unfolding set_last_size
add_block m bs = set_last_size m.uoff m.coff bs ++ new_block m ∷ []

unfoldable pub add_all : List Mark → List Block → List Block
unfolding add_block
add_all [] bs = bs
add_all (m ∷ ms) bs = add_all ms (add_block m bs)

-- The block from a mark up to a place, and the blocks from one mark to the next.
abbrev pub span : Mark → ℕ → ℕ → Block
span m uoff coff = record {
  usize = sub64 uoff m.uoff % mod32;
  csize = sub64 coff m.coff % mod32;
  uoff = m.uoff;
  coff = m.coff;
  kind = gzip m.bits m.dict;
}

unfoldable pub spans : Mark → List Mark → ℕ → ℕ → List Block
spans m [] uoff coff = span m uoff coff ∷ []
spans m (n ∷ ns) uoff coff = span m n.uoff n.coff ∷ spans n ns uoff coff

set_last_size-append :
    (uoff coff : ℕ) (bs : List Block) (m : Mark)
    → set_last_size uoff coff (bs ++ new_block m ∷ []) ≡ bs ++ span m uoff coff ∷ []
unfolding set_last_size
set_last_size-append uoff coff [] m = refl
set_last_size-append uoff coff (b ∷ []) m = refl
set_last_size-append uoff coff (b ∷ b' ∷ bs) m =
    ap (◌∷◌ b) (set_last_size-append uoff coff (b' ∷ bs) m)

pub add_all-spans :
    (bs : List Block) (m : Mark) (ms : List Mark) (uoff coff : ℕ)
    → set_last_size uoff coff (add_all ms (bs ++ new_block m ∷ [])) ≡ bs ++ spans m ms uoff coff
unfolding add_all add_block spans
add_all-spans bs m [] uoff coff = set_last_size-append uoff coff bs m
add_all-spans bs m (n ∷ ns) uoff coff =
    ap (λ all. set_last_size uoff coff (add_all ns (all ++ new_block n ∷ [])))
      (set_last_size-append n.uoff n.coff bs m)
    ∙ add_all-spans (bs ++ span m n.uoff n.coff ∷ []) n ns uoff coff
    ∙ append_assoc bs (span m n.uoff n.coff ∷ []) (spans n ns uoff coff)
