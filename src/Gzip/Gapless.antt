-- ===== src/Gzip/Gapless.antt =====
-- GzipFile.cc: the blocks that `buildIndex` leaves.
use lzopfs.Base.{ℕ, zero, suc, ◌≡◌, refl, ap, subst, ◌∙◌, List, [], ◌∷◌, ◌⊎◌, inl, inr, arith}
use lzopfs.Blocks.{result_cases, Block, ok}
use lzopfs.Handle.{Posix, Handle, seek, pos, seek_set}
use lzopfs.Gzip.{Zlib, ipos, opos}
use lzopfs.Gzip.Marked.{Marked, round-Marked}
use lzopfs.Gzip.Marks.{Mark, add_block, add_all, set_last_size, spans, add_all-spans}
use lzopfs.Gzip.Builder.{Search, more, over, round, rounds, started, build_index}

-- Blocks that reach from each to the next.
abbrev pub Gapless : List Block → ℕ → ℕ → Type 0
Gapless bs uoff coff = (bs ≡ []) ⊎ ((m : Mark) × (ms : List Mark) × (bs ≡ spans m ms uoff coff))

set_last_size-Gapless :
    (uoff coff : ℕ) (bs : List Block) → Marked bs → Gapless (set_last_size uoff coff bs) uoff coff
unfolding set_last_size add_all add_block
set_last_size-Gapless uoff coff bs ([], e) = inl (ap (set_last_size uoff coff) e)
set_last_size-Gapless uoff coff bs (m ∷ ms, e) =
    inr (m, ms, ap (set_last_size uoff coff) e ∙ add_all-spans [] m ms uoff coff)

module _ (lib : Zlib) (os : Posix) (min_block : ℕ) where
  -- The rounds from a search to the one with which the loop ends, with the file at both.
  pub data Ended : Search lib.Stream → Handle → Search lib.Stream → Handle → Type 0 where
    last_round :
        {s s' : Search lib.Stream} {h h' : Handle} (fuel : ℕ)
        → round lib os min_block fuel s h ≡ ok (over s', h')
        → Ended s h s' h'
    one_round :
        {s s' s'' : Search lib.Stream} {h h' h'' : Handle} (fuel : ℕ)
        → round lib os min_block fuel s h ≡ ok (more s', h')
        → Ended s' h' s'' h''
        → Ended s h s'' h''

  -- The blocks are gapless up to where the reader of the last search is.
  abbrev pub EndsGapless : Search lib.Stream → Handle → List Block → Handle → Type 0
  EndsGapless s h bs h' =
      (s' : Search lib.Stream) × (h'' : Handle) × (p : ℕ) × Ended s h s' h''
      × (ipos lib os s'.reader.current h'' ≡ ok (p, h'))
      × Gapless bs (opos s'.reader.current) p

  pub rounds-Gapless :
      (fuel : ℕ) (s : Search lib.Stream) (bs : List Block) (h h' : Handle)
      → Marked s.blocks
      → rounds lib os min_block fuel s h ≡ ok (bs, h')
      → EndsGapless s h bs h'
  unfolding rounds
  rounds-Gapless zero s bs h h' k e = cc
  rounds-Gapless (suc fuel) s bs h h' k e =
      elim (result_cases (round lib os min_block (suc fuel) s h)) [
        | inr (x, bad) ↦ absurd (ground (arith, e, bad))
        | inl ((more s₁, h₁), ran) ↦
            let (s', h'', p, ended, told, gapless) =
              rounds-Gapless fuel s₁ bs h₁ h'
                (round-Marked lib os min_block (suc fuel) s (more s₁) h h₁ k ran)
                (ground (arith, e, ran)) in
            (s', h'', p, one_round (suc fuel) ran ended, told, gapless)
        | inl ((over s₁, h₁), ran) ↦ elim (result_cases (ipos lib os s₁.reader.current h₁)) [
          | inr (x, bad) ↦ absurd (ground (arith, e, ran, bad))
          | inl ((p, h₂), told) ↦
              let end : set_last_size (opos s₁.reader.current) p s₁.blocks ≡ bs =
                ground (arith, e, ran, told) in
              let kept = round-Marked lib os min_block (suc fuel) s (over s₁) h h₁ k ran in
              (
                s₁,
                h₁,
                p,
                last_round (suc fuel) ran,
                ground (arith, e, ran, told),
                subst (λ x. Gapless x (opos s₁.reader.current) p) end
                    (set_last_size-Gapless (opos s₁.reader.current) p s₁.blocks kept),
              )
        ]
      ]

  -- Whenever buildIndex of a gzip file comes to an end, whatever trials failed on the way, its
  -- rounds lead from the start of the file to a last reader, and the blocks are none, or each of
  -- them reaches, in the compressed and in the uncompressed file, exactly to where the next one
  -- begins, and the last one to the positions of that last reader, with the sizes in words of 32
  -- bits.
  pub build_index-Gapless :
      (fuel : ℕ) (bs : List Block) (h h' : Handle)
      → build_index lib os min_block fuel h ≡ ok (bs, h')
      → (p : ℕ) × (h₀ : Handle) × (seek os (pos 0) seek_set h ≡ ok (p, h₀))
        × EndsGapless started h₀ bs h'
  unfolding build_index add_all
  build_index-Gapless fuel bs h h' e = elim (result_cases (seek os (pos 0) seek_set h)) [
    | inr (x, bad) ↦ absurd (ground (arith, e, bad))
    | inl ((p, h₁), sought) ↦
        (p, h₁, sought, rounds-Gapless fuel started bs h₁ h' ([], refl) (ground (arith, e, sought)))
  ]
