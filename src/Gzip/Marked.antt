-- ===== src/Gzip/Marked.antt =====
-- GzipFile.cc: each round of `buildIndex` leaves the blocks as the blocks of a list of marks.
use lzopfs.Base.{
  ℕ, ◌≡◌, refl, ap, sym, subst, ◌∙◌, List, [], ◌∷◌, ◌++◌, inl, inr, true, arith, Bool-cases, ltb,
  ◌-◌, ◌||◌, ◌==◌,
}
use lzopfs.Blocks.{result_cases, Block, ok}
use lzopfs.Handle.{Posix, Handle, ◌>>=◌, pure, size}
use lzopfs.Gzip.{
  Zlib, Reader, Code, z_ok, z_error, z_stream_end, block, reset, gzip_wrapper, ipos, opos,
  skip_footer, ibits,
}
use lzopfs.Gzip.Marks.{Mark, add_block, add_all}
use lzopfs.Gzip.Saving.{window_size, save, copy_window}
use lzopfs.Gzip.Builder.{
  Search, Round, more, over, is_end, add_indep, rewind, try_here, go_on, resume, end_stream, next,
  decoded, add_with_dict, failed, round,
}

-- The blocks of a list of marks, each of which was the last one for a while.
abbrev pub Marked : List Block → Type 0
Marked bs = (ms : List Mark) × (bs ≡ add_all ms [])

add_all-append :
    (ms : List Mark) (m : Mark) (bs : List Block)
    → add_all (ms ++ m ∷ []) bs ≡ add_block m (add_all ms bs)
unfolding add_all
add_all-append [] m bs = refl
add_all-append (n ∷ ms) m bs = add_all-append ms m (add_block n bs)

add_block-Marked : (m : Mark) (bs : List Block) → Marked bs → Marked (add_block m bs)
add_block-Marked m bs (ms, e) = (ms ++ m ∷ [], ap (add_block m) e ∙ sym (add_all-append ms m []))

-- The mark of the place that is tried.
abbrev tried_mark : {S : Type 0} → Search S → Mark
tried_mark s = record { uoff = s.uoff; coff = s.coff; bits = s.bits; dict = [] }

-- The blocks at the end of a round.
abbrev pub blocks_of : {S : Type 0} → Round S → List Block
blocks_of (more s) = s.blocks
blocks_of (over s) = s.blocks

module _ (lib : Zlib) (os : Posix) (min_block : ℕ) where
  rewind-blocks :
      (s s' : Search lib.Stream) (h h' : Handle)
      → rewind lib os min_block s h ≡ ok (s', h')
      → s'.blocks ≡ s.blocks
  unfolding rewind
  rewind-blocks s s' h h' e = ground (arith, e)

  try_here-blocks :
      (s s' : Search lib.Stream) (h h' : Handle)
      → try_here lib os min_block s h ≡ ok (s', h')
      → s'.blocks ≡ s.blocks
  unfolding try_here
  try_here-blocks s s' h h' e = elim (result_cases (ipos lib os s.reader.current h)) [
    | inr (x, bad) ↦ absurd (ground (arith, e, bad))
    | inl ((p, h₁), good) ↦ elim (result_cases (save lib os s.reader h₁)) [
      | inr (x, bad) ↦ absurd (ground (arith, e, good, bad))
      | inl ((q, h₂), kept) ↦ ground (arith, e, good, kept)
    ]
  ]

  go_on-blocks :
      (s : Search lib.Stream) (r : Round lib.Stream) (h h' : Handle)
      → go_on lib os min_block s h ≡ ok (r, h')
      → blocks_of r ≡ s.blocks
  unfolding go_on
  go_on-blocks s r h h' e = elim (result_cases (try_here lib os min_block s h)) [
    | inr (x, bad) ↦ ground (arith, e, bad)
    | inl ((s', h₁), good) ↦ ground (arith, e, good, try_here-blocks s s' h h₁ good)
  ]

  resume-blocks :
      (q : Reader lib.Stream) (s : Search lib.Stream) (r : Round lib.Stream) (h h' : Handle)
      → resume lib os min_block q s h ≡ ok (r, h')
      → blocks_of r ≡ s.blocks
  unfolding resume
  resume-blocks q s r h h' e = elim (result_cases (reset lib gzip_wrapper q)) [
    | inr (x, bad) ↦ absurd (ground (arith, e, bad))
    | inl (q', good) ↦
        go_on-blocks (record s { reader = record s.reader { current = q' } }) r h h'
          (ground (arith, e, good))
  ]

  end_stream-blocks :
      (s : Search lib.Stream) (r : Round lib.Stream) (h h' : Handle)
      → end_stream lib os min_block s h ≡ ok (r, h')
      → blocks_of r ≡ s.blocks
  unfolding end_stream
  end_stream-blocks s r h h' e = elim (result_cases (skip_footer lib os s.reader.current h)) [
    | inr (x, bad) ↦ absurd (ground (arith, e, bad))
    | inl ((q, h₁), skipped) ↦ elim (result_cases (ipos lib os q h₁)) [
      | inr (x, bad) ↦ absurd (ground (arith, e, skipped, bad))
      | inl ((p, h₂), told) ↦ elim (result_cases (size os h₂)) [
        | inr (x, bad) ↦ absurd (ground (arith, e, skipped, told, bad))
        | inl ((n, h₃), measured) ↦ elim (Bool-cases (p == n)) [
          | inl last ↦ ground (arith, e, skipped, told, measured, last)
          | inr more_streams ↦
              resume-blocks q s r h₃ h' (ground (arith, e, skipped, told, measured, more_streams))
        ]
      ]
    ]
  ]

  next-blocks :
      (code : Code) (s : Search lib.Stream) (r : Round lib.Stream) (h h' : Handle)
      → next lib os min_block code s h ≡ ok (r, h')
      → blocks_of r ≡ s.blocks
  next-blocks z_stream_end s r h h' e = end_stream-blocks s r h h' e
  next-blocks z_ok s r h h' e = go_on-blocks s r h h' e
  next-blocks z_error s r h h' e = go_on-blocks s r h h' e

  -- A rewind ends a round.
  rewound-blocks :
      (s : Search lib.Stream) (r : Round lib.Stream) (h h' : Handle)
      → (rewind lib os min_block s >>= λ s'. pure (more s')) h ≡ ok (r, h')
      → blocks_of r ≡ s.blocks
  rewound-blocks s r h h' e = elim (result_cases (rewind lib os min_block s h)) [
    | inr (x, bad) ↦ ground (arith, e, bad)
    | inl ((s', h₁), good) ↦ ground (arith, e, good, rewind-blocks s s' h h₁ good)
  ]

  kept-Marked :
      (s : Search lib.Stream) (r : Round lib.Stream)
      → Marked s.blocks
      → blocks_of r ≡ s.blocks
      → Marked (blocks_of r)
  kept-Marked s r k e = subst Marked (sym e) k

  decoded-Marked :
      (code : Code) (s : Search lib.Stream) (r : Round lib.Stream) (h h' : Handle)
      → Marked s.blocks
      → decoded lib os min_block code s h ≡ ok (r, h')
      → Marked (blocks_of r)
  unfolding decoded
  decoded-Marked code s r h h' k e =
      let grown = add_block-Marked (tried_mark s) s.blocks k in
      elim (Bool-cases s.indep) [
        | inr idle ↦ kept-Marked s r k (next-blocks code s r h h' (ground (arith, e, idle)))
        | inl tried ↦
            elim (Bool-cases (ltb window_size s.reader.current.out_bytes || is_end code)) [
              | inl good ↦ elim (Bool-cases s.backtrack) [
                | inl back ↦
                    kept-Marked (add_indep s) r grown
                      (rewound-blocks (add_indep s) r h h' (ground (arith, e, tried, good, back)))
                | inr on ↦
                    kept-Marked (add_indep s) r grown
                      (next-blocks code (add_indep s) r h h' (ground (arith, e, tried, good, on)))
              ]
              | inr short ↦ elim (Bool-cases (s.reader.current.out_bytes == 0)) [
                | inl none_yet ↦
                    kept-Marked s r k
                      (rewound-blocks s r h h' (ground (arith, e, tried, short, none_yet)))
                | inr some_bytes ↦ kept-Marked s r k (
                    next-blocks code (record s { backtrack = true }) r h h'
                      (ground (arith, e, tried, short, some_bytes)))
              ]
            ]
      ]

  add_with_dict-Marked :
      (s s' : Search lib.Stream) (h h' : Handle)
      → Marked s.blocks
      → add_with_dict lib os min_block s h ≡ ok (s', h')
      → Marked s'.blocks
  unfolding add_with_dict
  add_with_dict-Marked s s' h h' k e =
      elim (Bool-cases (ltb min_block (opos s.reader.current - s.last_idx))) [
        | inr near ↦ subst Marked (ground (arith, e, near)) k
        | inl far ↦ elim (result_cases (ipos lib os s.reader.current h)) [
          | inr (x, bad) ↦ absurd (ground (arith, e, far, bad))
          | inl ((p, h₁), told) ↦
              let m : Mark = record {
                uoff = opos s.reader.current;
                coff = p;
                bits = ibits lib s.reader.current;
                dict = copy_window lib s.reader.current;
              } in
              subst Marked (ground (arith, e, far, told)) (add_block-Marked m s.blocks k)
        ]
      ]

  failed-Marked :
      (s : Search lib.Stream) (r : Round lib.Stream) (h h' : Handle)
      → Marked s.blocks
      → failed lib os min_block s h ≡ ok (r, h')
      → Marked (blocks_of r)
  unfolding failed
  failed-Marked s r h h' k e = elim (Bool-cases s.indep) [
    | inr idle ↦ absurd (ground (arith, e, idle))
    | inl tried ↦ elim (result_cases (rewind lib os min_block s h)) [
      | inr (x, bad) ↦ absurd (ground (arith, e, tried, bad))
      | inl ((s₁, h₁), back) ↦ elim (result_cases (add_with_dict lib os min_block s₁ h₁)) [
        | inr (x, bad) ↦ absurd (ground (arith, e, tried, back, bad))
        | inl ((s₂, h₂), added) ↦
            let kept = subst Marked (sym (rewind-blocks s s₁ h h₁ back)) k in
            let end : s₂.blocks ≡ blocks_of r = ground (arith, e, tried, back, added) in
            subst Marked end (add_with_dict-Marked s₁ s₂ h₁ h₂ kept added)
      ]
    ]
  ]

  pub round-Marked :
      (fuel : ℕ) (s : Search lib.Stream) (r : Round lib.Stream) (h h' : Handle)
      → Marked s.blocks
      → round lib os min_block fuel s h ≡ ok (r, h')
      → Marked (blocks_of r)
  unfolding round
  round-Marked fuel s r h h' k e = elim (result_cases (block lib os fuel s.reader.current h)) [
    | inr (x, bad) ↦ absurd (ground (arith, e, bad))
    | inl (((z_ok, q), h₁), ran) ↦
        decoded-Marked z_ok (record s { reader = record s.reader { current = q } }) r h₁ h' k
          (ground (arith, e, ran))
    | inl (((z_stream_end, q), h₁), ran) ↦
        decoded-Marked z_stream_end (record s { reader = record s.reader { current = q } }) r h₁ h'
          k (ground (arith, e, ran))
    | inl (((z_error, q), h₁), ran) ↦
        failed-Marked (record s { reader = record s.reader { current = q } }) r h₁ h' k
          (ground (arith, e, ran))
  ]
