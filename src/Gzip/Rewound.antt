-- ===== src/Gzip/Rewound.antt =====
-- GzipReader.cc and GzipFile.cc: a decode that was tried in vain leaves nothing behind.
use native.Mathlib.Nat.{zero-add}
use lzopfs.Base.{
  Bool-cases, inl, inr, ℕ, zero, suc, ◌-◌, ◌≡◌, refl, ap, sym, ◌∙◌, some, true, false,
  if◌then◌else◌, ltb, arith, sub64, ◌==◌,
}
use lzopfs.Blocks.{result_cases, ok}
use lzopfs.Handle.{Posix, Handle, seek, pos, seek_set, try_read}
use lzopfs.Handle.Regular.{IsRegular, target, tell_lem}
use lzopfs.Gzip.{
  Zlib, Reader, Code, z_ok, z_error, z_stream_end, Flush, z_block, initialize, step, supply,
  run_inflate, reset_out_buf, at_block, block, opos, ibits, ipos,
}
use lzopfs.Gzip.Saving.{Saver, set_up, reader_to_save, swap, save, restore, copy_window}
use lzopfs.Gzip.Marks.{Mark, add_block}
use lzopfs.Gzip.Builder.{Search, more, try_here, rewind, failed, round, add_with_dict}

module _ (lib : Zlib) where
  -- A reader that is initialised.
  abbrev pub IsReady : Reader lib.Stream → Type 0
  IsReady r = (s : lib.Stream) × (r.stream ≡ some s)

  initialize-ready :
      (r : Reader lib.Stream) (s : lib.Stream) → r.stream ≡ some s → initialize lib r ≡ ok (s, r)
  unfolding initialize
  initialize-ready r s e = ground (arith, e)

  module _ (os : Posix) (regular : IsRegular os) where
    set_up-ok :
        (kept r : Reader lib.Stream) (place : ℕ) (s : Saver lib.Stream)
        → set_up lib kept place r ≡ ok s
        → (s.saved ≡ some kept) × (s.save_seek ≡ place)
    unfolding set_up
    set_up-ok kept r place s e = ground (arith, e)

    -- What is saved.
    save_lem :
        (s s' : Saver lib.Stream) (h h' : Handle)
        → IsReady s.current
        → save lib os s h ≡ ok (s', h')
        → (s'.saved ≡ some s.current) × (s'.save_seek ≡ h.position) × (h' ≡ h)
    unfolding save swap
    save_lem s s' h h' (t, ready) e =
        elim (result_cases (initialize lib (reader_to_save lib s.saved))) [
          | inr (x, bad) ↦ absurd (ground (arith, e, bad, initialize-ready s.current t ready))
          | inl ((u, o), good) ↦ elim (result_cases (set_up lib s.current h.position o)) [
            | inr (x, bad) ↦ absurd (
                ground
                  (arith, e, bad, good, initialize-ready s.current t ready, tell_lem os regular h))
            | inl (s₁, e₁) ↦
                let ran : save lib os s h ≡ ok (s₁, h) =
                  ground
                    (arith, e₁, good, initialize-ready s.current t ready, tell_lem os regular h) in
                let same : s₁ ≡ s' = cc (ran, e) in
                let here : h' ≡ h = cc (ran, e) in
                let (kept, place) = set_up-ok s.current o h.position s₁ e₁ in
                (cc (kept, same), cc (place, same), here)
          ]
        ]

    supply-contents :
        (chunk : ℕ) (r r' : Reader lib.Stream) (h h' : Handle)
        → supply lib os chunk r h ≡ ok (r', h')
        → h'.contents ≡ h.contents
    unfolding supply try_read
    supply-contents chunk r r' h h' e = ground (arith, e)

    step_lem :
        (chunk : ℕ) (flush : Flush) (code : Code) (r r' : Reader lib.Stream) (h h' : Handle)
        → step lib os chunk flush r h ≡ ok ((code, r'), h')
        → IsReady r' × (h'.contents ≡ h.contents)
    unfolding step
    step_lem chunk flush code r r' h h' e = elim (result_cases (initialize lib r)) [
      | inr (x, bad) ↦ absurd (ground (arith, e, bad))
      | inl ((s, r₁), good) ↦ elim (result_cases (supply lib os chunk r₁ h)) [
        | inr (x, bad) ↦ absurd (ground (arith, e, good, bad))
        | inl ((r₂, h₂), given) ↦
            let ran : step lib os chunk flush r h
                ≡ ok (
                  run_inflate lib flush s (if r₂.avail_out == 0 then reset_out_buf r₂ else r₂),
                  h₂,
                ) =
              rw (good, step) (rw given refl) in
            let reader : (run_inflate lib flush s
                  (if r₂.avail_out == 0 then reset_out_buf r₂ else r₂)).1
                ≡ r' =
              cc (ran, e) in
            let there : h₂ ≡ h' = cc (ran, e) in
            (
              (_, ap (λ x. x.stream) (sym reader)),
              ap (λ x. x.contents) (sym there) ∙ supply-contents chunk r₁ r₂ h h₂ given,
            )
      ]
    ]

    block_lem :
        (fuel : ℕ) (code : Code) (r r' : Reader lib.Stream) (h h' : Handle)
        → block lib os fuel r h ≡ ok ((code, r'), h')
        → IsReady r' × (h'.contents ≡ h.contents)
    unfolding block
    block_lem zero code r r' h h' e = cc
    block_lem (suc fuel) code r r' h h' e = elim (result_cases (step lib os 4096 z_block r h)) [
      | inr (x, bad) ↦ absurd (ground (arith, e, bad))
      | inl (((z_error, r₁), h₁), good) ↦
          let ran : block lib os (suc fuel) r h ≡ ok ((z_error, r₁), h₁) = rw (good, block) refl in
          step_lem 4096 z_block code r r' h h' (good ∙ sym ran ∙ e)
      | inl (((z_stream_end, r₁), h₁), good) ↦
          let ran : block lib os (suc fuel) r h ≡ ok ((z_stream_end, r₁), h₁) =
            rw (good, block) refl in
          step_lem 4096 z_block code r r' h h' (good ∙ sym ran ∙ e)
      | inl (((z_ok, r₁), h₁), good) ↦ elim (Bool-cases (at_block lib r₁)) [
        | inl whole ↦
            let ran : block lib os (suc fuel) r h ≡ ok ((z_ok, r₁), h₁) =
              rw (good, block) (rw whole refl) in
            step_lem 4096 z_block code r r' h h' (good ∙ sym ran ∙ e)
        | inr part ↦
            let ran : block lib os (suc fuel) r h ≡ block lib os fuel r₁ h₁ =
              rw (good, block) (rw part refl) in
            let (ready, same) = block_lem fuel code r₁ r' h₁ h' (sym ran ∙ e) in
            (ready, same ∙ (step_lem 4096 z_block z_ok r r₁ h h₁ good).1)
      ]
    ]

    -- The saved reader is there again, and the file is at its place.
    restore_lem :
        (s : Saver lib.Stream) (kept : Reader lib.Stream) (h : Handle)
        → IsReady s.current
        → s.saved ≡ some kept
        → IsReady kept
        → restore lib os s h
          ≡ ok (
            record s { current = kept; saved = some s.current },
            record h { position = s.save_seek },
          )
    unfolding restore swap seek target
    restore_lem s kept h (t, ready) saved (u, ready_kept) = ground (
      arith,
      saved,
      initialize-ready s.current t ready,
      initialize-ready kept u ready_kept,
      regular.seeks h.contents h.position (pos s.save_seek) seek_set,
      zero-add s.save_seek,
    )

    module _ (min_block : ℕ) where
      -- What is tried.
      try_here_lem :
          (s s₁ : Search lib.Stream) (h h₁ : Handle)
          → IsReady s.reader.current
          → try_here lib os min_block s h ≡ ok (s₁, h₁)
          → (s₁.reader.saved ≡ some s.reader.current)
            × (s₁.reader.save_seek ≡ h.position)
            × (h₁ ≡ h)
            × (s₁.indep ≡ true)
            × (s₁.blocks ≡ s.blocks)
            × (s₁.last_idx ≡ s.last_idx)
      unfolding try_here ipos
      try_here_lem s s₁ h h₁ ready e = elim (result_cases (save lib os s.reader h)) [
        | inr (x, bad) ↦ absurd (ground (arith, e, bad, tell_lem os regular h))
        | inl ((r, h₂), good) ↦
            let (saved, place, here) = save_lem s.reader r h h₂ ready good in
            ground (arith, e, good, saved, place, here, tell_lem os regular h)
      ]

      rewind_lem :
          (s : Search lib.Stream) (kept : Reader lib.Stream) (h : Handle)
          → IsReady s.reader.current
          → s.reader.saved ≡ some kept
          → IsReady kept
          → rewind lib os min_block s h
            ≡ ok (
              record s {
                reader = record s.reader { current = kept; saved = some s.reader.current };
                indep = false;
              },
              record h { position = s.reader.save_seek },
            )
      unfolding rewind
      rewind_lem s kept h ready saved ready_kept =
          ground (arith, restore_lem s.reader kept h ready saved ready_kept)

      -- A block with a dictionary at the place of the reader.
      abbrev pub dict_mark : Search lib.Stream → Handle → Mark
      dict_mark s h = record {
        uoff = opos s.reader.current;
        coff = sub64 h.position s.reader.current.avail_in;
        bits = ibits lib s.reader.current;
        dict = copy_window lib s.reader.current;
      }

      -- It is added where the reader is far enough behind the last block.
      abbrev pub with_dict : Search lib.Stream → Handle → Search lib.Stream
      with_dict s h =
          if ltb min_block (opos s.reader.current - s.last_idx)
          then record s {
            blocks = add_block (dict_mark s h) s.blocks;
            last_idx = opos s.reader.current;
          }
          else s

      add_with_dict_lem :
          (s : Search lib.Stream) (h : Handle)
          → add_with_dict lib os min_block s h ≡ ok (with_dict s h, h)
      unfolding add_with_dict ipos
      add_with_dict_lem s h = ground (arith, tell_lem os regular h)

      with_dict-same :
          (s s' : Search lib.Stream) (h : Handle)
          → s'.reader.current ≡ s.reader.current
          → s'.blocks ≡ s.blocks
          → s'.last_idx ≡ s.last_idx
          → ((with_dict s' h).reader.current ≡ s.reader.current)
            × ((with_dict s' h).indep ≡ s'.indep)
            × ((with_dict s' h).blocks ≡ (with_dict s h).blocks)
            × ((with_dict s' h).last_idx ≡ (with_dict s h).last_idx)
      with_dict-same s s' h current blocks last = ground (arith, current, blocks, last)

      -- On a regular system, with an initialised reader, a trial decode that meets an error in its
      -- first block leaves no trace: the round that it ends has no error, the reader is again as it
      -- was, the file is at its old place with its contents, nothing is tried any more, and the
      -- blocks and the place of the last one are as if there had been no trial, with a block with
      -- the dictionary of the window added exactly where the reader is further behind the last block
      -- than the limit.
      pub round-rewinds :
          (fuel : ℕ) (s s₁ : Search lib.Stream) (r : Reader lib.Stream) (h h₁ h₂ : Handle)
          → IsReady s.reader.current
          → try_here lib os min_block s h ≡ ok (s₁, h₁)
          → block lib os fuel s₁.reader.current h₁ ≡ ok ((z_error, r), h₂)
          → (s₂ : Search lib.Stream) × (round lib os min_block fuel s₁ h₁ ≡ ok (more s₂, h))
            × (s₂.reader.current ≡ s.reader.current)
            × (s₂.indep ≡ false)
            × (s₂.blocks ≡ (with_dict s h).blocks)
            × (s₂.last_idx ≡ (with_dict s h).last_idx)
      unfolding round failed
      round-rewinds fuel s s₁ r h h₁ h₂ ready tried bad =
          let (saved, place, here, indep, blocks, last) = try_here_lem s s₁ h h₁ ready tried in
          let (ready₂, same) = block_lem fuel z_error s₁.reader.current r h₁ h₂ bad in
          let s' = record s₁ { reader = record s₁.reader { current = r } } in
          let s'' = record s' {
            reader = record s'.reader { current = s.reader.current; saved = some r };
            indep = false;
          } in
          let back : rewind lib os min_block s' h₂
              ≡ ok (s'', record h₂ { position = s₁.reader.save_seek }) =
            rewind_lem s' s.reader.current h₂ ready₂ saved ready in
          let there : record h₂ { position = s₁.reader.save_seek } ≡ h =
            ground (arith, place, same, here) in
          let added = add_with_dict_lem s'' h in
          let (e₁, e₂, e₃, e₄) = with_dict-same s s'' h refl blocks last in
          (with_dict s'' h, ground (arith, bad, indep, back, there, added), e₁, e₂, e₃, e₄)
