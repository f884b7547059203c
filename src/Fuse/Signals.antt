-- ===== src/Fuse/Signals.antt =====
-- BlockCache.cc: a job signals only when the thread of its read waits.
use lzopfs.Base.{
  zero, suc, ℕ, ◌<◌, ◌≡◌, ◌⊎◌, ◌==◌, ◌&&◌, not, refl, inl, inr, List, [], ◌∷◌, Bool, true, false,
  arith,
}
use lzopfs.Blocks.{Block, Buffer, Result, ok, result_cases}
use lzopfs.Cache.{
  Request, Shared, Stage, queued, missed, decoded, stored, called, finished, Task, job_step,
  work_at,
}
use lzopfs.Fuse.Mount.{is_called, at_signal}

module _ (decode : Block → Result Buffer) (q : Request) where
  -- Only the last step of a job changes the count of the jobs.
  job_step-remain :
      (b : Block) (stage stage' : Stage) (s s' : Shared)
      → is_called stage ≡ false
      → job_step decode q b stage s ≡ ok (stage', s')
      → s'.remain ≡ s.remain
  unfolding job_step is_called
  job_step-remain b queued stage' s s' h e = ground (arith, e)
  job_step-remain b missed stage' s s' h e = ground (arith, e)
  job_step-remain b (decoded d) stage' s s' h e = ground (arith, e)
  job_step-remain b (stored d) stage' s s' h e = ground (arith, e)
  job_step-remain b called stage' s s' h e = absurd (ground (arith, h))
  job_step-remain b finished stage' s s' h e = ground (arith, e)

  work_at-remain :
      (i : ℕ) (ts ts' : List Task) (s s' : Shared)
      → at_signal i ts ≡ false
      → work_at decode q i ts s ≡ ok (ts', s')
      → s'.remain ≡ s.remain
  unfolding work_at at_signal
  work_at-remain zero [] ts' s s' h e = ground (arith, e)
  work_at-remain (suc i) [] ts' s s' h e = ground (arith, e)
  work_at-remain zero ((b, stage) ∷ ts) ts' s s' h e =
      elim (result_cases (job_step decode q b stage s)) [
        | inl ((stage', s''), f) ↦
            let same = job_step-remain b stage stage' s s'' h f in ground (arith, e, f, same)
        | inr (x, f) ↦ absurd (ground (arith, e, f))
      ]
  work_at-remain (suc i) (t ∷ ts) ts' s s' h e = elim (result_cases (work_at decode q i ts s)) [
    | inl ((ts'', s''), f) ↦
        let same = work_at-remain i ts ts'' s s'' h f in ground (arith, e, f, same)
    | inr (x, f) ↦ absurd (ground (arith, e, f))
  ]

  -- A signal finds the thread of the read waiting.
  pub signal_kept :
      (i : ℕ) (waiting : Bool) (ts ts' : List Task) (s s' : Shared)
      → (not waiting && at_signal i ts) ≡ false
      → work_at decode q i ts s ≡ ok (ts', s')
      → (waiting ≡ true) ⊎ (0 < s.remain)
      → s'.woken ≡ (s'.remain == 0)
      → ((s'.woken && waiting) ≡ (s'.remain == 0)) × ((waiting ≡ true) ⊎ (0 < s'.remain))
  signal_kept i true ts ts' s s' free e some_left signal = (ground (arith, signal), inl refl)
  signal_kept i false ts ts' s s' free e some_left signal =
      let same = work_at-remain i ts ts' s s' free e in
      let pos : 0 < s'.remain = ground (arith, same, some_left) in
      (ground (arith, signal, pos), inr pos)
