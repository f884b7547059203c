-- ===== src/Cache/Finishing.antt =====
-- BlockCache.cc: the wait of a read can always come to its end.
use lzopfs.Base.{
  ℕ, zero, suc, ◌+◌, ◌-◌, ◌<◌, ◌≤◌, ◌≡◌, refl, ap, List, [], ◌∷◌, ◌++◌, some, arith, ◌⊎◌, inl, inr,
  true, mod64, length, ◌≢◌, ℕ_discrete,
}
use lzopfs.Blocks.{Block, Error, Buffer, Result, ok, err, ◌>>=◌, >>=-eq-ok}
use lzopfs.Read.{Sink}
use lzopfs.Cache.{
  Map, Request, Stage, queued, missed, decoded, stored, called, finished, Shared, Task, Event, work,
  others, work_at, run, job_step, Scan, read, get_blocks,
}
use lzopfs.Cache.Coherence.{IsCoherent}
use lzopfs.Cache.Waiting.{after_scan, run_jobs}
use lzopfs.Cache.Reading.{scan_read}
use lzopfs.Cache.Schedule.{work_at_lem}
use lzopfs.Cache.Invariants.{
  SharedHolds, TasksHold, Coherent, ScanHolds, IsFile, pending, open_jobs,
}

-- The steps that a job still has to take, at most.
abbrev pub rank : Stage → ℕ
rank queued = 5
rank missed = 4
rank (decoded d) = 3
rank (stored d) = 2
rank called = 1
rank finished = 0

abbrev pub total_rank : List Task → ℕ
total_rank [] = 0
total_rank (t ∷ ts) = rank t.1 + total_rank ts

-- The first job that is not done.
abbrev pub first_open : List Task → ℕ
first_open [] = 0
first_open ((b, finished) ∷ ts) = suc (first_open ts)
first_open ((b, stage) ∷ ts) = 0

pub open_jobs-le-total_rank : (ts : List Task) → open_jobs ts ≤ total_rank ts
open_jobs-le-total_rank [] = omega arith
open_jobs-le-total_rank ((b, stage) ∷ ts) =
    omega (arith, pending-le-rank stage, open_jobs-le-total_rank ts)
  where
    pending-le-rank : (x : Stage) → pending x ≤ rank x
    pending-le-rank finished = omega arith
    pending-le-rank x = omega arith

Result-cases {ℓ} :
    {A : Type ℓ} (r : Result A) → ((a : A) × (r ≡ ok a)) ⊎ ((e : Error) × (r ≡ err e))
Result-cases (ok a) = inl (a, refl)
Result-cases (err e) = inr (e, refl)

module _ (decode : Block → Result Buffer) (q : Request) where
  job_step-rank :
      (b : Block) (stage stage' : Stage) (s s' : Shared)
      → job_step decode q b stage s ≡ ok (stage', s')
      → stage ≢ finished
      → rank stage' < rank stage
  unfolding job_step
  job_step-rank b queued stage' s s' h ne = ground arith
  job_step-rank b missed stage' s s' h ne = ground arith
  job_step-rank b (decoded d) stage' s s' h ne = ground arith
  job_step-rank b (stored d) stage' s s' h ne = ground arith
  job_step-rank b called stage' s s' h ne = ground arith
  job_step-rank b finished stage' s s' h ne = absurd (ne refl)

  head_rank :
      (b : Block) (stage : Stage) (ts ts' : List Task) (s s' : Shared)
      → work_at decode q 0 ((b, stage) ∷ ts) s ≡ ok (ts', s')
      → stage ≢ finished
      → total_rank ts' < total_rank ((b, stage) ∷ ts)
  unfolding work_at
  head_rank b stage ts ts' s s' h ne =
      let (r, made, e) = >>=-eq-ok (job_step decode q b stage s) _ h in
      let shape : (b, r.0) ∷ ts ≡ ts' = cc made in
      omega (arith, ap total_rank shape, job_step-rank b stage r.0 s r.1 e ne)

  -- A step of the first open job brings the end nearer.
  pub work_at-rank :
      (ts ts' : List Task) (s s' : Shared)
      → work_at decode q (first_open ts) ts s ≡ ok (ts', s')
      → 0 < open_jobs ts
      → total_rank ts' < total_rank ts
  unfolding work_at
  work_at-rank [] ts' s s' h p = absurd (omega arith)
  work_at-rank ((b, finished) ∷ ts) ts' s s' h p =
      let (r, made, e) = >>=-eq-ok (work_at decode q (first_open ts) ts s) _ h in
      let shape : (b, finished) ∷ r.0 ≡ ts' = cc made in
      omega (arith, ap total_rank shape, work_at-rank ts r.0 s r.1 e (omega arith))
  work_at-rank ((b, stage) ∷ ts) ts' s s' h p = head_rank b stage ts ts' s s' h (λ e. cc)

  pub run-append :
      (events more : List Event) (ts : List Task) (s : Shared)
      → run decode q (events ++ more) ts s
        ≡ (run decode q events ts s >>= λ r. run decode q more r.0 r.1)
  unfolding run
  run-append [] more ts s = refl
  run-append (work i ∷ events) more ts s = elim (Result-cases (work_at decode q i ts s)) [
    | inl (r, e) ↦ rw (e, run) (run-append events more r.0 r.1)
    | inr (x, e) ↦ rw (e, run)
  ]
  run-append (others m ∷ events) more ts s = run-append events more ts (record s { map = m })

module _ (decode : Block → Result Buffer) (bs : List Block) (contents : Buffer)
    (file : IsFile decode bs contents) (q : Request) (small : q.offset + q.size < mod64) where
  idle_woken :
      (ts : List Task) (s : Shared)
      → SharedHolds decode bs contents q (open_jobs ts + 0) s
      → open_jobs ts ≡ 0
      → s.woken ≡ true
  idle_woken ts s v idle = ground (arith, v.signal, v.count)

  -- From every state of the jobs, some steps of theirs wake the waiting thread.
  pub can_finish :
      (n : ℕ) (ts : List Task) (s : Shared)
      → total_rank ts ≤ n
      → TasksHold decode bs contents q s.sink ts
      → SharedHolds decode bs contents q (open_jobs ts + 0) s
      → (more : List Event) × (ts' : List Task) × (s' : Shared) × Coherent decode bs contents q more
        × (run decode q more ts s ≡ ok (ts', s'))
        × (s'.woken ≡ true)
  unfolding run
  can_finish zero ts s h t v =
      ([], ts, s, tt, refl, idle_woken ts s v (omega (arith, open_jobs-le-total_rank ts)))
  can_finish (suc n) ts s h t v = elim (ℕ_discrete (open_jobs ts) 0) [
    | yes done ↦ ([], ts, s, tt, refl, idle_woken ts s v done)
    | no busy ↦
        let (ts₁, s₁, e₁, a₁) =
          work_at_lem decode bs contents file q small (first_open ts) 0 ts s t v in
        let nearer = work_at-rank decode q ts ts₁ s s₁ e₁ (omega arith) in
        let (more, ts₂, s₂, c, e₂, woken) = can_finish n ts₁ s₁ (omega arith) a₁.tasks a₁.shared in
        (work (first_open ts) ∷ more, ts₂, s₂, c, rw e₁ e₂, woken)
  ]

  after_scan-returns :
      (need : List Block) (sc : Scan) (events : List Event)
      → sc.need ≡ need
      → ScanHolds decode bs contents q sc
      → Coherent decode bs contents q events
      → length need < mod64
      → (more : List Event) × (r : Sink) × Coherent decode bs contents q more
        × (after_scan decode bs contents file q small (events ++ more) sc ≡ ok (some r))
  after_scan-returns [] sc events e v coherent few = ([], sc.sink, tt, rw (e, after_scan))
  after_scan-returns (b ∷ need) sc events e v coherent few =
      let (ts, sh, ran, after) =
        run_jobs decode bs contents file q small (b ∷ need) sc events e v coherent few (λ x. cc) in
      let (more, ts', sh', quiet, ended, woken) =
        can_finish (total_rank ts) ts sh (omega arith) after.tasks after.shared in
      (
        more,
        sh'.sink,
        quiet,
        rw (e, after_scan) (rw (run-append decode q events more) (rw ran (rw ended (rw woken)))),
      )

  -- For a file whose blocks decompress to its contents of less than 2^64 bytes and begin at
  -- different places: however the jobs of a read inside the file and the other threads have run so
  -- far, with an end below 2^64, the buffer of the size asked for, and caches that are coherent all
  -- along, some further steps, with coherent caches again, let the read return.
  pub read-returns :
      (events : List Event) (m : Map) (buf : Buffer)
      → IsCoherent decode q.id bs m
      → Coherent decode bs contents q events
      → length buf ≡ q.size
      → q.offset < length contents
      → (more : List Event) × (a : Buffer × ℕ) × Coherent decode bs contents q more
        × (read decode q (events ++ more) bs m buf ≡ ok (some a))
  unfolding read get_blocks
  read-returns events m buf coherent calm room inside =
      let x = scan_read decode bs contents file q small m buf coherent room inside in
      let (more, r, quiet, done) =
        after_scan-returns x.state.need x.state events refl x.holds calm x.few in
      (more, (r.buf, r.max_end - q.offset), quiet, rw x.found (rw x.scanned (rw done)))
