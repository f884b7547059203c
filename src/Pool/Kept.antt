-- ===== src/Pool/Kept.antt =====
-- ThreadPool.cc: where the jobs are that `enqueue` took.
use lzopfs.Base.{ℕ, ◌+◌, ◌≡◌, refl, ap, [], ◌∷◌, ◌++◌, none, some, arith, if◌then◌else◌, ◌==◌}
use lzopfs.Pool.{Pool, new_pool, cancel}
use lzopfs.Pool.Threads.{
  Worker, asks, holds, blocked, woken, stopped, works, System, tally, queued_jobs, Move, locks,
  relocks, waits, takes, leaves, runs, queued, refused, cancels, Begin, starts_queue,
  starts_destroy, wakes_up, move, begin, new_system, Reach, start, later,
}
use lzopfs.Pool.Tallies.{tally-split, tally-replicate, tally-broadcast, tally-Signal}
use lzopfs.Pool.Queue.{
  with_jobs, next_job-works, next_job-stops, next_job-sleeps, enqueue-ok, sum_of, sum_of-append,
  queued_jobs-append_job, queued_jobs-replicate,
}

module _ {J : Type 0} (f : J → ℕ) where
  -- What a thread has of the sum.
  unfoldable pub carried : Worker J → ℕ
  carried (works j) = f j
  carried _ = 0

  -- The sum over the jobs in a pool's queue.
  abbrev pub in_queue : Pool J → ℕ
  in_queue p = sum_of f (queued_jobs p.jobs)

  -- The sum over all places in which a job can be.
  abbrev pub everywhere : System J → ℕ
  everywhere s = sum_of f s.ran + tally carried s.workers + in_queue s.pool + sum_of f s.dropped

  abbrev pub IsKept : System J → Type 0
  IsKept s = sum_of f s.given ≡ everywhere s

  queue-works :
      {p q : Pool J} {j : J} → p ≡ with_jobs q (some j ∷ q.jobs) → in_queue p ≡ f j + in_queue q
  unfolding sum_of queued_jobs
  queue-works e = ap in_queue e

  queue-stops : {p q : Pool J} → p ≡ with_jobs q (none ∷ q.jobs) → in_queue p ≡ in_queue q
  unfolding sum_of queued_jobs
  queue-stops e = ap in_queue e

  queue-enqueue :
      (p q : Pool J) (j : J)
      → q ≡ with_jobs p (p.jobs ++ some j ∷ [])
      → in_queue q ≡ in_queue p + f j
  unfolding sum_of
  queue-enqueue p q j e = ground (
    arith,
    ap in_queue e,
    ap (sum_of f) (queued_jobs-append_job p.jobs j),
    sum_of-append f (queued_jobs p.jobs) (j ∷ []),
  )

  queue-cancel : (p : Pool J) → in_queue (cancel p) ≡ 0
  unfolding cancel sum_of
  queue-cancel p = ap (sum_of f) (queued_jobs-replicate p.threads)

  Move-IsKept : {s t : System J} → Move s t → IsKept s → IsKept t
  unfolding carried sum_of
  Move-IsKept (locks a b e l) inv = ground (arith, inv, tally-split carried a b asks holds e)
  Move-IsKept (relocks a b e l) inv = ground (arith, inv, tally-split carried a b woken holds e)
  Move-IsKept (waits a b e n) inv =
      ground
        (arith, inv, tally-split carried a b holds blocked e, ap in_queue (next_job-sleeps n).1)
  Move-IsKept (takes a b j e n) inv =
      ground (arith, inv, tally-split carried a b holds (works j) e, queue-works (next_job-works n))
  Move-IsKept (leaves a b e n) inv =
      ground (arith, inv, tally-split carried a b holds stopped e, queue-stops (next_job-stops n))
  Move-IsKept (runs a b j e) inv = ground (arith, inv, tally-split carried a b (works j) asks e)
  Move-IsKept {s} (queued j {p} o q g) inv =
      ground (
        arith,
        inv,
        tally-Signal carried refl g,
        queue-enqueue s.pool p j (enqueue-ok s.pool j q).1,
      )
  Move-IsKept (refused j o q) inv = inv
  Move-IsKept {s} (cancels o) inv = ground (
    arith,
    inv,
    tally-broadcast carried s.workers refl,
    sum_of-append f (queued_jobs s.pool.jobs) s.dropped,
    queue-cancel s.pool,
  )

  Begin-IsKept : {s t : System J} → Begin s t → IsKept s → IsKept t
  unfolding carried
  Begin-IsKept (starts_queue j o l) inv = inv
  Begin-IsKept (starts_destroy o l) inv = inv
  Begin-IsKept (wakes_up a b e) inv = ground (arith, inv, tally-split carried a b blocked woken e)

  -- However the threads of the pool interleave, in every state that they can reach each job that
  -- `enqueue` took is at exactly one place: run and deleted, with one thread, in the queue, or
  -- deleted by the destructor; a number attached to each job has the same sum over the jobs taken as
  -- over those places.
  pub Reach-IsKept : {threads cpus : ℕ} {s : System J} → Reach threads cpus s → IsKept s
  unfolding new_system new_pool carried sum_of queued_jobs
  Reach-IsKept {threads} {cpus} start =
      ground (arith, tally-replicate carried (if threads == 0 then cpus else threads) asks)
  Reach-IsKept (later r (move m)) = Move-IsKept m (Reach-IsKept r)
  Reach-IsKept (later r (begin m)) = Begin-IsKept m (Reach-IsKept r)
