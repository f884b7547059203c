-- ===== src/Pool.antt =====
-- ThreadPool.h and ThreadPool.cc: the queue of jobs that the worker threads share. Each operation
-- holds the mutex of the queue, so it is one step. A job of the queue is `some`, the request to stop
-- that the destructor queues is `none`.
pub mod Order
pub mod Threads
pub mod Tallies
pub mod Mutual
pub mod Queue
pub mod Kept
pub mod Wakeups
pub mod Stages
pub mod Progress
pub mod Ending
use lzopfs.Base.{
  ℕ, zero, suc, ◌+◌, List, [], ◌∷◌, ◌++◌, Option, none, some, Bool, true, false, if◌then◌else◌,
  ◌==◌, replicate,
}
use lzopfs.Blocks.{Result, ok, err, runtime}

pub record Pool (J : Type 0) : Type 0 where
  pub threads : ℕ
  pub jobs : List (Option J)
  pub cancelling : Bool

-- What a worker does next.
pub data Turn (J : Type 0) : Type 0 where
  sleeps stops : Turn J
  works : J → Turn J

-- What happens to a pool: a thread queues a job, or a worker asks for one.
pub data PoolEvent (J : Type 0) : Type 0 where
  queue : J → PoolEvent J
  ask : PoolEvent J

module _ {J : Type 0} where
  -- The constructor; the count of entries in `mThreads` is twice that of the threads, since
  -- `resize` makes as many as are appended afterwards.
  unfoldable pub new_pool : ℕ → ℕ → Pool J
  new_pool threads cpus =
      let n = if threads == 0 then cpus else threads in
      record { threads = n + n; jobs = []; cancelling = false }

  unfoldable pub enqueue : Pool J → J → Result (Pool J)
  enqueue p job =
      if p.cancelling then err runtime else ok (record p { jobs = p.jobs ++ some job ∷ [] })

  -- `nextJob`, in the loop of `threadFunc`.
  unfoldable pub next_job : Pool J → Turn J × Pool J
  next_job p = elim p.jobs [
    | [] ↦ (sleeps, p)
    | job ∷ jobs ↦ elim job [
      | none ↦ (stops, record p { jobs = jobs })
      | some j ↦ (works j, record p { jobs = jobs })
    ]
  ]

  -- What the destructor does before it waits for the threads.
  unfoldable pub cancel : Pool J → Pool J
  cancel p = record p { jobs = replicate p.threads none; cancelling = true }

  -- A sequence of events: the jobs that were handed out, in their order, and the pool.
  unfoldable pub run_pool : List (PoolEvent J) → Pool J → Result (List J × Pool J)
  unfolding enqueue next_job
  run_pool [] p = ok ([], p)
  run_pool (queue j ∷ events) p = elim (enqueue p j) [ err e ↦ err e | ok p' ↦ run_pool events p' ]
  run_pool (ask ∷ events) p = elim (run_pool events (next_job p).1) [
    | err e ↦ err e
    | ok r ↦ elim (next_job p).0 [ works j ↦ ok (j ∷ r.0, r.1) | sleeps ↦ ok r | stops ↦ ok r ]
  ]
