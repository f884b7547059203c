-- ===== src/Pool/Order.antt =====
-- ThreadPool.cc: jobs are handed out in the order in which they were queued, each of them once.
use mathlib.Core.List.{append_assoc, append-nil}
use lzopfs.Base.{ℕ, ◌≡◌, refl, ap, sym, ◌∙◌, List, [], ◌∷◌, ◌++◌, some, false, map}
use lzopfs.Blocks.{ok}
use lzopfs.Pool.{Pool, PoolEvent, queue, ask, enqueue, next_job, run_pool}

module _ {J : Type 0} where
  -- The jobs that the events queue.
  unfoldable pub queued_by : List (PoolEvent J) → List J
  queued_by [] = []
  queued_by (queue j ∷ events) = j ∷ queued_by events
  queued_by (ask ∷ events) = queued_by events

  -- The pool with these jobs in the queue.
  abbrev pub waiting : ℕ → List J → Pool J
  waiting threads js = record { threads = threads; jobs = map some js; cancelling = false }

  map-append_one : (js : List J) (j : J) → map some js ++ some j ∷ [] ≡ map some (js ++ j ∷ [])
  map-append_one [] j = refl
  map-append_one (i ∷ js) j = ap (◌∷◌ (some i)) (map-append_one js j)

  -- From a pool that is not being destroyed, with only jobs in its queue, any sequence of events
  -- runs without an error, and the jobs handed out followed by those still queued are the jobs that
  -- were there followed by those queued, in their order.
  pub run_pool_lem :
      (threads : ℕ) (events : List (PoolEvent J)) (js : List J)
      → (out left : List J) × (run_pool events (waiting threads js)
          ≡ ok (out, waiting threads left))
        × (out ++ left ≡ js ++ queued_by events)
  unfolding run_pool queued_by enqueue next_job
  run_pool_lem threads [] js = ([], js, refl, sym (append-nil js))
  run_pool_lem threads (queue j ∷ events) js =
      let (out, left, ran, same) = run_pool_lem threads events (js ++ j ∷ []) in
      (
        out,
        left,
        rw (map-append_one js j, run_pool) ran,
        same ∙ append_assoc js (j ∷ []) (queued_by events),
      )
  run_pool_lem threads (ask ∷ events) [] =
      let (out, left, ran, same) = run_pool_lem threads events [] in
      (out, left, rw (ran, run_pool) refl, same)
  run_pool_lem threads (ask ∷ events) (j ∷ js) =
      let (out, left, ran, same) = run_pool_lem threads events js in
      (j ∷ out, left, rw (ran, run_pool) refl, ap (◌∷◌ j) same)
