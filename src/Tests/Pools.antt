-- ===== src/Tests/Pools.antt =====
-- The threads of the pool at concrete schedules.
use lzopfs.Base.{ℕ, ◌+◌, ◌≤◌, ◌≡◌, ◌⊎◌, inl, refl, [], ◌∷◌, none, some, true, false, arith, length}
use lzopfs.Pool.{new_pool, enqueue}
use lzopfs.Pool.Threads.{
  System, away, works, locks, queued, starts_queue, asks, holds, joins, tally, is_live, is_blocked,
  lock_mutex, unlock_mutex, nobody, Move, move, begin, new_system, Reach, start, later,
}
use lzopfs.Pool.Mutual.{bit, holding, owner_holding, Reach-IsExclusive}
use lzopfs.Pool.Kept.{Reach-IsKept, everywhere}
use lzopfs.Pool.Queue.{sum_of}
use lzopfs.Pool.Wakeups.{is_coming}
use lzopfs.Pool.Progress.{Reach-moves}

-- Two threads; the owner queues the job 7, and the first thread is at the queue.
abbrev looking : System ℕ
looking = record {
  pool = record { threads = 4; jobs = some 7 ∷ []; cancelling = false };
  mutex = true;
  owner = away;
  workers = holds ∷ asks ∷ [];
  given = 7 ∷ [];
  ran = [];
  dropped = [];
}

reaches_looking : Reach 2 8 looking
unfolding new_system new_pool lock_mutex unlock_mutex enqueue tally is_blocked
reaches_looking =
    later
      (later (later start (begin (starts_queue 7 refl refl)))
        (move (queued 7 refl refl (nobody refl))))
      (move (locks [] (asks ∷ []) refl refl))

Reach-IsExclusive_example :
    tally holding looking.workers + owner_holding looking.owner ≡ bit looking.mutex
Reach-IsExclusive_example = Reach-IsExclusive reaches_looking

Reach-IsKept_example : sum_of (λ j. j) looking.given ≡ everywhere (λ j. j) looking
Reach-IsKept_example = Reach-IsKept (λ j. j) reaches_looking

Reach-moves_example :
    ((t : System ℕ) × Move looking t)
    × ((tally is_blocked looking.workers ≡ 0)
        ⊎ (length looking.pool.jobs ≤ tally is_coming looking.workers))
unfolding tally is_live
Reach-moves_example = Reach-moves reaches_looking (omega arith) (inl (omega arith))

-- The destructor is called while the first thread runs the job, and comes to its joins.
abbrev joining : System ℕ
joining = record {
  pool = record { threads = 4; jobs = none ∷ none ∷ none ∷ none ∷ []; cancelling = true };
  mutex = false;
  owner = joins;
  workers = works 7 ∷ asks ∷ [];
  given = 7 ∷ [];
  ran = [];
  dropped = [];
}
