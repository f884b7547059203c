-- ===== src/Pool/Threads.antt =====
-- ThreadPool.h and ThreadPool.cc: the threads of the pool, which run at once. A step of the system
-- is what one thread does between two points at which another can run: it takes the mutex, ends a
-- section of code that holds it, or runs a job. A thread that waits for the condition can be woken
-- without a signal too, as pthread_cond_wait allows. A job is a parameter, and returns.
use lzopfs.Base.{
  ℕ, ◌+◌, ◌≡◌, List, [], ◌∷◌, ◌++◌, Option, none, some, Bool, true, false, if◌then◌else◌, ◌==◌, map,
  replicate,
}
use lzopfs.Blocks.{Error, ok, err}
use lzopfs.Pool.{Pool, Turn, new_pool, enqueue, next_job, cancel}

-- Where a thread of `threadFunc` is: it calls `nextJob`, holds the mutex there, waits for the
-- condition, was woken and waits for the mutex, runs a job, or has left.
pub data Worker (J : Type 0) : Type 0 where
  asks holds blocked woken stopped : Worker J
  works : J → Worker J

-- Where the thread that owns the pool is: outside, in `enqueue` or in the destructor with the mutex, or
-- in the destructor when it joins the entries of `mThreads`. It takes no step from there: the first
-- half of the entries, which `resize` made, have no thread, and to join them is undefined behaviour.
pub data Owner (J : Type 0) : Type 0 where
  away destroys joins : Owner J
  queues : J → Owner J

-- The pool with its threads, and what became of the jobs: those that `enqueue` took, that ran, and
-- that the destructor deleted.
pub record System (J : Type 0) : Type 0 where
  pub pool : Pool J
  pub mutex : Bool
  pub owner : Owner J
  pub workers : List (Worker J)
  pub given : List J
  pub ran : List J
  pub dropped : List J

-- `Mutex::lock`, which goes on only when the mutex is free, and `Mutex::unlock`.
unfoldable pub lock_mutex : Bool → Option Bool
lock_mutex held = if held then none else some true

unfoldable pub unlock_mutex : Bool → Bool
unlock_mutex _ = false

module _ {J : Type 0} where
  -- The sum of a number over the threads.
  unfoldable pub tally : (Worker J → ℕ) → List (Worker J) → ℕ
  tally f [] = 0
  tally f (w ∷ ws) = f w + tally f ws

  unfoldable pub is_blocked : Worker J → ℕ
  is_blocked blocked = 1
  is_blocked _ = 0

  unfoldable pub is_live : Worker J → ℕ
  is_live stopped = 0
  is_live _ = 1

  -- `ConditionVariable::signal`: one of the threads that wait, if there is one.
  pub data Signal (ws : List (Worker J)) : List (Worker J) → Type 0 where
    nobody : tally is_blocked ws ≡ 0 → Signal ws ws
    one : (a b : List (Worker J)) → ws ≡ a ++ blocked ∷ b → Signal ws (a ++ woken ∷ b)

  -- `ConditionVariable::broadcast`.
  unfoldable pub wake : Worker J → Worker J
  wake blocked = woken
  wake w = w

  unfoldable pub broadcast : List (Worker J) → List (Worker J)
  broadcast ws = map wake ws

  -- The jobs in a queue.
  unfoldable pub queued_jobs : List (Option J) → List J
  queued_jobs [] = []
  queued_jobs (none ∷ js) = queued_jobs js
  queued_jobs (some j ∷ js) = j ∷ queued_jobs js

  -- What the threads do once they are there.
  pub data Move (s : System J) : System J → Type 0 where
    locks :
        (a b : List (Worker J)) {m : Bool}
        → s.workers ≡ a ++ asks ∷ b
        → lock_mutex s.mutex ≡ some m
        → Move s (record s { mutex = m; workers = a ++ holds ∷ b })
    relocks :
        (a b : List (Worker J)) {m : Bool}
        → s.workers ≡ a ++ woken ∷ b
        → lock_mutex s.mutex ≡ some m
        → Move s (record s { mutex = m; workers = a ++ holds ∷ b })
    waits :
        (a b : List (Worker J)) {p : Pool J}
        → s.workers ≡ a ++ holds ∷ b
        → next_job s.pool ≡ (Turn.sleeps, p)
        → Move s (record s { pool = p; mutex = unlock_mutex s.mutex; workers = a ++ blocked ∷ b })
    takes :
        (a b : List (Worker J)) (j : J) {p : Pool J}
        → s.workers ≡ a ++ holds ∷ b
        → next_job s.pool ≡ (Turn.works j, p)
        → Move s (record s { pool = p; mutex = unlock_mutex s.mutex; workers = a ++ works j ∷ b })
    leaves :
        (a b : List (Worker J)) {p : Pool J}
        → s.workers ≡ a ++ holds ∷ b
        → next_job s.pool ≡ (Turn.stops, p)
        → Move s (record s { pool = p; mutex = unlock_mutex s.mutex; workers = a ++ stopped ∷ b })
    runs :
        (a b : List (Worker J)) (j : J)
        → s.workers ≡ a ++ works j ∷ b
        → Move s (record s { ran = j ∷ s.ran; workers = a ++ asks ∷ b })
    queued :
        (j : J) {p : Pool J} {ws : List (Worker J)}
        → s.owner ≡ queues j
        → enqueue s.pool j ≡ ok p
        → Signal s.workers ws
        → Move s (record s {
          pool = p;
          mutex = unlock_mutex s.mutex;
          owner = away;
          workers = ws;
          given = j ∷ s.given;
        })
    refused :
        (j : J) {e : Error}
        → s.owner ≡ queues j
        → enqueue s.pool j ≡ err e
        → Move s (record s { mutex = unlock_mutex s.mutex; owner = away })
    cancels :
        s.owner ≡ destroys
        → Move s (record s {
          pool = cancel s.pool;
          mutex = unlock_mutex s.mutex;
          owner = joins;
          workers = broadcast s.workers;
          dropped = queued_jobs s.pool.jobs ++ s.dropped;
        })

  -- A call of `enqueue` or of the destructor gets the mutex; a thread is woken without a signal.
  pub data Begin (s : System J) : System J → Type 0 where
    starts_queue :
        (j : J) {m : Bool}
        → s.owner ≡ away
        → lock_mutex s.mutex ≡ some m
        → Begin s (record s { mutex = m; owner = queues j })
    starts_destroy :
        {m : Bool}
        → s.owner ≡ away
        → lock_mutex s.mutex ≡ some m
        → Begin s (record s { mutex = m; owner = destroys })
    wakes_up :
        (a b : List (Worker J))
        → s.workers ≡ a ++ blocked ∷ b
        → Begin s (record s { workers = a ++ woken ∷ b })

  pub data Step (s t : System J) : Type 0 where
    move : Move s t → Step s t
    begin : Begin s t → Step s t

  -- After the constructor: the threads are created and call `nextJob`.
  unfoldable pub new_system : ℕ → ℕ → System J
  new_system threads cpus = record {
    pool = new_pool threads cpus;
    mutex = false;
    owner = away;
    workers = replicate (if threads == 0 then cpus else threads) asks;
    given = [];
    ran = [];
    dropped = [];
  }

  pub data Reach (threads cpus : ℕ) : System J → Type 0 where
    start : Reach threads cpus (new_system threads cpus)
    later : {s t : System J} → Reach threads cpus s → Step s t → Reach threads cpus t
