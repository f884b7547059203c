-- ===== src/Pool/Ending.antt =====
-- ThreadPool.cc: the threads leave once the destructor has asked them to.
use lzopfs.Base.{ℕ, suc}
use lzopfs.Pool.Threads.{Worker, asks, holds, blocked, woken, stopped, works, System, tally, Step}

-- Steps one after the other.
pub data Steps {J : Type 0} : ℕ → System J → System J → Type 0 where
  done : {s : System J} → Steps 0 s s
  next : {n : ℕ} {s t u : System J} → Step s t → Steps n t u → Steps (suc n) s u

module _ {J : Type 0} where
  -- How many steps a thread takes at most before it stops, once only requests to stop are queued.
  unfoldable pub steps_left : Worker J → ℕ
  steps_left asks = 2
  steps_left woken = 2
  steps_left blocked = 3
  steps_left holds = 1
  steps_left stopped = 0
  steps_left (works j) = 3

  abbrev pub left : System J → ℕ
  left s = tally steps_left s.workers
