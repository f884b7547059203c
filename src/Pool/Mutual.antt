-- ===== src/Pool/Mutual.antt =====
-- ThreadPool.h: `Mutex`, `Lock` and `ConditionVariable`, as ThreadPool.cc uses them: who holds the
-- mutex of the pool.
use lzopfs.Base.{ℕ, ◌+◌, ◌≤◌, ◌≡◌, refl, ap, some, Bool, true, false, arith, if◌then◌else◌, ◌==◌}
use lzopfs.Pool.Threads.{
  Worker, asks, holds, blocked, woken, stopped, works, Owner, destroys, queues, System, tally,
  lock_mutex, unlock_mutex, Move, locks, relocks, waits, takes, leaves, runs, queued, refused,
  cancels, Begin, starts_queue, starts_destroy, wakes_up, move, begin, new_system, Reach, start,
  later,
}
use lzopfs.Pool.Tallies.{tally-split, tally-replicate, tally-broadcast, tally-Signal}

abbrev pub bit : Bool → ℕ
bit true = 1
bit false = 0

bit-le : (b : Bool) → bit b ≤ 1
bit-le true = ground arith
bit-le false = ground arith

-- A mutex is taken only when it is free.
pub lock_mutex_lem : (b m : Bool) → lock_mutex b ≡ some m → (bit b ≡ 0) × (bit m ≡ 1)
unfolding lock_mutex
lock_mutex_lem true m e = absurd (ground (arith, e))
lock_mutex_lem false true e = (refl, refl)
lock_mutex_lem false false e = absurd (ground (arith, e))

module _ {J : Type 0} where
  unfoldable pub holding : Worker J → ℕ
  holding holds = 1
  holding _ = 0

  unfoldable pub owner_holding : Owner J → ℕ
  owner_holding destroys = 1
  owner_holding (queues j) = 1
  owner_holding _ = 0

  -- The threads in a section of code between `mLock.lock()` and `unlock()` are counted by the mutex.
  abbrev pub IsExclusive : System J → Type 0
  IsExclusive s = tally holding s.workers + owner_holding s.owner ≡ bit s.mutex

  Move-IsExclusive : {s t : System J} → Move s t → IsExclusive s → IsExclusive t
  unfolding holding owner_holding unlock_mutex
  Move-IsExclusive (locks a b e l) inv =
      ground (arith, inv, tally-split holding a b asks holds e, lock_mutex_lem _ _ l)
  Move-IsExclusive (relocks a b e l) inv =
      ground (arith, inv, tally-split holding a b woken holds e, lock_mutex_lem _ _ l)
  Move-IsExclusive {s} (waits a b e n) inv =
      ground (arith, inv, tally-split holding a b holds blocked e, bit-le s.mutex)
  Move-IsExclusive {s} (takes a b j e n) inv =
      ground (arith, inv, tally-split holding a b holds (works j) e, bit-le s.mutex)
  Move-IsExclusive {s} (leaves a b e n) inv =
      ground (arith, inv, tally-split holding a b holds stopped e, bit-le s.mutex)
  Move-IsExclusive (runs a b j e) inv =
      ground (arith, inv, tally-split holding a b (works j) asks e)
  Move-IsExclusive {s} (queued j o q g) inv =
      ground (arith, inv, tally-Signal holding refl g, bit-le s.mutex, ap owner_holding o)
  Move-IsExclusive {s} (refused j o q) inv = ground (arith, inv, bit-le s.mutex, ap owner_holding o)
  Move-IsExclusive {s} (cancels o) inv =
      ground
        (arith, inv, bit-le s.mutex, ap owner_holding o, tally-broadcast holding s.workers refl)

  Begin-IsExclusive : {s t : System J} → Begin s t → IsExclusive s → IsExclusive t
  unfolding holding owner_holding
  Begin-IsExclusive (starts_queue j o l) inv =
      ground (arith, inv, lock_mutex_lem _ _ l, ap owner_holding o)
  Begin-IsExclusive (starts_destroy o l) inv =
      ground (arith, inv, lock_mutex_lem _ _ l, ap owner_holding o)
  Begin-IsExclusive (wakes_up a b e) inv =
      ground (arith, inv, tally-split holding a b blocked woken e)

  -- In every state that a pool can reach, the number of threads (workers in `nextJob`, and the owner
  -- in `enqueue` or in the destructor) that are in a section of code with the mutex is 1 while the
  -- mutex is held and 0 while it is free: no two of them are at the queue at once.
  pub Reach-IsExclusive : {threads cpus : ℕ} {s : System J} → Reach threads cpus s → IsExclusive s
  unfolding new_system holding owner_holding
  Reach-IsExclusive {threads} {cpus} start =
      ground (arith, tally-replicate holding (if threads == 0 then cpus else threads) asks)
  Reach-IsExclusive (later r (move m)) = Move-IsExclusive m (Reach-IsExclusive r)
  Reach-IsExclusive (later r (begin m)) = Begin-IsExclusive m (Reach-IsExclusive r)
