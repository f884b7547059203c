-- ===== src/Pool/Wakeups.antt =====
-- ThreadPool.cc: the threads that wait for the condition, and the jobs they are waiting for.
use lzopfs.Base.{
  ℕ, suc, ◌+◌, ◌≤◌, ◌≡◌, ap, ◌∙◌, ◌⊎◌, inl, inr, List, ◌∷◌, ◌++◌, none, some, arith, length,
  length-append,
}
use lzopfs.Pool.{Pool, new_pool, cancel}
use lzopfs.Pool.Threads.{
  Worker, asks, holds, blocked, woken, stopped, works, System, tally, is_blocked, Move, locks,
  relocks, waits, takes, leaves, runs, queued, refused, cancels, Begin, starts_queue,
  starts_destroy, wakes_up, move, begin, new_system, Reach, start, later, Signal, nobody, one,
}
use lzopfs.Pool.Tallies.{tally-split, blocked-broadcast}
use lzopfs.Pool.Queue.{with_jobs, next_job-works, next_job-stops, next_job-sleeps, enqueue-ok}

module _ {J : Type 0} where
  -- A thread that will look at the queue before it waits.
  unfoldable pub is_coming : Worker J → ℕ
  is_coming holds = 1
  is_coming woken = 1
  is_coming _ = 0

  -- A thread waits only while every job of the queue has a thread that comes for it.
  abbrev pub IsAwake : System J → Type 0
  IsAwake s = (tally is_blocked s.workers ≡ 0) ⊎ (length s.pool.jobs ≤ tally is_coming s.workers)

  works-length :
      {p q : Pool J} {j : J}
      → p ≡ with_jobs q (some j ∷ q.jobs)
      → length p.jobs ≡ suc (length q.jobs)
  works-length e = ap (λ p. length p.jobs) e

  stops-length :
      {p q : Pool J} → p ≡ with_jobs q (none ∷ q.jobs) → length p.jobs ≡ suc (length q.jobs)
  stops-length e = ap (λ p. length p.jobs) e

  Signal-IsAwake :
      {ws vs : List (Worker J)} (n : ℕ)
      → Signal ws vs
      → (tally is_blocked ws ≡ 0) ⊎ (n ≤ tally is_coming ws)
      → (tally is_blocked vs ≡ 0) ⊎ (n + 1 ≤ tally is_coming vs)
  unfolding is_blocked is_coming
  Signal-IsAwake n (nobody z) inv = inl z
  Signal-IsAwake n (one a b e) (inl z) =
      absurd (ground (arith, z, tally-split is_blocked a b blocked asks e))
  Signal-IsAwake n (one a b e) (inr le) =
      inr (ground (arith, le, tally-split is_coming a b blocked woken e))

  -- A change of one thread that keeps what it waits for.
  keeps_awake :
      {ws : List (Worker J)} (a b : List (Worker J)) (w v : Worker J) (m n : ℕ)
      → ws ≡ a ++ w ∷ b
      → is_blocked v ≤ is_blocked w
      → n + is_coming w ≤ m + is_coming v
      → (tally is_blocked ws ≡ 0) ⊎ (m ≤ tally is_coming ws)
      → (tally is_blocked (a ++ v ∷ b) ≡ 0) ⊎ (n ≤ tally is_coming (a ++ v ∷ b))
  keeps_awake a b w v m n e h k (inl z) =
      inl (ground (arith, z, h, tally-split is_blocked a b w v e))
  keeps_awake a b w v m n e h k (inr le) =
      inr (ground (arith, le, k, tally-split is_coming a b w v e))

  Move-IsAwake : {s t : System J} → Move s t → IsAwake s → IsAwake t
  unfolding is_blocked is_coming cancel
  Move-IsAwake {s} (locks a b e l) inv =
      let n = length s.pool.jobs in
      keeps_awake a b asks holds n n e (ground arith) (ground arith) inv
  Move-IsAwake {s} (relocks a b e l) inv =
      let n = length s.pool.jobs in
      keeps_awake a b woken holds n n e (ground arith) (ground arith) inv
  Move-IsAwake (waits a b e n) inv = inr (
      ground
        (arith, ap length (next_job-sleeps n).0, ap (λ p. length p.jobs) (next_job-sleeps n).1))
  Move-IsAwake {s} (takes a b j {p} e n) inv =
      keeps_awake a b holds (works j) (length s.pool.jobs) (length p.jobs) e (ground arith)
        (ground (arith, works-length (next_job-works n))) inv
  Move-IsAwake {s} (leaves a b {p} e n) inv =
      keeps_awake a b holds stopped (length s.pool.jobs) (length p.jobs) e (ground arith)
        (ground (arith, stops-length (next_job-stops n))) inv
  Move-IsAwake {s} (runs a b j e) inv =
      let n = length s.pool.jobs in
      keeps_awake a b (works j) asks n n e (ground arith) (ground arith) inv
  Move-IsAwake {s} (queued j {p} o q g) inv =
      let same : length p.jobs ≡ length s.pool.jobs + 1 =
        ap (λ p. length p.jobs) (enqueue-ok s.pool j q).1 ∙ length-append s.pool.jobs _ in
      rw same (Signal-IsAwake (length s.pool.jobs) g inv)
  Move-IsAwake (refused j o q) inv = inv
  Move-IsAwake {s} (cancels o) inv = inl (blocked-broadcast s.workers)

  Begin-IsAwake : {s t : System J} → Begin s t → IsAwake s → IsAwake t
  unfolding is_blocked is_coming
  Begin-IsAwake (starts_queue j o l) inv = inv
  Begin-IsAwake (starts_destroy o l) inv = inv
  Begin-IsAwake {s} (wakes_up a b e) inv =
      let n = length s.pool.jobs in
      keeps_awake a b blocked woken n n e (ground arith) (ground arith) inv

  -- No wake-up is lost.
  pub Reach-IsAwake : {threads cpus : ℕ} {s : System J} → Reach threads cpus s → IsAwake s
  unfolding new_system new_pool is_blocked is_coming
  Reach-IsAwake start = inr (ground arith)
  Reach-IsAwake (later r (move m)) = Move-IsAwake m (Reach-IsAwake r)
  Reach-IsAwake (later r (begin m)) = Begin-IsAwake m (Reach-IsAwake r)
