-- ===== src/Pool/Stages.antt =====
-- ThreadPool.cc: what the pool is before and after the destructor's section of code with the mutex.
use lzopfs.Base.{
  ℕ, ◌*◌, ◌≤◌, ◌≡◌, refl, sym, ap, ◌∙◌, List, [], ◌∷◌, ◌++◌, Option, none, some, Bool, true, false,
  subst, arith, if◌then◌else◌, ◌==◌, length, length-replicate,
}
use lzopfs.Pool.{Pool, new_pool, cancel}
use lzopfs.Pool.Threads.{
  Worker, asks, holds, blocked, woken, stopped, works, Owner, joins, System, tally, unlock_mutex,
  is_blocked, is_live, Move, locks, relocks, waits, takes, leaves, runs, queued, refused, cancels,
  Begin, starts_queue, starts_destroy, wakes_up, move, begin, new_system, Reach, start, later,
}
use lzopfs.Pool.Tallies.{
  tally-split, length-split, tally-replicate, tally-broadcast, blocked-broadcast, length-broadcast,
  tally-Signal, length-Signal, tally-le-length,
}
use lzopfs.Pool.Queue.{
  with_jobs, next_job-works, next_job-stops, next_job-sleeps, enqueue-ok, stop_count, stop_count-le,
  stop_count-append_job, stop_count-replicate,
}

module _ {J : Type 0} where
  -- The owner is past the destructor's section of code with the mutex.
  unfoldable pub is_past : Owner J → Bool
  is_past joins = true
  is_past _ = false

  -- Before it the threads all live and no request to stop is queued; after it only requests are, as
  -- many as there are threads left at least, and no thread waits for the condition.
  abbrev pub Phase : Bool → Pool J → List (Worker J) → Type 0
  Phase false p ws = (tally is_live ws ≡ length ws) × (stop_count p.jobs ≡ 0)
  Phase true p ws =
      (length p.jobs ≡ stop_count p.jobs)
      × (tally is_live ws ≤ length p.jobs)
      × (tally is_blocked ws ≡ 0)

  pub record IsStaged (s : System J) : Type 0 where
    pub room : length s.workers ≤ s.pool.threads
    pub past : is_past s.owner ≡ s.pool.cancelling
    pub phase : Phase s.pool.cancelling s.pool s.workers

  -- A change of one thread that keeps the queue and the thread's share of the sums.
  same_stage :
      (c : Bool) (p : Pool J) {ws : List (Worker J)} (a b : List (Worker J)) (w v : Worker J)
      → ws ≡ a ++ w ∷ b
      → is_live v ≡ is_live w
      → is_blocked v ≤ is_blocked w
      → Phase c p ws
      → Phase c p (a ++ v ∷ b)
  same_stage false p a b w v e live block st =
      (ground (arith, st, live, tally-split is_live a b w v e, length-split a b w v e), st.1)
  same_stage true p a b w v e live block st = (
    st.0,
    ground (arith, st, live, tally-split is_live a b w v e),
    ground (arith, st, block, tally-split is_blocked a b w v e),
  )

  -- A change of one thread that keeps the pool.
  same_pool :
      {s : System J} (a b : List (Worker J)) (w v : Worker J) (m : Bool) (r : List J)
      → s.workers ≡ a ++ w ∷ b
      → is_live v ≡ is_live w
      → is_blocked v ≤ is_blocked w
      → IsStaged s
      → IsStaged (record s { mutex = m; ran = r; workers = a ++ v ∷ b })
  same_pool {s} a b w v m r e live block inv = record {
    room = rw (length-split a b w v e) inv.room;
    past = inv.past;
    phase = same_stage s.pool.cancelling s.pool a b w v e live block inv.phase;
  }

  -- The queue loses its head, and one thread changes.
  popped :
      {s : System J} {q : Pool J} (h : Option J) (a b : List (Worker J)) (v : Worker J)
      → s.workers ≡ a ++ holds ∷ b
      → s.pool ≡ with_jobs q (h ∷ q.jobs)
      → ((c : Bool) → Phase c s.pool s.workers → Phase c q (a ++ v ∷ b))
      → IsStaged s
      → IsStaged (record s { pool = q; mutex = false; workers = a ++ v ∷ b })
  popped {s} {q} h a b v e same next inv =
      let kept : s.pool.cancelling ≡ q.cancelling = ap (λ p. p.cancelling) same in
      record {
        room = ground (arith, inv.room, length-split a b holds v e, ap (λ p. p.threads) same);
        past = inv.past ∙ kept;
        phase = subst (λ c. Phase c q (a ++ v ∷ b)) kept (next s.pool.cancelling inv.phase);
      }

  taken :
      {p q : Pool J} (j : J) {ws : List (Worker J)} (a b : List (Worker J))
      → ws ≡ a ++ holds ∷ b
      → p ≡ with_jobs q (some j ∷ q.jobs)
      → (c : Bool) → Phase c p ws
      → Phase c q (a ++ works j ∷ b)
  unfolding is_live stop_count
  taken j a b e same false st = (
    ground
        (arith, st, tally-split is_live a b holds (works j) e, length-split a b holds (works j) e),
    ap (λ p. stop_count p.jobs) (sym same) ∙ st.1,
  )
  taken {p} {q} j a b e same true st = absurd (
      ground (
        arith,
        st,
        ap (λ p. stop_count p.jobs) same,
        ap (λ p. length p.jobs) same,
        stop_count-le q.jobs,
      ))

  left :
      {p q : Pool J} {ws : List (Worker J)} (a b : List (Worker J))
      → ws ≡ a ++ holds ∷ b
      → p ≡ with_jobs q (none ∷ q.jobs)
      → (c : Bool) → Phase c p ws
      → Phase c q (a ++ stopped ∷ b)
  unfolding is_live is_blocked stop_count
  left a b e same false st = absurd (ground (arith, st, ap (λ p. stop_count p.jobs) same))
  left {p} {q} a b e same true st =
      let stops = ap (λ p. stop_count p.jobs) same in
      let long = ap (λ p. length p.jobs) same in
      (
        ground (arith, st, stops, long),
        ground (arith, st, long, tally-split is_live a b holds stopped e),
        ground (arith, st, tally-split is_blocked a b holds stopped e),
      )

  -- A thread that finds no job waits for one, which happens before the destructor only.
  waited :
      (p : Pool J) {ws : List (Worker J)} (a b : List (Worker J))
      → ws ≡ a ++ holds ∷ b
      → p.jobs ≡ []
      → (c : Bool) → Phase c p ws
      → Phase c p (a ++ blocked ∷ b)
  unfolding is_live
  waited p a b e nil false st = (
    ground (arith, st, tally-split is_live a b holds blocked e, length-split a b holds blocked e),
    st.1,
  )
  waited p a b e nil true st =
      absurd (ground (arith, st, ap length nil, tally-split is_live a b holds stopped e))

  Move-IsStaged : {s t : System J} → Move s t → IsStaged s → IsStaged t
  unfolding is_past is_live is_blocked unlock_mutex cancel
  Move-IsStaged {s} (locks a b {m} e l) inv =
      same_pool a b asks holds m s.ran e refl (ground arith) inv
  Move-IsStaged {s} (relocks a b {m} e l) inv =
      same_pool a b woken holds m s.ran e refl (ground arith) inv
  Move-IsStaged {s} (waits a b {p} e n) inv = rw (next_job-sleeps n).1 record {
    room = rw (length-split a b holds blocked e) inv.room;
    past = inv.past;
    phase = waited s.pool a b e (next_job-sleeps n).0 s.pool.cancelling inv.phase;
  }
  Move-IsStaged {s} (takes a b j e n) inv =
      popped (some j) a b (works j) e (next_job-works n) (taken j a b e (next_job-works n)) inv
  Move-IsStaged {s} (leaves a b e n) inv =
      popped none a b stopped e (next_job-stops n) (left a b e (next_job-stops n)) inv
  Move-IsStaged {s} (runs a b j e) inv =
      same_pool a b (works j) asks s.mutex (j ∷ s.ran) e refl (ground arith) inv
  Move-IsStaged {s} (queued j {p} {ws} o q g) inv =
      let before = enqueue-ok s.pool j q in
      let st : Phase false s.pool s.workers =
        subst (λ c. Phase c s.pool s.workers) before.0 inv.phase in
      rw before.1 record {
        room = rw (length-Signal g) inv.room;
        past = sym before.0;
        phase =
            subst (λ c. Phase c (with_jobs s.pool (s.pool.jobs ++ some j ∷ [])) ws) (sym before.0)
              (
                ground (arith, st, tally-Signal is_live refl g, length-Signal g),
                stop_count-append_job s.pool.jobs j ∙ st.1,
              );
      }
  Move-IsStaged {s} (refused j {e} o q) inv = record {
    room = inv.room;
    past = ap is_past (sym o) ∙ inv.past;
    phase = inv.phase;
  }
  Move-IsStaged {s} (cancels o) inv =
      let stops = stop_count-replicate J s.pool.threads in
      let live = tally-broadcast is_live s.workers refl in
      let most = tally-le-length is_live (λ w. ground arith) s.workers in
      record {
        room = rw (length-broadcast s.workers) inv.room;
        past = refl;
        phase = (
          stops.1 ∙ sym stops.0,
          ground (arith, stops, live, most, inv.room),
          blocked-broadcast s.workers,
        );
      }

  Begin-IsStaged : {s t : System J} → Begin s t → IsStaged s → IsStaged t
  unfolding is_past is_live is_blocked
  Begin-IsStaged (starts_queue j o l) inv = record {
    room = inv.room;
    past = ap is_past (sym o) ∙ inv.past;
    phase = inv.phase;
  }
  Begin-IsStaged (starts_destroy o l) inv = record {
    room = inv.room;
    past = ap is_past (sym o) ∙ inv.past;
    phase = inv.phase;
  }
  Begin-IsStaged {s} (wakes_up a b e) inv =
      same_pool a b blocked woken s.mutex s.ran e refl (ground arith) inv

  pub Reach-IsStaged : {threads cpus : ℕ} {s : System J} → Reach threads cpus s → IsStaged s
  unfolding new_system new_pool is_past is_live stop_count
  Reach-IsStaged {threads} {cpus} start =
      let n = if threads == 0 then cpus else threads in
      let long = length-replicate {A = Worker J} n asks in
      let one_each : n * 1 ≡ n = omega arith in
      record {
        room = ground (arith, long);
        past = refl;
        phase = (tally-replicate {J = J} is_live n asks ∙ one_each ∙ sym long, refl);
      }
  Reach-IsStaged (later r (move m)) = Move-IsStaged m (Reach-IsStaged r)
  Reach-IsStaged (later r (begin m)) = Begin-IsStaged m (Reach-IsStaged r)
