-- ===== src/Pool/Progress.antt =====
-- ThreadPool.cc: a thread goes on whenever the queue has something for it.
use lzopfs.Base.{
  ℕ, ◌+◌, ◌≤◌, ◌<◌, ◌≡◌, refl, ap, ◌∙◌, ◌⊎◌, inl, inr, List, [], ◌∷◌, ◌++◌, Bool, true, false,
  subst, arith, length, dec_lt,
}
use lzopfs.Blocks.{result_cases}
use lzopfs.Pool.{Pool, Turn, enqueue, next_job}
use lzopfs.Pool.Threads.{
  Worker, asks, holds, blocked, woken, stopped, works, Owner, away, destroys, queues, joins, System,
  tally, lock_mutex, is_blocked, is_live, Signal, nobody, one, Move, locks, relocks, waits, takes,
  leaves, runs, queued, refused, cancels, Reach,
}
use lzopfs.Pool.Tallies.{tally-found}
use lzopfs.Pool.Mutual.{bit, holding, owner_holding, Reach-IsExclusive}
use lzopfs.Pool.Wakeups.{is_coming, Reach-IsAwake}
use lzopfs.Pool.Stages.{Phase, Reach-IsStaged}

held_cases : (m : Bool) → (m ≡ false) ⊎ (bit m ≡ 1)
held_cases false = inl refl
held_cases true = inr refl

module _ {J : Type 0} where
  -- A thread that goes on without the mutex, or with it when it is free.
  unfoldable is_ready : Worker J → ℕ
  is_ready asks = 1
  is_ready woken = 1
  is_ready (works j) = 1
  is_ready _ = 0

  -- A thread at the queue goes on, whatever the queue is.
  Move-turn :
      (s : System J) (a b : List (Worker J)) (t : Turn J) {q : Pool J}
      → s.workers ≡ a ++ holds ∷ b
      → next_job s.pool ≡ (t, q)
      → (u : System J) × Move s u
  Move-turn s a b Turn.sleeps e h = (_, waits a b e h)
  Move-turn s a b Turn.stops e h = (_, leaves a b e h)
  Move-turn s a b (Turn.works j) e h = (_, takes a b j e h)

  blocked-eq : (w : Worker J) → 0 < is_blocked w → w ≡ blocked
  unfolding is_blocked
  blocked-eq blocked h = refl
  blocked-eq asks h = absurd (ground (arith, h))
  blocked-eq holds h = absurd (ground (arith, h))
  blocked-eq woken h = absurd (ground (arith, h))
  blocked-eq stopped h = absurd (ground (arith, h))
  blocked-eq (works j) h = absurd (ground (arith, h))

  holds-eq : (w : Worker J) → 0 < holding w → w ≡ holds
  unfolding holding
  holds-eq holds h = refl
  holds-eq asks h = absurd (ground (arith, h))
  holds-eq blocked h = absurd (ground (arith, h))
  holds-eq woken h = absurd (ground (arith, h))
  holds-eq stopped h = absurd (ground (arith, h))
  holds-eq (works j) h = absurd (ground (arith, h))

  signals : (ws : List (Worker J)) → (vs : List (Worker J)) × Signal ws vs
  signals ws = elim (dec_lt 0 (tally is_blocked ws)) [
    | no q ↦ (ws, nobody (omega (arith, q)))
    | yes p ↦
        let (a, b, w, e, h) = tally-found is_blocked ws p in
        (a ++ woken ∷ b, one a b (e ∙ ap (λ w. a ++ w ∷ b) (blocked-eq w h)))
  ]

  -- The thread that holds the mutex goes on.
  Move-owner :
      (s : System J) (o : Owner J) → s.owner ≡ o → 0 < owner_holding o → (t : System J) × Move s t
  unfolding owner_holding
  Move-owner s (queues j) e h = elim (result_cases (enqueue s.pool j)) [
    | inl (p, good) ↦ (_, queued j e good (signals s.workers).1)
    | inr (x, bad) ↦ (_, refused j e bad)
  ]
  Move-owner s destroys e h = (_, cancels e)
  Move-owner s away e h = absurd (ground (arith, h))
  Move-owner s joins e h = absurd (ground (arith, h))

  Move-held :
      (s : System J)
      → 0 < tally holding s.workers + owner_holding s.owner
      → (t : System J) × Move s t
  Move-held s h = elim (dec_lt 0 (tally holding s.workers)) [
    | yes p ↦
        let (a, b, w, e, k) = tally-found holding s.workers p in
        Move-turn s a b (next_job s.pool).0 (e ∙ ap (λ w. a ++ w ∷ b) (holds-eq w k)) refl
    | no q ↦ Move-owner s s.owner refl (omega (arith, h, q))
  ]

  -- A thread that is not at the queue goes on while the mutex is free.
  Move-free :
      (s : System J) (a b : List (Worker J)) (w : Worker J)
      → s.workers ≡ a ++ w ∷ b
      → s.mutex ≡ false
      → 0 < is_ready w
      → (t : System J) × Move s t
  unfolding is_ready lock_mutex
  Move-free s a b asks e free h = (_, locks a b e (ap lock_mutex free))
  Move-free s a b woken e free h = (_, relocks a b e (ap lock_mutex free))
  Move-free s a b (works j) e free h = (_, runs a b j e)
  Move-free s a b holds e free h = absurd (ground (arith, h))
  Move-free s a b blocked e free h = absurd (ground (arith, h))
  Move-free s a b stopped e free h = absurd (ground (arith, h))

  -- The threads that live are those that are ready, at the queue, or waiting.
  lives :
      (ws : List (Worker J))
      → tally is_live ws ≤ tally is_ready ws + tally is_coming ws + tally is_blocked ws
  unfolding tally is_live is_ready is_coming is_blocked
  lives [] = ground arith
  lives (asks ∷ ws) = ground (arith, lives ws)
  lives (holds ∷ ws) = ground (arith, lives ws)
  lives (blocked ∷ ws) = ground (arith, lives ws)
  lives (woken ∷ ws) = ground (arith, lives ws)
  lives (stopped ∷ ws) = ground (arith, lives ws)
  lives (works j ∷ ws) = ground (arith, lives ws)

  coming-le : (ws : List (Worker J)) → tally is_coming ws ≤ tally is_ready ws + tally holding ws
  unfolding tally is_ready is_coming holding
  coming-le [] = ground arith
  coming-le (asks ∷ ws) = ground (arith, coming-le ws)
  coming-le (holds ∷ ws) = ground (arith, coming-le ws)
  coming-le (blocked ∷ ws) = ground (arith, coming-le ws)
  coming-le (woken ∷ ws) = ground (arith, coming-le ws)
  coming-le (stopped ∷ ws) = ground (arith, coming-le ws)
  coming-le (works j ∷ ws) = ground (arith, coming-le ws)

  -- A thread is ready while a job or a request to stop is there for it, and the mutex is free.
  ready_pos :
      {threads cpus : ℕ} {s : System J}
      → Reach threads cpus s
      → 0 < tally is_live s.workers
      → tally holding s.workers ≡ 0
      → (0 < length s.pool.jobs) ⊎ (s.pool.cancelling ≡ true)
      → 0 < tally is_ready s.workers
  ready_pos {s = s} r live free why =
      let some_live = lives s.workers in
      let some_coming = coming-le s.workers in
      elim (Reach-IsAwake r) [
        | inl z ↦ omega (arith, live, free, some_live, some_coming, z)
        | inr le ↦ elim why [
          | inl pos ↦ omega (arith, pos, le, free, some_coming)
          | inr c ↦
              let st : Phase true s.pool s.workers =
                subst (λ c. Phase c s.pool s.workers) c (Reach-IsStaged r).phase in
              omega (arith, live, free, some_live, some_coming, st.2)
        ]
      ]

  -- In every state that the pool can reach with a thread that has not left, and with a job queued or
  -- the destructor past its section of code with the mutex, some thread can take a step of its own,
  -- that is, other than the begin of a call or a wake-up without a signal; and where a thread
  -- waits for the condition, at least as many others as there are entries in the queue hold the
  -- mutex in `nextJob` or were woken, so no entry is left that nobody was woken for.
  pub Reach-moves :
      {threads cpus : ℕ} {s : System J}
      → Reach threads cpus s
      → 0 < tally is_live s.workers
      → (0 < length s.pool.jobs) ⊎ (s.pool.cancelling ≡ true)
      → ((t : System J) × Move s t)
        × ((tally is_blocked s.workers ≡ 0) ⊎ (length s.pool.jobs ≤ tally is_coming s.workers))
  Reach-moves {s = s} r live why =
      let alone = Reach-IsExclusive r in
      (
        elim (held_cases s.mutex) [
          | inr h ↦ Move-held s (omega (arith, alone, h))
          | inl free ↦
              let empty : tally holding s.workers ≡ 0 = omega (arith, alone, ap bit free) in
              let (a, b, w, e, k) = tally-found is_ready s.workers (ready_pos r live empty why) in
              Move-free s a b w e free k
        ],
        Reach-IsAwake r,
      )
