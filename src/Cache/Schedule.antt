-- ===== src/Cache/Schedule.antt =====
-- BlockCache.cc: the jobs of one read under every order of their steps, with other threads at work
-- on the cache between them.
use lzopfs.Base.{
  ℕ, zero, suc, ◌+◌, ◌<◌, ◌≡◌, refl, ap, subst, ◌∙◌, List, [], ◌∷◌, arith, inl, inr, mod64, map,
}
use lzopfs.Blocks.{Block, Buffer, Result, ok}
use lzopfs.Blocks.Contents.{In}
use lzopfs.Read.{Sink}
use lzopfs.Read.Callback.{Served}
use lzopfs.Cache.{
  Request, Stage, queued, missed, decoded, stored, called, finished, Shared, Task, Event, work,
  others, work_at, run,
}
use lzopfs.Cache.Jobs.{job_step_lem}
use lzopfs.Cache.Invariants.{
  StageHolds, SharedHolds, Keeps, TasksHold, After, Coherent, IsFile, pending, open_jobs,
}

module _ (decode : Block → Result Buffer) (bs : List Block) (contents : Buffer)
    (file : IsFile decode bs contents) (q : Request) (small : q.offset + q.size < mod64) where
  regroup :
      {m n : ℕ} {s : Shared}
      → SharedHolds decode bs contents q m s
      → m ≡ n
      → SharedHolds decode bs contents q n s
  regroup {s} v e = subst (λ k. SharedHolds decode bs contents q k s) e v

  StageHolds-Keeps :
      (b : Block) (s s' : Sink) (stage : Stage)
      → Keeps decode bs contents q s s'
      → StageHolds decode bs contents q b s stage
      → StageHolds decode bs contents q b s' stage
  StageHolds-Keeps b s s' queued keeps h = tt
  StageHolds-Keeps b s s' missed keeps h = tt
  StageHolds-Keeps b s s' (decoded d) keeps h = h
  StageHolds-Keeps b s s' (stored d) keeps h = h
  StageHolds-Keeps b s s' called keeps h = keeps b h
  StageHolds-Keeps b s s' finished keeps h = keeps b h

  pub TasksHold-Keeps :
      (s s' : Sink) (ts : List Task)
      → Keeps decode bs contents q s s'
      → TasksHold decode bs contents q s ts
      → TasksHold decode bs contents q s' ts
  TasksHold-Keeps s s' [] keeps h = tt
  TasksHold-Keeps s s' (t ∷ ts) keeps (on, touches, stage, rest) =
      (on, touches, StageHolds-Keeps t.0 s s' t.1 keeps stage, TasksHold-Keeps s s' ts keeps rest)

  pub work_at_lem :
      (i n : ℕ) (ts : List Task) (s : Shared)
      → TasksHold decode bs contents q s.sink ts
      → SharedHolds decode bs contents q (open_jobs ts + n) s
      → (ts' : List Task) × (s' : Shared) × (work_at decode q i ts s ≡ ok (ts', s'))
        × After decode bs contents q n ts s ts' s'
  unfolding work_at
  work_at_lem zero n [] s h v =
      ([], s, refl, record { tasks = h; shared = v; keeps = λ c x. x; blocks = refl })
  work_at_lem (suc i) n [] s h v =
      ([], s, refl, record { tasks = h; shared = v; keeps = λ c x. x; blocks = refl })
  work_at_lem zero n ((b, stage) ∷ ts) s (on, touches, holds, rest) v =
      let (stage', s', e, after) =
        job_step_lem decode bs contents file q small b on touches (open_jobs ts + n) s stage holds
          (regroup v (omega arith)) in
      (
        (b, stage') ∷ ts,
        s',
        rw e,
        record {
          tasks =
              (on, touches, after.stage_holds, TasksHold-Keeps s.sink s'.sink ts after.keeps rest);
          shared = regroup after.shared (omega arith);
          keeps = after.keeps;
          blocks = refl;
        },
      )
  work_at_lem (suc i) n ((b, stage) ∷ ts) s (on, touches, holds, rest) v =
      let (ts', s', e, after) =
        work_at_lem i (pending stage + n) ts s rest (regroup v (omega arith)) in
      (
        (b, stage) ∷ ts',
        s',
        rw e,
        record {
          tasks =
              (on, touches, StageHolds-Keeps b s.sink s'.sink stage after.keeps holds, after.tasks);
          shared = regroup after.shared (omega arith);
          keeps = after.keeps;
          blocks = ap (◌∷◌ b) after.blocks;
        },
      )

  -- No schedule makes a job fault, and the invariants hold at its end.
  pub run_lem :
      (events : List Event) (ts : List Task) (s : Shared)
      → Coherent decode bs contents q events
      → TasksHold decode bs contents q s.sink ts
      → SharedHolds decode bs contents q (open_jobs ts + 0) s
      → (ts' : List Task) × (s' : Shared) × (run decode q events ts s ≡ ok (ts', s'))
        × After decode bs contents q 0 ts s ts' s'
  unfolding run
  run_lem [] ts s c h v =
      (ts, s, refl, record { tasks = h; shared = v; keeps = λ c x. x; blocks = refl })
  run_lem (work i ∷ events) ts s c h v =
      let (ts₁, s₁, e₁, a₁) = work_at_lem i 0 ts s h v in
      let (ts₂, s₂, e₂, a₂) = run_lem events ts₁ s₁ c a₁.tasks a₁.shared in
      (
        ts₂,
        s₂,
        rw e₁ e₂,
        record {
          tasks = a₂.tasks;
          shared = a₂.shared;
          keeps = λ c x. a₂.keeps c (a₁.keeps c x);
          blocks = a₂.blocks ∙ a₁.blocks;
        },
      )
  run_lem (others m ∷ events) ts s (c, cs) h v =
      let (ts', s', e, a) =
        run_lem events ts (record s { map = m }) cs h
          (record {
            coherent = c;
            good = v.good;
            count = v.count;
            signal = v.signal;
            machine = v.machine;
          }) in
      (
        ts',
        s',
        e,
        record { tasks = a.tasks; shared = a.shared; keeps = a.keeps; blocks = a.blocks },
      )

  -- When the waiting thread is woken, all blocks are served.
  pub all-Served :
      (ts : List Task) (s : Sink)
      → open_jobs ts ≡ 0
      → TasksHold decode bs contents q s ts
      → (b : Block) → In b (map (λ t. t.0) ts)
      → Served contents q.size q.offset b s
  all-Served [] s e h b on = absurd on
  all-Served ((c, finished) ∷ ts) s e (_, _, served, rest) b (inl same) = rw same served
  all-Served ((c, finished) ∷ ts) s e (_, _, served, rest) b (inr later) =
      all-Served ts s (omega arith) rest b later
  all-Served ((c, _) ∷ ts) s e h b on = absurd (omega arith)
