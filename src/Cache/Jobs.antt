-- ===== src/Cache/Jobs.antt =====
-- BlockCache.cc: what one step of a job does to the cache, the sink and the count of open jobs.
use lzopfs.Base.{
  ℕ, ◌+◌, ◌<◌, ◌≡◌, refl, List, Option, none, some, arith, ◌⊎◌, inl, inr, ◌||◌, ◌==◌, sub64, mod64,
}
use lzopfs.Blocks.{Block, Buffer, Result, ok}
use lzopfs.Blocks.Contents.{In, Encodes-Part}
use lzopfs.Lru
use lzopfs.Read.{Sink, callback}
use lzopfs.Read.Callback.{IsGood, Served, Touches, callback_lem}
use lzopfs.Cache.{
  Key-discrete, key_of, Map, Request, Stage, queued, missed, decoded, stored, called, finished,
  Shared, job_step,
}
use lzopfs.Cache.Coherence.{IsCoherent, find-IsCoherent, store-IsCoherent}
use lzopfs.Cache.Invariants.{StageHolds, SharedHolds, Keeps, StepHolds, IsFile, pending}

module _ (decode : Block → Result Buffer) (bs : List Block) (contents : Buffer)
    (file : IsFile decode bs contents) (q : Request) (small : q.offset + q.size < mod64) where
  pub serve :
      (b : Block) (d : Buffer) (s : Sink)
      → In b bs
      → Touches contents q.size q.offset b
      → decode b ≡ ok d
      → IsGood contents q.size q.offset s
      → (s' : Sink) × (callback q.size q.offset b d s ≡ ok s')
        × IsGood contents q.size q.offset s'
        × Served contents q.size q.offset b s'
        × Keeps decode bs contents q s s'
  serve b d s h t e good =
      let (d', e', part) = Encodes-Part decode bs contents b file.encodes h in
      let same : d' ≡ d = cc in
      callback_lem contents q.size q.offset small file.short b d (rw same at part) t s good

  module _ (b : Block) (h : In b bs) (t : Touches contents q.size q.offset b) (n : ℕ)
      (s : Shared) where
    -- The first step, from what the lookup finds.
    job_step_queued :
        (m' : Map) × (r : Option Buffer) × (Lru.find Key-discrete s.map (key_of q.id b)
            ≡ some (m', r))
          × IsCoherent decode q.id bs m'
          × ((r ≡ none) ⊎ ((d : Buffer) × (r ≡ some d) × (decode b ≡ ok d)))
        → SharedHolds decode bs contents q (1 + n) s
        → (stage' : Stage) × (s' : Shared) × (job_step decode q b queued s ≡ ok (stage', s'))
          × StepHolds decode bs contents q b n s stage' s'
    unfolding job_step
    job_step_queued (m', none, found, coherent, _) v = (
      missed,
      record s { map = m' },
      rw (found, job_step),
      record {
        stage_holds = tt;
        shared = record {
          coherent = coherent;
          good = v.good;
          count = v.count;
          signal = v.signal;
          machine = v.machine;
        };
        keeps = λ c x. x;
      },
    )
    job_step_queued (m', some d, found, coherent, inl absent) v = absurd (cc)
    job_step_queued (m', some d, found, coherent, inr (d', same, e)) v =
        let right : decode b ≡ ok d = cc in
        let (s', done, good, served, keeps) = serve b d s.sink h t right v.good in
        (
          called,
          record s { map = m'; sink = s' },
          rw (found, job_step) (rw done),
          record {
            stage_holds = served;
            shared = record {
              coherent = coherent;
              good = good;
              count = v.count;
              signal = v.signal;
              machine = v.machine;
            };
            keeps = keeps;
          },
        )

    -- No step of a job faults; the invariants hold after it.
    pub job_step_lem :
        (stage : Stage)
        → StageHolds decode bs contents q b s.sink stage
        → SharedHolds decode bs contents q (pending stage + n) s
        → (stage' : Stage) × (s' : Shared) × (job_step decode q b stage s ≡ ok (stage', s'))
          × StepHolds decode bs contents q b n s stage' s'
    unfolding job_step
    job_step_lem queued k v =
        job_step_queued (find-IsCoherent decode q.id bs s.map b h v.coherent) v
    job_step_lem missed k v =
        let (d, e, part) = Encodes-Part decode bs contents b file.encodes h in
        (decoded d, s, rw e, record { stage_holds = e; shared = v; keeps = λ c x. x })
    job_step_lem (decoded d) k v =
        let (m', e, coherent) =
          store-IsCoherent decode q.id bs file.distinct s.map b d h k v.coherent in
        (
          stored d,
          record s { map = m' },
          rw e,
          record {
            stage_holds = k;
            shared = record {
              coherent = coherent;
              good = v.good;
              count = v.count;
              signal = v.signal;
              machine = v.machine;
            };
            keeps = λ c x. x;
          },
        )
    job_step_lem (stored d) k v =
        let (s', e, good, served, keeps) = serve b d s.sink h t k v.good in
        (
          called,
          record s { sink = s' },
          rw e,
          record {
            stage_holds = served;
            shared = record {
              coherent = v.coherent;
              good = good;
              count = v.count;
              signal = v.signal;
              machine = v.machine;
            };
            keeps = keeps;
          },
        )
    job_step_lem called k v = (
      finished,
      record s { remain = sub64 s.remain 1; woken = s.woken || (sub64 s.remain 1 == 0) },
      refl,
      record {
        stage_holds = k;
        shared = record {
          coherent = v.coherent;
          good = v.good;
          count = omega (arith, v.count, v.machine);
          signal = ground (arith, v.signal, v.count);
          machine = omega (arith, v.machine);
        };
        keeps = λ c x. x;
      },
    )
    job_step_lem finished k v =
        (finished, s, refl, record { stage_holds = k; shared = v; keeps = λ c x. x })
