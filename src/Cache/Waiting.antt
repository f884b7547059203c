-- ===== src/Cache/Waiting.antt =====
-- OpenCompressedFile.cc and BlockCache.cc: the jobs of a read are queued, and the read waits for
-- them.
use lzopfs.Base.{
  ℕ, ◌+◌, ◌-◌, ◌<◌, ◌≡◌, refl, ap, ◌≢◌, subst, List, [], ◌∷◌, Option, none, some, arith, inl, inr,
  true, false, if◌then◌else◌, mod64, length, map, Bool-cases,
}
use lzopfs.Blocks.{Block, Buffer, Result, ok, ◌>>=◌}
use lzopfs.Blocks.Contents.{In}
use lzopfs.Read.{Sink}
use lzopfs.Read.Callback.{Served, IsGood}
use lzopfs.Cache.{Request, queued, Task, Event, Scan, run, Shared, returned}
use lzopfs.Cache.Schedule.{run_lem, all-Served}
use lzopfs.Cache.Invariants.{
  SharedHolds, Keeps, After, Coherent, ScanHolds, Handled, Answer, IsFile, open_jobs, jobs_of,
}
use lzopfs.Cache.Covering.{AllServed}

pub jobs_of-blocks : (bs : List Block) → map (λ t. t.0) (jobs_of bs) ≡ bs
jobs_of-blocks [] = refl
jobs_of-blocks (b ∷ bs) = ap (◌∷◌ b) (jobs_of-blocks bs)

pub jobs_of-map : (bs : List Block) → map (λ b. (b, queued)) bs ≡ jobs_of bs
jobs_of-map [] = refl
jobs_of-map (b ∷ bs) = ap (◌∷◌ (b, queued)) (jobs_of-map bs)

pub open_jobs-jobs_of : (bs : List Block) → open_jobs (jobs_of bs) ≡ length bs
open_jobs-jobs_of [] = refl
open_jobs-jobs_of (b ∷ bs) = omega (arith, open_jobs-jobs_of bs)

module _ (decode : Block → Result Buffer) (bs : List Block) (contents : Buffer)
    (file : IsFile decode bs contents) (q : Request) (small : q.offset + q.size < mod64) where
  -- The shared state when the jobs are queued.
  abbrev pub started_from : Scan → List Block → Shared
  started_from sc need = record {
    map = sc.map;
    sink = sc.sink;
    remain = length need;
    woken = false;
  }

  -- The jobs of the list run without a fault, and keep what is served.
  pub run_jobs :
      (need : List Block) (sc : Scan) (events : List Event)
      → sc.need ≡ need
      → ScanHolds decode bs contents q sc
      → Coherent decode bs contents q events
      → length need < mod64
      → need ≢ []
      → (ts : List Task) × (sh : Shared) × (run decode q events
            (map (λ c. (c, queued)) need)
            (started_from sc need)
          ≡ ok (ts, sh))
        × After decode bs contents q 0 (jobs_of need) (started_from sc need) ts sh
  run_jobs [] sc events e v coherent few some_needed = absurd (some_needed refl)
  run_jobs (b ∷ need) sc events e v coherent few some_needed =
      let (ts, sh, ran, after) =
        run_lem decode bs contents file q small events (jobs_of (b ∷ need))
          (started_from sc (b ∷ need)) coherent (rw e at v.needed) started in
      (ts, sh, rw jobs_of-map ran, after)
    where
      started :
          SharedHolds decode bs contents q
            (open_jobs (jobs_of (b ∷ need)) + 0)
            (started_from sc (b ∷ need))
      started = record {
        coherent = v.coherent;
        good = v.good;
        count = omega (arith, open_jobs-jobs_of (b ∷ need));
        signal = ground arith;
        machine = omega (arith, open_jobs-jobs_of (b ∷ need));
      }

  -- When the wait is over, what the loop put on the list is served.
  woken-Served :
      (need : List Block) (sc : Scan) (ts : List Task) (sh : Shared)
      → After decode bs contents q 0 (jobs_of need) (started_from sc need) ts sh
      → sh.woken ≡ true
      → (c : Block) → In c need
      → Served contents q.size q.offset c sh.sink
  woken-Served need sc ts sh after woken c on =
      all-Served decode bs contents file q small ts sh.sink quiet after.tasks c
        (rw (after.blocks, jobs_of-blocks) on)
    where
      quiet : open_jobs ts ≡ 0
      quiet = ground (arith, after.shared.signal, after.shared.count)

  abbrev pub after_scan : List Event → Scan → Result (Option Sink)
  after_scan events s = elim s.need [
    | [] ↦ ok (some s.sink)
    | b ∷ need ↦
        run decode q events (map (λ c. (c, queued)) (b ∷ need)) (started_from s (b ∷ need)) >>= λ r.
        ok (if r.1.woken then some r.1.sink else none)
  ]

  woken_sink :
      (it : List Block) (sc : Scan) (sh : Shared)
      → IsGood contents q.size q.offset sh.sink
      → Keeps decode bs contents q sc.sink sh.sink
      → ((c : Block) → In c it → c.uoff < q.offset + q.size → Handled decode bs contents q c sc)
      → (sh.woken ≡ true → (c : Block) → In c sc.need → Served contents q.size q.offset c sh.sink)
      → (s : Sink) → (if sh.woken then some sh.sink else none) ≡ some s
      → IsGood contents q.size q.offset s × AllServed contents q it s
  woken_sink it sc sh good keeps handled served s same = elim (Bool-cases sh.woken) [
    | inr asleep ↦ absurd (cc (rw asleep at same))
    | inl woken ↦
        let here : sh.sink ≡ s = cc (rw woken at same) in
        subst (λ x. IsGood contents q.size q.offset x × AllServed contents q it x) here
          (
            good,
            λ c on lt. elim (handled c on lt) [
              | inl done ↦ keeps c done
              | inr on_list ↦ served woken c on_list
            ],
          )
  ]

  -- What is returned behind the loop serves all blocks that it handled.
  pub after_scan_lem :
      (it need : List Block) (sc : Scan) (events : List Event)
      → sc.need ≡ need
      → ScanHolds decode bs contents q sc
      → Coherent decode bs contents q events
      → length need < mod64
      → ((c : Block) → In c it → c.uoff < q.offset + q.size → Handled decode bs contents q c sc)
      → (r : Option Sink) × (after_scan events sc ≡ ok r)
        × ((s : Sink) → r ≡ some s → IsGood contents q.size q.offset s × AllServed contents q it s)
  after_scan_lem it [] sc events e v coherent few handled = (
    some sc.sink,
    rw (e, after_scan),
    λ s same.
        let here : sc.sink ≡ s = cc in
        subst (λ x. IsGood contents q.size q.offset x × AllServed contents q it x) here
          (
            v.good,
            λ c on lt. elim (handled c on lt) [
              | inl served ↦ served
              | inr on_list ↦ absurd (rw e at on_list)
            ],
          ),
  )
  after_scan_lem it (b ∷ need) sc events e v coherent few handled =
      let (ts, sh, ran, after) = run_jobs (b ∷ need) sc events e v coherent few (λ x. cc) in
      (
        (if sh.woken then some sh.sink else none),
        rw (e, after_scan) (rw ran),
        woken_sink it sc sh after.shared.good after.keeps handled
            (λ w c on. woken-Served (b ∷ need) sc ts sh after w c (rw e at on)),
      )

  pub answered :
      (r : Option Sink)
      → ((s : Sink) → r ≡ some s → Answer contents q (s.buf, s.max_end - q.offset))
      → (a : Buffer × ℕ) → returned q.offset r ≡ some a
      → Answer contents q a
  answered none right a e = absurd (cc)
  answered (some s) right a e =
      let here : (s.buf, s.max_end - q.offset) ≡ a = cc in
      subst (Answer contents q) here (right s refl)
