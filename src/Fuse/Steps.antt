-- ===== src/Fuse/Steps.antt =====
-- lzopfs.cc, OpenCompressedFile.cc and BlockCache.cc: what a step of a read in flight keeps.
use lzopfs.Base.{
  ℕ, zero, suc, ◌≡◌, ◌&&◌, not, Bool-cases, refl, sym, subst, inl, inr, List, [], ◌∷◌, Bool, true,
  false, arith, length, dec_lt, add64,
}
use lzopfs.Blocks.{Block, Buffer, Error, Result, ok, err, find_block}
use lzopfs.Blocks.Contents.{In, Encodes-Tiles}
use lzopfs.Blocks.Search.{find_block-end}
use lzopfs.Read.{Sink}
use lzopfs.Cache.{Map, Scan, scan, Shared, Task, work_at}
use lzopfs.Cache.Invariants.{open_jobs}
use lzopfs.Cache.Kept.{IsKept, scan-IsKept, work_at-IsKept}
use lzopfs.Cache.Reading.{scan_read}
use lzopfs.Cache.Schedule.{work_at_lem, all-Served}
use lzopfs.Fuse.{Source, exits}
use lzopfs.Fuse.Mount.{
  asked, Flight, begun, running, replied, reply_of, queue_jobs, scan_blocks, work_job, flight_step,
  at_signal,
}
use lzopfs.Fuse.Signals.{signal_kept}
use lzopfs.Fuse.World.{IsWorld, Right, IsKept-IsCoherent, TasksHold-AllNew}
use lzopfs.Fuse.Flights.{Flying, FlightHolds, StepHolds, queue_jobs-Holds, served_reply}

module _ (decode : Source → Block → Result Buffer) where
  pub scan_blocks-scanned :
      (m : Map) (s : Source) (size offset : ℕ) (buf : Buffer) (it : List Block) (sc : Scan)
      → find_block s.blocks offset ≡ ok it
      → scan
          (asked s size offset)
          (add64 offset size)
          it
          (record { map = m; sink = record { buf = buf; max_end = offset }; need = [] })
        ≡ ok sc
      → scan_blocks decode m s size offset buf ≡ (sc.map, queue_jobs s size offset sc)
  unfolding scan_blocks
  scan_blocks-scanned m s size offset buf it sc e f = rw (e, scan_blocks) (rw f refl)

  pub scan_blocks-err :
      (m : Map) (s : Source) (size offset : ℕ) (buf : Buffer) (x : Error)
      → find_block s.blocks offset ≡ err x
      → scan_blocks decode m s size offset buf ≡ (m, replied s size offset exits)
  unfolding scan_blocks
  scan_blocks-err m s size offset buf x e = rw (e, scan_blocks) refl

  pub work_job-ok :
      (i : ℕ) (waiting : Bool) (s : Source) (size offset : ℕ) (ts ts' : List Task) (sh sh' : Shared)
      → (not waiting && at_signal i ts) ≡ false
      → work_at (decode s) (asked s size offset) i ts sh ≡ ok (ts', sh')
      → work_job decode i waiting s size offset ts sh
        ≡ (sh'.map, running s size offset ts' sh'.sink sh'.remain (sh'.woken && waiting) waiting)
  unfolding work_job
  work_job-ok i waiting s size offset ts ts' sh sh' free e = rw (free, work_job) (rw e refl)

  work_job-held :
      (i : ℕ) (waiting : Bool) (s : Source) (size offset : ℕ) (ts : List Task) (sh : Shared)
      → (not waiting && at_signal i ts) ≡ true
      → work_job decode i waiting s size offset ts sh
        ≡ (sh.map, running s size offset ts sh.sink sh.remain sh.woken waiting)
  unfolding work_job
  work_job-held i waiting s size offset ts sh held = rw (held, work_job) refl

module _ (decode : Source → Block → Result Buffer) (contents : Source → Buffer)
    (world : Source → Type 0) (w : IsWorld decode contents world) where
  scan_blocks-Holds :
      (m : Map) (s : Source) (size offset : ℕ) (buf : Buffer)
      → IsKept (Right decode contents world w) m
      → FlightHolds decode contents world w (begun s size offset buf)
      → StepHolds decode contents world w (scan_blocks decode m s size offset buf)
  scan_blocks-Holds m s size offset buf kept (on, small, room) =
      let file = w.is_file s on in
      elim (dec_lt offset (length (contents s))) [
        | yes inside ↦
            let x =
              scan_read (decode s) s.blocks (contents s) file (asked s size offset) small m buf
                (IsKept-IsCoherent decode contents world w s m on kept) room inside in
            subst (StepHolds decode contents world w)
              (sym (
                scan_blocks-scanned decode m s size offset buf (x.head ∷ x.rest) x.state x.found
                  x.scanned))
              (
                scan-IsKept (Right decode contents world w) (asked s size offset)
                    (add64 offset size) (x.head ∷ x.rest) _ x.state x.scanned kept,
                queue_jobs-Holds decode contents world w s size offset on small inside x.head x.rest
                    x.state.need x.state x.tiles x.starts x.ends x.holds x.handled x.few refl,
              )
        | no behind ↦
            let (tiles, total) = Encodes-Tiles (decode s) 0 s.blocks (contents s) file.encodes in
            let over =
              find_block-end offset s.blocks tiles (omega (arith, total, file.short))
                (omega (arith, total, behind)) in
            subst (StepHolds decode contents world w)
              (sym (scan_blocks-err decode m s size offset buf _ over))
              (kept, omega (arith, behind))
      ]

  work_job-Holds :
      (i : ℕ) (m : Map) (s : Source) (size offset : ℕ) (ts : List Task) (sink : Sink) (remain : ℕ)
      (woken waiting : Bool)
      → (not waiting && at_signal i ts) ≡ false
      → IsKept (Right decode contents world w) m
      → Flying decode contents world w s size offset ts sink remain woken waiting
      → StepHolds decode contents world w (
          work_job decode i waiting s size offset ts
            (record { map = m; sink = sink; remain = remain; woken = woken }))
  work_job-Holds i m s size offset ts sink remain woken waiting free kept v =
      let q = asked s size offset in
      let sh : Shared = record { map = m; sink = sink; remain = remain; woken = woken } in
      let (ts', sh', e, after) =
        work_at_lem (decode s) s.blocks (contents s) (w.is_file s v.on) q v.small i 0 ts sh v.tasks
          (record {
            coherent = IsKept-IsCoherent decode contents world w s m v.on kept;
            good = v.good;
            count = v.counted;
            signal = v.signal;
            machine = v.machine;
          }) in
      let (signal, unsignalled) =
        signal_kept (decode s) q i waiting ts ts' sh sh' free e v.unsignalled after.shared.signal in
      subst (StepHolds decode contents world w)
        (sym (work_job-ok decode i waiting s size offset ts ts' sh sh' free e))
        (
          work_at-IsKept (Right decode contents world w) (decode s) q i ts ts' sh sh' e
              (TasksHold-AllNew decode contents world w s q sink ts v.on refl v.tasks) kept,
          record {
            on = v.on;
            small = v.small;
            inside = v.inside;
            tasks = after.tasks;
            good = after.shared.good;
            counted = after.shared.count;
            signal = signal;
            unsignalled = unsignalled;
            machine = after.shared.machine;
            head = v.head;
            rest = v.rest;
            tiles = v.tiles;
            starts = v.starts;
            ends = v.ends;
            handled = λ c there wanted. elim (v.handled c there wanted) [
              | inl served ↦ inl (after.keeps c served)
              | inr listed ↦ inr (subst (In c) (sym after.blocks) listed)
            ];
          },
        )

  woken-Holds :
      (m : Map) (s : Source) (size offset : ℕ) (ts : List Task) (sink : Sink) (remain : ℕ)
      (waiting : Bool)
      → IsKept (Right decode contents world w) m
      → Flying decode contents world w s size offset ts sink remain true waiting
      → StepHolds decode contents world w (m, replied s size offset (reply_of offset sink))
  woken-Holds m s size offset ts sink remain waiting kept v =
      let idle : open_jobs ts ≡ 0 = ground (arith, v.signal, v.counted) in
      (
        kept,
        served_reply decode contents world w s size offset v.on v.small v.inside v.head v.rest sink
            v.tiles v.starts v.ends v.good
            (λ c there wanted. elim (v.handled c there wanted) [
              | inl served ↦ served
              | inr listed ↦
                  all-Served (decode s) s.blocks (contents s) (w.is_file s v.on)
                    (asked s size offset) v.small ts sink idle v.tasks c listed
            ]),
      )

  -- No step of a read faults, and its reply is correct.
  pub flight_step-Holds :
      (i : ℕ) (m : Map) (f : Flight)
      → IsKept (Right decode contents world w) m
      → FlightHolds decode contents world w f
      → StepHolds decode contents world w (flight_step decode i m f)
  unfolding flight_step
  flight_step-Holds i m (begun s size offset buf) kept h =
      scan_blocks-Holds m s size offset buf kept h
  flight_step-Holds zero m (running s size offset ts sink remain true waiting) kept h =
      woken-Holds m s size offset ts sink remain waiting kept h
  flight_step-Holds zero m (running s size offset ts sink remain false waiting) kept h = (
    kept,
    record {
      on = h.on;
      small = h.small;
      inside = h.inside;
      tasks = h.tasks;
      good = h.good;
      counted = h.counted;
      signal = h.signal;
      unsignalled = inl refl;
      machine = h.machine;
      head = h.head;
      rest = h.rest;
      tiles = h.tiles;
      starts = h.starts;
      ends = h.ends;
      handled = h.handled;
    },
  )
  flight_step-Holds (suc i) m (running s size offset ts sink remain woken waiting) kept h =
      elim (Bool-cases (not waiting && at_signal i ts)) [
        | inl held ↦
            subst (StepHolds decode contents world w)
              (sym (work_job-held decode i waiting s size offset ts _ held)) (kept, h)
        | inr free ↦ work_job-Holds i m s size offset ts sink remain woken waiting free kept h
      ]
  flight_step-Holds i m (replied s size offset r) kept h = (kept, h)
