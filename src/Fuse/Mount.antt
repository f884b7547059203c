-- ===== src/Fuse/Mount.antt =====
-- lzopfs.cc: the state behind the handlers, `FSData`, with the files that are open and the reads in
-- flight: many threads may be in `lf_read` at once, and share the cache. A step of a read is what
-- happens between two operations on a mutex, as in BlockCache.cc: the loop of `getBlocks` under the
-- cache's mutex, a step of one of its jobs, the begin of its wait, or its return once it is woken. The
-- thread of a read holds the mutex of `cv` from before its first job is queued until it waits, and no
-- job can signal before that; a signal that finds no thread waiting is lost. A job may take its first
-- step as soon as one job is queued; that the pool has a thread for each is not modelled here.
use lzopfs.Base.{
  ℕ, zero, suc, ◌-◌, List, [], ◌∷◌, ◌++◌, Option, none, some, Bool, true, false, if◌then◌else◌,
  add64, ◌==◌, ◌&&◌, ◌||◌, not, length, map, get_elem?,
}
use lzopfs.Blocks.{Block, Buffer, Result, ok, err, fault, find_block, ◌>>=◌}
use lzopfs.Lru.{empty, set_max_weight}
use lzopfs.Read.{Sink}
use lzopfs.Cache.{
  Key-discrete, Map, Request, Scan, scan, Stage, queued, called, Shared, Task, work_at,
}
use lzopfs.Files.{FileMap}
use lzopfs.Fuse.{Source, done, fails, lf_open, ReadReply, count, exits}

-- `CacheSize`
abbrev pub cache_size : ℕ
cache_size = 33554432

-- The request of a call of `lf_read`.
abbrev pub asked : Source → (size offset : ℕ) → Request
asked file size offset = record { id = file.path; size = size; offset = offset }

-- A call of `lf_read`: it was made, its jobs run and its thread may wait, or it has its reply.
pub data Flight : Type 0 where
  begun : Source → (size offset : ℕ) → Buffer → Flight
  running :
      Source → (size offset : ℕ) → List Task → Sink → (remain : ℕ) → (woken waiting : Bool) → Flight
  replied : Source → (size offset : ℕ) → ReadReply → Flight

-- Whether a call of `lf_read` still uses its handle.
unfoldable pub is_over : Flight → Bool
is_over (replied s size offset r) = true
is_over _ = false

-- A handle is free after `lf_release`; `users` has the handle of each call.
pub record FsData : Type 0 where
  pub files : FileMap Source
  pub cache : Map
  pub handles : List (Option Source)
  pub users : List ℕ
  pub flights : List Flight

-- `lf_init`: the cache is made for no bytes, and is then given its size.
unfoldable pub lf_init : FileMap Source → FsData
lf_init files = record {
  files = files;
  cache = set_max_weight Key-discrete cache_size (empty 0);
  handles = [];
  users = [];
  flights = [];
}

unfoldable pub free_handle : ℕ → List (Option Source) → List (Option Source)
free_handle fh [] = []
free_handle zero (h ∷ hs) = none ∷ hs
free_handle (suc fh) (h ∷ hs) = h ∷ free_handle fh hs

-- Whether a call is in flight on a handle.
unfoldable pub in_use : ℕ → List ℕ → List Flight → Bool
unfolding is_over
in_use fh [] fs = false
in_use fh (u ∷ us) [] = false
in_use fh (u ∷ us) (f ∷ fs) = (u == fh && not (is_over f)) || in_use fh us fs

-- The file of a handle that is open.
unfoldable pub open_file : ℕ → FsData → Option Source
open_file fh d = elim (get_elem? d.handles fh) [ none ↦ none | some h ↦ h ]

-- `lf_release`, which deletes the object of the handle. To delete one that is not there, or that a
-- read uses, is undefined behaviour.
unfoldable pub lf_release : ℕ → FsData → Result FsData
unfolding free_handle in_use open_file
lf_release fh d = elim (open_file fh d) [
  | none ↦ err fault
  | some file ↦ elim (in_use fh d.users d.flights) [
    | true ↦ err fault
    | false ↦ ok (record d { handles = free_handle fh d.handles })
  ]
]

-- `lf_open`, with the handle that it yields kept.
unfoldable pub open_handle : (List ℕ → Option ℕ) → List ℕ → ℕ → FsData → FsData
unfolding lf_open
open_handle sys_open path flags d = elim (lf_open sys_open d.files path flags) [
  | done file ↦ record d { handles = d.handles ++ some file ∷ [] }
  | fails f ↦ d
]

-- A call of `lf_read`, which uses the object of its handle.
unfoldable pub begin_read : ℕ → (size offset : ℕ) → Buffer → FsData → Result FsData
unfolding open_file
begin_read fh size offset buf d = elim (open_file fh d) [
  | none ↦ err fault
  | some file ↦ ok (record d {
    users = d.users ++ fh ∷ [];
    flights = d.flights ++ begun file size offset buf ∷ [];
  })
]

-- `return max - offset;`
abbrev pub reply_of : ℕ → Sink → ReadReply
reply_of offset sink = count sink.buf (sink.max_end - offset)

-- What `getBlocks` does when it has gone through the blocks.
unfoldable pub queue_jobs : Source → (size offset : ℕ) → Scan → Flight
queue_jobs file size offset sc = elim sc.need [
  | [] ↦ replied file size offset (reply_of offset sc.sink)
  | b ∷ need ↦
      running file size offset (map (λ c. (c, queued)) (b ∷ need)) sc.sink (length (b ∷ need)) false
        false
]

-- Whether the job at an index is about to count itself off.
unfoldable pub is_called : Stage → Bool
is_called called = true
is_called _ = false

unfoldable pub at_signal : ℕ → List Task → Bool
unfolding is_called
at_signal i [] = false
at_signal zero ((b, stage) ∷ ts) = is_called stage
at_signal (suc i) (t ∷ ts) = at_signal i ts

module _ (decode : Source → Block → Result Buffer) where
  -- `OpenCompressedFile::read` up to there; an error ends the program.
  unfoldable pub scan_blocks : Map → Source → (size offset : ℕ) → Buffer → Map × Flight
  unfolding find_block scan queue_jobs
  scan_blocks m file size offset buf = elim (find_block file.blocks offset) [
    | err e ↦ (m, replied file size offset exits)
    | ok it ↦
        elim (scan (asked file size offset) (add64 offset size) it
          (record { map = m; sink = record { buf = buf; max_end = offset }; need = [] })) [
            | err e ↦ (m, replied file size offset exits)
            | ok sc ↦ (sc.map, queue_jobs file size offset sc)
          ]
  ]

  -- A job of a read takes a step; an error in it ends the program. Its last step needs the mutex of
  -- `cv`, and its signal wakes the thread of the read only where that thread waits.
  unfoldable pub work_job :
      ℕ → (waiting : Bool) → Source → (size offset : ℕ) → List Task → Shared → Map × Flight
  unfolding work_at at_signal
  work_job i waiting file size offset ts s = elim (not waiting && at_signal i ts) [
    | true ↦ (s.map, running file size offset ts s.sink s.remain s.woken waiting)
    | false ↦ elim (work_at (decode file) (asked file size offset) i ts s) [
      | err e ↦ (s.map, replied file size offset exits)
      | ok r ↦
          (r.1.map, running file size offset r.0 r.1.sink r.1.remain (r.1.woken && waiting) waiting)
    ]
  ]

  -- A step of a read: at 0 of its own thread, which goes through the blocks, begins to wait, or
  -- returns when it was woken; behind that, of one of its jobs.
  unfoldable pub flight_step : ℕ → Map → Flight → Map × Flight
  unfolding scan_blocks work_job
  flight_step i m (begun file size offset buf) = scan_blocks m file size offset buf
  flight_step zero m (running file size offset ts sink remain woken waiting) =
      if woken
      then (m, replied file size offset (reply_of offset sink))
      else (m, running file size offset ts sink remain woken true)
  flight_step (suc i) m (running file size offset ts sink remain woken waiting) =
      work_job i waiting file size offset ts
        (record { map = m; sink = sink; remain = remain; woken = woken })
  flight_step i m (replied file size offset r) = (m, replied file size offset r)

  unfoldable pub step_flights : ℕ → ℕ → Map → List Flight → Map × List Flight
  unfolding flight_step
  step_flights k i m [] = (m, [])
  step_flights zero i m (f ∷ fs) = let r = flight_step i m f in (r.0, r.1 ∷ fs)
  step_flights (suc k) i m (f ∷ fs) = let r = step_flights k i m fs in (r.0, f ∷ r.1)

  -- A step of the read at an index.
  unfoldable pub step_read : ℕ → ℕ → FsData → FsData
  unfolding step_flights
  step_read k i d =
      let r = step_flights k i d.cache d.flights in record d { cache = r.0; flights = r.1 }

-- What may happen to the file system: a call of a handler, or a step of a read in flight.
pub data Act : Type 0 where
  opens : (path : List ℕ) → (flags : ℕ) → Act
  releases : ℕ → Act
  reads : (fh size offset : ℕ) → Buffer → Act
  steps : (flight job : ℕ) → Act

module _ (decode : Source → Block → Result Buffer) (sys_open : List ℕ → Option ℕ) where
  unfoldable pub act : Act → FsData → Result FsData
  unfolding open_handle lf_release begin_read step_read
  act (opens path flags) d = ok (open_handle sys_open path flags d)
  act (releases fh) d = lf_release fh d
  act (reads fh size offset buf) d = begin_read fh size offset buf d
  act (steps k i) d = ok (step_read decode k i d)

  unfoldable pub run_acts : List Act → FsData → Result FsData
  unfolding act
  run_acts [] d = ok d
  run_acts (a ∷ acts) d = act a d >>= λ d'. run_acts acts d'
