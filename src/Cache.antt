-- ===== src/Cache.antt =====
-- BlockCache.h and BlockCache.cc: the cache of decompressed blocks that all open files share, and
-- `getBlocks`. The block of a worker's job and the stage that it has reached stand for the job
-- object; a step of a job is what happens between two points where another thread may run, that is
-- between two operations on a mutex. The copy of a callback runs outside the mutex, into a part of
-- the buffer that no other job writes, so it counts as one step with the update of `max`.
use lzopfs.Base.{
  ℕ, zero, suc, ◌+◌, ◌-◌, List, [], ◌∷◌, ◌++◌, Option, none, some, Bool, true, false, if◌then◌else◌,
  ltb, length, ◌==◌, ◌||◌, add64, sub64, map, ℕ_discrete,
}
pub mod Coherence
pub mod Invariants
pub mod Jobs
pub mod Schedule
pub mod Scanning
pub mod Covering
pub mod Waiting
pub mod Reading
pub mod Finishing
pub mod Kept
use lzopfs.Blocks.{Block, Buffer, Result, ok, err, fault, ◌>>=◌, find_block}
use lzopfs.Lru.{LruMap, AddResult, over_weight, dangling}
use lzopfs.Lru
use lzopfs.Read.{Sink, callback}

-- `BlockCache::Key`: the path of the file, and the position of the block in it.
pub record Key : Type 0 where
  pub id : List ℕ
  pub offset : ℕ

-- `Key::operator==`
unfoldable pub Key-discrete : Discrete Key
Key-discrete = hlevel ℕ_discrete

abbrev pub Map : Type 0
Map = LruMap Key Buffer

abbrev pub key_of : List ℕ → Block → Key
key_of id b = record { id = id; offset = b.coff }

-- The arguments of a read that its callbacks and jobs share.
pub record Request : Type 0 where
  pub id : List ℕ
  pub size : ℕ
  pub offset : ℕ

-- What `getBlocks` has when it has gone through the blocks: the map, the sink and the blocks needed.
pub record Scan : Type 0 where
  pub map : Map
  pub sink : Sink
  pub need : List Block

-- The body of the loop: a cached block is used at once, another is put on the list.
unfoldable pub visit : Request → Block → Scan → Result Scan
visit q b s = elim (Lru.find Key-discrete s.map (key_of q.id b)) [
  | none ↦ err fault
  | some (map, none) ↦ ok (record { map = map; sink = s.sink; need = s.need ++ b ∷ [] })
  | some (map, some buf) ↦ callback q.size q.offset b buf s.sink >>= λ sink.
      ok (record { map = map; sink = sink; need = s.need })
]

-- The loop `for (; !it.end() && it->uoff < max; ++it)`, with the cache's mutex held.
unfoldable pub scan : Request → ℕ → List Block → Scan → Result Scan
unfolding visit
scan q max_end [] s = ok s
scan q max_end (b ∷ it) s = if ltb b.uoff max_end then (visit q b s >>= scan q max_end it) else ok s

-- How far a job has come.
pub data Stage : Type 0 where
  queued : Stage
  missed : Stage
  decoded : Buffer → Stage
  stored : Buffer → Stage
  called : Stage
  finished : Stage

-- What the threads share. `woken` is set by `info.cv.signal()`.
pub record Shared : Type 0 where
  pub map : Map
  pub sink : Sink
  pub remain : ℕ
  pub woken : Bool

-- `mMap.add` in the `try` block: a block that is too heavy for the cache is not kept.
unfoldable pub store : Map → Key → Buffer → Result Map
store map k buf = elim (Lru.add Key-discrete map k buf (length buf)) [
  | AddResult.ok map' ↦ ok map'
  | AddResult.err e ↦ elim e [ over_weight ↦ ok map | dangling ↦ err fault ]
]

module _ (decode : Block → Result Buffer) where
  -- `Job::operator()`, one step of it.
  unfoldable pub job_step : Request → Block → Stage → Shared → Result (Stage × Shared)
  unfolding store
  job_step q b queued s = elim (Lru.find Key-discrete s.map (key_of q.id b)) [
    | none ↦ err fault
    | some (map, none) ↦ ok (missed, record s { map = map })
    | some (map, some buf) ↦ callback q.size q.offset b buf s.sink >>= λ sink.
        ok (called, record s { map = map; sink = sink })
  ]
  job_step q b missed s = decode b >>= λ buf. ok (decoded buf, s)
  job_step q b (decoded buf) s =
      store s.map (key_of q.id b) buf >>= λ map. ok (stored buf, record s { map = map })
  job_step q b (stored buf) s =
      callback q.size q.offset b buf s.sink >>= λ sink. ok (called, record s { sink = sink })
  job_step q b called s =
      ok (
        finished,
        record s { remain = sub64 s.remain 1; woken = s.woken || (sub64 s.remain 1 == 0) },
      )
  job_step q b finished s = ok (finished, s)

-- `return max - offset;`, beside the caller's buffer.
abbrev pub returned : ℕ → Option Sink → Option (Buffer × ℕ)
returned offset none = none
returned offset (some s) = some (s.buf, s.max_end - offset)

-- A job with its stage.
abbrev pub Task : Type 0
Task = Block × Stage

-- What may happen next while `getBlocks` waits: a job takes a step, or other threads use the cache.
pub data Event : Type 0 where
  work : ℕ → Event
  others : Map → Event

module _ (decode : Block → Result Buffer) (q : Request) where
  -- The job at an index takes a step.
  unfoldable pub work_at : ℕ → List Task → Shared → Result (List Task × Shared)
  unfolding job_step
  work_at i [] s = ok ([], s)
  work_at zero ((b, stage) ∷ tasks) s =
      job_step decode q b stage s >>= λ r. ok ((b, r.0) ∷ tasks, r.1)
  work_at (suc i) (t ∷ tasks) s = work_at i tasks s >>= λ r. ok (t ∷ r.0, r.1)

  unfoldable pub run : List Event → List Task → Shared → Result (List Task × Shared)
  unfolding work_at
  run [] tasks s = ok (tasks, s)
  run (work i ∷ events) tasks s = work_at i tasks s >>= λ r. run events r.0 r.1
  run (others m ∷ events) tasks s = run events tasks (record s { map = m })

  -- `getBlocks`, under a schedule of its jobs: the sink when it returns, `none` while it waits. The
  -- mutex of `cv` is held from before the first job until the wait, so no signal is lost.
  unfoldable pub get_blocks : List Event → List Block → ℕ → Map → Sink → Result (Option Sink)
  unfolding scan run
  get_blocks events it max_end m sink =
      scan q max_end it (record { map = m; sink = sink; need = [] }) >>= λ s. elim s.need [
        | [] ↦ ok (some s.sink)
        | b ∷ need ↦
            run events (map (λ c. (c, queued)) (b ∷ need))
              (record { map = s.map; sink = s.sink; remain = length (b ∷ need); woken = false })
            >>= λ r. ok (if r.1.woken then some r.1.sink else none)
      ]

  -- `OpenCompressedFile::read`: the buffer and the count of bytes that are returned.
  unfoldable pub read : List Event → List Block → Map → Buffer → Result (Option (Buffer × ℕ))
  unfolding get_blocks find_block
  read events bs m buf = find_block bs q.offset >>= λ it.
      get_blocks events it (add64 q.offset q.size) m (record { buf = buf; max_end = q.offset })
      >>= λ r. ok (returned q.offset r)
