-- ===== src/Cache/Invariants.antt =====
-- BlockCache.cc and OpenCompressedFile.cc: what holds between any two steps of the threads that
-- serve one read.
use lzopfs.Base.{
  ℕ, ◌+◌, ◌-◌, ◌<◌, ◌≡◌, List, [], ◌∷◌, ◌⊎◌, ◌==◌, length, mod64, map, min, get_elem?,
}
use lzopfs.Blocks.{Block, Buffer, Result, ok}
use lzopfs.Blocks.Contents.{In, Encodes}
use lzopfs.Read.{Sink}
use lzopfs.Read.Callback.{IsGood, Served, Touches}
use lzopfs.Cache.{
  Request, Stage, queued, missed, decoded, stored, called, finished, Shared, Task, Event, work,
  others, Scan,
}
use lzopfs.Cache.Coherence.{IsCoherent}

-- The blocks of a file that one read meets: they decompress to the contents, no two begin at the
-- same place of the compressed file, and all numbers fit into the machine's words.
pub record IsFile (decode : Block → Result Buffer) (bs : List Block) (contents : Buffer)
    : Type 0 where
  pub encodes : Encodes decode 0 bs contents
  pub distinct : (b c : Block) → In b bs → In c bs → b.coff ≡ c.coff → b ≡ c
  pub short : length contents < mod64

-- The count of a job in `remain`.
abbrev pub pending : Stage → ℕ
pending queued = 1
pending missed = 1
pending (decoded d) = 1
pending (stored d) = 1
pending called = 1
pending finished = 0

-- The count of open jobs.
abbrev pub open_jobs : List Task → ℕ
open_jobs [] = 0
open_jobs (t ∷ ts) = pending t.1 + open_jobs ts

-- The jobs that are made of the needed blocks.
abbrev pub jobs_of : List Block → List Task
jobs_of [] = []
jobs_of (b ∷ bs) = (b, queued) ∷ jobs_of bs

-- The bytes that the read asks for, as far as the file goes, and their count.
pub record Answer (contents : Buffer) (q : Request) (r : Buffer × ℕ) : Type 0 where
  pub room : length r.0 ≡ q.size
  pub count : r.1 ≡ min q.size (length contents - q.offset)
  pub bytes : (i : ℕ) → i < r.1 → get_elem? r.0 i ≡ get_elem? contents (q.offset + i)

module _ (decode : Block → Result Buffer) (bs : List Block) (contents : Buffer) (q : Request) where
  -- What is known of a job at its stage.
  abbrev pub StageHolds : Block → Sink → Stage → Type 0
  StageHolds b s queued = Unit
  StageHolds b s missed = Unit
  StageHolds b s (decoded d) = decode b ≡ ok d
  StageHolds b s (stored d) = decode b ≡ ok d
  StageHolds b s called = Served contents q.size q.offset b s
  StageHolds b s finished = Served contents q.size q.offset b s

  -- What holds of the shared state between any two steps, with `n` jobs open.
  pub record SharedHolds (n : ℕ) (s : Shared) : Type 0 where
    pub coherent : IsCoherent decode q.id bs s.map
    pub good : IsGood contents q.size q.offset s.sink
    pub count : s.remain ≡ n
    pub signal : s.woken ≡ (s.remain == 0)
    pub machine : n < mod64

  -- Whatever a step does, it takes nothing from the blocks that were served.
  abbrev pub Keeps : Sink → Sink → Type 0
  Keeps s s' =
      (c : Block) → Served contents q.size q.offset c s → Served contents q.size q.offset c s'

  -- The outcome of a step of a job, with `n` other jobs open.
  pub record StepHolds (b : Block) (n : ℕ) (s : Shared) (stage : Stage) (s' : Shared) : Type 0 where
    pub stage_holds : StageHolds b s'.sink stage
    pub shared : SharedHolds (pending stage + n) s'
    pub keeps : Keeps s.sink s'.sink

  -- Every job is about a block of the file that the read wants, and its stage tells the truth.
  abbrev pub TasksHold : Sink → List Task → Type 0
  TasksHold s [] = Unit
  TasksHold s (t ∷ ts) =
      In t.0 bs × Touches contents q.size q.offset t.0 × StageHolds t.0 s t.1 × TasksHold s ts

  -- What holds after some steps: of the same blocks, with `n` jobs of others open.
  pub record After (n : ℕ) (ts : List Task) (s : Shared) (ts' : List Task) (s' : Shared)
      : Type 0 where
    pub tasks : TasksHold s'.sink ts'
    pub shared : SharedHolds (open_jobs ts' + n) s'
    pub keeps : Keeps s.sink s'.sink
    pub blocks : map (λ t. t.0) ts' ≡ map (λ t. t.0) ts

  -- Other threads leave the cache coherent.
  abbrev pub Coherent : List Event → Type 0
  Coherent [] = Unit
  Coherent (work i ∷ events) = Coherent events
  Coherent (others m ∷ events) = IsCoherent decode q.id bs m × Coherent events

  -- What holds between two rounds of the loop.
  pub record ScanHolds (s : Scan) : Type 0 where
    pub coherent : IsCoherent decode q.id bs s.map
    pub good : IsGood contents q.size q.offset s.sink
    pub needed : TasksHold s.sink (jobs_of s.need)

  -- From `s` to `s'`, the block was used or put on the list; none is forgotten.
  pub record Progress (s s' : Scan) : Type 0 where
    pub holds : ScanHolds s'
    pub keeps : Keeps s.sink s'.sink
    pub listed : (c : Block) → In c s.need → In c s'.need

  -- A block is served, or waits on the list.
  abbrev pub Handled : Block → Scan → Type 0
  Handled c s = Served contents q.size q.offset c s.sink ⊎ In c s.need
