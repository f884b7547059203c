-- ===== src/Tests/Mounts.antt =====
-- lzopfs.cc at a concrete schedule: two files, with a read of each in flight at once.
use lzopfs.Base.{ℕ, ◌≡◌, ◌⊎◌, refl, List, [], ◌∷◌, Option, none, some, equal, get_elem?}
use lzopfs.Blocks.{Result, ok, err, find_block}
use lzopfs.Read.{callback}
use lzopfs.Cache.{work_at, job_step, store, scan}
use lzopfs.Paths.{zstd, slash}
use lzopfs.Files.{FileMap, find_file}
use lzopfs.Fuse.{Source, ReadReply, count, lf_open}
use lzopfs.Fuse.Mount.{
  begun, replied, FsData, Act, opens, releases, reads, steps, open_handle, begin_read, open_file,
  act, run_acts, lf_init, running, lf_release, in_use, is_over, free_handle, step_read,
  step_flights, flight_step, scan_blocks, queue_jobs, work_job, at_signal, is_called,
}
use lzopfs.Tests.Reads.{blocks, decode}

abbrev file_a : Source
file_a = record { path = 97 ∷ []; class = zstd; blocks = blocks }

abbrev file_b : Source
file_b = record { path = 98 ∷ []; class = zstd; blocks = blocks }

abbrev World : Source → Type 0
World s = (s ≡ file_a) ⊎ (s ≡ file_b)

abbrev files : FileMap Source
files = (slash ∷ 97 ∷ [], file_a) ∷ (slash ∷ 98 ∷ [], file_b) ∷ []

-- The reads go through the blocks, the first one begins to wait while its two jobs run, and is woken by
-- the second; then its handle is released.
abbrev schedule : List Act
schedule =
    opens (slash ∷ 97 ∷ []) 0
    ∷ opens (slash ∷ 98 ∷ []) 0
    ∷ reads 0 2 2 (0 ∷ 0 ∷ [])
    ∷ reads 1 3 1 (0 ∷ 0 ∷ 0 ∷ [])
    ∷ steps 1 0
    ∷ steps 0 0
    ∷ steps 0 1
    ∷ steps 0 1
    ∷ steps 0 1
    ∷ steps 0 1
    ∷ steps 1 1
    ∷ steps 0 2
    ∷ steps 0 2
    ∷ steps 0 2
    ∷ steps 0 2
    ∷ steps 0 0
    ∷ steps 0 1
    ∷ steps 0 2
    ∷ steps 0 0
    ∷ releases 0
    ∷ []

-- The reply of a read, where there is one.
unfoldable reply_at : ℕ → Result FsData → Option ReadReply
reply_at k (err e) = none
reply_at k (ok d) = elim (get_elem? d.flights k) [
  | none ↦ none
  | some f ↦ elim f [
    | begun s size offset buf ↦ none
    | running s size offset ts sink remain woken waiting ↦ none
    | replied s size offset r ↦ some r
  ]
]

-- The first read has its bytes at the end, and the release had nothing in flight.
first_replied :
    reply_at 0 (run_acts (λ s. decode) (λ p. none) schedule (lf_init files))
    ≡ some (count (3 ∷ 4 ∷ []) 2)
unfolding reply_at run_acts act lf_init open_handle begin_read open_file lf_open find_file equal
    lf_release in_use is_over free_handle step_read step_flights flight_step scan_blocks queue_jobs
    work_job at_signal is_called work_at job_step store callback find_block scan lzopfs.Lru.find
    lzopfs.Lru.Nodes.map_find lzopfs.Lru.set_max_weight lzopfs.Lru.empty lzopfs.Lru.add
    lzopfs.Cache.Key-discrete lzopfs.Base.ℕ_discrete lzopfs.Lru.Nodes.map_erase
first_replied = refl

-- A read of the first file, and what it leaves.
abbrev calls : List Act
calls = opens (slash ∷ 97 ∷ []) 0 ∷ reads 0 2 2 (0 ∷ 0 ∷ []) ∷ []

abbrev called : FsData
called = record (lf_init files) {
  handles = some file_a ∷ [];
  users = 0 ∷ [];
  flights = begun file_a 2 2 (0 ∷ 0 ∷ []) ∷ [];
}
