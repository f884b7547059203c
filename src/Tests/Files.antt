-- ===== src/Tests/Files.antt =====
-- The files of the list, the pool of threads and the handlers at concrete inputs.

use lzopfs.Base.{
  ℕ, ◌≡◌, ◌≢◌, inl, inr, refl, ap, ◌∙◌, sym, List, [], ◌∷◌, ◌++◌, none, some, arith, replicate,
  if◌then◌else◌, equal, length,
}
use lzopfs.Blocks.{Block, Buffer, plain, Error, Result, ok, err, format}
use lzopfs.Blocks.Contents.{In}
use lzopfs.Cache.{Map, Key-discrete}
use lzopfs.Cache.Invariants.{IsFile}
use lzopfs.Cache.Coherence.{IsCoherent}
use lzopfs.Lru.{empty}
use lzopfs.Lru.Methods.{empty-IsValid}
use lzopfs.Paths.{zstd, slash, dot, basename, dest_name, basename_to, or_else, last_index}
use lzopfs.Paths.Names.{basename_lem, remove_extension-append, remove_extension-eq-some}
use lzopfs.Files.{FileMap, find_file, add_file}
use lzopfs.Files.Table.{find_file-add_file, add_file-Refused}
use lzopfs.Fuse.{Source, lf_getattr, lf_read, done, regular, exits}
use lzopfs.Fuse.Shown.{shown_name, lf_getattr-add_file, lf_read-exits}
use lzopfs.Pool.{queue, ask, run_pool}
use lzopfs.Pool.Order.{waiting, queued_by, run_pool_lem}
use lzopfs.Handle.Lifetime.{write_buf, write_buf_lem}
use lzopfs.Tests.Indexes.{system as regular_system, system-IsRegular as regular_system-IsRegular}

-- `/d/ab//`
basename_lem_example :
    basename ((slash ∷ 100 ∷ [] ++ slash ∷ 97 ∷ 98 ∷ []) ++ replicate 2 slash) ≡ 97 ∷ 98 ∷ []
unfolding last_index
basename_lem_example = basename_lem (slash ∷ 100 ∷ []) 97 (98 ∷ []) 2 refl

abbrev stem : List ℕ
stem = 97 ∷ []

remove_extension-eq-some_example :
    (97 ∷ [] ++ dot ∷ 103 ∷ 122 ∷ [] ≡ stem ++ dot ∷ 103 ∷ 122 ∷ []) × (stem ≢ [])
remove_extension-eq-some_example =
    remove_extension-eq-some (97 ∷ [] ++ dot ∷ 103 ∷ 122 ∷ []) (103 ∷ 122 ∷ []) stem
      (remove_extension-append 97 [] (103 ∷ 122 ∷ []))

run_pool_lem_example :
    (out left : List ℕ) × (run_pool (ask ∷ queue 8 ∷ ask ∷ []) (waiting 2 (7 ∷ []))
      ≡ ok (out, waiting 2 left))
    × (out ++ left ≡ 7 ∷ [] ++ queued_by (ask ∷ queue 8 ∷ ask ∷ []))
run_pool_lem_example = run_pool_lem 2 (ask ∷ queue 8 ∷ ask ∷ []) (7 ∷ [])

write_buf_lem_example :
    (write_buf regular_system (some 5) (97 ∷ []) (1 ∷ 2 ∷ []) ≡ (some 5, ok (1 ∷ 2 ∷ [])))
    × (write_buf regular_system none (97 ∷ []) (1 ∷ 2 ∷ []) ≡ (none, err Error.system))
write_buf_lem_example =
    write_buf_lem regular_system regular_system-IsRegular 5 (97 ∷ []) (1 ∷ 2 ∷ [])

abbrev only : Block
only = record { usize = 3; csize = 2; uoff = 0; coff = 10; kind = plain }

abbrev contents : Buffer
contents = 1 ∷ 2 ∷ 3 ∷ []

abbrev decode : Block → Result Buffer
decode b = ok (1 ∷ 2 ∷ 3 ∷ [])

-- `/a.zst`
abbrev source : Source
source = record { path = slash ∷ 97 ∷ dot ∷ 122 ∷ 115 ∷ 116 ∷ []; class = zstd; blocks = only ∷ [] }

source-IsFile : IsFile decode (only ∷ []) contents
source-IsFile = record {
  encodes = (contents, [], refl, refl, refl, refl, omega arith, refl);
  distinct = one;
  short = omega arith;
}
  where
    one : (b c : Block) → In b (only ∷ []) → In c (only ∷ []) → b.coff ≡ c.coff → b ≡ c
    one b c (inl p) (inl q) e = p ∙ sym q
    one b c (inr p) q e = absurd p
    one b c p (inr q) e = absurd q

abbrev refuses : List ℕ → Result Source
refuses path = err format

abbrev accepts : List ℕ → Result Source
accepts path = ok source

abbrev no_files : FileMap Source
no_files = []

find_file-add_file_example :
    find_file
      (add_file shown_name (refuses ∷ [] ++ accepts ∷ []) source.path no_files)
      (slash ∷ 98 ∷ [])
    ≡ (if equal (slash ∷ shown_name source) (slash ∷ 98 ∷ [])
        then some source
        else find_file no_files (slash ∷ 98 ∷ []))
find_file-add_file_example =
    find_file-add_file shown_name (refuses ∷ []) [] accepts source.path (slash ∷ 98 ∷ []) source
      no_files (refl, tt) refl

add_file-Refused_example :
    add_file shown_name (refuses ∷ refuses ∷ []) (98 ∷ []) no_files ≡ no_files
add_file-Refused_example =
    add_file-Refused shown_name (refuses ∷ refuses ∷ []) (98 ∷ []) no_files (refl, (refl, tt))

source_shown : shown_name source ≡ 97 ∷ []
unfolding dest_name basename basename_to last_index
source_shown =
    ap (λ r. or_else r (basename source.path))
      (remove_extension-append 97 [] (122 ∷ 115 ∷ 116 ∷ []))

lf_getattr-add_file_example :
    lf_getattr
      (add_file shown_name (refuses ∷ [] ++ accepts ∷ []) source.path no_files)
      (slash ∷ 97 ∷ [])
    ≡ done (regular 1 (length contents))
lf_getattr-add_file_example =
    lf_getattr-add_file decode contents (refuses ∷ []) [] accepts source 97 [] no_files (refl, tt)
      refl source_shown source-IsFile

abbrev nothing_cached : Map
nothing_cached = empty 100

nothing_cached-IsCoherent : IsCoherent decode source.path (only ∷ []) nothing_cached
unfolding empty
nothing_cached-IsCoherent = record {
  valid = empty-IsValid Key-discrete 100 (omega arith);
  entries_right = tt;
}

lf_read-exits_example : lf_read decode [] source nothing_cached (0 ∷ []) 1 3 ≡ exits
lf_read-exits_example =
    lf_read-exits decode source contents source-IsFile 1 3 (omega arith) [] nothing_cached (0 ∷ [])
      (omega arith)
