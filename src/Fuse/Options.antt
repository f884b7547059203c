-- ===== src/Fuse/Options.antt =====
-- lzopfs.cc: `lf_opt_proc` and `main`. FUSE takes the arguments apart and calls back for those that
-- are no options, in their order; it and `realpath`, where `none` is an error, are parameters.
use lzopfs.Base.{ℕ, List, [], ◌∷◌, ◌++◌, Option, none, some}
use lzopfs.Blocks.{Result}
use lzopfs.Files.{FileMap, add_file, add_files}

-- `OptData`, without the options whose values FUSE stores.
pub record OptData : Type 0 where
  pub next_source : Option (List ℕ)
  pub files : List (List ℕ)

-- How `main` goes on: with the files and the argument that FUSE gets as the mount point, or it ends.
pub data Start (F : Type 0) : Type 0 where
  mounts : FileMap F → Option (List ℕ) → Start F
  ends : Start F

-- A list of files to which those of these paths were added, one after the other.
pub data Added {F : Type 0} (dest_name_of : F → List ℕ) (openers : List (List ℕ → Result F))
    : List (List ℕ) → FileMap F → FileMap F → Type 0 where
  nothing : {files : FileMap F} → Added dest_name_of openers [] files files
  one_more :
      {path : List ℕ} {paths : List (List ℕ)} {files all : FileMap F}
      → Added dest_name_of openers paths (add_file dest_name_of openers path files) all
      → Added dest_name_of openers (path ∷ paths) files all

module _ (realpath : List ℕ → Option (List ℕ)) where
  -- `lf_opt_proc` on an argument that is no option: it waits until the next one comes, since the last
  -- is the mount point. An error of `realpath` ends the program.
  unfoldable pub lf_opt_proc : OptData → List ℕ → Option OptData
  lf_opt_proc d arg = elim d.next_source [
    | none ↦ some (record d { next_source = some arg })
    | some source ↦ elim (realpath source) [
      | none ↦ none
      | some path ↦ some (record { next_source = some arg; files = d.files ++ path ∷ [] })
    ]
  ]

  -- The callbacks of `fuse_opt_parse`.
  unfoldable pub parse_args : List (List ℕ) → OptData → Option OptData
  unfolding lf_opt_proc
  parse_args [] d = some d
  parse_args (arg ∷ args) d = elim (lf_opt_proc d arg) [
    | none ↦ none
    | some d' ↦ parse_args args d'
  ]

  -- `main`, up to `fuse_main`.
  unfoldable pub main_start :
      {F : Type 0} → (F → List ℕ) → List (List ℕ → Result F) → List (List ℕ) → Start F
  unfolding parse_args add_files
  main_start dest_name_of openers args =
      elim (parse_args args (record { next_source = none; files = [] })) [
        | none ↦ ends
        | some d ↦ mounts (add_files dest_name_of openers d.files []) d.next_source
      ]

  -- The real paths of all, or none where one of them has none.
  unfoldable pub real_paths : List (List ℕ) → Option (List (List ℕ))
  real_paths [] = some []
  real_paths (source ∷ sources) = elim (realpath source) [
    | none ↦ none
    | some path ↦ elim (real_paths sources) [ none ↦ none | some paths ↦ some (path ∷ paths) ]
  ]

  -- What the arguments behind a first one leave.
  abbrev left_by : List ℕ → List (List ℕ) → Option (List (List ℕ)) → Option OptData
  left_by mount files none = none
  left_by mount files (some paths) =
      some (record { next_source = some mount; files = files ++ paths })
