-- ===== src/Files.antt =====
-- FileList.h and FileList.cc: the files that are shown, by their names. A compressed file of one of
-- the classes is a parameter, with the name that it is shown under and its size; an opener yields a
-- file or one of the program's errors.
pub mod Table
use lzopfs.Base.{
  ℕ, List, [], ◌∷◌, ◌++◌, Option, none, some, Bool, true, false, if◌then◌else◌, equal,
}
use lzopfs.Blocks.{Error, eof, system, format, runtime, fault, Result, ok, err}
use lzopfs.Paths.{slash}

-- What `add` reports of a file: added, of no known format, or not readable.
pub data Report (F : Type 0) : Type 0 where
  added : List ℕ → F → Report F
  unknown : Report F
  failed : Error → Report F

-- `FileList::mMap`, an association list from names to files.
abbrev pub FileMap : Type 0 → Type 0
FileMap F = List (List ℕ × F)

module _ {F : Type 0} where
  -- `FileList::find`
  unfoldable pub find_file : FileMap F → List ℕ → Option F
  find_file [] dest = none
  find_file ((name, file) ∷ m) dest = if equal name dest then some file else find_file m dest

  -- `mMap[dest] = file`: the entry is replaced, or a new one is made.
  unfoldable pub insert : List ℕ → F → FileMap F → FileMap F
  insert dest file [] = (dest, file) ∷ []
  insert dest file ((name, old) ∷ m) =
      let rest = insert dest file m in
      if equal name dest then (name, file) ∷ m else (name, old) ∷ rest

  -- The loop over the openers: the next is tried only after an error of the format.
  unfoldable pub try_openers : List (List ℕ → Result F) → List ℕ → Result (Option F)
  try_openers [] source = ok none
  try_openers (opener ∷ openers) source = elim (opener source) [
    | ok file ↦ ok (some file)
    | err e ↦ elim e [
      | format ↦ try_openers openers source
      | eof ↦ err eof
      | system ↦ err system
      | runtime ↦ err runtime
      | fault ↦ err fault
    ]
  ]

  -- `FileList::add`: what it reports, and the map with the file if it was opened.
  unfoldable pub report : (F → List ℕ) → List (List ℕ → Result F) → List ℕ → Report F
  unfolding try_openers
  report dest_name_of openers source = elim (try_openers openers source) [
    | err e ↦ failed e
    | ok none ↦ unknown
    | ok (some file) ↦ added (slash ∷ dest_name_of file) file
  ]

  unfoldable pub add_file : (F → List ℕ) → List (List ℕ → Result F) → List ℕ → FileMap F → FileMap F
  unfolding report insert
  add_file dest_name_of openers source m = elim (report dest_name_of openers source) [
    | added dest file ↦ insert dest file m
    | unknown ↦ m
    | failed e ↦ m
  ]

  -- `forNames`: the names in the order of the map.
  unfoldable pub names : FileMap F → List (List ℕ)
  names [] = []
  names ((name, file) ∷ m) = name ∷ names m

  -- The loop of `main` over the sources.
  unfoldable pub add_files :
      (F → List ℕ) → List (List ℕ → Result F) → List (List ℕ) → FileMap F → FileMap F
  unfolding add_file
  add_files dest_name_of openers [] m = m
  add_files dest_name_of openers (source ∷ sources) m =
      add_files dest_name_of openers sources (add_file dest_name_of openers source m)
