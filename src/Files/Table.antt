-- ===== src/Files/Table.antt =====
-- FileList.cc: what is found after a file was added.
use lzopfs.Base.{
  ℕ, ◌≡◌, refl, ap, sym, ◌∙◌, List, [], ◌∷◌, ◌++◌, none, some, true, false, if◌then◌else◌, equal,
  equal_refl, equal-eq-true, Bool-cases, inl, inr, arith,
}
use lzopfs.Blocks.{Result, ok, err, format}
use lzopfs.Paths.{slash}
use lzopfs.Files.{FileMap, find_file, insert, try_openers, report, add_file}

equal-apart :
    (old dest name : List ℕ)
    → equal old dest ≡ false
    → equal old name ≡ true
    → equal dest name ≡ false
equal-apart old dest name differs found = elim (Bool-cases (equal dest name)) [
  | inr e ↦ e
  | inl e ↦
      let same : old ≡ dest = equal-eq-true old name found ∙ sym (equal-eq-true dest name e) in
      absurd (cc (rw same at differs, equal_refl dest))
]

module _ {F : Type 0} where
  pub find_file-insert :
      (m : FileMap F) (dest name : List ℕ) (file : F)
      → find_file (insert dest file m) name
        ≡ (if equal dest name then some file else find_file m name)
  unfolding find_file insert
  find_file-insert [] dest name file = refl
  find_file-insert ((old, f) ∷ m) dest name file = elim (Bool-cases (equal old dest)) [
    | inr differs ↦ elim (Bool-cases (equal old name)) [
      | inr other ↦ ground (arith, find_file-insert m dest name file)
      | inl found ↦ ground (arith, equal-apart old dest name differs found)
    ]
    | inl same ↦ ground (arith, ap (λ x. equal x name) (equal-eq-true old dest same))
  ]

  -- All openers refuse the format.
  abbrev pub Refused : List (List ℕ → Result F) → List ℕ → Type 0
  Refused [] source = Unit
  Refused (opener ∷ openers) source = (opener source ≡ err format) × Refused openers source

  try_openers-first :
      (refusing later : List (List ℕ → Result F)) (opener : List ℕ → Result F) (source : List ℕ)
      (file : F)
      → Refused refusing source
      → opener source ≡ ok file
      → try_openers (refusing ++ opener ∷ later) source ≡ ok (some file)
  unfolding try_openers
  try_openers-first [] later opener source file refused opens = rw opens refl
  try_openers-first (o ∷ refusing) later opener source file (refused, others) opens =
      rw refused (try_openers-first refusing later opener source file others opens)

  -- When the openers of all earlier classes refuse a file by its format and the next opens it, then
  -- after it was added its name is found with it, and every other name is found as before.
  pub find_file-add_file :
      (dest_name_of : F → List ℕ) (refusing later : List (List ℕ → Result F))
      (opener : List ℕ → Result F) (source name : List ℕ) (file : F) (m : FileMap F)
      → Refused refusing source
      → opener source ≡ ok file
      → find_file (add_file dest_name_of (refusing ++ opener ∷ later) source m) name
        ≡ (if equal (slash ∷ dest_name_of file) name then some file else find_file m name)
  unfolding add_file report
  find_file-add_file dest_name_of refusing later opener source name file m refused opens =
      rw (try_openers-first refusing later opener source file refused opens, add_file, report)
        (find_file-insert m (slash ∷ dest_name_of file) name file)

  try_openers-Refused :
      (openers : List (List ℕ → Result F)) (source : List ℕ)
      → Refused openers source
      → try_openers openers source ≡ ok none
  unfolding try_openers
  try_openers-Refused [] source refused = refl
  try_openers-Refused (opener ∷ openers) source (refused, others) =
      rw refused (try_openers-Refused openers source others)

  -- To add a file that every opener refuses by its format leaves the list as it was.
  pub add_file-Refused :
      (dest_name_of : F → List ℕ) (openers : List (List ℕ → Result F)) (source : List ℕ)
      (m : FileMap F)
      → Refused openers source
      → add_file dest_name_of openers source m ≡ m
  unfolding add_file report
  add_file-Refused dest_name_of openers source m refused =
      rw (try_openers-Refused openers source refused, add_file, report) refl
