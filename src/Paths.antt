-- ===== src/Paths.antt =====
-- PathUtils.cc, and `destName` of each class of files. A string is the list of its bytes.
pub mod Names
use lzopfs.Base.{
  ℕ, zero, suc, ◌+◌, ◌-◌, List, [], ◌∷◌, ◌++◌, Option, none, some, Bool, true, false, not,
  if◌then◌else◌, ltb, ◌==◌, length, take, drop, equal,
}

-- The slash and the dot.
abbrev pub slash : ℕ
slash = 47

abbrev pub dot : ℕ
dot = 46

-- The index of the last byte that satisfies the test.
unfoldable pub last_index : (ℕ → Bool) → List ℕ → Option ℕ
last_index p [] = none
last_index p (x ∷ xs) = elim (last_index p xs) [
  | some i ↦ some (suc i)
  | none ↦ if p x then some 0 else none
]

-- `basename`, of a path that is not empty and whose last byte that is no slash is given.
unfoldable pub basename_to : List ℕ → ℕ → List ℕ
unfolding last_index
basename_to path bend = elim (last_index (λ c. c == slash) (take (suc bend) path)) [
  | none ↦ take (suc bend) path
  | some bstart ↦ drop (suc bstart) (take (suc bend) path)
]

-- `basename`
unfoldable pub basename : List ℕ → List ℕ
unfolding last_index basename_to
basename [] = dot ∷ []
basename (x ∷ xs) = elim (last_index (λ c. not (c == slash)) (x ∷ xs)) [
  | none ↦ slash ∷ []
  | some bend ↦ basename_to (x ∷ xs) bend
]

-- `endsWith`; `none` is `npos`.
unfoldable pub ends_with : List ℕ → List ℕ → Option ℕ
ends_with haystack needle =
    if ltb (length haystack) (length needle)
    then none
    else (if equal (drop (length haystack - length needle) haystack) needle
        then some (length haystack - length needle)
        else none)

-- `hasExtension`
unfoldable pub has_extension : List ℕ → List ℕ → Option ℕ
unfolding ends_with
has_extension name ext = elim (ends_with name (dot ∷ ext)) [
  | none ↦ none
  | some n ↦ elim n [ zero ↦ none | suc m ↦ some (suc m + 1) ]
]

-- `replaceExtension`: the new name, or nothing where the result is false and the name unchanged.
unfoldable pub replace_extension : List ℕ → List ℕ → List ℕ → Option (List ℕ)
unfolding has_extension
replace_extension name ext replace = elim (has_extension name ext) [
  | none ↦ none
  | some n ↦ some (take n name ++ replace)
]

-- `removeExtension`
unfoldable pub remove_extension : List ℕ → List ℕ → Option (List ℕ)
unfolding has_extension
remove_extension name ext = elim (has_extension name ext) [
  | none ↦ none
  | some n ↦ some (take (n - 1) name)
]

-- The classes of files.
pub data FileClass : Type 0 where
  other lzop gzip bzip2 pixz zstd : FileClass

abbrev pub or_else {ℓ} : {A : Type ℓ} → Option A → A → A
or_else (some a) b = a
or_else none b = b

abbrev pub tar : List ℕ
tar = 116 ∷ 97 ∷ 114 ∷ []

-- `LzopFile::destName`, with the names tzo and lzo
abbrev pub lzop_name : List ℕ → List ℕ
lzop_name path =
    let base = basename path in
    or_else (replace_extension base (116 ∷ 122 ∷ 111 ∷ []) tar)
      (or_else (remove_extension base (108 ∷ 122 ∷ 111 ∷ [])) base)

-- `GzipFile::destName`, with tgz and gz
abbrev pub gzip_name : List ℕ → List ℕ
gzip_name path =
    let base = basename path in
    or_else (replace_extension base (116 ∷ 103 ∷ 122 ∷ []) tar)
      (or_else (remove_extension base (103 ∷ 122 ∷ [])) base)

-- `Bzip2File::destName`, with tbz2 and bz2
abbrev pub bzip2_name : List ℕ → List ℕ
bzip2_name path =
    let base = basename path in
    or_else (replace_extension base (116 ∷ 98 ∷ 122 ∷ 50 ∷ []) tar)
      (or_else (remove_extension base (98 ∷ 122 ∷ 50 ∷ [])) base)

-- `PixzFile::destName`, with tpxz, txz, pxz and xz
abbrev pub pixz_name : List ℕ → List ℕ
pixz_name path =
    let base = basename path in
    or_else (replace_extension base (116 ∷ 112 ∷ 120 ∷ 122 ∷ []) tar) (
      or_else (replace_extension base (116 ∷ 120 ∷ 122 ∷ []) tar) (
        or_else (remove_extension base (112 ∷ 120 ∷ 122 ∷ []))
          (or_else (remove_extension base (120 ∷ 122 ∷ [])) base)))

-- `ZstdFile::destName`, with zst
abbrev pub zstd_name : List ℕ → List ℕ
zstd_name path =
    let base = basename path in or_else (remove_extension base (122 ∷ 115 ∷ 116 ∷ [])) base

-- `destName` of each class
unfoldable pub dest_name : FileClass → List ℕ → List ℕ
unfolding basename replace_extension remove_extension
dest_name other path = basename path
dest_name lzop path = lzop_name path
dest_name gzip path = gzip_name path
dest_name bzip2 path = bzip2_name path
dest_name pixz path = pixz_name path
dest_name zstd path = zstd_name path

-- The constructor of `IndexedCompFile`: where the index of a file stands; `.blockIdx` is added.
unfoldable pub index_path : List ℕ → List ℕ → List ℕ
unfolding basename
index_path index_root path =
    let suffix = dot ∷ 98 ∷ 108 ∷ 111 ∷ 99 ∷ 107 ∷ 73 ∷ 100 ∷ 120 ∷ [] in
    elim index_root [
      | [] ↦ path ++ suffix
      | c ∷ root ↦ (c ∷ root) ++ (slash ∷ basename path ++ suffix)
    ]
