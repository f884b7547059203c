-- ===== src/Paths/Names.antt =====
-- PathUtils.cc: what the name of a path is, and how its extension is taken off.
use mathlib.Core.List.{append_assoc}
use lzopfs.Base.{
  ℕ, zero, suc, ◌+◌, ◌-◌, ◌≡◌, ◌≢◌, refl, ap, sym, ◌∙◌, List, [], ◌∷◌, ◌++◌, none, some, Bool, not,
  ltb, ◌==◌, length, take, drop, replicate, equal, arith, length-append, Bool-cases, inl, inr,
  Option-cases, equal_refl, equal-eq-true,
}
use lzopfs.Paths.{
  slash, dot, last_index, basename, basename_to, ends_with, has_extension, remove_extension,
  replace_extension,
}

drop-append : (xs ys : List ℕ) → drop (length xs) (xs ++ ys) ≡ ys
drop-append [] ys = refl
drop-append (x ∷ xs) ys = drop-append xs ys

take-append : (xs ys : List ℕ) → take (length xs) (xs ++ ys) ≡ xs
take-append [] ys = refl
take-append (x ∷ xs) ys = ap (◌∷◌ x) (take-append xs ys)

take-drop : (n : ℕ) (xs : List ℕ) → take n xs ++ drop n xs ≡ xs
take-drop zero xs = refl
take-drop (suc n) [] = refl
take-drop (suc n) (x ∷ xs) = ap (◌∷◌ x) (take-drop n xs)

ends_with-append : (xs ys : List ℕ) → ends_with (xs ++ ys) ys ≡ some (length xs)
unfolding ends_with
ends_with-append xs ys =
    let place : length (xs ++ ys) - length ys ≡ length xs = omega (arith, length-append xs ys) in
    ground (arith, place, drop-append xs ys, equal_refl ys, length-append xs ys)

has_extension-append :
    (x : ℕ) (xs ext : List ℕ)
    → has_extension ((x ∷ xs) ++ dot ∷ ext) ext ≡ some (length (x ∷ xs) + 1)
unfolding has_extension
has_extension-append x xs ext = rw (ends_with-append (x ∷ xs) (dot ∷ ext), has_extension) refl

-- From a name that is not empty, with a dot and an extension behind it, the removal of the extension
-- yields the name.
pub remove_extension-append :
    (x : ℕ) (xs ext : List ℕ) → remove_extension ((x ∷ xs) ++ dot ∷ ext) ext ≡ some (x ∷ xs)
unfolding remove_extension
remove_extension-append x xs ext =
    ground (arith, has_extension-append x xs ext, take-append (x ∷ xs) (dot ∷ ext))

take-append-suc :
    (xs : List ℕ) (y : ℕ) (ys : List ℕ) → take (suc (length xs)) (xs ++ y ∷ ys) ≡ xs ++ y ∷ []
take-append-suc [] y ys = refl
take-append-suc (x ∷ xs) y ys = ap (◌∷◌ x) (take-append-suc xs y ys)

after_dot : (n : ℕ) → suc n + 1 ≡ suc (suc n)
after_dot n = omega arith

-- In a name that is not empty, with a dot and an extension behind it, the replacement of the
-- extension yields the name with a dot and the new extension.
pub replace_extension-append :
    (x : ℕ) (xs ext new : List ℕ)
    → replace_extension ((x ∷ xs) ++ dot ∷ ext) ext new ≡ some ((x ∷ xs) ++ dot ∷ new)
unfolding replace_extension
replace_extension-append x xs ext new = ground (
  arith,
  has_extension-append x xs ext,
  take-append-suc (x ∷ xs) dot ext,
  after_dot (length xs),
  append_assoc (x ∷ xs) (dot ∷ []) new,
)

ends_with-eq-some :
    (haystack needle : List ℕ) (i : ℕ)
    → ends_with haystack needle ≡ some i
    → drop i haystack ≡ needle
unfolding ends_with
ends_with-eq-some haystack needle i h = elim (Bool-cases (ltb (length haystack) (length needle))) [
  | inl short ↦ absurd (cc (rw short at h))
  | inr long ↦ elim (Bool-cases (equal (drop (length haystack - length needle) haystack) needle)) [
    | inr differs ↦ absurd (cc (rw (long, differs) at h))
    | inl same ↦
        let place : length haystack - length needle ≡ i = cc (rw (long, same) at h) in
        ap (λ n. drop n haystack) (sym place) ∙ equal-eq-true _ needle same
  ]
]

not_all :
    (name : List ℕ) (m : ℕ) (ext : List ℕ) → drop (suc m) name ≡ dot ∷ ext → take (suc m) name ≢ []
not_all [] m ext h e = cc
not_all (x ∷ xs) m ext h e = cc

-- When an extension is removed from a name, the name was the result with a dot and the extension
-- behind it, and the result is not empty.
pub remove_extension-eq-some :
    (name ext r : List ℕ) → remove_extension name ext ≡ some r → (name ≡ r ++ dot ∷ ext) × (r ≢ [])
unfolding remove_extension has_extension
remove_extension-eq-some name ext r h = elim (Option-cases (ends_with name (dot ∷ ext))) [
  | inl e ↦ absurd (cc (rw (e, remove_extension) at h))
  | inr (zero, e) ↦ absurd (cc (rw (e, remove_extension) at h))
  | inr (suc m, e) ↦
      let resized : take (suc m + 1 - 1) name ≡ r = cc (rw (e, remove_extension) at h) in
      let size : suc m ≡ suc m + 1 - 1 = omega arith in
      let kept : take (suc m) name ≡ r = ap (λ k. take k name) size ∙ resized in
      let split : name ≡ take (suc m) name ++ dot ∷ ext =
        sym (take-drop (suc m) name)
        ∙ ap (λ x. take (suc m) name ++ x) (ends_with-eq-some name (dot ∷ ext) (suc m) e) in
      (
        split ∙ ap (λ x. x ++ dot ∷ ext) kept,
        λ none_left.
            not_all name m ext (ends_with-eq-some name (dot ∷ ext) (suc m) e) (kept ∙ none_left),
      )
]

last_index-append-none :
    (p : ℕ → Bool) (xs ys : List ℕ)
    → last_index p ys ≡ none
    → last_index p (xs ++ ys) ≡ last_index p xs
unfolding last_index
last_index-append-none p [] ys h = h
last_index-append-none p (x ∷ xs) ys h = rw (last_index-append-none p xs ys h) refl

last_index-append-some :
    (p : ℕ → Bool) (xs ys : List ℕ) (i : ℕ)
    → last_index p ys ≡ some i
    → last_index p (xs ++ ys) ≡ some (length xs + i)
unfolding last_index
last_index-append-some p [] ys i h = h ∙ ap some (omega arith)
last_index-append-some p (x ∷ xs) ys i h =
    rw (last_index-append-some p xs ys i h) (ap some (omega arith))

-- Every byte is a slash.
last_index-slashes : (n : ℕ) → last_index (λ c. not (c == slash)) (replicate n slash) ≡ none
unfolding last_index
last_index-slashes zero = refl
last_index-slashes (suc n) = rw (last_index-slashes n) refl

last_index-name :
    (x : ℕ) (xs : List ℕ)
    → last_index (λ c. c == slash) (x ∷ xs) ≡ none
    → last_index (λ c. not (c == slash)) (x ∷ xs) ≡ some (length xs)
unfolding last_index
last_index-name x [] h = ground arith
last_index-name x (y ∷ ys) h = elim (Option-cases (last_index (λ c. c == slash) (y ∷ ys))) [
  | inl e ↦ rw (last_index-name y ys e) refl
  | inr (i, e) ↦ absurd (cc (rw e at h))
]

module _ (dir : List ℕ) (x : ℕ) (xs : List ℕ) (n : ℕ)
    (whole : last_index (λ c. c == slash) (x ∷ xs) ≡ none) where
  abbrev up_to_name : List ℕ
  up_to_name = dir ++ slash ∷ x ∷ xs

  name_end : last_index (λ c. not (c == slash)) (slash ∷ x ∷ xs) ≡ some (suc (length xs))
  unfolding last_index
  name_end = rw (last_index-name x xs whole) refl

  name_start : last_index (λ c. c == slash) (slash ∷ x ∷ xs) ≡ some 0
  unfolding last_index
  name_start = rw whole refl

  bend :
      last_index (λ c. not (c == slash)) (up_to_name ++ replicate n slash)
      ≡ some (length dir + suc (length xs))
  bend =
      last_index-append-none (λ c. not (c == slash)) up_to_name (replicate n slash)
        (last_index-slashes n)
      ∙ last_index-append-some (λ c. not (c == slash)) dir (slash ∷ x ∷ xs) (suc (length xs))
          name_end

  bstart : last_index (λ c. c == slash) up_to_name ≡ some (length dir + 0)
  bstart = last_index-append-some (λ c. c == slash) dir (slash ∷ x ∷ xs) 0 name_start

  taken : take (suc (length dir + suc (length xs))) (up_to_name ++ replicate n slash) ≡ up_to_name
  taken =
      let place : length up_to_name ≡ suc (length dir + suc (length xs)) =
        omega (arith, length-append dir (slash ∷ x ∷ xs)) in
      ap (λ k. take k (up_to_name ++ replicate n slash)) (sym place)
      ∙ take-append up_to_name (replicate n slash)

  name_left : drop (suc (length dir + 0)) up_to_name ≡ x ∷ xs
  name_left =
      let place : suc (length dir + 0) ≡ length (dir ++ slash ∷ []) =
        omega (arith, length-append dir (slash ∷ [])) in
      ap (λ k. drop k up_to_name) place
      ∙ ap (λ l. drop (length (dir ++ slash ∷ [])) l) (sym (append_assoc dir (slash ∷ []) (x ∷ xs)))
      ∙ drop-append (dir ++ slash ∷ []) (x ∷ xs)

  basename_to_lem :
      basename_to (up_to_name ++ replicate n slash) (length dir + suc (length xs)) ≡ x ∷ xs
  unfolding basename_to
  basename_to_lem = ground (arith, taken, bstart, name_left)

basename-cons :
    (path : List ℕ) (i : ℕ)
    → last_index (λ c. not (c == slash)) path ≡ some i
    → basename path ≡ basename_to path i
unfolding basename last_index
basename-cons [] i h = cc
basename-cons (x ∷ xs) i h = rw (h, basename) refl

-- The base name of a path is what stands behind its last slash that is not at the end, with the
-- slashes at the end taken off, when that is not empty and has no slash.
pub basename_lem :
    (dir : List ℕ) (x : ℕ) (xs : List ℕ) (n : ℕ)
    → last_index (λ c. c == slash) (x ∷ xs) ≡ none
    → basename ((dir ++ slash ∷ x ∷ xs) ++ replicate n slash) ≡ x ∷ xs
basename_lem dir x xs n h = basename-cons _ _ (bend dir x xs n h) ∙ basename_to_lem dir x xs n h
