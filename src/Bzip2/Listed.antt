-- ===== src/Bzip2/Listed.antt =====
-- Bzip2File.cc: what the loop of `findBlockBoundaryCandidates` over a chunk adds to the list.
use mathlib.Core.List.{append_assoc, append-nil}
use lzopfs.Base.{
  ℕ, suc, ◌+◌, ◌≤◌, ◌≡◌, refl, ap, sym, ◌∙◌, List, [], ◌∷◌, ◌++◌, none, some, true, length,
  length-append, take, arith, leb, Option-cases, Bool-cases, inl, inr,
}
use native.Mathlib.Nat.{add-zero}
use lzopfs.Blocks.{Buffer}
use lzopfs.Bzip2.Magic.{examine, number}
use lzopfs.Bzip2.Scan.{Boundary, Scan, count_down, push_found, scan_byte, scan_bytes}

-- A boundary of the list: its place, its magic number and its count of bits.
abbrev pub Listed : List Boundary → ℕ → ℕ → ℕ → Type 0
Listed js p v b =
    (before behind : List Boundary) × (j : Boundary) × (js ≡ before ++ j ∷ behind)
    × (j.coff ≡ p)
    × (j.magic ≡ v)
    × (j.bits ≡ b)

pub Listed-append :
    (js more : List Boundary) (p v b : ℕ) → Listed js p v b → Listed (js ++ more) p v b
Listed-append js more p v b (before, behind, j, e, at, same, bits) = (
  before,
  behind ++ more,
  j,
  ap (λ l. l ++ more) e ∙ append_assoc before (j ∷ behind) more,
  at,
  same,
  bits,
)

-- A list that goes on with more.
abbrev pub Grows : List Boundary → List Boundary → Type 0
Grows js ks = (more : List Boundary) × (ks ≡ js ++ more)

pub Grows-trans : (js ks ls : List Boundary) → Grows js ks → Grows ks ls → Grows js ls
Grows-trans js ks ls (more, e) (rest, f) =
    (more ++ rest, f ∙ ap (λ l. l ++ rest) e ∙ append_assoc js more rest)

pub Listed-Grows :
    (js ks : List Boundary) (p v b : ℕ) → Grows js ks → Listed js p v b → Listed ks p v b
Listed-Grows js ks p v b (more, e) l = rw e (Listed-append js more p v b l)

count_down-found : (c : ℕ) (s : Scan) → (count_down c s).found ≡ s.found
count_down-found c s = ground arith

scan_byte-none :
    (u c w coff : ℕ) (s : Scan) → examine u c w ≡ none → scan_byte u c w coff s ≡ count_down c s
unfolding scan_byte
scan_byte-none u c w coff s e = rw (e, scan_byte) refl

scan_byte-some :
    (u c w coff : ℕ) (s : Scan) (v b : ℕ)
    → examine u c w ≡ some (v, b)
    → scan_byte u c w coff s ≡ push_found v b coff (count_down c s)
unfolding scan_byte
scan_byte-some u c w coff s v b e = rw (e, scan_byte) refl

push_found-Grows : (v b coff : ℕ) (s : Scan) → Grows s.found (push_found v b coff s).found
push_found-Grows v b coff s = (_, refl)

scan_byte-Grows : (u c w coff : ℕ) (s : Scan) → Grows s.found (scan_byte u c w coff s).found
scan_byte-Grows u c w coff s = elim (Option-cases (examine u c w)) [
  | inl e ↦ (
    [],
    ap (λ t. t.found) (scan_byte-none u c w coff s e)
        ∙ count_down-found c s
        ∙ sym (append-nil s.found),
  )
  | inr ((v, b), e) ↦ rw (scan_byte-some u c w coff s v b e) (
      Grows-trans s.found (count_down c s).found _
        ([], count_down-found c s ∙ sym (append-nil s.found))
        (push_found-Grows v b coff (count_down c s)))
]

scan_byte-Listed :
    (u c w coff : ℕ) (s : Scan) (v b : ℕ)
    → examine u c w ≡ some (v, b)
    → Listed (scan_byte u c w coff s).found coff v b
scan_byte-Listed u c w coff s v b e = (
  (count_down c s).found,
  [],
  _,
  ap (λ t. t.found) (scan_byte-some u c w coff s v b e),
  refl,
  refl,
  refl,
)

-- The loop over a chunk only adds to the list.
pub scan_bytes-Grows :
    (u : ℕ) (bs : Buffer) (coff : ℕ) (s : Scan) → Grows s.found (scan_bytes u bs coff s).found
unfolding scan_bytes
scan_bytes-Grows u [] coff s = ([], sym (append-nil s.found))
scan_bytes-Grows u (c ∷ bs) coff s = elim (Bool-cases (leb 8 (length bs))) [
  | inr e ↦ rw (e, scan_bytes) ([], sym (append-nil s.found))
  | inl e ↦
      let t = scan_byte u c (number 0 (take 8 (c ∷ bs))) coff s in
      rw (e, scan_bytes)
        (Grows-trans s.found t.found _ (scan_byte-Grows u c _ coff s)
          (scan_bytes-Grows c bs (suc coff) t))
]

scan_bytes-step :
    (u c : ℕ) (bs : Buffer) (coff : ℕ) (s : Scan)
    → 8 ≤ length bs
    → scan_bytes u (c ∷ bs) coff s
      ≡ scan_bytes c bs (suc coff) (scan_byte u c (number 0 (take 8 (c ∷ bs))) coff s)
unfolding scan_bytes
scan_bytes-step u c bs coff s h =
    let e : leb 8 (length bs) ≡ true = ground (arith, h) in rw (e, scan_bytes) refl

-- It lists every byte behind which eight bytes of the chunk stand, and at which a magic number is.
pub scan_bytes-Listed :
    (u₀ : ℕ) (bs before : Buffer) (u c : ℕ) (tail : Buffer) (coff : ℕ) (s : Scan) (v b : ℕ)
    → u₀ ∷ bs ≡ before ++ u ∷ c ∷ tail
    → 8 ≤ length tail
    → examine u c (number 0 (take 8 (c ∷ tail))) ≡ some (v, b)
    → Listed (scan_bytes u₀ bs coff s).found (coff + length before) v b
scan_bytes-Listed u₀ bs [] u c tail coff s v b e h found =
    let head : u₀ ≡ u = ground (arith, e) in
    let rest : bs ≡ c ∷ tail = ground (arith, e) in
    let t = scan_byte u c (number 0 (take 8 (c ∷ tail))) coff s in
    let whole : scan_bytes u₀ bs coff s ≡ scan_bytes c tail (suc coff) t =
      rw (head, rest) (scan_bytes-step u c tail coff s h) in
    rw (add-zero coff, whole)
      (Listed-Grows t.found _ coff v b (scan_bytes-Grows c tail (suc coff) t)
        (scan_byte-Listed u c _ coff s v b found))
scan_bytes-Listed u₀ (x ∷ bs) (y ∷ before) u c tail coff s v b e h found =
    let rest : x ∷ bs ≡ before ++ u ∷ c ∷ tail = ground (arith, e) in
    let long : 8 ≤ length bs =
      omega (arith, h, ap length rest, length-append before (u ∷ c ∷ tail)) in
    let t = scan_byte u₀ x (number 0 (take 8 (x ∷ bs))) coff s in
    let place : coff + suc (length before) ≡ suc coff + length before = omega arith in
    rw (place, scan_bytes-step u₀ x bs coff s long)
      (scan_bytes-Listed x bs before u c tail (suc coff) t v b rest h found)
scan_bytes-Listed u₀ [] (y ∷ before) u c tail coff s v b e h found =
    absurd (ground (arith, ap length e, length-append before (u ∷ c ∷ tail)))
