-- ===== src/Bzip2/Places.antt =====
-- Bzip2File.cc: the places of a file at which the table finds a magic number, and the loop of
-- `findBlockBoundaryCandidates` over the chunk in which a place is.
use mathlib.Core.List.{append_assoc}
use lzopfs.Base.{
  ℕ, zero, suc, ◌+◌, ◌≤◌, ◌≡◌, refl, ap, sym, ◌∙◌, List, [], ◌∷◌, ◌++◌, some, length, length-append,
  take, drop, take-append-drop, arith,
}
use lzopfs.Blocks.{Buffer}
use lzopfs.Bzip2.Magic.{examine, number}
use lzopfs.Bzip2.Scan.{Boundary, Scan, scan_bytes}
use lzopfs.Bzip2.Listed.{Listed, scan_bytes-Listed}

-- A longer front of the same list goes on with a front of the rest.
append-split :
    (xs ys zs ws : Buffer)
    → xs ++ ys ≡ zs ++ ws
    → length xs ≤ length zs
    → (m : Buffer) × (zs ≡ xs ++ m) × (ys ≡ m ++ ws)
append-split [] ys zs ws e h = (zs, refl, e)
append-split (x ∷ xs) ys [] ws e h = absurd (omega (arith, h))
append-split (x ∷ xs) ys (z ∷ zs) ws e h =
    let head : x ≡ z = ground (arith, e) in
    let (m, front, back) = append-split xs ys zs ws (ground (arith, e)) (omega (arith, h)) in
    (m, rw (head, front) refl, back)

take-append_le : (n : ℕ) (xs ys : Buffer) → n ≤ length xs → take n (xs ++ ys) ≡ take n xs
take-append_le zero xs ys h = refl
take-append_le (suc n) [] ys h = absurd (omega (arith, h))
take-append_le (suc n) (x ∷ xs) ys h = ap (◌∷◌ x) (take-append_le n xs ys (omega (arith, h)))

pub length-nil : (xs : Buffer) → length xs ≡ 0 → xs ≡ []
length-nil [] e = refl
length-nil (x ∷ xs) e = absurd (omega (arith, e))

pub regroup :
    (done buf r : Buffer) (k : ℕ) → done ++ buf ++ r ≡ done ++ take k buf ++ (drop k buf ++ r)
regroup done buf r k =
    ap (λ l. done ++ l ++ r) (sym (take-append-drop k buf))
    ∙ ap (λ l. l ++ r) (sym (append_assoc done (take k buf) (drop k buf)))
    ∙ append_assoc (done ++ take k buf) (drop k buf) r

-- The bytes before and at a place of the file, and those behind it, of which there are eight.
pub record Place (contents : Buffer) : Type 0 where
  pub ahead : Buffer
  pub byte_before : ℕ
  pub byte : ℕ
  pub behind : Buffer
  pub whole : contents ≡ ahead ++ byte_before ∷ byte ∷ behind
  pub room : 8 ≤ length behind

-- What the table finds there.
abbrev pub Hit : (contents : Buffer) → Place contents → ℕ → ℕ → Type 0
Hit contents p v b =
    examine p.byte_before p.byte (number 0 (take 8 (p.byte ∷ p.behind))) ≡ some (v, b)

-- Every place from a byte on at which the table finds a magic number is listed.
abbrev pub Complete : Buffer → ℕ → List Boundary → Type 0
Complete contents from js =
    (p : Place contents) (v b : ℕ)
    → from ≤ length p.ahead
    → Hit contents p v b
    → Listed js (suc (length p.ahead)) v b

-- The loop over a chunk lists what is at least nine bytes before the end of the chunk.
pub chunk-Listed :
    (stray : ℕ) (done buf rest : Buffer) (p : Place (done ++ buf ++ rest)) (s : Scan) (v b : ℕ)
    → length done ≤ length p.ahead
    → length p.ahead + 10 ≤ length done + length buf
    → Hit (done ++ buf ++ rest) p v b
    → Listed (scan_bytes stray buf (length done) s).found (suc (length p.ahead)) v b
chunk-Listed stray done buf rest p s v b from inside hit =
    let u = p.byte_before in
    let c = p.byte in
    let (m, front, back) =
      append-split done (buf ++ rest) p.ahead (u ∷ c ∷ p.behind)
        (sym (append_assoc done buf rest) ∙ p.whole) from in
    let size = ap length front ∙ length-append done m in
    let regroup : (m ++ u ∷ c ∷ []) ++ p.behind ≡ buf ++ rest =
      append_assoc m (u ∷ c ∷ []) p.behind ∙ sym back in
    let (tail, chunk, behind) =
      append-split (m ++ u ∷ c ∷ []) p.behind buf rest regroup
        (omega (arith, size, inside, length-append m (u ∷ c ∷ []))) in
    let cut : buf ≡ m ++ u ∷ c ∷ tail = chunk ∙ append_assoc m (u ∷ c ∷ []) tail in
    let room : 8 ≤ length tail =
      omega (arith, size, inside, ap length cut, length-append m (u ∷ c ∷ tail)) in
    let same : take 8 (c ∷ p.behind) ≡ take 8 (c ∷ tail) =
      ap (λ l. take 8 (c ∷ l)) behind ∙ take-append_le 8 (c ∷ tail) rest (omega (arith, room)) in
    let found : examine u c (number 0 (take 8 (c ∷ tail))) ≡ some (v, b) =
      ap (λ l. examine u c (number 0 l)) (sym same) ∙ hit in
    let place : suc (length p.ahead) ≡ length done + length (stray ∷ m) = omega (arith, size) in
    rw place (
      scan_bytes-Listed stray buf (stray ∷ m) u c tail (length done) s v b (ap (◌∷◌ stray) cut) room
        found)
