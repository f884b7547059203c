-- ===== src/Pixz/Words.antt =====
-- PixzFile.cc: the words of zeros in front of a place, in a file and in a chunk of it.
use lzopfs.Base.{
  ℕ, zero, suc, ◌+◌, ◌-◌, ◌*◌, ◌<◌, ◌≤◌, ◌≡◌, refl, ap, sym, subst, ◌∙◌, [], ◌∷◌, some, none, true,
  false, take, drop, arith,
}
use lzopfs.Blocks.{Buffer}
use lzopfs.Pixz.{is_zero_word, scan_words}

abbrev none_left : Buffer
none_left = []

-- The four bytes that end at a place.
abbrev pub word_before : Buffer → ℕ → Buffer
word_before c e = take 4 (drop (e - 4) c)

-- So many words of zeros end at a place.
abbrev pub Padded : Buffer → ℕ → ℕ → Type 0
Padded c e zero = Unit
Padded c e (suc n) = (is_zero_word (word_before c e) ≡ true) × Padded c (e - 4) n

drop-take : (m b n : ℕ) (xs : Buffer) → b + m ≤ n → take m (drop b (take n xs)) ≡ take m (drop b xs)
drop-take zero b n xs h = refl
drop-take (suc m) b zero xs h = absurd (omega arith)
drop-take (suc m) zero (suc n) [] h = refl
drop-take (suc m) zero (suc n) (x ∷ xs) h = ap (◌∷◌ x) (drop-take m zero n xs (omega arith))
drop-take (suc m) (suc b) (suc n) [] h = refl
drop-take (suc m) (suc b) (suc n) (x ∷ xs) h = drop-take (suc m) b n xs (omega arith)

drop-nil : (n : ℕ) → drop n none_left ≡ none_left
drop-nil zero = refl
drop-nil (suc n) = refl

drop-drop : (a b : ℕ) (xs : Buffer) → drop b (drop a xs) ≡ drop (a + b) xs
drop-drop zero b xs = ap (λ i. drop i xs) (omega arith)
drop-drop (suc a) b [] = drop-nil b ∙ sym (drop-nil (suc a + b))
drop-drop (suc a) b (x ∷ xs) =
    drop-drop a b xs
    ∙ (let same : suc (a + b) ≡ suc a + b = omega arith in ap (λ i. drop i (x ∷ xs)) same)

-- A word of a chunk is a word of the file.
pub word_before-chunk :
    (c : Buffer) (a n e : ℕ)
    → 4 ≤ e
    → e ≤ n
    → word_before (take n (drop a c)) e ≡ word_before c (a + e)
word_before-chunk c a n e h low =
    drop-take 4 (e - 4) n (drop a c) (omega arith)
    ∙ ap (take 4) (drop-drop a (e - 4) c)
    ∙ ap (λ i. take 4 (drop i c)) (omega arith)

-- The scan stops at the last word that is not zero.
pub scan_words-found :
    (fuel n x pad : ℕ) (buf : Buffer)
    → n < fuel
    → 4 ≤ x
    → Padded buf (x + 4 * n) n
    → is_zero_word (word_before buf x) ≡ false
    → scan_words fuel buf (x + 4 * n) pad ≡ (pad + 4 * n, some x)
unfolding scan_words
scan_words-found zero n x pad buf h low zeros last = absurd (omega arith)
scan_words-found (suc fuel) zero x pad buf h low zeros last = ground (arith, last)
scan_words-found (suc fuel) (suc n) x pad buf h low (here, rest) last =
    let back : x + 4 * suc n - 4 ≡ x + 4 * n = omega arith in
    let later =
      scan_words-found fuel n x (pad + 4) buf (omega arith) low
        (subst (λ e. Padded buf e n) back rest) last in
    ground (arith, here, back, later)

-- It goes through a chunk of zeros.
pub scan_words-zeros :
    (n pad fuel : ℕ) (buf : Buffer)
    → n < fuel
    → Padded buf (4 * n) n
    → scan_words fuel buf (4 * n) pad ≡ (pad + 4 * n, none)
unfolding scan_words
scan_words-zeros n pad zero buf h zeros = absurd (omega arith)
scan_words-zeros zero pad (suc fuel) buf h zeros = ground arith
scan_words-zeros (suc n) pad (suc fuel) buf h (here, rest) =
    let back : 4 * suc n - 4 ≡ 4 * n = omega arith in
    let later =
      scan_words-zeros n (pad + 4) fuel buf (omega arith) (subst (λ e. Padded buf e n) back rest) in
    ground (arith, here, back, later)

pub Padded-chunk :
    (c : Buffer) (a size e n : ℕ)
    → 4 * n ≤ e
    → e ≤ size
    → Padded c (a + e) n
    → Padded (take size (drop a c)) e n
Padded-chunk c a size e zero room low zeros = tt
Padded-chunk c a size e (suc n) room low (here, rest) =
    let back : a + e - 4 ≡ a + (e - 4) = omega arith in
    (
      ap is_zero_word (word_before-chunk c a size e (omega arith) low) ∙ here,
      Padded-chunk c a size (e - 4) n (omega arith) (omega arith)
          (subst (λ i. Padded c i n) back rest),
    )

-- Padding is split at any word.
pub Padded-split :
    (c : Buffer) (e m n : ℕ) → Padded c e (m + n) → Padded c e m × Padded c (e - 4 * m) n
Padded-split c e zero n zeros =
    let none_yet : zero + n ≡ n = omega arith in
    let start : e ≡ e - 4 * zero = omega arith in
    (tt, subst (λ i. Padded c i n) start (subst (λ k. Padded c e k) none_yet zeros))
Padded-split c e (suc m) n zeros =
    let all : suc m + n ≡ suc (m + n) = omega arith in
    let (here, rest) = subst (λ k. Padded c e k) all zeros in
    let (first, last) = Padded-split c (e - 4) m n rest in
    let back : e - 4 - 4 * m ≡ e - 4 * suc m = omega arith in
    ((here, first), subst (λ i. Padded c i n) back last)
