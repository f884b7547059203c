-- ===== src/Bzip2/Table.antt =====
-- Bzip2File.cc: the examination of a byte by the table, against the bits of the file.
use lzopfs.Base.{
  ℕ, zero, suc, ◌+◌, ◌*◌, ◌/◌, ◌%◌, ◌<◌, ◌≡◌, ◌⊎◌, ◌↔◌, ◌∙◌, inl, inr, refl, ap, sym, List, [], ◌∷◌,
  Option, none, some, Bool, true, ◌&&◌, ◌==◌, ltb, arith, Option-cases, Bool-cases,
}
use lzopfs.Bzip2.Magic.{
  block_magic, eos_magic, mod48, pow2, full_byte, back_bits, entry, joined, is_magic, examine,
}

-- The 48 bits that begin `b` bits before the eight bytes `w` in the nine bytes `u` and `w`.
abbrev pub bits_before : ℕ → ℕ → ℕ → ℕ
bits_before u w b = (u * 18446744073709551616 + w) / pow2 (16 + b) % mod48

-- One of the two magic numbers.
abbrev pub IsMagic : ℕ → Type 0
IsMagic v = (v ≡ block_magic) ⊎ (v ≡ eos_magic)

-- Whether all entries of a table are counts of bits.
all_small : List (Option ℕ) → Bool
all_small [] = true
all_small (none ∷ t) = all_small t
all_small (some b ∷ t) = ltb b 8 && all_small t

entry_small :
    (t : List (Option ℕ)) (c : ℕ) {b : ℕ} → all_small t ≡ true → entry t c ≡ some b → b < 8
unfolding all_small entry
entry_small [] c h e = cc
entry_small (none ∷ t) zero h e = cc
entry_small (some x ∷ t) zero h e = ground arith
entry_small (none ∷ t) (suc c) h e = entry_small t c h e
entry_small (some x ∷ t) (suc c) {b} h e = ground (arith, entry_small t c {b = b})

back_bits_small : all_small back_bits ≡ true
unfolding all_small back_bits
back_bits_small = refl

-- No first byte belongs to two shifts: each is found in the table with its own.
abbrev ShiftsFound : ℕ → Type 0
ShiftsFound b =
    (entry back_bits (full_byte 49 65 b) ≡ some b) × (entry back_bits (full_byte 23 114 b) ≡ some b)

-- A family over the counts of bits, case by case.
below_8 {ℓ} :
    (P : ℕ → Type ℓ) → P 0 → P 1 → P 2 → P 3 → P 4 → P 5 → P 6 → P 7 → (b : ℕ) → b < 8 → P b
below_8 P p0 p1 p2 p3 p4 p5 p6 p7 zero h = p0
below_8 P p0 p1 p2 p3 p4 p5 p6 p7 (suc zero) h = p1
below_8 P p0 p1 p2 p3 p4 p5 p6 p7 (suc (suc zero)) h = p2
below_8 P p0 p1 p2 p3 p4 p5 p6 p7 (suc (suc (suc zero))) h = p3
below_8 P p0 p1 p2 p3 p4 p5 p6 p7 (suc (suc (suc (suc zero)))) h = p4
below_8 P p0 p1 p2 p3 p4 p5 p6 p7 (suc (suc (suc (suc (suc zero))))) h = p5
below_8 P p0 p1 p2 p3 p4 p5 p6 p7 (suc (suc (suc (suc (suc (suc zero)))))) h = p6
below_8 P p0 p1 p2 p3 p4 p5 p6 p7 (suc (suc (suc (suc (suc (suc (suc zero))))))) h = p7
below_8 P p0 p1 p2 p3 p4 p5 p6 p7 (suc (suc (suc (suc (suc (suc (suc (suc b)))))))) h =
    absurd (omega arith)

entry-full_byte : (b : ℕ) → b < 8 → ShiftsFound b
unfolding entry back_bits
entry-full_byte =
    below_8 ShiftsFound (refl, refl) (refl, refl) (refl, refl) (refl, refl) (refl, refl)
      (refl, refl) (refl, refl) (refl, refl)

module _ (u c r : ℕ) (hu : u < 256) (hc : c < 256) (hr : r < 72057594037927936) where
  abbrev w : ℕ
  w = c * 72057594037927936 + r

  joined-bits_before : (b : ℕ) → b < 8 → joined u w b ≡ bits_before u w b
  unfolding joined
  joined-bits_before =
      below_8 (λ b. joined u w b ≡ bits_before u w b) (omega arith) (omega arith) (omega arith)
        (omega arith) (omega arith) (omega arith) (omega arith) (omega arith)

  -- The first full byte of a magic number is that of its first two bytes.
  first_block : (b : ℕ) → b < 8 → bits_before u w b ≡ block_magic → c ≡ full_byte 49 65 b
  first_block =
      below_8 (λ b. bits_before u w b ≡ block_magic → c ≡ full_byte 49 65 b) (λ e. omega arith)
        (λ e. omega arith) (λ e. omega arith) (λ e. omega arith) (λ e. omega arith)
        (λ e. omega arith) (λ e. omega arith) (λ e. omega arith)

  first_eos : (b : ℕ) → b < 8 → bits_before u w b ≡ eos_magic → c ≡ full_byte 23 114 b
  first_eos =
      below_8 (λ b. bits_before u w b ≡ eos_magic → c ≡ full_byte 23 114 b) (λ e. omega arith)
        (λ e. omega arith) (λ e. omega arith) (λ e. omega arith) (λ e. omega arith)
        (λ e. omega arith) (λ e. omega arith) (λ e. omega arith)

  found_by_table : (b : ℕ) → b < 8 → IsMagic (bits_before u w b) → entry back_bits c ≡ some b
  found_by_table b h (inl e) = ap (entry back_bits) (first_block b h e) ∙ (entry-full_byte b h).0
  found_by_table b h (inr e) = ap (entry back_bits) (first_eos b h e) ∙ (entry-full_byte b h).1

  is_magic-IsMagic : (v : ℕ) → is_magic v ≡ true → IsMagic v
  is_magic-IsMagic v h = elim (Bool-cases (v == block_magic)) [
    | inl e ↦ inl (ground arith)
    | inr e ↦ inr (ground arith)
  ]

  IsMagic-is_magic : (v : ℕ) → IsMagic v → is_magic v ≡ true
  IsMagic-is_magic v (inl e) = ground arith
  IsMagic-is_magic v (inr e) = ground arith

  examine_sound :
      (v b : ℕ) → examine u c w ≡ some (v, b) → (b < 8) × (v ≡ bits_before u w b) × IsMagic v
  unfolding examine
  examine_sound v b h = elim (Option-cases (entry back_bits c)) [
    | inl e ↦ absurd (cc (rw (e, examine) at h))
    | inr (x, e) ↦
        let small = entry_small back_bits c back_bits_small e in
        elim (Bool-cases (is_magic (joined u w x))) [
          | inr no_magic ↦ absurd (cc (rw (e, examine) at h, no_magic))
          | inl magic ↦
              let bits : x ≡ b = cc (rw (e, examine) at h, magic) in
              let value : joined u w x ≡ v = cc (rw (e, examine) at h, magic) in
              let here : b < 8 = rw (← bits) small in
              (
                here,
                sym value ∙ ap (joined u w) bits ∙ joined-bits_before b here,
                rw (← value) (is_magic-IsMagic (joined u w x) magic),
              )
        ]
  ]

  examine_complete :
      (b : ℕ) → b < 8 → IsMagic (bits_before u w b) → examine u c w ≡ some (bits_before u w b, b)
  unfolding examine
  examine_complete b h m =
      rw (found_by_table b h m, examine)
        (rw (joined-bits_before b h) (rw (IsMagic-is_magic (bits_before u w b) m)))

  -- With any byte before it, the table finds a magic number at a byte, with its value and its count
  -- of bits in the byte before, exactly where the 48 bits that begin so many bits before the byte,
  -- fewer than eight, are one of the two magic numbers: no boundary is missed, none is made up, and
  -- no byte is taken for a wrong shift.
  pub examine_iff :
      (v b : ℕ) → (examine u c w ≡ some (v, b)) ↔ ((b < 8) × (v ≡ bits_before u w b) × IsMagic v)
  examine_iff v b = (examine_sound v b, λ r. rw r.1 (examine_complete b r.0 (rw (← r.1) r.2)))
