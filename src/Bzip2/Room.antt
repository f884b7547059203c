-- ===== src/Bzip2/Room.antt =====
-- Bzip2File.cc: `createAlignedBlock` stays inside its buffer.
use lzopfs.Base.{
  ℕ, suc, ◌+◌, ◌-◌, ◌*◌, ◌/◌, ◌%◌, ◌<◌, ◌≤◌, ◌≡◌, ◌∙◌, refl, ap, [], ◌∷◌, ◌++◌, Bool, true, false,
  if◌then◌else◌, leb, ◌==◌, length, take, drop, arith, length-append, length-take, length-drop,
  Bool-cases, inl, inr,
}
use lzopfs.Blocks.{length-resize, Buffer, resize, Result, ok}
use lzopfs.Bzip2.Magic.{bzip2_magic, pow2}
use lzopfs.Bzip2.Aligned.{
  bytes_at, write_at, shift_all, footer_shifted, eos_bytes, first_or, write_data, write_footer,
  align,
}

-- A step on the buffer succeeds and keeps its length.
abbrev Keeps : Buffer → Result Buffer → Type 0
Keeps b m = (r : Buffer) × (m ≡ ok r) × (length r ≡ length b)

write_at-Keeps :
    (b : Buffer) (i : ℕ) (d : Buffer) → i + length d ≤ length b → Keeps b (write_at b i d)
unfolding write_at
write_at-Keeps b i d h = (
  take i b ++ (d ++ drop (i + length d) b),
  ground arith,
  omega (
    arith,
    length-append (take i b) (d ++ drop (i + length d) b),
    length-append d (drop (i + length d) b),
    length-take i b,
    length-drop (i + length d) b,
  ),
)

bytes_at_lem :
    (b : Buffer) (i n : ℕ)
    → i + n ≤ length b
    → (r : Buffer) × (bytes_at b i n ≡ ok r) × (length r ≡ n)
unfolding bytes_at
bytes_at_lem b i n h =
    (take n (drop i b), ground arith, omega (arith, length-take n (drop i b), length-drop i b))

length-shift_all : (s : ℕ) (x : ℕ) (bs : Buffer) → length (shift_all s (x ∷ bs)) ≡ length bs
unfolding shift_all
length-shift_all s x [] = refl
length-shift_all s x (y ∷ bs) = ap suc (length-shift_all s y bs)

length-shift_all_suc :
    (s : ℕ) (bs : Buffer) (n : ℕ) → length bs ≡ n + 1 → length (shift_all s bs) ≡ n
length-shift_all_suc s [] n h = absurd (omega arith)
length-shift_all_suc s (x ∷ bs) n h = length-shift_all s x bs ∙ omega arith

length-footer_shifted : (s : ℕ) (f : Buffer) → length (footer_shifted s f) ≡ length f
unfolding footer_shifted
length-footer_shifted s f =
    length-shift_all_suc s (f ++ 0 ∷ []) (length f) (length-append f (0 ∷ []))

write_data-Keeps :
    (level bits : ℕ) (bytes b : Buffer)
    → length bytes + 5 ≤ length b
    → Keeps b (write_data level bits bytes b)
unfolding write_data
write_data-Keeps level bits bytes b h =
    let (b₁, e₁, l₁) = write_at-Keeps b 0 (bzip2_magic ++ level ∷ []) (omega arith) in
    let (b₂, e₂, l₂) = write_at-Keeps b₁ 4 bytes (omega arith) in
    elim (Bool-cases (bits == 0)) [
      | inl whole ↦ (b₂, rw e₁ (rw e₂ (rw whole)), l₂ ∙ l₁)
      | inr early ↦
          let (old, e₃, l₃) = bytes_at_lem b₂ 4 (length bytes + 1) (omega arith) in
          let size = length-shift_all_suc (8 - bits) old (length bytes) l₃ in
          let (b₄, e₄, l₄) = write_at-Keeps b₂ 4 (shift_all (8 - bits) old) (omega arith) in
          (b₄, rw e₁ (rw e₂ (rw early (rw e₃ e₄))), l₄ ∙ l₂ ∙ l₁)
    ]

write_footer-Keeps :
    (ip ebits : ℕ) (b : Buffer) → 4 ≤ ip → ip + 10 ≤ length b → Keeps b (write_footer ip ebits b)
unfolding write_footer
write_footer-Keeps ip ebits b low h =
    let (crc, e₁, l₁) = bytes_at_lem b 10 4 (omega arith) in
    let size = length-footer_shifted ebits (eos_bytes ++ crc) ∙ length-append eos_bytes crc in
    elim (Bool-cases (ebits == 0)) [
      | inl whole ↦
          let (b₁, e₂, l₂) =
            write_at-Keeps b ip (footer_shifted ebits (eos_bytes ++ crc)) (omega arith) in
          (b₁, rw e₁ (rw whole e₂), l₂)
      | inr early ↦
          let (old, e₂, l₂) = bytes_at_lem b (ip - 1) 1 (omega arith) in
          let (b₁, e₃, l₃) =
            write_at-Keeps b (ip - 1)
              ((first_or 0 old / pow2 ebits * pow2 ebits + 23 / pow2 (8 - ebits)) ∷ [])
              (omega arith) in
          let (b₂, e₄, l₄) =
            write_at-Keeps b₁ ip (footer_shifted ebits (eos_bytes ++ crc)) (omega arith) in
          (b₂, rw e₁ (rw early (rw e₂ (rw e₃ e₄))), l₄ ∙ l₃)
    ]

-- The byte behind the data is cleared where the next block begins before it.
clear-Keeps :
    (late : Bool) (ip : ℕ) (b : Buffer)
    → ip + 1 ≤ length b
    → Keeps b (if late then write_at b ip (0 ∷ []) else ok b)
clear-Keeps true ip b h = write_at-Keeps b ip (0 ∷ []) h
clear-Keeps false ip b h = (b, refl, refl)

-- For the bytes of a block, at least one and no more than were asked for, with fewer than eight bits
-- before and behind, createAlignedBlock neither reads nor writes behind the end of its buffer, which
-- gets the size of the head, the block, the byte before it where one belongs to it, and the footer.
pub align_lem :
    (level bits endbits span : ℕ) (bytes b : Buffer)
    → bits < 8
    → endbits < 8
    → 0 < length bytes
    → length bytes ≤ span + (if bits == 0 then 0 else 1)
    → (r : Buffer) × (align level bits endbits span bytes b ≡ ok r)
      × (length r ≡ 14 + span + (if bits == 0 then 0 else 1))
unfolding align
align_lem level bits endbits span bytes b hb he some_bytes fits =
    let prev = if bits == 0 then 0 else 1 in
    let ebitsp = 8 * prev - bits + endbits in
    let small : prev ≤ 1 = ground arith in
    let shift : ebitsp / 8 ≤ 1 = omega arith in
    let ip = 4 + length bytes - ebitsp / 8 in
    let size = length-resize (4 + prev + span + 10) b in
    let (b₁, e₁, l₁) =
      write_data-Keeps level bits bytes (resize (4 + prev + span + 10) b) (omega arith) in
    let (b₂, e₂, l₂) = clear-Keeps (leb 8 ebitsp) ip b₁ (omega arith) in
    let (b₃, e₃, l₃) = write_footer-Keeps ip (ebitsp % 8) b₂ (omega arith) (omega arith) in
    (b₃, rw e₁ (rw e₂ e₃), omega arith)
