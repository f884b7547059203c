-- ===== src/Bzip2/Aligned.antt =====
-- Bzip2File.cc: `createAlignedBlock`, which makes a file of one block from the bits between two
-- boundaries. The buffer is the caller's: what stood in it stays, up to its new size. A read or a
-- write behind its end is a fault.
use lzopfs.Base.{
  ℕ, ◌+◌, ◌-◌, ◌*◌, ◌/◌, ◌%◌, [], ◌∷◌, ◌++◌, true, false, if◌then◌else◌, leb, ◌==◌, length, take,
  drop,
}
use lzopfs.Blocks.{Buffer, resize, Result, ok, err, fault, ◌>>=◌}
use lzopfs.Bzip2.Magic.{bzip2_magic, pow2}

-- `n` bytes from a place on.
unfoldable pub bytes_at : Buffer → ℕ → ℕ → Result Buffer
bytes_at b i n = if leb (i + n) (length b) then ok (take n (drop i b)) else err fault

unfoldable pub write_at : Buffer → ℕ → Buffer → Result Buffer
write_at b i d =
    if leb (i + length d) (length b)
    then ok (take i b ++ (d ++ drop (i + length d) b))
    else err fault

-- `(x << s) | (y >> (8 - s))` in `uint8_t`: the parts have no bit in common.
abbrev pub shifted : ℕ → ℕ → ℕ → ℕ
shifted s x y = x * pow2 s % 256 + y / pow2 (8 - s)

-- Each byte but the last, shifted to the left with the high bits of the next one.
unfoldable pub shift_all : ℕ → Buffer → Buffer
shift_all s [] = []
shift_all s (x ∷ []) = []
shift_all s (x ∷ y ∷ bs) = shifted s x y ∷ shift_all s (y ∷ bs)

-- The footer's bytes, shifted; the last one with zeros.
unfoldable pub footer_shifted : ℕ → Buffer → Buffer
unfolding shift_all
footer_shifted s f = shift_all s (f ++ 0 ∷ [])

-- `EOSMagic`, byte by byte
abbrev pub eos_bytes : Buffer
eos_bytes = 23 ∷ 114 ∷ 69 ∷ 56 ∷ 80 ∷ 144 ∷ []

-- The first byte of a list, where it has one.
abbrev pub first_or : ℕ → Buffer → ℕ
first_or d [] = d
first_or d (x ∷ bs) = x

-- The head of the buffer, then the bytes that were read, shifted to begin at a byte.
unfoldable pub write_data : ℕ → ℕ → Buffer → Buffer → Result Buffer
unfolding bytes_at write_at shift_all
write_data level bits bytes b = write_at b 0 (bzip2_magic ++ level ∷ []) >>= λ b.
    write_at b 4 bytes >>= λ b. elim (bits == 0) [
      | true ↦ ok b
      | false ↦ bytes_at b 4 (length bytes + 1) >>= λ old. write_at b 4 (shift_all (8 - bits) old)
    ]

-- The end of the buffer: the bits behind the block are cleared, and the footer is written from
-- `ip` on, `ebits` bits early.
unfoldable pub write_footer : ℕ → ℕ → Buffer → Result Buffer
unfolding bytes_at write_at footer_shifted
write_footer ip ebits b = bytes_at b 10 4 >>= λ crc.
    (elim (ebits == 0) [
      | true ↦ ok b
      | false ↦ bytes_at b (ip - 1) 1 >>= λ old.
          write_at b (ip - 1)
            ((first_or 0 old / pow2 ebits * pow2 ebits + 23 / pow2 (8 - ebits)) ∷ [])
    ])
    >>= λ b. write_at b ip (footer_shifted ebits (eos_bytes ++ crc))

-- `createAlignedBlock`, behind the read of the bytes: `span` is `end - coff`.
unfoldable pub align : ℕ → ℕ → ℕ → ℕ → Buffer → Buffer → Result Buffer
unfolding write_data write_at write_footer
align level bits endbits span bytes b =
    let prev = if bits == 0 then 0 else 1 in
    let ebitsp = 8 * prev - bits + endbits in
    let fp = 4 + length bytes in
    let ip = fp - ebitsp / 8 in
    write_data level bits bytes (resize (4 + prev + span + 10) b) >>= λ b.
    (if leb 8 ebitsp then write_at b ip (0 ∷ []) else ok b) >>= λ b. write_footer ip (ebitsp % 8) b
