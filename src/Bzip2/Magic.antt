-- ===== src/Bzip2/Magic.antt =====
-- Bzip2File.h and Bzip2File.cc: the magic numbers, and how a byte is examined for one. A block need
-- not begin at a byte: `bits` counts the bits of the byte before that belong to it.
use Prim.Native.Nat.{bit_or}
use lzopfs.Base.{
  ℕ, zero, suc, ◌+◌, ◌-◌, ◌*◌, ◌/◌, ◌%◌, ◌^◌, List, [], ◌∷◌, Option, none, some, Bool, ◌||◌,
  if◌then◌else◌, ◌==◌, replicate,
}
use lzopfs.Blocks.{Buffer}

-- `Bzip2File::Magic`
abbrev pub bzip2_magic : Buffer
bzip2_magic = 66 ∷ 90 ∷ 104 ∷ []

-- `BlockMagic` and `EOSMagic`, of 48 bits each
abbrev pub block_magic : ℕ
block_magic = 54156738319193

abbrev pub eos_magic : ℕ
eos_magic = 25779555029136

-- The number of values of 48 bits.
abbrev pub mod48 : ℕ
mod48 = 281474976710656

-- `2 ^ b` for the counts of bits that occur.
abbrev pub pow2 : ℕ → ℕ
pow2 b = 2 ^ b

-- The first full byte of a magic number that begins `i` bits early, from its first two bytes:
-- `(m1 << i) | (m2 >> (8 - i))` in `uint8_t`.
abbrev pub full_byte : ℕ → ℕ → ℕ → ℕ
full_byte m1 m2 i = bit_or (m1 * 2 ^ i) (m2 / 2 ^ (8 - i)) % 256

-- A store to the table; every index is a byte.
unfoldable pub put : List (Option ℕ) → ℕ → ℕ → List (Option ℕ)
put [] k v = []
put (x ∷ xs) zero v = some v ∷ xs
put (x ∷ xs) (suc k) v = x ∷ put xs k v

-- The loop that fills `backBits`, with the count of rounds to come.
unfoldable pub fill : ℕ → List (Option ℕ) → List (Option ℕ)
unfolding put
fill zero t = t
fill (suc n) t = let i = 7 - n in fill n (put (put t (full_byte 49 65 i) i) (full_byte 23 114 i) i)

-- `backBits`; -1 is `none`.
unfoldable pub back_bits : List (Option ℕ)
unfolding fill
back_bits = fill 8 (replicate 256 none)

-- The byte at a place of the table.
unfoldable pub entry : List (Option ℕ) → ℕ → Option ℕ
entry [] c = none
entry (x ∷ xs) zero = x
entry (x ∷ xs) (suc c) = entry xs c

-- The number of these bytes, the highest first.
unfoldable pub number : ℕ → Buffer → ℕ
number acc [] = acc
number acc (b ∷ bs) = number (acc * 256 + b) bs

-- The 48 bits that begin `b` bits before the eight bytes whose number is `w`, behind the byte `u`;
-- the two parts that the code joins by `|=` have no bit in common, so it is an addition here.
unfoldable pub joined : ℕ → ℕ → ℕ → ℕ
joined u w b = w / pow2 (16 + b) + u * pow2 (48 - b) % mod48

abbrev pub is_magic : ℕ → Bool
is_magic v = v == block_magic || v == eos_magic

-- The examination of a byte: the magic number found and its bits in the byte before.
unfoldable pub examine : ℕ → ℕ → ℕ → Option (ℕ × ℕ)
examine u c w = elim (entry back_bits c) [
  | none ↦ none
  | some b ↦ if is_magic (joined u w b) then some (joined u w b, b) else none
]
