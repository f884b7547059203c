-- ===== src/Handle/Order.antt =====
-- FileHandle.h: the numbers that are read and written do not depend on the machine's byte order.
use mathlib.Core.List.{reverse, reverse-reverse}
use lzopfs.Base.{ℕ, zero, suc, ◌*◌, ◌/◌, ◌<◌, ◌≡◌, refl, ap, length, arith}
use lzopfs.Blocks.{Buffer}
use lzopfs.Handle.{Endian, little, big, from_le, to_le, load, store, convert_be, convert_le}

-- The number of values of `n` bytes.
abbrev pub values : ℕ → ℕ
values zero = 1
values (suc n) = 256 * values n

pub length-to_le : (n v : ℕ) → length (to_le n v) ≡ n
unfolding to_le
length-to_le zero v = refl
length-to_le (suc n) v = ap suc (length-to_le n (v / 256))

pub from_le-to_le : (n v : ℕ) → v < values n → from_le (to_le n v) ≡ v
unfolding from_le to_le
from_le-to_le zero v h = omega arith
from_le-to_le (suc n) v h = omega (arith, from_le-to_le n (v / 256) (omega arith))

-- What `readBE` makes of the bytes, on every machine: the number with its highest byte first.
pub load-convert_be : (e : Endian) (bs : Buffer) → load e (convert_be e bs) ≡ from_le (reverse bs)
unfolding load convert_be
load-convert_be little bs = refl
load-convert_be big bs = refl

pub load-convert_le : (e : Endian) (bs : Buffer) → load e (convert_le e bs) ≡ from_le bs
unfolding load convert_le
load-convert_le little bs = refl
load-convert_le big bs = ap from_le (reverse-reverse bs)

-- What `writeBE` writes.
pub convert_be-store : (e : Endian) (n v : ℕ) → convert_be e (store e n v) ≡ reverse (to_le n v)
unfolding store convert_be
convert_be-store little n v = refl
convert_be-store big n v = refl
