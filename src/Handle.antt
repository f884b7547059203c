-- ===== src/Handle.antt =====
-- FileHandle.h and FileHandle.cc: reads and writes on an open file, and numbers in the two byte
-- orders. The calls of the operating system are parameters.
pub mod Order
pub mod Object
pub mod Lifetime
pub mod Regular
use mathlib.Core.List.{reverse}
use lzopfs.Base.{
  ℕ, zero, suc, ◌+◌, ◌-◌, ◌*◌, ◌/◌, ◌%◌, List, [], ◌∷◌, ◌++◌, Option, none, some, Bool, true, false,
  if◌then◌else◌, ltb, length, take, drop, ◌==◌,
}
use lzopfs.Blocks.{Buffer, Result, ok, err, Error, eof, system, format, runtime, fault}

-- An offset of `lseek`; `negsuc n` is -(n + 1).
pub data ℤ : Type 0 where
  pos : ℕ → ℤ
  negsuc : ℕ → ℤ

pub data Whence : Type 0 where
  seek_set seek_cur seek_end : Whence

-- `read`, `pread`, `write` and `lseek` on a file with the given contents and position; `none` is the
-- result -1. A write yields the count of bytes written and the new contents.
pub record Posix : Type 0 where
  pub sys_read : Buffer → ℕ → ℕ → Option Buffer
  pub sys_pread : Buffer → ℕ → ℕ → Option Buffer
  pub sys_write : Buffer → ℕ → Buffer → Option (ℕ × Buffer)
  pub sys_lseek : Buffer → ℕ → ℤ → Whence → Option ℕ

-- An open file.
pub record Handle : Type 0 where
  pub contents : Buffer
  pub position : ℕ

abbrev pub Io {ℓ} : Type ℓ → Type ℓ
Io A = Handle → Result (A × Handle)

infixl 5 ◌>>=◌
abbrev pub ◌>>=◌ {ℓ κ} : {A : Type ℓ} {B : Type κ} → Io A → (A → Io B) → Io B
◌>>=◌ m f h = elim (m h) [ ok r ↦ f r.0 r.1 | err e ↦ err e ]

infixl 5 ◌>>◌
abbrev pub ◌>>◌ {ℓ κ} : {A : Type ℓ} {B : Type κ} → Io A → Io B → Io B
m >> k = m >>= λ _. k

abbrev pub pure {ℓ} : {A : Type ℓ} → A → Io A
pure a h = ok (a, h)

abbrev pub throw {ℓ} : {A : Type ℓ} → Error → Io A
throw e h = err e

abbrev pub throw_if : Bool → Error → Io (Unit {0})
throw_if true e = throw e
throw_if false e = pure tt

-- `catch (FileHandle::EOFException& e) { throwFormat("EOF"); }`
abbrev pub eof_to_format {ℓ} : {A : Type ℓ} → Io A → Io A
eof_to_format m h = elim (m h) [
  | ok r ↦ ok r
  | err e ↦ elim e [
    | eof ↦ err format
    | Error.system ↦ err Error.system
    | format ↦ err format
    | runtime ↦ err runtime
    | fault ↦ err fault
  ]
]

-- The byte order of the machine.
pub data Endian : Type 0 where
  little big : Endian

-- The number that a variable with these bytes in memory has, lowest byte first.
unfoldable pub from_le : Buffer → ℕ
from_le [] = 0
from_le (b ∷ bs) = b + 256 * from_le bs

unfoldable pub to_le : ℕ → ℕ → Buffer
to_le zero v = []
to_le (suc n) v = v % 256 ∷ to_le n (v / 256)

-- The number in memory, and the memory of a number.
unfoldable pub load : Endian → Buffer → ℕ
load little bs = from_le bs
load big bs = from_le (reverse bs)

unfoldable pub store : Endian → ℕ → ℕ → Buffer
store little n v = to_le n v
store big n v = reverse (to_le n v)

-- `convertBEBuf` and `convertLEBuf`
unfoldable pub convert_be : Endian → Buffer → Buffer
convert_be little bs = reverse bs
convert_be big bs = bs

unfoldable pub convert_le : Endian → Buffer → Buffer
convert_le little bs = bs
convert_le big bs = reverse bs

module _ (os : Posix) where
  -- `tryRead`
  unfoldable pub try_read : ℕ → Io Buffer
  try_read size h = elim (os.sys_read h.contents h.position size) [
    | none ↦ err system
    | some bytes ↦
        if length bytes == 0
        then err eof
        else ok (bytes, record h { position = h.position + length bytes })
  ]

  -- `read`: fewer bytes than asked for count as the end of the file.
  unfoldable pub read : ℕ → Io Buffer
  unfolding try_read
  read size = try_read size >>= λ bytes. if ltb (length bytes) size then throw eof else pure bytes

  -- `tryPRead` and `pread`
  unfoldable pub try_pread : ℕ → ℕ → Io Buffer
  try_pread off size h = elim (os.sys_pread h.contents off size) [
    | none ↦ err system
    | some bytes ↦ if length bytes == 0 then err eof else ok (bytes, h)
  ]

  unfoldable pub pread : ℕ → ℕ → Io Buffer
  unfolding try_pread
  pread off size =
      try_pread off size >>= λ bytes. if ltb (length bytes) size then throw eof else pure bytes

  -- `write`
  unfoldable pub write : Buffer → Io (Unit {0})
  write bytes h = elim (os.sys_write h.contents h.position bytes) [
    | none ↦ err system
    | some r ↦
        if ltb r.0 (length bytes)
        then err system
        else ok (tt, record { contents = r.1; position = h.position + r.0 })
  ]

  -- `seek`
  unfoldable pub seek : ℤ → Whence → Io ℕ
  seek offset whence h = elim (os.sys_lseek h.contents h.position offset whence) [
    | none ↦ err system
    | some p ↦ ok (p, record h { position = p })
  ]

  -- `tell`
  unfoldable pub tell : Io ℕ
  unfolding seek
  tell = seek (pos 0) seek_cur

  -- `size`
  unfoldable pub size : Io ℕ
  unfolding tell
  size = do cur ← tell; seek (pos 0) seek_end; s ← tell; seek (pos cur) seek_set; pure s

  module _ (e : Endian) where
    -- `readBE`, `readLE` and `writeBE` at a type of `n` bytes.
    unfoldable pub read_be : ℕ → Io ℕ
    unfolding read load convert_be
    read_be n = read n >>= λ bytes. pure (load e (convert_be e bytes))

    unfoldable pub read_le : ℕ → Io ℕ
    unfolding read load convert_le
    read_le n = read n >>= λ bytes. pure (load e (convert_le e bytes))

    unfoldable pub write_be : ℕ → ℕ → Io (Unit {0})
    unfolding write store convert_be
    write_be n v = write (convert_be e (store e n v))
