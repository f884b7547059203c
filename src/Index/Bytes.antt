-- ===== src/Index/Bytes.antt =====
-- CompressedFile.cc, Bzip2File.cc, GzipFile.cc: the bytes that an index consists of.
use mathlib.Core.List.{reverse, append_assoc, append-nil}
use lzopfs.Base.{
  ℕ, suc, ◌+◌, ◌*◌, ◌%◌, ◌<◌, ◌≡◌, ◌∙◌, List, [], ◌∷◌, ◌++◌, if◌then◌else◌, length, arith, mod32,
  mod64,
}
use lzopfs.Blocks.{Block, Buffer, Kind, plain, bzip2, gzip, pixz, ok}
use lzopfs.Handle.{Posix, Endian, to_le}
use lzopfs.Handle.Regular.{length-reverse, IsRegular, at, write_lem, write_be_lem}
use lzopfs.Handle.Order.{length-to_le}
use lzopfs.Index.{
  Format, lzop_format, bzip2_format, gzip_format, write_extra, write_block, is_empty,
}

-- A number of `n` bytes, its highest byte first.
abbrev pub be : ℕ → ℕ → Buffer
be n v = reverse (to_le n v)

pub length-be : (n v : ℕ) → length (be n v) ≡ n
length-be n v = length-reverse (to_le n v) ∙ length-to_le n v

unfoldable pub extra_bytes : Kind → Buffer
extra_bytes plain = []
extra_bytes (bzip2 bits endbits level) = be 1 ((endbits * 16 + bits) % 256) ++ be 1 level
extra_bytes (gzip bits dict) =
    if is_empty dict then be 1 (bits % 8) else be 1 (bits % 8 + 128) ++ dict
extra_bytes (pixz check) = []

unfoldable pub block_bytes : Block → Buffer
block_bytes b = be 4 b.usize ++ (be 4 b.csize ++ (be 8 b.coff ++ extra_bytes b.kind))

unfoldable pub index_bytes : List Block → Buffer
index_bytes [] = be 4 0
index_bytes (b ∷ bs) = block_bytes b ++ index_bytes bs

-- A block that the class can have made, with fields that fit into their types.
abbrev pub KindFits : ℕ → Format → Kind → Type 0
KindFits window lzop_format plain = Unit
KindFits window bzip2_format (bzip2 bits endbits level) =
    (bits < 16) × (endbits < 16) × (level < 256)
KindFits window gzip_format (gzip bits []) = bits < 8
KindFits window gzip_format (gzip bits (x ∷ dict)) = (bits < 8) × (suc (length dict) ≡ window)
KindFits window f k = ⊥

pub record Fits (window : ℕ) (f : Format) (b : Block) : Type 0 where
  pub usize : b.usize < mod32
  pub csize : b.csize < mod32
  pub coff : b.coff < mod64
  pub kind : KindFits window f b.kind

module _ (os : Posix) (regular : IsRegular os) (e : Endian) (window : ℕ) where
  write_extra_lem :
      (done : Buffer) (k : Kind)
      → write_extra os e window k (at done []) ≡ ok (tt, at (done ++ extra_bytes k) [])
  unfolding write_extra extra_bytes
  write_extra_lem done plain = ground (arith, append-nil done)
  write_extra_lem done (bzip2 bits endbits level) =
      let first = be 1 ((endbits * 16 + bits) % 256) in
      ground (
        arith,
        write_be_lem os regular e done 1 ((endbits * 16 + bits) % 256),
        write_be_lem os regular e (done ++ first) 1 level,
        append_assoc done first (be 1 level),
      )
  write_extra_lem done (gzip bits []) = write_be_lem os regular e done 1 (bits % 8)
  write_extra_lem done (gzip bits (x ∷ dict)) =
      let first = be 1 (bits % 8 + 128) in
      ground (
        arith,
        write_be_lem os regular e done 1 (bits % 8 + 128),
        write_lem os regular (done ++ first) (x ∷ dict),
        append_assoc done first (x ∷ dict),
      )
  write_extra_lem done (pixz check) = ground (arith, append-nil done)

  pub write_block_lem :
      (done : Buffer) (b : Block)
      → write_block os e window b (at done []) ≡ ok (tt, at (done ++ block_bytes b) [])
  unfolding write_block block_bytes
  write_block_lem done b =
      let us = be 4 b.usize in
      let cs = be 4 b.csize in
      let co = be 8 b.coff in
      ground (
        arith,
        write_be_lem os regular e done 4 b.usize,
        write_be_lem os regular e (done ++ us) 4 b.csize,
        write_be_lem os regular e ((done ++ us) ++ cs) 8 b.coff,
        write_extra_lem (((done ++ us) ++ cs) ++ co) b.kind,
        append_assoc ((done ++ us) ++ cs) co (extra_bytes b.kind),
        append_assoc (done ++ us) cs (co ++ extra_bytes b.kind),
        append_assoc done us (cs ++ (co ++ extra_bytes b.kind)),
      )
