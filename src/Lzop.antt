-- ===== src/Lzop.antt =====
-- LzopFile.h and LzopFile.cc: files of lzop. The checksums and the decompressor of the LZO library
-- are parameters: `crc32` and `adler32` as `lzo_crc32` and `lzo_adler32`, and `decompress` for
-- `lzo1x_decompress_safe`, which is given the compressed data and the size of the output buffer and
-- yields that buffer, or nothing when it reports an error.
pub mod Stream
use lzopfs.Base.{
  ℕ, zero, suc, ◌+◌, ◌-◌, ◌*◌, ◌/◌, ◌%◌, List, [], ◌∷◌, ◌++◌, Option, none, some, Bool, true, false,
  if◌then◌else◌, ltb, leb, ◌==◌, add64, sub64, length, not, equal,
}
use lzopfs.Blocks.{Block, Buffer, plain, Error, ok, err, eof, format, runtime, fault}
use lzopfs.Handle.{
  Posix, Handle, Io, Endian, ◌>>=◌, ◌>>◌, pure, throw, throw_if, eof_to_format, pos, seek_cur,
  seek_set, read, read_be, pread, seek, tell, size,
}

-- `LzopFile::Magic`
abbrev pub lzop_magic : Buffer
lzop_magic = 137 ∷ 76 ∷ 90 ∷ 79 ∷ 0 ∷ 13 ∷ 10 ∷ 26 ∷ 10 ∷ []

-- `LzopFile::LzopDecodeVersion`
abbrev pub decode_version : ℕ
decode_version = 4112

pub data Flag : Type 0 where
  adler_dec adler_comp extra_field crc_dec crc_comp filter header_crc : Flag

-- `Flags`
abbrev pub flag_value : Flag → ℕ
flag_value adler_dec = 1
flag_value adler_comp = 2
flag_value extra_field = 64
flag_value crc_dec = 256
flag_value crc_comp = 512
flag_value filter = 2048
flag_value header_crc = 4096

-- `flags & f`
abbrev pub has : ℕ → Flag → Bool
has flags f = flags / flag_value f % 2 == 1

-- The room that the checksums of the uncompressed and of the compressed data take.
abbrev pub usums_of : ℕ → ℕ
usums_of flags = 4 * ((if has flags crc_dec then 1 else 0) + (if has flags adler_dec then 1 else 0))

abbrev pub csums_of : ℕ → ℕ
csums_of flags =
    4 * ((if has flags crc_comp then 1 else 0) + (if has flags adler_comp then 1 else 0))

-- The checksums of one block: those of the compressed data only if it is compressed.
unfoldable pub sums_of : ℕ → ℕ → ℕ → ℕ
sums_of flags usize csize =
    if usize == csize then usums_of flags else usums_of flags + csums_of flags

module _ (os : Posix) (e : Endian) where
  -- `LzopFile::findBlocks`: its loop, with what it has found; at the end, the position reached in the
  -- uncompressed data and all blocks. Each round reads at least eight bytes, so the length of the
  -- file is fuel enough; without fuel it is a fault.
  unfoldable pub find_blocks_loop : ℕ → ℕ → ℕ → ℕ → List Block → Io (ℕ × List Block)
  unfolding read_be seek
  find_blocks_loop zero flags coff uoff blocks = throw fault
  find_blocks_loop (suc fuel) flags coff uoff blocks = do
    usize ← read_be os e 4
    elim (usize == 0) [
      | true ↦ pure (uoff, blocks)
      | false ↦ read_be os e 4 >>= λ csize.
          seek os (pos (sums_of flags usize csize + csize)) seek_cur
          >> find_blocks_loop fuel flags (add64 coff (sums_of flags usize csize + csize + 8))
              (add64 uoff usize)
              (blocks
                ++ record {
                  usize = usize;
                  csize = csize;
                  uoff = uoff;
                  coff = add64 coff (8 + sums_of flags usize csize);
                  kind = plain;
                }
                  ∷ [])
    ]

  unfoldable pub find_blocks : ℕ → ℕ → List Block → Io (ℕ × List Block)
  unfolding find_blocks_loop tell
  find_blocks flags uoff blocks h =
      (tell os >>= λ coff. find_blocks_loop (suc (length h.contents)) flags coff uoff blocks) h

  module _ (crc32 adler32 : ℕ → Buffer → ℕ) where
    -- `LzopFile::checksum`, of the type that the flags name
    unfoldable pub checksum : Bool → Buffer → ℕ
    checksum crc buf = if crc then crc32 0 buf else adler32 1 buf

    -- The part of `readHeaders` up to the checksum: the flags, and where the header began.
    unfoldable pub read_fields : Io (ℕ × ℕ)
    unfolding read read_be seek tell
    read_fields = do
      magic ← read os 9
      throw_if (not (equal magic lzop_magic)) format
      start ← tell os
      encoder ← read_be os e 2
      lzo ← read_be os e 2
      decoder ← read_be os e 2
      throw_if (ltb decode_version decoder) format
      method ← read_be os e 1
      level ← read_be os e 1
      flags ← read_be os e 4
      throw_if (has flags filter) format
      seek os (pos 12) seek_cur
      name_size ← read_be os e 1
      (if ltb 0 name_size then seek os (pos name_size) seek_cur else pure 0)
      pure (flags, start)

    -- The check of the checksum over the header.
    unfoldable pub check_header : ℕ → ℕ → Io (Unit {0})
    unfolding read read_be seek tell checksum
    check_header flags start = do
      stop ← tell os
      seek os (pos start) seek_set
      header ← read os (sub64 stop start)
      cksum ← read_be os e 4
      throw_if (not (cksum == checksum (has flags header_crc) header)) format

    unfoldable pub skip_extra : ℕ → Io (Unit {0})
    unfolding read_be seek
    skip_extra flags =
        if has flags extra_field
        then (read_be os e 4 >>= λ extra. seek os (pos (add64 extra 4)) seek_cur >> pure tt)
        else pure tt

    -- `LzopFile::readHeaders`: yields the flags.
    unfoldable pub read_headers : Io ℕ
    unfolding read_fields check_header skip_extra
    read_headers =
        eof_to_format (read_fields >>= λ r. check_header r.0 r.1 >> (skip_extra r.0 >> pure r.0))

    -- The loop of `LzopFile::buildIndex` over the parts of the file; each part has a header, so the
    -- length of the file is fuel enough.
    unfoldable pub build_parts : ℕ → ℕ → ℕ → ℕ → List Block → Io (List Block)
    unfolding find_blocks read_headers tell
    build_parts zero file_size flags uoff blocks = throw fault
    build_parts (suc fuel) file_size flags uoff blocks = do
      r ← find_blocks flags uoff blocks
      p ← tell os
      elim (leb file_size p) [
        | true ↦ pure r.1
        | false ↦ read_headers >>= λ next. build_parts fuel file_size next r.0 r.1
      ]

    -- `LzopFile::buildIndex`, with the flags of the first header.
    unfoldable pub build_index : ℕ → Io (List Block)
    unfolding build_parts size
    build_index flags h =
        (size os >>= λ file_size. build_parts (suc (length h.contents)) file_size flags 0 []) h

  -- `LzopFile::decompressBlock`
  unfoldable pub decompress_block : (Buffer → ℕ → Option Buffer) → Block → Io Buffer
  unfolding pread
  decompress_block decompress b =
      if b.csize == b.usize
      then pread os b.coff b.usize
      else (pread os b.coff b.csize >>= λ cbuf. elim (decompress cbuf b.usize) [
        | some ubuf ↦ pure ubuf
        | none ↦ throw runtime
      ])
