-- ===== src/Zstd.antt =====
-- ZstdFile.h and ZstdFile.cc: the seek table at the end of a zstd file. `zstd_magic` is the library's
-- `ZSTD_MAGICNUMBER`.
pub mod Frames
pub mod Table
pub mod Opening
pub mod Decode
pub mod Decoded
use lzopfs.Base.{
  ℕ, zero, suc, ◌+◌, ◌-◌, ◌*◌, ◌/◌, ◌%◌, List, [], ◌∷◌, ◌++◌, Bool, true, false, if◌then◌else◌, ltb,
  ◌==◌, add64, sub64, mod64, not,
}
use lzopfs.Blocks.{Block, plain, format, runtime}
use lzopfs.Handle.{
  Posix, Io, Endian, ◌>>=◌, ◌>>◌, pure, throw_if, ℤ, pos, negsuc, seek_set, seek_end, read_le, seek,
}

abbrev pub magic_skippable : ℕ
magic_skippable = 407710302

abbrev pub magic_seek_table : ℕ
magic_seek_table = 2408770225

-- `FooterSize`
abbrev pub footer_size : ℕ
footer_size = 9

-- `SeekTableInfo`
pub record SeekTable : Type 0 where
  pub start : ℕ
  pub has_checksums : Bool
  pub count : ℕ

abbrev pub entry_size : Bool → ℕ
entry_size has_checksums = 8 + (if has_checksums then 4 else 0)

abbrev pub total_size : Bool → ℕ → ℕ
total_size has_checksums count = entry_size has_checksums * count

-- A `uint64_t` as an `off_t`.
abbrev pub to_off : ℕ → ℤ
to_off n = if ltb n 9223372036854775808 then pos n else negsuc (mod64 - 1 - n)

module _ (os : Posix) (e : Endian) where
  -- The footer of `findSeekTable`.
  unfoldable pub read_footer : Io SeekTable
  unfolding read_le seek
  read_footer = do
    footer ← seek os (negsuc 8) seek_end
    count ← read_le os e 4
    flags ← read_le os e 1
    magic ← read_le os e 4
    throw_if (not (magic == magic_seek_table)) runtime
    pure (record {
      start = sub64 footer (total_size (flags / 128 % 2 == 1) count);
      has_checksums = flags / 128 % 2 == 1;
      count = count;
    })

  -- Its check of what stands before the table.
  unfoldable pub check_frame : SeekTable → Io (Unit {0})
  unfolding read_le seek
  check_frame t = do
    seek os (to_off (sub64 t.start 8)) seek_set
    magic ← read_le os e 4
    frame_size ← read_le os e 4
    throw_if (not (magic == magic_skippable)) runtime
    throw_if (not (frame_size == total_size t.has_checksums t.count + footer_size)) runtime

  -- `ZstdFile::findSeekTable`
  unfoldable pub find_seek_table : Io SeekTable
  unfolding read_footer check_frame
  find_seek_table = read_footer >>= λ t. check_frame t >> pure t

  -- `ZstdFile::checkFileType`
  unfoldable pub check_file_type : ℕ → Io (Unit {0})
  unfolding read_le find_seek_table
  check_file_type zstd_magic = do
    magic ← read_le os e 4
    throw_if (not (magic == zstd_magic)) format
    find_seek_table
    pure tt

  -- The loop of `buildIndex`, with the count of the entries to come.
  unfoldable pub read_entries : ℕ → Bool → ℕ → ℕ → List Block → Io (List Block)
  unfolding read_le
  read_entries zero sums uoff coff blocks = pure blocks
  read_entries (suc n) sums uoff coff blocks = do
    csize ← read_le os e 4
    usize ← read_le os e 4
    (if sums then read_le os e 4 else pure 0)
    read_entries n sums (add64 uoff usize) (add64 coff csize) (
        blocks
        ++ record { usize = usize; csize = csize; uoff = uoff; coff = coff; kind = plain } ∷ [])

  -- `ZstdFile::buildIndex`
  unfoldable pub build_index : Io (List Block)
  unfolding find_seek_table read_entries seek
  build_index = do
    t ← find_seek_table
    seek os (to_off t.start) seek_set
    read_entries t.count t.has_checksums 0 0 []
