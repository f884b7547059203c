-- ===== src/Index.antt =====
-- CompressedFile.cc (`IndexedCompFile`), Bzip2File.cc and GzipFile.cc: the index file beside a
-- compressed file. The subclasses add their own fields to each record; `window` is zlib's window
-- size, which `GzipFile::WindowSize` takes over.
pub mod Bytes
pub mod RoundTrip
use lzopfs.Base.{
  ℕ, zero, suc, ◌+◌, ◌*◌, ◌/◌, ◌%◌, List, [], ◌∷◌, ◌++◌, Option, none, some, Bool, true, false,
  if◌then◌else◌, ◌==◌, add64, length,
}
use lzopfs.Blocks.{
  check_sizes, Block, Buffer, Kind, plain, bzip2, gzip, pixz, Error, Result, ok, err, fault,
}
use lzopfs.Handle.{
  Posix, Handle, Io, Endian, ◌>>=◌, ◌>>◌, pure, throw, read, read_be, write, write_be,
}

-- Which class reads and writes the index.
pub data Format : Type 0 where
  lzop_format bzip2_format gzip_format : Format

-- `mBlocks.empty()` and `dict.empty()`
abbrev pub is_empty {ℓ} : {A : Type ℓ} → List A → Bool
is_empty [] = true
is_empty (x ∷ xs) = false

-- `BlockListCompFile::initialize`, on the file that was opened: the blocks, and whether `checkSizes`
-- warns.
unfoldable pub initialize :
    Io (Unit {0}) → Io (List Block) → ℕ → Handle → Result (List Block × Bool)
unfolding check_sizes
initialize check_file_type load_index max_block h = elim (check_file_type h) [
  | err x ↦ err x
  | ok (u, h₁) ↦ elim (load_index h₁) [
    | err x ↦ err x
    | ok (bs, h₂) ↦ elim (check_sizes max_block bs) [ err x ↦ err x | ok w ↦ ok (bs, w) ]
  ]
]

module _ (os : Posix) (e : Endian) (window : ℕ) where
  -- What `Bzip2File::readBlock` reads behind the fields of `Block`.
  abbrev pub read_bzip2 : Io Kind
  read_bzip2 = do
    bits ← read_be os e 1
    level ← read_be os e 1
    pure (bzip2 (bits % 16) (bits / 16) level)

  -- What `GzipFile::readBlock` reads there.
  abbrev pub read_gzip : Io Kind
  read_gzip = do
    flags ← read_be os e 1
    if flags / 128 % 2 == 0
        then pure (gzip (flags % 8) [])
        else (read os window >>= λ dict. pure (gzip (flags % 8) dict))

  unfoldable pub read_extra : Format → Io Kind
  unfolding read_be read
  read_extra lzop_format = pure plain
  read_extra bzip2_format = read_bzip2
  read_extra gzip_format = read_gzip

  -- The fields behind the size, and those of the subclass.
  unfoldable pub read_rest : Format → ℕ → Io (Option Block)
  unfolding read_extra
  read_rest f usize = do
    csize ← read_be os e 4
    coff ← read_be os e 8
    kind ← read_extra f
    pure (some (record { usize = usize; csize = csize; uoff = 0; coff = coff; kind = kind }))

  -- `readBlock`, on a fresh block; `none` at the end of the index.
  unfoldable pub read_block : Format → Io (Option Block)
  unfolding read_rest
  read_block f = do usize ← read_be os e 4; if usize == 0 then pure none else read_rest f usize

  -- The loop of `readIndex`. Each round reads at least four bytes, so the length of the file is fuel
  -- enough; without fuel it is a fault.
  unfoldable pub read_blocks : ℕ → Format → ℕ → List Block → Io (List Block)
  unfolding read_block
  read_blocks zero f uoff blocks = throw fault
  read_blocks (suc fuel) f uoff blocks = do
    r ← read_block f
    elim r [
      | none ↦ pure blocks
      | some b ↦ read_blocks fuel f (add64 uoff b.usize) (blocks ++ record b { uoff = uoff } ∷ [])
    ]

  unfoldable pub read_index : Format → Io (List Block)
  unfolding read_blocks
  read_index f h = read_blocks (suc (length h.contents)) f 0 [] h

  -- What `Bzip2File::writeBlock` writes behind the fields of `Block`.
  abbrev pub write_bzip2 : (bits endbits level : ℕ) → Io (Unit {0})
  write_bzip2 bits endbits level = do
    write_be os e 1 ((endbits * 16 + bits) % 256)
    write_be os e 1 level

  -- What `GzipFile::writeBlock` writes there.
  abbrev pub write_gzip : ℕ → Buffer → Io (Unit {0})
  write_gzip bits dict =
      if is_empty dict
      then write_be os e 1 (bits % 8)
      else (write_be os e 1 (bits % 8 + 128) >> write os dict)

  unfoldable pub write_extra : Kind → Io (Unit {0})
  unfolding write_be write
  write_extra plain = pure tt
  write_extra (bzip2 bits endbits level) = write_bzip2 bits endbits level
  write_extra (gzip bits dict) = write_gzip bits dict
  write_extra (pixz check) = pure tt

  unfoldable pub write_block : Block → Io (Unit {0})
  unfolding write_extra
  write_block b = do
    write_be os e 4 b.usize
    write_be os e 4 b.csize
    write_be os e 8 b.coff
    write_extra b.kind

  unfoldable pub write_blocks : List Block → Io (Unit {0})
  unfolding write_block
  write_blocks [] = pure tt
  write_blocks (b ∷ bs) = write_block b >> write_blocks bs

  unfoldable pub write_index : List Block → Io (Unit {0})
  unfolding write_blocks
  write_index bs = do write_blocks bs; write_be os e 4 0

  -- `IndexedCompFile::loadIndex`: the index file, if it can be opened, is read, and any error in it
  -- is an error of the whole; otherwise the index is built and written to an empty file. `build` is
  -- what `buildIndex` of the class yields, `create` whether the index file can be opened to write.
  -- The result is the list of blocks, with the index file as it is then.
  unfoldable pub load_index :
      Format → Option Buffer → Result (List Block) → Bool → Result (List Block × Option Buffer)
  unfolding read_index write_index
  load_index f (some index) build create =
      elim (read_index f (record { contents = index; position = 0 })) [
        | ok r ↦ ok (r.0, some index)
        | err x ↦ err x
      ]
  load_index f none build create = elim build [
    | err x ↦ err x
    | ok bs ↦
        if create
        then elim (write_index bs (record { contents = []; position = 0 })) [
          | ok r ↦ ok (bs, some r.1.contents)
          | err x ↦ err x
        ]
        else err Error.system
  ]
