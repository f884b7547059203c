-- ===== src/Pixz/Blocks.antt =====
-- PixzFile.h and PixzFile.cc: the blocks of a file, and how one is decoded.
use lzopfs.Base.{
  ℕ, ◌-◌, ◌%◌, [], ◌∷◌, ◌++◌, Option, none, some, Bool, true, false, add64, length, drop, mod32,
  if◌then◌else◌,
}
use lzopfs.Blocks.{Block, Buffer, pixz, plain, resize, Result, ok, err, format, runtime, ◌>>=◌}
use lzopfs.Handle.{Posix, Handle, pread}
use lzopfs.Pixz.{
  Shown, header_ok, header_bad, header_error, Lzma, lzma_ok, lzma_stream_end, lzma_error, code_loop,
}

-- `PixzFile::Iterator`; the block of an iterator at its end is not looked at.
pub record Iterator (I : Type 0) : Type 0 where
  pub iter : Option I
  pub block : Block
  pub at_end : Bool

-- `makeBlock`
abbrev pub make_block : Shown → Block
make_block s = record {
  usize = s.uncompressed_size % mod32;
  csize = s.total_size % mod32;
  uoff = s.uncompressed_file_offset;
  coff = s.compressed_file_offset;
  kind = pixz s.check;
}

-- `Iterator()`
abbrev pub end_iterator : {I : Type 0} → Iterator I
end_iterator = record {
  iter = none;
  block = record { usize = 0; csize = 0; uoff = 0; coff = 0; kind = plain };
  at_end = true;
}

-- The first byte of what was read.
abbrev byte_of : Buffer → ℕ
byte_of [] = 0
byte_of (b ∷ bs) = b

module _ (lib : Lzma) where
  -- `findBlock`
  unfoldable pub find_block : lib.Index → ℕ → Result (Iterator lib.Iter)
  find_block index off =
      let (missing, i) = lib.iter_locate off (lib.iter_init index) in
      if missing
      then err runtime
      else ok (record { iter = some i; block = make_block (lib.iter_block i); at_end = false })

  -- `incr`
  unfoldable pub incr : Iterator lib.Iter → Iterator lib.Iter
  incr it = elim it.at_end [
    | true ↦ it
    | false ↦ elim it.iter [
      | none ↦ record it { at_end = true }
      | some i ↦ elim (lib.iter_next i) [
        | none ↦ record it { at_end = true }
        | some i' ↦ record it { iter = some i'; block = make_block (lib.iter_block i') }
      ]
    ]
  ]

  -- `dup`
  unfoldable pub dup : Iterator lib.Iter → Iterator lib.Iter
  dup it = elim it.at_end [
    | true ↦ end_iterator
    | false ↦ elim it.iter [
      | none ↦ end_iterator
      | some i ↦ record { iter = some i; block = make_block (lib.iter_block i); at_end = false }
    ]
  ]

  -- `uncompressedSize`
  abbrev pub uncompressed_size : lib.Index → ℕ
  uncompressed_size index = lib.index_uncompressed_size index

  module _ (os : Posix) where
    -- The header of a block, whose first byte tells its size.
    unfoldable pub read_header : ℕ → ℕ → Handle → Result (lib.Header × ℕ)
    unfolding pread
    read_header coff check h = pread os coff 1 h >>= λ first.
        let size = lib.block_header_size (byte_of first.0) in
        pread os (add64 coff 1) (size - 1) h >>= λ rest.
        elim (lib.block_header_decode check (first.0 ++ rest.0)) [
          | header_bad ↦ err format
          | header_error ↦ err runtime
          | header_ok header ↦ ok (header, size)
        ]

    -- `decompressBlock`, on a block with its kind of checksum; what liblzma does not write stays as
    -- it was in the buffer.
    unfoldable pub decompress_block : ℕ → Block → ℕ → Buffer → Handle → Result Buffer
    unfolding read_header code_loop
    decompress_block fuel b check ubuf h = read_header b.coff check h >>= λ header.
        elim (lib.block_decoder header.0) [
          | none ↦ err runtime
          | some s ↦ code_loop lib os fuel (add64 b.coff header.1) s [] b.usize [] h >>= λ r.
              elim r.0 [
                | lzma_ok ↦ ok (r.2 ++ drop (length r.2) (resize b.usize ubuf))
                | lzma_stream_end ↦ err runtime
                | lzma_error ↦ err runtime
              ]
        ]
