-- ===== src/Gzip/Decode.antt =====
-- GzipReader.cc and GzipFile.cc: how one block is decoded.
use lzopfs.Base.{ℕ, zero, suc, [], ◌∷◌, if◌then◌else◌, ◌==◌, length, replicate, add64, sub64}
use lzopfs.Blocks.{Block, Buffer, Result, ok, err, fault, runtime, ◌>>=◌}
use lzopfs.Handle.{Posix, Handle, try_pread, pread}
use lzopfs.Gzip.{
  Zlib, Reader, Code, z_ok, z_stream_end, z_error, z_no_flush, raw_wrapper, fresh, feed, initialize,
  run_inflate, set_dict, prime,
}

-- `GzipBlockReader`: the place in the file from which the next chunk is read.
pub record BlockReader (S : Type 0) : Type 0 where
  pub reader : Reader S
  pub place : ℕ

-- The first byte of what was read.
abbrev byte_of : Buffer → ℕ
byte_of [] = 0
byte_of (b ∷ bs) = b

module _ (lib : Zlib) (os : Posix) where
  -- `GzipBlockReader`'s constructor, with a buffer of the size of the block.
  unfoldable pub open_block :
      (coff : ℕ) → (out dict : Buffer) → (bits : ℕ) → Handle → Result (BlockReader lib.Stream)
  unfolding set_dict prime pread
  open_block coff out dict bits h = set_dict lib dict (fresh raw_wrapper out 0) >>= λ r.
      if bits == 0
      then ok (record { reader = r; place = coff })
      else (pread os (sub64 coff 1) 1 h >>= λ got. prime lib (byte_of got.0) bits r >>= λ r'.
          ok (record { reader = r'; place = add64 (sub64 coff 1) 1 }))

  -- `step` with `moreData` of this reader; a full buffer is an error.
  unfoldable pub block_step :
      BlockReader lib.Stream → Handle → Result (Code × BlockReader lib.Stream)
  unfolding initialize try_pread
  block_step b h = initialize lib b.reader >>= λ a.
      (if a.1.avail_in == 0
        then (try_pread os b.place 4096 h >>= λ got.
            ok (record { reader = feed got.0 a.1; place = add64 b.place (length got.0) }))
        else ok (record b { reader = a.1 }))
      >>= λ b'.
          if b'.reader.avail_out == 0
          then err runtime
          else (let (code, r) = run_inflate lib z_no_flush a.0 b'.reader in
              ok (code, record b' { reader = r }))

  -- `read`: until the buffer is full. The end of the stream is not an error, and does not end the
  -- loop either. zlib decides how many rounds there are.
  unfoldable pub read_block : ℕ → BlockReader lib.Stream → Handle → Result Buffer
  unfolding block_step
  read_block zero b h = err fault
  read_block (suc fuel) b h = elim b.reader.avail_out [
    | zero ↦ ok b.reader.out
    | suc n ↦ elim (block_step b h) [
      | err x ↦ err x
      | ok (z_error, b') ↦ err runtime
      | ok (z_ok, b') ↦ read_block fuel b' h
      | ok (z_stream_end, b') ↦ read_block fuel b' h
    ]
  ]

  -- `GzipFile::decompressBlock`, on a block with its bits and dictionary.
  unfoldable pub decompress_block : ℕ → Block → ℕ → Buffer → Handle → Result Buffer
  unfolding open_block read_block
  decompress_block fuel b bits dict h =
      open_block b.coff (replicate b.usize 0) dict bits h >>= λ r. read_block fuel r h
