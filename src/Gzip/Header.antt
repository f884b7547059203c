-- ===== src/Gzip/Header.antt =====
-- GzipReader.h and GzipFile.cc: `GzipHeaderReader`, and the test of the file type.
use lzopfs.Base.{ℕ, zero, suc, [], ◌∷◌, none, some, true, false}
use lzopfs.Blocks.{Error, ok, err, format, runtime, eof, fault}
use lzopfs.Handle.{Posix, Io}
use lzopfs.Gzip.{
  Zlib, Reader, z_ok, z_stream_end, z_error, z_block, gzip_wrapper, fresh, initialize, step,
}

module _ (lib : Zlib) (os : Posix) where
  -- The loop of `GzipHeaderReader::header`.
  unfoldable pub header_loop : ℕ → Reader lib.Stream → Io (Unit {0})
  unfolding step
  header_loop zero r h = err fault
  header_loop (suc fuel) r h = elim r.stream [
    | none ↦ err fault
    | some s ↦ elim (lib.header_done s) [
      | true ↦ ok (tt, h)
      | false ↦ elim (step lib os 512 z_block r h) [
        | err x ↦ err x
        | ok ((z_error, r'), h') ↦ err runtime
        | ok ((z_ok, r'), h') ↦ header_loop fuel r' h'
        | ok ((z_stream_end, r'), h') ↦ header_loop fuel r' h'
      ]
    ]
  ]

  -- `GzipHeaderReader::header`
  unfoldable pub header : ℕ → Io (Unit {0})
  unfolding initialize header_loop
  header fuel h = elim (initialize lib (fresh gzip_wrapper (0 ∷ []) 0)) [
    | err x ↦ err x
    | ok (s, r) ↦ elim (lib.get_header s) [
      | none ↦ err runtime
      | some s' ↦ header_loop fuel (record r { stream = some s' }) h
    ]
  ]

  -- `GzipFile::checkFileType`: the errors of the reader and the end of the file are errors of the
  -- format.
  unfoldable pub check_file_type : ℕ → Io (Unit {0})
  unfolding header
  check_file_type fuel h = elim (header fuel h) [
    | ok r ↦ ok r
    | err eof ↦ err format
    | err runtime ↦ err format
    | err format ↦ err format
    | err Error.system ↦ err Error.system
    | err fault ↦ err fault
  ]
