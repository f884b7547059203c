-- ===== src/Tests/Gzips.antt =====
-- GzipReader.cc and GzipFile.cc on a small format: a byte is a block of itself, a zero ends the
-- stream, and eight bytes follow that only a reader of the wrapper takes.
use lzopfs.Base.{ℕ, ◌≡◌, refl, List, [], ◌∷◌, some, none, false, true, if◌then◌else◌, ◌==◌}
use lzopfs.Blocks.{resize, Block, Buffer, gzip, ok}
use lzopfs.Handle.{Handle, seek, pos, seek_set}
use lzopfs.Handle.Regular.{target}
use lzopfs.Gzip.{
  Zlib, Reader, Wrapper, gzip_wrapper, raw_wrapper, Flush, Code, z_ok, z_stream_end, z_error, step,
  supply, block, reset, initialize, ipos, skip_footer, prime,
}
use lzopfs.Gzip.Saving.{window_size, save, restore, swap, set_up}
use lzopfs.Gzip.Marks.{set_last_size, add_block}
use lzopfs.Gzip.Rewound.{with_dict, round-rewinds}
use lzopfs.Gzip.Builder.{
  Search, more, started, build_index, rounds, round, decoded, failed, go_on, try_here, rewind,
  end_stream, resume,
}
use lzopfs.Gzip.Gapless.{EndsGapless, build_index-Gapless}
use lzopfs.Tests.Indexes.{system, system-IsRegular}

taken_at_end : Wrapper → ℕ
taken_at_end gzip_wrapper = 9
taken_at_end raw_wrapper = 1

small_inflate : Flush → Wrapper → Buffer → ℕ → Code × Wrapper × ℕ × Buffer
small_inflate flush w [] room = (z_error, w, 0, [])
small_inflate flush w (b ∷ bs) room =
    if b == 0 then (z_stream_end, w, taken_at_end w, []) else (z_ok, w, 1, b ∷ [])

abbrev small_zlib : Zlib
small_zlib = record {
  Stream = Wrapper;
  init = λ w. some w;
  reset = λ w s. some w;
  set_dictionary = λ d s. some s;
  prime = λ n v s. some s;
  get_header = λ s. some s;
  header_done = λ s. true;
  inflate = small_inflate;
  data_type = λ s. 128;
}

abbrev source : Handle
source = record { contents = 5 ∷ 6 ∷ 0 ∷ 1 ∷ 1 ∷ 1 ∷ 1 ∷ 1 ∷ 1 ∷ 1 ∷ 1 ∷ []; position = 0 }

abbrev blocks : List Block
blocks =
    record { usize = 1; csize = 1; uoff = 1; coff = 1; kind = gzip 0 [] }
    ∷ record { usize = 0; csize = 9; uoff = 2; coff = 2; kind = gzip 0 [] }
    ∷ []

build_index_small :
    build_index small_zlib system 0 9 source ≡ ok (blocks, record source { position = 11 })
unfolding small_inflate taken_at_end build_index rounds round decoded failed go_on try_here rewind
    end_stream resume block step supply reset initialize ipos skip_footer prime save restore swap
    set_up set_last_size add_block target
build_index_small = refl

build_index-Gapless_example :
    (p : ℕ) × (h₀ : Handle) × (seek system (pos 0) seek_set source ≡ ok (p, h₀))
    × EndsGapless small_zlib system 0 started h₀ blocks (record source { position = 11 })
build_index-Gapless_example =
    build_index-Gapless small_zlib system 0 9 blocks source (record source { position = 11 })
      build_index_small

-- The same format, where nothing is decoded without what came before.
fail_raw : Flush → Wrapper → Buffer → ℕ → Code × Wrapper × ℕ × Buffer
fail_raw flush raw_wrapper bs room = (z_error, raw_wrapper, 0, [])
fail_raw flush gzip_wrapper bs room = small_inflate flush gzip_wrapper bs room

abbrev dependent_zlib : Zlib
dependent_zlib = record small_zlib { inflate = fail_raw }

-- A reader that has read one of three bytes.
abbrev reader : Reader Wrapper
reader = record {
  stream = some gzip_wrapper;
  input = 5 ∷ 6 ∷ 7 ∷ [];
  avail_in = 2;
  out = 5 ∷ 0 ∷ [];
  avail_out = 1;
  out_bytes = 1;
  init_out_pos = 0;
  wrap = gzip_wrapper;
}

abbrev raw_reader : Reader Wrapper
raw_reader = record reader {
  stream = some raw_wrapper;
  out = resize window_size [];
  avail_out = window_size;
  out_bytes = 0;
  init_out_pos = 1;
  wrap = raw_wrapper;
}

abbrev search : Search Wrapper
search = record started { reader = record { current = reader; saved = none; save_seek = 0 } }

abbrev searched : Search Wrapper
searched = record search {
  reader = record { current = raw_reader; saved = some reader; save_seek = 3 };
  indep = true;
  uoff = 1;
  coff = 1;
}

abbrev three_read : Handle
three_read = record { contents = 5 ∷ 6 ∷ 7 ∷ []; position = 3 }

search_tried : try_here dependent_zlib system 0 search three_read ≡ ok (searched, three_read)
unfolding try_here step supply reset initialize ipos prime save swap set_up target
search_tried = refl

search_failed :
    block dependent_zlib system 1 raw_reader three_read ≡ ok ((z_error, raw_reader), three_read)
unfolding block step supply initialize fail_raw
search_failed = refl

round-rewinds_example :
    (s₂ : Search Wrapper) × (round dependent_zlib system 0 1 searched three_read
      ≡ ok (more s₂, three_read))
    × (s₂.reader.current ≡ reader)
    × (s₂.indep ≡ false)
    × (s₂.blocks ≡ (with_dict dependent_zlib system system-IsRegular 0 search three_read).blocks)
    × (s₂.last_idx
        ≡ (with_dict dependent_zlib system system-IsRegular 0 search three_read).last_idx)
round-rewinds_example =
    round-rewinds dependent_zlib system system-IsRegular 0 1 search searched raw_reader three_read
      three_read three_read (gzip_wrapper, refl) search_tried search_failed
