-- ===== src/Tests/Tables.antt =====
-- The builders of the block lists at concrete inputs.
use lzopfs.Base.{Bool, ◌↔◌, ◌<◌, ◌≡◌, refl, List, [], ◌∷◌, ◌++◌, true, arith, length}
use lzopfs.Blocks.{Block, Buffer, ok}
use lzopfs.Blocks.Tiles.{Tiles, end_from}
use lzopfs.Handle.{Handle, little, to_le}
use lzopfs.Handle.Regular.{at}
use lzopfs.Lzop.{find_blocks}
use lzopfs.Lzop.Stream.{
  Chunk, ChunksFit, stream_bytes, placed, end_of, total_usize, find_blocks_lem, find_blocks-Tiles,
}
use lzopfs.Index.{initialize}
use lzopfs.Zstd.{build_index, check_file_type}
use lzopfs.Zstd.Opening.{SomeLarger, initialize_lem}
use lzopfs.Zstd.Frames.{
  Frame, FramesFit, file_bytes, entries_bytes, entry_bytes, listed, total_frames,
}
use lzopfs.Tests.Indexes.{system, system-IsRegular}

-- One compressed block of two bytes for five, with two checksums.
abbrev chunks : List Chunk
chunks =
    record {
      usize = 5;
      csize = 2;
      adler = 1;
      crc = 3;
      packed_adler = 2;
      packed_crc = 4;
      packed = 77 ∷ 78 ∷ [];
    }
    ∷ []

chunks-ChunksFit : ChunksFit chunks
chunks-ChunksFit = (
  record { some_bytes = omega arith; usize = omega arith; csize = omega arith; packed = refl },
  tt,
)

find_blocks_lem_example :
    find_blocks system little 3 0 [] (at (9 ∷ []) (stream_bytes 3 chunks ++ 8 ∷ []))
    ≡ ok (
      (end_of 0 chunks, [] ++ placed 3 1 0 chunks),
      at (9 ∷ [] ++ stream_bytes 3 chunks) (8 ∷ []),
    )
find_blocks_lem_example =
    find_blocks_lem system system-IsRegular little 3 chunks 0 [] (9 ∷ []) (8 ∷ []) chunks-ChunksFit

find_blocks-Tiles_example :
    (bs : List Block) × (find_blocks system little 3 0 []
        (at (9 ∷ []) (stream_bytes 3 chunks ++ 8 ∷ []))
      ≡ ok ((total_usize chunks, bs), at (9 ∷ [] ++ stream_bytes 3 chunks) (8 ∷ [])))
    × Tiles 0 bs
    × (end_from 0 bs ≡ total_usize chunks)
find_blocks-Tiles_example =
    find_blocks-Tiles system system-IsRegular little 3 chunks (9 ∷ []) (8 ∷ []) chunks-ChunksFit
      (omega arith)

abbrev frames : List Frame
frames =
    record { csize = 2; usize = 5; checksum = 1 }
    ∷ record { csize = 1; usize = 4; checksum = 2 }
    ∷ []

frames-FramesFit : FramesFit frames
frames-FramesFit = (
  record { csize = omega arith; usize = omega arith; checksum = omega arith },
  (record { csize = omega arith; usize = omega arith; checksum = omega arith }, tt),
)

abbrev data_bytes : Buffer
data_bytes = 11 ∷ 12 ∷ 13 ∷ []

abbrev file : Handle
file = record { contents = file_bytes data_bytes true frames; position = 0 }

file_short : length (file_bytes data_bytes true frames) < 9223372036854775808
unfolding entries_bytes entry_bytes to_le
file_short = omega arith

-- The same, with the magic number of zstd in front.
file_with_magic_short :
    length (file_bytes (to_le 4 4247762216 ++ data_bytes) true frames) < 9223372036854775808
unfolding entries_bytes entry_bytes to_le
file_with_magic_short = omega arith

initialize_lem_example :
    (warned : Bool) × (initialize
        (check_file_type system little 4247762216)
        (build_index system little)
        1000
        (at [] (file_bytes (to_le 4 4247762216 ++ data_bytes) true frames))
      ≡ ok (listed 0 0 frames, warned))
    × ((warned ≡ true) ↔ SomeLarger 1000 frames)
    × Tiles 0 (listed 0 0 frames)
    × (end_from 0 (listed 0 0 frames) ≡ total_frames frames)
initialize_lem_example =
    initialize_lem system system-IsRegular little 4247762216 data_bytes true
      (record { csize = 2; usize = 5; checksum = 1 })
      (record { csize = 1; usize = 4; checksum = 2 } ∷ []) frames-FramesFit (omega arith)
      file_with_magic_short 1000 (omega arith) (omega arith, (omega arith, tt)) (omega arith)
