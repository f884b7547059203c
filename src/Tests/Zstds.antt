-- ===== src/Tests/Zstds.antt =====
-- ZstdFile.cc and lzopfs.cc: a block that is stored as it is, and the arguments of the program.
use lzopfs.Base.{
  ℕ, ◌+◌, ◌≡◌, ltb, ◌⊎◌, List, [], ◌∷◌, Option, some, none, arith, length, min, take, length-take,
  if◌then◌else◌, ◌==◌,
}
use lzopfs.Blocks.{Block, Buffer, plain, ok, err, runtime}
use lzopfs.Handle.{Handle}
use lzopfs.Zstd.Decode.{Zstd, decompress_block}
use lzopfs.Zstd.Decoded.{IsZstd, decompress_block_lem}
use lzopfs.Tests.Indexes.{system, system-IsRegular}

-- A library that copies, three bytes at a time. Where there is no room it lets three calls pass, and
-- fails at the next; the stream counts them.
unfoldable copy : ℕ → Buffer → ℕ → Option (ℕ × ℕ × Buffer)
copy s input room =
    if min room (length input) == 0
    then (if ltb s 3 then some (s + 1, 0, []) else none)
    else some (0, min room (length input), take (min room (length input)) input)

abbrev copy_zstd : Zstd
copy_zstd = record { Stream = ℕ; create = 0; in_size = 3; patience = 3; decompress = copy }

copy_zstd-IsZstd : IsZstd copy_zstd
unfolding copy
copy_zstd-IsZstd = record {
  some_room = omega arith;
  taken = λ s s' input bytes room n e. ground (arith, e);
  written =
      λ s s' input bytes room n e. ground (arith, e, length-take (min room (length input)) input);
  idle = λ s. min s 3;
  idle_most = λ s. omega arith;
  idle_counts = λ s s' input bytes room n e h.
      ground (arith, e, h, length-take (min room (length input)) input);
}

abbrev stored : Block
stored = record { usize = 5; csize = 5; uoff = 0; coff = 1; kind = plain }

abbrev source : Handle
source = record { contents = 9 ∷ 1 ∷ 2 ∷ 3 ∷ 4 ∷ 5 ∷ 9 ∷ []; position = 0 }

decompress_block_lem_example :
    ((out : Buffer) × (decompress_block copy_zstd system stored [] source ≡ ok out)
      × (length out ≡ 5))
    ⊎ (decompress_block copy_zstd system stored [] source ≡ err runtime)
decompress_block_lem_example =
    decompress_block_lem copy_zstd copy_zstd-IsZstd system system-IsRegular stored [] source
      (omega arith) (omega arith)

abbrev sources : List (List ℕ)
sources = (46 ∷ 97 ∷ []) ∷ (46 ∷ 98 ∷ []) ∷ []
