-- ===== src/Tests/Streams.antt =====
-- Bzip2File.cc at concrete inputs.
use lzopfs.Base.{
  ℕ, ◌+◌, ◌*◌, ◌<◌, ◌≡◌, refl, inl, ◌↔◌, List, [], ◌∷◌, ◌++◌, arith, length, replicate, some,
  if◌then◌else◌, ◌==◌, ◌⊎◌, inr, true, Bool-cases,
}
use lzopfs.Blocks.{Block, Buffer, ok, err, runtime}
use lzopfs.Blocks.Tiles.{Tiles}
use lzopfs.Handle.{Handle}
use lzopfs.Bzip2.Magic.{block_magic, eos_magic, examine, number}
use lzopfs.Bzip2.Table.{bits_before, IsMagic, examine_iff}
use lzopfs.Bzip2.Aligned.{align}
use lzopfs.Bzip2.Room.{align_lem}
use lzopfs.Bzip2.Scan.{Boundary, find_candidates}
use lzopfs.Bzip2.Listed.{Listed}
use lzopfs.Bzip2.Places.{Place}
use lzopfs.Bzip2.Found.{IsBytes, bits_at, find_candidates_lem}
use lzopfs.Bzip2.{
  Status, bz_stream_end, bz_error, Bzlib, decompress_loop, decompress, Build, build_blocks,
}
use lzopfs.Bzip2.Indexing.{IsInflate, Climb, Rise, build_blocks_lem}
use lzopfs.Tests.Indexes.{system, system-IsRegular}

-- A magic number that begins three bits before a byte.
examine_iff_example :
    (examine 1 138 (138 * 72057594037927936 + 3035968949453141) ≡ some (block_magic, 3)) ↔ (
      (3 < 8)
      × (block_magic ≡ bits_before 1 (138 * 72057594037927936 + 3035968949453141) 3)
      × IsMagic block_magic)
examine_iff_example =
    examine_iff 1 138 3035968949453141 (omega arith) (omega arith) (omega arith) block_magic 3

-- Seven bytes, of which the first and the last belong to the block in part.
abbrev seven : Buffer
seven = 1 ∷ 2 ∷ 3 ∷ 4 ∷ 5 ∷ 6 ∷ 7 ∷ []

align_lem_example :
    (r : Buffer) × (align 57 3 5 6 seven [] ≡ ok r)
    × (length r ≡ 14 + 6 + (if 3 == 0 then 0 else 1))
align_lem_example =
    align_lem 57 3 5 6 seven [] (omega arith) (omega arith) (omega arith) (omega arith)

-- A library that ends in one call with two bytes, and fails on an input of 25 bytes.
one_call : Unit {0} → Buffer → ℕ → Status × Unit {0} × ℕ × Buffer
one_call s input room =
    if length input == 25
    then (bz_error, s, 0, [])
    else (bz_stream_end, s, length input, 1 ∷ 2 ∷ [])

abbrev one_call_lib : Bzlib
one_call_lib = record { Stream = Unit {0}; init = some tt; run = one_call; end_ok = λ s. true }

one_call_cases :
    (d : Buffer) (n : ℕ)
    → ((decompress one_call_lib 1 d n).1 ≡ err runtime)
      ⊎ ((decompress one_call_lib 1 d n).1 ≡ ok (1 ∷ 2 ∷ []))
unfolding decompress decompress_loop one_call
one_call_cases d n = elim (Bool-cases (length d == 25)) [
  | inl e ↦ inl (ground (arith, e))
  | inr e ↦ inr (ground (arith, e))
]

abbrev source : Handle
source = record { contents = replicate 40 0; position = 0 }

abbrev start : Boundary
start = record { magic = block_magic; level = 57; coff = 4; bits = 0 }

abbrev rest : List Boundary
rest =
    record { magic = block_magic; level = 57; coff = 15; bits = 0 }
    ∷ record { magic = block_magic; level = 57; coff = 20; bits = 3 }
    ∷ record { magic = eos_magic; level = 57; coff = 30; bits = 5 }
    ∷ []

abbrev started : Build
started = record { uoff = 0; input = []; output = 0; level = 57; blocks = [] }

rest-Climb : Climb 40 4 rest
rest-Climb = (
  omega arith,
  omega arith,
  omega arith,
  (omega arith, omega arith, omega arith, (omega arith, omega arith, omega arith, tt)),
)

library-IsInflate : IsInflate system one_call_lib 1 2 (start ∷ rest) source
library-IsInflate = record {
  defined = λ d n made h. elim (one_call_cases d n) [
    | inl e ↦ absurd (ground (arith, e, h))
    | inr e ↦ absurd (ground (arith, e, h))
  ];
  some_bytes = λ d n out made h. elim (one_call_cases d n) [
    | inl e ↦ absurd (ground (arith, e, h))
    | inr e ↦ ground (arith, e, h)
  ];
  bounded = λ d n out made h. elim (one_call_cases d n) [
    | inl e ↦ absurd (ground (arith, e, h))
    | inr e ↦ ground (arith, e, h)
  ];
}

build_blocks_lem_example :
    (bs : List Block) × (build_blocks system one_call_lib 1 start rest started source
      ≡ ok ([] ++ bs, source))
    × Tiles 0 bs
    × Rise 4 bs
build_blocks_lem_example =
    build_blocks_lem system system-IsRegular one_call_lib 1 2 (omega arith) source (omega arith)
      start rest started library-IsInflate (omega arith) (omega arith) rest-Climb (omega arith)

-- The start of a file with a block behind its four bytes of header.
abbrev one_block : Handle
one_block = record {
  contents = 66 ∷ 90 ∷ 104 ∷ 57 ∷ 49 ∷ 65 ∷ 89 ∷ 38 ∷ 83 ∷ 89 ∷ 1 ∷ 2 ∷ 3 ∷ 4 ∷ [];
  position = 0;
}

abbrev at_the_block : Place one_block.contents
at_the_block = record {
  ahead = 66 ∷ 90 ∷ 104 ∷ [];
  byte_before = 57;
  byte = 49;
  behind = 65 ∷ 89 ∷ 38 ∷ 83 ∷ 89 ∷ 1 ∷ 2 ∷ 3 ∷ 4 ∷ [];
  whole = refl;
  room = omega arith;
}

one_block-IsBytes : IsBytes one_block.contents
one_block-IsBytes = ground arith

find_candidates_lem_example :
    (js : List Boundary) × (h' : Handle) × (find_candidates system (λ p. 0) one_block ≡ ok (js, h'))
    × Listed js 4 (bits_at at_the_block 0) 0
unfolding number
find_candidates_lem_example =
    find_candidates_lem system system-IsRegular (λ p. 0) one_block (omega arith) one_block-IsBytes
      at_the_block 0 (omega arith) (inl refl)
