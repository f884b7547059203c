-- ===== src/Lzop/Stream.antt =====
-- LzopFile.cc: the blocks of a well-formed file are found, each at its place.
use mathlib.Core.List.{append_assoc, append-nil}
use native.Mathlib.Nat.{add-zero}
use lzopfs.Base.{
  ℕ, zero, suc, ◌+◌, ◌<◌, ◌≡◌, refl, List, [], ◌∷◌, ◌++◌, length, arith, mod32, mod64, add64,
  length-append, ◌/◌, ◌%◌, ◌==◌, if◌then◌else◌, Bool-cases, inl, inr, sym,
}
use lzopfs.Blocks.{Block, Buffer, plain, ok}
use lzopfs.Blocks.Tiles.{Tiles, end_from}
use lzopfs.Handle.{Posix, Endian, pos, seek_cur, seek, tell}
use lzopfs.Handle.Regular.{IsRegular, at, target, read_be_lem}
use lzopfs.Index.Bytes.{be, length-be}
use lzopfs.Lzop.{find_blocks_loop, find_blocks, sums_of}

-- A block as it stands in the file: its sizes, the four checksums that it may have, and its data.
pub record Chunk : Type 0 where
  pub usize : ℕ
  pub csize : ℕ
  pub adler : ℕ
  pub crc : ℕ
  pub packed_adler : ℕ
  pub packed_crc : ℕ
  pub packed : Buffer

-- Four bytes for a checksum, where the flags have the bit of this value.
unfoldable pub checksum_bytes : (flags value sum : ℕ) → Buffer
checksum_bytes flags value sum = if flags / value % 2 == 1 then be 4 sum else []

-- The checksums of a block as lzop writes them: ADLER32 and CRC32 of the data, with the flags 0x1 and
-- 0x100, and behind them those of the compressed data, with the flags 0x2 and 0x200, which a block
-- that is stored as it is does not have.
unfoldable pub all_checksums : ℕ → Chunk → Buffer
unfolding checksum_bytes
all_checksums flags c =
    (checksum_bytes flags 1 c.adler ++ checksum_bytes flags 256 c.crc)
    ++ (if c.usize == c.csize
        then []
        else checksum_bytes flags 2 c.packed_adler ++ checksum_bytes flags 512 c.packed_crc)

unfoldable pub chunk_bytes : ℕ → Chunk → Buffer
unfolding all_checksums
chunk_bytes flags c = be 4 c.usize ++ (be 4 c.csize ++ (all_checksums flags c ++ c.packed))

-- The blocks of a part of a file, with the mark of its end.
unfoldable pub stream_bytes : ℕ → List Chunk → Buffer
unfolding chunk_bytes
stream_bytes flags [] = be 4 0
stream_bytes flags (c ∷ cs) = chunk_bytes flags c ++ stream_bytes flags cs

pub record ChunkFits (c : Chunk) : Type 0 where
  pub some_bytes : 0 < c.usize
  pub usize : c.usize < mod32
  pub csize : c.csize < mod32
  pub packed : length c.packed ≡ c.csize

abbrev pub ChunksFit : List Chunk → Type 0
ChunksFit [] = Unit
ChunksFit (c ∷ cs) = ChunkFits c × ChunksFit cs

length-checksum_bytes :
    (flags value sum : ℕ)
    → length (checksum_bytes flags value sum) ≡ (if flags / value % 2 == 1 then 4 else 0)
unfolding checksum_bytes
length-checksum_bytes flags value sum = elim (Bool-cases (flags / value % 2 == 1)) [
  | inl set ↦ rw (set, checksum_bytes) (length-be 4 sum)
  | inr unset ↦ rw (unset, checksum_bytes) refl
]

-- The code counts the bytes of the checksums right.
sums_of_lem :
    (flags : ℕ) (c : Chunk) → sums_of flags c.usize c.csize ≡ length (all_checksums flags c)
unfolding sums_of all_checksums
sums_of_lem flags c =
    let us = checksum_bytes flags 1 c.adler in
    let uc = checksum_bytes flags 256 c.crc in
    let cs = checksum_bytes flags 2 c.packed_adler in
    let cc_ = checksum_bytes flags 512 c.packed_crc in
    ground (
      arith,
      length-append us uc,
      length-append cs cc_,
      length-append (us ++ uc) [],
      length-append (us ++ uc) (cs ++ cc_),
      length-checksum_bytes flags 1 c.adler,
      length-checksum_bytes flags 256 c.crc,
      length-checksum_bytes flags 2 c.packed_adler,
      length-checksum_bytes flags 512 c.packed_crc,
    )

-- The block of a chunk that begins at a position.
abbrev pub block_at : ℕ → ℕ → ℕ → Chunk → Block
block_at flags coff uoff c = record {
  usize = c.usize;
  csize = c.csize;
  uoff = uoff;
  coff = add64 coff (8 + length (all_checksums flags c));
  kind = plain;
}

-- The blocks of the chunks, which begin at a position of the compressed and one of the uncompressed
-- file.
unfoldable pub placed : ℕ → ℕ → ℕ → List Chunk → List Block
placed flags coff uoff [] = []
placed flags coff uoff (c ∷ cs) =
    block_at flags coff uoff c
    ∷ placed flags (add64 coff (length (all_checksums flags c) + c.csize + 8)) (add64 uoff c.usize)
        cs

unfoldable pub end_of : ℕ → List Chunk → ℕ
end_of uoff [] = uoff
end_of uoff (c ∷ cs) = end_of (add64 uoff c.usize) cs

length-stream_bytes : (flags : ℕ) (cs : List Chunk) → length cs < length (stream_bytes flags cs)
unfolding stream_bytes chunk_bytes
length-stream_bytes flags [] = omega (arith, length-be 4 0)
length-stream_bytes flags (c ∷ cs) = omega (
  arith,
  length-append (chunk_bytes flags c) (stream_bytes flags cs),
  length-append (be 4 c.usize) (be 4 c.csize ++ (all_checksums flags c ++ c.packed)),
  length-be 4 c.usize,
  length-stream_bytes flags cs,
)

module _ (os : Posix) (regular : IsRegular os) where
  -- A seek over bytes that are there.
  seek_over :
      (done d rest : Buffer) (n : ℕ)
      → length d ≡ n
      → seek os (pos n) seek_cur (at done (d ++ rest))
        ≡ ok (length (done ++ d), at (done ++ d) rest)
  unfolding seek target
  seek_over done d rest n h =
      let there = regular.seeks (done ++ (d ++ rest)) (length done) (pos n) seek_cur in
      let moved : length done + n ≡ length (done ++ d) = omega (arith, length-append done d) in
      ground (arith, there, moved, append_assoc done d rest)

  tell_lem : (done rest : Buffer) → tell os (at done rest) ≡ ok (length done, at done rest)
  unfolding tell seek target
  tell_lem done rest =
      let there = regular.seeks (done ++ rest) (length done) (pos 0) seek_cur in
      ground (arith, there, add-zero (length done))

  module _ (e : Endian) (flags : ℕ) where
    pub find_blocks_loop_lem :
        (cs : List Chunk) (fuel coff uoff : ℕ) (blocks : List Block) (done rest : Buffer)
        → ChunksFit cs
        → length cs < fuel
        → find_blocks_loop os e fuel flags coff uoff blocks
            (at done (stream_bytes flags cs ++ rest))
          ≡ ok (
            (end_of uoff cs, blocks ++ placed flags coff uoff cs),
            at (done ++ stream_bytes flags cs) rest,
          )
    unfolding find_blocks_loop stream_bytes chunk_bytes placed end_of
    find_blocks_loop_lem cs zero coff uoff blocks done rest fits enough = absurd (omega arith)
    find_blocks_loop_lem [] (suc fuel) coff uoff blocks done rest fits enough =
        ground (arith, read_be_lem os regular e done rest 3 0 (omega arith), append-nil blocks)
    find_blocks_loop_lem (c ∷ cs) (suc fuel) coff uoff blocks done rest (fit, fits) enough =
        let us = be 4 c.usize in
        let sz = be 4 c.csize in
        let payload = all_checksums flags c ++ c.packed in
        let more = stream_bytes flags cs ++ rest in
        let b = block_at flags coff uoff c in
        let step = length (all_checksums flags c) + c.csize + 8 in
        let sums = sums_of_lem flags c in
        let size : length payload ≡ sums_of flags c.usize c.csize + c.csize =
          omega (arith, length-append (all_checksums flags c) c.packed, fit.packed, sums) in
        ground (
          arith,
          append_assoc (us ++ (sz ++ payload)) (stream_bytes flags cs) rest,
          append_assoc us (sz ++ payload) more,
          append_assoc sz payload more,
          read_be_lem os regular e done (sz ++ (payload ++ more)) 3 c.usize fit.usize,
          read_be_lem os regular e (done ++ us) (payload ++ more) 3 c.csize fit.csize,
          seek_over ((done ++ us) ++ sz) payload more _ size,
          find_blocks_loop_lem cs fuel (add64 coff step) (add64 uoff c.usize) (blocks ++ b ∷ [])
              (((done ++ us) ++ sz) ++ payload) rest fits (omega arith),
          append_assoc blocks (b ∷ []) (placed flags (add64 coff step) (add64 uoff c.usize) cs),
          append_assoc (done ++ us) sz payload,
          append_assoc done us (sz ++ payload),
          append_assoc done (us ++ (sz ++ payload)) (stream_bytes flags cs),
          fit.some_bytes,
          sums,
        )

    -- On a regular file that has, from the position on, blocks in the form of lzop with the
    -- checksums that the flags name and then the end mark, findBlocks appends one block for each, at
    -- its place in the compressed and the uncompressed file, yields the end in the uncompressed
    -- file, and leaves the position behind the end mark.
    pub find_blocks_lem :
        (cs : List Chunk) (uoff : ℕ) (blocks : List Block) (done rest : Buffer)
        → ChunksFit cs
        → find_blocks os e flags uoff blocks (at done (stream_bytes flags cs ++ rest))
          ≡ ok (
            (end_of uoff cs, blocks ++ placed flags (length done) uoff cs),
            at (done ++ stream_bytes flags cs) rest,
          )
    unfolding find_blocks
    find_blocks_lem cs uoff blocks done rest fits =
        let whole = done ++ (stream_bytes flags cs ++ rest) in
        let enough : length cs < suc (length whole) = omega (
          arith,
          length-stream_bytes flags cs,
          length-append (stream_bytes flags cs) rest,
          length-append done (stream_bytes flags cs ++ rest),
        ) in
        ground (
          arith,
          tell_lem done (stream_bytes flags cs ++ rest),
          find_blocks_loop_lem cs (suc (length whole)) (length done) uoff blocks done rest fits
              enough,
        )

abbrev pub total_usize : List Chunk → ℕ
total_usize [] = 0
total_usize (c ∷ cs) = c.usize + total_usize cs

-- The blocks follow each other without gaps.
placed-Tiles :
    (flags coff uoff : ℕ) (cs : List Chunk)
    → ChunksFit cs
    → uoff + total_usize cs < mod64
    → Tiles uoff (placed flags coff uoff cs)
      × (end_from uoff (placed flags coff uoff cs) ≡ uoff + total_usize cs)
      × (end_of uoff cs ≡ uoff + total_usize cs)
unfolding placed end_from end_of
placed-Tiles flags coff uoff [] fits h = (tt, omega arith, omega arith)
placed-Tiles flags coff uoff (c ∷ cs) (fit, fits) h =
    let here : add64 uoff c.usize ≡ uoff + c.usize = omega arith in
    let (tiles, ends, total) =
      placed-Tiles flags (add64 coff (length (all_checksums flags c) + c.csize + 8))
        (uoff + c.usize) cs fits (omega arith) in
    (
      (refl, fit.some_bytes, rw here tiles),
      rw here (omega (arith, ends)),
      rw here (omega (arith, total)),
    )

-- On a regular file that has, from the position on, blocks in the form of lzop with the checksums
-- that the flags name and then the end mark, all blocks together below 2^64 bytes, findBlocks from
-- the start of the uncompressed file has no error; it finds blocks that are nonempty, follow each
-- other without gaps from 0 and end where the sum of the sizes in the file says, and it yields that
-- sum as the end of the uncompressed file.
pub find_blocks-Tiles :
    (os : Posix)
    → IsRegular os
    → (e : Endian) (flags : ℕ) (cs : List Chunk) (done rest : Buffer) → ChunksFit cs
    → total_usize cs < mod64
    → (bs : List Block) × (find_blocks os e flags 0 [] (at done (stream_bytes flags cs ++ rest))
        ≡ ok ((total_usize cs, bs), at (done ++ stream_bytes flags cs) rest))
      × Tiles 0 bs
      × (end_from 0 bs ≡ total_usize cs)
find_blocks-Tiles os regular e flags cs done rest fits room =
    let (tiles, ends, total) = placed-Tiles flags (length done) 0 cs fits (omega arith) in
    let sum : end_of 0 cs ≡ total_usize cs = omega (arith, total) in
    (
      placed flags (length done) 0 cs,
      rw (sym sum) (find_blocks_lem os regular e flags cs 0 [] done rest fits),
      tiles,
      omega (arith, ends),
    )
