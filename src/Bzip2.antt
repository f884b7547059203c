-- ===== src/Bzip2.antt =====
-- Bzip2File.h and Bzip2File.cc: files of bzip2. The library's stream is a parameter: `BZ2_bzDecompress`
-- on a stream, the input that is left and the room for output yields a status, the new stream, the
-- count of bytes taken and the bytes put out.
pub mod Magic
pub mod Scan
pub mod Aligned
pub mod Table
pub mod Listed
pub mod Places
pub mod Chunks
pub mod Found
pub mod Room
pub mod Indexing
use lzopfs.Base.{
  ℕ, zero, suc, ◌+◌, ◌-◌, ◌*◌, ◌/◌, ◌%◌, List, [], ◌∷◌, ◌++◌, Option, none, some, Bool, true, false,
  ◌||◌, ◌&&◌, if◌then◌else◌, ltb, leb, ◌==◌, add64, sub64, mod32, length, drop, not, equal,
}
use lzopfs.Blocks.{
  Block, Buffer, bzip2, Error, Result, ok, err, format, runtime, eof, fault, system, ◌>>=◌,
}
use lzopfs.Handle.{
  Posix, Handle, Io, Endian, ◌>>◌, pure, throw, throw_if, eof_to_format, negsuc, seek_cur, read,
  read_be, try_pread, seek,
}
use lzopfs.Bzip2.Magic.{bzip2_magic, block_magic, eos_magic, mod48}
use lzopfs.Bzip2.Scan.{Boundary, chunk_size, find_candidates}
use lzopfs.Bzip2.Aligned.{align}

pub data Status : Type 0 where
  bz_ok bz_stream_end bz_error : Status

-- `bzlib.h`
pub record Bzlib : Type 1 where
  pub Stream : Type 0
  pub init : Option Stream
  pub run : Stream → Buffer → ℕ → Status × Stream × ℕ × Buffer
  pub end_ok : Stream → Bool

module _ (lib : Bzlib) where
  -- The loop of `decompress`: `size` is that of the output buffer, `avail` what is left of it.
  unfoldable pub decompress_loop :
      ℕ → lib.Stream → Buffer → Buffer → (size avail : ℕ) → ℕ × Result Buffer
  decompress_loop zero s input output size avail = (size, err fault)
  decompress_loop (suc fuel) s input output size avail =
      let grown = if avail == 0 then size + chunk_size else size in
      let room = if avail == 0 then chunk_size else avail in
      let r = lib.run s input room in
      let left = drop r.2 input in
      let rest = room - length r.3 in
      elim r.0 [
        | bz_stream_end ↦ (grown, if lib.end_ok r.1 then ok (output ++ r.3) else err runtime)
        | bz_error ↦ (grown, err runtime)
        | bz_ok ↦ elim (length left == 0 && rest == grown) [
          | true ↦ (grown, err runtime)
          | false ↦ decompress_loop fuel r.1 left (output ++ r.3) grown rest
        ]
      ]

  -- `decompress`, on an output buffer of the given size; the result is the size of the buffer when
  -- the function ends or throws, and the output. The library decides how many rounds there are.
  unfoldable pub decompress : ℕ → Buffer → ℕ → ℕ × Result Buffer
  unfolding decompress_loop
  decompress fuel input size = elim lib.init [
    | none ↦ (size, err runtime)
    | some s ↦ decompress_loop fuel s input [] size size
  ]

module _ (os : Posix) where
  -- `createAlignedBlock`, on the bits between two boundaries.
  unfoldable pub create_aligned : ℕ → (coff bits stop endbits : ℕ) → Buffer → Io Buffer
  unfolding try_pread align
  create_aligned level coff bits stop endbits b h =
      let prev = if bits == 0 then 0 else 1 in
      elim (try_pread os (sub64 coff prev) (sub64 stop coff + prev) h) [
        | err x ↦ err x
        | ok (bytes, h') ↦ align level bits endbits (sub64 stop coff) bytes b >>= λ b'. ok (b', h')
      ]

-- Any error of `decompress` is a `std::runtime_error`; undefined behaviour stays a fault.
abbrev pub is_fault : Error → Bool
is_fault fault = true
is_fault x = false

-- The variables of the loop of `buildIndex`; `output` is the size of the buffer `out`.
pub record Build : Type 0 where
  pub uoff : ℕ
  pub input : Buffer
  pub output : ℕ
  pub level : ℕ
  pub blocks : List Block

-- The level of the block that begins at a boundary.
abbrev pub level_of : Boundary → Build → ℕ
level_of i s = if s.level == 0 then i.level else s.level

-- `Bzip2Block(*i, *j, uoff, out.size(), level)`
abbrev pub block_between : Boundary → Boundary → Buffer → Build → Block
block_between i j out s = record {
  usize = length out % mod32;
  csize = sub64 j.coff i.coff % mod32;
  uoff = s.uoff;
  coff = i.coff;
  kind = bzip2 i.bits j.bits (level_of i s);
}

-- A block was decompressed: it goes to the list.
abbrev pub add_found : Boundary → Boundary → Buffer → Buffer → Build → Build
add_found i j input out s = record {
  uoff = add64 s.uoff (length out);
  input = input;
  output = length out;
  level = if j.magic == eos_magic then 0 else level_of i s;
  blocks = s.blocks ++ block_between i j out s ∷ [];
}

-- `fuel` bounds the rounds of `decompress`, whose number is the library's choice.
module _ (os : Posix) (lib : Bzlib) (fuel : ℕ) where
  -- The loop over the boundaries behind `i`. A boundary up to which nothing decompresses is dropped.
  unfoldable pub build_blocks : Boundary → List Boundary → Build → Io (List Block)
  unfolding create_aligned decompress
  build_blocks i [] s h = ok (s.blocks, h)
  build_blocks i (j ∷ js) s h = elim (i.magic == eos_magic) [
    | true ↦ build_blocks j js s h
    | false ↦ elim (create_aligned os (level_of i s) i.coff i.bits j.coff j.bits s.input h) [
      | err x ↦ err x
      | ok (input, h') ↦
          let (size, r) = decompress lib fuel input s.output in
          elim r [
            | ok out ↦ build_blocks j js (add_found i j input out s) h'
            | err x ↦ elim (is_fault x) [
              | true ↦ err fault
              | false ↦
                  build_blocks i js
                    (record s { input = input; output = size; level = level_of i s }) h'
            ]
          ]
    ]
  ]

  -- `Bzip2File::buildIndex`; without any boundary it reads behind the end of a list.
  unfoldable pub build_index : (ℕ → ℕ) → Io (List Block)
  unfolding find_candidates build_blocks
  build_index stray h = elim (find_candidates os stray h) [
    | err x ↦ err x
    | ok ([], h') ↦ err fault
    | ok (i ∷ js, h') ↦
        build_blocks i js
          (record { uoff = 0; input = []; output = 0; level = i.level; blocks = [] }) h'
  ]

  -- `Bzip2File::decompressBlock`, on a block with its bits and level; the buffer of a job is empty
  -- before it.
  unfoldable pub decompress_block : Block → (bits endbits level : ℕ) → Io Buffer
  unfolding create_aligned decompress
  decompress_block b bits endbits level h =
      elim (create_aligned os level b.coff bits (add64 b.coff b.csize) endbits [] h) [
        | err x ↦ err x
        | ok (input, h') ↦ (decompress lib fuel input 0).1 >>= λ out.
            if length out == b.usize then ok (out, h') else err runtime
      ]
