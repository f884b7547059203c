-- ===== src/Index/RoundTrip.antt =====
-- CompressedFile.cc: an index that was written is read back.
use mathlib.Core.List.{append_assoc, append-nil}
use lzopfs.Base.{
  ℕ, zero, suc, ◌+◌, ◌*◌, ◌/◌, ◌%◌, ◌<◌, ◌≤◌, ◌≡◌, refl, List, [], ◌∷◌, ◌++◌, none, some, Bool,
  true, if◌then◌else◌, ◌==◌, add64, length, arith, mod64, ◌≢◌, length-append, ℕ_discrete,
}
use lzopfs.Blocks.{Block, Buffer, Kind, plain, bzip2, gzip, Result, ok}
use lzopfs.Blocks.Tiles.{Tiles, end_from, le-end_from}
use lzopfs.Handle.{Posix, Handle, Endian, ◌>>◌, write_be}
use lzopfs.Handle.Regular.{IsRegular, at, read_lem, read_be_lem, write_be_lem}
use lzopfs.Index.{
  Format, lzop_format, bzip2_format, gzip_format, read_extra, read_rest, read_block, read_blocks,
  read_index, write_blocks, write_index, load_index,
}
use lzopfs.Index.Bytes.{
  be, length-be, extra_bytes, block_bytes, index_bytes, KindFits, Fits, write_block_lem,
}

abbrev pub AllFit : ℕ → Format → List Block → Type 0
AllFit window f [] = Unit
AllFit window f (b ∷ bs) = Fits window f b × AllFit window f bs

-- What an index keeps of a list of blocks: those before the first empty one, their positions
-- counted anew.
unfoldable pub kept : ℕ → List Block → List Block
kept u [] = []
kept u (b ∷ bs) = if b.usize == 0 then [] else record b { uoff = u } ∷ kept (add64 u b.usize) bs

module _ (os : Posix) (regular : IsRegular os) (e : Endian) (window : ℕ) where
  read_extra_lem :
      (f : Format) (done rest : Buffer) (k : Kind)
      → KindFits window f k
      → read_extra os e window f (at done (extra_bytes k ++ rest))
        ≡ ok (k, at (done ++ extra_bytes k) rest)
  unfolding read_extra extra_bytes
  read_extra_lem lzop_format done rest plain h = ground (arith, append-nil done)
  read_extra_lem bzip2_format done rest (bzip2 bits endbits level) h =
      let packed = (endbits * 16 + bits) % 256 in
      let low : packed % 16 ≡ bits = omega arith in
      let high : packed / 16 ≡ endbits = omega arith in
      ground (
        arith,
        append_assoc (be 1 packed) (be 1 level) rest,
        read_be_lem os regular e done (be 1 level ++ rest) 0 packed (omega arith),
        read_be_lem os regular e (done ++ be 1 packed) rest 0 level (omega arith),
        append_assoc done (be 1 packed) (be 1 level),
        low,
        high,
      )
  read_extra_lem gzip_format done rest (gzip bits []) h =
      let flags = bits % 8 in
      let mark : flags / 128 % 2 ≡ 0 = omega arith in
      let low : flags % 8 ≡ bits = omega arith in
      ground (arith, read_be_lem os regular e done rest 0 flags (omega arith), mark, low)
  read_extra_lem gzip_format done rest (gzip bits (x ∷ dict)) h =
      let flags = bits % 8 + 128 in
      let mark : flags / 128 % 2 ≡ 1 = omega arith in
      let low : flags % 8 ≡ bits = omega arith in
      ground (
        arith,
        append_assoc (be 1 flags) (x ∷ dict) rest,
        read_be_lem os regular e done ((x ∷ dict) ++ rest) 0 flags (omega arith),
        read_lem os regular (done ++ be 1 flags) (x ∷ dict) rest (length dict) refl,
        append_assoc done (be 1 flags) (x ∷ dict),
        mark,
        low,
        h.1,
      )
  read_extra_lem f done rest k h = absurd h

  pub read_block_lem :
      (f : Format) (done rest : Buffer) (b : Block)
      → Fits window f b
      → b.usize ≢ 0
      → read_block os e window f (at done (block_bytes b ++ rest))
        ≡ ok (some (record b { uoff = 0 }), at (done ++ block_bytes b) rest)
  unfolding read_block read_rest block_bytes
  read_block_lem f done rest b h some_bytes =
      let us = be 4 b.usize in
      let cs = be 4 b.csize in
      let co = be 8 b.coff in
      let ex = extra_bytes b.kind in
      ground (
        arith,
        append_assoc us (cs ++ (co ++ ex)) rest,
        append_assoc cs (co ++ ex) rest,
        append_assoc co ex rest,
        read_be_lem os regular e done (cs ++ (co ++ (ex ++ rest))) 3 b.usize h.usize,
        read_be_lem os regular e (done ++ us) (co ++ (ex ++ rest)) 3 b.csize h.csize,
        read_be_lem os regular e ((done ++ us) ++ cs) (ex ++ rest) 7 b.coff h.coff,
        read_extra_lem f (((done ++ us) ++ cs) ++ co) rest b.kind h.kind,
        append_assoc ((done ++ us) ++ cs) co ex,
        append_assoc (done ++ us) cs (co ++ ex),
        append_assoc done us (cs ++ (co ++ ex)),
      )

  write_blocks_lem :
      (done : Buffer) (bs : List Block)
      → (write_blocks os e window bs >> write_be os e 4 0) (at done [])
        ≡ ok (tt, at (done ++ index_bytes bs) [])
  unfolding write_blocks index_bytes
  write_blocks_lem done [] = write_be_lem os regular e done 4 0
  write_blocks_lem done (b ∷ bs) = ground (
    arith,
    write_block_lem os regular e window done b,
    write_blocks_lem (done ++ block_bytes b) bs,
    append_assoc done (block_bytes b) (index_bytes bs),
  )

  -- The bytes of a written index.
  pub write_index_lem :
      (bs : List Block) → write_index os e window bs (at [] []) ≡ ok (tt, at (index_bytes bs) [])
  unfolding write_index
  write_index_lem bs = write_blocks_lem [] bs

  read_block_end :
      (f : Format) (done rest : Buffer)
      → read_block os e window f (at done (be 4 0 ++ rest)) ≡ ok (none, at (done ++ be 4 0) rest)
  unfolding read_block
  read_block_end f done rest = ground (arith, read_be_lem os regular e done rest 3 0 (omega arith))

  -- Only the size of an empty block is read: the rest is not looked at.
  read_block_empty :
      (f : Format) (done rest : Buffer) (b : Block)
      → b.usize ≡ 0
      → (h : Handle) × (read_block os e window f (at done (block_bytes b ++ rest)) ≡ ok (none, h))
  unfolding read_block block_bytes
  read_block_empty f done rest b empty =
      let us = be 4 b.usize in
      let tail = be 4 b.csize ++ (be 8 b.coff ++ extra_bytes b.kind) in
      (
        at (done ++ us) (tail ++ rest),
        ground (
          arith,
          append_assoc us tail rest,
          read_be_lem os regular e done (tail ++ rest) 3 b.usize (omega arith),
        ),
      )

  read_blocks_lem :
      (bs : List Block) (fuel : ℕ) (f : Format) (done : Buffer) (uoff : ℕ) (blocks : List Block)
      → AllFit window f bs
      → length bs < fuel
      → (h : Handle) × (read_blocks os e window fuel f uoff blocks (at done (index_bytes bs))
          ≡ ok (blocks ++ kept uoff bs, h))
  unfolding read_blocks index_bytes kept
  read_blocks_lem bs zero f done uoff blocks fits enough = absurd (omega arith)
  read_blocks_lem [] (suc fuel) f done uoff blocks fits enough = (
    at (done ++ be 4 0) [],
    ground (arith, read_block_end f done [], append-nil (be 4 0), append-nil blocks),
  )
  read_blocks_lem (b ∷ bs) (suc fuel) f done uoff blocks (fit, fits) enough =
      elim (ℕ_discrete b.usize 0) [
        | yes empty ↦
            let (h, e₁) = read_block_empty f done (index_bytes bs) b empty in
            (h, ground (arith, e₁, append-nil blocks))
        | no full ↦
            let (h, rest) =
              read_blocks_lem bs fuel f (done ++ block_bytes b) (add64 uoff b.usize)
                (blocks ++ record b { uoff = uoff } ∷ []) fits (omega arith) in
            (
              h,
              ground (
                arith,
                read_block_lem f done (index_bytes bs) b fit full,
                rest,
                append_assoc blocks (record b { uoff = uoff } ∷ []) (kept (add64 uoff b.usize) bs),
              ),
            )
      ]

  length-index_bytes : (bs : List Block) → length bs ≤ length (index_bytes bs)
  unfolding index_bytes block_bytes
  length-index_bytes [] = omega arith
  length-index_bytes (b ∷ bs) =
      let tail = be 4 b.csize ++ (be 8 b.coff ++ extra_bytes b.kind) in
      omega (
        arith,
        length-append (block_bytes b) (index_bytes bs),
        length-append (be 4 b.usize) tail,
        length-be 4 b.usize,
        length-index_bytes bs,
      )

  -- On a regular file, to read the bytes of an index of blocks that fit the format yields the blocks
  -- before the first empty one, with their positions counted anew from 0.
  pub read_index-kept :
      (f : Format) (bs : List Block)
      → AllFit window f bs
      → (h : Handle) × (read_index os e window f (at [] (index_bytes bs)) ≡ ok (kept 0 bs, h))
  unfolding read_index
  read_index-kept f bs fits =
      read_blocks_lem bs (suc (length (index_bytes bs))) f [] 0 [] fits
        (omega (arith, length-index_bytes bs))

-- Of blocks that cover the file without gaps, nothing is lost.
pub kept-Tiles : (u : ℕ) (bs : List Block) → Tiles u bs → end_from u bs < mod64 → kept u bs ≡ bs
unfolding kept end_from
kept-Tiles u [] t h = refl
kept-Tiles u (b ∷ bs) t h =
    ground (arith, t.0, kept-Tiles (u + b.usize) bs t.2 h, le-end_from (u + b.usize) bs)

module _ (os : Posix) (regular : IsRegular os) (e : Endian) (window : ℕ) where
  -- On a regular file, when the blocks fit the format and tile the file from 0 with an end below
  -- 2^64, the first run writes an index from which every later run loads the same blocks and leaves
  -- the index as it is, whether or not it could build or write one.
  pub load_index-load_index :
      (f : Format) (bs : List Block) (build : Result (List Block)) (create : Bool)
      → AllFit window f bs
      → Tiles 0 bs
      → end_from 0 bs < mod64
      → (index : Buffer) × (load_index os e window f none (ok bs) true ≡ ok (bs, some index))
        × (load_index os e window f (some index) build create ≡ ok (bs, some index))
  unfolding load_index
  load_index-load_index f bs build create fits t h =
      let (r, done) = read_index-kept os regular e window f bs fits in
      (
        index_bytes bs,
        ground (arith, write_index_lem os regular e window bs, append-nil (index_bytes bs)),
        ground (arith, done, kept-Tiles 0 bs t h),
      )
