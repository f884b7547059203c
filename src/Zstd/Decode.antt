-- ===== src/Zstd/Decode.antt =====
-- ZstdFile.cc: how one block is decoded. libzstd is a parameter: a call on a stream, the input that
-- is left and the room for output yields the new stream, the count of bytes taken and the bytes put
-- out; `none` is an error. `patience` is how many calls one after the other the library lets pass
-- that neither take nor put out a byte, before the next such call is an error.
use lzopfs.Base.{
  ℕ, zero, suc, ◌+◌, ◌-◌, ◌*◌, [], ◌∷◌, ◌++◌, Option, none, some, true, false, ltb, add64, length,
  drop, min, if◌then◌else◌,
}
use lzopfs.Blocks.{Block, Buffer, resize, Result, ok, err, runtime, fault, ◌>>=◌}
use lzopfs.Handle.{Posix, Handle, try_pread}

pub record Zstd : Type 1 where
  pub Stream : Type 0
  pub create : Stream
  pub in_size : ℕ
  pub patience : ℕ
  pub decompress : Stream → Buffer → ℕ → Option (Stream × ℕ × Buffer)

-- The stream, the room that is left and the output so far.
pub record Decoding (S : Type 0) : Type 0 where
  pub stream : S
  pub room : ℕ
  pub output : Buffer

module _ (lib : Zstd) where
  -- A call of `ZSTD_decompressStream` that yields these bytes.
  abbrev pub put_out : Decoding lib.Stream → lib.Stream → Buffer → Decoding lib.Stream
  put_out d s bytes = record {
    stream = s;
    room = d.room - length bytes;
    output = d.output ++ bytes;
  }

  -- The loop over one chunk of input.
  unfoldable pub feed_chunk : ℕ → Buffer → Decoding lib.Stream → Result (Decoding lib.Stream)
  feed_chunk fuel [] d = ok d
  feed_chunk zero (b ∷ bs) d = err fault
  feed_chunk (suc fuel) (b ∷ bs) d = elim (lib.decompress d.stream (b ∷ bs) d.room) [
    | none ↦ err runtime
    | some (s, taken, bytes) ↦ feed_chunk fuel (drop taken (b ∷ bs)) (put_out d s bytes)
  ]

  module _ (os : Posix) where
    -- The loop over the chunks from `coff` to `cend`. A read yields a byte, and of the calls on a
    -- chunk no more than `patience` follow each other without a byte taken or put out, so the counts
    -- of the bytes are fuel enough.
    unfoldable pub feed_chunks :
        ℕ → ℕ → ℕ → Decoding lib.Stream → Handle → Result (Decoding lib.Stream)
    unfolding feed_chunk try_pread
    feed_chunks zero coff cend d h = if ltb coff cend then err fault else ok d
    feed_chunks (suc fuel) coff cend d h = elim (ltb coff cend) [
      | false ↦ ok d
      | true ↦ elim (try_pread os coff (min (cend - coff) lib.in_size) h) [
        | err x ↦ err x
        | ok (bytes, h') ↦
            elim (feed_chunk ((length bytes + d.room) * suc lib.patience + lib.patience) bytes d) [
              | err x ↦ err x
              | ok d' ↦ feed_chunks fuel (add64 coff (length bytes)) cend d' h
            ]
      ]
    ]

    -- `decompressBlock`; what the library does not write stays as it was in the buffer.
    unfoldable pub decompress_block : Block → Buffer → Handle → Result Buffer
    unfolding feed_chunks
    decompress_block b ubuf h =
        feed_chunks b.csize b.coff (add64 b.coff b.csize)
          (record { stream = lib.create; room = b.usize; output = [] }) h
        >>= λ d. ok (d.output ++ drop (length d.output) (resize b.usize ubuf))
