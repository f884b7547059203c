-- ===== src/Zstd/Decoded.antt =====
-- ZstdFile.cc: the decoding of a block comes to its end.
use lzopfs.Base.{
  ℕ, zero, suc, ◌+◌, ◌-◌, ◌*◌, ◌<◌, dec_lt, ◌≤◌, ◌≡◌, refl, sym, subst, ◌⊎◌, inl, inr, [], ◌∷◌,
  ◌++◌, some, false, ltb, add64, mod64, length, drop, min, arith, Bool-cases, Option-cases,
  length-append, length-drop,
}
use lzopfs.Blocks.{Block, Buffer, resize, Result, ok, err, runtime, length-resize}
use lzopfs.Handle.{Posix, Handle}
use lzopfs.Handle.Regular.{IsRegular, pread_bytes}
use lzopfs.Zstd.Decode.{Zstd, Decoding, put_out, feed_chunk, feed_chunks, decompress_block}

-- A library that stays inside what it is given. It counts the calls one after the other that neither
-- take nor put out a byte, and the count does not pass a limit: behind it, such a call fails.
pub record IsZstd (lib : Zstd) : Type 0 where
  pub some_room : 0 < lib.in_size
  pub taken :
      (s s' : lib.Stream) (input bytes : Buffer) (room n : ℕ)
      → lib.decompress s input room ≡ some (s', n, bytes)
      → n ≤ length input
  pub written :
      (s s' : lib.Stream) (input bytes : Buffer) (room n : ℕ)
      → lib.decompress s input room ≡ some (s', n, bytes)
      → length bytes ≤ room
  pub idle : lib.Stream → ℕ
  pub idle_most : (s : lib.Stream) → idle s ≤ lib.patience
  pub idle_counts :
      (s s' : lib.Stream) (input bytes : Buffer) (room n : ℕ)
      → lib.decompress s input room ≡ some (s', n, bytes)
      → n + length bytes ≡ 0
      → idle s < idle s'

-- A byte less is worth more calls than may pass without one.
times_lt : (a b k : ℕ) → a < b → a * suc k + k < b * suc k
times_lt a zero k h = absurd (omega arith)
times_lt zero (suc b) k h = omega arith
times_lt (suc a) (suc b) k h = omega (arith, times_lt a b k (omega arith))

module _ (lib : Zstd) (good : IsZstd lib) where
  -- The room and the output make up the block.
  abbrev Fits : ℕ → Decoding lib.Stream → Type 0
  Fits size d = length d.output + d.room ≡ size

  -- Both loops end with a decoding that fits, or with an error.
  abbrev Ends : ℕ → Result (Decoding lib.Stream) → Type 0
  Ends size r = ((d : Decoding lib.Stream) × (r ≡ ok d) × Fits size d) ⊎ (r ≡ err runtime)

  -- How many calls there are at most for so many bytes of input and of room.
  abbrev calls_left : ℕ → lib.Stream → ℕ
  calls_left bytes s = bytes * suc lib.patience + (lib.patience - good.idle s)

  -- A call leaves fewer calls.
  calls-decrease :
      (s s' : lib.Stream) (input bytes : Buffer) (room n : ℕ)
      → lib.decompress s input room ≡ some (s', n, bytes)
      → calls_left (length input - n + (room - length bytes)) s'
        < calls_left (length input + room) s
  calls-decrease s s' input bytes room n e =
      let took = good.taken s s' input bytes room n e in
      let wrote = good.written s s' input bytes room n e in
      let most = good.idle_most s' in
      let before = length input + room in
      let after = length input - n + (room - length bytes) in
      elim (dec_lt 0 (n + length bytes)) [
        | yes p ↦
            let fewer = times_lt after before lib.patience (omega arith) in omega (arith, fewer)
        | no q ↦
            let counts = good.idle_counts s s' input bytes room n e (omega (arith, q)) in
            let same : after ≡ before = omega (arith, q) in rw same (omega (arith, counts))
      ]

  feed_chunk_lem :
      (fuel size : ℕ) (input : Buffer) (d : Decoding lib.Stream)
      → calls_left (length input + d.room) d.stream ≤ fuel
      → Fits size d
      → Ends size (feed_chunk lib fuel input d)
  unfolding feed_chunk
  feed_chunk_lem fuel size [] d enough fits = inl (d, refl, fits)
  feed_chunk_lem zero size (b ∷ bs) d enough fits =
      let some_calls = times_lt 0 (length (b ∷ bs) + d.room) lib.patience (omega arith) in
      absurd (omega arith)
  feed_chunk_lem (suc fuel) size (b ∷ bs) d enough fits =
      elim (Option-cases (lib.decompress d.stream (b ∷ bs) d.room)) [
        | inl none_left ↦ inr (ground (arith, none_left))
        | inr ((s, n, bytes), e) ↦
            let took = good.taken d.stream s (b ∷ bs) bytes d.room n e in
            let wrote = good.written d.stream s (b ∷ bs) bytes d.room n e in
            let fewer = calls-decrease d.stream s (b ∷ bs) bytes d.room n e in
            let next = put_out lib d s bytes in
            let rest = drop n (b ∷ bs) in
            let size_of : length (d.output ++ bytes) ≡ length d.output + length bytes =
              length-append d.output bytes in
            let count : length rest ≡ length (b ∷ bs) - n = length-drop n (b ∷ bs) in
            let ran : feed_chunk lib (suc fuel) (b ∷ bs) d ≡ feed_chunk lib fuel rest next =
              rw (e, feed_chunk) refl in
            subst (Ends size) (sym ran) (
              feed_chunk_lem fuel size rest next (rw count (omega (arith, fewer, enough)))
                (omega arith))
      ]

  module _ (os : Posix) (regular : IsRegular os) where
    feed_chunks-done :
        (fuel coff cend : ℕ) (d : Decoding lib.Stream) (h : Handle)
        → ltb coff cend ≡ false
        → feed_chunks lib os fuel coff cend d h ≡ ok d
    unfolding feed_chunks
    feed_chunks-done zero coff cend d h e = rw (e, feed_chunks) refl
    feed_chunks-done (suc fuel) coff cend d h e = rw (e, feed_chunks) refl

    feed_chunks_lem :
        (fuel size coff cend : ℕ) (d : Decoding lib.Stream) (h : Handle)
        → cend - coff ≤ fuel
        → cend ≤ length h.contents
        → cend < mod64
        → Fits size d
        → Ends size (feed_chunks lib os fuel coff cend d h)
    unfolding feed_chunks
    feed_chunks_lem zero size coff cend d h enough inside small fits =
        inl (d, feed_chunks-done 0 coff cend d h (ground arith), fits)
    feed_chunks_lem (suc fuel) size coff cend d h enough inside small fits =
        elim (Bool-cases (ltb coff cend)) [
          | inr done ↦ inl (d, feed_chunks-done (suc fuel) coff cend d h done, fits)
          | inl left ↦
              let ahead : coff < cend = ground arith in
              let room = good.some_room in
              let (bytes, got, count) =
                pread_bytes os regular coff (min (cend - coff) lib.in_size) h (omega arith)
                  (omega arith) in
              let next : add64 coff (length bytes) ≡ coff + length bytes = omega arith in
              elim (feed_chunk_lem ((length bytes + d.room) * suc lib.patience + lib.patience) size
                bytes d (omega arith) fits) [
                  | inr bad ↦ inr (rw (left, feed_chunks) (rw got (rw bad refl)))
                  | inl (d', fed, fits') ↦
                      let ran : feed_chunks lib os (suc fuel) coff cend d h
                          ≡ feed_chunks lib os fuel (add64 coff (length bytes)) cend d' h =
                        rw (left, feed_chunks) (rw got (rw fed refl)) in
                      subst (Ends size) (sym ran) (
                        feed_chunks_lem fuel size (add64 coff (length bytes)) cend d' h
                          (omega arith) inside small fits')
                ]
        ]

    -- On a regular system, with a block inside a file of less than 2^64 bytes and a library that
    -- stays inside its buffers and fails after a bounded number of calls one after the other that
    -- neither take nor put out a byte, decompressBlock comes to its end, with a buffer of the size
    -- of the block or with a runtime error.
    pub decompress_block_lem :
        (b : Block) (ubuf : Buffer) (h : Handle)
        → b.coff + b.csize ≤ length h.contents
        → length h.contents < mod64
        → ((out : Buffer) × (decompress_block lib os b ubuf h ≡ ok out) × (length out ≡ b.usize))
          ⊎ (decompress_block lib os b ubuf h ≡ err runtime)
    unfolding decompress_block
    decompress_block_lem b ubuf h inside small =
        let start : Decoding lib.Stream = record {
          stream = lib.create;
          room = b.usize;
          output = [];
        } in
        elim (feed_chunks_lem b.csize b.usize b.coff (add64 b.coff b.csize) start h (omega arith)
          (omega arith) (omega arith) (omega arith)) [
            | inr bad ↦ inr (rw (bad, decompress_block) refl)
            | inl (d, fed, fits) ↦
                let left = drop (length d.output) (resize b.usize ubuf) in
                inl (
                  d.output ++ left,
                  rw (fed, decompress_block) refl,
                  omega (
                    arith,
                    length-append d.output left,
                    length-drop (length d.output) (resize b.usize ubuf),
                    length-resize b.usize ubuf,
                  ),
                )
          ]
