-- ===== src/Pixz.antt =====
-- PixzFile.h and PixzFile.cc: files of several xz streams, whose index is at the end. liblzma is a
-- parameter; `none` is a result other than LZMA_OK, and so is `true` of `lzma_index_iter_locate`.
pub mod Blocks
pub mod Words
pub mod Padding
use lzopfs.Base.{
  ℕ, zero, suc, ◌+◌, ◌-◌, List, [], ◌∷◌, ◌++◌, Option, none, some, Bool, true, false, if◌then◌else◌,
  ltb, ◌==◌, add64, sub64, length, take, drop, min,
}
use lzopfs.Blocks.{Buffer, Result, ok, err, format, fault}
use lzopfs.Handle.{
  Posix, Handle, Io, ℤ, pos, negsuc, seek_set, seek_cur, seek_end, ◌>>=◌, ◌>>◌, pure, throw,
  throw_if, eof_to_format, read, try_pread, seek, tell,
}

-- `LZMA_OK`, `LZMA_STREAM_END` and the errors
pub data Code : Type 0 where
  lzma_ok lzma_stream_end lzma_error : Code

-- A block as the iterator of liblzma shows it.
pub record Shown : Type 0 where
  pub compressed_file_offset : ℕ
  pub uncompressed_file_offset : ℕ
  pub total_size : ℕ
  pub uncompressed_size : ℕ
  pub check : ℕ

-- `lzma_block_header_decode`: LZMA_OK, LZMA_DATA_ERROR or LZMA_OPTIONS_ERROR, or another error.
pub data HeaderResult (H : Type 0) : Type 0 where
  header_ok : H → HeaderResult H
  header_bad header_error : HeaderResult H

-- `code` takes the input that is left and the room for output, and yields the result, the new
-- stream, the count of bytes taken and the bytes put out.
pub record Lzma : Type 1 where
  pub Stream : Type 0
  pub Flags : Type 0
  pub Index : Type 0
  pub Iter : Type 0
  pub Header : Type 0
  pub header_decode : Buffer → Option Flags
  pub footer_decode : Buffer → Option Flags
  pub backward_size : Flags → ℕ
  pub index_decoder : Option Stream
  pub code : Stream → Buffer → ℕ → Code × Stream × ℕ × Buffer
  pub decoded_index : Stream → Index
  pub index_file_size : Index → ℕ
  pub index_stream_flags : Flags → Index → Option Index
  pub index_stream_padding : ℕ → Index → Option Index
  pub index_cat : Index → Index → Option Index
  pub index_uncompressed_size : Index → ℕ
  pub iter_init : Index → Iter
  pub iter_locate : ℕ → Iter → Bool × Iter
  pub iter_next : Iter → Option Iter
  pub iter_block : Iter → Shown
  pub block_header_size : ℕ → ℕ
  pub block_header_decode : ℕ → Buffer → HeaderResult Header
  pub block_decoder : Header → Option Stream

-- `-n`, as an offset
abbrev pub minus : ℕ → ℤ
minus zero = pos 0
minus (suc n) = negsuc n

-- Whether a word of four bytes is zero.
abbrev pub is_zero_word : Buffer → Bool
is_zero_word [] = true
is_zero_word (b ∷ bs) = if b == 0 then is_zero_word bs else false

-- The loop over the words of a chunk, from its end: the padding so far, and where the last word
-- ends that is not padding. `e` is where the word ends that is looked at.
unfoldable pub scan_words : ℕ → Buffer → ℕ → ℕ → ℕ × Option ℕ
scan_words zero buf e pad = (pad, none)
scan_words (suc fuel) buf e pad =
    if ltb e 4 then (pad, none) else (elim (is_zero_word (take 4 (drop (e - 4) buf))) [
      | true ↦ scan_words fuel buf (e - 4) (pad + 4)
      | false ↦ (pad, some e)
    ])

module _ (os : Posix) where
  -- The chunk in front of the position, with the position.
  unfoldable pub look_back : Io (ℕ × Buffer)
  unfolding tell seek read
  look_back = do
    p ← tell os
    throw_if (ltb p 12) format
    seek os (pos (p - min p 4096)) seek_set
    buf ← read os (min p 4096)
    pure (p, buf)

  -- The loop that skips the padding in front of the position, and counts it. Each round goes back by
  -- at least twelve bytes, so the position is fuel enough.
  unfoldable pub skip_padding : ℕ → ℕ → Io ℕ
  unfolding look_back seek scan_words
  skip_padding zero pad h = err fault
  skip_padding (suc fuel) pad h = elim (look_back h) [
    | err x ↦ err x
    | ok ((p, buf), h') ↦
        let (pad', found) = scan_words (length buf) buf (length buf) pad in
        elim found [
          | some e ↦ (seek os (minus (length buf - e)) seek_cur >> pure pad') h'
          | none ↦ elim (seek os (pos (p - min p 4096)) seek_set h') [
            | err x ↦ err x
            | ok (q, h'') ↦ skip_padding fuel pad' h''
          ]
        ]
  ]

module _ (lib : Lzma) (os : Posix) where
  -- `code`: `off` is where the next chunk is read, `input` what is left of the last one, `room` the
  -- room for output. liblzma decides how many rounds there are.
  unfoldable pub code_loop :
      (fuel off : ℕ)
      → lib.Stream
      → (input : Buffer) → (room : ℕ) → (output : Buffer) → Handle
      → Result (Code × lib.Stream × Buffer)
  unfolding try_pread
  code_loop zero off s input room output h = err fault
  code_loop (suc fuel) off s input room output h =
      elim (if length input == 0 then try_pread os off 4096 h else ok (input, h)) [
        | err x ↦ err x
        | ok (bytes, h') ↦
            let next = if length input == 0 then add64 off (length bytes) else off in
            let (code, s', taken, out) = lib.code s bytes room in
            elim code [
              | lzma_stream_end ↦ ok (lzma_ok, s', output ++ out)
              | lzma_error ↦ ok (lzma_error, s', output ++ out)
              | lzma_ok ↦
                  code_loop fuel next s' (drop taken bytes) (room - length out) (output ++ out) h
            ]
      ]

  -- The index of the stream whose footer ends at the position, with the place where the stream
  -- begins.
  unfoldable pub stream_index : ℕ → ℕ → Io (lib.Index × ℕ)
  unfolding seek read tell code_loop
  stream_index fuel pad = do
    seek os (negsuc 11) seek_cur
    buf ← read os 12
    flags ← required (lib.footer_decode buf)
    npos ← tell os
    seek os (negsuc (11 + lib.backward_size flags)) seek_cur
    s ← required lib.index_decoder
    off ← tell os
    nidx ← decoded off s
    set ← required (lib.index_stream_flags flags nidx)
    padded ← required (lib.index_stream_padding pad set)
    pure (padded, sub64 npos (lib.index_file_size nidx))
    where
      required : {A : Type 0} → Option A → Io A
      required none = throw format
      required (some a) = pure a

      decoded : ℕ → lib.Stream → Io lib.Index
      decoded off s h = elim (code_loop fuel off s [] 0 [] h) [
        | err x ↦ err x
        | ok (lzma_ok, s', out) ↦ ok (lib.decoded_index s', h)
        | ok (lzma_stream_end, s', out) ↦ err format
        | ok (lzma_error, s', out) ↦ err format
      ]

  -- The loop over the streams, from the last one on; `later` is the index of those behind.
  unfoldable pub read_streams : ℕ → Option lib.Index → Io lib.Index
  unfolding skip_padding stream_index seek
  read_streams zero later h = err fault
  read_streams (suc fuel) later h = elim (skip_padding os (suc h.position) 0 h) [
    | err x ↦ err x
    | ok (pad, h₁) ↦ elim (stream_index (suc fuel) pad h₁) [
      | err x ↦ err x
      | ok ((nidx, npos), h₂) ↦ elim (with_later nidx later) [
        | none ↦ err format
        | some idx ↦ elim (npos == 0) [
          | true ↦ ok (idx, h₂)
          | false ↦ elim (seek os (pos npos) seek_set h₂) [
            | err x ↦ err x
            | ok (q, h₃) ↦ read_streams fuel (some idx) h₃
          ]
        ]
      ]
    ]
  ]
    where
      with_later : lib.Index → Option lib.Index → Option lib.Index
      with_later nidx none = some nidx
      with_later nidx (some idx) = lib.index_cat nidx idx

  -- `readIndex`
  unfoldable pub read_index : ℕ → Io lib.Index
  unfolding seek read_streams
  read_index fuel = seek os (pos 0) seek_end >> read_streams fuel none

  -- `PixzFile::PixzFile`, up to `checkSizes`
  unfoldable pub open_pixz : ℕ → Io lib.Index
  unfolding read read_index
  open_pixz fuel = eof_to_format (do
    header ← read os 12
    (elim (lib.header_decode header) [ none ↦ throw format | some flags ↦ read_index fuel ]))
