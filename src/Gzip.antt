-- ===== src/Gzip.antt =====
-- GzipReader.h and GzipReader.cc: the readers of compressed files. zlib is a parameter: `inflate` on a
-- stream, the input that is left and the room for output yields a result, the new stream, the count
-- of bytes taken and the bytes put out; `none` is a result other than Z_OK.
pub mod Header
pub mod Saving
pub mod Marks
pub mod Builder
pub mod Decode
pub mod Rewound
pub mod Marked
pub mod Gapless
use lzopfs.Base.{
  ℕ, zero, suc, ◌+◌, ◌-◌, ◌/◌, ◌%◌, ◌^◌, List, [], ◌∷◌, ◌++◌, Option, none, some, Bool, true, false,
  if◌then◌else◌, ltb, ◌==◌, add64, sub64, length, take, drop,
}
use lzopfs.Blocks.{Buffer, Result, ok, err, format, runtime, eof, fault, system, Error}
use lzopfs.Handle.{Posix, Handle, Io, ◌>>=◌, pure, throw, pos, seek_cur, try_read, tell, seek}

-- How the compressed data are wrapped: `Gzip` and `Raw`.
pub data Wrapper : Type 0 where
  gzip_wrapper raw_wrapper : Wrapper

pub data Flush : Type 0 where
  z_block z_no_flush : Flush

-- `Z_OK`, `Z_STREAM_END` and the errors
pub data Code : Type 0 where
  z_ok z_stream_end z_error : Code

pub record Zlib : Type 1 where
  pub Stream : Type 0
  pub init : Wrapper → Option Stream
  pub reset : Wrapper → Stream → Option Stream
  pub set_dictionary : Buffer → Stream → Option Stream
  pub prime : ℕ → ℕ → Stream → Option Stream
  pub get_header : Stream → Option Stream
  pub header_done : Stream → Bool
  pub inflate : Flush → Stream → Buffer → ℕ → Code × Stream × ℕ × Buffer
  pub data_type : Stream → ℕ

-- The fields of a reader, with those of its stream: `stream` is there once it is initialised, the
-- last `avail_in` bytes of `input` are not read yet, and `avail_out` bytes are left at the end of
-- `out`.
pub record Reader (S : Type 0) : Type 0 where
  pub stream : Option S
  pub input : Buffer
  pub avail_in : ℕ
  pub out : Buffer
  pub avail_out : ℕ
  pub out_bytes : ℕ
  pub init_out_pos : ℕ
  pub wrap : Wrapper

-- A reader as it is made, with its buffer for output.
abbrev pub fresh : {S : Type 0} → Wrapper → Buffer → ℕ → Reader S
fresh wrap out opos = record {
  stream = none;
  input = [];
  avail_in = 0;
  out = out;
  avail_out = 0;
  out_bytes = 0;
  init_out_pos = opos;
  wrap = wrap;
}

-- `resetOutBuf`
abbrev pub reset_out_buf : {S : Type 0} → Reader S → Reader S
reset_out_buf r = record r { avail_out = length r.out }

-- `opos`
abbrev pub opos : {S : Type 0} → Reader S → ℕ
opos r = add64 r.init_out_pos r.out_bytes

-- The new input.
abbrev pub feed : {S : Type 0} → Buffer → Reader S → Reader S
feed bytes r = record r { input = bytes; avail_in = length bytes }

-- The input that is not read yet.
abbrev pub unread : {S : Type 0} → Reader S → Buffer
unread r = drop (length r.input - r.avail_in) r.input

module _ (lib : Zlib) where
  -- `initialize`, with the stream.
  unfoldable pub initialize : Reader lib.Stream → Result (lib.Stream × Reader lib.Stream)
  initialize r = elim r.stream [
    | some s ↦ ok (s, r)
    | none ↦ elim (lib.init r.wrap) [
      | none ↦ err runtime
      | some s ↦ ok (s, reset_out_buf (record r { stream = some s }))
    ]
  ]

  -- The call of `inflate`.
  abbrev pub run_inflate : Flush → lib.Stream → Reader lib.Stream → Code × Reader lib.Stream
  run_inflate flush s r =
      let (code, s', taken, bytes) = lib.inflate flush s (unread r) r.avail_out in
      let place = length r.out - r.avail_out in
      (
        code,
        record r {
          stream = some s';
          avail_in = r.avail_in - taken;
          out = take place r.out ++ (bytes ++ drop (place + length bytes) r.out);
          avail_out = r.avail_out - length bytes;
          out_bytes = add64 r.out_bytes (length bytes);
        },
      )

  -- `mStream->data_type`; it is looked at behind a step only.
  abbrev pub data_type : Reader lib.Stream → ℕ
  data_type r = elim r.stream [ none ↦ 0 | some s ↦ lib.data_type s ]

  -- `ibits`
  abbrev pub ibits : Reader lib.Stream → ℕ
  ibits r = data_type r % 8

  -- Whether the stream is at the end of a block: `data_type & 128`.
  abbrev pub at_block : Reader lib.Stream → Bool
  at_block r = data_type r / 128 % 2 == 1

  -- `reset`
  unfoldable pub reset : Wrapper → Reader lib.Stream → Result (Reader lib.Stream)
  reset w r = elim r.stream [
    | none ↦ err fault
    | some s ↦ elim (lib.reset w s) [
      | none ↦ err runtime
      | some s' ↦ ok (record r { stream = some s'; wrap = w })
    ]
  ]

  -- `setDict`
  unfoldable pub set_dict : Buffer → Reader lib.Stream → Result (Reader lib.Stream)
  unfolding initialize
  set_dict dict r = elim (initialize r) [
    | err x ↦ err x
    | ok (s, r₁) ↦ elim (length dict == 0) [
      | true ↦ ok r₁
      | false ↦ elim (lib.set_dictionary dict s) [
        | none ↦ err runtime
        | some s' ↦ ok (record r₁ { stream = some s' })
      ]
    ]
  ]

  -- `prime`
  unfoldable pub prime : ℕ → ℕ → Reader lib.Stream → Result (Reader lib.Stream)
  unfolding initialize
  prime byte bits r = elim (initialize r) [
    | err x ↦ err x
    | ok (s, r₁) ↦ elim (bits == 0) [
      | true ↦ ok r₁
      | false ↦ elim (lib.prime bits (byte / 2 ^ (8 - bits)) s) [
        | none ↦ err runtime
        | some s' ↦ ok (record r₁ { stream = some s' })
      ]
    ]
  ]

  module _ (os : Posix) where
    -- `ipos` of a reader on a file
    unfoldable pub ipos : Reader lib.Stream → Io ℕ
    unfolding tell
    ipos r = tell os >>= λ p. pure (sub64 p r.avail_in)

    -- `moreData` of a reader on a file, where its input is used up.
    unfoldable pub supply : ℕ → Reader lib.Stream → Io (Reader lib.Stream)
    unfolding try_read
    supply chunk r =
        if r.avail_in == 0 then (try_read os chunk >>= λ bytes. pure (feed bytes r)) else pure r

    -- `step` of a reader that discards its output: a full buffer is used again from its start.
    unfoldable pub step : ℕ → Flush → Reader lib.Stream → Io (Code × Reader lib.Stream)
    unfolding initialize supply
    step chunk flush r h = elim (initialize r) [
      | err x ↦ err x
      | ok (s, r₁) ↦ elim (supply chunk r₁ h) [
        | err x ↦ err x
        | ok (r₂, h') ↦
            ok (run_inflate flush s (if r₂.avail_out == 0 then reset_out_buf r₂ else r₂), h')
      ]
    ]

    -- `block`: to the end of the next block. zlib decides how many rounds there are.
    unfoldable pub block : ℕ → Reader lib.Stream → Io (Code × Reader lib.Stream)
    unfolding step
    block zero r h = err fault
    block (suc fuel) r h = elim (step 4096 z_block r h) [
      | err x ↦ err x
      | ok ((code, r'), h') ↦ elim code [
        | z_error ↦ ok ((z_error, r'), h')
        | z_stream_end ↦ ok ((z_stream_end, r'), h')
        | z_ok ↦ elim (at_block r') [ true ↦ ok ((z_ok, r'), h') | false ↦ block fuel r' h' ]
      ]
    ]

    -- `skipFooter`
    unfoldable pub skip_footer : Reader lib.Stream → Io (Reader lib.Stream)
    unfolding seek
    skip_footer r = elim r.wrap [
      | gzip_wrapper ↦ pure r
      | raw_wrapper ↦
          if ltb r.avail_in 8
          then (seek os (pos (8 - r.avail_in)) seek_cur >>= λ p. pure (record r { avail_in = 0 }))
          else pure (record r { avail_in = r.avail_in - 8 })
    ]
