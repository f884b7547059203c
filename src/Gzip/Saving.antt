-- ===== src/Gzip/Saving.antt =====
-- GzipReader.cc: `SavingGzipReader`, which tries to decode from a place without what came before,
-- and goes back.
use lzopfs.Base.{
  ℕ, ◌-◌, [], ◌++◌, Option, none, some, if◌then◌else◌, ltb, length, take, drop, get_elem?,
}
use lzopfs.Blocks.{Buffer, resize, Result, ok, err, runtime, fault, ◌>>=◌}
use lzopfs.Handle.{Posix, Io, pos, seek_set, tell, seek}
use lzopfs.Gzip.{
  Zlib, Reader, raw_wrapper, gzip_wrapper, fresh, reset_out_buf, opos, initialize, ibits, reset,
  prime,
}

-- `GzipFile::WindowSize`
abbrev pub window_size : ℕ
window_size = 32768

-- The reader, the saved one, and the place in the file that belongs to that.
pub record Saver (S : Type 0) : Type 0 where
  pub current : Reader S
  pub saved : Option (Reader S)
  pub save_seek : ℕ

module _ (lib : Zlib) where
  -- The byte before the input that is not read yet; there is none in a chunk of which nothing is read.
  abbrev pub last_read : Reader lib.Stream → Option ℕ
  last_read r =
      if ltb r.avail_in (length r.input)
      then get_elem? r.input (length r.input - r.avail_in - 1)
      else none

  -- `mSave`, which is made when it is not there.
  abbrev pub reader_to_save : Option (Reader lib.Stream) → Reader lib.Stream
  reader_to_save none = fresh gzip_wrapper [] 0
  reader_to_save (some o) = o

  -- `swap`: both are initialised, and all fields change places.
  unfoldable pub swap :
      Reader lib.Stream → Reader lib.Stream → Result (Reader lib.Stream × Reader lib.Stream)
  unfolding initialize
  swap r o = initialize lib r >>= λ a. initialize lib o >>= λ b. ok (b.1, a.1)

  -- The reader behind `reset(Raw)` in `save`, at the place of the saved one.
  abbrev pub rebased : Reader lib.Stream → Reader lib.Stream → Reader lib.Stream
  rebased kept r =
      reset_out_buf
        (record r { input = kept.input; avail_in = kept.avail_in; out = resize window_size r.out })

  -- The state behind `swap` and `tell` in `save`, with the saved reader and its place: the new reader
  -- begins where the saved one is, with an empty window.
  unfoldable pub set_up : Reader lib.Stream → ℕ → Reader lib.Stream → Result (Saver lib.Stream)
  unfolding reset prime
  set_up kept place r = reset lib raw_wrapper r >>= λ r₁. elim (last_read kept) [
    | none ↦ err fault
    | some byte ↦ prime lib byte (ibits lib kept) (rebased kept r₁) >>= λ r₂. ok (record {
      current = record r₂ { init_out_pos = opos kept; out_bytes = 0 };
      saved = some kept;
      save_seek = place;
    })
  ]

  module _ (os : Posix) where
    -- `save`
    unfoldable pub save : Saver lib.Stream → Io (Saver lib.Stream)
    unfolding swap tell set_up
    save s h = swap s.current (reader_to_save s.saved) >>= λ both.
        tell os h >>= λ place. set_up both.1 place.0 both.0 >>= λ s'. ok (s', place.1)

    -- `restore`
    unfoldable pub restore : Saver lib.Stream → Io (Saver lib.Stream)
    unfolding swap seek
    restore s h = elim s.saved [
      | none ↦ err runtime
      | some o ↦ swap s.current o >>= λ both. seek os (pos s.save_seek) seek_set h >>= λ place.
          ok (record s { current = both.0; saved = some both.1 }, place.1)
    ]

  -- `copyWindow`
  unfoldable pub copy_window : Reader lib.Stream → Buffer
  copy_window r = let place = length r.out - r.avail_out in drop place r.out ++ take place r.out
