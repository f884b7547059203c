-- ===== src/Gzip/Builder.antt =====
-- GzipFile.cc: `buildIndex`. A place is fit for a block where decoding from it needs nothing of what
-- came before; after a long way without one, a block with a dictionary is added.
use lzopfs.Base.{
  ℕ, zero, suc, ◌-◌, List, [], none, Bool, true, false, ◌||◌, if◌then◌else◌, ltb, ◌==◌, replicate,
}
use lzopfs.Blocks.{Block, ok, err, format, fault}
use lzopfs.Handle.{Posix, Io, ◌>>=◌, ◌>>◌, pure, throw, pos, seek_set, seek, size}
use lzopfs.Gzip.{
  Zlib, Reader, Code, z_ok, z_stream_end, z_error, gzip_wrapper, fresh, opos, ibits, ipos, block,
  reset, skip_footer,
}
use lzopfs.Gzip.Saving.{Saver, window_size, save, restore, copy_window}
use lzopfs.Gzip.Marks.{add_block, set_last_size}

-- The variables of `buildIndex`: whether a decode without a dictionary is tried, and whether a block
-- was passed meanwhile; the place that is tried; the place of the last block; the blocks.
pub record Search (S : Type 0) : Type 0 where
  pub reader : Saver S
  pub indep : Bool
  pub backtrack : Bool
  pub uoff : ℕ
  pub coff : ℕ
  pub bits : ℕ
  pub last_idx : ℕ
  pub blocks : List Block

-- How a round of the loop ends: another one follows, or the file is at its end.
pub data Round (S : Type 0) : Type 0 where
  more : Search S → Round S
  over : Search S → Round S

abbrev pub is_end : Code → Bool
is_end z_stream_end = true
is_end c = false

-- The place that was tried is good.
abbrev pub add_indep : {S : Type 0} → Search S → Search S
add_indep s = record s {
  blocks = add_block (record { uoff = s.uoff; coff = s.coff; bits = s.bits; dict = [] }) s.blocks;
  last_idx = s.uoff;
  indep = false;
}

-- The variables at the start, with a new reader.
abbrev pub started : {S : Type 0} → Search S
started = record {
  reader = record {
    current = fresh gzip_wrapper (replicate window_size 0) 0;
    saved = none;
    save_seek = 0;
  };
  indep = false;
  backtrack = false;
  uoff = 0;
  coff = 0;
  bits = 0;
  last_idx = 0;
  blocks = [];
}

module _ (lib : Zlib) (os : Posix) (min_block : ℕ) where
  -- Back to the saved place.
  unfoldable pub rewind : Search lib.Stream → Io (Search lib.Stream)
  unfolding restore
  rewind s = restore lib os s.reader >>= λ r. pure (record s { reader = r; indep = false })

  -- A new place is tried.
  unfoldable pub try_here : Search lib.Stream → Io (Search lib.Stream)
  unfolding ipos save
  try_here s = do
    p ← ipos lib os s.reader.current
    r ← save lib os s.reader
    pure (record s {
      reader = r;
      uoff = opos s.reader.current;
      coff = p;
      bits = ibits lib s.reader.current;
      backtrack = false;
      indep = true;
    })

  -- The end of a block, where the place that is tried is not decided by it.
  unfoldable pub go_on : Search lib.Stream → Io (Round lib.Stream)
  unfolding try_here
  go_on s = if s.indep then pure (more s) else (try_here s >>= λ s'. pure (more s'))

  -- The next stream begins.
  unfoldable pub resume : Reader lib.Stream → Search lib.Stream → Io (Round lib.Stream)
  unfolding reset go_on
  resume r s h = elim (reset lib gzip_wrapper r) [
    | err x ↦ err x
    | ok r' ↦ go_on (record s { reader = record s.reader { current = r' } }) h
  ]

  -- The end of a stream: the next one begins behind its footer, or the file is at its end.
  unfoldable pub end_stream : Search lib.Stream → Io (Round lib.Stream)
  unfolding skip_footer ipos size resume
  end_stream s = do
    r ← skip_footer lib os s.reader.current
    p ← ipos lib os r
    n ← size os
    if p == n
        then pure (over (record s { reader = record s.reader { current = r } }))
        else resume r s

  abbrev pub next : Code → Search lib.Stream → Io (Round lib.Stream)
  next code s = if is_end code then end_stream s else go_on s

  -- A block was decoded.
  unfoldable pub decoded : Code → Search lib.Stream → Io (Round lib.Stream)
  unfolding end_stream go_on rewind
  decoded code s = elim s.indep [
    | false ↦ next code s
    | true ↦ elim (ltb window_size s.reader.current.out_bytes || is_end code) [
      | true ↦ elim s.backtrack [
        | true ↦ rewind (add_indep s) >>= λ s'. pure (more s')
        | false ↦ next code (add_indep s)
      ]
      | false ↦ elim (s.reader.current.out_bytes == 0) [
        | true ↦ rewind s >>= λ s'. pure (more s')
        | false ↦ next code (record s { backtrack = true })
      ]
    ]
  ]

  -- Far enough behind the last block, one with a dictionary is added. The comparison is of signed
  -- numbers.
  unfoldable pub add_with_dict : Search lib.Stream → Io (Search lib.Stream)
  unfolding ipos copy_window
  add_with_dict s =
      if ltb min_block (opos s.reader.current - s.last_idx)
      then (ipos lib os s.reader.current >>= λ p. pure (record s {
        blocks =
            add_block
              (record {
                uoff = opos s.reader.current;
                coff = p;
                bits = ibits lib s.reader.current;
                dict = copy_window lib s.reader.current;
              })
              s.blocks;
        last_idx = opos s.reader.current;
      }))
      else pure s

  -- The data could not be decoded.
  unfoldable pub failed : Search lib.Stream → Io (Round lib.Stream)
  unfolding rewind add_with_dict
  failed s = elim s.indep [
    | false ↦ throw format
    | true ↦ rewind s >>= λ s'. add_with_dict s' >>= λ s''. pure (more s'')
  ]

  -- A round of the loop.
  unfoldable pub round : ℕ → Search lib.Stream → Io (Round lib.Stream)
  unfolding block decoded failed
  round fuel s h = elim (block lib os fuel s.reader.current h) [
    | err x ↦ err x
    | ok ((code, r), h') ↦
        let s' = record s { reader = record s.reader { current = r } } in
        elim code [
          | z_ok ↦ decoded z_ok s' h'
          | z_stream_end ↦ decoded z_stream_end s' h'
          | z_error ↦ failed s' h'
        ]
  ]

  unfoldable pub rounds : ℕ → Search lib.Stream → Io (List Block)
  unfolding round ipos set_last_size
  rounds zero s h = err fault
  rounds (suc fuel) s h = elim (round (suc fuel) s h) [
    | err x ↦ err x
    | ok (more s', h') ↦ rounds fuel s' h'
    | ok (over s', h') ↦
        (ipos lib os s'.reader.current >>= λ p.
        pure (set_last_size (opos s'.reader.current) p s'.blocks))
          h'
  ]

  -- `GzipFile::buildIndex`. How many rounds there are is zlib's choice.
  unfoldable pub build_index : ℕ → Io (List Block)
  unfolding rounds seek
  build_index fuel = seek os (pos 0) seek_set >> rounds fuel started
