-- ===== src/Zstd/Opening.antt =====
-- ZstdFile.cc and CompressedFile.cc: a file of zstd is opened.
use lzopfs.Base.{
  ℕ, ◌+◌, ◌<◌, ◌≡◌, ap, sym, subst, List, [], ◌∷◌, ◌++◌, Bool, length, arith, mod32, mod64, add64,
  dec_lt, true, ◌⊎◌, inl, inr, ◌↔◌,
}
use mathlib.Core.List.{append_assoc}
use lzopfs.Blocks.{Buffer, ok, warns, check_sizes}
use lzopfs.Blocks.Tiles.{Tiles, end_from}
use lzopfs.Blocks.Search.{check_sizes-Tiles}
use lzopfs.Handle.{Posix, Handle, Endian, to_le}
use lzopfs.Handle.Regular.{IsRegular, at, read_le_lem}
use lzopfs.Index.{initialize}
use lzopfs.Zstd.{check_file_type, build_index, total_size}
use lzopfs.Zstd.Frames.{
  Frame, FramesFit, NoneEmpty, file_bytes, head_bytes, entries_bytes, footer_bytes, listed,
  listed-Tiles, total_frames,
}
use lzopfs.Zstd.Table.{before_table, find_seek_table_lem, build_index_lem}

-- One of the frames is larger than a limit.
abbrev pub SomeLarger : ℕ → List Frame → Type 0
SomeLarger limit [] = ⊥
SomeLarger limit (f ∷ fs) = (limit < f.usize) ⊎ SomeLarger limit fs

-- There is a warning exactly where one of the frames is larger than the limit.
warns_iff :
    (limit uoff coff : ℕ) (fs : List Frame)
    → (warns limit (listed uoff coff fs) ≡ true) ↔ SomeLarger limit fs
unfolding warns listed
warns_iff limit uoff coff [] = (λ h. absurd (ground (arith, h)), λ h. absurd h)
warns_iff limit uoff coff (f ∷ fs) =
    let (to, from) = warns_iff limit (add64 uoff f.usize) (add64 coff f.csize) fs in
    elim (dec_lt limit f.usize) [
      | yes p ↦ (λ h. inl p, λ h. ground (arith, p))
      | no q ↦ (
        λ h. inr (to (ground (arith, q, h))),
        λ h. elim h [ inl p ↦ absurd (q p) | inr r ↦ let e = from r in ground (arith, q, e) ],
      )
    ]

listed-checked :
    (max_block uoff coff : ℕ) (f : Frame) (fs : List Frame)
    → Tiles 0 (listed uoff coff (f ∷ fs))
    → end_from 0 (listed uoff coff (f ∷ fs)) < mod64
    → check_sizes max_block (listed uoff coff (f ∷ fs))
      ≡ ok (warns max_block (listed uoff coff (f ∷ fs)))
unfolding listed
listed-checked max_block uoff coff f fs tiles room =
    check_sizes-Tiles max_block _ (listed (add64 uoff f.usize) (add64 coff f.csize) fs) tiles room

module _ (os : Posix) (regular : IsRegular os) (e : Endian) (magic : ℕ) (body : Buffer)
    (sums : Bool) (f : Frame) (fs : List Frame) (fits : FramesFit (f ∷ fs))
    (few : total_size sums (length (f ∷ fs)) + 9 < mod32)
    (short : length (file_bytes (to_le 4 magic ++ body) sums (f ∷ fs)) < 9223372036854775808) where
  -- The compressed data, which begin with the magic number, and the file with its table.
  abbrev data_bytes : Buffer
  data_bytes = to_le 4 magic ++ body

  abbrev file : Buffer
  file = file_bytes data_bytes sums (f ∷ fs)

  abbrev rest : Buffer
  rest =
      body
      ++ (head_bytes sums (length (f ∷ fs))
          ++ (entries_bytes sums (f ∷ fs) ++ footer_bytes sums (length (f ∷ fs))))

  file_split : to_le 4 magic ++ rest ≡ file
  file_split = sym (
      append_assoc (to_le 4 magic) body (
        head_bytes sums (length (f ∷ fs))
        ++ (entries_bytes sums (f ∷ fs) ++ footer_bytes sums (length (f ∷ fs)))))

  -- The file type is found, and the contents stay.
  check_file_type_lem :
      magic < mod32
      → (h : Handle) × (check_file_type os e magic (at [] file) ≡ ok (tt, h)) × (h.contents ≡ file)
  unfolding check_file_type
  check_file_type_lem small =
      let found =
        find_seek_table_lem os regular e data_bytes sums (f ∷ fs) fits few short
          (at (to_le 4 magic) rest) file_split in
      let got = read_le_lem os regular e [] rest 3 magic small in
      let start : at [] (to_le 4 magic ++ rest) ≡ at [] file = ap (at []) file_split in
      let ran : check_file_type os e magic (at [] (to_le 4 magic ++ rest))
          ≡ ok (
            tt,
            at (before_table data_bytes sums (f ∷ fs))
                (entries_bytes sums (f ∷ fs) ++ footer_bytes sums (length (f ∷ fs))),
          ) =
        ground (arith, got, found) in
      (
        _,
        subst
            (λ h.
              check_file_type os e magic h
              ≡ ok (
                tt,
                at (before_table data_bytes sums (f ∷ fs))
                    (entries_bytes sums (f ∷ fs) ++ footer_bytes sums (length (f ∷ fs))),
              ))
            start ran,
        append_assoc data_bytes (head_bytes sums (length (f ∷ fs)))
            (entries_bytes sums (f ∷ fs) ++ footer_bytes sums (length (f ∷ fs))),
      )

  -- A regular file shorter than 2^63 that begins with the magic number of zstd and ends in a seek
  -- table of at least one entry, whose numbers fit their fields, with no empty frame and all frames
  -- together below 2^64 bytes, passes the test of its type, its index is built and its sizes are
  -- checked: the file has one block for each entry, these follow each other without gaps from 0 to
  -- the sum of the sizes, and there is a warning exactly where one of them is larger than the
  -- limit.
  pub initialize_lem :
      (max_block : ℕ)
      → magic < mod32
      → NoneEmpty (f ∷ fs)
      → total_frames (f ∷ fs) < mod64
      → (warned : Bool) × (initialize
            (check_file_type os e magic)
            (build_index os e)
            max_block
            (at [] file)
          ≡ ok (listed 0 0 (f ∷ fs), warned))
        × ((warned ≡ true) ↔ SomeLarger max_block (f ∷ fs))
        × Tiles 0 (listed 0 0 (f ∷ fs))
        × (end_from 0 (listed 0 0 (f ∷ fs)) ≡ total_frames (f ∷ fs))
  unfolding initialize
  initialize_lem max_block small full room =
      let (h, checked, same) = check_file_type_lem small in
      let (tiles, ends) = listed-Tiles 0 0 (f ∷ fs) full (omega arith) in
      let built = build_index_lem os regular e data_bytes sums (f ∷ fs) fits few short h same in
      let ends' : end_from 0 (listed 0 0 (f ∷ fs)) ≡ total_frames (f ∷ fs) = omega (arith, ends) in
      let sizes = listed-checked max_block 0 0 f fs tiles (rw ends' room) in
      (
        warns max_block (listed 0 0 (f ∷ fs)),
        ground (arith, checked, built, sizes),
        warns_iff max_block 0 0 (f ∷ fs),
        tiles,
        ends',
      )
