-- ===== src/Zstd/Table.antt =====
-- ZstdFile.cc: the seek table of a well-formed file is found and read.
use mathlib.Core.List.{append_assoc, append-nil}
use lzopfs.Base.{
  ℕ, ◌+◌, ◌<◌, ◌≡◌, refl, ap, sym, ◌∙◌, List, [], ◌∷◌, ◌++◌, length, arith, mod32, add64, sub64,
  length-append, true, false, Bool,
}
use lzopfs.Blocks.{Block, Buffer, plain, ok}
use lzopfs.Handle.{Posix, Handle, Endian, to_le, pos}
use lzopfs.Handle.Regular.{IsRegular, at, read_le_lem, seek_set_lem, seek_end_lem}
use lzopfs.Zstd.{
  SeekTable, magic_skippable, magic_seek_table, total_size, to_off, read_footer, check_frame,
  find_seek_table, read_entries, build_index,
}
use lzopfs.Zstd.Frames.{
  Frame, entry_bytes, entries_bytes, flags_of, footer_bytes, head_bytes, file_bytes, FramesFit,
  listed, length-entries_bytes, flag_lem, flags_of-lt, count_lt,
}

-- A file up to its table, and up to its footer.
abbrev pub before_table : Buffer → Bool → List Frame → Buffer
before_table frames sums fs = frames ++ head_bytes sums (length fs)

abbrev pub before_footer : Buffer → Bool → List Frame → Buffer
before_footer frames sums fs = before_table frames sums fs ++ entries_bytes sums fs

module _ (os : Posix) (regular : IsRegular os) (e : Endian) where
  read_entries_lem :
      (sums : Bool) (fs : List Frame) (uoff coff : ℕ) (blocks : List Block) (done rest : Buffer)
      → FramesFit fs
      → read_entries os e
          (length fs)
          sums
          uoff
          coff
          blocks
          (at done (entries_bytes sums fs ++ rest))
        ≡ ok (blocks ++ listed uoff coff fs, at (done ++ entries_bytes sums fs) rest)
  unfolding read_entries entries_bytes entry_bytes listed
  read_entries_lem sums [] uoff coff blocks done rest fits =
      ground (arith, append-nil blocks, append-nil done)
  read_entries_lem true (f ∷ fs) uoff coff blocks done rest (fit, fits) =
      let cs = to_le 4 f.csize in
      let us = to_le 4 f.usize in
      let ck = to_le 4 f.checksum in
      let more = entries_bytes true fs ++ rest in
      let b : Block = record {
        usize = f.usize;
        csize = f.csize;
        uoff = uoff;
        coff = coff;
        kind = plain;
      } in
      ground (
        arith,
        append_assoc (cs ++ (us ++ ck)) (entries_bytes true fs) rest,
        append_assoc cs (us ++ ck) more,
        append_assoc us ck more,
        read_le_lem os regular e done (us ++ (ck ++ more)) 3 f.csize fit.csize,
        read_le_lem os regular e (done ++ cs) (ck ++ more) 3 f.usize fit.usize,
        read_le_lem os regular e ((done ++ cs) ++ us) more 3 f.checksum fit.checksum,
        read_entries_lem true fs (add64 uoff f.usize) (add64 coff f.csize) (blocks ++ b ∷ [])
            (((done ++ cs) ++ us) ++ ck) rest fits,
        append_assoc blocks (b ∷ []) (listed (add64 uoff f.usize) (add64 coff f.csize) fs),
        append_assoc (done ++ cs) us ck,
        append_assoc done cs (us ++ ck),
        append_assoc done (cs ++ (us ++ ck)) (entries_bytes true fs),
      )
  read_entries_lem false (f ∷ fs) uoff coff blocks done rest (fit, fits) =
      let cs = to_le 4 f.csize in
      let us = to_le 4 f.usize in
      let more = entries_bytes false fs ++ rest in
      let b : Block = record {
        usize = f.usize;
        csize = f.csize;
        uoff = uoff;
        coff = coff;
        kind = plain;
      } in
      ground (
        arith,
        append_assoc (cs ++ (us ++ [])) (entries_bytes false fs) rest,
        append_assoc cs (us ++ []) more,
        append-nil us,
        read_le_lem os regular e done (us ++ more) 3 f.csize fit.csize,
        read_le_lem os regular e (done ++ cs) more 3 f.usize fit.usize,
        read_entries_lem false fs (add64 uoff f.usize) (add64 coff f.csize) (blocks ++ b ∷ [])
            ((done ++ cs) ++ us) rest fits,
        append_assoc blocks (b ∷ []) (listed (add64 uoff f.usize) (add64 coff f.csize) fs),
        append_assoc done cs us,
        append_assoc done (cs ++ us) (entries_bytes false fs),
      )

  module _ (frames : Buffer) (sums : Bool) (fs : List Frame) (fits : FramesFit fs)
      (few : total_size sums (length fs) + 9 < mod32)
      (short : length (file_bytes frames sums fs) < 9223372036854775808) where
    abbrev table : SeekTable
    table = record {
      start = length (before_table frames sums fs);
      has_checksums = sums;
      count = length fs;
    }

    split_at_footer :
        file_bytes frames sums fs ≡ (before_footer frames sums fs) ++ footer_bytes sums (length fs)
    split_at_footer = ground (
      arith,
      append_assoc (before_table frames sums fs) (entries_bytes sums fs)
          (footer_bytes sums (length fs)),
      append_assoc frames (head_bytes sums (length fs))
          (entries_bytes sums fs ++ footer_bytes sums (length fs)),
    )

    split_at_table :
        file_bytes frames sums fs
        ≡ (before_table frames sums fs) ++ (entries_bytes sums fs ++ footer_bytes sums (length fs))
    split_at_table = sym (
        append_assoc frames (head_bytes sums (length fs))
          (entries_bytes sums fs ++ footer_bytes sums (length fs)))

    length-footer_bytes : length (footer_bytes sums (length fs)) ≡ 9
    unfolding to_le
    length-footer_bytes = refl

    length-before_footer :
        length (before_footer frames sums fs)
        ≡ length (before_table frames sums fs) + total_size sums (length fs)
    length-before_footer =
        length-append (before_table frames sums fs) (entries_bytes sums fs)
        ∙ ap (λ n. length (before_table frames sums fs) + n) (length-entries_bytes sums fs)

    within : length (before_footer frames sums fs) < 9223372036854775808
    within = omega (
      arith,
      short,
      ap length split_at_footer,
      length-append (before_footer frames sums fs) (footer_bytes sums (length fs)),
    )

    start_lem :
        sub64 (length (before_footer frames sums fs)) (total_size sums (length fs))
        ≡ length (before_table frames sums fs)
    start_lem = ground (arith, length-before_footer, within)

    -- The footer tells where the table begins.
    read_footer_lem :
        (h : Handle)
        → h.contents ≡ file_bytes frames sums fs
        → read_footer os e h ≡ ok (table, at (file_bytes frames sums fs) [])
    unfolding read_footer
    read_footer_lem h same =
        let c = to_le 4 (length fs) in
        let fl = to_le 1 (flags_of sums) in
        let mg = to_le 4 magic_seek_table in
        let back =
          seek_end_lem os regular (before_footer frames sums fs) (footer_bytes sums (length fs)) 8 h
            (same ∙ split_at_footer) length-footer_bytes in
        let whole : (((before_footer frames sums fs) ++ c) ++ fl) ++ mg
            ≡ file_bytes frames sums fs =
          append_assoc ((before_footer frames sums fs) ++ c) fl mg
          ∙ append_assoc (before_footer frames sums fs) c (fl ++ mg)
          ∙ sym split_at_footer in
        ground (
          arith,
          back,
          read_le_lem os regular e (before_footer frames sums fs) (fl ++ mg) 3 (length fs)
              (count_lt sums (length fs) few),
          read_le_lem os regular e ((before_footer frames sums fs) ++ c) mg 0 (flags_of sums)
              (flags_of-lt sums),
          read_le_lem os regular e (((before_footer frames sums fs) ++ c) ++ fl) [] 3
              magic_seek_table (omega arith),
          append-nil mg,
          flag_lem sums,
          start_lem,
          whole,
        )

    length-before_table : length (before_table frames sums fs) ≡ length frames + 8
    unfolding to_le
    length-before_table = length-append frames (head_bytes sums (length fs))

    off_frames : to_off (sub64 (length (before_table frames sums fs)) 8) ≡ pos (length frames)
    off_frames = ground (arith, length-before_table, length-before_footer, within)

    off_table :
        to_off (length (before_table frames sums fs)) ≡ pos (length (before_table frames sums fs))
    off_table = ground (arith, length-before_footer, within)

    check_frame_lem :
        (h : Handle)
        → h.contents ≡ file_bytes frames sums fs
        → check_frame os e table h
          ≡ ok (
            tt,
            at
                (before_table frames sums fs)
                (entries_bytes sums fs ++ footer_bytes sums (length fs)),
          )
    unfolding check_frame
    check_frame_lem h same =
        let table_bytes = entries_bytes sums fs ++ footer_bytes sums (length fs) in
        let ms = to_le 4 magic_skippable in
        let sz = to_le 4 (total_size sums (length fs) + 9) in
        ground (
          arith,
          off_frames,
          seek_set_lem os regular frames ((ms ++ sz) ++ table_bytes) h same,
          append_assoc ms sz table_bytes,
          read_le_lem os regular e frames (sz ++ table_bytes) 3 magic_skippable (omega arith),
          read_le_lem os regular e (frames ++ ms) table_bytes 3 (total_size sums (length fs) + 9)
              few,
          append_assoc frames ms sz,
        )

    pub find_seek_table_lem :
        (h : Handle)
        → h.contents ≡ file_bytes frames sums fs
        → find_seek_table os e h
          ≡ ok (
            table,
            at
                (before_table frames sums fs)
                (entries_bytes sums fs ++ footer_bytes sums (length fs)),
          )
    unfolding find_seek_table
    find_seek_table_lem h same = ground (
      arith,
      read_footer_lem h same,
      check_frame_lem (at (file_bytes frames sums fs) []) (append-nil (file_bytes frames sums fs)),
    )

    -- On a regular file shorter than 2^63 that ends in a seek table, with or without checksums,
    -- whose numbers fit their fields, buildIndex finds the table from the end of the file and yields
    -- one block for each entry, with the positions summed up from 0.
    pub build_index_lem :
        (h : Handle)
        → h.contents ≡ file_bytes frames sums fs
        → build_index os e h
          ≡ ok (listed 0 0 fs, at (before_footer frames sums fs) (footer_bytes sums (length fs)))
    unfolding build_index
    build_index_lem h same =
        let footer = footer_bytes sums (length fs) in
        let here = at (before_table frames sums fs) (entries_bytes sums fs ++ footer) in
        ground (
          arith,
          find_seek_table_lem h same,
          off_table,
          seek_set_lem os regular (before_table frames sums fs) (entries_bytes sums fs ++ footer)
              here refl,
          read_entries_lem sums fs 0 0 [] (before_table frames sums fs) footer fits,
        )
