-- ===== src/Bzip2/Scan.antt =====
-- Bzip2File.cc: `checkFileType`, and `findBlockBoundaryCandidates` over the chunks of a file. The first byte of a chunk
-- is examined with the byte of memory before the buffer, which the language does not define: `stray`
-- yields it, from the position up to which the file was read.
use lzopfs.Base.{
  ℕ, zero, suc, ◌-◌, List, [], ◌∷◌, ◌++◌, none, some, true, false, if◌then◌else◌, ltb, leb, ◌==◌,
  sub64, add64, length, drop, take, not, equal, ◌||◌, ◌%◌,
}
use lzopfs.Blocks.{Buffer, fault, format}
use lzopfs.Handle.{
  Endian, throw_if, eof_to_format, negsuc, seek_cur, read, read_be, Posix, Io, ◌>>=◌, ◌>>◌, pure,
  throw, pos, seek_set, try_read, seek, size,
}
use lzopfs.Bzip2.Magic.{examine, number, eos_magic, block_magic, bzip2_magic, mod48}

-- `BlockBoundary`
pub record Boundary : Type 0 where
  pub magic : ℕ
  pub level : ℕ
  pub coff : ℕ
  pub bits : ℕ

-- The variables of the scan: how many bytes are left until a level, the level, and what was found.
pub record Scan : Type 0 where
  pub lcount : ℕ
  pub level : ℕ
  pub found : List Boundary

abbrev pub chunk_size : ℕ
chunk_size = 4096

-- `if (lcount && !--lcount) level = *i;`
abbrev pub count_down : ℕ → Scan → Scan
count_down c s =
    if s.lcount == 0
    then s
    else record s { lcount = s.lcount - 1; level = if s.lcount == 1 then c else s.level }

-- The boundary at a position; the end of a stream starts the count to the next level.
abbrev pub push_found : ℕ → ℕ → ℕ → Scan → Scan
push_found magic bits coff s = record s {
  lcount = if magic == eos_magic then 13 else s.lcount;
  found = s.found ++ record { magic = magic; level = s.level; coff = coff; bits = bits } ∷ [];
}

-- The body of the loop over a chunk, at a byte `c` behind `u`, with the number of the eight bytes
-- from `c` on.
unfoldable pub scan_byte : ℕ → ℕ → ℕ → ℕ → Scan → Scan
unfolding examine
scan_byte u c w coff s = elim (examine u c w) [
  | none ↦ count_down c s
  | some (magic, bits) ↦ push_found magic bits coff (count_down c s)
]

-- The loop over a chunk: it goes on while more than eight bytes are left.
unfoldable pub scan_bytes : ℕ → Buffer → ℕ → Scan → Scan
unfolding scan_byte number
scan_bytes u [] coff s = s
scan_bytes u (c ∷ bs) coff s = elim (leb 8 (length bs)) [
  | false ↦ s
  | true ↦ scan_bytes c bs (suc coff) (scan_byte u c (number 0 (take 8 (c ∷ bs))) coff s)
]

module _ (os : Posix) (stray : ℕ → ℕ) where
  -- The loop over the chunks. The last nine bytes of a chunk are kept; a chunk of fewer is a fault.
  -- Each round reads at least one byte, so the size of the file is fuel enough.
  unfoldable pub scan_chunks : ℕ → ℕ → ℕ → Buffer → Scan → Io (List Boundary)
  unfolding scan_bytes try_read
  scan_chunks zero file_size rpos buf s = throw fault
  scan_chunks (suc fuel) file_size rpos buf s =
      let s' = scan_bytes (stray rpos) buf (sub64 rpos (length buf)) s in
      elim (file_size == rpos) [
        | true ↦ pure s'.found
        | false ↦ elim (ltb (length buf) 9) [
          | true ↦ throw fault
          | false ↦ try_read os (chunk_size - 9) >>= λ r.
              scan_chunks fuel file_size (add64 rpos (length r)) (drop (length buf - 9) buf ++ r) s'
        ]
      ]

  unfoldable pub find_candidates : Io (List Boundary)
  unfolding scan_chunks
  find_candidates = do
    file_size ← size os
    seek os (pos 0) seek_set
    buf ← try_read os chunk_size
    scan_chunks (suc file_size) file_size (length buf) buf
        (record { lcount = 4; level = 0; found = [] })

module _ (os : Posix) (e : Endian) where
  -- `Bzip2File::checkFileType`
  unfoldable pub check_file_type : Io (Unit {0})
  unfolding read read_be seek
  check_file_type = eof_to_format (do
    buf ← read os 3
    throw_if (not (equal buf bzip2_magic)) format
    level ← read_be os e 1
    throw_if (ltb level 49 || ltb 57 level) format
    seek os (negsuc 1) seek_cur
    bm ← read_be os e 8
    throw_if (not (bm % mod48 == block_magic)) format)
