-- ===== src/Handle/Regular.antt =====
-- FileHandle.cc: reads and writes on a regular file, where the calls of the system transfer all that
-- there is.
use mathlib.Core.List.{reverse, reverse-reverse, append_assoc, append-nil, reverse-cons}
use lzopfs.Base.{
  ℕ, suc, ◌+◌, ◌-◌, ◌<◌, ◌≡◌, refl, ap, sym, ◌∙◌, [], ◌∷◌, ◌++◌, length, arith, Option, none, some,
  take, drop, length-append, length-take, length-drop, ◌≤◌, if◌then◌else◌, leb,
}
use native.Mathlib.Nat.{zero-add, add-zero}
use lzopfs.Blocks.{Buffer, ok, err, eof}
use lzopfs.Handle.{
  Posix, Handle, ℤ, pos, negsuc, Whence, seek_set, seek_cur, seek_end, Endian, from_le, to_le, read,
  read_be, write, write_be, try_read, load, convert_be, convert_le, read_le, seek, tell, try_pread,
}
use lzopfs.Handle.Order.{
  values, length-to_le, from_le-to_le, load-convert_be, load-convert_le, convert_be-store,
}

-- Where `lseek` goes; a place before the start of the file is an error.
unfoldable pub target : ℕ → ℕ → ℤ → Whence → Option ℕ
target size position offset whence =
    from (elim whence [ seek_set ↦ 0 | seek_cur ↦ position | seek_end ↦ size ]) offset
  where
    from : ℕ → ℤ → Option ℕ
    from base (pos n) = some (base + n)
    from base (negsuc n) = if leb (suc n) base then some (base - suc n) else none

-- What POSIX says of regular files, with no signal and no error of the device.
pub record IsRegular (os : Posix) : Type 0 where
  pub reads : (c : Buffer) (p n : ℕ) → os.sys_read c p n ≡ some (take n (drop p c))
  pub preads : (c : Buffer) (p n : ℕ) → os.sys_pread c p n ≡ some (take n (drop p c))
  pub writes : (c d : Buffer) → os.sys_write c (length c) d ≡ some (length d, c ++ d)
  pub seeks :
      (c : Buffer) (p : ℕ) (o : ℤ) (w : Whence) → os.sys_lseek c p o w ≡ target (length c) p o w

-- A file that is read up to the end of `done`.
abbrev pub at : Buffer → Buffer → Handle
at done rest = record { contents = done ++ rest; position = length done }

pub drop-length : (xs ys : Buffer) → drop (length xs) (xs ++ ys) ≡ ys
drop-length [] ys = refl
drop-length (x ∷ xs) ys = drop-length xs ys

take-length : (xs ys : Buffer) → take (length xs) (xs ++ ys) ≡ xs
take-length [] ys = refl
take-length (x ∷ xs) ys = ap (◌∷◌ x) (take-length xs ys)

pub length-reverse : (xs : Buffer) → length (reverse xs) ≡ length xs
length-reverse [] = refl
length-reverse (x ∷ xs) =
    omega
      (arith, ap length (reverse-cons x xs), length-append (reverse xs) (x ∷ []), length-reverse xs)

module _ (os : Posix) (regular : IsRegular os) where
  sys_read_at :
      (done rest : Buffer) (n : ℕ) → os.sys_read (done ++ rest) (length done) n ≡ some (take n rest)
  sys_read_at done rest n =
      regular.reads (done ++ rest) (length done) n ∙ rw (drop-length done rest)

  try_read_lem :
      (done d rest : Buffer) (n : ℕ)
      → length d ≡ suc n
      → try_read os (suc n) (at done (d ++ rest)) ≡ ok (d, at (done ++ d) rest)
  unfolding try_read
  try_read_lem done d rest n h =
      let taken : take (suc n) (d ++ rest) ≡ d = rw (← h) (take-length d rest) in
      let grown : length done + length d ≡ length (done ++ d) = sym (length-append done d) in
      ground (arith, sys_read_at done (d ++ rest) (suc n), taken, grown, append_assoc done d rest)

  -- A read of what is there takes it and moves on.
  pub read_lem :
      (done d rest : Buffer) (n : ℕ)
      → length d ≡ suc n
      → read os (suc n) (at done (d ++ rest)) ≡ ok (d, at (done ++ d) rest)
  unfolding read
  read_lem done d rest n h = ground (arith, try_read_lem done d rest n h)

  -- A read of more than there is fails.
  pub read_eof : (done rest : Buffer) (n : ℕ) → length rest < n → read os n (at done rest) ≡ err eof
  unfolding read try_read
  read_eof done rest n h = ground (arith, sys_read_at done rest n, length-take n rest)

  pub write_lem : (done d : Buffer) → write os d (at done []) ≡ ok (tt, at (done ++ d) [])
  unfolding write
  write_lem done d =
      let whole : done ++ [] ≡ done = append-nil done in
      let grown : length done + length d ≡ length (done ++ d) = sym (length-append done d) in
      let full : (done ++ d) ++ [] ≡ done ++ d = append-nil (done ++ d) in
      ground (arith, whole, regular.writes done d, grown, full)

  module _ (e : Endian) where
    -- On a regular file, a number that fits into its n + 1 bytes and stands there with the highest
    -- byte first is read by readBE on a machine of either byte order, and the position moves behind
    -- it.
    pub read_be_lem :
        (done rest : Buffer) (n v : ℕ)
        → v < values (suc n)
        → read_be os e (suc n) (at done (reverse (to_le (suc n) v) ++ rest))
          ≡ ok (v, at (done ++ reverse (to_le (suc n) v)) rest)
    unfolding read_be
    read_be_lem done rest n v h =
        let d = reverse (to_le (suc n) v) in
        let size : length d ≡ suc n = length-reverse (to_le (suc n) v) ∙ length-to_le (suc n) v in
        let value : load e (convert_be e d) ≡ v =
          load-convert_be e d
          ∙ ap from_le (reverse-reverse (to_le (suc n) v))
          ∙ from_le-to_le (suc n) v h in
        ground (arith, read_lem done d rest n size, value)

    -- On a regular file, readBE of more bytes than are left is the end-of-file error.
    pub read_be_eof :
        (done rest : Buffer) (n : ℕ) → length rest < n → read_be os e n (at done rest) ≡ err eof
    unfolding read_be
    read_be_eof done rest n h = ground (arith, read_eof done rest n h)

    pub write_be_lem :
        (done : Buffer) (n v : ℕ)
        → write_be os e n v (at done []) ≡ ok (tt, at (done ++ reverse (to_le n v)) [])
    unfolding write_be
    write_be_lem done n v = rw (convert_be-store e n v) (write_lem done (reverse (to_le n v)))

  pub tell_lem : (h : Handle) → tell os h ≡ ok (h.position, h)
  unfolding tell seek target
  tell_lem h =
      ground (arith, regular.seeks h.contents h.position (pos 0) seek_cur, add-zero h.position)

  pub seek_to :
      (p : ℕ) (h : Handle) → seek os (pos p) seek_set h ≡ ok (p, record h { position = p })
  unfolding seek target
  seek_to p h = ground (arith, regular.seeks h.contents h.position (pos p) seek_set, zero-add p)

  -- A read of bytes that are all there.
  pub read_chunk :
      (n : ℕ) (h : Handle)
      → 0 < n
      → h.position + n ≤ length h.contents
      → read os n h
        ≡ ok (take n (drop h.position h.contents), record h { position = h.position + n })
  unfolding read try_read
  read_chunk n h some_bytes inside =
      let size : length (take n (drop h.position h.contents)) ≡ n =
        omega
          (arith, length-take n (drop h.position h.contents), length-drop h.position h.contents) in
      ground (arith, regular.reads h.contents h.position n, size)

  -- A read at a place, of bytes that are all there.
  pub pread_bytes :
      (off n : ℕ) (h : Handle)
      → 0 < n
      → off + n ≤ length h.contents
      → (bytes : Buffer) × (try_pread os off n h ≡ ok (bytes, h)) × (length bytes ≡ n)
  unfolding try_pread
  pread_bytes off n h some_bytes inside =
      let size : length (take n (drop off h.contents)) ≡ n =
        omega (arith, length-take n (drop off h.contents), length-drop off h.contents) in
      (take n (drop off h.contents), ground (arith, regular.preads h.contents off n, size), size)

  -- A seek to a place of the file.
  pub seek_set_lem :
      (done rest : Buffer) (h : Handle)
      → h.contents ≡ done ++ rest
      → seek os (pos (length done)) seek_set h ≡ ok (length done, at done rest)
  unfolding seek target
  seek_set_lem done rest h e =
      let there = regular.seeks h.contents h.position (pos (length done)) seek_set in
      ground (arith, there, e, zero-add (length done))

  -- A seek back from the end.
  pub seek_end_lem :
      (done rest : Buffer) (n : ℕ) (h : Handle)
      → h.contents ≡ done ++ rest
      → length rest ≡ suc n
      → seek os (negsuc n) seek_end h ≡ ok (length done, at done rest)
  unfolding seek target
  seek_end_lem done rest n h e size =
      let there = regular.seeks h.contents h.position (negsuc n) seek_end in
      let whole : length h.contents ≡ length done + suc n =
        ap length e ∙ length-append done rest ∙ ap (λ x. length done + x) size in
      ground (arith, there, e, whole)

  module _ (e : Endian) where
    pub read_le_lem :
        (done rest : Buffer) (n v : ℕ)
        → v < values (suc n)
        → read_le os e (suc n) (at done (to_le (suc n) v ++ rest))
          ≡ ok (v, at (done ++ to_le (suc n) v) rest)
    unfolding read_le
    read_le_lem done rest n v h =
        let d = to_le (suc n) v in
        let size : length d ≡ suc n = length-to_le (suc n) v in
        let value : load e (convert_le e d) ≡ v = load-convert_le e d ∙ from_le-to_le (suc n) v h in
        ground (arith, read_lem done d rest n size, value)
