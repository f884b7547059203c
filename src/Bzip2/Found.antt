-- ===== src/Bzip2/Found.antt =====
-- Bzip2File.cc: what `findBlockBoundaryCandidates` finds in a whole file.
use lzopfs.Base.{
  ℕ, suc, ◌+◌, ◌*◌, ◌≤◌, ◌<◌, ◌≡◌, refl, ap, sym, ◌∙◌, List, [], ◌∷◌, ◌++◌, some, length,
  length-append, length-take, length-drop, take, drop, take-append-drop, arith, inl, inr, mod64,
  ◌⊎◌, subst, dec_le,
}
use lzopfs.Blocks.{Buffer, ok}
use lzopfs.Handle.{Posix, Io, Handle, pos, seek, try_read, size, ◌>>=◌, ◌>>◌, seek_set}
use lzopfs.Handle.Regular.{IsRegular, at, seek_to}
use lzopfs.Bzip2.Magic.{examine, number}
use lzopfs.Bzip2.Scan.{Boundary, chunk_size, scan_chunks, find_candidates}
use lzopfs.Bzip2.Listed.{Listed}
use lzopfs.Bzip2.Places.{Place, Hit, Complete, length-nil}
use lzopfs.Bzip2.Chunks.{size_lem, try_read-some, scan_chunks_lem}
use lzopfs.Bzip2.Table.{bits_before, IsMagic, examine_iff}

bind-ok :
    {A B : Type 0} (m : Io A) (f : A → Io B) (h : Handle) {a : A} {h' : Handle}
    → m h ≡ ok (a, h')
    → (m >>= f) h ≡ f a h'
bind-ok m f h e = rw (e, ◌>>=◌) refl

then-ok :
    {A B : Type 0} (m : Io A) (k : Io B) (h : Handle) {a : A} {h' : Handle}
    → m h ≡ ok (a, h')
    → (m >> k) h ≡ k h'
then-ok m k h e = bind-ok m (λ _. k) h e

module _ (os : Posix) (regular : IsRegular os) (stray : ℕ → ℕ) where
  abbrev scan_with : ℕ → Buffer → Io (List Boundary)
  scan_with n buf =
      scan_chunks os stray (suc n) n (length buf) buf (record { lcount = 4; level = 0; found = [] })

  abbrev scan_read : ℕ → Io (List Boundary)
  scan_read n = try_read os chunk_size >>= scan_with n

  find_candidates-start :
      (h h₁ h₂ : Handle) (n p : ℕ) (buf : Buffer)
      → size os h ≡ ok (n, h)
      → seek os (pos 0) seek_set h ≡ ok (p, h₁)
      → try_read os chunk_size h₁ ≡ ok (buf, h₂)
      → find_candidates os stray h ≡ scan_with n buf h₂
  unfolding find_candidates
  find_candidates-start h h₁ h₂ n p buf a b c =
      bind-ok (size os) (λ n. seek os (pos 0) seek_set >> scan_read n) h a
      ∙ then-ok (seek os (pos 0) seek_set) (scan_read n) h b
      ∙ bind-ok (try_read os chunk_size) (scan_with n) h₁ c

  find_candidates-Complete :
      (h : Handle)
      → 0 < length h.contents
      → length h.contents < mod64
      → (js : List Boundary) × (h' : Handle) × (find_candidates os stray h ≡ ok (js, h'))
        × Complete h.contents 0 js
  find_candidates-Complete h some_bytes limit =
      let c = h.contents in
      let buf = take chunk_size c in
      let rest = drop chunk_size c in
      let whole : buf ++ rest ≡ c = take-append-drop chunk_size c in
      let room : (9 ≤ length buf) ⊎ (rest ≡ []) = elim (dec_le 9 (length c)) [
        | yes le ↦ inl (omega (arith, le, length-take chunk_size c))
        | no small ↦ inr (length-nil rest (omega (arith, small, length-drop chunk_size c)))
      ] in
      let (js, h', run, grows, complete) =
        scan_chunks_lem os regular stray (suc (length c)) [] buf rest
          (record { lcount = 4; level = 0; found = [] }) (omega (arith, length-drop chunk_size c))
          (rw (ap length whole) limit) room in
      let start =
        find_candidates-start h (at [] c) (at buf rest) (length c) 0 buf
          (size_lem os regular stray h) (seek_to os regular 0 h)
          (try_read-some os regular stray [] c chunk_size (omega arith) some_bytes) in
      (js, h', start ∙ rw (ap length whole) at run, subst (λ c. Complete c 0 js) whole complete)

-- Every element is a byte.
abbrev pub IsBytes : Buffer → Type 0
IsBytes [] = Unit
IsBytes (b ∷ bs) = (b < 256) × IsBytes bs

IsBytes-append : (xs ys : Buffer) → IsBytes (xs ++ ys) → IsBytes ys
IsBytes-append [] ys h = h
IsBytes-append (x ∷ xs) ys h = IsBytes-append xs ys h.1

-- The number of eight bytes is the first one and a number of 56 bits.
number-eight :
    (c : ℕ) (bs : Buffer)
    → IsBytes bs
    → 8 ≤ length bs
    → (r : ℕ) × (r < 72057594037927936) × (number 0 (take 8 (c ∷ bs)) ≡ c * 72057594037927936 + r)
unfolding number
number-eight c (b₁ ∷ b₂ ∷ b₃ ∷ b₄ ∷ b₅ ∷ b₆ ∷ b₇ ∷ bs) (h₁, (h₂, (h₃, (h₄, (h₅, (h₆, (h₇, h)))))))
      n =
    (
      (((((b₁ * 256 + b₂) * 256 + b₃) * 256 + b₄) * 256 + b₅) * 256 + b₆) * 256 + b₇,
      omega (arith, h₁, h₂, h₃, h₄, h₅, h₆, h₇),
      omega arith,
    )
number-eight c [] h n = absurd (omega (arith, n))
number-eight c (b₁ ∷ []) h n = absurd (omega (arith, n))
number-eight c (b₁ ∷ b₂ ∷ []) h n = absurd (omega (arith, n))
number-eight c (b₁ ∷ b₂ ∷ b₃ ∷ []) h n = absurd (omega (arith, n))
number-eight c (b₁ ∷ b₂ ∷ b₃ ∷ b₄ ∷ []) h n = absurd (omega (arith, n))
number-eight c (b₁ ∷ b₂ ∷ b₃ ∷ b₄ ∷ b₅ ∷ []) h n = absurd (omega (arith, n))
number-eight c (b₁ ∷ b₂ ∷ b₃ ∷ b₄ ∷ b₅ ∷ b₆ ∷ []) h n = absurd (omega (arith, n))

-- The 48 bits of the file that begin so many bits before the byte at a place.
abbrev pub bits_at : {contents : Buffer} → Place contents → ℕ → ℕ
bits_at p b = bits_before p.byte_before (number 0 (take 8 (p.byte ∷ p.behind))) b

-- A magic number at a place is found there by the table.
magic-Hit :
    {contents : Buffer} (p : Place contents) (b : ℕ)
    → IsBytes contents
    → b < 8
    → IsMagic (bits_at p b)
    → Hit contents p (bits_at p b) b
magic-Hit p b bytes small magic =
    let (hu, rest) =
      IsBytes-append p.ahead (p.byte_before ∷ p.byte ∷ p.behind) (subst IsBytes p.whole bytes) in
    let (r, hr, e) = number-eight p.byte p.behind rest.1 p.room in
    subst (λ w. examine p.byte_before p.byte w ≡ some (bits_before p.byte_before w b, b)) (sym e)
      ((examine_iff p.byte_before p.byte r hu rest.0 hr _ b).1
        (small, refl, subst (λ w. IsMagic (bits_before p.byte_before w b)) e magic))

-- On a regular system, for a file of less than 2^64 bytes in which 48 bits that begin fewer than
-- eight bits before a byte are the magic number of a block or of the end of a stream, with one byte
-- at least before that byte and eight behind it, findBlockBoundaryCandidates returns without an
-- error, wherever the chunks of 4096 bytes end, and its list has an entry with that magic number,
-- the place of that byte and the count of bits.
pub find_candidates_lem :
    (os : Posix)
    → IsRegular os
    → (stray : ℕ → ℕ) (h : Handle) → length h.contents < mod64
    → IsBytes h.contents
    → (p : Place h.contents) (b : ℕ) → b < 8
    → IsMagic (bits_at p b)
    → (js : List Boundary) × (h' : Handle) × (find_candidates os stray h ≡ ok (js, h'))
      × Listed js (suc (length p.ahead)) (bits_at p b) b
find_candidates_lem os regular stray h limit bytes p b small magic =
    let some_bytes : 0 < length h.contents =
      omega (arith, ap length p.whole, length-append p.ahead (p.byte_before ∷ p.byte ∷ p.behind)) in
    let (js, h', run, complete) = find_candidates-Complete os regular stray h some_bytes limit in
    (js, h', run, complete p (bits_at p b) b (omega arith) (magic-Hit p b bytes small magic))
