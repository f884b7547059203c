-- ===== src/Bzip2/Chunks.antt =====
-- Bzip2File.cc: the loop of `findBlockBoundaryCandidates` over the chunks of a file.
use mathlib.Core.List.{append_assoc, append-nil}
use native.Mathlib.Nat.{add-zero}
use lzopfs.Base.{
  ℕ, zero, suc, ◌+◌, ◌-◌, ◌≤◌, ◌<◌, ◌≡◌, ◌≢◌, refl, ap, sym, ◌∙◌, List, [], ◌∷◌, ◌++◌, some, true,
  false, length, length-append, length-take, length-drop, take, drop, take-append-drop, arith, ltb,
  ◌==◌, inl, inr, mod64, ◌⊎◌, subst, dec_le, add64, sub64,
}
use lzopfs.Blocks.{Buffer, ok}
use lzopfs.Handle.{Posix, Handle, pos, seek_end, tell, seek, try_read, size, ◌>>=◌}
use lzopfs.Handle.Regular.{IsRegular, at, target, tell_lem, seek_to, drop-length}
use lzopfs.Bzip2.Scan.{Boundary, Scan, chunk_size, scan_bytes, scan_chunks}
use lzopfs.Bzip2.Listed.{Grows, Listed-Grows, Grows-trans, scan_bytes-Grows}
use lzopfs.Bzip2.Places.{Complete, chunk-Listed, regroup}

module _ (os : Posix) (regular : IsRegular os) (stray : ℕ → ℕ) where
  -- The size of a file, which leaves the place where it was.
  pub size_lem : (h : Handle) → size os h ≡ ok (length h.contents, h)
  unfolding size tell seek target
  size_lem h =
      let there = regular.seeks h.contents h.position (pos 0) seek_end in
      let ended = tell_lem os regular (record h { position = length h.contents + 0 }) in
      let back = seek_to os regular h.position (record h { position = length h.contents + 0 }) in
      ground (arith, tell_lem os regular h, there, ended, back, add-zero (length h.contents))

  -- A read takes what there is, up to so many bytes.
  pub try_read-some :
      (done rest : Buffer) (n : ℕ)
      → 0 < n
      → 0 < length rest
      → try_read os n (at done rest) ≡ ok (take n rest, at (done ++ take n rest) (drop n rest))
  unfolding try_read
  try_read-some done rest n some_room some_bytes =
      let got : os.sys_read (done ++ rest) (length done) n ≡ some (take n rest) =
        regular.reads (done ++ rest) (length done) n
        ∙ ap (λ l. some (take n l)) (drop-length done rest) in
      let count : length (take n rest) ≢ 0 =
        λ e. ground (arith, e, length-take n rest, some_room, some_bytes) in
      let place : length (done ++ take n rest) ≡ length done + length (take n rest) =
        length-append done (take n rest) in
      let same : (done ++ take n rest) ++ drop n rest ≡ done ++ rest =
        append_assoc done (take n rest) (drop n rest)
        ∙ ap (λ l. done ++ l) (take-append-drop n rest) in
      ground (arith, got, count, place, same)

  scan_chunks-last :
      (fuel rpos : ℕ) (buf : Buffer) (s : Scan) (h : Handle)
      → scan_chunks os stray (suc fuel) rpos rpos buf s h
        ≡ ok ((scan_bytes (stray rpos) buf (sub64 rpos (length buf)) s).found, h)
  unfolding scan_chunks
  scan_chunks-last fuel rpos buf s h =
      let e : (rpos == rpos) ≡ true = ground arith in rw (e, scan_chunks) refl

  scan_chunks-more :
      (fuel fsz rpos : ℕ) (buf r : Buffer) (s : Scan) (h h' : Handle)
      → rpos < fsz
      → 9 ≤ length buf
      → try_read os (chunk_size - 9) h ≡ ok (r, h')
      → scan_chunks os stray (suc fuel) fsz rpos buf s h
        ≡ scan_chunks os stray fuel fsz
            (add64 rpos (length r))
            (drop (length buf - 9) buf ++ r)
            (scan_bytes (stray rpos) buf (sub64 rpos (length buf)) s)
            h'
  unfolding scan_chunks
  scan_chunks-more fuel fsz rpos buf r s h h' more room got =
      let e : (fsz == rpos) ≡ false = ground (arith, more) in
      let k : ltb (length buf) 9 ≡ false = ground (arith, room) in
      rw (e, scan_chunks) (rw k (rw (got, ◌>>=◌) refl))

  -- The loop returns from a place of the file, and lists all hits from another one on.
  abbrev pub Scanned : ℕ → Buffer → Buffer → Buffer → ℕ → Scan → Type 0
  Scanned fuel front rest buf from s =
      (js : List Boundary) × (h : Handle) × (scan_chunks os stray fuel (length (front ++ rest))
          (length front) buf s (at front rest)
        ≡ ok (js, h))
      × Grows s.found js
      × Complete (front ++ rest) from js

  scan_end :
      (fuel : ℕ) (done buf : Buffer) (s : Scan)
      → length (done ++ buf) < mod64
      → Scanned (suc fuel) (done ++ buf) [] buf (length done) s
  scan_end fuel done buf s limit =
      let n = length (done ++ buf) in
      let whole : done ++ buf ++ [] ≡ done ++ buf = append-nil (done ++ buf) in
      let start : sub64 n (length buf) ≡ length done =
        omega (arith, limit, length-append done buf) in
      let t = scan_bytes (stray n) buf (length done) s in
      let run : scan_chunks os stray (suc fuel) n n buf s (at (done ++ buf) [])
          ≡ ok (t.found, at (done ++ buf) []) =
        rw (← start) (scan_chunks-last fuel n buf s (at (done ++ buf) [])) in
      (
        t.found,
        at (done ++ buf) [],
        rw (ap length whole) run,
        scan_bytes-Grows (stray n) buf (length done) s,
        λ p v b from. chunk-Listed (stray n) done buf [] p s v b from (
            omega (
              arith,
              ap length p.whole,
              p.room,
              ap length whole,
              length-append done buf,
              length-append p.ahead (p.byte_before ∷ p.byte ∷ p.behind),
            )),
      )

  scan_round :
      (fuel : ℕ) (done buf rest : Buffer) (s : Scan)
      → 0 < length rest
      → 9 ≤ length buf
      → length (done ++ buf ++ rest) < mod64
      → let r = take (chunk_size - 9) rest in
        let t = scan_bytes (stray (length (done ++ buf))) buf (length done) s in
        Scanned fuel
          (done ++ buf ++ r)
          (drop (chunk_size - 9) rest)
          (drop (length buf - 9) buf ++ r)
          (length done + (length buf - 9))
          t
        → Scanned (suc fuel) (done ++ buf) rest buf (length done) s
  scan_round fuel done buf rest s more room limit (js, h, run, grows, complete) =
      let n = length (done ++ buf) in
      let r = take (chunk_size - 9) rest in
      let left = drop (chunk_size - 9) rest in
      let same : done ++ buf ++ r ++ left ≡ done ++ buf ++ rest =
        append_assoc (done ++ buf) r left
        ∙ ap (λ l. done ++ buf ++ l) (take-append-drop (chunk_size - 9) rest) in
      let long = length-append (done ++ buf) rest in
      let start : sub64 n (length buf) ≡ length done =
        omega (arith, limit, long, length-append done buf) in
      let place : add64 n (length r) ≡ length (done ++ buf ++ r) =
        omega
          (arith, limit, long, length-append (done ++ buf) r, length-take (chunk_size - 9) rest) in
      let one =
        scan_chunks-more fuel (length (done ++ buf ++ rest)) n buf r s (at (done ++ buf) rest)
          (at (done ++ buf ++ r) left) (omega (arith, long, more)) room
          (try_read-some (done ++ buf) rest (chunk_size - 9) (omega arith) more) in
      let t = scan_bytes (stray n) buf (length done) s in
      let here = scan_bytes-Grows (stray n) buf (length done) s in
      let all = subst (λ c. Complete c (length done + (length buf - 9)) js) same complete in
      (
        js,
        h,
        one ∙ rw (place, start, ← same) run,
        Grows-trans s.found t.found js here grows,
        λ p v b from hit. elim (dec_le (length p.ahead + 10) (length done + length buf)) [
          | yes inside ↦
              Listed-Grows t.found js (suc (length p.ahead)) v b grows
                (chunk-Listed (stray n) done buf rest p s v b from inside hit)
          | no outside ↦ all p v b (omega (arith, outside, room)) hit
        ],
      )

  Scanned-same :
      (fuel : ℕ) (rest buf : Buffer) (s : Scan) {front front' : Buffer} {from from' : ℕ}
      → front ≡ front'
      → from ≡ from'
      → Scanned fuel front' rest buf from' s
      → Scanned fuel front rest buf from s
  Scanned-same fuel rest buf s {front} {front'} {from} {from'} e k there =
      subst (λ f. Scanned fuel f rest buf from s) (sym e)
        (subst (λ n. Scanned fuel front' rest buf n s) (sym k) there)

  pub scan_chunks_lem :
      (fuel : ℕ) (done buf rest : Buffer) (s : Scan)
      → length rest < fuel
      → length (done ++ buf ++ rest) < mod64
      → (9 ≤ length buf) ⊎ (rest ≡ [])
      → Scanned fuel (done ++ buf) rest buf (length done) s
  scan_chunks_lem zero done buf rest s enough limit room = absurd (omega (arith, enough))
  scan_chunks_lem (suc fuel) done buf [] s enough limit room =
      scan_end fuel done buf s (rw (← append-nil (done ++ buf)) limit)
  scan_chunks_lem (suc fuel) done buf (x ∷ rest) s enough limit (inr e) = absurd (ground (arith, e))
  scan_chunks_lem (suc fuel) done buf (x ∷ rest) s enough limit (inl room) =
      let all = x ∷ rest in
      let k = length buf - 9 in
      let r = take (chunk_size - 9) all in
      let left = drop (chunk_size - 9) all in
      let t = scan_bytes (stray (length (done ++ buf))) buf (length done) s in
      let front : done ++ buf ++ r ≡ done ++ take k buf ++ (drop k buf ++ r) =
        regroup done buf r k in
      let from : length done + k ≡ length (done ++ take k buf) =
        omega (arith, length-append done (take k buf), length-take k buf) in
      let same : done ++ buf ++ all ≡ done ++ take k buf ++ (drop k buf ++ r) ++ left =
        sym (
          append_assoc (done ++ buf) r left
          ∙ ap (λ l. done ++ buf ++ l) (take-append-drop (chunk_size - 9) all))
        ∙ ap (λ l. l ++ left) front in
      let again =
        scan_chunks_lem fuel (done ++ take k buf) (drop k buf ++ r) left t
          (omega (arith, enough, length-drop (chunk_size - 9) all)) (rw (← same) limit)
          (inl (omega (arith, room, length-append (drop k buf) r, length-drop k buf))) in
      scan_round fuel done buf all s (omega arith) room limit
        (Scanned-same fuel left (drop k buf ++ r) t front from again)
