-- ===== src/Pixz/Padding.antt =====
-- PixzFile.cc: the loop of `readIndex` that skips the padding behind a stream.
use lzopfs.Base.{
  ℕ, zero, suc, ◌+◌, ◌-◌, ◌*◌, ◌/◌, ◌<◌, ◌≤◌, ◌≡◌, ap, sym, subst, ◌∙◌, some, none, false, ltb,
  length, take, drop, min, arith, Bool-cases, inl, inr, length-take, length-drop,
}
use lzopfs.Blocks.{ok}
use lzopfs.Handle.{Posix, Handle, pos, negsuc, seek_cur, seek}
use lzopfs.Handle.Regular.{IsRegular, target, tell_lem, seek_to, read_chunk}
use lzopfs.Pixz.{is_zero_word, minus, scan_words, look_back, skip_padding}
use lzopfs.Pixz.Words.{
  word_before, Padded, word_before-chunk, scan_words-found, scan_words-zeros, Padded-chunk,
  Padded-split,
}

module _ (os : Posix) (regular : IsRegular os) where
  look_back_lem :
      (h : Handle)
      → 12 ≤ h.position
      → h.position ≤ length h.contents
      → look_back os h
        ≡ ok (
          (
            h.position,
            take (min h.position 4096) (drop (h.position - min h.position 4096) h.contents),
          ),
          h,
        )
  unfolding look_back
  look_back_lem h low inside =
      let size = min h.position 4096 in
      let place = h.position - size in
      let there = seek_to os regular place h in
      let got =
        read_chunk os regular size (record h { position = place }) (omega arith) (omega arith) in
      let back : place + size ≡ h.position = omega arith in
      ground (arith, tell_lem os regular h, there, got, back)

  seek_back :
      (n : ℕ) (h : Handle)
      → n ≤ h.position
      → seek os (minus n) seek_cur h ≡ ok (h.position - n, record h { position = h.position - n })
  unfolding seek target
  seek_back zero h low = ground (arith, regular.seeks h.contents h.position (pos 0) seek_cur)
  seek_back (suc n) h low = ground (arith, regular.seeks h.contents h.position (negsuc n) seek_cur)

  -- A round that meets the end of the data.
  skip_padding-found :
      (fuel k pad d : ℕ) (h : Handle)
      → 12 ≤ d
      → k < 1024
      → h.position ≡ d + 4 * k
      → h.position ≤ length h.contents
      → Padded h.contents h.position k
      → is_zero_word (word_before h.contents d) ≡ false
      → skip_padding os (suc fuel) pad h ≡ ok (pad + 4 * k, record h { position = d })
  unfolding skip_padding
  skip_padding-found fuel k pad d h low few place inside zeros last =
      let size = min h.position 4096 in
      let start = h.position - size in
      let buf = take size (drop start h.contents) in
      let x = size - 4 * k in
      let count : length buf ≡ size =
        omega (arith, length-take size (drop start h.contents), length-drop start h.contents) in
      let whole : start + size ≡ h.position = omega arith in
      let split : x + 4 * k ≡ size = omega arith in
      let there : start + x ≡ d = omega arith in
      let chunk =
        Padded-chunk h.contents start size size k (omega arith) (omega arith)
          (subst (λ i. Padded h.contents i k) (sym whole) zeros) in
      let word =
        ap is_zero_word (word_before-chunk h.contents start size x (omega arith) (omega arith))
        ∙ ap (λ i. is_zero_word (word_before h.contents i)) there
        ∙ last in
      let at_end : x + 4 * k ≡ length buf = omega arith in
      let scanned =
        subst (λ e. scan_words (length buf) buf e pad ≡ (pad + 4 * k, some x)) at_end
          (scan_words-found (length buf) k x pad buf (omega arith) (omega arith)
            (subst (λ e. Padded buf e k) (sym split) chunk) word) in
      let back = seek_back (length buf - x) h (omega arith) in
      let end : h.position - (length buf - x) ≡ d = omega arith in
      ground (arith, look_back_lem h (omega arith) inside, scanned, back, end)

  -- A round that meets padding only.
  skip_padding-zeros :
      (fuel n pad : ℕ) (h : Handle)
      → 12 ≤ h.position
      → min h.position 4096 ≡ 4 * n
      → h.position ≤ length h.contents
      → Padded h.contents h.position n
      → skip_padding os (suc fuel) pad h
        ≡ skip_padding os fuel
            (pad + 4 * n)
            (record h { position = h.position - min h.position 4096 })
  unfolding skip_padding
  skip_padding-zeros fuel n pad h low even inside zeros =
      let size = min h.position 4096 in
      let start = h.position - size in
      let buf = take size (drop start h.contents) in
      let count : length buf ≡ size =
        omega (arith, length-take size (drop start h.contents), length-drop start h.contents) in
      let whole : h.position ≡ start + size = omega arith in
      let chunk =
        Padded-chunk h.contents start size size n (omega arith) (omega arith)
          (subst (λ i. Padded h.contents i n) whole zeros) in
      let at_end : 4 * n ≡ length buf = omega arith in
      let scanned =
        subst (λ e. scan_words (length buf) buf e pad ≡ (pad + 4 * n, none)) at_end
          (scan_words-zeros n pad (length buf) buf (omega arith)
            (subst (λ e. Padded buf e n) even chunk)) in
      ground (arith, look_back_lem h low inside, scanned, seek_to os regular (h.position - size) h)

  -- On a regular system, for a position inside the file that is some words of zeros behind a word
  -- that is not zero and ends at byte twelve or later, the loop that skips the padding comes to its
  -- end within any number of rounds greater than the count of these words, at the end of that word,
  -- with four bytes counted for each.
  pub skip_padding_lem :
      (fuel k pad d : ℕ) (h : Handle)
      → k < fuel
      → 12 ≤ d
      → h.position ≡ d + 4 * k
      → h.position ≤ length h.contents
      → Padded h.contents h.position k
      → is_zero_word (word_before h.contents d) ≡ false
      → skip_padding os fuel pad h ≡ ok (pad + 4 * k, record h { position = d })
  skip_padding_lem zero k pad d h enough low place inside zeros last = absurd (omega arith)
  skip_padding_lem (suc fuel) k pad d h enough low place inside zeros last =
      elim (Bool-cases (ltb k 1024)) [
        | inl few ↦ skip_padding-found fuel k pad d h low (ground arith) place inside zeros last
        | inr many ↦
            let much : 1024 ≤ k = ground arith in
            let n = min h.position 4096 / 4 in
            let even : min h.position 4096 ≡ 4 * n = omega arith in
            let split : k ≡ n + (k - n) = omega arith in
            let (first, rest) =
              Padded-split h.contents h.position n (k - n)
                (subst (λ i. Padded h.contents h.position i) split zeros) in
            let back : h.position - 4 * n ≡ h.position - min h.position 4096 = omega arith in
            let later =
              skip_padding_lem fuel (k - n) (pad + 4 * n) d
                (record h { position = h.position - min h.position 4096 }) (omega arith) low
                (omega arith) (omega arith) (subst (λ i. Padded h.contents i (k - n)) back rest)
                last in
            let total : pad + 4 * n + 4 * (k - n) ≡ pad + 4 * k = omega arith in
            skip_padding-zeros fuel n pad h (omega arith) even inside first
            ∙ later
            ∙ ap (λ n. ok (n, record h { position = d })) total
      ]
