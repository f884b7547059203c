-- ===== src/Bzip2/Indexing.antt =====
-- Bzip2File.cc: the loop of `buildIndex` over the boundaries of a file.
use lzopfs.Base.{
  ℕ, suc, ◌+◌, ◌*◌, ◌%◌, ◌<◌, ◌≤◌, ◌≡◌, ◌≢◌, refl, ap, sym, subst, ◌∙◌, List, [], ◌∷◌, ◌++◌, true,
  false, ◌==◌, ◌⊎◌, inl, inr, length, arith, mod32, mod64, sub64, add64, Bool-cases, if◌then◌else◌,
}
use mathlib.Core.List.{append_assoc, append-nil}
use lzopfs.Blocks.{result_cases, Block, Buffer, Error, ok, err, eof, format, runtime, fault}
use lzopfs.Blocks.Tiles.{Tiles}
use lzopfs.Handle.{Posix, Handle, try_pread}
use lzopfs.Handle.Regular.{IsRegular, pread_bytes}
use lzopfs.Bzip2.{
  Bzlib, decompress, Build, create_aligned, build_blocks, is_fault, block_between, level_of,
  add_found,
}
use lzopfs.Bzip2.Magic.{eos_magic}
use lzopfs.Bzip2.Scan.{Boundary}
use lzopfs.Bzip2.Aligned.{align}
use lzopfs.Bzip2.Room.{align_lem}

-- Boundaries that come one behind the other, after a position, in a file of a given size.
abbrev pub Climb : ℕ → ℕ → List Boundary → Type 0
Climb size from [] = Unit
Climb size from (j ∷ js) = (from < j.coff) × (j.coff < size) × (j.bits < 8) × Climb size j.coff js

-- Blocks that begin one behind the other, none before a position.
abbrev pub Rise : ℕ → List Block → Type 0
Rise from [] = Unit
Rise from (b ∷ bs) = (from ≤ b.coff) × Rise (suc b.coff) bs

Climb-le : (size a b : ℕ) (js : List Boundary) → a ≤ b → Climb size b js → Climb size a js
Climb-le size a b [] h c = tt
Climb-le size a b (j ∷ js) h (low, inside, hj, rest) = (omega arith, inside, hj, rest)

Rise-le : (a b : ℕ) (bs : List Block) → a ≤ b → Rise b bs → Rise a bs
Rise-le a b [] h c = tt
Rise-le a b (x ∷ bs) h (low, rest) = (omega arith, rest)

-- A boundary of a list.
abbrev pub Among : Boundary → List Boundary → Type 0
Among x [] = ⊥
Among x (y ∷ ys) = (x ≡ y) ⊎ Among x ys

-- The file that `createAlignedBlock` makes of what stands between two boundaries of a list, the first
-- one with the magic number of a block.
abbrev pub Piece : Posix → List Boundary → Handle → Buffer → Type 0
Piece os all h d =
    (i : Boundary) × (j : Boundary) × (level : ℕ) × (b : Buffer) × Among i all
    × Among j all
    × ((i.magic == eos_magic) ≡ false)
    × (create_aligned os level i.coff i.bits j.coff j.bits b h ≡ ok (d, h))

-- What the library does with these pieces: `fuel` rounds are enough for each, and where one
-- decompresses, it has a byte at least, since it begins with a block, and no more than `most`.
pub record IsInflate (os : Posix) (lib : Bzlib) (fuel most : ℕ) (all : List Boundary) (h : Handle)
    : Type 0 where
  pub defined : (d : Buffer) (n : ℕ) → Piece os all h d → (decompress lib fuel d n).1 ≢ err fault
  pub some_bytes :
      (d : Buffer) (n : ℕ) (out : Buffer)
      → Piece os all h d
      → (decompress lib fuel d n).1 ≡ ok out
      → 0 < length out
  pub bounded :
      (d : Buffer) (n : ℕ) (out : Buffer)
      → Piece os all h d
      → (decompress lib fuel d n).1 ≡ ok out
      → length out ≤ most

is_fault_lem : (x : Error) → (is_fault x ≡ false) ⊎ (x ≡ fault)
is_fault_lem eof = inl refl
is_fault_lem Error.system = inl refl
is_fault_lem format = inl refl
is_fault_lem runtime = inl refl
is_fault_lem fault = inr refl

-- The blocks behind a block that was found begin where it ends.
Tiles-found :
    (i j : Boundary) (out : Buffer) (s : Build) (bs : List Block)
    → 0 < length out
    → length out < mod32
    → s.uoff + length out < mod64
    → Tiles (add64 s.uoff (length out)) bs
    → Tiles s.uoff (block_between i j out s ∷ bs)
Tiles-found i j out s bs low high room tiles =
    let next : add64 s.uoff (length out) ≡ s.uoff + length out % mod32 = omega arith in
    (refl, omega arith, subst (λ u. Tiles u bs) next tiles)

module _ (os : Posix) where
  create_aligned-ok :
      (level coff bits stop endbits : ℕ) (b bytes r : Buffer) (h : Handle)
      → try_pread os
          (sub64 coff (if bits == 0 then 0 else 1))
          (sub64 stop coff + (if bits == 0 then 0 else 1))
          h
        ≡ ok (bytes, h)
      → align level bits endbits (sub64 stop coff) bytes b ≡ ok r
      → create_aligned os level coff bits stop endbits b h ≡ ok (r, h)
  unfolding create_aligned
  create_aligned-ok level coff bits stop endbits b bytes r h got done =
      rw (got, create_aligned) (rw done refl)

  create_aligned_lem :
      (regular : IsRegular os) (level coff bits stop endbits : ℕ) (b : Buffer) (h : Handle)
      → 0 < coff
      → bits < 8
      → endbits < 8
      → coff < stop
      → stop < length h.contents
      → length h.contents < mod64
      → (r : Buffer) × (create_aligned os level coff bits stop endbits b h ≡ ok (r, h))
  create_aligned_lem regular level coff bits stop endbits b h some_bytes hb he fwd inside size =
      let small : (if bits == 0 then 0 else 1) ≤ 1 = ground arith in
      let (bytes, got, count) =
        pread_bytes os regular (sub64 coff (if bits == 0 then 0 else 1))
          (sub64 stop coff + (if bits == 0 then 0 else 1)) h (omega arith) (omega arith) in
      let (r, done, room) =
        align_lem level bits endbits (sub64 stop coff) bytes b hb he (omega arith) (omega arith) in
      (r, create_aligned-ok level coff bits stop endbits b bytes r h got done)

  module _ (lib : Bzlib) (fuel : ℕ) where
    -- The steps of the loop: behind the end of a stream, with a block, and with a false boundary.
    build_blocks-eos :
        (i j : Boundary) (js : List Boundary) (s : Build) (h : Handle)
        → (i.magic == eos_magic) ≡ true
        → build_blocks os lib fuel i (j ∷ js) s h ≡ build_blocks os lib fuel j js s h
    unfolding build_blocks
    build_blocks-eos i j js s h eos = rw (eos, build_blocks) refl

    build_blocks-found :
        (i j : Boundary) (js : List Boundary) (s : Build) (h : Handle) (input out : Buffer)
        → (i.magic == eos_magic) ≡ false
        → create_aligned os (level_of i s) i.coff i.bits j.coff j.bits s.input h ≡ ok (input, h)
        → (decompress lib fuel input s.output).1 ≡ ok out
        → build_blocks os lib fuel i (j ∷ js) s h
          ≡ build_blocks os lib fuel j js (add_found i j input out s) h
    unfolding build_blocks
    build_blocks-found i j js s h input out block made got =
        rw (block, build_blocks) (rw made (rw got refl))

    build_blocks-end :
        (i : Boundary) (s : Build) (h : Handle)
        → build_blocks os lib fuel i [] s h ≡ ok (s.blocks, h)
    unfolding build_blocks
    build_blocks-end i s h = refl

    build_blocks-dropped :
        (i j : Boundary) (js : List Boundary) (s : Build) (h : Handle) (input : Buffer) (x : Error)
        → (i.magic == eos_magic) ≡ false
        → create_aligned os (level_of i s) i.coff i.bits j.coff j.bits s.input h ≡ ok (input, h)
        → (decompress lib fuel input s.output).1 ≡ err x
        → is_fault x ≡ false
        → build_blocks os lib fuel i (j ∷ js) s h
          ≡ build_blocks os lib fuel i js
              (record s {
                input = input;
                output = (decompress lib fuel input s.output).0;
                level = level_of i s;
              })
              h
    unfolding build_blocks
    build_blocks-dropped i j js s h input x block made got caught =
        rw (block, build_blocks) (rw made (rw got (rw caught refl)))

module _ (os : Posix) (regular : IsRegular os) (lib : Bzlib) (fuel most : ℕ) (small : most < mod32)
    (h : Handle) (size : length h.contents < mod64) where
  module _ (all : List Boundary) (good : IsInflate os lib fuel most all h) where
    build_all_lem :
        (i : Boundary) (js : List Boundary) (s : Build)
        → 0 < i.coff
        → i.bits < 8
        → Climb (length h.contents) i.coff js
        → s.uoff + most * length js < mod64
        → Among i all
        → ((x : Boundary) → Among x js → Among x all)
        → (bs : List Block) × (build_blocks os lib fuel i js s h ≡ ok (s.blocks ++ bs, h))
          × Tiles s.uoff bs
          × Rise i.coff bs
    build_all_lem i [] s hi hb climb room on among = (
      [],
      build_blocks-end os lib fuel i s h ∙ ap (λ bs. ok (bs, h)) (sym (append-nil s.blocks)),
      tt,
      tt,
    )
    build_all_lem i (j ∷ js) s hi hb (fwd, inside, hj, climb) room on among =
        elim (Bool-cases (i.magic == eos_magic)) [
          | inl eos ↦
              let (bs, e, tiles, rise) =
                build_all_lem j js s (omega arith) hj climb (omega arith) (among j (inl refl))
                  (λ x there. among x (inr there)) in
              (
                bs,
                build_blocks-eos os lib fuel i j js s h eos ∙ e,
                tiles,
                Rise-le i.coff j.coff bs (omega arith) rise,
              )
          | inr block ↦
              let (input, made) =
                create_aligned_lem os regular (level_of i s) i.coff i.bits j.coff j.bits s.input h
                  hi hb hj fwd inside size in
              let piece : Piece os all h input =
                (i, j, level_of i s, s.input, on, among j (inl refl), block, made) in
              elim (result_cases (decompress lib fuel input s.output).1) [
                | inl (out, got) ↦
                    let low = good.some_bytes input s.output out piece got in
                    let high = good.bounded input s.output out piece got in
                    let (bs, e, tiles, rise) =
                      build_all_lem j js (add_found i j input out s) (omega arith) hj climb
                        (omega arith) (among j (inl refl)) (λ x there. among x (inr there)) in
                    let moved = append_assoc s.blocks (block_between i j out s ∷ []) bs in
                    (
                      block_between i j out s ∷ bs,
                      build_blocks-found os lib fuel i j js s h input out block made got
                          ∙ e
                          ∙ ap (λ all. ok (all, h)) moved,
                      Tiles-found i j out s bs low (omega arith) (omega arith) tiles,
                      (omega arith, Rise-le (suc i.coff) j.coff bs fwd rise),
                    )
                | inr (x, got) ↦ elim (is_fault_lem x) [
                  | inl caught ↦
                      let (bs, e, tiles, rise) =
                        build_all_lem i js
                          (record s {
                            input = input;
                            output = (decompress lib fuel input s.output).0;
                            level = level_of i s;
                          })
                          hi hb (Climb-le (length h.contents) i.coff j.coff js (omega arith) climb)
                          (omega arith) on (λ x there. among x (inr there)) in
                      (
                        bs,
                        build_blocks-dropped os lib fuel i j js s h input x block made got caught
                            ∙ e,
                        tiles,
                        rise,
                      )
                  | inr bad ↦ absurd (good.defined input s.output piece (got ∙ ap err bad))
                ]
              ]
        ]

  -- On a regular system, with boundaries that come one behind the other inside a file of less than
  -- 2^64 bytes, all with fewer than eight bits, the first one not at the start of the file, and a
  -- library that comes to its end on each piece between two of the boundaries that begins with a
  -- block, and puts out at least one byte and no more than a bounded number, below 2^32, where it
  -- has no error, so that all output ends below 2^64, the loop of buildIndex, which drops the
  -- boundaries up to which nothing decompresses, has no error, and the blocks that it adds follow
  -- each other without gaps in the uncompressed file, none of them empty, and begin one behind the
  -- other in the compressed file.
  pub build_blocks_lem :
      (i : Boundary) (js : List Boundary) (s : Build)
      → IsInflate os lib fuel most (i ∷ js) h
      → 0 < i.coff
      → i.bits < 8
      → Climb (length h.contents) i.coff js
      → s.uoff + most * length js < mod64
      → (bs : List Block) × (build_blocks os lib fuel i js s h ≡ ok (s.blocks ++ bs, h))
        × Tiles s.uoff bs
        × Rise i.coff bs
  build_blocks_lem i js s good hi hb climb room =
      build_all_lem (i ∷ js) good i js s hi hb climb room (inl refl) (λ x there. inr there)
