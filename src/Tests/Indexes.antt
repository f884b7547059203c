-- ===== src/Tests/Indexes.antt =====
-- FileHandle.cc and CompressedFile.cc: an index file on a concrete system.
use mathlib.Core.List.{reverse, append-nil}
use lzopfs.Base.{
  ℕ, zero, suc, ◌+◌, ◌<◌, ◌≤◌, ◌≡◌, refl, ap, ◌∙◌, List, [], ◌∷◌, ◌++◌, none, some, length, take,
  drop, arith, mod64, true, false,
}
use lzopfs.Blocks.{Block, Buffer, bzip2, ok, err, runtime, eof}
use lzopfs.Blocks.Tiles.{Tiles, end_from}
use lzopfs.Handle.{Posix, Handle, little, big, read_be, to_le, from_le, load, convert_be}
use lzopfs.Handle.Order.{load-convert_be}
use lzopfs.Handle.Regular.{IsRegular, at, target, read_be_lem, read_be_eof}
use lzopfs.Index.{bzip2_format, read_index, load_index}
use lzopfs.Index.Bytes.{index_bytes}
use lzopfs.Index.RoundTrip.{AllFit, kept, read_index-kept, load_index-load_index}

-- A system whose files have no holes: a write goes over what is there.
abbrev pub system : Posix
system = record {
  sys_read = λ c p n. some (take n (drop p c));
  sys_pread = λ c p n. some (take n (drop p c));
  sys_write = λ c p d. some (length d, take p c ++ (d ++ drop (p + length d) c));
  sys_lseek = λ c p o w. target (length c) p o w;
}

abbrev nothing : Buffer
nothing = []

drop_past : (n : ℕ) (xs : Buffer) → length xs ≤ n → drop n xs ≡ nothing
drop_past zero [] h = refl
drop_past zero (x ∷ xs) h = absurd (omega arith)
drop_past (suc n) [] h = refl
drop_past (suc n) (x ∷ xs) h = drop_past n xs (omega arith)

take_all : (xs : Buffer) → take (length xs) xs ≡ xs
take_all [] = refl
take_all (x ∷ xs) = ap (◌∷◌ x) (take_all xs)

over_end : (c d : Buffer) → take (length c) c ++ (d ++ drop (length c + length d) c) ≡ c ++ d
over_end c d =
    let beyond = drop_past (length c + length d) c (omega arith) in
    ap (λ x. take (length c) c ++ (d ++ x)) beyond
    ∙ ap (λ x. x ++ (d ++ [])) (take_all c)
    ∙ ap (λ x. c ++ x) (append-nil d)

pub system-IsRegular : IsRegular system
system-IsRegular = record {
  reads = λ c p n. refl;
  preads = λ c p n. refl;
  writes = λ c d. ap (λ x. some (length d, x)) (over_end c d);
  seeks = λ c p o w. refl;
}

abbrev first : Block
first = record { usize = 300; csize = 20; uoff = 0; coff = 10; kind = bzip2 3 5 9 }

abbrev second : Block
second = record { usize = 70; csize = 8; uoff = 300; coff = 30; kind = bzip2 5 0 9 }

abbrev blocks : List Block
blocks = first ∷ second ∷ []

blocks-AllFit : AllFit 32768 bzip2_format blocks
blocks-AllFit = (
  record {
    usize = omega arith;
    csize = omega arith;
    coff = omega arith;
    kind = (omega arith, omega arith, omega arith);
  },
  (
    record {
      usize = omega arith;
      csize = omega arith;
      coff = omega arith;
      kind = (omega arith, omega arith, omega arith);
    },
    tt,
  ),
)

read_index-kept_example :
    (h : Handle) × (read_index system little 32768 bzip2_format (at [] (index_bytes blocks))
      ≡ ok (kept 0 blocks, h))
read_index-kept_example =
    read_index-kept system system-IsRegular little 32768 bzip2_format blocks blocks-AllFit

blocks-Tiles : Tiles 0 blocks
blocks-Tiles = (refl, omega arith, (refl, omega arith, tt))

blocks_short : end_from 0 blocks < mod64
unfolding end_from
blocks_short = omega arith

-- The second run could not build the index, nor write it.
load_index-load_index_example :
    (index : Buffer) × (load_index system big 32768 bzip2_format none (ok blocks) true
      ≡ ok (blocks, some index))
    × (load_index system big 32768 bzip2_format (some index) (err runtime) false
        ≡ ok (blocks, some index))
load_index-load_index_example =
    load_index-load_index system system-IsRegular big 32768 bzip2_format blocks (err runtime) false
      blocks-AllFit blocks-Tiles blocks_short

load-convert_be_example :
    load little (convert_be little (1 ∷ 2 ∷ [])) ≡ from_le (reverse (1 ∷ 2 ∷ []))
load-convert_be_example = load-convert_be little (1 ∷ 2 ∷ [])

read_be_lem_example :
    read_be system little 2 (at (9 ∷ []) (reverse (to_le 2 258) ++ 7 ∷ []))
    ≡ ok (258, at (9 ∷ [] ++ reverse (to_le 2 258)) (7 ∷ []))
read_be_lem_example =
    read_be_lem system system-IsRegular little (9 ∷ []) (7 ∷ []) 1 258 (omega arith)

read_be_eof_example : read_be system little 2 (at (9 ∷ []) (7 ∷ [])) ≡ err eof
read_be_eof_example = read_be_eof system system-IsRegular little (9 ∷ []) (7 ∷ []) 2 (omega arith)
