-- ===== src/Zstd/Frames.antt =====
-- ZstdFile.cc: the bytes of a seek table, and the blocks that it stands for.
use lzopfs.Base.{
  ℕ, ◌+◌, ◌/◌, ◌%◌, ◌<◌, ◌≡◌, refl, List, [], ◌∷◌, ◌++◌, if◌then◌else◌, ◌==◌, length, arith, mod32,
  mod64, add64, length-append, true, false, Bool,
}
use lzopfs.Blocks.{Block, Buffer, plain}
use lzopfs.Blocks.Tiles.{Tiles, end_from}
use lzopfs.Handle.{to_le}
use lzopfs.Zstd.{magic_skippable, magic_seek_table, entry_size, total_size}

-- A frame as the table lists it.
pub record Frame : Type 0 where
  pub csize : ℕ
  pub usize : ℕ
  pub checksum : ℕ

unfoldable pub entry_bytes : Bool → Frame → Buffer
entry_bytes sums f =
    to_le 4 f.csize ++ (to_le 4 f.usize ++ (if sums then to_le 4 f.checksum else []))

unfoldable pub entries_bytes : Bool → List Frame → Buffer
unfolding entry_bytes
entries_bytes sums [] = []
entries_bytes sums (f ∷ fs) = entry_bytes sums f ++ entries_bytes sums fs

-- The flags of the footer: the highest bit tells of checksums.
abbrev pub flags_of : Bool → ℕ
flags_of sums = if sums then 128 else 0

abbrev pub footer_bytes : Bool → ℕ → Buffer
footer_bytes sums count = to_le 4 count ++ (to_le 1 (flags_of sums) ++ to_le 4 magic_seek_table)

abbrev pub head_bytes : Bool → ℕ → Buffer
head_bytes sums count = to_le 4 magic_skippable ++ to_le 4 (total_size sums count + 9)

-- A file: the compressed frames, then the table.
abbrev pub file_bytes : Buffer → Bool → List Frame → Buffer
file_bytes frames sums fs =
    frames
    ++ (head_bytes sums (length fs) ++ (entries_bytes sums fs ++ footer_bytes sums (length fs)))

pub record FrameFits (f : Frame) : Type 0 where
  pub csize : f.csize < mod32
  pub usize : f.usize < mod32
  pub checksum : f.checksum < mod32

abbrev pub FramesFit : List Frame → Type 0
FramesFit [] = Unit
FramesFit (f ∷ fs) = FrameFits f × FramesFit fs

-- The blocks that the table stands for.
unfoldable pub listed : ℕ → ℕ → List Frame → List Block
listed uoff coff [] = []
listed uoff coff (f ∷ fs) =
    record { usize = f.usize; csize = f.csize; uoff = uoff; coff = coff; kind = plain }
    ∷ listed (add64 uoff f.usize) (add64 coff f.csize) fs

length-entry_bytes : (sums : Bool) (f : Frame) → length (entry_bytes sums f) ≡ entry_size sums
unfolding entry_bytes to_le
length-entry_bytes true f = refl
length-entry_bytes false f = refl

pub length-entries_bytes :
    (sums : Bool) (fs : List Frame) → length (entries_bytes sums fs) ≡ total_size sums (length fs)
unfolding entries_bytes
length-entries_bytes true [] = refl
length-entries_bytes false [] = refl
length-entries_bytes true (f ∷ fs) = omega (
  arith,
  length-append (entry_bytes true f) (entries_bytes true fs),
  length-entry_bytes true f,
  length-entries_bytes true fs,
)
length-entries_bytes false (f ∷ fs) = omega (
  arith,
  length-append (entry_bytes false f) (entries_bytes false fs),
  length-entry_bytes false f,
  length-entries_bytes false fs,
)

pub flag_lem : (sums : Bool) → (flags_of sums / 128 % 2 == 1) ≡ sums
flag_lem true = refl
flag_lem false = refl

pub count_lt : (sums : Bool) (n : ℕ) → total_size sums n + 9 < mod32 → n < mod32
count_lt true n h = omega arith
count_lt false n h = omega arith

pub flags_of-lt : (sums : Bool) → flags_of sums < 256
flags_of-lt true = omega arith
flags_of-lt false = omega arith

abbrev pub total_frames : List Frame → ℕ
total_frames [] = 0
total_frames (f ∷ fs) = f.usize + total_frames fs

abbrev pub NoneEmpty : List Frame → Type 0
NoneEmpty [] = Unit
NoneEmpty (f ∷ fs) = (0 < f.usize) × NoneEmpty fs

-- The blocks of a seek table without empty frames, from a position with an end below 2^64, follow
-- each other without gaps and end where the sum of their sizes says.
pub listed-Tiles :
    (uoff coff : ℕ) (fs : List Frame)
    → NoneEmpty fs
    → uoff + total_frames fs < mod64
    → Tiles uoff (listed uoff coff fs)
      × (end_from uoff (listed uoff coff fs) ≡ uoff + total_frames fs)
unfolding listed end_from
listed-Tiles uoff coff [] full h = (tt, omega arith)
listed-Tiles uoff coff (f ∷ fs) (some_bytes, full) h =
    let here : add64 uoff f.usize ≡ uoff + f.usize = omega arith in
    let (tiles, ends) = listed-Tiles (uoff + f.usize) (add64 coff f.csize) fs full (omega arith) in
    ((refl, some_bytes, rw here tiles), rw here (omega (arith, ends)))
