-- ===== src/Blocks.antt =====
-- lzopfs.h (`Block`), CompressedFile.h and CompressedFile.cc: the list of a file's blocks and how a
-- position is found in it. An iterator is the list of the blocks from its place to the end.
pub mod Search
pub mod Tiles
pub mod Contents
pub mod Iterators
pub mod Owners
pub mod Values
pub mod Cases
pub mod Uses
pub mod Runs
use lzopfs.Base.{
  ◌≡◌, refl, ℕ, zero, suc, ◌+◌, ◌-◌, ◌/◌, List, [], ◌∷◌, Option, none, some, Bool, true, false,
  if◌then◌else◌, ltb, add64, sub64, length, get_elem?, drop, take, replicate, arith, ap,
  length-append, length-take, length-replicate, ◌++◌, ◌⊎◌, inl, inr,
}

abbrev pub Buffer : Type 0
Buffer = List ℕ

-- `resize`: what is new is zero.
abbrev pub resize : ℕ → Buffer → Buffer
resize n b = take n b ++ replicate (n - length b) 0

pub length-resize : (n : ℕ) (b : Buffer) → length (resize n b) ≡ n
length-resize n b = omega (
  arith,
  length-append (take n b) (replicate (n - length b) 0),
  length-take n b,
  length-replicate {A = ℕ} (n - length b) 0,
)

-- What the subclasses of `Block` add.
pub data Kind : Type 0 where
  plain : Kind
  bzip2 : (bits endbits level : ℕ) → Kind
  gzip : (bits : ℕ) → Buffer → Kind
  pixz : (check : ℕ) → Kind

pub record Block : Type 0 where
  pub usize : ℕ
  pub csize : ℕ
  pub uoff : ℕ
  pub coff : ℕ
  pub kind : Kind

-- The errors that the program throws.
pub data Error : Type 0 where
  eof : Error
  system : Error
  format : Error
  runtime : Error
  -- undefined behaviour, such as a copy out of bounds
  fault : Error

pub data Result {ℓ} (A : Type ℓ) : Type ℓ where
  ok : A → Result A
  err : Error → Result A

infixl 5 ◌>>=◌
abbrev pub ◌>>=◌ {ℓ κ} : {A : Type ℓ} {B : Type κ} → Result A → (A → Result B) → Result B
ok a >>= f = f a
err e >>= f = err e

-- A chain that succeeds succeeds in its first part.
pub >>=-eq-ok {ℓ κ} :
    {A : Type ℓ} {B : Type κ} {last : B} (part : Result A) (next : A → Result B)
    → (part >>= next) ≡ ok last
    → (first : A) × (next first ≡ ok last) × (part ≡ ok first)
>>=-eq-ok (err x) next both = cc
>>=-eq-ok (ok first) next both = (first, both, refl)

-- To split on a result and keep the equation.
pub result_cases {ℓ} :
    {A : Type ℓ} (m : Result A) → ((a : A) × (m ≡ ok a)) ⊎ ((x : Error) × (m ≡ err x))
result_cases (ok a) = inl (a, refl)
result_cases (err x) = inr (x, refl)

-- `BlockOffsetOrdering`: the last byte of the block, in 64 bits, lies before the position.
unfoldable pub before : Block → ℕ → Bool
before b off = ltb (sub64 (add64 b.uoff b.usize) 1) off

-- The step of `std::lower_bound`: whether the middle of a range lies before the position.
unfoldable pub before_at : List Block → ℕ → ℕ → Bool
unfolding before
before_at bs off i = elim (get_elem? bs i) [ none ↦ false | some b ↦ before b off ]

-- `std::lower_bound` on the indices first, …, first + len - 1; the range shrinks in each round, so
-- its length is fuel enough.
unfoldable pub lower_bound : ℕ → List Block → ℕ → ℕ → ℕ → ℕ
unfolding before_at
lower_bound zero bs off first len = first
lower_bound (suc fuel) bs off first len = elim len [
  | zero ↦ first
  | suc l ↦
      let half = suc l / 2 in
      elim (before_at bs off (first + half)) [
        | true ↦ lower_bound fuel bs off (first + half + 1) (suc l - half - 1)
        | false ↦ lower_bound fuel bs off first half
      ]
]

-- The check of the iterator: at the end it is an error.
abbrev pub not_end : List Block → Result (List Block)
not_end [] = err runtime
not_end (b ∷ rest) = ok (b ∷ rest)

-- `BlockListCompFile::findBlock`
unfoldable pub find_block : List Block → ℕ → Result (List Block)
unfolding lower_bound
find_block bs off = not_end (drop (lower_bound (length bs) bs off 0 (length bs)) bs)

-- `BlockListCompFile::uncompressedSize`
unfoldable pub uncompressed_size : List Block → ℕ
uncompressed_size [] = 0
uncompressed_size (b ∷ []) = add64 b.uoff b.usize
uncompressed_size (b ∷ b' ∷ bs) = uncompressed_size (b' ∷ bs)

-- The loop of `CompressedFile::checkSizes`: whether it warns of a block that is too large.
unfoldable pub warns : ℕ → List Block → Bool
warns max_block [] = false
warns max_block (b ∷ bs) = if ltb max_block b.usize then true else warns max_block bs

-- `CompressedFile::checkSizes`; a file without blocks is an error.
unfoldable pub check_sizes : ℕ → List Block → Result Bool
unfolding warns find_block
check_sizes max_block bs = elim (find_block bs 0) [
  | ok iter ↦ ok (warns max_block iter)
  | err e ↦ err runtime
]
