-- ===== src/Blocks/Iterators.antt =====
-- CompressedFile.h: `BlockIterator` owns an inner iterator on the heap, which it copies by `dup` and
-- deletes. An inner iterator of `BlockListCompFile` is the list of the blocks from its place to the
-- end. A variable is a number, a pointer is an address, and what the language does not define (to
-- use a null pointer or a deleted object, to go past the end, to delete twice) is a fault.
use lzopfs.Base.{ℕ, suc, List, [], ◌∷◌, Option, none, some, if◌then◌else◌, ◌==◌}
use lzopfs.Blocks.{Block, Result, ok, err, fault, ◌>>=◌}

-- A variable outside its lifetime, with a null pointer, or with a pointer to its inner iterator.
pub data Var : Type 0 where
  unborn null : Var
  owns : ℕ → Var

pub record Store : Type 0 where
  pub heap : ℕ → Option (List Block)
  pub fresh : ℕ
  pub vars : ℕ → Var

unfoldable pub put_at {ℓ} : {A : Type ℓ} → ℕ → A → (ℕ → A) → ℕ → A
put_at k a f i = if i == k then a else f i

abbrev pub set_var : ℕ → Var → Store → Store
set_var k v s = record s { vars = put_at k v s.vars }

-- `new Iterator(…)`
abbrev pub allocate : List Block → Store → Store
allocate it s = record s { heap = put_at s.fresh (some it) s.heap; fresh = suc s.fresh }

-- The inner iterator at an address.
unfoldable pub inner : ℕ → Store → Result (List Block)
inner a s = elim (s.heap a) [ none ↦ err fault | some it ↦ ok it ]

-- `delete mInner`
unfoldable pub release_inner : ℕ → Store → Result Store
unfolding inner
release_inner a s = inner a s >>= λ it. ok (record s { heap = put_at a none s.heap })

-- `mInner->dup()`
unfoldable pub dup_inner : Var → Store → Result Store
unfolding inner
dup_inner unborn s = err fault
dup_inner null s = err fault
dup_inner (owns a) s = inner a s >>= λ it. ok (allocate it s)

-- The destructor.
unfoldable pub destroy : Var → Store → Result Store
unfolding release_inner
destroy unborn s = err fault
destroy null s = ok s
destroy (owns a) s = release_inner a s

-- `operator++`, through the virtual `incr`.
unfoldable pub increment : Var → Store → Result Store
unfolding inner
increment unborn s = err fault
increment null s = err fault
increment (owns a) s = inner a s >>= λ it. elim it [
  | [] ↦ err fault
  | b ∷ rest ↦ ok (record s { heap = put_at a (some rest) s.heap })
]

-- What a program does with its variables.
pub data Use : Type 0 where
  make : ℕ → List Block → Use
  clear : ℕ → Use
  copy : ℕ → ℕ → Use
  assigns : ℕ → ℕ → Use
  increments : ℕ → Use
  destroys : ℕ → Use

-- A constructor begins the lifetime of a variable.
unfoldable pub unborn_only {ℓ} : {A : Type ℓ} → Var → Result A → Result A
unborn_only unborn r = r
unborn_only v r = err fault

-- `operator=` takes its argument by value, so the source is copied first; after the swap the copy
-- goes with the old pointer.
unfoldable pub use_var : Use → Store → Result Store
unfolding dup_inner destroy increment unborn_only
use_var (make k it) s = unborn_only (s.vars k) (ok (set_var k (owns s.fresh) (allocate it s)))
use_var (clear k) s = unborn_only (s.vars k) (ok (set_var k null s))
use_var (copy k j) s =
    unborn_only (s.vars k) (dup_inner (s.vars j) s >>= λ s'. ok (set_var k (owns s.fresh) s'))
use_var (assigns k j) s =
    dup_inner (s.vars j) s >>= λ s'. destroy (s.vars k) (set_var k (owns s.fresh) s')
use_var (increments k) s = increment (s.vars k) s
use_var (destroys k) s = destroy (s.vars k) s >>= λ s'. ok (set_var k unborn s')

unfoldable pub use_vars : List Use → Store → Result Store
unfolding use_var
use_vars [] s = ok s
use_vars (u ∷ us) s = use_var u s >>= use_vars us

-- No variable, and nothing on the heap.
abbrev pub no_store : Store
no_store = record { heap = λ a. none; fresh = 0; vars = λ k. unborn }
