-- ===== src/Blocks/Runs.antt =====
-- CompressedFile.h: a program that uses `BlockIterator` runs as it does on values.
use lzopfs.Base.{ℕ, ◌≡◌, refl, subst, List, [], ◌∷◌, none, some, arith, inl, inr, Option-cases}
use lzopfs.Blocks.{ok}
use lzopfs.Blocks.Iterators.{
  Store, Use, make, clear, copy, assigns, increments, destroys, use_vars, no_store,
}
use lzopfs.Blocks.Owners.{Value, outside, use_value, use_values, Models, Sees-outside}
use lzopfs.Blocks.Cases.{no_store-Models}
use lzopfs.Blocks.Uses.{
  Does, make-Does, clear-Does, copy-Does, destroys-Does, assigns-Does, increments-Does,
}

use_var-Does :
    (u : Use) (s : Store) (v v' : ℕ → Value) → Models s v → use_value u v ≡ some v' → Does u s v'
use_var-Does (make k it) s v v' m e = make-Does s v v' m k it e
use_var-Does (clear k) s v v' m e = clear-Does s v v' m k e
use_var-Does (copy k j) s v v' m e = copy-Does s v v' m k j e
use_var-Does (assigns k j) s v v' m e = assigns-Does s v v' m k j e
use_var-Does (increments k) s v v' m e = increments-Does s v v' m k e
use_var-Does (destroys k) s v v' m e = destroys-Does s v v' m k e

-- A BlockIterator, which holds a pointer to an inner iterator on the heap, behaves as a value: from
-- a store in which each inner iterator has exactly one owner, any uses of iterators (construction,
-- copy, assignment, also to itself, increment, destruction) that are defined on values, that is,
-- lists of blocks which no two variables share, run on the heap without a null pointer, a deleted
-- object or a second delete, each variable has the blocks of its value at the end, and each inner
-- iterator has exactly one owner again.
pub use_vars-Models :
    (us : List Use) (s : Store) (v v' : ℕ → Value)
    → Models s v
    → use_values us v ≡ some v'
    → (s' : Store) × (use_vars us s ≡ ok s') × Models s' v'
unfolding use_values use_vars
use_vars-Models [] s v v' m e = let same : v ≡ v' = cc in (s, refl, subst (Models s) same m)
use_vars-Models (u ∷ us) s v v' m e = elim (Option-cases (use_value u v)) [
  | inl bad ↦ absurd (cc (rw (bad, use_values) at e))
  | inr (v₁, good) ↦
      let (s₁, one, m₁) = use_var-Does u s v v₁ m good in
      let (s', more, m') = use_vars-Models us s₁ v₁ v' m₁ (rw (good, use_values) at e) in
      (s', rw (one, use_vars) more, m')
]

-- Uses of iterators that are defined on values and destroy every variable that they construct run
-- without a fault and leave nothing on the heap.
pub use_vars-frees :
    (us : List Use) (v : ℕ → Value)
    → use_values us (λ k. outside) ≡ some v
    → ((k : ℕ) → v k ≡ outside)
    → (s : Store) × (use_vars us no_store ≡ ok s) × ((a : ℕ) → s.heap a ≡ none)
use_vars-frees us v e ended =
    let (s, run, m) = use_vars-Models us no_store (λ k. outside) v no_store-Models e in
    (
      s,
      run,
      λ a. elim (Option-cases (s.heap a)) [
        | inl gone ↦ gone
        | inr (it, left) ↦
            let (k, mine) = m.owned a it left in
            let dead = Sees-outside s.heap (s.vars k) (v k) (m.sees k) (ended k) in
            absurd (ground (arith, dead, mine))
      ],
    )
