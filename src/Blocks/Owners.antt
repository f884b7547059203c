-- ===== src/Blocks/Owners.antt =====
-- CompressedFile.h: a `BlockIterator` behaves as a value, and frees what it allocates.
use lzopfs.Base.{
  ℕ, ◌≤◌, ◌≡◌, ◌≢◌, refl, ap, sym, ◌∙◌, List, [], ◌∷◌, Option, none, some, arith, ℕ_discrete, inl,
  inr, ◌⊎◌,
}
use lzopfs.Blocks.{Block}
use lzopfs.Blocks.Iterators.{
  Var, unborn, null, owns, Store, put_at, Use, make, clear, copy, assigns, increments, destroys,
}

-- What a variable is without a heap: the rest of a list of blocks, its own.
pub data Value : Type 0 where
  outside nothing : Value
  from : List Block → Value

-- The blocks of a value, to copy or to go on.
abbrev pub blocks_of : Value → Option (List Block)
blocks_of (from it) = some it
blocks_of v = none

abbrev pub if_outside {ℓ} : {A : Type ℓ} → Value → Option A → Option A
if_outside outside r = r
if_outside v r = none

abbrev pub if_inside {ℓ} : {A : Type ℓ} → Value → Option A → Option A
if_inside outside r = none
if_inside v r = r

-- The program on values; `none` where the language defines no behaviour.
unfoldable pub use_value : Use → (ℕ → Value) → Option (ℕ → Value)
use_value (make k it) v = if_outside (v k) (some (put_at k (from it) v))
use_value (clear k) v = if_outside (v k) (some (put_at k nothing v))
use_value (copy k j) v =
    if_outside (v k)
      (elim (blocks_of (v j)) [ none ↦ none | some it ↦ some (put_at k (from it) v) ])
use_value (assigns k j) v =
    if_inside (v k) (elim (blocks_of (v j)) [ none ↦ none | some it ↦ some (put_at k (from it) v) ])
use_value (increments k) v = elim (blocks_of (v k)) [
  | none ↦ none
  | some [] ↦ none
  | some (b ∷ it) ↦ some (put_at k (from it) v)
]
use_value (destroys k) v = if_inside (v k) (some (put_at k outside v))

unfoldable pub use_values : List Use → (ℕ → Value) → Option (ℕ → Value)
unfolding use_value
use_values [] v = some v
use_values (u ∷ us) v = elim (use_value u v) [ none ↦ none | some v' ↦ use_values us v' ]

-- What a variable has on the heap.
abbrev pub Sees : (ℕ → Option (List Block)) → Var → Value → Type 0
Sees h unborn outside = Unit
Sees h null nothing = Unit
Sees h (owns a) (from it) = h a ≡ some it
Sees h x v = ⊥

-- The variables have these values, no two share an inner iterator, and each on the heap has an owner.
pub record Models (s : Store) (v : ℕ → Value) : Type 0 where
  pub sees : (k : ℕ) → Sees s.heap (s.vars k) (v k)
  pub single : (j k a : ℕ) → s.vars j ≡ owns a → s.vars k ≡ owns a → j ≡ k
  pub below : (a : ℕ) → s.fresh ≤ a → s.heap a ≡ none
  pub owned : (a : ℕ) (it : List Block) → s.heap a ≡ some it → (k : ℕ) × (s.vars k ≡ owns a)

pub put_at-same {ℓ} : {A : Type ℓ} (k : ℕ) (a : A) (f : ℕ → A) → put_at k a f k ≡ a
unfolding put_at
put_at-same k a f = ground arith

pub put_at-other {ℓ} :
    {A : Type ℓ} (k : ℕ) (a : A) (f : ℕ → A) (i : ℕ) → i ≢ k → put_at k a f i ≡ f i
unfolding put_at
put_at-other k a f i ne = ground (arith, ne)

pub Sees-from :
    (h : ℕ → Option (List Block)) (x : Var) (v : Value) (it : List Block)
    → Sees h x v
    → v ≡ from it
    → (a : ℕ) × (x ≡ owns a) × (h a ≡ some it)
Sees-from h (owns a) (from rest) it seen e =
    let same : rest ≡ it = cc in (a, refl, seen ∙ ap some same)
Sees-from h unborn outside it seen e = absurd (ground (arith, e))
Sees-from h null nothing it seen e = absurd (ground (arith, e))
Sees-from h unborn nothing it seen e = absurd seen
Sees-from h unborn (from rest) it seen e = absurd seen
Sees-from h null outside it seen e = absurd seen
Sees-from h null (from rest) it seen e = absurd seen
Sees-from h (owns a) outside it seen e = absurd seen
Sees-from h (owns a) nothing it seen e = absurd seen

pub Sees-outside :
    (h : ℕ → Option (List Block)) (x : Var) (v : Value) → Sees h x v → v ≡ outside → x ≡ unborn
Sees-outside h unborn v seen e = refl
Sees-outside h null outside seen e = absurd seen
Sees-outside h null nothing seen e = absurd (ground (arith, e))
Sees-outside h null (from it) seen e = absurd seen
Sees-outside h (owns a) outside seen e = absurd seen
Sees-outside h (owns a) nothing seen e = absurd seen
Sees-outside h (owns a) (from it) seen e = absurd (ground (arith, e))

-- What is seen does not change when the own object does not.
pub Sees-same :
    (h h' : ℕ → Option (List Block)) (x : Var) (v : Value)
    → ((b : ℕ) → x ≡ owns b → h' b ≡ h b)
    → Sees h x v
    → Sees h' x v
Sees-same h h' (owns a) (from it) same seen = same a refl ∙ seen
Sees-same h h' (owns a) outside same seen = absurd seen
Sees-same h h' (owns a) nothing same seen = absurd seen
Sees-same h h' unborn v same seen = seen
Sees-same h h' null v same seen = seen

module _ (s : Store) (v : ℕ → Value) (m : Models s v) (k : ℕ) where
  -- One variable changes, with what it has on the heap.
  pub record Changed (h : ℕ → Option (List Block)) (fresh : ℕ) (x : Var) (w : Value) : Type 0 where
    pub seen : Sees h x w
    pub same : (i b : ℕ) → i ≢ k → s.vars i ≡ owns b → h b ≡ s.heap b
    pub alone : (j a : ℕ) → j ≢ k → s.vars j ≡ owns a → x ≢ owns a
    pub below : (a : ℕ) → fresh ≤ a → h a ≡ none
    pub owned :
        (a : ℕ) (it : List Block)
        → h a ≡ some it
        → (x ≡ owns a) ⊎ ((j : ℕ) × (j ≢ k) × (s.vars j ≡ owns a))

  pub Changed-Models :
      (h : ℕ → Option (List Block)) (fresh : ℕ) (x : Var) (w : Value)
      → Changed h fresh x w
      → Models (record { heap = h; fresh = fresh; vars = put_at k x s.vars }) (put_at k w v)
  Changed-Models h fresh x w c = record {
    sees = λ i. elim (ℕ_discrete i k) [
      | yes e ↦ rw (e, put_at-same k x s.vars, put_at-same k w v) c.seen
      | no ne ↦
          rw (put_at-other k x s.vars i ne, put_at-other k w v i ne)
            (Sees-same s.heap h (s.vars i) (v i) (λ b e. c.same i b ne e) (m.sees i))
    ];
    single = λ i j a p q. elim (ℕ_discrete i k) [
      | yes e ↦ elim (ℕ_discrete j k) [
        | yes f ↦ e ∙ sym f
        | no nf ↦ absurd (
            c.alone j a nf (sym (put_at-other k x s.vars j nf) ∙ q)
              (sym (put_at-same k x s.vars) ∙ ap (put_at k x s.vars) (sym e) ∙ p))
      ]
      | no ne ↦ elim (ℕ_discrete j k) [
        | yes f ↦ absurd (
            c.alone i a ne (sym (put_at-other k x s.vars i ne) ∙ p)
              (sym (put_at-same k x s.vars) ∙ ap (put_at k x s.vars) (sym f) ∙ q))
        | no nf ↦
            m.single i j a (sym (put_at-other k x s.vars i ne) ∙ p)
              (sym (put_at-other k x s.vars j nf) ∙ q)
      ]
    ];
    below = c.below;
    owned = λ a it e. elim (c.owned a it e) [
      | inl here ↦ (k, put_at-same k x s.vars ∙ here)
      | inr (j, ne, there) ↦ (j, put_at-other k x s.vars j ne ∙ there)
    ];
  }
