-- ===== src/Blocks/Cases.antt =====
-- CompressedFile.h: what a use of a `BlockIterator` that values allow says of its variables.
use lzopfs.Base.{
  ℕ, ◌≡◌, ◌≢◌, refl, sym, ◌∙◌, subst, List, [], ◌∷◌, Option, none, some, arith, ℕ_discrete, inl,
  inr, ◌⊎◌,
}
use lzopfs.Blocks.{Block}
use lzopfs.Blocks.Iterators.{Var, unborn, null, owns, Store, put_at, no_store}
use lzopfs.Blocks.Owners.{
  Value, outside, nothing, from, blocks_of, if_outside, if_inside, Sees, Models, put_at-same,
  put_at-other,
}

pub if_outside-some {ℓ} :
    {A : Type ℓ} (w : Value) (r : Option A) (x : A)
    → if_outside w r ≡ some x
    → (w ≡ outside) × (r ≡ some x)
if_outside-some outside r x e = (refl, e)
if_outside-some nothing r x e = absurd (cc)
if_outside-some (from it) r x e = absurd (cc)

-- A copy of a value has its blocks.
pub copied :
    (w : Value) (f : List Block → ℕ → Value) (x : ℕ → Value)
    → (elim (blocks_of w) as (λ o. Option (ℕ → Value)) [ none ↦ none | some it ↦ some (f it) ])
      ≡ some x
    → (it : List Block) × (w ≡ from it) × (f it ≡ x)
copied (from it) f x e = (it, refl, cc)
copied outside f x e = absurd (cc)
copied nothing f x e = absurd (cc)

-- What a variable inside its lifetime has.
pub inside_cases :
    (h : ℕ → Option (List Block)) (x : Var) (w : Value) (r : Option (ℕ → Value)) (v' : ℕ → Value)
    → Sees h x w
    → if_inside w r ≡ some v'
    → (r ≡ some v') × ((x ≡ null) ⊎ ((a : ℕ) × (it : List Block) × (x ≡ owns a) × (h a ≡ some it)))
inside_cases h null nothing r v' seen e = (e, inl refl)
inside_cases h (owns a) (from it) r v' seen e = (e, inr (a, it, refl, seen))
inside_cases h unborn outside r v' seen e = absurd (cc)
inside_cases h unborn nothing r v' seen e = absurd seen
inside_cases h unborn (from it) r v' seen e = absurd seen
inside_cases h null outside r v' seen e = absurd seen
inside_cases h null (from it) r v' seen e = absurd seen
inside_cases h (owns a) outside r v' seen e = absurd seen
inside_cases h (owns a) nothing r v' seen e = absurd seen

pub not_owner :
    (s : Store) (k : ℕ) (x : Var)
    → s.vars k ≡ x
    → ((a : ℕ) → x ≢ owns a)
    → (a : ℕ) → s.vars k ≢ owns a
not_owner s k x e empty a h = empty a (sym e ∙ h)

-- A value goes on when blocks are left.
pub advanced :
    (w : Value) (f : List Block → ℕ → Value) (x : ℕ → Value)
    → (elim (blocks_of w) as (λ o. Option (ℕ → Value)) [
      | none ↦ none
      | some [] ↦ none
      | some (b ∷ it) ↦ some (f it)
    ])
      ≡ some x
    → (b : Block) × (it : List Block) × (w ≡ from (b ∷ it)) × (f it ≡ x)
advanced (from (b ∷ it)) f x e = (b, it, refl, cc)
advanced (from []) f x e = absurd (cc)
advanced outside f x e = absurd (cc)
advanced nothing f x e = absurd (cc)

pub put_at_self {ℓ} :
    {A : Type ℓ} (k : ℕ) (a : A) (f : ℕ → A) → f k ≡ a → (i : ℕ) → put_at k a f i ≡ f i
put_at_self k a f e i = elim (ℕ_discrete i k) [
  | yes here ↦ rw here (put_at-same k a f ∙ sym e)
  | no other ↦ put_at-other k a f i other
]

-- Only what the variables are matters.
pub Models-vars :
    (h : ℕ → Option (List Block)) (n : ℕ) (f g : ℕ → Var) (v : ℕ → Value)
    → ((i : ℕ) → f i ≡ g i)
    → Models (record { heap = h; fresh = n; vars = f }) v
    → Models (record { heap = h; fresh = n; vars = g }) v
Models-vars h n f g v e m = record {
  sees = λ k. subst (λ x. Sees h x (v k)) (e k) (m.sees k);
  single = λ j k a p q. m.single j k a (e j ∙ p) (e k ∙ q);
  below = m.below;
  owned = λ a it l. let (k, mine) = m.owned a it l in (k, sym (e k) ∙ mine);
}

pub no_store-Models : Models no_store (λ k. outside)
no_store-Models = record {
  sees = λ k. tt;
  single = λ j k a p q. absurd (ground (arith, p));
  below = λ a le. refl;
  owned = λ a it e. absurd (ground (arith, e));
}
