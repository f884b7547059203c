-- ===== src/Blocks/Uses.antt =====
-- CompressedFile.h: each use of a `BlockIterator` does what it does on values.
use lzopfs.Base.{ℕ, ◌≡◌, ◌≢◌, refl, ◌∙◌, subst, List, ◌∷◌, none, some, arith, inl, inr}
use lzopfs.Blocks.{Block, ok}
use lzopfs.Blocks.Iterators.{
  Var, unborn, null, owns, Store, put_at, set_var, allocate, inner, release_inner, dup_inner,
  destroy, increment, Use, make, clear, copy, assigns, increments, destroys, unborn_only, use_var,
}
use lzopfs.Blocks.Owners.{
  Value, outside, nothing, from, use_value, Models, put_at-other, Sees-from, Sees-outside,
  Changed-Models,
}
use lzopfs.Blocks.Values.{old, grows, drops, frees, moves, replaces}
use lzopfs.Blocks.Cases.{
  if_outside-some, copied, inside_cases, not_owner, advanced, put_at_self, Models-vars,
}

-- A store does what a use of a variable asks for.
abbrev pub Does : Use → Store → (ℕ → Value) → Type 0
Does u s v = (s' : Store) × (use_var u s ≡ ok s') × Models s' v

dup_inner-ok :
    (s : Store) (j c : ℕ) (it : List Block)
    → s.vars j ≡ owns c
    → s.heap c ≡ some it
    → dup_inner (s.vars j) s ≡ ok (allocate it s)
unfolding dup_inner inner
dup_inner-ok s j c it own there = rw (own, dup_inner) (rw (there, inner) refl)

destroy-ok :
    (s : Store) (x : Var) (a : ℕ) (it : List Block)
    → x ≡ owns a
    → s.heap a ≡ some it
    → destroy x s ≡ ok (record s { heap = put_at a none s.heap })
unfolding destroy release_inner inner
destroy-ok s x a it own there = rw (own, destroy) (rw (there, inner) refl)

assigns-run :
    (s : Store) (k j : ℕ) (s₁ s₂ : Store)
    → dup_inner (s.vars j) s ≡ ok s₁
    → destroy (s.vars k) (set_var k (owns s.fresh) s₁) ≡ ok s₂
    → use_var (assigns k j) s ≡ ok s₂
unfolding use_var
assigns-run s k j s₁ s₂ d e = rw (d, use_var) e

module _ (s : Store) (v v' : ℕ → Value) (m : Models s v) (k : ℕ) where
  unborn_free : s.vars k ≡ unborn → (a : ℕ) → s.vars k ≢ owns a
  unborn_free e = not_owner s k unborn e (λ a h. ground (arith, h))

  null_free : s.vars k ≡ null → (a : ℕ) → s.vars k ≢ owns a
  null_free e = not_owner s k null e (λ a h. ground (arith, h))

  pub make-Does : (it : List Block) → use_value (make k it) v ≡ some v' → Does (make k it) s v'
  unfolding use_value use_var unborn_only
  make-Does it e =
      let (outer, same) = if_outside-some (v k) _ v' e in
      let new = Sees-outside s.heap (s.vars k) (v k) (m.sees k) outer in
      (
        set_var k (owns s.fresh) (allocate it s),
        rw (new, use_var) refl,
        subst (Models (set_var k (owns s.fresh) (allocate it s))) (cc)
            (Changed-Models s v m k _ _ _ _ (grows s v m k it (unborn_free new))),
      )

  pub clear-Does : use_value (clear k) v ≡ some v' → Does (clear k) s v'
  unfolding use_value use_var unborn_only
  clear-Does e =
      let (outer, same) = if_outside-some (v k) _ v' e in
      let new = Sees-outside s.heap (s.vars k) (v k) (m.sees k) outer in
      (
        set_var k null s,
        rw (new, use_var) refl,
        subst (Models (set_var k null s)) (cc) (
            Changed-Models s v m k _ _ _ _
              (drops s v m k null nothing tt (unborn_free new) (λ a h. ground (arith, h)))),
      )

  pub copy-Does : (j : ℕ) → use_value (copy k j) v ≡ some v' → Does (copy k j) s v'
  unfolding use_value use_var unborn_only dup_inner inner
  copy-Does j e =
      let (outer, same) = if_outside-some (v k) _ v' e in
      let new = Sees-outside s.heap (s.vars k) (v k) (m.sees k) outer in
      let (it, source, value) = copied (v j) (λ it. put_at k (from it) v) v' same in
      let (a, mine, there) = Sees-from s.heap (s.vars j) (v j) it (m.sees j) source in
      (
        set_var k (owns s.fresh) (allocate it s),
        rw (new, use_var) (rw (mine, dup_inner) (rw (there, inner) refl)),
        subst (Models (set_var k (owns s.fresh) (allocate it s))) value
            (Changed-Models s v m k _ _ _ _ (grows s v m k it (unborn_free new))),
      )

  pub destroys-Does : use_value (destroys k) v ≡ some v' → Does (destroys k) s v'
  unfolding use_value use_var destroy release_inner inner
  destroys-Does e =
      let (same, has) = inside_cases s.heap (s.vars k) (v k) _ v' (m.sees k) e in
      elim has [
        | inl none_there ↦ (
          set_var k unborn s,
          rw (none_there, use_var) refl,
          subst (Models (set_var k unborn s)) (cc) (
              Changed-Models s v m k _ _ _ _ (
                drops s v m k unborn outside tt (null_free none_there) (λ a h. ground (arith, h)))),
        )
        | inr (a, it, mine, there) ↦
            let s' = set_var k unborn (record s { heap = put_at a none s.heap }) in
            (
              s',
              rw (mine, use_var) (rw (there, inner) refl),
              subst (Models s') (cc) (Changed-Models s v m k _ _ _ _ (frees s v m k a mine)),
            )
      ]

  pub assigns-Does : (j : ℕ) → use_value (assigns k j) v ≡ some v' → Does (assigns k j) s v'
  unfolding use_value use_var dup_inner destroy release_inner inner
  assigns-Does j e =
      let (same, has) = inside_cases s.heap (s.vars k) (v k) _ v' (m.sees k) e in
      let (it, source, value) = copied (v j) (λ it. put_at k (from it) v) v' same in
      let (c, own, there) = Sees-from s.heap (s.vars j) (v j) it (m.sees j) source in
      let grown = set_var k (owns s.fresh) (allocate it s) in
      elim has [
        | inl none_there ↦ (
          grown,
          rw (own, use_var) (rw (there, inner) (rw (none_there, destroy) refl)),
          subst (Models grown) value
              (Changed-Models s v m k _ _ _ _ (grows s v m k it (null_free none_there))),
        )
        | inr (a, rest, mine, here) ↦
            let s' = record grown { heap = put_at a none grown.heap } in
            (
              s',
              assigns-run s k j (allocate it s) s' (dup_inner-ok s j c it own there) (
                  destroy-ok grown (s.vars k) a rest mine
                    (put_at-other s.fresh (some it) s.heap a (old s v m k a mine) ∙ here)),
              subst (Models s') value (Changed-Models s v m k _ _ _ _ (replaces s v m k a mine it)),
            )
      ]

  pub increments-Does : use_value (increments k) v ≡ some v' → Does (increments k) s v'
  unfolding use_value use_var increment inner
  increments-Does e =
      let (b, rest, at, value) = advanced (v k) (λ it. put_at k (from it) v) v' e in
      let (a, mine, there) = Sees-from s.heap (s.vars k) (v k) (b ∷ rest) (m.sees k) at in
      let s' = record s { heap = put_at a (some rest) s.heap } in
      (
        s',
        rw (mine, use_var) (rw (there, inner) refl),
        subst (Models s') value (
            Models-vars s'.heap s'.fresh (put_at k (owns a) s.vars) s.vars _
              (put_at_self k (owns a) s.vars mine)
              (Changed-Models s v m k _ _ _ _ (moves s v m k a mine rest))),
      )
