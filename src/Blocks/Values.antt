-- ===== src/Blocks/Values.antt =====
-- CompressedFile.h: each use of a `BlockIterator` keeps what `Models` says.
use lzopfs.Base.{
  ℕ, suc, ◌<◌, ◌≡◌, ◌≢◌, refl, ap, sym, ◌∙◌, List, none, some, arith, ℕ_discrete, dec_lt, inl, inr,
}
use lzopfs.Blocks.{Block}
use lzopfs.Blocks.Iterators.{Var, unborn, null, owns, Store, put_at}
use lzopfs.Blocks.Owners.{
  Value, outside, nothing, from, Sees, Models, put_at-same, put_at-other, Changed,
}

pub owns_inj : {a b : ℕ} → owns a ≡ owns b → a ≡ b
owns_inj e = cc

module _ (s : Store) (v : ℕ → Value) (m : Models s v) where
  -- What a variable owns is on the heap, and so below what comes next.
  live : (i b : ℕ) → s.vars i ≡ owns b → b < s.fresh
  live i b e = elim (dec_lt b s.fresh) [
    | yes lt ↦ lt
    | no over ↦ absurd (dead (s.vars i) (v i) (m.sees i) e (m.below b (omega (arith, over))))
  ]
    where
      dead : (x : Var) (w : Value) → Sees s.heap x w → x ≡ owns b → s.heap b ≡ none → ⊥
      dead (owns c) (from it) seen h gone =
          let here : c ≡ b = owns_inj h in ground (arith, seen, ap s.heap here, gone)
      dead (owns c) outside seen h gone = seen
      dead (owns c) nothing seen h gone = seen
      dead unborn w seen h gone = ground (arith, h)
      dead null w seen h gone = ground (arith, h)

  pub old : (i b : ℕ) → s.vars i ≡ owns b → b ≢ s.fresh
  old i b e same = omega (arith, live i b e, same)

  module _ (k : ℕ) where
    pub grows :
        (it : List Block)
        → ((a : ℕ) → s.vars k ≢ owns a)
        → Changed s v m k (put_at s.fresh (some it) s.heap) (suc s.fresh) (owns s.fresh) (from it)
    grows it free = record {
      seen = put_at-same s.fresh (some it) s.heap;
      same = λ i b ne e. put_at-other s.fresh (some it) s.heap b (old i b e);
      alone = λ j a ne e same. old j a e (sym (owns_inj same));
      below = λ a le.
          put_at-other s.fresh (some it) s.heap a (λ e. omega (arith, le, e))
          ∙ m.below a (omega (arith, le));
      owned = λ a rest e. elim (ℕ_discrete a s.fresh) [
        | yes here ↦ inl (ap owns (sym here))
        | no other ↦
            let (j, there) =
              m.owned a rest (sym (put_at-other s.fresh (some it) s.heap a other) ∙ e) in
            inr (j, λ same. free a (ap s.vars (sym same) ∙ there), there)
      ];
    }

    pub drops :
        (x : Var) (w : Value)
        → Sees s.heap x w
        → ((a : ℕ) → s.vars k ≢ owns a)
        → ((a : ℕ) → x ≢ owns a)
        → Changed s v m k s.heap s.fresh x w
    drops x w seen free empty = record {
      seen = seen;
      same = λ i b ne e. refl;
      alone = λ j a ne e. empty a;
      below = m.below;
      owned = λ a it e.
          let (j, there) = m.owned a it e in
          inr (j, λ same. free a (ap s.vars (sym same) ∙ there), there);
    }

    module _ (a : ℕ) (mine : s.vars k ≡ owns a) where
      others : (i b : ℕ) → i ≢ k → s.vars i ≡ owns b → b ≢ a
      others i b ne e same = ne (m.single i k a (e ∙ ap owns same) mine)

      pub frees : Changed s v m k (put_at a none s.heap) s.fresh unborn outside
      frees = record {
        seen = tt;
        same = λ i b ne e. put_at-other a none s.heap b (others i b ne e);
        alone = λ j b ne e same. ground (arith, same);
        below = λ b le. elim (ℕ_discrete b a) [
          | yes here ↦ rw (here, put_at-same a none s.heap) refl
          | no there ↦ put_at-other a none s.heap b there ∙ m.below b le
        ];
        owned = λ b it e. elim (ℕ_discrete b a) [
          | yes here ↦
              absurd (ground (arith, e, ap (put_at a none s.heap) here, put_at-same a none s.heap))
          | no there ↦
              let (j, is) = m.owned b it (sym (put_at-other a none s.heap b there) ∙ e) in
              inr (j, λ same. there (owns_inj (sym is ∙ ap s.vars same ∙ mine)), is)
        ];
      }

      pub moves :
          (rest : List Block)
          → Changed s v m k (put_at a (some rest) s.heap) s.fresh (owns a) (from rest)
      moves rest = record {
        seen = put_at-same a (some rest) s.heap;
        same = λ i b ne e. put_at-other a (some rest) s.heap b (others i b ne e);
        alone = λ j b ne e same. others j b ne e (sym (owns_inj same));
        below = λ b le.
            put_at-other a (some rest) s.heap b (λ here. omega (arith, live k a mine, here, le))
            ∙ m.below b le;
        owned = λ b it e. elim (ℕ_discrete b a) [
          | yes here ↦ inl (ap owns (sym here))
          | no there ↦
              let (j, is) = m.owned b it (sym (put_at-other a (some rest) s.heap b there) ∙ e) in
              inr (j, λ same. there (owns_inj (sym is ∙ ap s.vars same ∙ mine)), is)
        ];
      }

      -- Its old object goes, and it gets a new one.
      pub replaces :
          (it : List Block)
          → Changed s v m k
              (put_at a none (put_at s.fresh (some it) s.heap))
              (suc s.fresh)
              (owns s.fresh)
              (from it)
      replaces it =
          let h = put_at s.fresh (some it) s.heap in
          record {
            seen =
                put_at-other a none h s.fresh (λ e. old k a mine (sym e))
                ∙ put_at-same s.fresh (some it) s.heap;
            same = λ i b ne e.
                put_at-other a none h b (others i b ne e)
                ∙ put_at-other s.fresh (some it) s.heap b (old i b e);
            alone = λ j b ne e same. old j b e (sym (owns_inj same));
            below = λ b le.
                put_at-other a none h b (λ here. omega (arith, live k a mine, here, le))
                ∙ put_at-other s.fresh (some it) s.heap b (λ here. omega (arith, here, le))
                ∙ m.below b (omega (arith, le));
            owned = λ b rest e. elim (ℕ_discrete b a) [
              | yes here ↦
                  absurd (ground (arith, e, ap (put_at a none h) here, put_at-same a none h))
              | no there ↦ elim (ℕ_discrete b s.fresh) [
                | yes new ↦ inl (ap owns (sym new))
                | no other ↦
                    let unchanged =
                      put_at-other a none h b there
                      ∙ put_at-other s.fresh (some it) s.heap b other in
                    let (j, is) = m.owned b rest (sym unchanged ∙ e) in
                    inr (j, λ same. there (owns_inj (sym is ∙ ap s.vars same ∙ mine)), is)
              ]
            ];
          }
