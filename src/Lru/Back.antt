-- ===== src/Lru/Back.antt =====
-- LRUMap.h: what `makeRoom` takes from the back of the list, and what stays.
use lzopfs.Base.{
  ℕ, suc, ◌≡◌, ◌≢◌, ◌<◌, ◌≤◌, refl, ap, List, [], ◌∷◌, none, some, ite, arith, ◌+◌, ◌-◌, if_pos,
  if_neg, leb, if◌then◌else◌, length,
}
use lzopfs.Lru.Nodes.{Entry, Node, deref, last?, init}
use lzopfs.Lru.Links.{total, contents, AddressesDistinct, KeysDistinct, lookup, address}

-- The longest front part whose weights fit into the capacity.
unfoldable pub trim {ℓ} : {K V : Type ℓ} → ℕ → List (Entry K V) → List (Entry K V)
trim c [] = []
trim c (e ∷ es) = if leb e.weight c then e ∷ trim (c - e.weight) es else []

module _ {ℓ} {K V : Type ℓ} where
  pub last?-none : (l : List (Node K V)) → last? l ≡ none → l ≡ []
  unfolding last?
  last?-none [] h = refl
  last?-none (n ∷ []) h = cc
  last?-none (n ∷ n' ∷ l) h = absurd (cc (last?-none (n' ∷ l) h))

  pub length-init :
      (l : List (Node K V)) (back : Node K V)
      → last? l ≡ some back
      → suc (length (init l)) ≡ length l
  unfolding last? init
  length-init [] back h = cc
  length-init (n ∷ []) back h = refl
  length-init (n ∷ n' ∷ l) back h = ap suc (length-init (n' ∷ l) back h)

  pub total-init :
      (l : List (Node K V)) (back : Node K V)
      → last? l ≡ some back
      → total (contents (init l)) + back.1.weight ≡ total (contents l)
  unfolding last? init total
  total-init [] back h = cc
  total-init (n ∷ []) back h = ground arith
  total-init (n ∷ n' ∷ l) back h = omega (arith, total-init (n' ∷ l) back h)

  pub deref-init-none : (i : ℕ) (l : List (Node K V)) → deref i l ≡ none → deref i (init l) ≡ none
  unfolding deref init
  deref-init-none i [] h = refl
  deref-init-none i (n ∷ []) h = refl
  deref-init-none i (n ∷ n' ∷ l) h = ground (arith, deref-init-none i (n' ∷ l))

  pub init-AddressesDistinct :
      (b : ℕ) (l : List (Node K V)) → AddressesDistinct b l → AddressesDistinct b (init l)
  unfolding init
  init-AddressesDistinct b [] d = tt
  init-AddressesDistinct b (n ∷ []) d = tt
  init-AddressesDistinct b (n ∷ n' ∷ l) d =
      (d.0, deref-init-none n.0 (n' ∷ l) d.1, init-AddressesDistinct b (n' ∷ l) d.2)

  pub trim_fits : (c : ℕ) (es : List (Entry K V)) → total es ≤ c → trim c es ≡ es
  unfolding trim total
  trim_fits c [] h = refl
  trim_fits c (e ∷ es) h = ground (arith, trim_fits (c - e.weight) es)

  -- Where the whole does not fit, the last entry does not count.
  pub trim-init :
      (c : ℕ) (l : List (Node K V))
      → c < total (contents l)
      → trim c (contents (init l)) ≡ trim c (contents l)
  unfolding trim total init
  trim-init c [] h = refl
  trim-init c (n ∷ []) h = ground arith
  trim-init c (n ∷ n' ∷ l) h = ground (arith, trim-init (c - n.1.weight) (n' ∷ l))

  pub total-trim-le : (c : ℕ) (es : List (Entry K V)) → total (trim c es) ≤ c
  unfolding trim total
  total-trim-le c [] = omega arith
  total-trim-le c (e ∷ es) = ground (arith, total-trim-le (c - e.weight) es)

module _ {ℓ} {K V : Type ℓ} (dec : Discrete K) where
  pub lookup-init-none :
      (k : K) (l : List (Node K V))
      → lookup dec k (contents l) ≡ none
      → lookup dec k (contents (init l)) ≡ none
  unfolding lookup init
  lookup-init-none k [] h = refl
  lookup-init-none k (n ∷ []) h = refl
  lookup-init-none k (n ∷ n' ∷ l) h = ground (arith, lookup-init-none k (n' ∷ l))

  pub init-KeysDistinct :
      (l : List (Node K V)) → KeysDistinct dec (contents l) → KeysDistinct dec (contents (init l))
  unfolding init
  init-KeysDistinct [] d = tt
  init-KeysDistinct (n ∷ []) d = tt
  init-KeysDistinct (n ∷ n' ∷ l) d =
      (lookup-init-none n.1.key (n' ∷ l) d.0, init-KeysDistinct (n' ∷ l) d.1)

  pub last-found :
      (l : List (Node K V)) (back : Node K V)
      → last? l ≡ some back
      → lookup dec back.1.key (contents l) ≢ none
  unfolding last? lookup
  last-found [] back h = cc
  last-found (n ∷ []) back h = ground arith
  last-found (n ∷ n' ∷ l) back h = ground (arith, last-found (n' ∷ l) back h)

  -- Without the last node only its key is gone.
  pub address-init :
      (q : K) (l : List (Node K V)) (back : Node K V)
      → KeysDistinct dec (contents l)
      → last? l ≡ some back
      → address dec q (init l) ≡ ite (dec q back.1.key) none (address dec q l)
  unfolding last? init address
  address-init q [] back d h = cc
  address-init q (n ∷ []) back d h = ground arith
  address-init q (n ∷ n' ∷ l) back d h = elim (dec q n.1.key) [
    | yes p ↦
        let other : q ≢ back.1.key = λ e. last-found (n' ∷ l) back h (rw (← e, p) d.0) in
        rw (if_neg (dec q back.1.key) other, if_pos (dec q n.1.key) p, if_pos (dec q n.1.key) p)
    | no p ↦
        rw (if_neg (dec q n.1.key) p, if_neg (dec q n.1.key) p) (address-init q (n' ∷ l) back d.1 h)
  ]
