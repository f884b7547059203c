-- ===== src/Lru/Links.antt =====
-- LRUMap.h: facts about the node list, by address and by key.
use lzopfs.Base.{
  ℕ, ◌≡◌, ◌≢◌, ◌<◌, ◌≤◌, refl, sym, ap, List, [], ◌∷◌, Option, none, some, ite, ℕ_discrete, arith,
  ◌+◌, if_pos, if_neg,
}
use lzopfs.Lru.Nodes.{Entry, Node, deref, unlink}

module _ {ℓ} {K V : Type ℓ} where
  unfoldable pub total : List (Entry K V) → ℕ
  total [] = 0
  total (e ∷ es) = e.weight + total es

  abbrev pub contents : List (Node K V) → List (Entry K V)
  contents [] = []
  contents (n ∷ l) = n.1 ∷ contents l

  -- No two nodes share an address, and all addresses lie below the bound.
  abbrev pub AddressesDistinct : ℕ → List (Node K V) → Type ℓ
  AddressesDistinct b [] = Unit
  AddressesDistinct b (n ∷ l) = (n.0 < b) × (deref n.0 l ≡ none) × AddressesDistinct b l

  pub deref_above :
      (b i : ℕ) (l : List (Node K V)) → AddressesDistinct b l → b ≤ i → deref i l ≡ none
  unfolding deref
  deref_above b i [] d h = refl
  deref_above b i (n ∷ l) d h = ground (arith, deref_above b i l d.2)

  pub deref-unlink-none :
      (i j : ℕ) (l : List (Node K V)) → deref i l ≡ none → deref i (unlink j l) ≡ none
  unfolding deref unlink
  deref-unlink-none i j [] h = refl
  deref-unlink-none i j (n ∷ l) h = ground (arith, deref-unlink-none i j l)

  pub deref-unlink_self :
      (b i : ℕ) (l : List (Node K V)) → AddressesDistinct b l → deref i (unlink i l) ≡ none
  unfolding deref unlink
  deref-unlink_self b i [] d = refl
  deref-unlink_self b i (n ∷ l) d = ground (arith, deref-unlink_self b i l d.2)

  pub unlink-AddressesDistinct :
      (b i : ℕ) (l : List (Node K V)) → AddressesDistinct b l → AddressesDistinct b (unlink i l)
  unfolding unlink
  unlink-AddressesDistinct b i [] d = tt
  unlink-AddressesDistinct b i (n ∷ l) d =
      ground (arith, unlink-AddressesDistinct b i l d.2, deref-unlink-none n.0 i l d.1)

  pub total-unlink :
      (i : ℕ) (l : List (Node K V)) {e : Entry K V}
      → deref i l ≡ some e
      → e.weight + total (contents (unlink i l)) ≡ total (contents l)
  unfolding deref unlink total
  total-unlink i [] h = cc
  total-unlink i (n ∷ l) {e} h = elim (ℕ_discrete i n.0) [
    | yes p ↦ ground arith
    | no p ↦ rw (if_neg _ p) (omega (arith, total-unlink i l {e = e} (rw (if_neg _ p) at h)))
  ]

  -- A node that is found behind the first one has another address.
  pub address-ne :
      {i : ℕ} {e : Entry K V} (n : Node K V) (l : List (Node K V))
      → deref n.0 l ≡ none
      → deref i l ≡ some e
      → i ≢ n.0
  address-ne n l fresh found p = cc

  pub deref-skip :
      (i : ℕ) {e : Entry K V} (n : Node K V) (l : List (Node K V))
      → deref n.0 l ≡ none
      → deref i l ≡ some e
      → deref i (n ∷ l) ≡ some e
  unfolding deref
  deref-skip i n l fresh found = rw (if_neg _ (λ p. address-ne n l fresh found p)) found

  pub AddressesDistinct-mono :
      (b c : ℕ) (l : List (Node K V)) → b ≤ c → AddressesDistinct b l → AddressesDistinct c l
  AddressesDistinct-mono b c [] h d = tt
  AddressesDistinct-mono b c (n ∷ l) h d = (omega arith, d.1, AddressesDistinct-mono b c l h d.2)

module _ {ℓ} {K V : Type ℓ} (dec : Discrete K) where
  -- The entry of a key, and the rest without it: what the map means to its users.
  unfoldable pub lookup : K → List (Entry K V) → Option (Entry K V)
  lookup k [] = none
  lookup k (e ∷ es) = ite (dec k e.key) (some e) (lookup k es)

  unfoldable pub remove : K → List (Entry K V) → List (Entry K V)
  remove k [] = []
  remove k (e ∷ es) = ite (dec k e.key) es (e ∷ remove k es)

  abbrev pub KeysDistinct : List (Entry K V) → Type ℓ
  KeysDistinct [] = Unit
  KeysDistinct (e ∷ es) = (lookup e.key es ≡ none) × KeysDistinct es

  -- The address of a key's node.
  unfoldable pub address : K → List (Node K V) → Option ℕ
  address k [] = none
  address k (n ∷ l) = ite (dec k n.1.key) (some n.0) (address k l)

  pub address-lookup-none :
      (k : K) (l : List (Node K V)) → address k l ≡ none → lookup k (contents l) ≡ none
  unfolding address lookup
  address-lookup-none k [] h = refl
  address-lookup-none k (n ∷ l) h = elim (dec k n.1.key) [
    | yes p ↦ absurd (cc (rw (if_pos _ p) at h))
    | no p ↦ rw (if_neg _ p) (address-lookup-none k l (rw (if_neg _ p) at h))
  ]

  pub lookup-address-none :
      (k : K) (l : List (Node K V)) → lookup k (contents l) ≡ none → address k l ≡ none
  unfolding address lookup
  lookup-address-none k [] h = refl
  lookup-address-none k (n ∷ l) h = elim (dec k n.1.key) [
    | yes p ↦ absurd (cc (rw (if_pos _ p) at h))
    | no p ↦ rw (if_neg _ p) (lookup-address-none k l (rw (if_neg _ p) at h))
  ]

  pub address-of_lookup :
      (k : K) (l : List (Node K V)) {e : Entry K V}
      → lookup k (contents l) ≡ some e
      → (i : ℕ) × (address k l ≡ some i)
  unfolding address lookup
  address-of_lookup k [] h = cc
  address-of_lookup k (n ∷ l) {e} h = elim (dec k n.1.key) [
    | yes p ↦ (n.0, rw (if_pos _ p))
    | no p ↦
        let (i, found) = address-of_lookup k l {e = e} (rw (if_neg _ p) at h) in
        (i, rw (if_neg _ p) found)
  ]

  -- An address in the table leads to the entry of its key.
  pub deref-address :
      (b : ℕ) (k : K) (i : ℕ) (l : List (Node K V))
      → AddressesDistinct b l
      → address k l ≡ some i
      → (e : Entry K V) × (deref i l ≡ some e) × (lookup k (contents l) ≡ some e) × (e.key ≡ k)
  unfolding address deref lookup
  deref-address b k i [] d h = cc
  deref-address b k i (n ∷ l) d h = elim (dec k n.1.key) [
    | yes p ↦
        let here : n.0 ≡ i = cc (rw (if_pos _ p) at h) in
        (n.1, rw (if_pos _ (sym here)), rw (if_pos _ p), sym p)
    | no p ↦
        let (e, found, same, key) = deref-address b k i l d.2 (rw (if_neg _ p) at h) in
        (e, deref-skip i n l d.1 found, rw (if_neg _ p) same, key)
  ]

  pub contents-unlink :
      (b : ℕ) (k : K) (i : ℕ) (l : List (Node K V))
      → AddressesDistinct b l
      → address k l ≡ some i
      → contents (unlink i l) ≡ remove k (contents l)
  unfolding address unlink remove deref
  contents-unlink b k i [] d h = cc
  contents-unlink b k i (n ∷ l) d h = elim (dec k n.1.key) [
    | yes p ↦ let here : n.0 ≡ i = cc (rw (if_pos _ p) at h) in rw (if_pos _ p, if_pos _ (sym here))
    | no p ↦
        let rest = rw (if_neg _ p) at h in
        let (e, found, same, key) = deref-address b k i l d.2 rest in
        rw (if_neg _ p, if_neg _ (address-ne n l d.1 found))
          (ap (◌∷◌ n.1) (contents-unlink b k i l d.2 rest))
  ]
