-- ===== src/Lru/Nodes.antt =====
-- LRUMap.h: the entries, and what the map uses of `std::list` and `unordered_map`.
use lzopfs.Base.{ℕ, List, [], ◌∷◌, Option, none, some, ite, ℕ_discrete}

pub record Entry {ℓ} (K V : Type ℓ) : Type ℓ where
  pub key : K
  pub value : V
  pub weight : ℕ

-- A list node at its address.
abbrev pub Node {ℓ} : (K V : Type ℓ) → Type ℓ
Node K V = ℕ × Entry K V

module _ {ℓ} {A : Type ℓ} where
  -- `back`
  unfoldable pub last? : List A → Option A
  last? [] = none
  last? (x ∷ []) = some x
  last? (x ∷ y ∷ l) = last? (y ∷ l)

  -- `pop_back`
  unfoldable pub init : List A → List A
  init [] = []
  init (x ∷ []) = []
  init (x ∷ y ∷ l) = x ∷ init (y ∷ l)

module _ {ℓ} {K V : Type ℓ} where
  -- The entry at an address.
  unfoldable pub deref : ℕ → List (Node K V) → Option (Entry K V)
  deref i [] = none
  deref i ((j, e) ∷ l) = ite (ℕ_discrete i j) (some e) (deref i l)

  -- What a `splice` of one node leaves behind.
  unfoldable pub unlink : ℕ → List (Node K V) → List (Node K V)
  unlink i [] = []
  unlink i ((j, e) ∷ l) = ite (ℕ_discrete i j) l ((j, e) ∷ unlink i l)

module _ {ℓ} {K : Type ℓ} (dec : Discrete K) where
  unfoldable pub map_find : K → List (K × ℕ) → Option ℕ
  map_find k [] = none
  map_find k ((q, i) ∷ t) = ite (dec k q) (some i) (map_find k t)

  unfoldable pub map_erase : K → List (K × ℕ) → List (K × ℕ)
  map_erase k [] = []
  map_erase k ((q, i) ∷ t) = ite (dec k q) (map_erase k t) ((q, i) ∷ map_erase k t)
