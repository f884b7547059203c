-- ===== src/Lru.antt =====
-- LRUMap.h: a map bounded by weight. The list has the most recent entry at the front. An iterator is
-- the address of a list node, a number that `fresh` has not reached when it was handed out; the hash
-- table is an association list from keys to iterators. A dangling iterator is a fault, `none`.
pub mod Nodes
pub mod Links
pub mod Back
pub mod Room
pub mod Touch
pub mod Methods
pub mod Refines
use lzopfs.Base.{
  ℕ, zero, suc, ◌+◌, ◌-◌, List, [], ◌∷◌, Option, none, some, Bool, true, false, if◌then◌else◌, ltb,
  add64, sub64, length, ◌&&◌,
}
use Nodes.{Entry, Node, deref, unlink, last?, init, map_find, map_erase}

pub record LruMap {ℓ} (K V : Type ℓ) : Type ℓ where
  pub lru : List (Node K V)
  pub iters : List (K × ℕ)
  pub weight : ℕ
  pub max_weight : ℕ
  pub fresh : ℕ

pub data AddError : Type 0 where
  over_weight dangling : AddError

pub data AddResult {ℓ} (A : Type ℓ) : Type ℓ where
  ok : A → AddResult A
  err : AddError → AddResult A

module _ {ℓ} {K V : Type ℓ} where
  -- The constructor.
  unfoldable pub empty : ℕ → LruMap K V
  empty max_weight = record { lru = []; iters = []; weight = 0; max_weight = max_weight; fresh = 0 }

  -- `markNew`: the node that the iterator names goes to the front.
  unfoldable pub mark_new : LruMap K V → ℕ → Option (LruMap K V)
  mark_new m iter = elim (deref iter m.lru) [
    | none ↦ none
    | some e ↦ some (record m { lru = (iter, e) ∷ unlink iter m.lru })
  ]

module _ {ℓ} {K V : Type ℓ} (dec : Discrete K) where
  -- The body of the loop of `makeRoom`.
  unfoldable pub evict : LruMap K V → Node K V → LruMap K V
  evict m (_, e) = record m {
    iters = map_erase dec e.key m.iters;
    weight = sub64 m.weight e.weight;
    lru = init m.lru;
  }

  -- The loop; each round takes a node from the list, so its length is fuel enough.
  unfoldable pub make_room_loop : ℕ → ℕ → LruMap K V → LruMap K V
  unfolding evict
  make_room_loop zero new_weight m = m
  make_room_loop (suc fuel) new_weight m = elim (last? m.lru) [
    | none ↦ m
    | some back ↦ elim (ltb new_weight m.weight) [
      | true ↦ make_room_loop fuel new_weight (evict m back)
      | false ↦ m
    ]
  ]

  unfoldable pub make_room : ℕ → LruMap K V → LruMap K V
  unfolding make_room_loop
  make_room new_weight m = make_room_loop (length m.lru) new_weight m

  -- The setter `maxWeight`.
  unfoldable pub set_max_weight : ℕ → LruMap K V → LruMap K V
  unfolding make_room
  set_max_weight w m = record (make_room w m) { max_weight = w }

  -- The insertion at the end of `add`.
  unfoldable pub push_new : LruMap K V → K → V → ℕ → LruMap K V
  push_new m k v w = record m {
    weight = add64 m.weight w;
    lru = (m.fresh, record { key = k; value = v; weight = w }) ∷ m.lru;
    iters = (k, m.fresh) ∷ map_erase dec k m.iters;
    fresh = m.fresh + 1;
  }

  unfoldable pub add : LruMap K V → K → V → ℕ → AddResult (LruMap K V)
  unfolding mark_new make_room push_new
  add m k v w = elim (map_find dec k m.iters) [
    | some iter ↦ elim (mark_new m iter) [ none ↦ err dangling | some m' ↦ ok m' ]
    | none ↦
        if ltb m.max_weight w
        then err over_weight
        else ok (push_new (make_room (sub64 m.max_weight w) m) k v w)
  ]

  -- `find`: the outer option is a fault, the inner one the null pointer.
  unfoldable pub find : LruMap K V → K → Option (LruMap K V × Option V)
  unfolding mark_new
  find m k = elim (map_find dec k m.iters) [
    | none ↦ some (m, none)
    | some iter ↦ elim (mark_new m iter) [
      | none ↦ none
      | some m' ↦ elim (deref iter m'.lru) [ none ↦ none | some e ↦ some (m', some e.value) ]
    ]
  ]
