-- ===== src/Lru/Methods.antt =====
-- LRUMap.h: `find`, `add` and the setter `maxWeight`, against a list of entries without addresses.
use lzopfs.Base.{
  ℕ, ◌≡◌, ◌<◌, ◌≤◌, refl, sym, ap, subst, List, [], ◌∷◌, Option, none, some, ℕ_discrete, arith, ◌+◌,
  ◌-◌, if_pos, if_neg, ◌∙◌, mod64, sub64, lt→ltb, le→ltb, Option-cases, inl, inr,
}
use mathlib.Core.Option
use lzopfs.Lru.Nodes.{Entry, Node, deref, unlink, map_find}
use lzopfs.Lru.Links.{
  total, lookup, address, deref_above, AddressesDistinct-mono, address-of_lookup,
  lookup-address-none, address-lookup-none,
}
use lzopfs.Lru.Back.{trim, total-trim-le}
use lzopfs.Lru.Room.{IsLinked, entries, make_room_lem, map_find-map_erase, RoomMade}
use lzopfs.Lru.Touch.{touch, mark_new_lem}
use lzopfs.Lru.{LruMap, ok, err, over_weight, empty, make_room, push_new, add, find, set_max_weight}

module _ {ℓ} {K V : Type ℓ} (dec : Discrete K) where
  -- The limit is no part of the links.
  relimit : (m : LruMap K V) (w : ℕ) → IsLinked dec m → IsLinked dec (record m { max_weight = w })
  relimit m w v = record {
    table = v.table;
    keys = v.keys;
    addresses = v.addresses;
    sum = v.sum;
    machine = v.machine;
  }

  -- Linked, and no heavier than allowed.
  pub record IsValid (m : LruMap K V) : Type ℓ where
    pub linked : IsLinked dec m
    pub bounded : m.weight ≤ m.max_weight
    pub limit : m.max_weight < mod64

  pub empty-IsValid : (w : ℕ) → w < mod64 → IsValid (empty w)
  unfolding empty map_find address total
  empty-IsValid w h = record {
    linked = record {
      table = λ q. refl;
      keys = tt;
      addresses = tt;
      sum = refl;
      machine = omega arith;
    };
    bounded = omega arith;
    limit = h;
  }

  -- What `find` promises: the value of the key, if it has one; its entry moves to the front, and
  -- nothing else changes.
  abbrev pub Found : LruMap K V → K → LruMap K V → Option V → Type ℓ
  Found m k m' r =
      IsValid m'
      × (entries m' ≡ touch dec k (entries m))
      × (r ≡ Option.map (λ e. e.value) (lookup dec k (entries m)))
      × (m'.max_weight ≡ m.max_weight)

  deref-front : (i : ℕ) (e : Entry K V) (l : List (Node K V)) → deref i ((i, e) ∷ l) ≡ some e
  unfolding deref
  deref-front i e l = rw (if_pos (ℕ_discrete i i) refl)

  find-hit :
      (m : LruMap K V) (k : K) (i : ℕ)
      → IsValid m
      → map_find dec k m.iters ≡ some i
      → (m' : LruMap K V) × (r : Option V) × (find dec m k ≡ some (m', r)) × Found m k m' r
  unfolding find
  find-hit m k i v h =
      let (e, same, moved, linked, order) =
        mark_new_lem dec m k i v.linked (sym (v.linked.table k) ∙ h) in
      (
        record m { lru = (i, e) ∷ unlink i m.lru },
        some e.value,
        rw (h, find) (rw moved (rw (deref-front i e (unlink i m.lru)))),
        (record { linked = linked; bounded = v.bounded; limit = v.limit }, order, rw same, refl),
      )

  -- A lookup in a valid map never meets a dangling iterator, keeps the map valid and its limit,
  -- yields the value of the key or nothing, and moves a found entry to the front, the others in
  -- their order.
  pub find_lem :
      (m : LruMap K V) (k : K)
      → IsValid m
      → (m' : LruMap K V) × (r : Option V) × (find dec m k ≡ some (m', r)) × Found m k m' r
  unfolding find touch
  find_lem m k v = elim (Option-cases (map_find dec k m.iters)) [
    | inl h ↦
        let absent = address-lookup-none dec k m.lru (sym (v.linked.table k) ∙ h) in
        (m, none, rw (h, find), (v, rw (absent, touch), rw absent, refl))
    | inr (i, h) ↦ find-hit m k i v h
  ]

  lookup-trim-none :
      (k : K) (c : ℕ) (es : List (Entry K V))
      → lookup dec k es ≡ none
      → lookup dec k (trim c es) ≡ none
  unfolding lookup trim
  lookup-trim-none k c [] h = refl
  lookup-trim-none k c (e ∷ es) h = ground (arith, lookup-trim-none k (c - e.weight) es)

  abbrev pub entry_of : K → V → ℕ → Entry K V
  entry_of k v w = record { key = k; value = v; weight = w }

  push_new-IsLinked :
      (m : LruMap K V) (k : K) (v : V) (w : ℕ)
      → IsLinked dec m
      → lookup dec k (entries m) ≡ none
      → m.weight + w < mod64
      → IsLinked dec (push_new dec m k v w)
  unfolding push_new map_find address total
  push_new-IsLinked m k v w linked absent fits = record {
    table = λ q. elim (dec q k) [
      | yes p ↦ rw (if_pos (dec q k) p, if_pos (dec q k) p)
      | no p ↦
          rw (if_neg (dec q k) p, if_neg (dec q k) p)
            (map_find-map_erase dec q k m.iters ∙ rw (if_neg (dec q k) p) (linked.table q))
    ];
    keys = (absent, linked.keys);
    addresses = (
      omega arith,
      deref_above m.fresh m.fresh m.lru linked.addresses (omega arith),
      AddressesDistinct-mono m.fresh (m.fresh + 1) m.lru (omega arith) linked.addresses,
    );
    sum = omega (arith, linked.sum);
    machine = omega arith;
  }

  push_new-IsValid :
      (m r : LruMap K V) (k : K) (v : V) (w : ℕ)
      → IsValid m
      → lookup dec k (entries m) ≡ none
      → w ≤ m.max_weight
      → RoomMade dec (m.max_weight - w) m r
      → IsValid (push_new dec r k v w)
        × (entries (push_new dec r k v w) ≡ entry_of k v w ∷ trim (m.max_weight - w) (entries m))
        × ((push_new dec r k v w).max_weight ≡ m.max_weight)
  unfolding push_new
  push_new-IsValid m r k v w valid absent fits (linked, order, most, fresh) = (
    record {
      linked =
          unfold push_new in
          push_new-IsLinked r k v w linked
            (rw order (lookup-trim-none k (m.max_weight - w) (entries m) absent))
            (omega (arith, linked.sum, room, valid.limit));
      bounded = omega (arith, linked.sum, room, valid.limit);
      limit = rw most valid.limit;
    },
    ap (◌∷◌ (entry_of k v w)) order,
    most,
  )
    where
      room : total (entries r) ≤ m.max_weight - w
      room = rw order (total-trim-le (m.max_weight - w) (entries m))

  -- To add a key that a valid map holds changes no entry and only moves the present one to the
  -- front, with the map valid and its limit kept.
  pub add_present :
      (m : LruMap K V) (k : K) (v : V) (w : ℕ) (e : Entry K V)
      → IsValid m
      → lookup dec k (entries m) ≡ some e
      → (m' : LruMap K V) × (add dec m k v w ≡ ok m')
        × IsValid m'
        × (entries m' ≡ touch dec k (entries m))
        × (m'.max_weight ≡ m.max_weight)
  unfolding add
  add_present m k v w e valid present =
      let (i, at_key) = address-of_lookup dec k m.lru present in
      let (e', same, moved, linked, order) = mark_new_lem dec m k i valid.linked at_key in
      (
        record m { lru = (i, e') ∷ unlink i m.lru },
        rw (valid.linked.table k ∙ at_key, add) (rw moved),
        record { linked = linked; bounded = valid.bounded; limit = valid.limit },
        order,
        refl,
      )

  -- To add an absent key of a weight above the limit to a valid map is the error over_weight.
  pub add_over_weight :
      (m : LruMap K V) (k : K) (v : V) (w : ℕ)
      → IsValid m
      → lookup dec k (entries m) ≡ none
      → m.max_weight < w
      → add dec m k v w ≡ err over_weight
  unfolding add
  add_over_weight m k v w valid absent heavy =
      rw (valid.linked.table k ∙ lookup-address-none dec k m.lru absent, add)
        (rw (lt→ltb m.max_weight w heavy))

  -- To add an absent key of a weight within the limit to a valid map evicts entries from the least
  -- recent on until the rest fits beside the new one, puts the new entry at the front, and keeps the
  -- map valid and its limit.
  pub add_absent :
      (m : LruMap K V) (k : K) (v : V) (w : ℕ)
      → IsValid m
      → lookup dec k (entries m) ≡ none
      → w ≤ m.max_weight
      → (m' : LruMap K V) × (add dec m k v w ≡ ok m')
        × IsValid m'
        × (entries m' ≡ entry_of k v w ∷ trim (m.max_weight - w) (entries m))
        × (m'.max_weight ≡ m.max_weight)
  unfolding add
  add_absent m k v w valid absent fits =
      let room = sub64 m.max_weight w in
      let exact : room ≡ m.max_weight - w = omega (arith, valid.limit) in
      let made = make_room_lem dec room m valid.linked in
      let (kept, order, most) =
        push_new-IsValid m (make_room dec room m) k v w valid absent fits
          (subst (λ c. RoomMade dec c m (make_room dec room m)) exact made) in
      (
        push_new dec (make_room dec room m) k v w,
        rw (valid.linked.table k ∙ lookup-address-none dec k m.lru absent, add)
            (rw (le→ltb m.max_weight w fits)),
        kept,
        order,
        most,
      )

  -- To set a limit below 2^64 on a valid map keeps it valid, evicts from the least recent entry on
  -- what no longer fits, keeps the rest in its order, and takes over the limit.
  pub set_max_weight_lem :
      (m : LruMap K V) (w : ℕ)
      → IsValid m
      → w < mod64
      → IsValid (set_max_weight dec w m)
        × (entries (set_max_weight dec w m) ≡ trim w (entries m))
        × ((set_max_weight dec w m).max_weight ≡ w)
  unfolding set_max_weight
  set_max_weight_lem m w valid h =
      let (linked, order, most, fresh) = make_room_lem dec w m valid.linked in
      (
        record {
          linked = relimit (make_room dec w m) w linked;
          bounded = omega (arith, linked.sum, ap total order, total-trim-le w (entries m));
          limit = h;
        },
        order,
        refl,
      )
