-- ===== src/Lru/Room.antt =====
-- LRUMap.h: the invariant of the map, and `makeRoom`.
use lzopfs.Base.{
  ℕ, zero, suc, ◌≡◌, ◌≢◌, ◌<◌, ◌≤◌, refl, sym, ap, List, [], ◌∷◌, none, some, ite, arith, if_pos,
  if_neg, true, ltb, length, mod64, Bool-cases, Option-cases, ◌∙◌, inl, inr, ltb→lt, ltb→le,
}
use lzopfs.Lru.Nodes.{Entry, Node, last?, map_find, map_erase}
use lzopfs.Lru.Links.{total, contents, AddressesDistinct, KeysDistinct, address}
use lzopfs.Lru.Back.{
  trim, last?-none, length-init, total-init, init-AddressesDistinct, trim_fits, trim-init,
  init-KeysDistinct, address-init,
}
use lzopfs.Lru.{LruMap, evict, make_room_loop, make_room}

module _ {ℓ} {K : Type ℓ} (dec : Discrete K) where
  map_find-map_erase_self : (k : K) (t : List (K × ℕ)) → map_find dec k (map_erase dec k t) ≡ none
  unfolding map_find map_erase
  map_find-map_erase_self k [] = refl
  map_find-map_erase_self k ((j, i) ∷ t) = elim (dec k j) [
    | yes p ↦ rw (if_pos (dec k j) p) (map_find-map_erase_self k t)
    | no p ↦ rw (if_neg (dec k j) p, if_neg (dec k j) p) (map_find-map_erase_self k t)
  ]

  map_find-map_erase_ne :
      (q k : K) (t : List (K × ℕ)) → q ≢ k → map_find dec q (map_erase dec k t) ≡ map_find dec q t
  unfolding map_find map_erase
  map_find-map_erase_ne q k [] h = refl
  map_find-map_erase_ne q k ((j, i) ∷ t) h = elim (dec k j) [
    | yes p ↦
        let other : q ≢ j = λ e. h (e ∙ sym p) in
        rw (if_pos (dec k j) p, if_neg (dec q j) other) (map_find-map_erase_ne q k t h)
    | no p ↦
        rw (if_neg (dec k j) p) (ap (λ r. ite (dec q j) (some i) r) (map_find-map_erase_ne q k t h))
  ]

  pub map_find-map_erase :
      (q k : K) (t : List (K × ℕ))
      → map_find dec q (map_erase dec k t) ≡ ite (dec q k) none (map_find dec q t)
  map_find-map_erase q k t = elim (dec q k) [
    | yes p ↦ rw (if_pos (dec q k) p, p) (map_find-map_erase_self k t)
    | no p ↦ rw (if_neg (dec q k) p) (map_find-map_erase_ne q k t p)
  ]

abbrev pub entries {ℓ} : {K V : Type ℓ} → LruMap K V → List (Entry K V)
entries m = contents m.lru

module _ {ℓ} {K V : Type ℓ} (dec : Discrete K) where
  -- The parts of the invariant that hold while `makeRoom` works: the table holds exactly the
  -- addresses of the nodes, no key and no address stands twice, and the weight is the sum.
  pub record IsLinked (m : LruMap K V) : Type ℓ where
    pub table : (q : K) → map_find dec q m.iters ≡ address dec q m.lru
    pub keys : KeysDistinct dec (entries m)
    pub addresses : AddressesDistinct m.fresh m.lru
    pub sum : m.weight ≡ total (entries m)
    pub machine : m.weight < mod64

  evict-IsLinked :
      (m : LruMap K V) (back : Node K V)
      → last? m.lru ≡ some back
      → IsLinked m
      → IsLinked (evict dec m back)
  unfolding evict
  evict-IsLinked m back h v = record {
    table = λ q.
        map_find-map_erase dec q back.1.key m.iters
        ∙ (rw (v.table q) (sym (address-init dec q m.lru back v.keys h)));
    keys = init-KeysDistinct dec m.lru v.keys;
    addresses = init-AddressesDistinct m.fresh m.lru v.addresses;
    sum = omega (arith, total-init m.lru back h, v.sum, v.machine);
    machine = omega (arith, total-init m.lru back h, v.sum, v.machine);
  }

  total-empty : (c : ℕ) (l : List (Node K V)) → length l ≤ 0 → total (contents l) ≤ c
  unfolding total
  total-empty c [] h = omega arith
  total-empty c (n ∷ l) h = absurd (omega arith)

  -- What the loop promises: the map stays linked, its entries are the longest front part that
  -- fits, and nothing else but the table and the weight changes.
  abbrev pub RoomMade : ℕ → LruMap K V → LruMap K V → Type ℓ
  RoomMade c m r =
      IsLinked r
      × (entries r ≡ trim c (entries m))
      × (r.max_weight ≡ m.max_weight)
      × (r.fresh ≡ m.fresh)

  RoomMade-evict :
      (c : ℕ) (m : LruMap K V) (back : Node K V) (r : LruMap K V)
      → last? m.lru ≡ some back
      → ltb c m.weight ≡ true
      → IsLinked m
      → RoomMade c (evict dec m back) r
      → RoomMade c m r
  unfolding evict
  RoomMade-evict c m back r e over v (linked, same, most, fresh) =
      (linked, same ∙ trim-init c m.lru (omega (arith, v.sum, ltb→lt c m.weight over)), most, fresh)

  make_room_loop_lem :
      (fuel c : ℕ) (m : LruMap K V)
      → length m.lru ≤ fuel
      → IsLinked m
      → RoomMade c m (make_room_loop dec fuel c m)
  unfolding make_room_loop
  make_room_loop_lem zero c m h v =
      (v, sym (trim_fits c _ (total-empty c m.lru (omega arith))), refl, refl)
  make_room_loop_lem (suc fuel) c m h v = elim (Option-cases (last? m.lru)) [
    | inl e ↦
        rw (e, make_room_loop)
          (
            v,
            sym (trim_fits c _ (total-empty c m.lru (rw (last?-none m.lru e) (omega arith)))),
            refl,
            refl,
          )
    | inr (back, e) ↦ elim (Bool-cases (ltb c m.weight)) [
      | inl over ↦
          rw (e, make_room_loop, over)
            (RoomMade-evict c m back _ e over v (
              make_room_loop_lem fuel c (evict dec m back) (omega (arith, length-init m.lru back e))
                (evict-IsLinked m back e v)))
      | inr fits ↦
          rw (e, make_room_loop, fits)
            (v, sym (trim_fits c _ (omega (arith, v.sum, ltb→le c m.weight fits))), refl, refl)
    ]
  ]

  -- `makeRoom` evicts exactly what does not fit, from the least recent on.
  pub make_room_lem : (c : ℕ) (m : LruMap K V) → IsLinked m → RoomMade c m (make_room dec c m)
  unfolding make_room
  make_room_lem c m v = make_room_loop_lem (length m.lru) c m (omega arith) v
