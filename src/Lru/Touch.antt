-- ===== src/Lru/Touch.antt =====
-- LRUMap.h: `markNew` moves the entry of a key to the front.
use lzopfs.Base.{
  ℕ, ◌≡◌, ◌≢◌, ◌<◌, refl, sym, ap, List, [], ◌∷◌, none, some, ite, ℕ_discrete, arith, if_pos,
  if_neg, dec_lt, ◌∙◌,
}
use lzopfs.Lru.Nodes.{Entry, Node, deref, unlink}
use lzopfs.Lru.Links.{
  total, AddressesDistinct, KeysDistinct, lookup, remove, address, deref-address, contents-unlink,
  deref_above, deref-unlink_self, unlink-AddressesDistinct, total-unlink, address-ne,
}
use lzopfs.Lru.Room.{IsLinked, entries}
use lzopfs.Lru.{LruMap, mark_new}

module _ {ℓ} {K V : Type ℓ} (dec : Discrete K) where
  -- The entry of the key in front, the others in their order.
  unfoldable pub touch : K → List (Entry K V) → List (Entry K V)
  touch k es = elim (lookup dec k es) [ none ↦ es | some e ↦ e ∷ remove dec k es ]

  pub lookup-remove-none :
      (q k : K) (es : List (Entry K V))
      → lookup dec q es ≡ none
      → lookup dec q (remove dec k es) ≡ none
  unfolding lookup remove
  lookup-remove-none q k [] h = refl
  lookup-remove-none q k (e ∷ es) h = ground (arith, lookup-remove-none q k es)

  pub lookup-remove_self :
      (k : K) (es : List (Entry K V)) → KeysDistinct dec es → lookup dec k (remove dec k es) ≡ none
  unfolding lookup remove
  lookup-remove_self k [] d = refl
  lookup-remove_self k (e ∷ es) d = elim (dec k e.key) [
    | yes p ↦ rw (if_pos (dec k e.key) p, p) d.0
    | no p ↦ rw (if_neg (dec k e.key) p, if_neg (dec k e.key) p) (lookup-remove_self k es d.1)
  ]

  pub remove-KeysDistinct :
      (k : K) (es : List (Entry K V)) → KeysDistinct dec es → KeysDistinct dec (remove dec k es)
  unfolding remove
  remove-KeysDistinct k [] d = tt
  remove-KeysDistinct k (e ∷ es) d = elim (dec k e.key) [
    | yes p ↦ rw (if_pos (dec k e.key) p) d.1
    | no p ↦
        rw (if_neg (dec k e.key) p)
          (lookup-remove-none e.key k es d.0, remove-KeysDistinct k es d.1)
  ]

  address-unlink_ne :
      (b : ℕ) (q k : K) (i : ℕ) (l : List (Node K V))
      → AddressesDistinct b l
      → address dec k l ≡ some i
      → q ≢ k
      → address dec q (unlink i l) ≡ address dec q l
  unfolding address unlink
  address-unlink_ne b q k i [] d h ne = refl
  address-unlink_ne b q k i (n ∷ l) d h ne = elim (dec k n.1.key) [
    | yes p ↦
        let here : n.0 ≡ i = cc (rw (if_pos (dec k n.1.key) p) at h) in
        let other : q ≢ n.1.key = λ e. ne (e ∙ sym p) in
        rw (if_pos (ℕ_discrete i n.0) (sym here), if_neg (dec q n.1.key) other)
    | no p ↦
        let rest = rw (if_neg (dec k n.1.key) p) at h in
        let (e, found, same, key) = deref-address dec b k i l d.2 rest in
        rw (if_neg (ℕ_discrete i n.0) (address-ne n l d.1 found))
          (ap (λ r. ite (dec q n.1.key) (some n.0) r) (address-unlink_ne b q k i l d.2 rest ne))
  ]

  address-lt :
      (b i : ℕ) (l : List (Node K V)) {e : Entry K V}
      → AddressesDistinct b l
      → deref i l ≡ some e
      → i < b
  address-lt b i l d h = elim (dec_lt i b) [
    | yes p ↦ p
    | no p ↦ absurd (cc (deref_above b i l d (omega arith)))
  ]

  module _ (m : LruMap K V) (k : K) (i : ℕ) (v : IsLinked dec m)
      (at_key : address dec k m.lru ≡ some i) where
    address-front :
        (e : Entry K V) (q : K)
        → e.key ≡ k
        → address dec q ((i, e) ∷ unlink i m.lru) ≡ address dec q m.lru
    unfolding address
    address-front e q key = elim (dec q e.key) [
      | yes p ↦ rw (if_pos (dec q e.key) p, p, key) (sym at_key)
      | no p ↦
          rw (if_neg (dec q e.key) p)
            (address-unlink_ne m.fresh q k i m.lru v.addresses at_key (λ r. p (r ∙ sym key)))
    ]

    -- The front of the list is the entry of the key, and the map stays linked.
    pub mark_new_lem :
        (e : Entry K V) × (lookup dec k (entries m) ≡ some e)
        × (mark_new m i ≡ some (record m { lru = (i, e) ∷ unlink i m.lru }))
        × IsLinked dec (record m { lru = (i, e) ∷ unlink i m.lru })
        × (entries (record m { lru = (i, e) ∷ unlink i m.lru }) ≡ touch k (entries m))
    unfolding mark_new touch total
    mark_new_lem =
        let (e, found, same, key) = deref-address dec m.fresh k i m.lru v.addresses at_key in
        (
          e,
          same,
          rw (found, mark_new),
          marked e found same key,
          rw (same, touch) (ap (◌∷◌ e) (contents-unlink dec m.fresh k i m.lru v.addresses at_key)),
        )
      where
        marked :
            (e : Entry K V)
            → deref i m.lru ≡ some e
            → lookup dec k (entries m) ≡ some e
            → e.key ≡ k
            → IsLinked dec (record m { lru = (i, e) ∷ unlink i m.lru })
        marked e found same key = record {
          table = λ q. v.table q ∙ sym (address-front e q key);
          keys = rw (contents-unlink dec m.fresh k i m.lru v.addresses at_key) (
            rw key (lookup-remove_self k (entries m) v.keys),
            remove-KeysDistinct k (entries m) v.keys,
          );
          addresses = (
            address-lt m.fresh i m.lru v.addresses found,
            deref-unlink_self m.fresh i m.lru v.addresses,
            unlink-AddressesDistinct m.fresh i m.lru v.addresses,
          );
          sum = v.sum ∙ sym (total-unlink i m.lru found);
          machine = v.machine;
        }
