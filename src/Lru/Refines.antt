-- ===== src/Lru/Refines.antt =====
-- LRUMap.h: any sequence of calls, against a bounded list of entries with the most recent in front.
use lzopfs.Base.{
  ℕ, ◌≡◌, ◌<◌, ◌-◌, refl, List, [], ◌∷◌, Option, none, some, if◌then◌else◌, ltb, mod64, arith,
  Option-cases, inl, inr, dec_lt, lt→ltb, le→ltb,
}
use mathlib.Core.Option
use lzopfs.Lru.Nodes.{Entry}
use lzopfs.Lru.Links.{lookup}
use lzopfs.Lru.Back.{trim}
use lzopfs.Lru.Room.{entries}
use lzopfs.Lru.Touch.{touch}
use lzopfs.Lru.{LruMap, AddResult, over_weight, dangling, add, find, set_max_weight}
use lzopfs.Lru.Methods.{
  IsValid, entry_of, find_lem, add_present, add_over_weight, add_absent, set_max_weight_lem,
}

-- A call of a client.
pub data Call {ℓ} (K V : Type ℓ) : Type ℓ where
  look_up : K → Call K V
  insert : K → V → ℕ → Call K V
  limit : ℕ → Call K V

-- What the client sees of it.
pub data Answer {ℓ} (V : Type ℓ) : Type ℓ where
  value : Option V → Answer V
  inserted refused limited : Answer V

-- The list that a map stands for, with its limit.
pub record Bounded {ℓ} (K V : Type ℓ) : Type ℓ where
  pub list : List (Entry K V)
  pub max : ℕ

module _ {ℓ} {K V : Type ℓ} (dec : Discrete K) where
  -- A call on the map; `none` is a fault.
  unfoldable pub call : Call K V → LruMap K V → Option (Answer V × LruMap K V)
  call (look_up k) m = elim (find dec m k) [ none ↦ none | some (m', r) ↦ some (value r, m') ]
  call (insert k v w) m = elim (add dec m k v w) [
    | AddResult.ok m' ↦ some (inserted, m')
    | AddResult.err e ↦ elim e [ over_weight ↦ some (refused, m) | dangling ↦ none ]
  ]
  call (limit w) m = some (limited, set_max_weight dec w m)

  unfoldable pub calls : List (Call K V) → LruMap K V → Option (List (Answer V) × LruMap K V)
  unfolding call
  calls [] m = some ([], m)
  calls (c ∷ cs) m = elim (call c m) [
    | none ↦ none
    | some (a, m') ↦ elim (calls cs m') [ none ↦ none | some (rest, m'') ↦ some (a ∷ rest, m'') ]
  ]

  -- The calls on the list: a new entry goes to the front, behind it stays what fits, from the most
  -- recent on.
  unfoldable pub put : K → V → ℕ → Bounded K V → Answer V × Bounded K V
  put k v w b = elim (lookup dec k b.list) [
    | some e ↦ (inserted, record b { list = touch dec k b.list })
    | none ↦
        if ltb b.max w
        then (refused, b)
        else (inserted, record b { list = entry_of dec k v w ∷ trim (b.max - w) b.list })
  ]

  unfoldable pub model : Call K V → Bounded K V → Answer V × Bounded K V
  unfolding put
  model (look_up k) b = (
    value (Option.map (λ e. e.value) (lookup dec k b.list)),
    record b { list = touch dec k b.list },
  )
  model (insert k v w) b = put k v w b
  model (limit w) b = (limited, record { list = trim w b.list; max = w })

  unfoldable pub models : List (Call K V) → Bounded K V → List (Answer V) × Bounded K V
  unfolding model
  models [] b = ([], b)
  models (c ∷ cs) b = let (a, b') = model c b in let (rest, b'') = models cs b' in (a ∷ rest, b'')

  abbrev pub view : LruMap K V → Bounded K V
  view m = record { list = entries m; max = m.max_weight }

  -- Limits are words of the machine.
  abbrev pub LimitFits : Call K V → Type 0
  LimitFits (look_up k) = Unit
  LimitFits (insert k v w) = Unit
  LimitFits (limit w) = w < mod64

  abbrev pub LimitsFit : List (Call K V) → Type 0
  LimitsFit [] = Unit
  LimitsFit (c ∷ cs) = LimitFits c × LimitsFit cs

  -- The call does on the map what it does on the list.
  abbrev Simulates : Call K V → LruMap K V → Type ℓ
  Simulates c m =
      (m' : LruMap K V) × (call c m ≡ some ((model c (view m)).0, m'))
      × IsValid dec m'
      × (view m' ≡ (model c (view m)).1)

  insert-Simulates :
      (k : K) (v : V) (w : ℕ) (m : LruMap K V) → IsValid dec m → Simulates (insert k v w) m
  unfolding call model put
  insert-Simulates k v w m valid = elim (Option-cases (lookup dec k (entries m))) [
    | inr (e, present) ↦
        let (m', added, kept, order, most) = add_present dec m k v w e valid present in
        (m', rw (added, present, put, call), kept, rw (present, put) (cc (order, most)))
    | inl absent ↦ elim (dec_lt m.max_weight w) [
      | yes heavy ↦ (
        m,
        rw (add_over_weight dec m k v w valid absent heavy, absent, put, call)
            (rw (lt→ltb m.max_weight w heavy)),
        valid,
        rw (absent, put) (rw (lt→ltb m.max_weight w heavy)),
      )
      | no light ↦
          let (m', added, kept, order, most) = add_absent dec m k v w valid absent (omega arith) in
          (
            m',
            rw (added, absent, put, call) (rw (le→ltb m.max_weight w (omega arith))),
            kept,
            rw (absent, put) (rw (le→ltb m.max_weight w (omega arith)) (cc (order, most))),
          )
    ]
  ]

  call-Simulates : (c : Call K V) (m : LruMap K V) → IsValid dec m → LimitFits c → Simulates c m
  unfolding call model
  call-Simulates (look_up k) m valid h =
      let (m', r, found, (kept, order, result, most)) = find_lem dec m k valid in
      (m', rw (found, call) (rw result), kept, cc (order, most))
  call-Simulates (insert k v w) m valid h = insert-Simulates k v w m valid
  call-Simulates (limit w) m valid h =
      let (kept, order, most) = set_max_weight_lem dec m w valid h in
      (set_max_weight dec w m, refl, kept, cc (order, most))

  -- Any sequence of lookups, additions and changes of the limit, with limits below 2^64, on a valid
  -- map never faults, gives the client the same answers as a list with the most recent entry in
  -- front that drops what does not fit from its end on, keeps the map valid, and ends with the
  -- entries and the limit of that list.
  pub calls-models :
      (cs : List (Call K V)) (m : LruMap K V)
      → IsValid dec m
      → LimitsFit cs
      → (m' : LruMap K V) × (calls cs m ≡ some ((models cs (view m)).0, m'))
        × IsValid dec m'
        × (view m' ≡ (models cs (view m)).1)
  unfolding calls models
  calls-models [] m valid h = (m, refl, valid, refl)
  calls-models (c ∷ cs) m valid (h, hs) =
      let (m', called, kept, same) = call-Simulates c m valid h in
      let (m'', ran, good, end) = calls-models cs m' kept hs in
      (m'', rw (called, calls) (rw (← same) (rw ran)), good, rw (← same) end)
