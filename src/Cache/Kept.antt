-- ===== src/Cache/Kept.antt =====
-- BlockCache.cc: a property of all the entries that the operations of the cache keep, whatever file
-- they work for.
use lzopfs.Base.{
  ℕ, zero, suc, ◌≡◌, refl, ap, subst, List, [], ◌∷◌, Option, none, some, Bool-cases, Option-cases,
  inl, inr, ltb, arith, dec_lt, length,
}
use lzopfs.Blocks.{Block, Buffer, Result, ok, >>=-eq-ok}
use lzopfs.Lru
use lzopfs.Lru.Nodes.{Entry}
use lzopfs.Lru.Links.{lookup}
use lzopfs.Lru.Room.{entries}
use lzopfs.Lru.Methods.{IsValid, find_lem, add_present, add_over_weight, add_absent}
use lzopfs.Read.{callback}
use lzopfs.Cache.{
  Key, Key-discrete, key_of, Map, Request, Scan, visit, scan, Stage, queued, missed, decoded,
  stored, called, finished, Shared, Task, store, job_step, work_at,
}
use lzopfs.Cache.Coherence.{All, All-touch, All-trim}

abbrev pub new_entry : Key → Buffer → Entry Key Buffer
new_entry k d = record { key = k; value = d; weight = length d }

ok-inj {ℓ} : {A : Type ℓ} {a b : A} → ok a ≡ ok b → a ≡ b
ok-inj e = cc

module _ (P : Entry Key Buffer → Type 0) where
  pub record IsKept (m : Map) : Type 0 where
    pub valid : IsValid Key-discrete m
    pub all : All P (entries m)

  pub find-IsKept :
      (m m' : Map) (k : Key) (r : Option Buffer)
      → Lru.find Key-discrete m k ≡ some (m', r)
      → IsKept m
      → IsKept m'
  find-IsKept m m' k r e kept =
      let (m₁, r₁, found, (valid, order, value, most)) = find_lem Key-discrete m k kept.valid in
      let same : m₁ ≡ m' = cc in
      subst IsKept same
        (record { valid = valid; all = rw order (All-touch P k (entries m) kept.all) })

  pub store-IsKept :
      (m m' : Map) (k : Key) (d : Buffer)
      → store m k d ≡ ok m'
      → P (new_entry k d)
      → IsKept m
      → IsKept m'
  unfolding store
  store-IsKept m m' k d e new kept = elim (Option-cases (lookup Key-discrete k (entries m))) [
    | inr (x, present) ↦
        let (m₁, added, valid, order, most) =
          add_present Key-discrete m k d (length d) x kept.valid present in
        let same : m₁ ≡ m' = cc (rw (added, store) at e) in
        subst IsKept same
          (record { valid = valid; all = rw order (All-touch P k (entries m) kept.all) })
    | inl absent ↦ elim (dec_lt m.max_weight (length d)) [
      | yes heavy ↦
          let over = add_over_weight Key-discrete m k d (length d) kept.valid absent heavy in
          let same : m ≡ m' = cc (rw (over, store) at e) in subst IsKept same kept
      | no light ↦
          let (m₁, added, valid, order, most) =
            add_absent Key-discrete m k d (length d) kept.valid absent (omega (arith, light)) in
          let same : m₁ ≡ m' = cc (rw (added, store) at e) in
          subst IsKept same
            (record { valid = valid; all = rw order (new, All-trim P _ (entries m) kept.all) })
    ]
  ]

  visit_found-IsKept :
      (q : Request) (b : Block) (s s' : Scan) (r : Option (Map × Option Buffer))
      → Lru.find Key-discrete s.map (key_of q.id b) ≡ r
      → visit q b s ≡ ok s'
      → IsKept s.map
      → IsKept s'.map
  unfolding visit
  visit_found-IsKept q b s s' none e h kept = absurd (cc (rw (e, visit) at h))
  visit_found-IsKept q b s s' (some (m, none)) e h kept =
      let same : m ≡ s'.map = ap (λ x. x.map) (ok-inj (rw (e, visit) at h)) in
      subst IsKept same (find-IsKept s.map m (key_of q.id b) none e kept)
  visit_found-IsKept q b s s' (some (m, some d)) e h kept =
      let (sink, rest, _) =
        >>=-eq-ok (callback q.size q.offset b d s.sink) _ (rw (e, visit) at h) in
      let same : m ≡ s'.map = ap (λ x. x.map) (ok-inj rest) in
      subst IsKept same (find-IsKept s.map m (key_of q.id b) (some d) e kept)

  pub scan-IsKept :
      (q : Request) (max_end : ℕ) (it : List Block) (s s' : Scan)
      → scan q max_end it s ≡ ok s'
      → IsKept s.map
      → IsKept s'.map
  unfolding scan
  scan-IsKept q max_end [] s s' h kept = subst (λ x. IsKept x.map) (ok-inj h) kept
  scan-IsKept q max_end (b ∷ it) s s' h kept = elim (Bool-cases (ltb b.uoff max_end)) [
    | inr stop ↦ subst (λ x. IsKept x.map) (ok-inj (rw (stop, scan) at h)) kept
    | inl more ↦
        let (s₁, rest, e) = >>=-eq-ok (visit q b s) (scan q max_end it) (rw (more, scan) at h) in
        scan-IsKept q max_end it s₁ s' rest (visit_found-IsKept q b s s₁ _ refl e kept)
  ]

  module _ (decode : Block → Result Buffer) (q : Request) where
    -- What a job is about to store has the property.
    abbrev pub IsNew : Block → Stage → Type 0
    IsNew b (decoded d) = P (new_entry (key_of q.id b) d)
    IsNew b _ = Unit

    queued-IsKept :
        (b : Block) (stage : Stage) (s s' : Shared) (r : Option (Map × Option Buffer))
        → Lru.find Key-discrete s.map (key_of q.id b) ≡ r
        → job_step decode q b queued s ≡ ok (stage, s')
        → IsKept s.map
        → IsKept s'.map
    unfolding job_step
    queued-IsKept b stage s s' none e h kept = absurd (cc (rw (e, job_step) at h))
    queued-IsKept b stage s s' (some (m, none)) e h kept =
        let same : m ≡ s'.map = ap (λ x. x.1.map) (ok-inj (rw (e, job_step) at h)) in
        subst IsKept same (find-IsKept s.map m (key_of q.id b) none e kept)
    queued-IsKept b stage s s' (some (m, some d)) e h kept =
        let (sink, rest, _) =
          >>=-eq-ok (callback q.size q.offset b d s.sink) _ (rw (e, job_step) at h) in
        let same : m ≡ s'.map = ap (λ x. x.1.map) (ok-inj rest) in
        subst IsKept same (find-IsKept s.map m (key_of q.id b) (some d) e kept)

    job_step-IsKept :
        (b : Block) (stage stage' : Stage) (s s' : Shared)
        → job_step decode q b stage s ≡ ok (stage', s')
        → IsNew b stage
        → IsKept s.map
        → IsKept s'.map
    unfolding job_step
    job_step-IsKept b queued stage' s s' h new kept = queued-IsKept b stage' s s' _ refl h kept
    job_step-IsKept b missed stage' s s' h new kept =
        let (d, rest, _) = >>=-eq-ok (decode b) _ h in
        subst (λ x. IsKept x.1.map) (ok-inj rest) kept
    job_step-IsKept b (decoded d) stage' s s' h new kept =
        let (m, rest, e) = >>=-eq-ok (store s.map (key_of q.id b) d) _ h in
        subst (λ x. IsKept x.1.map) (ok-inj rest)
          (store-IsKept s.map m (key_of q.id b) d e new kept)
    job_step-IsKept b (stored d) stage' s s' h new kept =
        let (sink, rest, _) = >>=-eq-ok (callback q.size q.offset b d s.sink) _ h in
        subst (λ x. IsKept x.1.map) (ok-inj rest) kept
    job_step-IsKept b called stage' s s' h new kept = subst (λ x. IsKept x.1.map) (ok-inj h) kept
    job_step-IsKept b finished stage' s s' h new kept = subst (λ x. IsKept x.1.map) (ok-inj h) kept

    abbrev pub AllNew : List Task → Type 0
    AllNew [] = Unit
    AllNew (t ∷ ts) = IsNew t.0 t.1 × AllNew ts

    pub work_at-IsKept :
        (i : ℕ) (ts ts' : List Task) (s s' : Shared)
        → work_at decode q i ts s ≡ ok (ts', s')
        → AllNew ts
        → IsKept s.map
        → IsKept s'.map
    unfolding work_at
    work_at-IsKept i [] ts' s s' h new kept = subst (λ x. IsKept x.1.map) (ok-inj h) kept
    work_at-IsKept zero ((b, stage) ∷ ts) ts' s s' h new kept =
        let (r, rest, e) = >>=-eq-ok (job_step decode q b stage s) _ h in
        subst (λ x. IsKept x.1.map) (ok-inj rest) (job_step-IsKept b stage r.0 s r.1 e new.0 kept)
    work_at-IsKept (suc i) (t ∷ ts) ts' s s' h new kept =
        let (r, rest, e) = >>=-eq-ok (work_at decode q i ts s) _ h in
        subst (λ x. IsKept x.1.map) (ok-inj rest) (work_at-IsKept i ts r.0 s r.1 e new.1 kept)
