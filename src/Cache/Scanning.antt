-- ===== src/Cache/Scanning.antt =====
-- BlockCache.cc: the loop of `getBlocks` over the blocks of a read.
use lzopfs.Base.{
  ℕ, ◌+◌, ◌<◌, ◌≤◌, ◌≡◌, refl, List, [], ◌∷◌, ◌++◌, Option, none, some, arith, ◌⊎◌, inl, inr, ltb,
  mod64, length, length-append, Bool-cases, ltb→lt, ltb→le,
}
use lzopfs.Blocks.{Block, Buffer, Result, ok, >>=-eq-ok}
use lzopfs.Blocks.Contents.{In}
use lzopfs.Blocks.Tiles.{Tiles}
use lzopfs.Lru
use lzopfs.Read.{Sink}
use lzopfs.Read.Callback.{Touches}
use lzopfs.Cache.{Map, Request, Scan, visit, scan, Key-discrete, key_of}
use lzopfs.Cache.Coherence.{IsCoherent, find-IsCoherent}
use lzopfs.Cache.Jobs.{serve}
use lzopfs.Cache.Schedule.{TasksHold-Keeps}
use lzopfs.Cache.Invariants.{TasksHold, ScanHolds, Progress, Handled, IsFile, jobs_of}

In-snoc_left : (c b : Block) (need : List Block) → In c need → In c (need ++ b ∷ [])
In-snoc_left c b [] h = absurd h
In-snoc_left c b (x ∷ need) (inl e) = inl e
In-snoc_left c b (x ∷ need) (inr h) = inr (In-snoc_left c b need h)

In-snoc_self : (b : Block) (need : List Block) → In b (need ++ b ∷ [])
In-snoc_self b [] = inl refl
In-snoc_self b (x ∷ need) = inr (In-snoc_self b need)

pub Tiles-above : (u : ℕ) (it : List Block) (c : Block) → Tiles u it → In c it → u ≤ c.uoff
Tiles-above u [] c t h = absurd h
Tiles-above u (b ∷ it) c t (inl same) = rw same (omega arith)
Tiles-above u (b ∷ it) c t (inr later) = omega (arith, Tiles-above (u + b.usize) it c t.2 later)

visit-length :
    (q : Request) (b : Block) (s s' : Scan)
    → visit q b s ≡ ok s'
    → length s'.need ≤ length s.need + 1
unfolding visit
visit-length q b s s' h = ground (arith, length-append s.need (b ∷ []))

-- The list of needed blocks is no longer than the list of blocks.
pub scan-length :
    (q : Request) (max_end : ℕ) (it : List Block) (s s' : Scan)
    → scan q max_end it s ≡ ok s'
    → length s'.need ≤ length s.need + length it
unfolding scan
scan-length q max_end [] s s' h = ground arith
scan-length q max_end (b ∷ it) s s' h = elim (Bool-cases (ltb b.uoff max_end)) [
  | inr stop ↦ ground arith
  | inl more ↦
      let (s₁, rest, e) = >>=-eq-ok (visit q b s) (scan q max_end it) (rw (more, scan) at h) in
      omega (arith, visit-length q b s s₁ e, scan-length q max_end it s₁ s' rest)
]

module _ (decode : Block → Result Buffer) (bs : List Block) (contents : Buffer)
    (file : IsFile decode bs contents) (q : Request) (small : q.offset + q.size < mod64) where
  TasksHold-snoc :
      (s : Sink) (need : List Block) (b : Block)
      → In b bs
      → Touches contents q.size q.offset b
      → TasksHold decode bs contents q s (jobs_of need)
      → TasksHold decode bs contents q s (jobs_of (need ++ b ∷ []))
  TasksHold-snoc s [] b h t n = (h, t, tt, tt)
  TasksHold-snoc s (c ∷ need) b h t (on, touches, stage, rest) =
      (on, touches, stage, TasksHold-snoc s need b h t rest)

  abbrev Visited : Block → Scan → Type 0
  Visited b s =
      (s' : Scan) × (visit q b s ≡ ok s')
      × Progress decode bs contents q s s'
      × Handled decode bs contents q b s'

  visit_found :
      (b : Block) (s : Scan)
      → In b bs
      → Touches contents q.size q.offset b
      → ScanHolds decode bs contents q s
      → (m' : Map) × (r : Option Buffer) × (Lru.find Key-discrete s.map (key_of q.id b)
          ≡ some (m', r))
        × IsCoherent decode q.id bs m'
        × ((r ≡ none) ⊎ ((d : Buffer) × (r ≡ some d) × (decode b ≡ ok d)))
      → Visited b s
  unfolding visit
  visit_found b s h t v (m', none, found, coherent, _) = (
    record { map = m'; sink = s.sink; need = s.need ++ b ∷ [] },
    rw (found, visit),
    record {
      holds = record {
        coherent = coherent;
        good = v.good;
        needed = TasksHold-snoc s.sink s.need b h t v.needed;
      };
      keeps = λ c x. x;
      listed = λ c x. In-snoc_left c b s.need x;
    },
    inr (In-snoc_self b s.need),
  )
  visit_found b s h t v (m', some d, found, coherent, inl absent) = absurd (cc)
  visit_found b s h t v (m', some d, found, coherent, inr (d', same, e)) =
      let right : decode b ≡ ok d = cc in
      let (s', done, good, served, keeps) =
        serve decode bs contents file q small b d s.sink h t right v.good in
      (
        record { map = m'; sink = s'; need = s.need },
        rw (found, visit) (rw done),
        record {
          holds = record {
            coherent = coherent;
            good = good;
            needed =
                TasksHold-Keeps decode bs contents file q small s.sink s' (jobs_of s.need) keeps
                  v.needed;
          };
          keeps = keeps;
          listed = λ c x. x;
        },
        inl served,
      )

  Handled-still :
      (c : Block) (s s' : Scan)
      → Progress decode bs contents q s s'
      → Handled decode bs contents q c s
      → Handled decode bs contents q c s'
  Handled-still c s s' p (inl served) = inl (p.keeps c served)
  Handled-still c s s' p (inr listed) = inr (p.listed c listed)

  -- The loop handles every block that begins before the end of the read.
  pub scan_lem :
      (u : ℕ) (it : List Block) (s : Scan)
      → Tiles u it
      → ((c : Block) → In c it → In c bs × (q.offset < c.uoff + c.usize))
      → ScanHolds decode bs contents q s
      → (s' : Scan) × (scan q (q.offset + q.size) it s ≡ ok s')
        × Progress decode bs contents q s s'
        × ((c : Block) → In c it → c.uoff < q.offset + q.size → Handled decode bs contents q c s')
  unfolding scan
  scan_lem u [] s t inside v =
      (s, refl, record { holds = v; keeps = λ c x. x; listed = λ c x. x }, λ c on lt. absurd on)
  scan_lem u (b ∷ it) s t inside v = elim (Bool-cases (ltb b.uoff (q.offset + q.size))) [
    | inr stop ↦ (
      s,
      rw (stop, scan),
      record { holds = v; keeps = λ c x. x; listed = λ c x. x },
      λ c on lt. absurd (
          omega
            (arith, t.0, Tiles-above u (b ∷ it) c t on, ltb→le b.uoff (q.offset + q.size) stop)),
    )
    | inl more ↦
        let (on, ends) = inside b (inl refl) in
        let touches : Touches contents q.size q.offset b = record {
          begins = ltb→lt b.uoff (q.offset + q.size) more;
          ends = ends;
        } in
        let (s₁, e₁, p₁, handled) =
          visit_found b s on touches v (find-IsCoherent decode q.id bs s.map b on v.coherent) in
        let (s₂, e₂, p₂, rest) =
          scan_lem (u + b.usize) it s₁ t.2 (λ c h. inside c (inr h)) p₁.holds in
        (
          s₂,
          rw (more, scan) (rw e₁ e₂),
          record {
            holds = p₂.holds;
            keeps = λ c x. p₂.keeps c (p₁.keeps c x);
            listed = λ c x. p₂.listed c (p₁.listed c x);
          },
          λ c on lt. elim on [
            | inl same ↦ rw same (Handled-still b s₁ s₂ p₂ handled)
            | inr later ↦ rest c later lt
          ],
        )
  ]
