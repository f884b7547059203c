-- ===== src/Fuse/Session.antt =====
-- lzopfs.cc: any sequence of calls of the handlers, with the reads of many threads in flight at once.
use lzopfs.Base.{
  ℕ, ◌+◌, ◌<◌, ◌≡◌, inl, inr, Bool-cases, Option-cases, subst, refl, List, [], ◌∷◌, ◌++◌, Option,
  arith, length, max_off,
}
use lzopfs.Blocks.{Block, Buffer, Result, ok, result_cases}
use lzopfs.Lru.{empty}
use lzopfs.Lru.Methods.{empty-IsValid, set_max_weight_lem}
use lzopfs.Cache.{Key-discrete}
use lzopfs.Cache.Coherence.{All-trim}
use lzopfs.Files.{FileMap}
use lzopfs.Fuse.{Source, Reply, done, fails, lf_open}
use lzopfs.Fuse.Mount.{
  cache_size, begun, FsData, lf_init, lf_release, open_handle, begin_read, Act, opens, releases,
  reads, steps, step_read, act, run_acts, in_use, open_file, free_handle,
}
use lzopfs.Fuse.Misuse.{open_file-some}
use lzopfs.Fuse.World.{IsWorld, Right}
use lzopfs.Fuse.Handles.{
  Shows, IsSession, AllOpen-append, AllOpen-free, AllOpen-get, AllHold-append, step_flights-Holds,
  lf_open-world,
}

-- What a caller of `lf_read` keeps to: the end of the read is an `off_t`, below 2^63, and the buffer has the size
-- that is asked for.
abbrev pub IsFit : Act → Type 0
IsFit (reads fh size offset buf) = (offset + size < max_off) × (length buf ≡ size)
IsFit a = Unit

abbrev pub AllFit : List Act → Type 0
AllFit [] = Unit
AllFit (a ∷ acts) = IsFit a × AllFit acts

module _ (decode : Source → Block → Result Buffer) (contents : Source → Buffer)
    (world : Source → Type 0) (w : IsWorld decode contents world) where
  open_handle-IsSession :
      (sys_open : List ℕ → Option ℕ) (path : List ℕ) (flags : ℕ) (d : FsData) (r : Reply Source)
      → lf_open sys_open d.files path flags ≡ r
      → IsSession decode contents world w d
      → IsSession decode contents world w (open_handle sys_open path flags d)
  unfolding open_handle
  open_handle-IsSession sys_open path flags d (fails f) e v = rw (e, open_handle) v
  open_handle-IsSession sys_open path flags d (done s) e v =
      rw (e, open_handle)
        (record {
          shows = v.shows;
          kept = v.kept;
          opened =
              AllOpen-append decode contents world w d.handles s v.opened
                (lf_open-world decode contents world w sys_open d.files path flags s v.shows e);
          hold = v.hold;
        })

  begin_read-IsSession :
      (fh size offset : ℕ) (buf : Buffer) (d d' : FsData)
      → IsFit (reads fh size offset buf)
      → IsSession decode contents world w d
      → begin_read fh size offset buf d ≡ ok d'
      → IsSession decode contents world w d'
  unfolding begin_read
  begin_read-IsSession fh size offset buf d d' fit v e = elim (Option-cases (open_file fh d)) [
    | inl shut ↦ absurd (ground (arith, e, shut))
    | inr (s, found) ↦
        let on =
          AllOpen-get decode contents world w fh d.handles s v.opened
            (open_file-some fh d s found) in
        let same : record d {
          users = d.users ++ fh ∷ [];
          flights = d.flights ++ begun s size offset buf ∷ [];
        }
            ≡ d' =
          ground (arith, e, found) in
        subst (IsSession decode contents world w) same (record {
          shows = v.shows;
          kept = v.kept;
          opened = v.opened;
          hold =
              AllHold-append decode contents world w d.flights (begun s size offset buf) v.hold
                (on, omega (arith, fit.0), fit.1);
        })
  ]

  lf_release-IsSession :
      (fh : ℕ) (d d' : FsData)
      → IsSession decode contents world w d
      → lf_release fh d ≡ ok d'
      → IsSession decode contents world w d'
  unfolding lf_release
  lf_release-IsSession fh d d' v e = elim (Option-cases (open_file fh d)) [
    | inl shut ↦ absurd (ground (arith, e, shut))
    | inr (s, found) ↦ elim (Bool-cases (in_use fh d.users d.flights)) [
      | inl used ↦ absurd (ground (arith, e, found, used))
      | inr idle ↦
          let same : record d { handles = free_handle fh d.handles } ≡ d' =
            ground (arith, e, found, idle) in
          subst (IsSession decode contents world w) same (record {
            shows = v.shows;
            kept = v.kept;
            opened = AllOpen-free decode contents world w fh d.handles v.opened;
            hold = v.hold;
          })
    ]
  ]

  pub step_read-IsSession :
      (k i : ℕ) (d : FsData)
      → IsSession decode contents world w d
      → IsSession decode contents world w (step_read decode k i d)
  unfolding step_read
  step_read-IsSession k i d v =
      let r = step_flights-Holds decode contents world w k i d.cache d.flights v.kept v.hold in
      record { shows = v.shows; kept = r.0; opened = v.opened; hold = r.1 }

  act-IsSession :
      (sys_open : List ℕ → Option ℕ) (a : Act) (d d' : FsData)
      → IsFit a
      → IsSession decode contents world w d
      → act decode sys_open a d ≡ ok d'
      → IsSession decode contents world w d'
  unfolding act
  act-IsSession sys_open (opens path flags) d d' fit v e =
      let same : open_handle sys_open path flags d ≡ d' = cc in
      subst (IsSession decode contents world w) same
        (open_handle-IsSession sys_open path flags d _ refl v)
  act-IsSession sys_open (releases fh) d d' fit v e = lf_release-IsSession fh d d' v e
  act-IsSession sys_open (reads fh size offset buf) d d' fit v e =
      begin_read-IsSession fh size offset buf d d' fit v e
  act-IsSession sys_open (steps k i) d d' fit v e =
      let same : step_read decode k i d ≡ d' = cc in
      subst (IsSession decode contents world w) same (step_read-IsSession k i d v)

  pub run_acts-IsSession :
      (sys_open : List ℕ → Option ℕ) (acts : List Act) (d d' : FsData)
      → AllFit acts
      → IsSession decode contents world w d
      → run_acts decode sys_open acts d ≡ ok d'
      → IsSession decode contents world w d'
  unfolding run_acts
  run_acts-IsSession sys_open [] d d' fit v e =
      let same : d ≡ d' = cc in subst (IsSession decode contents world w) same v
  run_acts-IsSession sys_open (a ∷ acts) d d' fit v e =
      elim (result_cases (act decode sys_open a d)) [
        | inr (x, bad) ↦ absurd (ground (arith, e, bad))
        | inl (d₁, ran) ↦
            run_acts-IsSession sys_open acts d₁ d' fit.1 (act-IsSession sys_open a d d₁ fit.0 v ran)
              (ground (arith, e, ran))
      ]

  pub lf_init-IsSession :
      (files : FileMap Source)
      → Shows decode contents world w files
      → IsSession decode contents world w (lf_init files)
  unfolding lf_init empty
  lf_init-IsSession files shows =
      let (valid, order, most) =
        set_max_weight_lem Key-discrete (empty 0) cache_size
          (empty-IsValid Key-discrete 0 (omega arith)) (omega arith) in
      record {
        shows = shows;
        kept = record {
          valid = valid;
          all = rw order (All-trim (Right decode contents world w) cache_size _ tt);
        };
        opened = tt;
        hold = tt;
      }
