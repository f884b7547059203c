-- ===== src/Fuse/Handles.antt =====
-- lzopfs.cc: what holds of the files that are open and of the reads in flight.
use lzopfs.Base.{
  ℕ, zero, suc, ◌≡◌, subst, inl, inr, List, [], ◌∷◌, ◌++◌, Option, none, some, Bool, true, false,
  ◌==◌, if◌then◌else◌, Option-cases, arith, get_elem?, ◌%◌,
}
use lzopfs.Blocks.{Block, Buffer, Result}
use lzopfs.Cache.{Map}
use lzopfs.Cache.Kept.{IsKept}
use lzopfs.Files.{FileMap, find_file}
use lzopfs.Fuse.{Source, done, fails, code, eacces, lf_open}
use lzopfs.Fuse.Mount.{Flight, replied, FsData, free_handle, step_flights}
use lzopfs.Fuse.World.{IsWorld, Right}
use lzopfs.Fuse.Flights.{FlightHolds, IsCorrect}
use lzopfs.Fuse.Steps.{flight_step-Holds}

module _ (decode : Source → Block → Result Buffer) (contents : Source → Buffer)
    (world : Source → Type 0) (w : IsWorld decode contents world) where
  abbrev pub AllOpen : List (Option Source) → Type 0
  AllOpen [] = Unit
  AllOpen (none ∷ hs) = AllOpen hs
  AllOpen (some s ∷ hs) = world s × AllOpen hs

  abbrev pub AllHold : List Flight → Type 0
  AllHold [] = Unit
  AllHold (f ∷ fs) = FlightHolds decode contents world w f × AllHold fs

  -- Every reply that was made is correct.
  abbrev pub AllCorrect : List Flight → Type 0
  AllCorrect [] = Unit
  AllCorrect (replied s size offset r ∷ fs) =
      IsCorrect decode contents world w s size offset r × AllCorrect fs
  AllCorrect (_ ∷ fs) = AllCorrect fs

  -- The list shows files of the world.
  abbrev pub Shows : FileMap Source → Type 0
  Shows files = (path : List ℕ) (s : Source) → find_file files path ≡ some s → world s

  pub record IsSession (d : FsData) : Type 0 where
    pub shows : Shows d.files
    pub kept : IsKept (Right decode contents world w) d.cache
    pub opened : AllOpen d.handles
    pub hold : AllHold d.flights

  pub AllOpen-append :
      (hs : List (Option Source)) (s : Source) → AllOpen hs → world s → AllOpen (hs ++ some s ∷ [])
  AllOpen-append [] s h on = (on, tt)
  AllOpen-append (none ∷ hs) s h on = AllOpen-append hs s h on
  AllOpen-append (some t ∷ hs) s h on = (h.0, AllOpen-append hs s h.1 on)

  pub AllOpen-free : (fh : ℕ) (hs : List (Option Source)) → AllOpen hs → AllOpen (free_handle fh hs)
  unfolding free_handle
  AllOpen-free fh [] h = tt
  AllOpen-free zero (none ∷ hs) h = h
  AllOpen-free zero (some t ∷ hs) h = h.1
  AllOpen-free (suc fh) (none ∷ hs) h = AllOpen-free fh hs h
  AllOpen-free (suc fh) (some t ∷ hs) h = (h.0, AllOpen-free fh hs h.1)

  pub AllOpen-get :
      (fh : ℕ) (hs : List (Option Source)) (s : Source)
      → AllOpen hs
      → get_elem? hs fh ≡ some (some s)
      → world s
  AllOpen-get fh [] s h e = absurd (ground (arith, e))
  AllOpen-get zero (none ∷ hs) s h e = absurd (ground (arith, e))
  AllOpen-get zero (some t ∷ hs) s h e = let same : t ≡ s = cc in subst world same h.0
  AllOpen-get (suc fh) (none ∷ hs) s h e = AllOpen-get fh hs s h e
  AllOpen-get (suc fh) (some t ∷ hs) s h e = AllOpen-get fh hs s h.1 e

  pub AllHold-append :
      (fs : List Flight) (f : Flight)
      → AllHold fs
      → FlightHolds decode contents world w f
      → AllHold (fs ++ f ∷ [])
  AllHold-append [] f h new = (new, tt)
  AllHold-append (g ∷ fs) f h new = (h.0, AllHold-append fs f h.1 new)

  pub step_flights-Holds :
      (k i : ℕ) (m : Map) (fs : List Flight)
      → IsKept (Right decode contents world w) m
      → AllHold fs
      → IsKept (Right decode contents world w) (step_flights decode k i m fs).0
        × AllHold (step_flights decode k i m fs).1
  unfolding step_flights
  step_flights-Holds k i m [] kept h = (kept, tt)
  step_flights-Holds zero i m (f ∷ fs) kept h =
      let r = flight_step-Holds decode contents world w i m f kept h.0 in (r.0, (r.1, h.1))
  step_flights-Holds (suc k) i m (f ∷ fs) kept h =
      let r = step_flights-Holds k i m fs kept h.1 in (r.0, (h.0, r.1))

  pub lf_open-world :
      (sys_open : List ℕ → Option ℕ) (files : FileMap Source) (path : List ℕ) (flags : ℕ)
      (s : Source)
      → Shows files
      → lf_open sys_open files path flags ≡ done s
      → world s
  unfolding lf_open
  lf_open-world sys_open files path flags s shows e = elim (Option-cases (find_file files path)) [
    | inl f ↦ absurd (cc (rw (f, lf_open) at e))
    | inr (t, f) ↦
        let same : t ≡ s = opened_file (flags % 4 == 0) (sys_open t.path) (rw (f, lf_open) at e) in
        subst world same (shows path t f)
  ]
    where
      opened_file :
          {t : Source} (b : Bool) (r : Option ℕ)
          → (if b then (elim r [ none ↦ done t | some n ↦ fails (code n) ]) else fails eacces)
            ≡ done s
          → t ≡ s
      opened_file true none e = cc
      opened_file true (some n) e = absurd (cc)
      opened_file false r e = absurd (cc)
