-- ===== src/Fuse/Misuse.antt =====
-- lzopfs.cc: the calls that have undefined behaviour, which FUSE never makes.
use lzopfs.Base.{
  ℕ, suc, ◌≡◌, ◌≢◌, ◌⊎◌, inl, inr, ◌==◌, ◌&&◌, not, true, false, Bool-cases, Option-cases, refl,
  List, [], ◌∷◌, ◌++◌, Option, none, some, arith, get_elem?,
}
use lzopfs.Blocks.{Block, Buffer, Result, ok}
use lzopfs.Fuse.{Source}
use lzopfs.Fuse.Mount.{
  Flight, begun, FsData, lf_release, begin_read, Act, opens, releases, reads, steps, act, run_acts,
  is_over, in_use, open_file, free_handle,
}

-- A handle that no file is open on.
abbrev pub IsShut : ℕ → FsData → Type 0
IsShut fh d = (s : Source) → get_elem? d.handles fh ≢ some (some s)

-- A handle on which a call of `lf_read` has no reply yet.
abbrev pub InFlight : ℕ → List ℕ → List Flight → Type 0
InFlight fh users flights =
    (k : ℕ) × (f : Flight) × (get_elem? users k ≡ some fh)
    × (get_elem? flights k ≡ some f)
    × (is_over f ≡ false)

-- A call that FUSE never makes: to release a handle that is not open or on which a read is in flight,
-- or to read from one that is not open.
abbrev pub Misuse : Act → FsData → Type 0
Misuse (opens path flags) d = ⊥
Misuse (releases fh) d = IsShut fh d ⊎ InFlight fh d.users d.flights
Misuse (reads fh size offset buf) d = IsShut fh d
Misuse (steps k i) d = ⊥

-- Somewhere in a sequence there is such a call.
pub data Misused (decode : Source → Block → Result Buffer) (sys_open : List ℕ → Option ℕ)
    : List Act → FsData → Type 0 where
  here :
      {a : Act} {acts : List Act} {d : FsData} → Misuse a d → Misused decode sys_open (a ∷ acts) d
  there :
      {a : Act} {acts : List Act} {d d' : FsData}
      → act decode sys_open a d ≡ ok d'
      → Misused decode sys_open acts d'
      → Misused decode sys_open (a ∷ acts) d

open_file-none : (fh : ℕ) (d : FsData) → open_file fh d ≡ none → IsShut fh d
unfolding open_file
open_file-none fh d e s h = absurd (ground (arith, e, h))

pub open_file-some :
    (fh : ℕ) (d : FsData) (s : Source)
    → open_file fh d ≡ some s
    → get_elem? d.handles fh ≡ some (some s)
unfolding open_file
open_file-some fh d s e = elim (Option-cases (get_elem? d.handles fh)) [
  | inl out ↦ absurd (ground (arith, e, out))
  | inr (h, found) ↦ ground (arith, e, found)
]

in_use-InFlight :
    (fh : ℕ) (users : List ℕ) (flights : List Flight)
    → in_use fh users flights ≡ true
    → InFlight fh users flights
unfolding in_use
in_use-InFlight fh [] flights h = absurd (ground (arith, h))
in_use-InFlight fh (u ∷ us) [] h = absurd (ground (arith, h))
in_use-InFlight fh (u ∷ us) (f ∷ fs) h = elim (Bool-cases (u == fh && not (is_over f))) [
  | inl e ↦ (0, f, ground (arith, e), refl, ground (arith, e))
  | inr e ↦
      let (k, g, who, which, live) = in_use-InFlight fh us fs (ground (arith, h, e)) in
      (suc k, g, who, which, live)
]

-- A call has undefined behaviour only where FUSE never makes it.
act_cases :
    (decode : Source → Block → Result Buffer) (sys_open : List ℕ → Option ℕ) (a : Act) (d : FsData)
    → ((d' : FsData) × (act decode sys_open a d ≡ ok d')) ⊎ Misuse a d
unfolding act lf_release begin_read
act_cases decode sys_open (opens path flags) d = inl (_, refl)
act_cases decode sys_open (steps k i) d = inl (_, refl)
act_cases decode sys_open (reads fh size offset buf) d = elim (Option-cases (open_file fh d)) [
  | inl shut ↦ inr (open_file-none fh d shut)
  | inr (s, found) ↦ inl (
    record d { users = d.users ++ fh ∷ []; flights = d.flights ++ begun s size offset buf ∷ [] },
    rw (found, begin_read) refl,
  )
]
act_cases decode sys_open (releases fh) d = elim (Option-cases (open_file fh d)) [
  | inl shut ↦ inr (inl (open_file-none fh d shut))
  | inr (s, found) ↦ elim (Bool-cases (in_use fh d.users d.flights)) [
    | inl used ↦ inr (inr (in_use-InFlight fh d.users d.flights used))
    | inr idle ↦ inl (
      record d { handles = free_handle fh d.handles },
      rw (found, lf_release) (rw (idle, lf_release) refl),
    )
  ]
]

pub run_acts_cases :
    (decode : Source → Block → Result Buffer) (sys_open : List ℕ → Option ℕ) (acts : List Act)
    (d : FsData)
    → ((d' : FsData) × (run_acts decode sys_open acts d ≡ ok d')) ⊎ Misused decode sys_open acts d
unfolding run_acts
run_acts_cases decode sys_open [] d = inl (d, refl)
run_acts_cases decode sys_open (a ∷ acts) d = elim (act_cases decode sys_open a d) [
  | inr bad ↦ inr (here bad)
  | inl (d₁, ran) ↦ elim (run_acts_cases decode sys_open acts d₁) [
    | inr bad ↦ inr (there ran bad)
    | inl (d', rest) ↦ inl (d', rw (ran, run_acts) rest)
  ]
]
