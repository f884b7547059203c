-- ===== src/Handle/Object.antt =====
-- FileHandle.h and FileHandle.cc: which object closes a descriptor. `none` is the descriptor -1; an
-- operation yields the descriptor that it passes to the system's `close`, if any. `opened` is what the
-- system's `open` returns.
use lzopfs.Base.{ℕ, List, [], Option, none, some, Bool, true, false, if◌then◌else◌}
use lzopfs.Blocks.{Result, ok, err, system}

pub record FileObject : Type 0 where
  pub path : List ℕ
  pub fd : Option ℕ
  pub own : Bool

-- The constructor from a descriptor.
unfoldable pub new_object : Option ℕ → FileObject
new_object fd = record { path = []; fd = fd; own = false }

-- `open`
unfoldable pub open_object : Option ℕ → List ℕ → FileObject → Result FileObject
open_object opened path o = elim o.fd [
  | some d ↦ err system
  | none ↦ elim opened [
    | none ↦ err system
    | some d ↦ ok (record { path = path; fd = some d; own = true })
  ]
]

-- `close`
unfoldable pub close_object : FileObject → FileObject × Option ℕ
close_object o = (record o { fd = none }, if o.own then o.fd else none)

-- `operator=`, into an object whose members are set, with the descriptor that it closes first. The copy
-- constructor calls it on members that are not set, which is undefined behaviour.
unfoldable pub assign : FileObject → FileObject → FileObject × Option ℕ
unfolding close_object
assign o from = (record { path = from.path; fd = from.fd; own = false }, (close_object o).1)
