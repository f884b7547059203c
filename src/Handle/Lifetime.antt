-- ===== src/Handle/Lifetime.antt =====
-- FileHandle.cc: the constructor from a path, the destructor, and `writeBuf` between the two.
use lzopfs.Base.{ℕ, ◌≡◌, refl, ap, List, [], Option, none, some}
use mathlib.Core.List.{append-nil}
use lzopfs.Blocks.{Buffer, Result, ok, err, system}
use lzopfs.Handle.{Posix, Handle, write}
use lzopfs.Handle.Regular.{IsRegular, write_lem}
use lzopfs.Handle.Object.{FileObject, new_object, open_object, close_object}

-- The constructor from a path.
unfoldable pub from_path : Option ℕ → List ℕ → Result FileObject
unfolding new_object open_object
from_path opened path = open_object opened path (new_object none)

-- The destructor, with the descriptor that it closes.
unfoldable pub destruct : FileObject → Option ℕ
unfolding close_object
destruct o = (close_object o).1

-- The file behind O_CREAT | O_TRUNC.
abbrev pub truncated : Handle
truncated = record { contents = []; position = 0 }

-- `writeBuf`: the descriptor that is closed at its end, also by an exception, and the file.
unfoldable pub write_buf : Posix → Option ℕ → List ℕ → Buffer → Option ℕ × Result Buffer
unfolding from_path destruct write
write_buf os opened path b = elim (from_path opened path) [
  | err x ↦ (none, err x)
  | ok o ↦ (destruct o, elim (write os b truncated) [ err x ↦ err x | ok r ↦ ok r.1.contents ])
]

-- On a regular system, writeBuf leaves the bytes of the buffer, and no others, in the file, and closes
-- the descriptor that it opened, exactly that one; when the path cannot be opened, it is a system
-- error, and nothing is closed.
pub write_buf_lem :
    (os : Posix)
    → IsRegular os
    → (opened : ℕ) (path : List ℕ) (b : Buffer)
    → (write_buf os (some opened) path b ≡ (some opened, ok b))
      × (write_buf os none path b ≡ (none, err system))
unfolding write_buf
write_buf_lem os regular opened path b =
    (rw (write_lem os regular [] b, write_buf) (ap (λ l. (some opened, ok l)) (append-nil b)), refl)
