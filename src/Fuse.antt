-- ===== src/Fuse.antt =====
-- lzopfs.cc: the handlers of the file system, on the files of the list. A file is its path, its
-- class and its blocks. FUSE itself, and the system's `open`, are parameters.
pub mod Shown
pub mod Options
pub mod Mount
pub mod Signals
pub mod Misuse
pub mod World
pub mod Flights
pub mod Steps
pub mod Handles
pub mod Session
pub mod Replies
use lzopfs.Base.{
  ℕ, ◌+◌, ◌/◌, ◌%◌, List, [], ◌∷◌, ◌++◌, Option, none, some, Bool, true, false, if◌then◌else◌,
  equal, ◌==◌, map, drop,
}
use lzopfs.Blocks.{Block, Buffer, Error, Result, ok, err, uncompressed_size}
use lzopfs.Paths.{FileClass, dest_name, slash, dot}
use lzopfs.Files.{FileMap, find_file, names}
use lzopfs.Cache.{Event, Map, Request, read}

-- What a handler needs of a `CompressedFile`.
pub record Source : Type 0 where
  pub path : List ℕ
  pub class : FileClass
  pub blocks : List Block

-- What `lf_getattr` fills in: a directory with its links, or a regular file with its size. The modes
-- are S_IFDIR | 0755 and S_IFREG | 0444.
pub data Attributes : Type 0 where
  directory : (links : ℕ) → Attributes
  regular : (links size : ℕ) → Attributes

-- The results of the handlers that are not 0.
pub data Failure : Type 0 where
  enoent eacces : Failure
  -- the positive error code of a failed `open`
  code : ℕ → Failure

pub data Reply {ℓ} (A : Type ℓ) : Type ℓ where
  done : A → Reply A
  fails : Failure → Reply A

-- `lf_getattr`
unfoldable pub lf_getattr : FileMap Source → List ℕ → Reply Attributes
unfolding find_file uncompressed_size
lf_getattr files path =
    if equal path (slash ∷ []) then done (directory 3) else elim (find_file files path) [
      | some file ↦ done (regular 1 (uncompressed_size file.blocks))
      | none ↦ fails enoent
    ]

-- `lf_readdir`: the names that are filled in, each without its first byte.
unfoldable pub lf_readdir : FileMap Source → List ℕ → Reply (List (List ℕ))
unfolding names
lf_readdir files path =
    if equal path (slash ∷ [])
    then done (map (drop 1) ((slash ∷ dot ∷ []) ∷ (slash ∷ dot ∷ dot ∷ []) ∷ names files))
    else fails enoent

-- `lf_open`: `flags % 4` is `flags & O_ACCMODE`, where 0 is O_RDONLY; `sys_open` opens a path to be
-- read and yields nothing, or the error code.
unfoldable pub lf_open : (List ℕ → Option ℕ) → FileMap Source → List ℕ → ℕ → Reply Source
unfolding find_file
lf_open sys_open files path flags = elim (find_file files path) [
  | none ↦ fails enoent
  | some file ↦
      if flags % 4 == 0
      then elim (sys_open file.path) [ none ↦ done file | some n ↦ fails (code n) ]
      else fails eacces
]

-- What `lf_read` does: it returns a count, still waits, or ends the program by `except`.
pub data ReadReply : Type 0 where
  count : Buffer → ℕ → ReadReply
  waits exits : ReadReply

-- `lf_read` on an open file.
unfoldable pub lf_read :
    (Block → Result Buffer) → List Event → Source → Map → Buffer → (size offset : ℕ) → ReadReply
unfolding read
lf_read decode events file m buf size offset =
    elim (read decode (record { id = file.path; size = size; offset = offset }) events file.blocks m
      buf) [ ok none ↦ waits | ok (some (r, n)) ↦ count r n | err e ↦ exits ]
