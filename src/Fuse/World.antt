-- ===== src/Fuse/World.antt =====
-- lzopfs.cc and BlockCache.cc: the cache holds the data of all the files of the file system.
use lzopfs.Base.{◌<◌, length, max_off, ◌≡◌, ap, sym, subst, List, [], ◌∷◌}
use lzopfs.Blocks.{Block, Buffer, Result, ok}
use lzopfs.Blocks.Contents.{In}
use lzopfs.Lru.Nodes.{Entry}
use lzopfs.Cache.{
  Key, key_of, Map, Request, Task, queued, missed, decoded, stored, called, finished,
}
use lzopfs.Cache.Coherence.{All, IsRight, IsCoherent}
use lzopfs.Cache.Invariants.{IsFile, TasksHold}
use lzopfs.Cache.Kept.{IsKept, new_entry, AllNew}
use lzopfs.Read.{Sink}
use lzopfs.Fuse.{Source}

-- The files of the file system: each one's blocks decompress to its contents, whose size is an
-- `off_t`, and no two have the same path.
pub record IsWorld (decode : Source → Block → Result Buffer) (contents : Source → Buffer)
    (world : Source → Type 0) : Type 0 where
  pub is_file : (s : Source) → world s → IsFile (decode s) s.blocks (contents s)
  pub in_off : (s : Source) → world s → length (contents s) < max_off
  pub one_path : (s t : Source) → world s → world t → s.path ≡ t.path → s ≡ t

module _ (decode : Source → Block → Result Buffer) (contents : Source → Buffer)
    (world : Source → Type 0) (w : IsWorld decode contents world) where
  -- What an entry says is true of each file.
  abbrev pub Right : Entry Key Buffer → Type 0
  Right e = (s : Source) → world s → IsRight (decode s) s.path s.blocks e

  All-Right :
      (s : Source) (es : List (Entry Key Buffer))
      → world s
      → All Right es
      → All (IsRight (decode s) s.path s.blocks) es
  All-Right s [] on h = tt
  All-Right s (e ∷ es) on h = (h.0 s on, All-Right s es on h.1)

  -- A cache that is right for all files is coherent for each.
  pub IsKept-IsCoherent :
      (s : Source) (m : Map) → world s → IsKept Right m → IsCoherent (decode s) s.path s.blocks m
  IsKept-IsCoherent s m on kept = record {
    valid = kept.valid;
    entries_right = All-Right s _ on kept.all;
  }

  -- What a block of a file decompresses to is right under the block's key.
  pub Right-new :
      (s : Source) (b : Block) (d : Buffer)
      → world s
      → In b s.blocks
      → decode s b ≡ ok d
      → Right (new_entry (key_of s.path b) d)
  Right-new s b d on inside e t there = record {
    right = λ c h same.
        let one : s ≡ t = w.one_path s t on there (ap (λ k. k.id) same) in
        let here : In b t.blocks = subst (λ x. In b x.blocks) one inside in
        let block : b ≡ c = (w.is_file t there).distinct b c here h (ap (λ k. k.offset) same) in
        subst (λ x. decode t x ≡ ok d) block (subst (λ x. decode x b ≡ ok d) one e);
  }

  -- So the jobs of a read store what is right.
  pub TasksHold-AllNew :
      (s : Source) (q : Request) (sink : Sink) (ts : List Task)
      → world s
      → q.id ≡ s.path
      → TasksHold (decode s) s.blocks (contents s) q sink ts
      → AllNew Right (decode s) q ts
  TasksHold-AllNew s q sink [] on e h = tt
  TasksHold-AllNew s q sink ((b, decoded d) ∷ ts) on e (inside, touches, right, rest) = (
    subst (λ id. Right (new_entry (key_of id b) d)) (sym e) (Right-new s b d on inside right),
    TasksHold-AllNew s q sink ts on e rest,
  )
  TasksHold-AllNew s q sink ((b, queued) ∷ ts) on e (inside, touches, right, rest) =
      (tt, TasksHold-AllNew s q sink ts on e rest)
  TasksHold-AllNew s q sink ((b, missed) ∷ ts) on e (inside, touches, right, rest) =
      (tt, TasksHold-AllNew s q sink ts on e rest)
  TasksHold-AllNew s q sink ((b, stored d) ∷ ts) on e (inside, touches, right, rest) =
      (tt, TasksHold-AllNew s q sink ts on e rest)
  TasksHold-AllNew s q sink ((b, called) ∷ ts) on e (inside, touches, right, rest) =
      (tt, TasksHold-AllNew s q sink ts on e rest)
  TasksHold-AllNew s q sink ((b, finished) ∷ ts) on e (inside, touches, right, rest) =
      (tt, TasksHold-AllNew s q sink ts on e rest)
