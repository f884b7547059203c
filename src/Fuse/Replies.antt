-- ===== src/Fuse/Replies.antt =====
-- lzopfs.cc: a read in flight can always get its reply.
use lzopfs.Base.{ℕ, ◌≡◌, List, [], ◌∷◌, Option, some, get_elem?}
use lzopfs.Blocks.{Block, Buffer, Result, ok}
use lzopfs.Fuse.{Source, ReadReply}
use lzopfs.Fuse.Mount.{Flight, begun, replied, FsData, Act, steps, run_acts}
use lzopfs.Fuse.World.{IsWorld}

-- A read that went through the blocks.
abbrev IsPast : Flight → Type 0
IsPast (begun s size offset buf) = ⊥
IsPast f = Unit

-- Steps of reads in flight, with no call between them.
abbrev pub OnlySteps : List Act → Type 0
OnlySteps [] = Unit
OnlySteps (steps k i ∷ acts) = OnlySteps acts
OnlySteps (a ∷ acts) = ⊥

module _ (decode : Source → Block → Result Buffer) (contents : Source → Buffer)
    (world : Source → Type 0) (w : IsWorld decode contents world)
    (sys_open : List ℕ → Option ℕ) where
  -- Some steps let the read at an index get its reply.
  abbrev Replies : ℕ → FsData → Type 0
  Replies k d =
      (more : List Act) × (s : Source) × (size : ℕ) × (offset : ℕ) × (r : ReadReply) × OnlySteps
        more
      × (d' : FsData) × (run_acts decode sys_open more d ≡ ok d')
      × (get_elem? d'.flights k ≡ some (replied s size offset r))
