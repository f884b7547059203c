-- ===== src/Fuse/Flights.antt =====
-- lzopfs.cc, OpenCompressedFile.cc and BlockCache.cc: what holds of a read in flight, between the
-- steps of all threads.
use lzopfs.Base.{
  ℕ, ◌+◌, ◌≤◌, ◌<◌, ◌≡◌, refl, ap, sym, ◌∙◌, subst, ◌⊎◌, inl, inr, List, [], ◌∷◌, Bool, true, false,
  ◌==◌, arith, length, mod64, map,
}
use lzopfs.Blocks.{Block, Buffer, Result}
use lzopfs.Blocks.Contents.{In}
use lzopfs.Blocks.Tiles.{Tiles, end_from}
use lzopfs.Read.{Sink}
use lzopfs.Read.Callback.{IsGood, Served}
use lzopfs.Cache.{Map, Scan, Task}
use lzopfs.Cache.Invariants.{IsFile, Answer, TasksHold, ScanHolds, Handled, open_jobs, jobs_of}
use lzopfs.Cache.Covering.{AllServed, answer}
use lzopfs.Cache.Kept.{IsKept}
use lzopfs.Cache.Waiting.{jobs_of-blocks, jobs_of-map, open_jobs-jobs_of}
use lzopfs.Fuse.{Source, ReadReply, count, waits, exits}
use lzopfs.Fuse.Mount.{asked, Flight, begun, running, replied, reply_of, queue_jobs}
use lzopfs.Fuse.World.{IsWorld, Right}

pub queue_jobs-none :
    (s : Source) (size offset : ℕ) (sc : Scan)
    → sc.need ≡ []
    → queue_jobs s size offset sc ≡ replied s size offset (reply_of offset sc.sink)
unfolding queue_jobs
queue_jobs-none s size offset sc e = rw (e, queue_jobs) refl

pub queue_jobs-some :
    (s : Source) (size offset : ℕ) (sc : Scan) (b : Block) (need : List Block)
    → sc.need ≡ b ∷ need
    → queue_jobs s size offset sc
      ≡ running s size offset (jobs_of (b ∷ need)) sc.sink (length (b ∷ need)) false false
unfolding queue_jobs
queue_jobs-some s size offset sc b need e =
    rw (e, queue_jobs)
      (ap (λ ts. running s size offset ts sc.sink (length (b ∷ need)) false false)
        (jobs_of-map (b ∷ need)))

module _ (decode : Source → Block → Result Buffer) (contents : Source → Buffer)
    (world : Source → Type 0) (w : IsWorld decode contents world) where
  -- What `lf_read` may reply: the bytes that were asked for, as far as the file goes; the program is
  -- ended only for a read at or behind the end of the file.
  abbrev pub IsCorrect : Source → (size offset : ℕ) → ReadReply → Type 0
  IsCorrect s size offset (count r n) = Answer (contents s) (asked s size offset) (r, n)
  IsCorrect s size offset exits = length (contents s) ≤ offset
  IsCorrect s size offset waits = ⊥

  -- What is known of a read while its jobs run: each block that it wants is served, or a job's.
  pub record Flying (s : Source) (size offset : ℕ) (ts : List Task) (sink : Sink) (remain : ℕ)
      (woken waiting : Bool) : Type 0 where
    pub on : world s
    pub small : offset + size < mod64
    pub inside : offset < length (contents s)
    pub tasks : TasksHold (decode s) s.blocks (contents s) (asked s size offset) sink ts
    pub good : IsGood (contents s) size offset sink
    pub counted : remain ≡ open_jobs ts + 0
    pub signal : woken ≡ (remain == 0)
    pub unsignalled : (waiting ≡ true) ⊎ (0 < remain)
    pub machine : open_jobs ts + 0 < mod64
    pub head : Block
    pub rest : List Block
    pub tiles : Tiles head.uoff (head ∷ rest)
    pub starts : head.uoff ≤ offset
    pub ends : end_from head.uoff (head ∷ rest) ≡ length (contents s)
    pub handled :
        (c : Block)
        → In c (head ∷ rest)
        → c.uoff < offset + size
        → Served (contents s) size offset c sink ⊎ In c (map (λ t. t.0) ts)

  abbrev pub FlightHolds : Flight → Type 0
  FlightHolds (begun s size offset buf) = world s × (offset + size < mod64) × (length buf ≡ size)
  FlightHolds (running s size offset ts sink remain woken waiting) =
      Flying s size offset ts sink remain woken waiting
  FlightHolds (replied s size offset r) = IsCorrect s size offset r

  -- A step leaves the cache right for all files.
  abbrev pub StepHolds : Map × Flight → Type 0
  StepHolds r = IsKept (Right decode contents world w) r.0 × FlightHolds r.1

  module _ (s : Source) (size offset : ℕ) (on : world s) (small : offset + size < mod64) where
    abbrev file : IsFile (decode s) s.blocks (contents s)
    file = w.is_file s on

    -- The reply when all blocks are served.
    pub served_reply :
        (inside : offset < length (contents s)) (head : Block) (rest : List Block) (sink : Sink)
        → Tiles head.uoff (head ∷ rest)
        → head.uoff ≤ offset
        → end_from head.uoff (head ∷ rest) ≡ length (contents s)
        → IsGood (contents s) size offset sink
        → AllServed (contents s) (asked s size offset) (head ∷ rest) sink
        → IsCorrect s size offset (reply_of offset sink)
    served_reply inside head rest sink tiles starts ends good served =
        answer (contents s) (asked s size offset) head rest sink tiles starts inside ends good
          served

    -- Behind the loop over the blocks.
    pub queue_jobs-Holds :
        (inside : offset < length (contents s)) (head : Block) (rest need : List Block) (sc : Scan)
        → Tiles head.uoff (head ∷ rest)
        → head.uoff ≤ offset
        → end_from head.uoff (head ∷ rest) ≡ length (contents s)
        → ScanHolds (decode s) s.blocks (contents s) (asked s size offset) sc
        → ((c : Block)
            → In c (head ∷ rest)
            → c.uoff < offset + size
            → Handled (decode s) s.blocks (contents s) (asked s size offset) c sc)
        → length need < mod64
        → sc.need ≡ need
        → FlightHolds (queue_jobs s size offset sc)
    queue_jobs-Holds inside head rest [] sc tiles starts ends holds handled few e =
        subst FlightHolds (sym (queue_jobs-none s size offset sc e)) (
          served_reply inside head rest sc.sink tiles starts ends holds.good (λ c there wanted.
            elim (handled c there wanted) [
              | inl served ↦ served
              | inr listed ↦ absurd (subst (In c) e listed)
            ]))
    queue_jobs-Holds inside head rest (b ∷ need) sc tiles starts ends holds handled few e =
        let opened = open_jobs-jobs_of (b ∷ need) in
        subst FlightHolds (sym (queue_jobs-some s size offset sc b need e)) (record {
          on = on;
          small = small;
          inside = inside;
          tasks =
              subst (TasksHold (decode s) s.blocks (contents s) (asked s size offset) sc.sink)
                (ap jobs_of e) holds.needed;
          good = holds.good;
          counted = omega (arith, opened);
          signal = ground arith;
          unsignalled = inr (omega arith);
          machine = omega (arith, opened, few);
          head = head;
          rest = rest;
          tiles = tiles;
          starts = starts;
          ends = ends;
          handled = λ c there wanted. elim (handled c there wanted) [
            | inl served ↦ inl served
            | inr listed ↦ inr (subst (In c) (e ∙ sym (jobs_of-blocks (b ∷ need))) listed)
          ];
        })
