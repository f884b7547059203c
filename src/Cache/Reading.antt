-- ===== src/Cache/Reading.antt =====
-- OpenCompressedFile.cc: a read returns exactly the bytes of the uncompressed file that it asks for.
use lzopfs.Base.{
  ℕ, ◌+◌, ◌<◌, ◌≤◌, ◌≡◌, refl, ◌∙◌, List, [], ◌∷◌, Option, some, arith, inl, inr, mod64, subst, sym,
  add64, length,
}
use native.Mathlib.Nat.{zero-add}
use lzopfs.Blocks.{Block, Buffer, Result, ok, err, find_block, runtime}
use lzopfs.Blocks.Contents.{In, In-append, Encodes-Tiles}
use lzopfs.Blocks.Tiles.{Tiles, end_from, length-Tiles}
use lzopfs.Blocks.Search.{find_block-Holds, find_block-end}
use lzopfs.Read.Callback.{IsGood}
use lzopfs.Cache.{Map, Request, Event, Scan, scan, get_blocks, read, returned}
use lzopfs.Cache.Coherence.{IsCoherent}
use lzopfs.Cache.Scanning.{scan_lem, scan-length, Tiles-above}
use lzopfs.Cache.Invariants.{Coherent, ScanHolds, Handled, Answer, IsFile}
use lzopfs.Cache.Covering.{answer}
use lzopfs.Cache.Waiting.{after_scan_lem, answered}

module _ (decode : Block → Result Buffer) (bs : List Block) (contents : Buffer)
    (file : IsFile decode bs contents) (q : Request) (small : q.offset + q.size < mod64) where
  -- The state in which the loop over the blocks begins.
  abbrev pub first : Map → Buffer → Scan
  first m buf = record { map = m; sink = record { buf = buf; max_end = q.offset }; need = [] }

  first-IsGood :
      (buf : Buffer)
      → length buf ≡ q.size
      → q.offset < length contents
      → IsGood contents q.size q.offset (record { buf = buf; max_end = q.offset })
  first-IsGood buf room inside = record { room = room; from = omega arith; within = omega arith }

  -- Every block from the one that holds the position ends behind it.
  ends_behind :
      (b : Block) (it : List Block) (c : Block)
      → Tiles b.uoff (b ∷ it)
      → q.offset < b.uoff + b.usize
      → In c (b ∷ it)
      → q.offset < c.uoff + c.usize
  ends_behind b it c t h (inl same) = rw same h
  ends_behind b it c t h (inr later) = omega (arith, Tiles-above (b.uoff + b.usize) it c t.2 later)

  -- What a read has done when it comes to the jobs: the block of its place is found, and all blocks
  -- that it wants are served or on the list.
  pub record Scanned (m : Map) (buf : Buffer) : Type 0 where
    pub head : Block
    pub rest : List Block
    pub state : Scan
    pub found : find_block bs q.offset ≡ ok (head ∷ rest)
    pub scanned : scan q (add64 q.offset q.size) (head ∷ rest) (first m buf) ≡ ok state
    pub tiles : Tiles head.uoff (head ∷ rest)
    pub starts : head.uoff ≤ q.offset
    pub ends : end_from head.uoff (head ∷ rest) ≡ length contents
    pub holds : ScanHolds decode bs contents q state
    pub handled :
        (c : Block)
        → In c (head ∷ rest)
        → c.uoff < q.offset + q.size
        → Handled decode bs contents q c state
    pub few : length state.need < mod64

  pub scan_read :
      (m : Map) (buf : Buffer)
      → IsCoherent decode q.id bs m
      → length buf ≡ q.size
      → q.offset < length contents
      → Scanned m buf
  scan_read m buf coherent room inside =
      let fits : add64 q.offset q.size ≡ q.offset + q.size = omega arith in
      let (tiles, total) = Encodes-Tiles decode 0 bs contents file.encodes in
      let (pre, b, it, found, split, holds) =
        find_block-Holds q.offset bs tiles (omega (arith, file.short)) (omega arith) in
      let (sc, scanned, progress, handled) =
        scan_lem decode bs contents file q small b.uoff (b ∷ it) (first m buf) holds.tiles
          (λ c on.
            (rw split (In-append c pre (b ∷ it) on), ends_behind b it c holds.tiles holds.ends on))
          (record { coherent = coherent; good = first-IsGood buf room inside; needed = tt }) in
      record {
        head = b;
        rest = it;
        state = sc;
        found = found;
        scanned = subst (λ n. scan q n (b ∷ it) (first m buf) ≡ ok sc) (sym fits) scanned;
        tiles = holds.tiles;
        starts = holds.starts;
        ends = holds.same_end ∙ total ∙ zero-add (length contents);
        holds = progress.holds;
        handled = handled;
        few = omega (
          arith,
          scan-length q (q.offset + q.size) (b ∷ it) (first m buf) sc scanned,
          length-Tiles b.uoff (b ∷ it) holds.tiles,
          holds.same_end,
          total,
          file.short,
        );
      }

  -- A read at a place inside a file whose blocks decompress to its contents and begin at different
  -- places, with an end below 2^64, the buffer of the size asked for, and a coherent cache, never
  -- faults, under any schedule of the steps of its jobs, with other threads changing the cache
  -- between them to any coherent one; and if the schedule lets it return, the buffer keeps its
  -- length, the count returned is the smaller of the size asked for and what the file has from
  -- there, and so many bytes of the buffer are the bytes of the file.
  pub read_lem :
      (events : List Event) (m : Map) (buf : Buffer)
      → IsCoherent decode q.id bs m
      → Coherent decode bs contents q events
      → length buf ≡ q.size
      → q.offset < length contents
      → (r : Option (Buffer × ℕ)) × (read decode q events bs m buf ≡ ok r)
        × ((a : Buffer × ℕ) → r ≡ some a → Answer contents q a)
  unfolding read get_blocks
  read_lem events m buf coherent others room inside =
      let x = scan_read m buf coherent room inside in
      let (r, done, right) =
        after_scan_lem decode bs contents file q small (x.head ∷ x.rest) x.state.need x.state events
          refl x.holds others x.few x.handled in
      (
        returned q.offset r,
        rw x.found (rw x.scanned (rw done)),
        answered decode bs contents file q small r (λ s e.
            answer contents q x.head x.rest s x.tiles x.starts inside x.ends (right s e).0
              (right s e).1),
      )

  -- A read at or behind the end of a file whose blocks decompress to its contents of less than 2^64
  -- bytes and begin at different places, with an end below 2^64, is a runtime error, not a read of
  -- no bytes, under every schedule.
  pub read-end :
      (events : List Event) (m : Map) (buf : Buffer)
      → length contents ≤ q.offset
      → read decode q events bs m buf ≡ err runtime
  unfolding read
  read-end events m buf behind =
      let (tiles, total) = Encodes-Tiles decode 0 bs contents file.encodes in
      rw (find_block-end q.offset bs tiles (omega (arith, file.short)) (omega arith))
