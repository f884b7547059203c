-- ===== src/Read/Callback.antt =====
-- OpenCompressedFile.cc: the callback writes the right bytes, and only those.
use lzopfs.Base.{
  ◌∙◌, ap, ℕ, ◌+◌, ◌-◌, ◌<◌, ◌≤◌, ◌≡◌, ◌++◌, take, drop, length, min, max, leb, ltb, ◌&&◌,
  if◌then◌else◌, add64, sub64, mod64, get_elem?, get_elem?-append, get_elem?-take, get_elem?-drop,
  length-append, length-take, length-drop, arith,
}
use lzopfs.Blocks.Contents.{Part}
use lzopfs.Blocks.{Block, Buffer, ok}
use lzopfs.Read.{Sink, memcpy, callback}

get_elem?-copy :
    (dst : Buffer) (pos : ℕ) (src : Buffer) (start size i : ℕ)
    → start + size ≤ length src
    → pos + size ≤ length dst
    → get_elem? (take pos dst ++ (take size (drop start src) ++ drop (pos + size) dst)) i ≡ (
        if leb pos i && ltb i (pos + size)
        then get_elem? src (start + (i - pos))
        else get_elem? dst i)
get_elem?-copy dst pos src start size i hs hd = ground (
  arith,
  get_elem?-append (take pos dst) (take size (drop start src) ++ drop (pos + size) dst) i,
  get_elem?-append (take size (drop start src)) (drop (pos + size) dst) (i - length (take pos dst)),
  get_elem?-take pos dst i,
  get_elem?-take size (drop start src) (i - length (take pos dst)),
  get_elem?-drop start src (i - length (take pos dst)),
  get_elem?-drop (pos + size) dst (i - length (take pos dst) - length (take size (drop start src))),
  length-take pos dst,
  length-take size (drop start src),
  length-drop start src,
)

-- A copy inside both buffers succeeds, keeps the length, and changes only what it writes.
pub memcpy_lem :
    (dst : Buffer) (pos : ℕ) (src : Buffer) (start size : ℕ)
    → start + size ≤ length src
    → pos + size ≤ length dst
    → (r : Buffer) × (memcpy dst pos src start size ≡ ok r)
      × (length r ≡ length dst)
      × ((i : ℕ)
          → get_elem? r i ≡ (
              if leb pos i && ltb i (pos + size)
              then get_elem? src (start + (i - pos))
              else get_elem? dst i))
unfolding memcpy
memcpy_lem dst pos src start size hs hd = (
  take pos dst ++ (take size (drop start src) ++ drop (pos + size) dst),
  ground arith,
  omega (
    arith,
    length-append (take pos dst) (take size (drop start src) ++ drop (pos + size) dst),
    length-append (take size (drop start src)) (drop (pos + size) dst),
    length-take pos dst,
    length-take size (drop start src),
    length-drop start src,
    length-drop (pos + size) dst,
  ),
  λ i. get_elem?-copy dst pos src start size i hs hd,
)

-- Which buffer a position of the read is taken from.
chosen :
    (offset size uoff usize p pos start count : ℕ)
    → pos ≡ max offset uoff - offset
    → start ≡ max offset uoff - uoff
    → count ≡ min (offset + size) (uoff + usize) - max offset uoff
    → offset ≤ p
    → p < offset + size
    → (d contents buf : Buffer)
    → ((i : ℕ) → i < usize → get_elem? d i ≡ get_elem? contents (uoff + i))
    → (if leb pos (p - offset) && ltb (p - offset) (pos + count)
        then get_elem? d (start + (p - offset - pos))
        else get_elem? buf (p - offset))
      ≡ (if leb uoff p && ltb p (uoff + usize)
          then get_elem? contents p
          else get_elem? buf (p - offset))
chosen offset size uoff usize p pos start count hp hs hc lo hi d contents buf bytes =
    ground (arith, bytes (p - uoff))

module _ (contents : Buffer) (size offset : ℕ) where
  -- The buffer keeps its length, and the end that is reported stays inside the read and the file.
  pub record IsGood (s : Sink) : Type 0 where
    pub room : length s.buf ≡ size
    pub from : offset ≤ s.max_end
    pub within : s.max_end ≤ min (offset + size) (length contents)

  -- All that the read wants of the block is in place.
  pub record Served (b : Block) (s : Sink) : Type 0 where
    pub bytes :
        (p : ℕ)
        → offset ≤ p
        → p < offset + size
        → b.uoff ≤ p
        → p < b.uoff + b.usize
        → get_elem? s.buf (p - offset) ≡ get_elem? contents p
    pub reported : min (offset + size) (b.uoff + b.usize) ≤ s.max_end

  -- The block and the read have bytes in common, or at least touch.
  pub record Touches (b : Block) : Type 0 where
    pub begins : b.uoff < offset + size
    pub ends : offset < b.uoff + b.usize

  module _ (small : offset + size < mod64) (short : length contents < mod64) (b : Block)
      (d : Buffer) (part : Part contents b d) (touches : Touches b) (s : Sink)
      (good : IsGood s) where
    -- Afterwards the bytes of the block are the file's, and the others are as they were.
    callback_bytes :
        (r : Buffer) × (callback size offset b d s
          ≡ ok (record {
            buf = r;
            max_end = max s.max_end (min (offset + size) (b.uoff + b.usize));
          }))
        × (length r ≡ size)
        × ((p : ℕ)
            → offset ≤ p
            → p < offset + size
            → get_elem? r (p - offset) ≡ (
                if leb b.uoff p && ltb p (b.uoff + b.usize)
                then get_elem? contents p
                else get_elem? s.buf (p - offset)))
    unfolding callback
    callback_bytes =
        let pos = sub64 omin offset in
        let start = sub64 omin b.uoff in
        let count = sub64 omax omin in
        let (r, copied, same, get) =
          memcpy_lem s.buf pos d start count
            (omega (arith, part.size, part.inside, touches.begins, touches.ends))
            (omega (arith, part.inside, touches.begins, touches.ends, good.room)) in
        let reported : (if ltb s.max_end omax then omax else s.max_end) ≡ max s.max_end stop =
          ground (arith, omax_lem) in
        (
          r,
          rw copied (ap (λ e. ok (record { buf = r; max_end = e })) reported),
          omega (arith, good.room),
          λ p lo hi.
              get (p - offset)
              ∙ chosen offset size b.uoff b.usize p pos start count
                  (omega (arith, touches.begins, touches.ends))
                  (omega (arith, touches.begins, touches.ends, part.inside))
                  (omega (arith, omax_lem, touches.begins, touches.ends, part.inside)) lo hi d
                  contents s.buf part.bytes,
        )
      where
        omin : ℕ
        omin = max offset b.uoff

        omax : ℕ
        omax = min (add64 offset size) (add64 b.uoff b.usize)

        stop : ℕ
        stop = min (offset + size) (b.uoff + b.usize)

        omax_lem : omax ≡ stop
        omax_lem = omega (arith, part.inside, small, short)

    -- For a block that overlaps or touches the read, with its data a part of the file, all ends
    -- below 2^64, a buffer of the size asked for and a reported end inside the read and the file,
    -- the callback copies inside both buffers and keeps these conditions, puts all bytes that the
    -- read wants of the block in place and reports its end, and takes nothing from the blocks that
    -- are served already.
    pub callback_lem :
        (s' : Sink) × (callback size offset b d s ≡ ok s')
        × IsGood s'
        × Served b s'
        × ((c : Block) → Served c s → Served c s')
    callback_lem =
        let (r, done, same, get) = callback_bytes in
        let sink : Sink = record {
          buf = r;
          max_end = max s.max_end (min (offset + size) (b.uoff + b.usize));
        } in
        (
          sink,
          done,
          record {
            room = same;
            from = omega (arith, good.from);
            within = omega (arith, good.within, part.inside);
          },
          record { bytes = λ p lo hi l h. ground (arith, get p lo hi); reported = omega arith },
          λ c served. record {
            bytes = λ p lo hi l h. ground (arith, get p lo hi, served.bytes p lo hi l h);
            reported = omega (arith, served.reported);
          },
        )
