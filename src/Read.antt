-- ===== src/Read.antt =====
-- OpenCompressedFile.cc: what a read does with the data of one block. Positions and sizes are below
-- 2^63 where the program runs, so `off_t` and the 64-bit words agree.
use lzopfs.Base.{
  ℕ, ◌+◌, List, [], ◌∷◌, ◌++◌, take, drop, length, min, max, leb, ltb, ◌&&◌, if◌then◌else◌, add64,
  sub64, ◌≡◌, ◌≤◌,
}
use lzopfs.Blocks.{Block, Buffer, Result, ok, err, fault, ◌>>=◌}
pub mod Callback

-- What the callback of one read writes to: the caller's buffer, and the end of what is there.
pub record Sink : Type 0 where
  pub buf : Buffer
  pub max_end : ℕ

-- `memcpy(dst + pos, &src[start], size)`; outside of either buffer it is a fault.
unfoldable pub memcpy : Buffer → ℕ → Buffer → ℕ → ℕ → Result Buffer
memcpy dst pos src start size =
    if leb (start + size) (length src) && leb (pos + size) (length dst)
    then ok (take pos dst ++ (take size (drop start src) ++ drop (pos + size) dst))
    else err fault

-- `Callback::operator()`: copies the part of the block that the read asks for.
unfoldable pub callback : ℕ → ℕ → Block → Buffer → Sink → Result Sink
unfolding memcpy
callback size offset b ubuf s =
    let omin = max offset b.uoff in
    let omax = min (add64 offset size) (add64 b.uoff b.usize) in
    let bstart = sub64 omin b.uoff in
    let bsize = sub64 omax omin in
    memcpy s.buf (sub64 omin offset) ubuf bstart bsize >>= λ buf.
    ok (record { buf = buf; max_end = if ltb s.max_end omax then omax else s.max_end })
