-- ===== src/Cache/Covering.antt =====
-- OpenCompressedFile.cc: when every block that a read wants is served, the buffer holds the answer.
use lzopfs.Base.{
  ℕ, ◌+◌, ◌-◌, ◌<◌, ◌≤◌, ◌≡◌, refl, sym, ap, dec_lt, ◌∙◌, List, [], ◌∷◌, arith, inl, inr, ltb,
  length, Bool-cases, min, get_elem?,
}
use lzopfs.Blocks.{Block, Buffer}
use lzopfs.Blocks.Contents.{In}
use lzopfs.Blocks.Tiles.{Tiles, end_from}
use lzopfs.Read.{Sink}
use lzopfs.Read.Callback.{Served, IsGood}
use lzopfs.Cache.{Request}
use lzopfs.Cache.Invariants.{Answer}

-- Some block of a gapless list holds the position.
holder :
    (u p : ℕ) (it : List Block)
    → Tiles u it
    → u ≤ p
    → p < end_from u it
    → (c : Block) × In c it × (c.uoff ≤ p) × (p < c.uoff + c.usize)
unfolding end_from
holder u p [] t lo hi = absurd (omega arith)
holder u p (b ∷ it) t lo hi = elim (Bool-cases (ltb p (u + b.usize))) [
  | inl here ↦ (b, inl refl, omega (arith, t.0), ground arith)
  | inr later ↦
      let (c, on, l, h) = holder (u + b.usize) p it t.2 (ground arith) hi in (c, inr on, l, h)
]

module _ (contents : Buffer) (q : Request) where
  abbrev pub AllServed : List Block → Sink → Type 0
  AllServed it s =
      (c : Block) → In c it → c.uoff < q.offset + q.size → Served contents q.size q.offset c s

  module _ (b : Block) (it : List Block) (s : Sink) (t : Tiles b.uoff (b ∷ it))
      (lo : b.uoff ≤ q.offset) (inside : q.offset < length contents)
      (ends : end_from b.uoff (b ∷ it) ≡ length contents) (good : IsGood contents q.size q.offset s)
      (served : AllServed (b ∷ it) s) where
    reached : min (q.offset + q.size) (length contents) ≤ s.max_end
    reached = elim (dec_lt 0 q.size) [
      | no none_wanted ↦ omega (arith, good.from)
      | yes wanted ↦
          let p = min (q.offset + q.size) (length contents) - 1 in
          let (c, on, l, h) = holder b.uoff p (b ∷ it) t (omega arith) (omega arith) in
          omega (arith, (served c on (omega arith)).reported)
    ]

    byte_right :
        (i : ℕ) → i < s.max_end - q.offset → get_elem? s.buf i ≡ get_elem? contents (q.offset + i)
    byte_right i h =
        let p = q.offset + i in
        let (c, on, l, r) = holder b.uoff p (b ∷ it) t (omega arith) (omega (arith, good.within)) in
        let right =
          (served c on (omega (arith, good.within))).bytes p (omega arith)
            (omega (arith, good.within)) l r in
        let same : p - q.offset ≡ i = omega arith in ap (get_elem? s.buf) (sym same) ∙ right

    pub answer : Answer contents q (s.buf, s.max_end - q.offset)
    answer = record {
      room = good.room;
      count = omega (arith, reached, good.within, good.from);
      bytes = byte_right;
    }
