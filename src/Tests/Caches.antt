-- ===== src/Tests/Caches.antt =====
-- LRUMap.h and CompressedFile.cc at concrete inputs.
use lzopfs.Base.{ℕ, ◌-◌, ◌≡◌, refl, List, [], ◌∷◌, ◌++◌, some, arith, ℕ_discrete}
use lzopfs.Blocks.{Block, plain, find_block, ok, uncompressed_size}
use lzopfs.Blocks.Search.{Holds, find_block-Holds}
use lzopfs.Blocks.Tiles.{end_from, uncompressed_size-Tiles}
use lzopfs.Lru.{LruMap, AddResult, empty, add}
use lzopfs.Lru.Nodes.{deref, unlink, last?, init, map_find, map_erase}
use lzopfs.Lru.Links.{lookup, total, address}
use lzopfs.Lru.Back.{trim}
use lzopfs.Lru.Room.{entries, IsLinked}
use lzopfs.Lru.Methods.{IsValid, add_absent}
use lzopfs.Lru.Refines.{Call, look_up, insert, limit, calls, models, view, calls-models}

abbrev cache : LruMap ℕ ℕ
cache = record {
  lru =
      (1, record { key = 7; value = 70; weight = 4 })
      ∷ (0, record { key = 5; value = 50; weight = 3 })
      ∷ [];
  iters = (7, 1) ∷ (5, 0) ∷ [];
  weight = 7;
  max_weight = 10;
  fresh = 2;
}

add_twice :
    add {V = ℕ} ℕ_discrete (empty 10) 5 50 3
    ≡ AddResult.ok (record {
      lru = (0, record { key = 5; value = 50; weight = 3 }) ∷ [];
      iters = (5, 0) ∷ [];
      weight = 3;
      max_weight = 10;
      fresh = 1;
    })
unfolding add empty ℕ_discrete map_find map_erase deref unlink last? init
add_twice = refl

cache-IsLinked : IsLinked ℕ_discrete cache
unfolding map_find address lookup total deref ℕ_discrete
cache-IsLinked = record {
  table = λ q. refl;
  keys = (refl, (refl, tt));
  addresses = (omega arith, refl, (omega arith, refl, tt));
  sum = refl;
  machine = omega arith;
}

cache-IsValid : IsValid ℕ_discrete cache
cache-IsValid = record { linked = cache-IsLinked; bounded = omega arith; limit = omega arith }

add_absent_example :
    (m' : LruMap ℕ ℕ) × (add ℕ_discrete cache 6 60 5 ≡ AddResult.ok m')
    × IsValid ℕ_discrete m'
    × (entries m' ≡ record { key = 6; value = 60; weight = 5 } ∷ trim (10 - 5) (entries cache))
    × (m'.max_weight ≡ 10)
unfolding lookup ℕ_discrete
add_absent_example = add_absent ℕ_discrete cache 6 60 5 cache-IsValid refl (omega arith)

abbrev block : ℕ → ℕ → ℕ → Block
block usize uoff coff = record {
  usize = usize;
  csize = usize;
  uoff = uoff;
  coff = coff;
  kind = plain;
}

abbrev three_blocks : List Block
three_blocks = block 3 0 10 ∷ block 2 3 20 ∷ block 4 5 30 ∷ []

find_block_middle : find_block three_blocks 4 ≡ ok (block 2 3 20 ∷ block 4 5 30 ∷ [])
unfolding find_block
find_block_middle = refl

find_block-Holds_example :
    (pre : List Block) × (b : Block) × (rest : List Block) × (find_block three_blocks 4
      ≡ ok (b ∷ rest))
    × (three_blocks ≡ pre ++ b ∷ rest)
    × Holds 0 4 three_blocks b rest
unfolding end_from
find_block-Holds_example = find_block-Holds 4 three_blocks (omega arith) (omega arith) (omega arith)

uncompressed_size-Tiles_example : uncompressed_size three_blocks ≡ end_from 0 three_blocks
unfolding end_from
uncompressed_size-Tiles_example =
    uncompressed_size-Tiles 0 (block 3 0 10) (block 2 3 20 ∷ block 4 5 30 ∷ []) (omega arith)
      (omega arith)

abbrev session : List (Call ℕ ℕ)
session = look_up 5 ∷ insert 6 60 4 ∷ insert 8 80 11 ∷ limit 5 ∷ look_up 7 ∷ []

calls-models_example :
    (m' : LruMap ℕ ℕ) × (calls ℕ_discrete session cache
      ≡ some ((models ℕ_discrete session (view ℕ_discrete cache)).0, m'))
    × IsValid ℕ_discrete m'
    × (view ℕ_discrete m' ≡ (models ℕ_discrete session (view ℕ_discrete cache)).1)
calls-models_example =
    calls-models ℕ_discrete session cache cache-IsValid (tt, (tt, (tt, (omega arith, (tt, tt)))))
