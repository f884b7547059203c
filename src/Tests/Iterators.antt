-- ===== src/Tests/Iterators.antt =====
-- CompressedFile.h: two iterators at concrete uses.
use lzopfs.Base.{ℕ, ◌≡◌, refl, List, [], ◌∷◌, none, arith}
use lzopfs.Blocks.{ok}
use lzopfs.Blocks.Iterators.{
  Store, put_at, Use, make, copy, assigns, increments, destroys, use_vars, no_store,
}
use lzopfs.Blocks.Owners.{Value, outside, from, use_value, use_values, Models}
use lzopfs.Blocks.Cases.{no_store-Models}
use lzopfs.Blocks.Runs.{use_vars-Models, use_vars-frees}
use lzopfs.Tests.Reads.{first, second}

-- A copy stays where it is while the first one goes on, and is then given its place.
abbrev uses : List Use
uses = make 0 (first ∷ second ∷ []) ∷ copy 1 0 ∷ increments 0 ∷ assigns 1 0 ∷ []

abbrev values : ℕ → Value
values = put_at 1 (from (second ∷ [])) (
    put_at 0 (from (second ∷ [])) (
      put_at 1 (from (first ∷ second ∷ [])) (put_at 0 (from (first ∷ second ∷ [])) (λ k. outside))))

use_vars-Models_example : (s : Store) × (use_vars uses no_store ≡ ok s) × Models s values
unfolding use_values use_value put_at
use_vars-Models_example = use_vars-Models uses no_store (λ k. outside) values no_store-Models refl

abbrev all_gone : List Use
all_gone =
    make 0 (first ∷ second ∷ [])
    ∷ copy 1 0
    ∷ increments 0
    ∷ assigns 1 0
    ∷ destroys 0
    ∷ destroys 1
    ∷ []

gone-outside : (k : ℕ) → put_at 1 outside (put_at 0 outside values) k ≡ outside
unfolding put_at
gone-outside k = ground arith

use_vars-frees_example :
    (s : Store) × (use_vars all_gone no_store ≡ ok s) × ((a : ℕ) → s.heap a ≡ none)
unfolding use_values use_value put_at
use_vars-frees_example =
    use_vars-frees all_gone (put_at 1 outside (put_at 0 outside values)) refl gone-outside
