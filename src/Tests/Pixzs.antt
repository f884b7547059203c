-- ===== src/Tests/Pixzs.antt =====
-- PixzFile.cc at a concrete input.
use lzopfs.Base.{◌+◌, ◌*◌, ◌≡◌, refl, [], ◌∷◌, arith}
use lzopfs.Blocks.{ok}
use lzopfs.Handle.{Handle}
use lzopfs.Pixz.{skip_padding}
use lzopfs.Pixz.Padding.{skip_padding_lem}
use lzopfs.Tests.Indexes.{system, system-IsRegular}

-- Twelve bytes and two words of padding.
abbrev padded : Handle
padded = record {
  contents = 1 ∷ 2 ∷ 3 ∷ 4 ∷ 5 ∷ 6 ∷ 7 ∷ 8 ∷ 9 ∷ 0 ∷ 0 ∷ 10 ∷ 0 ∷ 0 ∷ 0 ∷ 0 ∷ 0 ∷ 0 ∷ 0 ∷ 0 ∷ [];
  position = 20;
}

skip_padding_lem_example :
    skip_padding system 3 0 padded ≡ ok (0 + 4 * 2, record padded { position = 12 })
skip_padding_lem_example =
    skip_padding_lem system system-IsRegular 3 2 0 12 padded (omega arith) (omega arith) refl
      (omega arith) (refl, (refl, tt)) refl
