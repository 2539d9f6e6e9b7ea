-- ===== src/Samples/Streaming.antt =====
-- Runs of acid/common/stream.cpp, and its theorems at small inputs.
use acid_compute.Prelude.{ℕ, ◌≡◌, refl, arith, List, [], ◌∷◌, ◌++◌, map, some, none, sub64, All}
use acid_compute.Outcome.{ok}
use acid_compute.Stream.{received, failed, read_fix_size}
use acid_compute.Stream.Pieces.{
  IsPiece, read_fix_size_whole, read_fix_size_cut, read_fix_size_hides_error,
}

abbrev three : List (List ℕ)
three = (1 ∷ []) ∷ ((2 ∷ 3 ∷ []) ∷ [])

three_pieces : All IsPiece three
three_pieces = (omega arith, (omega arith, tt))

waits : read_fix_size (received (1 ∷ []) ∷ []) 2 (0 ∷ 0 ∷ []) ≡ ok none
unfolding read_fix_size sub64
waits = refl

read_fix_size_whole_example :
    read_fix_size (map received three ++ []) 3 (0 ∷ 0 ∷ 0 ∷ []) ≡ ok (some (3, 1 ∷ 2 ∷ 3 ∷ []))
read_fix_size_whole_example =
    read_fix_size_whole three [] (0 ∷ 0 ∷ 0 ∷ []) three_pieces refl (omega arith)

read_fix_size_cut_example :
    read_fix_size (map received three ++ (received [] ∷ [])) 5 (0 ∷ 0 ∷ 0 ∷ 7 ∷ 8 ∷ [])
    ≡ ok (some (0, 1 ∷ 2 ∷ 3 ∷ 7 ∷ 8 ∷ []))
read_fix_size_cut_example =
    read_fix_size_cut three [] (0 ∷ 0 ∷ 0 ∷ 7 ∷ 8 ∷ []) three_pieces (omega arith) (omega arith)

read_fix_size_hides_error_example :
    read_fix_size
      (map received three ++ (failed ∷ (received (4 ∷ 5 ∷ []) ∷ [])))
      4
      (0 ∷ 0 ∷ 0 ∷ 0 ∷ [])
    ≡ ok (some (4, 1 ∷ 2 ∷ 4 ∷ 5 ∷ []))
read_fix_size_hides_error_example =
    read_fix_size_hides_error three (1 ∷ 2 ∷ []) 3 (4 ∷ 5 ∷ []) (0 ∷ 0 ∷ 0 ∷ 0 ∷ []) [] three_pieces
      refl (omega arith) (omega arith) (omega arith)
