-- ===== src/Scoreboard/Examples.antt =====
-- A consumer with two synchronous pins.
use parlevision.Base.Table
use parlevision.Base.{suc, ◌%◌, ◌≡◌, refl, ◌↔◌, true, [], ◌∷◌, arith, occurrences}
use parlevision.Scoreboard.{add, board_after, count_of, add_completes_row}

add_test : (add 7 (board_after 2 (7 ∷ 8 ∷ []))).0 ≡ true
unfolding add board_after Table.insert
add_test = refl

add_completes_row_example :
    (((add 7 (board_after 2 (7 ∷ 8 ∷ []))).0 ≡ true) ↔ (suc (occurrences 7 (7 ∷ 8 ∷ [])) % 2 ≡ 0))
    × (count_of 7 (board_after 2 (7 ∷ 8 ∷ [])) ≡ occurrences 7 (7 ∷ 8 ∷ []) % 2)
add_completes_row_example = add_completes_row 2 7 (7 ∷ 8 ∷ []) (omega arith)
