-- ===== src/Console/Examples.antt =====
-- Runs of the theorems about lib/console-printf.c.
use gigaboot20x.Base.{All, ℕ, ◌≡◌, List, [], ◌∷◌}
use gigaboot20x.Console.{printf}
use gigaboot20x.Console.Lines.{joined, IsShort, printf_lem}

abbrev two_lines : List (List ℕ)
two_lines = (72 ∷ 105 ∷ 10 ∷ []) ∷ (200 ∷ 10 ∷ []) ∷ []

printf_lem_example :
    (joined (printf two_lines []).shown ≡ 72 ∷ 105 ∷ 13 ∷ 10 ∷ 0xFFC8 ∷ 13 ∷ 10 ∷ [])
    × All IsShort (printf two_lines []).shown
printf_lem_example = printf_lem two_lines [] tt
