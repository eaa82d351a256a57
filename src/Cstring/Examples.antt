-- ===== src/Cstring/Examples.antt =====
-- Runs of the theorems about lib/string.c.
use gigaboot20x.Base.{take, ℕ, ◌≡◌, ◌↔◌, List, [], ◌∷◌, arith}
use gigaboot20x.Cstring.{pos, memcmp}
use gigaboot20x.Cstring.Laws.{memcmp_iff}

abbrev one_two_three : List ℕ
one_two_three = 1 ∷ 2 ∷ 3 ∷ []

abbrev one_two_four : List ℕ
one_two_four = 1 ∷ 2 ∷ 4 ∷ []

memcmp_iff_example :
    (memcmp one_two_three one_two_four 2 ≡ pos 0) ↔ (take 2 one_two_three ≡ take 2 one_two_four)
memcmp_iff_example = memcmp_iff one_two_three one_two_four 2 (omega arith) (omega arith)
