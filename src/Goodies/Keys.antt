-- ===== src/Goodies/Keys.antt =====
-- Waiting for a key in lib/goodies.c.
use gigaboot20x.Base.{ne→==, All, ℕ, ◌≡◌, refl, ◌≢◌, some, List, [], ◌∷◌, ◌++◌}
use gigaboot20x.Goodies.{wait_any_key}

-- WaitAnyKey returns with the first call of ReadKeyStroke that succeeds: `before` are the statuses
-- of the calls before it.
wait_any_key_lem :
    (before after : List ℕ)
    → All (λ (status : ℕ). status ≢ 0) before
    → wait_any_key (before ++ 0 ∷ after) ≡ some after
unfolding wait_any_key
wait_any_key_lem [] after v = refl
wait_any_key_lem (status ∷ before) after v =
    rw (ne→== status 0 v.0) (wait_any_key_lem before after v.1)
