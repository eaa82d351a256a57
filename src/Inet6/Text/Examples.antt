-- ===== src/Inet6/Text/Examples.antt =====
-- Runs of the theorems about ip6toa.
use gigaboot20x.Base.{
  ltb, if◌then◌else◌, length, ℕ, ◌+◌, ◌-◌, ◌/◌, ◌%◌, ◌≤◌, ◌<◌, ◌≡◌, refl, List, [], ◌∷◌, ◌++◌,
  arith,
}
use gigaboot20x.Inet6.Text.{ip6toa}
use gigaboot20x.Inet6.Text.Bound.{length-ip6toa, ip6toa-append}

abbrev digit : ℕ → ℕ
digit d = if ltb d 10 then b'0' + d else b'a' + d - 10

-- The lowest four digits, without leading zeros.
abbrev hex : ℕ → List ℕ
hex n =
    if ltb n 16
    then digit n ∷ []
    else if ltb n 256
    then digit (n / 16) ∷ digit (n % 16) ∷ []
    else if ltb n 4096
    then digit (n / 256) ∷ digit (n / 16 % 16) ∷ digit (n % 16) ∷ []
    else digit (n / 4096 % 16) ∷ digit (n / 256 % 16) ∷ digit (n / 16 % 16) ∷ digit (n % 16) ∷ []

hex_short : (n : ℕ) → length (hex n) ≤ 4
hex_short n = ground arith

-- fe80::1
abbrev words : List ℕ
words = 0xFE80 ∷ 0 ∷ 0 ∷ 0 ∷ 0 ∷ 0 ∷ 0 ∷ 1 ∷ []

length-ip6toa_example : length (ip6toa hex words) < 40
length-ip6toa_example = length-ip6toa hex hex_short words

ip6toa-append_example : ip6toa hex (words ++ 77 ∷ []) ≡ ip6toa hex words
ip6toa-append_example = ip6toa-append hex words (77 ∷ []) refl

-- The text itself.
fe80_1 : ip6toa hex words ≡ b'f' ∷ b'e' ∷ b'8' ∷ b'0' ∷ b':' ∷ b':' ∷ b'1' ∷ []
unfolding ip6toa
fe80_1 = refl
