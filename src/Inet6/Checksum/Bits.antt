-- ===== src/Inet6/Checksum/Bits.antt =====
-- `|` of a low field and a shifted one is their sum, which makes the byte swap arithmetic.
use Prim.Native.Nat.{max, bit_or, digits, bit_or-bitwise}
use native.Mathlib.Nat.{pow-suc}
use gigaboot20x.Base.{ℕ, zero, suc, ◌+◌, ◌*◌, ◌/◌, ◌%◌, ◌^◌, ◌≤◌, ◌<◌, ◌≡◌, refl, ap, arith}
use gigaboot20x.Inet6.Checksum.{swap16}

abbrev or_with : (fuel low high : ℕ) → ℕ
or_with fuel low high = digits (λ rest. rest) max fuel low high

-- Fuel above the left number makes no difference.
or_with-agree : (low high k j : ℕ) → low ≤ k → low ≤ j → or_with k low high ≡ or_with j low high
or_with-agree zero high zero zero _ _ = refl
or_with-agree zero high zero (suc j) _ _ = refl
or_with-agree zero high (suc k) zero _ _ = refl
or_with-agree zero high (suc k) (suc j) _ _ = refl
or_with-agree (suc low) high zero j short _ = absurd (omega arith)
or_with-agree (suc low) high (suc k) zero _ short = absurd (omega arith)
or_with-agree (suc low) high (suc k) (suc j) hk hj =
    let below : suc low / 2 ≤ low = omega arith in
    omega (arith, or_with-agree (suc low / 2) (high / 2) k j (omega arith) (omega arith))

bit_or-left_zero : (high : ℕ) → bit_or 0 high ≡ high
bit_or-left_zero high = bit_or-bitwise 0 high

-- One binary digit of each.
bit_or-halves :
    (low high : ℕ) → bit_or low high ≡ max (low % 2) (high % 2) + 2 * bit_or (low / 2) (high / 2)
bit_or-halves zero high = omega (arith, bit_or-left_zero (high / 2), bit_or-left_zero high)
bit_or-halves (suc low) high =
    let half = suc low / 2 in
    omega (
      arith,
      or_with-agree half (high / 2) low half (omega arith) (omega arith),
      bit_or-bitwise half (high / 2),
      bit_or-bitwise (suc low) high,
    )

-- A field of k bits under one that is shifted past it.
bit_or_low : (k x m : ℕ) → x < 2 ^ k → bit_or x (m * 2 ^ k) ≡ x + m * 2 ^ k
bit_or_low zero x m h = ground (arith, bit_or-left_zero m)
bit_or_low (suc k) x m h = ground (
  arith,
  bit_or-halves x (m * 2 ^ suc k),
  ap (λ (t : ℕ). m * t) (pow-suc 2 k),
  pow-suc 2 k,
  bit_or_low k (x / 2) m (omega (arith, pow-suc 2 k)),
)

pub swap16-eq : (n : ℕ) → n < 2 ^ 16 → swap16 n ≡ n / 256 + 256 * (n % 256)
unfolding swap16
swap16-eq n h = omega (arith, bit_or_low 8 (n / 256) n (omega arith))

pub swap16-lt : (n : ℕ) → swap16 n < 2 ^ 16
unfolding swap16
swap16-lt n = omega arith

-- ntohs undoes htons on every 16-bit value.
pub swap16-swap16 : (n : ℕ) → n < 2 ^ 16 → swap16 (swap16 n) ≡ n
swap16-swap16 n h = omega (arith, swap16-eq n h, swap16-eq (swap16 n) (swap16-lt n))
