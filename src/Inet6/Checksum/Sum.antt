-- ===== src/Inet6/Checksum/Sum.antt =====
-- checksum against the sum of the 16-bit words of the data in ones' complement.
use gigaboot20x.Base.{
  ℕ, zero, suc, ◌+◌, ◌*◌, ◌/◌, ◌%◌, ◌^◌, ◌≤◌, ◌<◌, ◌≡◌, arith, List, [], ◌∷◌, ◌++◌, length, take,
  IsBytes, ◌-◌, ◌==◌, if◌then◌else◌,
}
use gigaboot20x.Inet6.Checksum.{add_words, fold_carries, checksum}

-- The words of the data, least significant byte first, added without bound.
abbrev pub word_total : List ℕ → ℕ
word_total [] = 0
word_total (a ∷ []) = a
word_total (a ∷ b ∷ bytes) = a + 256 * b + word_total bytes

add_words-word_total :
    (len : ℕ) (bytes : List ℕ) (sum : ℕ)
    → len ≤ length bytes
    → IsBytes bytes
    → sum + 65536 * len < 2 ^ 32
    → (add_words len bytes sum ≡ sum + word_total (take len bytes))
      × (add_words len bytes sum < 2 ^ 32)
unfolding add_words
add_words-word_total zero bytes sum h b s = omega arith
add_words-word_total (suc zero) [] sum h b s = absurd (omega arith)
add_words-word_total (suc zero) (x ∷ bytes) sum h b s = omega arith
add_words-word_total (suc (suc len)) [] sum h b s = absurd (omega arith)
add_words-word_total (suc (suc len)) (x ∷ []) sum h b s = absurd (omega arith)
add_words-word_total (suc (suc len)) (x ∷ y ∷ bytes) sum h b s =
    ground (arith, add_words-word_total len bytes ((sum + (x + 256 * y)) % 2 ^ 32))

-- Addition of 16-bit words with the carry brought round: 0 is 0, all else lies in 1 to 65535.
abbrev pub end_around : ℕ → ℕ
end_around t = if t == 0 then 0 else (t - 1) % 65535 + 1

pub end_around-end_around : (a b : ℕ) → end_around (end_around a + b) ≡ end_around (a + b)
end_around-end_around a b = ground arith

carry_step : (s : ℕ) → end_around (s % 2 ^ 16 + s / 2 ^ 16) ≡ end_around s
carry_step s = ground arith

-- Three tests are enough: the loop has ended by its own condition.
fold_carries-end_around : (s : ℕ) → s < 2 ^ 32 → fold_carries 3 s ≡ end_around s
unfolding fold_carries
fold_carries-end_around s h = ground arith

-- More fuel than three tests changes nothing.
fold_carries_fuel :
    (fuel s : ℕ) → s < 2 ^ 32 → fold_carries (suc (suc (suc fuel))) s ≡ fold_carries 3 s
unfolding fold_carries
fold_carries_fuel fuel s h = ground arith

-- checksum is the end-around-carry sum of its start value and the 16-bit words of the data, whose
-- odd last byte counts as a low byte, for at most 65535 bytes that lie inside the memory.
pub checksum_lem :
    (bytes : List ℕ) (len sum : ℕ)
    → len ≤ length bytes
    → IsBytes bytes
    → sum < 2 ^ 16
    → len < 2 ^ 16
    → checksum bytes len sum ≡ end_around (sum + word_total (take len bytes))
unfolding checksum
checksum_lem bytes len sum h b s l = ground (
  arith,
  add_words-word_total len bytes (sum % 2 ^ 16) h b (omega arith),
  fold_carries-end_around (add_words len bytes (sum % 2 ^ 16)),
)

pub word_total-append :
    (xs ys : List ℕ) → length xs % 2 ≡ 0 → word_total (xs ++ ys) ≡ word_total xs + word_total ys
word_total-append [] ys h = omega arith
word_total-append (x ∷ []) ys h = absurd (omega arith)
word_total-append (x ∷ y ∷ xs) ys h = omega (arith, word_total-append xs ys (omega arith))
