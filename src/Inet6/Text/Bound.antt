-- ===== src/Inet6/Text/Bound.antt =====
-- The length of the text, and the memory behind the address.
use gigaboot20x.Base.{
  ltb, ◌==◌, if◌then◌else◌, Bool-cases, length, drop, length-append, ℕ, zero, suc, ◌+◌, ◌*◌, ◌≤◌,
  ◌<◌, ◌≡◌, refl, sym, ap, ap₂, ◌∙◌, inl, inr, Bool, true, false, List, [], ◌∷◌, ◌++◌, arith,
}
use gigaboot20x.Inet6.Text.{word_at, skip_zeros, colons, middle_zeros, heads, ip6toa, text_from}

-- At most that many words are left, and fewer where the first word is 0.
skip_zeros-le : (r : ℕ) (ws : List ℕ) → (skip_zeros r ws).0 ≤ r
unfolding skip_zeros
skip_zeros-le zero ws = omega arith
skip_zeros-le (suc r) ws = ground (arith, skip_zeros-le r (drop 1 ws))

skip_zeros-lt : (r : ℕ) (ws : List ℕ) → (word_at ws == 0) ≡ true → (skip_zeros (suc r) ws).0 ≤ r
unfolding skip_zeros
skip_zeros-lt r ws e = rw e (skip_zeros-le r (drop 1 ws))

length-if :
    (test : Bool) (xs ys : List ℕ) (n : ℕ)
    → (test ≡ true → length xs ≤ n)
    → length ys ≤ n
    → length (if test then xs else ys) ≤ n
length-if true xs ys n hx hy = hx refl
length-if false xs ys n hx hy = hy

module _ (hex : ℕ → List ℕ) (short : (n : ℕ) → length (hex n) ≤ 4) where
  length-colons : (r : ℕ) (ws : List ℕ) → length (colons hex r ws) ≤ 5 * r
  unfolding colons
  length-colons zero ws = omega arith
  length-colons (suc r) ws = omega (
    arith,
    length-append (hex (word_at ws)) (colons hex r (drop 1 ws)),
    short (word_at ws),
    length-colons r (drop 1 ws),
  )

  length-middle_zeros :
      (r : ℕ) (ws : List ℕ)
      → (word_at ws == 0) ≡ true
      → length (middle_zeros hex (suc r) ws) ≤ 5 * r + 1
  unfolding middle_zeros
  length-middle_zeros r ws e = ground (
    arith,
    skip_zeros-lt r ws e,
    length-colons (skip_zeros (suc r) ws).0 (skip_zeros (suc r) ws).1,
  )

  length-heads : (r : ℕ) (ws : List ℕ) → length (heads hex (suc r) ws) ≤ 5 * r + 4
  unfolding heads
  length-heads zero ws = omega (arith, short (word_at ws))
  length-heads (suc r) ws =
      let ws' = drop 1 ws in
      let gap = word_at ws' == 0 in
      let zeros = middle_zeros hex (suc r) ws' in
      let rest = heads hex (suc r) ws' in
      let bound : length (if gap then zeros else rest) ≤ 5 * r + 4 =
        length-if gap zeros rest (5 * r + 4) (λ e. omega (arith, length-middle_zeros r ws' e))
          (length-heads r ws') in
      omega (
        arith,
        length-append (hex (word_at ws)) (b':' ∷ (if gap then zeros else rest)),
        short (word_at ws),
        bound,
      )

  length-text_from : (left : ℕ) (ws : List ℕ) → length (text_from hex left ws) < 40
  unfolding text_from
  length-text_from left ws = ground (arith, length-colons left ws, length-heads 7 ws)

  -- If a word takes at most four digits, the text of an address with its final 0 fits IP6TOAMAX = 40
  -- bytes.
  pub length-ip6toa : (ws : List ℕ) → length (ip6toa hex ws) < 40
  unfolding ip6toa
  length-ip6toa ws = length-text_from (skip_zeros 8 ws).0 (skip_zeros 8 ws).1

-- The memory behind the address, in a list of what is left of it.
skip_zeros-append :
    (r : ℕ) (ws after : List ℕ)
    → length ws ≡ r
    → (us : List ℕ) × (length us ≡ (skip_zeros r ws).0)
      × (skip_zeros r (ws ++ after) ≡ ((skip_zeros r ws).0, us ++ after))
      × (skip_zeros r ws ≡ ((skip_zeros r ws).0, us))
unfolding skip_zeros
skip_zeros-append zero [] after e = ([], refl, refl, refl)
skip_zeros-append zero (w ∷ ws) after e = absurd (omega arith)
skip_zeros-append (suc r) [] after e = absurd (omega arith)
skip_zeros-append (suc r) (w ∷ ws) after e = elim (Bool-cases (w == 0)) [
  | inl gap ↦ rw gap (skip_zeros-append r ws after (omega arith))
  | inr word ↦ rw word (w ∷ ws, omega arith, refl, refl)
]

module _ (hex : ℕ → List ℕ) where
  colons-append :
      (r : ℕ) (ws after : List ℕ) → length ws ≡ r → colons hex r (ws ++ after) ≡ colons hex r ws
  unfolding colons
  colons-append zero ws after e = refl
  colons-append (suc r) [] after e = absurd (omega arith)
  colons-append (suc r) (w ∷ ws) after e =
      ap (λ t. b':' ∷ hex w ++ t) (colons-append r ws after (omega arith))

  middle_zeros-append :
      (r : ℕ) (ws after : List ℕ)
      → length ws ≡ r
      → middle_zeros hex r (ws ++ after) ≡ middle_zeros hex r ws
  unfolding middle_zeros
  middle_zeros-append r ws after e =
      let (us, size, long, plain) = skip_zeros-append r ws after e in
      rw long (
        ap (λ (t : List ℕ). if (skip_zeros r ws).0 == 0 then b':' ∷ [] else t)
          (colons-append (skip_zeros r ws).0 us after size
            ∙ ap (λ (x : ℕ × List ℕ). colons hex (skip_zeros r ws).0 x.1) (sym plain)))

  heads-append :
      (r : ℕ) (ws after : List ℕ)
      → length ws ≡ suc r
      → heads hex (suc r) (ws ++ after) ≡ heads hex (suc r) ws
  unfolding heads
  heads-append r [] after e = absurd (omega arith)
  heads-append zero (w ∷ ws) after e = refl
  heads-append (suc r) (w ∷ []) after e = absurd (omega arith)
  heads-append (suc r) (w ∷ v ∷ ws) after e =
      ap₂ (λ (s t : List ℕ). hex w ++ b':' ∷ (if v == 0 then s else t))
        (middle_zeros-append (suc r) (v ∷ ws) after (omega arith))
        (heads-append r (v ∷ ws) after (omega arith))

  text_from-append :
      (left : ℕ) (ws after : List ℕ)
      → length ws ≡ left
      → left ≤ 8
      → text_from hex left (ws ++ after) ≡ text_from hex left ws
  unfolding text_from
  text_from-append left ws after e le = elim (Bool-cases (ltb left 8)) [
    | inl gap ↦ rw gap (
        ap (λ (t : List ℕ). if left == 0 then b':' ∷ b':' ∷ [] else b':' ∷ t)
          (colons-append left ws after e))
    | inr full ↦
        let eight : left ≡ 8 = ground (arith, full) in
        rw full (
          ap (λ (t : List ℕ). if left == 0 then b':' ∷ b':' ∷ [] else t)
            (heads-append 7 ws after (omega arith)))
  ]

  text_after_zeros :
      (n : ℕ) (ws after : List ℕ)
      → length ws ≡ n
      → n ≤ 8
      → text_from hex (skip_zeros n (ws ++ after)).0 (skip_zeros n (ws ++ after)).1
        ≡ text_from hex (skip_zeros n ws).0 (skip_zeros n ws).1
  text_after_zeros n ws after e le =
      let (us, size, long, plain) = skip_zeros-append n ws after e in
      let left = (skip_zeros n ws).0 in
      rw long (
        text_from-append left us after size (omega (arith, skip_zeros-le n ws))
        ∙ ap (λ (x : ℕ × List ℕ). text_from hex left x.1) (sym plain))

  -- The text of an address of 8 words is the same whatever lies in memory behind it, although
  -- ip6toa reads a word there.
  pub ip6toa-append : (ws after : List ℕ) → length ws ≡ 8 → ip6toa hex (ws ++ after) ≡ ip6toa hex ws
  unfolding ip6toa
  ip6toa-append ws after e = text_after_zeros 8 ws after e (omega arith)
