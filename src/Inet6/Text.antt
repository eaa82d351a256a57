-- ===== src/Inet6/Text.antt =====
-- src/inet6.c: ip6toa, the text of an address. An address is its 8 words, most significant byte
-- first, and behind them comes whatever memory follows. sprintf with "%x" is a parameter.
pub mod Bound
pub mod Examples
use gigaboot20x.Base.{
  get_or-append, get_or-append_left, get_or-take, get_or-drop, get_or-set_other, get_or-set,
  length-reverse, set-append, ltb, leb, ◌==◌, if◌then◌else◌, ltb→lt, lt→ltb, le→ltb, ltb→le,
  ==-refl, ==→eq, ne→==, tests, Bool-cases, Option-cases, ◌>>=◌, ◌>>◌, length, get_or, set, take,
  drop, replicate, length-append, length-take, length-drop, length-replicate, length-set,
  take-append, drop-append, take-length, take-append-drop, All, All-append, u8, u16, u32, u64,
  byte_at, slice, le16, le32, u16_at, u32_at, IsBytes, ℕ, zero, suc, ◌+◌, ◌-◌, ◌*◌, ◌/◌, ◌%◌, ◌^◌,
  ◌≤◌, ◌<◌, ◌≡◌, refl, sym, ap, ap₂, ◌∙◌, ◌≢◌, ◌↔◌, ◌⊎◌, inl, inr, Bool, true, false, not, ◌&&◌,
  ◌||◌, Option, none, some, List, [], ◌∷◌, ◌++◌, map, append-nil, append_assoc, arith,
}

abbrev pub word_at : List ℕ → ℕ
word_at ws = get_or ws 0 0

-- `while ((n == 0) && (x < end))`, with the number of words that are left before `end`.
pub skip_zeros : ℕ → List ℕ → ℕ × List ℕ
skip_zeros zero ws = (zero, ws)
skip_zeros (suc r) ws =
    let next = skip_zeros r (drop 1 ws) in if word_at ws == 0 then next else (suc r, ws)

module _ (hex : ℕ → List ℕ) where
  -- while (x < end) out += sprintf(out, ":%x", n);
  pub colons : ℕ → List ℕ → List ℕ
  colons zero ws = []
  colons (suc r) ws = b':' ∷ hex (word_at ws) ++ colons r (drop 1 ws)

  -- middle_zeros:
  pub middle_zeros : ℕ → List ℕ → List ℕ
  unfolding skip_zeros colons
  middle_zeros r ws =
      let (left, ws') = skip_zeros r ws in if left == 0 then b':' ∷ [] else colons left ws'

  -- while (x < (end - 2)), and the last word behind it.
  pub heads : ℕ → List ℕ → List ℕ
  unfolding middle_zeros
  heads zero ws = hex (word_at ws)
  heads (suc zero) ws = hex (word_at ws)
  heads (suc (suc r)) ws =
      let ws' = drop 1 ws in
      let rest = heads (suc r) ws' in
      hex (word_at ws) ++ b':' ∷ (if word_at ws' == 0 then middle_zeros (suc r) ws' else rest)

  -- From the first word that is not 0, with the number of words that are left.
  pub text_from : ℕ → List ℕ → List ℕ
  unfolding heads
  text_from left ws =
      if left == 0
      then b':' ∷ b':' ∷ []
      else if ltb left 8
      then b':' ∷ colons left ws
      else heads 8 ws

  pub ip6toa : List ℕ → List ℕ
  unfolding text_from
  ip6toa ws = let (left, ws') = skip_zeros 8 ws in text_from left ws'
