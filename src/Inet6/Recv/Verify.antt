-- ===== src/Inet6/Recv/Verify.antt =====
-- The checksum field that a sender writes, and the receiver's sum over it.
use gigaboot20x.Base.{
  get_or-append, set-append, ◌==◌, if◌then◌else◌, Bool-cases, length, set, length-append,
  take-append, All-append, u16, u16_at, IsBytes, ℕ, ◌+◌, ◌-◌, ◌*◌, ◌/◌, ◌%◌, ◌^◌, ◌<◌, ◌≡◌, sym, ap,
  ◌∙◌, ◌≢◌, inl, inr, List, [], ◌∷◌, ◌++◌, append_assoc, arith,
}
use gigaboot20x.Inet6.Checksum.{swap16, ip6_checksum}
use gigaboot20x.Inet6.Checksum.Bits.{swap16-lt}
use gigaboot20x.Inet6.Checksum.Sum.{
  end_around, word_total, end_around-end_around, checksum_lem, word_total-append,
}
use gigaboot20x.Inet6.Recv.{received_sum, normalise_checksum}

-- Memory from an IP header on: 8 bytes, then the addresses and the message up to its checksum
-- field, the field, the rest of the message, and what follows the packet.
module _ (h0 h1 h2 h3 h4 h5 h6 h7 : ℕ) (pre post : List ℕ) where
  abbrev body : ℕ → List ℕ
  body c = pre ++ c % 256 ∷ c / 256 % 256 ∷ post

  abbrev pub memory : ℕ → List ℕ → List ℕ
  memory c after = h0 ∷ h1 ∷ h2 ∷ h3 ∷ h4 ∷ h5 ∷ h6 ∷ h7 ∷ body c ++ after

  -- The words outside the field, and those of the pseudo header.
  abbrev fixed_total : ℕ → ℕ
  fixed_total type = swap16 type + (h4 + 256 * h5) + word_total pre + word_total post

module _ (h0 h1 h2 h3 h4 h5 h6 h7 : ℕ) (pre post : List ℕ) (even : length pre % 2 ≡ 0)
    (h4-byte : h4 < 256) (h5-byte : h5 < 256) (h6-byte : h6 < 256) (h7-byte : h7 < 256)
    (pre-bytes : IsBytes pre) (post-bytes : IsBytes post) where
  word_total-body :
      (c : ℕ)
      → word_total (body h0 h1 h2 h3 h4 h5 h6 h7 pre post c)
        ≡ word_total pre + (c % 256 + 256 * (c / 256 % 256)) + word_total post
  word_total-body c = omega (arith, word_total-append pre (c % 256 ∷ c / 256 % 256 ∷ post) even)

  length-body :
      (c : ℕ) → length (body h0 h1 h2 h3 h4 h5 h6 h7 pre post c) ≡ length pre + 2 + length post
  length-body c = omega (arith, length-append pre (c % 256 ∷ c / 256 % 256 ∷ post))

  body-IsBytes : (c : ℕ) → c < 2 ^ 16 → IsBytes (body h0 h1 h2 h3 h4 h5 h6 h7 pre post c)
  body-IsBytes c h = All-append _ pre _ pre-bytes (omega arith, (omega arith, post-bytes))

  -- The receiver's sum over any such memory.
  received_sum-memory :
      (type len c : ℕ) (after : List ℕ)
      → c < 2 ^ 16
      → IsBytes after
      → 32 + len ≡ length pre + 2 + length post
      → 32 + len < 2 ^ 16
      → received_sum (memory h0 h1 h2 h3 h4 h5 h6 h7 pre post c after) type len
        ≡ end_around (fixed_total h0 h1 h2 h3 h4 h5 h6 h7 pre post type + c)
  unfolding received_sum
  received_sum-memory type len c after hc ab fits short =
      let all = body h0 h1 h2 h3 h4 h5 h6 h7 pre post c in
      let all-bytes : IsBytes (all ++ after) = All-append _ all after (body-IsBytes c hc) ab in
      let inner =
        checksum_lem (h4 ∷ h5 ∷ h6 ∷ h7 ∷ (all ++ after)) 2 (swap16 type) (omega arith)
          (h4-byte, (h5-byte, (h6-byte, (h7-byte, all-bytes)))) (swap16-lt type) (omega arith) in
      let outer =
        checksum_lem (all ++ after) (32 + len) (end_around (swap16 type + (h4 + 256 * h5 + 0)))
          (omega (arith, length-append all after, length-body c)) all-bytes (ground arith)
          (omega arith) in
      rw
        (
          inner,
          outer,
          take-append all after (32 + len) (omega (arith, length-body c)),
          end_around-end_around,
          word_total-body c,
        )
        (ap end_around (omega arith))

-- The checksum that ends up in the field, from the sum that the receiver will make of it.
ip6_checksum-received_sum :
    (ip : List ℕ) (type len : ℕ)
    → u16 (ip6_checksum ip type len) ≡ (
        let sum = received_sum ip type len in
        if sum == 0xffff then u16 sum else u16 (2 ^ 32 - 1 - sum))
unfolding ip6_checksum received_sum
ip6_checksum-received_sum ip type len = ground arith

-- The value that the receiver sums over: 0xFFFF counts as 0.
abbrev pub normalised : ℕ → ℕ
normalised c = if c == 0xFFFF then 0 else c

module _ (h0 h1 h2 h3 h4 h5 h6 h7 : ℕ) (pre post after : List ℕ) where
  abbrev header : List ℕ
  header = h0 ∷ h1 ∷ h2 ∷ h3 ∷ h4 ∷ h5 ∷ h6 ∷ h7 ∷ pre

  memory-split :
      (c : ℕ)
      → memory h0 h1 h2 h3 h4 h5 h6 h7 pre post c after
        ≡ header ++ c % 256 ∷ c / 256 % 256 ∷ (post ++ after)
  memory-split c = rw append_assoc

  pub field-memory :
      (off c : ℕ)
      → 8 + length pre ≡ off
      → c < 2 ^ 16
      → u16_at (memory h0 h1 h2 h3 h4 h5 h6 h7 pre post c after) off ≡ c
  field-memory off c e small =
      let rest = c % 256 ∷ c / 256 % 256 ∷ (post ++ after) in
      ap (λ m. u16_at m off) (memory-split c)
      ∙ omega (
        arith,
        get_or-append header rest off 0 0 (omega arith),
        get_or-append header rest (off + 1) 1 0 (omega arith),
      )

  clear_field :
      (off c : ℕ)
      → 8 + length pre ≡ off
      → set (set (memory h0 h1 h2 h3 h4 h5 h6 h7 pre post c after) off 0) (off + 1) 0
        ≡ memory h0 h1 h2 h3 h4 h5 h6 h7 pre post 0 after
  clear_field off c e =
      let rest = c % 256 ∷ c / 256 % 256 ∷ (post ++ after) in
      ap (λ m. set (set m off 0) (off + 1) 0) (memory-split c)
      ∙ ap (λ m. set m (off + 1) 0) (set-append header rest off 0 0 (omega arith))
      ∙ set-append header (0 ∷ c / 256 % 256 ∷ (post ++ after)) (off + 1) 1 0 (omega arith)
      ∙ sym (memory-split 0)

  pub normalise-memory :
      (off c : ℕ)
      → 8 + length pre ≡ off
      → c < 2 ^ 16
      → normalise_checksum off (memory h0 h1 h2 h3 h4 h5 h6 h7 pre post c after)
        ≡ memory h0 h1 h2 h3 h4 h5 h6 h7 pre post (normalised c) after
  unfolding normalise_checksum
  normalise-memory off c e small =
      rw (field-memory off c e small) (elim (Bool-cases (c == 0xFFFF)) [
        | inl full ↦ rw full (clear_field off c e)
        | inr other ↦ rw other
      ])

-- The field that a sender writes for a sum, and the sum that the receiver then makes.
abbrev field_of : ℕ → ℕ
field_of sum = if sum == 0xffff then u16 sum else u16 (2 ^ 32 - 1 - sum)

field_of-ne-zero : (total : ℕ) → 0 < total → field_of (end_around total) ≢ 0
field_of-ne-zero total h = ground arith

field_of-verifies :
    (fixed field : ℕ)
    → 0 < fixed
    → field ≡ field_of (end_around (fixed + 0))
    → end_around (fixed + normalised field) ≡ 0xFFFF
field_of-verifies fixed field h e = rw e (ground arith)

module _ (h0 h1 h2 h3 h4 h5 h6 h7 : ℕ) (pre post after : List ℕ) (even : length pre % 2 ≡ 0)
    (h4-byte : h4 < 256) (h5-byte : h5 < 256) (h6-byte : h6 < 256) (h7-byte : h7 < 256)
    (pre-bytes : IsBytes pre) (post-bytes : IsBytes post) (after-bytes : IsBytes after)
    (type len : ℕ) (fits : 32 + len ≡ length pre + 2 + length post) (short : 32 + len < 2 ^ 16)
    (typed : 0 < swap16 type) where
  abbrev total : ℕ
  total = fixed_total h0 h1 h2 h3 h4 h5 h6 h7 pre post type + 0

  -- The field that ip6_checksum computes while the field is 0.
  abbrev field : ℕ
  field = u16 (ip6_checksum (memory h0 h1 h2 h3 h4 h5 h6 h7 pre post 0 []) type len)

  field-eq : field ≡ field_of (end_around total)
  field-eq =
      ip6_checksum-received_sum (memory h0 h1 h2 h3 h4 h5 h6 h7 pre post 0 []) type len
      ∙ ap field_of (
          received_sum-memory h0 h1 h2 h3 h4 h5 h6 h7 pre post even h4-byte h5-byte h6-byte h7-byte
            pre-bytes post-bytes type len 0 [] (omega arith) tt fits short)

  pub field-ne-zero : field ≢ 0
  field-ne-zero = rw field-eq (field_of-ne-zero total (omega arith))

  field-lt : field < 2 ^ 16
  field-lt = omega arith

  -- Take a packet in memory from its IP header on, whose checksum field lies an even number of
  -- bytes behind the start of the addresses, with 32 + len bytes from there on, fewer than 2^16,
  -- and a type that is not 0 in 16 bits. When the field holds what ip6_checksum computes while it
  -- is 0, the receiver's sum, made after a field of 0xFFFF has been cleared, is 0xFFFF, whatever
  -- bytes follow the packet.
  pub received_sum-field :
      (off : ℕ)
      → 8 + length pre ≡ off
      → received_sum
          (normalise_checksum off (memory h0 h1 h2 h3 h4 h5 h6 h7 pre post field after))
          type
          len
        ≡ 0xFFFF
  received_sum-field off e =
      ap (λ m. received_sum m type len)
        (normalise-memory h0 h1 h2 h3 h4 h5 h6 h7 pre post after off field e field-lt)
      ∙ received_sum-memory h0 h1 h2 h3 h4 h5 h6 h7 pre post even h4-byte h5-byte h6-byte h7-byte
          pre-bytes post-bytes type len (normalised field) after (ground arith) after-bytes fits
          short
      ∙ field_of-verifies (fixed_total h0 h1 h2 h3 h4 h5 h6 h7 pre post type) field (omega arith)
          field-eq
