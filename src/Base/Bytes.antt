-- ===== src/Base/Bytes.antt =====
-- Bytes of memory and the little-endian fields that the x86_64 build reads from it.
use Prim.Native.Nat.{ℕ, ◌+◌, ◌*◌, ◌/◌, ◌%◌, ◌^◌, ◌<◌}
use mathlib.Core.List.{List, [], ◌∷◌}
use gigaboot20x.Base.Lists.{get_or, take, drop, All}

abbrev pub u8 : ℕ → ℕ
u8 n = n % 2 ^ 8

abbrev pub u16 : ℕ → ℕ
u16 n = n % 2 ^ 16

abbrev pub u32 : ℕ → ℕ
u32 n = n % 2 ^ 32

abbrev pub u64 : ℕ → ℕ
u64 n = n % 2 ^ 64

-- A byte outside the modelled memory reads as 0.
abbrev pub byte_at : List ℕ → ℕ → ℕ
byte_at buf i = get_or buf i 0

-- `n` bytes from offset `off`.
abbrev pub slice : ℕ → ℕ → List ℕ → List ℕ
slice off n buf = take n (drop off buf)

abbrev pub le16 : ℕ → List ℕ
le16 n = n % 256 ∷ (n / 256) % 256 ∷ []

abbrev pub le32 : ℕ → List ℕ
le32 n = n % 256 ∷ (n / 256) % 256 ∷ (n / 65536) % 256 ∷ (n / 16777216) % 256 ∷ []

abbrev pub u16_at : List ℕ → ℕ → ℕ
u16_at buf off = byte_at buf off + 256 * byte_at buf (off + 1)

abbrev pub u32_at : List ℕ → ℕ → ℕ
u32_at buf off =
    byte_at buf off
    + 256 * byte_at buf (off + 1)
    + 65536 * byte_at buf (off + 2)
    + 16777216 * byte_at buf (off + 3)

abbrev pub IsBytes : List ℕ → Type 0
IsBytes = All (λ b. b < 256)
