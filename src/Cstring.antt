-- ===== src/Cstring.antt =====
-- lib/string.c: the byte routines that every other part calls. Memory is a list of bytes.
pub mod Examples
pub mod Laws
use gigaboot20x.Base.{
  ℕ, zero, suc, ◌-◌, Bool, true, false, List, [], ◌∷◌, drop, u8, ltb, if◌then◌else◌, Option, none,
  some,
}

-- What an `int` of C holds: `negsuc n` is -(n + 1).
pub data ℤ : Type 0 where
  pos : ℕ → ℤ
  negsuc : ℕ → ℤ

-- `*a++ - *b++`: both bytes are promoted to `int`, so the difference does not wrap.
abbrev pub sub_ℕ : ℕ → ℕ → ℤ
sub_ℕ a b = if ltb a b then negsuc (b - a - 1) else pos (a - b)

abbrev pub head_or_zero : List ℕ → ℕ
head_or_zero [] = 0
head_or_zero (x ∷ xs) = x

abbrev pub is_zero : ℤ → Bool
is_zero (pos zero) = true
is_zero (pos (suc n)) = false
is_zero (negsuc n) = false

-- while (n-- > 0) *dst++ = c;  the bytes from `dst` on after the call.
pub memset : List ℕ → ℕ → ℕ → List ℕ
memset dst c zero = dst
memset [] c (suc n) = []
memset (d ∷ dst) c (suc n) = u8 c ∷ memset dst c n

-- while (n-- > 0) *dst++ = *src++;  the bytes from `dst` on after the call. A write behind the end
-- of the buffer makes the list longer; a byte read behind the end of the source counts as 0.
unfoldable pub memcpy : List ℕ → List ℕ → ℕ → List ℕ
memcpy dst src zero = dst
memcpy [] [] (suc n) = 0 ∷ memcpy [] [] n
memcpy [] (s ∷ src) (suc n) = s ∷ memcpy [] src n
memcpy (d ∷ dst) [] (suc n) = 0 ∷ memcpy dst [] n
memcpy (d ∷ dst) (s ∷ src) (suc n) = s ∷ memcpy dst src n

-- A byte past the end of a list counts as 0.
unfoldable pub memcmp : List ℕ → List ℕ → ℕ → ℤ
memcmp a b zero = pos 0
memcmp a b (suc n) =
    let x = sub_ℕ (head_or_zero a) (head_or_zero b) in
    if is_zero x then memcmp (drop 1 a) (drop 1 b) n else x

-- The memory must hold a zero byte; `none` is a scan that runs off its end.
pub strlen : List ℕ → Option ℕ
strlen [] = none
strlen (zero ∷ s) = some 0
strlen (suc c ∷ s) = elim (strlen s) [ none ↦ none | some n ↦ some (suc n) ]
