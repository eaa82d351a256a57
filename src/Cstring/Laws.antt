-- ===== src/Cstring/Laws.antt =====
-- What the routines of lib/string.c compute, against `take`, `drop` and equality of lists.
use gigaboot20x.Base.{
  ℕ, zero, suc, ◌≤◌, ◌<◌, ◌≡◌, ◌↔◌, refl, ap, ap₂, arith, List, [], ◌∷◌, ◌++◌, drop, take,
  replicate, u8, ◌==◌, length, some, All, Bool-cases, inl, inr, ==→eq,
}
use gigaboot20x.Cstring.{pos, sub_ℕ, memset, memcpy, memcmp, strlen}

sub_ℕ-self : (a : ℕ) → sub_ℕ a a ≡ pos 0
sub_ℕ-self a = ground arith

-- Inside the buffer, memset writes exactly the first n bytes, each to the low byte of c.
memset_lem :
    (dst : List ℕ) (c n : ℕ) → n ≤ length dst → memset dst c n ≡ replicate n (u8 c) ++ drop n dst
unfolding memset
memset_lem dst c zero h = refl
memset_lem [] c (suc n) h = absurd (omega arith)
memset_lem (d ∷ dst) c (suc n) h = ap (λ t. u8 c ∷ t) (memset_lem dst c n (omega arith))

-- Inside both buffers, memcpy copies exactly the first n bytes of the source and leaves the rest
-- of the target.
pub memcpy_lem :
    (dst src : List ℕ) (n : ℕ)
    → n ≤ length dst
    → n ≤ length src
    → memcpy dst src n ≡ take n src ++ drop n dst
unfolding memcpy
memcpy_lem dst src zero h k = refl
memcpy_lem [] [] (suc n) h k = absurd (omega arith)
memcpy_lem [] (s ∷ src) (suc n) h k = absurd (omega arith)
memcpy_lem (d ∷ dst) [] (suc n) h k = absurd (omega arith)
memcpy_lem (d ∷ dst) (s ∷ src) (suc n) h k =
    ap (λ t. s ∷ t) (memcpy_lem dst src n (omega arith) (omega arith))

pub memcmp_refl : (a : List ℕ) (n : ℕ) → memcmp a a n ≡ pos 0
unfolding memcmp
memcmp_refl a zero = refl
memcmp_refl [] (suc n) = memcmp_refl [] n
memcmp_refl (x ∷ a) (suc n) = rw (sub_ℕ-self x) (memcmp_refl a n)

take_eq_of_memcmp :
    (a b : List ℕ) (n : ℕ)
    → n ≤ length a
    → n ≤ length b
    → memcmp a b n ≡ pos 0
    → take n a ≡ take n b
unfolding memcmp
take_eq_of_memcmp a b zero h k e = refl
take_eq_of_memcmp [] b (suc n) h k e = absurd (omega arith)
take_eq_of_memcmp (x ∷ a) [] (suc n) h k e = absurd (omega arith)
take_eq_of_memcmp (x ∷ a) (y ∷ b) (suc n) h k e = elim (Bool-cases (x == y)) [
  | inl same ↦
      ap₂ ◌∷◌ (==→eq x y same)
        (take_eq_of_memcmp a b n (omega arith) (omega arith) (ground (arith, e)))
  | inr differ ↦ absurd (ground (arith, e))
]

memcmp_of_take_eq : (a b : List ℕ) (n : ℕ) → take n a ≡ take n b → memcmp a b n ≡ pos 0
unfolding memcmp
memcmp_of_take_eq a b zero e = refl
memcmp_of_take_eq [] [] (suc n) e = memcmp_refl [] n
memcmp_of_take_eq [] (y ∷ b) (suc n) e = cc
memcmp_of_take_eq (x ∷ a) [] (suc n) e = cc
memcmp_of_take_eq (x ∷ a) (y ∷ b) (suc n) e = ground (arith, memcmp_of_take_eq a b n)

-- Inside both buffers, memcmp gives 0 exactly when the first n bytes agree.
pub memcmp_iff :
    (a b : List ℕ) (n : ℕ)
    → n ≤ length a
    → n ≤ length b
    → (memcmp a b n ≡ pos 0) ↔ (take n a ≡ take n b)
memcmp_iff a b n h k = (take_eq_of_memcmp a b n h k, memcmp_of_take_eq a b n)

-- In memory that holds some bytes other than 0 and then a 0, strlen is the number of those bytes.
strlen_lem : (s rest : List ℕ) → All (λ c. 0 < c) s → strlen (s ++ 0 ∷ rest) ≡ some (length s)
unfolding strlen
strlen_lem [] rest h = refl
strlen_lem (zero ∷ s) rest h = absurd (omega (arith, h.0))
strlen_lem (suc c ∷ s) rest h = rw (strlen_lem s rest h.1)
