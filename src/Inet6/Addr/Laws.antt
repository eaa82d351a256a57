-- ===== src/Inet6/Addr/Laws.antt =====
-- How the derived addresses depend on the MAC address.
use Prim.Native.Nat.{bit_xor}
use gigaboot20x.Base.{
  sym, ℕ, zero, suc, ◌<◌, ◌≡◌, ◌≢◌, refl, arith, Bool, true, ◌&&◌, List, [], ◌∷◌, length, ◌==◌,
  IsBytes,
}
use gigaboot20x.Inet6.Addr.{ll6addr_from_mac}

-- Whether flipping the bit twice gives x back, for every x from the bound down.
flips_back : (bound : ℕ) → Bool
flips_back zero = true
flips_back (suc x) = flips_back x && (x == bit_xor (bit_xor x 2) 2)

flips_back-at : (bound x : ℕ) → x < bound → flips_back bound ≡ true → x ≡ bit_xor (bit_xor x 2) 2
unfolding flips_back
flips_back-at zero x small found = absurd (omega arith)
flips_back-at (suc bound) x small found = ground (arith, flips_back-at bound x)

flips_back_all : flips_back 256 ≡ true
unfolding flips_back
flips_back_all = refl

flip_twice : (x : ℕ) → x < 256 → bit_xor (bit_xor x 2) 2 ≡ x
flip_twice x h = sym (flips_back-at 256 x h flips_back_all)

ll6addr_from_mac-injective :
    (a b : List ℕ)
    → length a ≡ 6
    → length b ≡ 6
    → IsBytes a
    → IsBytes b
    → ll6addr_from_mac a ≡ ll6addr_from_mac b
    → a ≡ b
unfolding ll6addr_from_mac
ll6addr_from_mac-injective (a0 ∷ a1 ∷ a2 ∷ a3 ∷ a4 ∷ a5 ∷ []) (b0 ∷ b1 ∷ b2 ∷ b3 ∷ b4 ∷ b5 ∷ []) la
      lb ba bb e =
    cc (flip_twice a0 ba.0, flip_twice b0 bb.0)
ll6addr_from_mac-injective _ _ la lb ba bb e = absurd (omega arith)

-- Different MAC addresses of 6 bytes each give different link-local addresses.
pub ll6addr_from_mac-ne :
    (a b : List ℕ)
    → length a ≡ 6
    → length b ≡ 6
    → IsBytes a
    → IsBytes b
    → a ≢ b
    → ll6addr_from_mac a ≢ ll6addr_from_mac b
ll6addr_from_mac-ne a b la lb ba bb differ e = differ (ll6addr_from_mac-injective a b la lb ba bb e)
