-- ===== src/Inet6/Checksum.antt =====
-- src/inet6.c and inet6.h: byte order, and the Internet checksum of a packet in memory.
pub mod Bits
pub mod Sum
use Prim.Native.Nat.{bit_or}
use gigaboot20x.Base.{
  ℕ, zero, suc, ◌+◌, ◌-◌, ◌*◌, ◌/◌, ◌%◌, ◌^◌, List, drop, byte_at, u16_at, u16, u32, ltb, ◌==◌,
  if◌then◌else◌,
}

-- `(n >> 8) | (n << 8)`, returned as a uint16_t; this is also htons and ntohs.
pub swap16 : ℕ → ℕ
swap16 n = u16 (bit_or (n / 2 ^ 8) (n * 2 ^ 8))

-- The first loop, and the odd byte after it: `*data & 0xFF` is the byte at `data`.
pub add_words : ℕ → List ℕ → ℕ → ℕ
add_words zero bytes sum = sum
add_words (suc zero) bytes sum = u32 (sum + byte_at bytes 0)
add_words (suc (suc len)) bytes sum = add_words len (drop 2 bytes) (u32 (sum + u16_at bytes 0))

-- while (sum > 0xFFFF) sum = (sum & 0xFFFF) + (sum >> 16);
pub fold_carries : ℕ → ℕ → ℕ
fold_carries zero sum = sum
fold_carries (suc fuel) sum =
    let rest = fold_carries fuel (u32 (sum % 2 ^ 16 + sum / 2 ^ 16)) in
    if ltb 0xFFFF sum then rest else sum

-- Two rounds are enough for any uint32_t, so three tests are made at most.
pub checksum : List ℕ → ℕ → ℕ → ℕ
unfolding add_words fold_carries
checksum bytes len sum = u16 (fold_carries 3 (add_words len bytes (u16 sum)))

-- `ip` is the memory from the IP header on: the length field is at 4, the addresses at 8. The
-- result is an `unsigned`; `~sum` of a promoted uint16_t has its upper half set.
unfoldable pub ip6_checksum : List ℕ → ℕ → ℕ → ℕ
ip6_checksum ip type length =
    let sum = checksum (drop 8 ip) (32 + length) (checksum (drop 4 ip) 2 (swap16 type)) in
    if sum == 0xffff then sum else 2 ^ 32 - 1 - sum
