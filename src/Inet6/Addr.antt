-- ===== src/Inet6/Addr.antt =====
-- src/inet6.c: the addresses that the stack derives from the MAC address of the interface.
-- A mac_addr is a list of 6 bytes, an ip6_addr a list of 16.
pub mod Laws
use Prim.Native.Nat.{bit_xor}
use gigaboot20x.Base.{ℕ, List, [], ◌∷◌, byte_at}

abbrev pub eth_addr_len : ℕ
eth_addr_len = 6

abbrev pub ip6_addr_len : ℕ
ip6_addr_len = 16

abbrev pub ip6_ll_all_nodes : List ℕ
ip6_ll_all_nodes = 0xFF ∷ 0x02 ∷ 0 ∷ 0 ∷ 0 ∷ 0 ∷ 0 ∷ 0 ∷ 0 ∷ 0 ∷ 0 ∷ 0 ∷ 0 ∷ 0 ∷ 0 ∷ 1 ∷ []

abbrev pub ip6_ll_all_routers : List ℕ
ip6_ll_all_routers = 0xFF ∷ 0x02 ∷ 0 ∷ 0 ∷ 0 ∷ 0 ∷ 0 ∷ 0 ∷ 0 ∷ 0 ∷ 0 ∷ 0 ∷ 0 ∷ 0 ∷ 0 ∷ 2 ∷ []

unfoldable pub ll6addr_from_mac : List ℕ → List ℕ
ll6addr_from_mac mac =
    0xFE
    ∷ 0x80
    ∷ 0
    ∷ 0
    ∷ 0
    ∷ 0
    ∷ 0
    ∷ 0
    ∷ bit_xor (byte_at mac 0) 2
    ∷ byte_at mac 1
    ∷ byte_at mac 2
    ∷ 0xFF
    ∷ 0xFE
    ∷ byte_at mac 3
    ∷ byte_at mac 4
    ∷ byte_at mac 5
    ∷ []

unfoldable pub snmaddr_from_mac : List ℕ → List ℕ
snmaddr_from_mac mac =
    0xFF
    ∷ 0x02
    ∷ 0
    ∷ 0
    ∷ 0
    ∷ 0
    ∷ 0
    ∷ 0
    ∷ 0
    ∷ 0
    ∷ 0
    ∷ 0x01
    ∷ 0xFF
    ∷ byte_at mac 3
    ∷ byte_at mac 4
    ∷ byte_at mac 5
    ∷ []

unfoldable pub multicast_from_ip6 : List ℕ → List ℕ
multicast_from_ip6 ip =
    0x33 ∷ 0x33 ∷ byte_at ip 12 ∷ byte_at ip 13 ∷ byte_at ip 14 ∷ byte_at ip 15 ∷ []
