-- ===== src/Inet6/Packet.antt =====
-- src/inet6.h and inet6.c: the state of the stack, packet headers and their bytes in memory.
use gigaboot20x.Base.{ℕ, List, ◌∷◌, ◌++◌, le16, le32}
use gigaboot20x.Netifc.{Netif}

abbrev pub eth_hdr_len : ℕ
eth_hdr_len = 14

abbrev pub eth_mtu : ℕ
eth_mtu = 1514

abbrev pub ip6_hdr_len : ℕ
ip6_hdr_len = 40

abbrev pub udp_hdr_len : ℕ
udp_hdr_len = 8

abbrev pub eth_ip6 : ℕ
eth_ip6 = 0x86DD

abbrev pub hdr_udp : ℕ
hdr_udp = 17

abbrev pub hdr_icmp6 : ℕ
hdr_icmp6 = 58

abbrev pub icmp6_echo_request : ℕ
icmp6_echo_request = 128

abbrev pub icmp6_echo_reply : ℕ
icmp6_echo_reply = 129

abbrev pub icmp6_ndp_n_solicit : ℕ
icmp6_ndp_n_solicit = 135

abbrev pub icmp6_ndp_n_advertise : ℕ
icmp6_ndp_n_advertise = 136

abbrev pub ndp_n_tgt_ll_addr : ℕ
ndp_n_tgt_ll_addr = 2

-- sizeof(ndp_n_hdr)
abbrev pub ndp_n_hdr_size : ℕ
ndp_n_hdr_size = 24

-- Fields hold what the C struct holds, in the byte order of the wire where htons was applied.
pub record Ip6Hdr : Type 0 where
  pub ver_tc_flow : ℕ
  pub length : ℕ
  pub next_header : ℕ
  pub hop_limit : ℕ
  pub src : List ℕ
  pub dst : List ℕ

pub record UdpHdr : Type 0 where
  pub src_port : ℕ
  pub dst_port : ℕ
  pub length : ℕ
  pub checksum : ℕ

-- The packed struct in memory.
unfoldable pub ip6_hdr_bytes : Ip6Hdr → List ℕ
ip6_hdr_bytes h =
    le32 h.ver_tc_flow ++ le16 h.length ++ h.next_header ∷ h.hop_limit ∷ h.src ++ h.dst

unfoldable pub udp_hdr_bytes : UdpHdr → List ℕ
udp_hdr_bytes h = le16 h.src_port ++ le16 h.dst_port ++ le16 h.length ++ le16 h.checksum

-- The headers of an ip6_pkt; `eth` are the 14 bytes from `p->eth + 2` on.
pub record Ip6Pkt : Type 0 where
  pub eth : List ℕ
  pub ip6 : Ip6Hdr

-- The configuration and the cache of the last sender, static variables of inet6.c.
pub record Ip6State : Type 0 where
  pub ll_mac_addr : List ℕ
  pub ll_ip6_addr : List ℕ
  pub snm_mac_addr : List ℕ
  pub snm_ip6_addr : List ℕ
  pub rx_mac_addr : List ℕ
  pub rx_ip6_addr : List ℕ

-- The stack, the interface below it and the state of the application above it.
pub record Host (App : Type 0) : Type 0 where
  pub ip : Ip6State
  pub net : Netif
  pub app : App

-- The arguments of a call of udp6_recv; `payload` are the `len` bytes at `data`.
pub record Datagram : Type 0 where
  pub payload : List ℕ
  pub daddr : List ℕ
  pub dport : ℕ
  pub saddr : List ℕ
  pub sport : ℕ
