-- ===== src/Inet6/Send.antt =====
-- src/inet6.c: initialisation, address resolution and the two senders.
pub mod Conserve
use gigaboot20x.Base.{
  ltb, leb, ◌==◌, if◌then◌else◌, ltb→lt, lt→ltb, le→ltb, ltb→le, ==-refl, ==→eq, ne→==, tests,
  Bool-cases, Option-cases, ◌>>=◌, ◌>>◌, length, get_or, set, take, drop, replicate, length-append,
  length-take, length-drop, length-replicate, length-set, take-append, drop-append, take-length,
  take-append-drop, All, All-append, u8, u16, u32, u64, byte_at, slice, le16, le32, u16_at, u32_at,
  IsBytes, ℕ, zero, suc, ◌+◌, ◌-◌, ◌*◌, ◌/◌, ◌%◌, ◌^◌, ◌≤◌, ◌<◌, ◌≡◌, refl, sym, ap, ap₂, ◌∙◌, ◌≢◌,
  ◌↔◌, ◌⊎◌, inl, inr, Bool, true, false, not, ◌&&◌, ◌||◌, Option, none, some, List, [], ◌∷◌, ◌++◌,
  map, append-nil, append_assoc, arith,
}
use gigaboot20x.Cstring.{
  ℤ, memcmp, pos, negsuc, sub_ℕ, head_or_zero, is_zero, memset, memcpy, strlen,
}
use gigaboot20x.Netifc.{
  Netif, max_filter, eth_buffer_size, eth_header_size, eth_buffer_magic, EthBuffer, Frame, Snp,
  write, eth_get_buffer, buffer_of, eth_put_buffer, eth_send, eth_add_mcast_filter, add_buffers,
}
use gigaboot20x.Inet6.Addr.{
  eth_addr_len, ip6_addr_len, ip6_ll_all_nodes, ip6_ll_all_routers, ll6addr_from_mac,
  snmaddr_from_mac, multicast_from_ip6,
}
use gigaboot20x.Inet6.Checksum.{swap16, add_words, fold_carries, checksum, ip6_checksum}
use gigaboot20x.Inet6.Packet.{
  Host, eth_hdr_len, eth_mtu, ip6_hdr_len, udp_hdr_len, eth_ip6, hdr_udp, hdr_icmp6,
  icmp6_echo_request, icmp6_echo_reply, icmp6_ndp_n_solicit, icmp6_ndp_n_advertise,
  ndp_n_tgt_ll_addr, ndp_n_hdr_size, Ip6Hdr, UdpHdr, ip6_hdr_bytes, udp_hdr_bytes, Ip6Pkt, Ip6State,
  Datagram,
}

abbrev pub udp6_max_payload : ℕ
udp6_max_payload = eth_mtu - eth_hdr_len - ip6_hdr_len - udp_hdr_len

abbrev pub icmp6_max_payload : ℕ
icmp6_max_payload = eth_mtu - eth_hdr_len - ip6_hdr_len

-- `none` is the -1 of the source.
unfoldable pub resolve_ip6 : Ip6State → List ℕ → Option (List ℕ)
resolve_ip6 st ip =
    if byte_at ip 0 == 0xFF
    then some (multicast_from_ip6 ip)
    else if is_zero (memcmp ip st.rx_ip6_addr ip6_addr_len)
    then some st.rx_mac_addr
    else none

-- The length is passed on to htons as a uint16_t.
unfoldable pub ip6_setup : Ip6State → List ℕ → ℕ → ℕ → Option Ip6Pkt
ip6_setup st daddr len type = do
  dmac ← resolve_ip6 st daddr
  some (record {
    eth = dmac ++ st.ll_mac_addr ++ eth_ip6 / 2 ^ 8 % 256 ∷ eth_ip6 % 256 ∷ [];
    ip6 = record {
      ver_tc_flow = 0x60;
      length = swap16 (u16 len);
      next_header = type;
      hop_limit = 255;
      src = st.ll_ip6_addr;
      dst = daddr;
    };
  })

-- The packet behind its Ethernet header: the checksum is taken over it with the field at 0.
unfoldable pub udp6_datagram : Ip6Hdr → List ℕ → ℕ → ℕ → List ℕ
unfolding ip6_hdr_bytes udp_hdr_bytes
udp6_datagram ip6 payload dport sport =
    let len = length payload + udp_hdr_len in
    let udp : UdpHdr = record {
      src_port = swap16 sport;
      dst_port = swap16 dport;
      length = swap16 (u16 len);
      checksum = 0;
    } in
    let sum = ip6_checksum (ip6_hdr_bytes ip6 ++ udp_hdr_bytes udp ++ payload) hdr_udp len in
    ip6_hdr_bytes ip6 ++ udp_hdr_bytes (record udp { checksum = u16 sum }) ++ payload

-- The packet from `p->eth + 2` on.
unfoldable pub udp6_frame : Ip6Pkt → List ℕ → ℕ → ℕ → List ℕ
unfolding udp6_datagram
udp6_frame p payload dport sport = p.eth ++ udp6_datagram p.ip6 payload dport sport

-- The message with its checksum field set, behind the headers.
unfoldable pub icmp6_frame : Ip6Pkt → List ℕ → List ℕ
unfolding ip6_hdr_bytes
icmp6_frame p message =
    let ip = ip6_hdr_bytes p.ip6 in
    let sum = u16 (ip6_checksum (ip ++ message) hdr_icmp6 (length message)) in
    p.eth ++ ip ++ set (set message 2 (sum % 256)) 3 (sum / 256 % 256)

-- `p = eth_get_buffer(...); if (p == 0) return -1;`
abbrev pub with_buffer : Option ℕ × Netif → (ℕ → Netif → Option (ℤ × Netif)) → Option (ℤ × Netif)
with_buffer got k = elim got.0 [ none ↦ some (negsuc 0, got.1) | some p ↦ k p got.1 ]

module _ (snp : Snp) where
  -- `fail: eth_put_buffer(p); return -1;`
  pub give_up : ℕ → Netif → Option (ℤ × Netif)
  give_up p net = do net' ← eth_put_buffer p net; some (negsuc 0, net')

  -- The part that the two senders share: too long or no route gives the buffer back, and else the
  -- packet is sent from `p->eth + 2` on.
  unfoldable pub fill_and_send :
      Bool → Option Ip6Pkt → (Ip6Pkt → List ℕ) → ℕ → Netif → Option (ℤ × Netif)
  unfolding give_up
  fill_and_send true route build p net = give_up p net
  fill_and_send false none build p net = give_up p net
  fill_and_send false (some pkt) build p net = eth_send snp (p + 2) (build pkt) net

  unfoldable pub udp6_send : Ip6State → List ℕ → List ℕ → ℕ → ℕ → Netif → Option (ℤ × Netif)
  unfolding fill_and_send
  udp6_send st payload daddr dport sport net = with_buffer (eth_get_buffer (eth_mtu + 2) net) (
      fill_and_send (ltb udp6_max_payload (length payload))
        (ip6_setup st daddr (length payload + udp_hdr_len) hdr_udp)
        (λ pkt. udp6_frame pkt payload dport sport))

  unfoldable pub icmp6_send : Ip6State → List ℕ → List ℕ → Netif → Option (ℤ × Netif)
  unfolding fill_and_send
  icmp6_send st message daddr net = with_buffer (eth_get_buffer (eth_mtu + 2) net) (
      fill_and_send (ltb icmp6_max_payload (length message))
        (ip6_setup st daddr (length message) hdr_icmp6) (λ pkt. icmp6_frame pkt message))

  -- The three lines that ip6_init prints are left out.
  unfoldable pub ip6_init : List ℕ → Ip6State → Netif → Ip6State × Netif
  ip6_init macaddr st net =
      let ll_mac = take 6 macaddr in
      let snm_ip6 = snmaddr_from_mac ll_mac in
      let snm_mac = multicast_from_ip6 snm_ip6 in
      let net1 = (eth_add_mcast_filter snp snm_mac net).1 in
      let net2 = (eth_add_mcast_filter snp (multicast_from_ip6 ip6_ll_all_nodes) net1).1 in
      (
        record st {
          ll_mac_addr = ll_mac;
          ll_ip6_addr = ll6addr_from_mac ll_mac;
          snm_mac_addr = snm_mac;
          snm_ip6_addr = snm_ip6;
        },
        net2,
      )
