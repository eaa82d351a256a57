-- ===== src/Inet6/Recv.antt =====
-- src/inet6.c: what is done with a received Ethernet frame. A BAD prints its text and returns.
pub mod Verify
pub mod Udp
pub mod Eth
pub mod Icmp
pub mod Reply
pub mod Conserve
use Prim.Native.Nat.{bit_and}
use gigaboot20x.Base.{
  ltb, leb, ◌==◌, if◌then◌else◌, ltb→lt, lt→ltb, le→ltb, ltb→le, ==-refl, ==→eq, ne→==, tests,
  Bool-cases, Option-cases, ◌>>=◌, ◌>>◌, length, get_or, set, take, drop, replicate, length-append,
  length-take, length-drop, length-replicate, length-set, take-append, drop-append, take-length,
  take-append-drop, All, All-append, u8, u16, u32, u64, byte_at, slice, le16, le32, u16_at, u32_at,
  IsBytes, ℕ, zero, suc, ◌+◌, ◌-◌, ◌*◌, ◌/◌, ◌%◌, ◌^◌, ◌≤◌, ◌<◌, ◌≡◌, refl, sym, ap, ap₂, ◌∙◌, ◌≢◌,
  ◌↔◌, ◌⊎◌, inl, inr, Bool, true, false, not, ◌&&◌, ◌||◌, Option, none, some, List, [], ◌∷◌, ◌++◌,
  map, append-nil, append_assoc, arith,
}
use gigaboot20x.Cstring.{
  ℤ, memcmp, pos, negsuc, sub_ℕ, head_or_zero, is_zero, memset, memcpy, strlen,
}
use gigaboot20x.Netifc.{
  Netif, max_filter, eth_buffer_size, eth_header_size, eth_buffer_magic, EthBuffer, Frame, Snp,
  write, eth_get_buffer, buffer_of, eth_put_buffer, eth_send, eth_add_mcast_filter, add_buffers,
}
use gigaboot20x.Inet6.Addr.{
  eth_addr_len, ip6_addr_len, ip6_ll_all_nodes, ip6_ll_all_routers, ll6addr_from_mac,
  snmaddr_from_mac, multicast_from_ip6,
}
use gigaboot20x.Inet6.Checksum.{swap16, add_words, fold_carries, checksum, ip6_checksum}
use gigaboot20x.Inet6.Packet.{
  Host, eth_hdr_len, eth_mtu, ip6_hdr_len, udp_hdr_len, eth_ip6, hdr_udp, hdr_icmp6,
  icmp6_echo_request, icmp6_echo_reply, icmp6_ndp_n_solicit, icmp6_ndp_n_advertise,
  ndp_n_tgt_ll_addr, ndp_n_hdr_size, Ip6Hdr, UdpHdr, ip6_hdr_bytes, udp_hdr_bytes, Ip6Pkt, Ip6State,
  Datagram,
}
use gigaboot20x.Inet6.Send.{
  icmp6_send, udp6_max_payload, icmp6_max_payload, resolve_ip6, ip6_setup, udp6_frame, icmp6_frame,
  give_up, udp6_send, ip6_init,
}

-- `if (checksum == 0xFFFF) checksum = 0;` on the field at `off`.
pub normalise_checksum : ℕ → List ℕ → List ℕ
normalise_checksum off ip = if u16_at ip off == 0xFFFF then set (set ip off 0) (off + 1) 0 else ip

-- `memcmp(&ll_ip6_addr, ip->dst, 16) && memcmp(&snm_ip6_addr, ip->dst, 16)`
abbrev pub is_for_other : Ip6State → List ℕ → Bool
is_for_other st frame =
    not (is_zero (memcmp st.ll_ip6_addr (drop 38 frame) ip6_addr_len))
    && not (is_zero (memcmp st.snm_ip6_addr (drop 38 frame) ip6_addr_len))

-- The sum that a receiver wants to be 0xFFFF.
pub received_sum : List ℕ → ℕ → ℕ → ℕ
received_sum ip type len = checksum (drop 8 ip) (32 + len) (checksum (drop 4 ip) 2 (swap16 type))

-- The message of 32 bytes that answers a solicitation.
pub ndp_advertise : Ip6State → List ℕ
ndp_advertise st =
    icmp6_ndp_n_advertise ∷ 0 ∷ 0 ∷ 0 ∷ 0x60 ∷ 0 ∷ 0 ∷ 0 ∷ st.ll_ip6_addr
    ++ ndp_n_tgt_ll_addr ∷ 1 ∷ st.ll_mac_addr

-- A send from inside a handler, whose result is dropped.
module _ {App : Type 0} (snp : Snp) where
  unfoldable pub icmp6_answer : Host App → List ℕ → List ℕ → Option (Host App)
  icmp6_answer h message daddr = do
    sent ← icmp6_send snp h.ip message daddr h.net
    some (record h { net = sent.1 })

  -- `ip` is the memory from the IP header on; the message starts at 40.
  pub solicit_recv : Host App → List ℕ → ℕ → Option (Host App)
  unfolding icmp6_answer ndp_advertise
  solicit_recv h ip len =
      if ltb len ndp_n_hdr_size
      then some h
      else if not (byte_at ip 41 == 0)
      then some h
      else if not (is_zero (memcmp (drop 48 ip) h.ip.ll_ip6_addr ip6_addr_len))
      then some h
      else icmp6_answer h (ndp_advertise h.ip) (slice 8 16 ip)

  -- The request itself becomes the reply: its checksum is cleared and its type changed.
  pub echo_recv : Host App → List ℕ → ℕ → Option (Host App)
  unfolding icmp6_answer
  echo_recv h ip len =
      let reply = set (set (set ip 42 0) 43 0) 40 icmp6_echo_reply in
      icmp6_answer h (slice 40 len reply) (slice 8 16 reply)

  pub icmp6_dispatch : Host App → List ℕ → ℕ → Option (Host App)
  unfolding solicit_recv echo_recv
  icmp6_dispatch h ip len =
      if byte_at ip 40 == icmp6_ndp_n_solicit
      then solicit_recv h ip len
      else if byte_at ip 40 == icmp6_echo_request
      then echo_recv h ip len
      else some h

  pub icmp6_recv : Host App → List ℕ → ℕ → Option (Host App)
  unfolding normalise_checksum received_sum icmp6_dispatch
  icmp6_recv h ip len =
      if u16_at ip 42 == 0
      then some h
      else if not (received_sum (normalise_checksum 42 ip) hdr_icmp6 len == 0xFFFF)
      then some h
      else icmp6_dispatch h (normalise_checksum 42 ip) len

  module _ (udp6_recv : Datagram → Host App → Option (Host App)) where
    -- The call of the application with the fields of a datagram of `n` bytes.
    pub deliver : Host App → List ℕ → ℕ → Option (Host App)
    deliver h ip n =
        let datagram : Datagram = record {
          payload = slice 48 (n - udp_hdr_len) ip;
          daddr = slice 24 16 ip;
          dport = swap16 (u16_at ip 42);
          saddr = slice 8 16 ip;
          sport = swap16 (u16_at ip 40);
        } in
        udp6_recv datagram h

    pub checked_deliver : Host App → List ℕ → ℕ → Option (Host App)
    unfolding received_sum deliver
    checked_deliver h ip len =
        let n = swap16 (u16_at ip 44) in
        if not (received_sum ip hdr_udp len == 0xFFFF)
        then some h
        else if ltb n udp_hdr_len
        then some h
        else if ltb len n
        then some h
        else deliver h ip n

    -- _udp6_recv: the UDP header starts at 40, the payload at 48.
    pub recv_udp : Host App → List ℕ → ℕ → Option (Host App)
    unfolding normalise_checksum checked_deliver
    recv_udp h ip len =
        if ltb len udp_hdr_len
        then some h
        else if u16_at ip 46 == 0
        then some h
        else checked_deliver h (normalise_checksum 46 ip) len

    -- The sender is remembered before the packet is looked into.
    pub stash : Host App → List ℕ → Host App
    stash h frame = record h {
      ip = record h.ip { rx_mac_addr = slice 6 6 frame; rx_ip6_addr = slice 22 16 frame };
    }

    unfoldable pub dispatch : Host App → List ℕ → ℕ → ℕ → Option (Host App)
    unfolding icmp6_recv recv_udp
    dispatch h ip len next_header =
        if next_header == hdr_icmp6
        then icmp6_recv h ip len
        else if next_header == hdr_udp
        then recv_udp h ip len
        else some h

    -- `len` are the bytes behind the IP header, `n` those that it announces.
    pub accept : Host App → List ℕ → ℕ → ℕ → Option (Host App)
    unfolding stash dispatch
    accept h frame len n =
        if ltb len n
        then some h
        else if is_for_other h.ip frame
        then some h
        else dispatch (stash h frame) (drop eth_hdr_len frame) n (byte_at frame 20)

    pub eth_recv : Host App → List ℕ → ℕ → Option (Host App)
    unfolding accept
    eth_recv h frame len =
        if ltb len (eth_hdr_len + ip6_hdr_len)
        then some h
        else if not (byte_at frame 12 == eth_ip6 / 2 ^ 8)
        then some h
        else if not (byte_at frame 13 == eth_ip6 % 256)
        then some h
        else if not (bit_and (u32_at frame 14) 0xF0 == 0x60)
        then some h
        else accept h frame (len - (eth_hdr_len + ip6_hdr_len)) (swap16 (u16_at frame 18))
