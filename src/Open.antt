-- ===== src/Open.antt =====
-- src/netifc.c: netifc_open, which readies the interface. The statuses and answers of the firmware
-- are parameters.
pub mod Filters
pub mod Idle
pub mod Listening
pub mod Examples
use gigaboot20x.Base.{
  get_or-append, get_or-append_left, get_or-take, get_or-drop, get_or-set_other, get_or-set,
  length-reverse, set-append, ltb, leb, ◌==◌, if◌then◌else◌, ltb→lt, lt→ltb, le→ltb, ltb→le,
  ==-refl, ==→eq, ne→==, tests, Bool-cases, Option-cases, ◌>>=◌, ◌>>◌, length, get_or, set, take,
  drop, replicate, length-append, length-take, length-drop, length-replicate, length-set,
  take-append, drop-append, take-length, take-append-drop, All, All-append, u8, u16, u32, u64,
  byte_at, slice, le16, le32, u16_at, u32_at, IsBytes, ℕ, zero, suc, ◌+◌, ◌-◌, ◌*◌, ◌/◌, ◌%◌, ◌^◌,
  ◌≤◌, ◌<◌, ◌≡◌, refl, sym, ap, ap₂, ◌∙◌, ◌≢◌, ◌↔◌, ◌⊎◌, inl, inr, Bool, true, false, not, ◌&&◌,
  ◌||◌, Option, none, some, List, [], ◌∷◌, ◌++◌, map, append-nil, append_assoc, arith,
}
use gigaboot20x.Cstring.{
  ℤ, pos, negsuc, sub_ℕ, head_or_zero, is_zero, memset, memcpy, memcmp, strlen,
}
use gigaboot20x.Netifc.{
  max_filter, eth_buffer_size, eth_header_size, eth_buffer_magic, EthBuffer, Frame, Netif, Snp,
  write, eth_get_buffer, buffer_of, eth_put_buffer, eth_send, eth_add_mcast_filter, add_buffers,
}
use gigaboot20x.Inet6.Packet.{
  eth_hdr_len, eth_mtu, ip6_hdr_len, udp_hdr_len, eth_ip6, hdr_udp, hdr_icmp6, icmp6_echo_request,
  icmp6_echo_reply, icmp6_ndp_n_solicit, icmp6_ndp_n_advertise, ndp_n_tgt_ll_addr, ndp_n_hdr_size,
  Ip6Hdr, UdpHdr, ip6_hdr_bytes, udp_hdr_bytes, Ip6Pkt, Ip6State, Host, Datagram,
}
use gigaboot20x.Inet6.Send.{
  udp6_max_payload, icmp6_max_payload, resolve_ip6, ip6_setup, udp6_datagram, udp6_frame,
  icmp6_frame, with_buffer, give_up, fill_and_send, udp6_send, icmp6_send, ip6_init,
}

abbrev pub num_buffer_pages : ℕ
num_buffer_pages = 8

-- The status of each call, 0 for success; whether the interface is started, before and after Start;
-- the address of the pages; and what Mode then holds.
pub record OpenFirmware : Type 0 where
  pub locate_handle : ℕ
  pub open_protocol : ℕ
  pub started : Bool
  pub starts : Bool
  pub initialize : ℕ
  pub allocate_pages : ℕ
  pub buffers_base : ℕ
  pub current_address : List ℕ
  pub receive_filters : ℕ
  pub mcast_filter_count : ℕ
  pub mcast_filter : List (List ℕ)
  pub set_promiscuous : ℕ

-- How frames are filtered after a return of 0.
pub data Mode : Type 0 where
  multicast promiscuous : Mode

-- The result: `none` is -1, else the mode, with the stack and the interface.
abbrev pub Opened : Type 0
Opened = Option Mode × Ip6State × Netif

-- The inner loop, over j < n: some filter of the hardware has the six bytes.
pub is_installed : ℕ → List ℕ → List (List ℕ) → Bool
is_installed zero m hardware = false
is_installed (suc n) m [] = false
is_installed (suc n) m (f ∷ hardware) = is_zero (memcmp m f 6) || is_installed n m hardware

-- The outer loop: `false` goes to force_promisc.
pub all_installed : ℕ → List (List ℕ) → List (List ℕ) → Bool
unfolding is_installed
all_installed n [] hardware = true
all_installed n (m ∷ filters) hardware =
    is_installed n m hardware && all_installed n filters hardware

-- force_promisc:
abbrev force_promisc : OpenFirmware → Option Mode
force_promisc fw = if fw.set_promiscuous == 0 then some promiscuous else none

-- From the check of the installed filters on.
pub check_filters : OpenFirmware → List (List ℕ) → Option Mode
unfolding all_installed
check_filters fw filters =
    if not (fw.mcast_filter_count == length filters)
    then force_promisc fw
    else if all_installed (length filters) filters fw.mcast_filter
    then some multicast
    else force_promisc fw

-- `if (snp->Mode->State != EfiSimpleNetworkStarted) { ... }`; `false` is a return of -1.
abbrev pub is_started : OpenFirmware → Bool
is_started fw = if fw.started then true else if fw.starts then fw.initialize == 0 else false

module _ (snp : Snp) where
  -- With the buffers in place: the stack is initialised and the filters are installed.
  pub open_filters : OpenFirmware → Ip6State → Netif → Opened
  unfolding check_filters
  open_filters fw st n =
      let (st', n') = ip6_init snp fw.current_address st n in
      if not (fw.receive_filters == 0)
      then (none, st', n')
      else (check_filters fw n'.mcast_filters, st', n')

  -- The outer `none` is the endless loop of eth_put_buffer.
  pub netifc_open : OpenFirmware → Ip6State → Netif → Option Opened
  unfolding open_filters
  netifc_open fw st n =
      if not (fw.locate_handle == 0)
      then some (none, st, n)
      else if not (fw.open_protocol == 0)
      then some (none, st, n)
      else if not (is_started fw)
      then some (none, st, n)
      else if not (fw.allocate_pages == 0)
      then some (none, st, n)
      else (do
        n' ← add_buffers (num_buffer_pages * 2) fw.buffers_base n
        some (open_filters fw st n'))
