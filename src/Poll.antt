-- ===== src/Poll.antt =====
-- src/netifc.c netifc_poll and src/netboot.c netboot_poll: one pass of the server's main loop.
pub mod Examples
pub mod Forever
pub mod Wire
pub mod Ticks
pub mod Beacon
pub mod Network
use gigaboot20x.Base.{
  get_or-append, set-append, ltb, leb, ◌==◌, if◌then◌else◌, ltb→lt, lt→ltb, le→ltb, ltb→le, ==-refl,
  ==→eq, ne→==, tests, Bool-cases, Option-cases, ◌>>=◌, ◌>>◌, length, get_or, set, take, drop,
  replicate, length-append, length-take, length-drop, length-replicate, length-set, take-append,
  drop-append, take-length, take-append-drop, All, All-append, u8, u16, u32, u64, byte_at, slice,
  le16, le32, u16_at, u32_at, IsBytes, ℕ, zero, suc, ◌+◌, ◌-◌, ◌*◌, ◌/◌, ◌%◌, ◌^◌, ◌≤◌, ◌<◌, ◌≡◌,
  refl, sym, ap, ap₂, ◌∙◌, ◌≢◌, ◌↔◌, ◌⊎◌, inl, inr, Bool, true, false, not, ◌&&◌, ◌||◌, Option,
  none, some, List, [], ◌∷◌, ◌++◌, map, append-nil, append_assoc, arith,
}
use gigaboot20x.Cstring.{
  ℤ, pos, negsuc, sub_ℕ, head_or_zero, is_zero, memset, memcpy, memcmp, strlen,
}
use gigaboot20x.Netifc.{
  Netif, max_filter, eth_buffer_size, eth_header_size, eth_buffer_magic, EthBuffer, Frame, Snp,
  write, eth_get_buffer, buffer_of, eth_put_buffer, eth_send, eth_add_mcast_filter, add_buffers,
}
use gigaboot20x.Inet6.Addr.{
  ip6_ll_all_nodes, eth_addr_len, ip6_addr_len, ip6_ll_all_routers, ll6addr_from_mac,
  snmaddr_from_mac, multicast_from_ip6,
}
use gigaboot20x.Inet6.Packet.{
  Host, eth_hdr_len, eth_mtu, ip6_hdr_len, udp_hdr_len, eth_ip6, hdr_udp, hdr_icmp6,
  icmp6_echo_request, icmp6_echo_reply, icmp6_ndp_n_solicit, icmp6_ndp_n_advertise,
  ndp_n_tgt_ll_addr, ndp_n_hdr_size, Ip6Hdr, UdpHdr, ip6_hdr_bytes, udp_hdr_bytes, Ip6Pkt, Ip6State,
  Datagram,
}
use gigaboot20x.Inet6.Send.{
  udp6_send, udp6_max_payload, icmp6_max_payload, resolve_ip6, ip6_setup, udp6_datagram, udp6_frame,
  icmp6_frame, with_buffer, give_up, fill_and_send, icmp6_send, ip6_init,
}
use gigaboot20x.Inet6.Recv.{
  eth_recv, normalise_checksum, is_for_other, received_sum, ndp_advertise, icmp6_answer,
  solicit_recv, echo_recv, icmp6_dispatch, icmp6_recv, deliver, checked_deliver, recv_udp, stash,
  dispatch, accept,
}
use gigaboot20x.Netboot.{
  Nb, nb_magic, nb_server_port, nb_advert_port, nb_command, nb_send_file, nb_data, nb_boot, nb_ack,
  nb_advertise, nb_error_bad_cmd, nb_error_too_large, nb_error_bad_file, nbmsg_size, NbMsg,
  nbmsg_at, nbmsg_bytes, Reply, reply, printable, file_name, send_file, append_data, file_data,
  receive_data, execute, remember, handle, ack_of, transmit_ack, udp6_recv,
}

abbrev pub fast_tick : ℕ
fast_tick = 100

abbrev pub slow_tick : ℕ
slow_tick = 1000

-- What the firmware answers during one pass: whether the interface is open and the timer has
-- expired, the status of GetStatus with the buffer that it gives back, given those in flight, and the
-- receive interrupt,
-- and the status of Receive with the receive buffer and the size of the frame in it.
pub record PollEvent : Type 0 where
  pub active : Bool
  pub timer_expired : Bool
  pub get_status : ℕ
  pub txdone : List Frame → Option ℕ
  pub receive_irq : Bool
  pub receive_status : ℕ
  pub frame : List ℕ
  pub frame_size : ℕ

-- The host with the period that the timer was last set to.
pub record Server : Type 0 where
  pub host : Host Nb
  pub timer_ms : ℕ

-- The firmware no longer holds the frame at this address.
abbrev pub released : ℕ → List Frame → List Frame
released p [] = []
released p (f ∷ frames) = if f.address == p then frames else f ∷ released p frames

module _ {App : Type 0} where
  pub take_back : Option ℕ → Host App → Option (Host App)
  take_back none h = some h
  take_back (some p) h = do
    net ← eth_put_buffer p (record h.net { in_flight = released p h.net.in_flight })
    some (record h { net = net })

  module _ (snp : Snp) (udp6_recv : Datagram → Host App → Option (Host App)) where
    receive : PollEvent → Host App → Option (Host App)
    receive ev h =
        if ev.receive_irq
        then if ev.receive_status == 0
          then eth_recv snp udp6_recv h ev.frame ev.frame_size
          else some h
        else some h

    pub netifc_poll : PollEvent → Host App → Option (Host App)
    unfolding take_back receive
    netifc_poll ev h =
        if ev.get_status == 0
        then (do h' ← take_back (ev.txdone h.net.in_flight) h; receive ev h')
        else some h

-- The string literal: `\00` is one octal escape, so the value of "version" is ".1".
abbrev advertise_data : List ℕ
advertise_data =
    b'v' ∷ b'e' ∷ b'r' ∷ b's' ∷ b'i' ∷ b'o' ∷ b'n' ∷ 0 ∷ b'.' ∷ b'1' ∷ 0 ∷ b's' ∷ b'e' ∷ b'r' ∷ b'i'
    ∷ b'a' ∷ b'l' ∷ b'n' ∷ b'o' ∷ 0 ∷ b'u' ∷ b'n' ∷ b'k' ∷ b'n' ∷ b'o' ∷ b'w' ∷ b'n' ∷ 0 ∷ b'b'
    ∷ b'o' ∷ b'a' ∷ b'r' ∷ b'd' ∷ 0 ∷ b'u' ∷ b'n' ∷ b'k' ∷ b'n' ∷ b'o' ∷ b'w' ∷ b'n' ∷ 0 ∷ 0 ∷ []

abbrev pub advertise_message : NbMsg
advertise_message = record {
  magic = nb_magic;
  cookie = 0;
  cmd = nb_advertise;
  arg = 0;
  body = advertise_data;
}

module _ (snp : Snp) where
  pub advertise : Host Nb → Option (Host Nb)
  advertise h = do
    sent ←
        udp6_send snp h.ip (nbmsg_bytes advertise_message) ip6_ll_all_nodes nb_advert_port
          nb_server_port h.net
    some (record h { net = sent.1 })

  -- `if (nb_online == 0)`
  pub go_online : Server → Option Server
  unfolding advertise
  go_online s =
      if s.host.app.nb_online == 0
      then (do
        h ←
            advertise
              (record s.host { app = record s.host.app { nb_online = 1; nb_fastcount = 20 } })
        some (record { host = h; timer_ms = fast_tick }))
      else some s

  -- The tick after an advertisement: fast while nb_fastcount lasts. Where there is no net_timer,
  -- netifc_set_timer does nothing, and no pass has an expired timer.
  pub next_tick : Server → Server
  next_tick s = if s.host.app.nb_fastcount == 0 then record s { timer_ms = slow_tick } else record {
    host = record s.host { app = record s.host.app { nb_fastcount = s.host.app.nb_fastcount - 1 } };
    timer_ms = fast_tick;
  }

  -- `if (netifc_timer_expired())`; nothing is advertised during a transfer.
  pub on_tick : Bool → Server → Option Server
  unfolding next_tick advertise
  on_tick false s = some s
  on_tick true s =
      let t = next_tick s in
      if t.host.app.nb_active == 0
      then (do h ← advertise t.host; some (record t { host = h }))
      else some (record t { host = record t.host { app = record t.host.app { nb_active = 0 } } })

  -- The result is 1 when the boot command has arrived.
  abbrev pub boot_requested : Server → ℕ × Server
  boot_requested s =
      if s.host.app.nb_boot_now == 0
      then (0, s)
      else (1, record s { host = record s.host { app = record s.host.app { nb_boot_now = 0 } } })

  -- The rest of a pass while the interface is open.
  pub poll_online : PollEvent → Server → Option (ℕ × Server)
  unfolding go_online on_tick netifc_poll
  poll_online ev s = do
    online ← go_online s
    ticked ← on_tick ev.timer_expired online
    h ← netifc_poll snp (udp6_recv snp) ev ticked.host
    some (boot_requested (record ticked { host = h }))

  pub netboot_poll : PollEvent → Server → Option (ℕ × Server)
  unfolding poll_online
  netboot_poll ev s =
      if ev.active
      then poll_online ev s
      else if s.host.app.nb_online == 1
      then some (0, record s { host = record s.host { app = record s.host.app { nb_online = 0 } } })
      else some (0, s)

  -- Passes one after the other, as the loop of efi_main makes them while it has nothing to boot.
  pub polls : List PollEvent → Server → Option Server
  unfolding netboot_poll
  polls [] s = some s
  polls (ev ∷ evs) s = do r ← netboot_poll ev s; polls evs r.1
