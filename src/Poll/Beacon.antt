-- ===== src/Poll/Beacon.antt =====
-- The advertisement that an idle server puts on the wire.
use gigaboot20x.Base.{
  ◌==◌, if◌then◌else◌, length, drop, slice, u16_at, All, ℕ, ◌+◌, ◌≡◌, refl, ap, ◌∙◌, true, some,
  List, [], ◌∷◌, arith,
}
use gigaboot20x.Netifc.{Netif, Snp, eth_get_buffer}
use gigaboot20x.Inet6.Addr.{ll6addr_from_mac, multicast_from_ip6, ip6_ll_all_nodes}
use gigaboot20x.Inet6.Checksum.{swap16}
use gigaboot20x.Inet6.Packet.{ip6_hdr_bytes, udp_hdr_bytes}
use gigaboot20x.Inet6.Send.{udp6_frame, udp6_datagram}
use gigaboot20x.Inet6.Recv.Eth.{udp_packet}
use gigaboot20x.Inet6.Recv.Udp.{u16_bytes}
use gigaboot20x.Netboot.{nbmsg_bytes, nb_advert_port, nb_server_port}
use gigaboot20x.Nbserver.Main.{is_beacon}
use gigaboot20x.Nbserver.Main.Beacons.{advertise_message-is_beacon}
use gigaboot20x.Poll.{PollEvent, Server, advertise_message, polls}
use gigaboot20x.Poll.Ticks.{beacon_frame, IsTick, IsAdvertised, polls-needed}

-- What a receiver reads out of the frame: the sender, the port and the message.
abbrev pub IsCarried : (frame ip message : List ℕ) (port : ℕ) → Type 0
IsCarried frame ip message port =
    (slice 22 16 frame ≡ ip) × (swap16 (u16_at frame 56) ≡ port) × (drop 62 frame ≡ message)

udp6_frame-IsCarried :
    (mac ip message : List ℕ) (sport : ℕ)
    → length mac ≡ 6
    → length ip ≡ 16
    → IsCarried
        (udp6_frame
          (udp_packet
            (multicast_from_ip6 ip6_ll_all_nodes)
            mac
            ip
            ip6_ll_all_nodes
            (length message + 8))
          message
          nb_advert_port
          sport)
        ip
        message
        nb_advert_port
unfolding udp6_frame udp6_datagram ip6_hdr_bytes udp_hdr_bytes multicast_from_ip6
udp6_frame-IsCarried (m0 ∷ m1 ∷ m2 ∷ m3 ∷ m4 ∷ m5 ∷ [])
      (s0 ∷ s1 ∷ s2 ∷ s3 ∷ s4 ∷ s5 ∷ s6 ∷ s7 ∷ s8 ∷ s9 ∷ s10 ∷ s11 ∷ s12 ∷ s13 ∷ s14 ∷ s15 ∷ [])
      message sport lm ll =
    (refl, u16_bytes nb_advert_port (omega arith), refl)
udp6_frame-IsCarried _ _ message sport lm ll = absurd (omega arith)

length-ll6addr_from_mac : (mac : List ℕ) → length (ll6addr_from_mac mac) ≡ 16
unfolding ll6addr_from_mac
length-ll6addr_from_mac mac = refl

module _ (snp : Snp) where
  -- An online server with a free buffer advertises itself by its second tick, and by its first
  -- unless a transfer was running: after one pass, or two where nb_active is set, in which the
  -- timer has expired and the interface reports nothing (GetStatus fails, or it gives back no frame
  -- and none is received), exactly one frame has been put in flight.
  -- A receiver reads out of it the server's link-local address, the boot host's port, and a message
  -- that the boot host takes for a beacon of that address. The timer is at 100 ms while
  -- nb_fastcount covers the ticks, and at 1000 ms after them. The addresses are those of ip6_init, and
  -- the firmware takes the frame.
  pub polls-advertises :
      (evs : List PollEvent) (s : Server) (net1 : Netif) (p : ℕ)
      → All IsTick evs
      → length evs ≡ (if s.host.app.nb_active == 0 then 1 else 2)
      → s.host.app.nb_online ≡ 1
      → length s.host.ip.ll_mac_addr ≡ 6
      → s.host.ip.ll_ip6_addr ≡ ll6addr_from_mac s.host.ip.ll_mac_addr
      → eth_get_buffer 1516 s.host.net ≡ (some p, net1)
      → snp.transmit net1.in_flight (beacon_frame s.host.ip p) ≡ 0
      → ((s' : Server) × (polls snp evs s ≡ some s') × IsAdvertised s net1 p (length evs) s')
        × IsCarried
            (beacon_frame s.host.ip p).bytes
            (ll6addr_from_mac s.host.ip.ll_mac_addr)
            (nbmsg_bytes advertise_message)
            nb_advert_port
        × (is_beacon (ll6addr_from_mac s.host.ip.ll_mac_addr) (nbmsg_bytes advertise_message)
            ≡ true)
  polls-advertises evs s net1 p ticks count online lm own got taken =
      let message = nbmsg_bytes advertise_message in
      let (sender, port, body) =
        udp6_frame-IsCarried s.host.ip.ll_mac_addr s.host.ip.ll_ip6_addr message nb_server_port lm
          (ap length own ∙ length-ll6addr_from_mac s.host.ip.ll_mac_addr) in
      (
        polls-needed snp evs s net1 p ticks count online got taken,
        (sender ∙ own, port, body),
        advertise_message-is_beacon s.host.ip.ll_mac_addr,
      )
