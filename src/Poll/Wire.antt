-- ===== src/Poll/Wire.antt =====
-- A message of the boot protocol on the wire: from the frame that carries it to the frame that answers.
use gigaboot20x.Base.{
  ◌==◌, le→ltb, length, byte_at, ℕ, ◌+◌, ◌^◌, ◌≤◌, ◌<◌, ◌≡◌, refl, ap, ◌∙◌, ◌≢◌, true, false,
  Option, none, some, List, [], ◌∷◌, ◌++◌, arith,
}
use gigaboot20x.Netifc.{Frame, Netif, Snp, eth_get_buffer}
use gigaboot20x.Inet6.Packet.{Host, Datagram}
use gigaboot20x.Inet6.Recv.{eth_recv}
use gigaboot20x.Inet6.Recv.Udp.{sent_datagram, IsSendable, len}
use gigaboot20x.Inet6.Recv.Eth.{learned, eth_recv-udp6_frame}
use gigaboot20x.Inet6.Answer.{resolve_ip6-learned}
use gigaboot20x.Inet6.Deliver.{udp_sent, udp6_send-eth_recv}
use gigaboot20x.Netboot.{
  nb_server_port, NbMsg, nbmsg_at, nbmsg_bytes, Nb, Reply, handle, ack_of, transmit_ack, udp6_recv,
}
use gigaboot20x.Nbserver.Io.{nbmsg_at-nbmsg_bytes}
use gigaboot20x.Poll.{
  PollEvent, Server, netifc_poll, go_online, on_tick, boot_requested, poll_online, netboot_poll,
}

-- A pass in which one frame arrives and nothing else happens.
abbrev pub arrival : List ℕ → ℕ → PollEvent
arrival frame len = record {
  active = true;
  timer_expired = false;
  get_status = 0;
  txdone = λ frames. none;
  receive_irq = true;
  receive_status = 0;
  frame = frame;
  frame_size = len;
}

netboot_poll-arrival :
    (snp : Snp) (s : Server) (frame : List ℕ) (len : ℕ) (h : Host Nb)
    → s.host.app.nb_online ≡ 1
    → eth_recv snp (udp6_recv snp) s.host frame len ≡ some h
    → netboot_poll snp (arrival frame len) s ≡ some (boot_requested snp (record s { host = h }))
unfolding netboot_poll poll_online go_online on_tick netifc_poll
netboot_poll-arrival snp s frame len h online e =
    let up : (s.host.app.nb_online == 0) ≡ false = ground (arith, online) in rw (up, e)

-- A message of four 32-bit fields.
pub record IsMessage (m : NbMsg) : Type 0 where
  pub magic : m.magic < 2 ^ 32
  pub cookie : m.cookie < 2 ^ 32
  pub cmd : m.cmd < 2 ^ 32
  pub arg : m.arg < 2 ^ 32

udp6_recv-message :
    (snp : Snp) (bytes : List ℕ) (m : NbMsg) (src dst : List ℕ) (sport : ℕ) (h : Host Nb)
    → 16 ≤ length bytes
    → nbmsg_at bytes ≡ m
    → udp6_recv snp (sent_datagram bytes src dst nb_server_port sport) h
      ≡ transmit_ack snp (sent_datagram bytes src dst nb_server_port sport) m h (handle h.app m)
unfolding udp6_recv
udp6_recv-message snp bytes m src dst sport h long same = rw (le→ltb (length bytes) 16 long) (
    ap
      (λ m.
        transmit_ack snp (sent_datagram bytes src dst nb_server_port sport) m h (handle h.app m))
      same)

-- What is sent back, from the buffer at q.
abbrev pub answer_frame : Server → (q : ℕ) (mac ip : List ℕ) (sport : ℕ) → NbMsg → Reply → Frame
answer_frame s q mac ip sport m r =
    udp_sent s.host.ip q mac (nbmsg_bytes (ack_of m.cookie r)) ip sport nb_server_port

-- The server when the answer is on its way.
abbrev pub answered : Server → Netif → Frame → (mac ip : List ℕ) → Nb → Server
answered s net1 frame mac ip nb = record s {
  host = record {
    ip = record s.host.ip { rx_mac_addr = mac; rx_ip6_addr = ip };
    net = record net1 { in_flight = net1.in_flight ++ frame ∷ [] };
    app = record nb { nb_active = 1 };
  };
}

transmit_ack-answered :
    (snp : Snp) (s : Server) (m : NbMsg) (r : Reply) (mac ip after payload : List ℕ) (sport q : ℕ)
    (net1 : Netif) (nb : Nb)
    → IsSendable s.host.ip.ll_ip6_addr ip
        (nbmsg_bytes (ack_of m.cookie r))
        after
        sport
        nb_server_port
    → length mac ≡ 6
    → length s.host.ip.ll_mac_addr ≡ 6
    → byte_at ip 0 ≢ 0xFF
    → eth_get_buffer 1516 s.host.net ≡ (some q, net1)
    → snp.transmit net1.in_flight (answer_frame s q mac ip sport m r) ≡ 0
    → transmit_ack snp
        (sent_datagram payload ip s.host.ip.ll_ip6_addr nb_server_port sport)
        m
        (learned s.host mac ip)
        (nb, some r)
      ≡ some (answered s net1 (answer_frame s q mac ip sport m r) mac ip nb).host
unfolding transmit_ack
transmit_ack-answered snp s m r mac ip after payload sport q net1 nb v lm ls unicast got taken =
    let st = record s.host.ip { rx_mac_addr = mac; rx_ip6_addr = ip } in
    let peer = record s.host { ip = record s.host.ip { ll_ip6_addr = ip } } in
    let sent =
      udp6_send-eth_recv snp snp (udp6_recv snp) st s.host.net net1 q mac
        (nbmsg_bytes (ack_of m.cookie r)) ip after sport nb_server_port 78 peer v ls lm got
        (resolve_ip6-learned s.host.ip ip mac unicast) taken refl (omega arith) in
    rw sent.0

-- A message that a host sends to an online server, and that the server answers, on the wire: the
-- pass in which its frame arrives leaves the server in the state of `handle`, with a request to
-- boot taken out, and puts one frame in flight, in which the host receives exactly the
-- acknowledgement, from the server's port and address. The message has four 32-bit fields; the
-- addresses have 16 and 6 bytes, the host's is no multicast address, the ports have 16 bits, and
-- both datagrams fit a frame; the host has resolved the server's MAC address; the server has a free buffer, the firmware
-- takes the frame, and each receive buffer holds all of its frame. Bytes behind a frame do not matter.
pub netboot_poll-answers :
    {App : Type 0} (snp client_snp : Snp) (client_recv : Datagram → Host App → Option (Host App))
    (s : Server) (client : Host App) (m : NbMsg) (r : Reply) (dmac after after' : List ℕ)
    (sport len len' p q : ℕ) (net1 : Netif)
    → s.host.app.nb_online ≡ 1
    → IsMessage m
    → IsSendable client.ip.ll_ip6_addr s.host.ip.ll_ip6_addr
        (nbmsg_bytes m)
        after
        nb_server_port
        sport
    → IsSendable s.host.ip.ll_ip6_addr client.ip.ll_ip6_addr
        (nbmsg_bytes (ack_of m.cookie r))
        after'
        sport
        nb_server_port
    → length dmac ≡ 6
    → length client.ip.ll_mac_addr ≡ 6
    → length s.host.ip.ll_mac_addr ≡ 6
    → byte_at client.ip.ll_ip6_addr 0 ≢ 0xFF
    → length (nbmsg_bytes m) + 62 ≤ len
    → 78 ≤ len'
    → (handle s.host.app m).1 ≡ some r
    → eth_get_buffer 1516 s.host.net ≡ (some q, net1)
    → let mac = client.ip.ll_mac_addr in
      let ip = client.ip.ll_ip6_addr in
      let question =
        udp_sent client.ip p dmac (nbmsg_bytes m) s.host.ip.ll_ip6_addr nb_server_port sport in
      let answer = answer_frame s q mac ip sport m r in
      snp.transmit net1.in_flight answer ≡ 0
      → (netboot_poll snp (arrival (question.bytes ++ after) len) s
          ≡ some (boot_requested snp (answered s net1 answer mac ip (handle s.host.app m).0)))
        × (eth_recv client_snp client_recv client (answer.bytes ++ after') len'
            ≡ client_recv
                (sent_datagram
                  (nbmsg_bytes (ack_of m.cookie r))
                  s.host.ip.ll_ip6_addr
                  ip
                  sport
                  nb_server_port)
                (learned client s.host.ip.ll_mac_addr s.host.ip.ll_ip6_addr))
netboot_poll-answers snp client_snp client_recv s client m r dmac after after' sport len len' p q
      net1 online v there back ld lc ls unicast fits fits' e got taken =
    let mac = client.ip.ll_mac_addr in
    let ip = client.ip.ll_ip6_addr in
    let own = s.host.ip.ll_ip6_addr in
    let d = sent_datagram (nbmsg_bytes m) ip own nb_server_port sport in
    let received =
      eth_recv-udp6_frame snp (udp6_recv snp) dmac mac len s.host there ld lc refl fits
      ∙ udp6_recv-message snp (nbmsg_bytes m) m ip own sport (learned s.host mac ip) (omega arith)
          (nbmsg_at-nbmsg_bytes m v.magic v.cookie v.cmd v.arg)
      ∙ ap (λ o. transmit_ack snp d m (learned s.host mac ip) ((handle s.host.app m).0, o)) e
      ∙ transmit_ack-answered snp s m r mac ip after' (nbmsg_bytes m) sport q net1
          (handle s.host.app m).0 back lc ls unicast got taken in
    (
      netboot_poll-arrival snp s _ len _ online received,
      eth_recv-udp6_frame client_snp client_recv mac s.host.ip.ll_mac_addr len' client back lc ls
          refl (omega arith),
    )
