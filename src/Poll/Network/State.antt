-- ===== src/Poll/Network/State.antt =====
-- How the server at the far end of a network stands between two messages.
use mathlib.Core.Path.{subst}
use gigaboot20x.Base.{
  true, ◌==◌, if◌then◌else◌, IsBytes, byte_at, length, ℕ, ◌+◌, ◌^◌, ◌%◌, ◌≤◌, ◌<◌, ◌≡◌, ◌≢◌, sym,
  ap, ◌∙◌, some, List, [], ◌∷◌, ◌++◌, arith,
}
use gigaboot20x.Netifc.{Frame, Netif, Snp, eth_get_buffer, eth_put_buffer, buffer_of}
use gigaboot20x.Netifc.Pool.{IsPool, exhausted, lends, get_lem, put-IsPool, IsPool-in_flight, count}
use gigaboot20x.Inet6.Packet.{Ip6State}
use gigaboot20x.Inet6.Send.{udp6_max_payload}
use gigaboot20x.Netboot.{Nb, NbMsg, nbmsg_bytes, handle}
use gigaboot20x.Netboot.Flags.{flagged, handle-IsAlike}
use gigaboot20x.Poll.{Server, boot_requested, netboot_poll}
use gigaboot20x.Poll.Wire.{IsMessage, answered}
use gigaboot20x.Poll.Ticks.{boot_requested_lem}
use gigaboot20x.Poll.Network.{Remote, Link, giving_back}
use gigaboot20x.Poll.Network.Steps.{netboot_poll-giving_back}

-- A link to a boot host whose address is no multicast address and which has no datagram yet. The
-- firmware takes every frame, and there is a buffer at least.
pub record IsLink (snp : Snp) (link : Link) (all : List ℕ) : Type 0 where
  pub transmits : (frames : List Frame) (f : Frame) → snp.transmit frames f ≡ 0
  pub some_buffer : (a : ℕ) × (0 < count a all)
  pub silent : link.host.app ≡ []
  pub host_mac : length link.host.ip.ll_mac_addr ≡ 6
  pub server_mac : length link.server_mac ≡ 6
  pub host_ip : length link.host.ip.ll_ip6_addr ≡ 16
  pub host_ip_bytes : IsBytes link.host.ip.ll_ip6_addr
  pub host_unicast : byte_at link.host.ip.ll_ip6_addr 0 ≢ 0xFF
  pub port_fits : link.port < 2 ^ 16

-- A message that fits a frame.
pub record IsFit (m : NbMsg) : Type 0 where
  pub fields : IsMessage m
  pub bytes : IsBytes (nbmsg_bytes m)
  pub fits : length (nbmsg_bytes m) ≤ udp6_max_payload

-- The server is online at its address, all its buffers are free, and what it has received is the state `nb`.
pub record IsAt (all own : List ℕ) (w : Remote) (nb : Nb) : Type 0 where
  pub address : w.server.host.ip.ll_ip6_addr ≡ own
  pub ip : length w.server.host.ip.ll_ip6_addr ≡ 16
  pub ip_bytes : IsBytes w.server.host.ip.ll_ip6_addr
  pub mac : length w.server.host.ip.ll_mac_addr ≡ 6
  pub app : w.server.host.app ≡ flagged 1 w.server.host.app.nb_active 0 nb
  pub requested : w.requested ≡ nb.nb_boot_now
  pub pool : IsPool all [] w.server.host.net
  pub idle : w.server.host.net.in_flight ≡ []

module _ (snp : Snp) (link : Link) (all own : List ℕ) (up : IsLink snp link all) where
  -- There is a buffer for the answer.
  pub has_buffer :
      (w : Remote) (nb : Nb)
      → IsAt all own w nb
      → (q : ℕ) × (net1 : Netif) × (eth_get_buffer 1516 w.server.host.net ≡ (some q, net1))
        × IsPool all (buffer_of q ∷ []) net1
        × (net1.in_flight ≡ [])
        × (q % 2048 ≡ 16)
  has_buffer w nb v = elim (get_lem 1516 (omega arith) v.pool) [
    | exhausted e lent ↦ absurd (omega (arith, lent up.some_buffer.0, up.some_buffer.1))
    | lends q net1 e pool kept place ↦ (q, net1, e, pool, kept ∙ v.idle, place)
  ]

  -- The state after the two passes.
  settled_at : Remote → Server → Netif → Remote
  settled_at w t net =
      let b = boot_requested snp t in
      record {
        server = (boot_requested snp (record b.1 { host = record b.1.host { net = net } })).1;
        requested = if b.0 == 0 then w.requested else 1;
      }

  settled_at-IsAt :
      (w : Remote) (nb : Nb) (m : NbMsg) (mac ip : List ℕ) (frame : Frame) (net1 net : Netif)
      → IsAt all own w nb
      → IsPool all [] net
      → net.in_flight ≡ []
      → IsAt all own
          (settled_at w (answered w.server net1 frame mac ip (handle w.server.host.app m).0) net)
          (handle nb m).0
  unfolding settled_at
  settled_at-IsAt w nb m mac ip frame net1 net v pool idle =
      let s = w.server in
      let t = answered s net1 frame mac ip (handle s.host.app m).0 in
      let b = (boot_requested snp t).1 in
      let (answers, state, boots) = handle-IsAlike 1 s.host.app.nb_active nb m in
      let (ip1, nets1, app1, timer1) = boot_requested_lem snp t in
      let (ip2, nets2, app2, timer2) =
        boot_requested_lem snp (record b { host = record b.host { net = net } }) in
      let known = ip2 ∙ ip1 in
      let alike = ap (λ (a : Nb). (handle a m).0) v.app ∙ state in
      let app =
        app2
        ∙ ap (λ (a : Nb). flagged a.nb_online a.nb_active 0 a) app1
        ∙ ap (λ (a : Nb). flagged a.nb_online 1 0 a) alike in
      record {
        address = ap (λ (st : Ip6State). st.ll_ip6_addr) known ∙ v.address;
        ip = ap (λ (st : Ip6State). length st.ll_ip6_addr) known ∙ v.ip;
        ip_bytes = subst (λ (st : Ip6State). IsBytes st.ll_ip6_addr) (sym known) v.ip_bytes;
        mac = ap (λ (st : Ip6State). length st.ll_mac_addr) known ∙ v.mac;
        app =
            app ∙ ap (λ x. flagged 1 x 0 (handle nb m).0) (sym (ap (λ (a : Nb). a.nb_active) app));
        requested = ground (arith, boots, v.requested, ap (λ (a : Nb). a.nb_boot_now) alike);
        pool = subst (IsPool all []) (sym nets2) pool;
        idle = ap (λ (n : Netif). n.in_flight) nets2 ∙ idle;
      }

  -- The answer's buffer is given back.
  given_back :
      (q : ℕ) (net1 : Netif)
      → IsPool all (buffer_of q ∷ []) net1
      → q % 2048 ≡ 16
      → (net : Netif) × (eth_put_buffer (q + 2) (record net1 { in_flight = [] }) ≡ some net)
        × IsPool all [] net
        × (net.in_flight ≡ [])
  given_back q net1 pool place =
      let same : buffer_of q ≡ buffer_of (q + 2) = omega (arith, place) in
      put-IsPool (q + 2) (
        subst (λ b. IsPool all (b ∷ []) (record net1 { in_flight = [] })) same
          (IsPool-in_flight [] pool))

  -- The pass behind the one that puts the answer in flight.
  pub answer_passes :
      (w : Remote) (nb : Nb) (m : NbMsg) (mac ip : List ℕ) (q : ℕ) (bytes : List ℕ) (net1 : Netif)
      → IsAt all own w nb
      → IsPool all (buffer_of q ∷ []) net1
      → net1.in_flight ≡ []
      → q % 2048 ≡ 16
      → let frame : Frame = record { address = q + 2; bytes = bytes } in
        let t = answered w.server net1 frame mac ip (handle w.server.host.app m).0 in
        let b = boot_requested snp t in
        (s : Server) × (netboot_poll snp giving_back b.1 ≡ some (0, s))
        × (b.1.host.net.in_flight ≡ frame ∷ [])
        × IsAt all own
            (record { server = s; requested = if b.0 == 0 then w.requested else 1 })
            (handle nb m).0
  unfolding settled_at
  answer_passes w nb m mac ip q bytes net1 v pool idle place =
      let s = w.server in
      let frame : Frame = record { address = q + 2; bytes = bytes } in
      let t = answered s net1 frame mac ip (handle s.host.app m).0 in
      let b = boot_requested snp t in
      let (ip1, nets, app1, timer1) = boot_requested_lem snp t in
      let (net, put, free, none_flies) = given_back q net1 pool place in
      let (answers, state, boots) = handle-IsAlike 1 s.host.app.nb_active nb m in
      let flying : b.1.host.net.in_flight ≡ frame ∷ [] =
        ap (λ (n : Netif). n.in_flight) nets ∙ ap (λ l. l ++ frame ∷ []) idle in
      let put' : eth_put_buffer (q + 2) (record b.1.host.net { in_flight = [] }) ≡ some net =
        ap (λ (n : Netif). eth_put_buffer (q + 2) (record n { in_flight = [] })) nets ∙ put in
      let online : b.1.host.app.nb_online ≡ 1 =
        ap (λ (a : Nb). a.nb_online) app1
        ∙ ap (λ (a : Nb). (handle a m).0.nb_online) v.app
        ∙ ap (λ (a : Nb). a.nb_online) state in
      let calm : b.1.host.app.nb_boot_now ≡ 0 = ap (λ (a : Nb). a.nb_boot_now) app1 in
      let after = record b.1 { host = record b.1.host { net = net } } in
      let last : boot_requested snp after ≡ (0, (boot_requested snp after).1) =
        let still : (b.1.host.app.nb_boot_now == 0) ≡ true = ground (arith, calm) in rw still in
      (
        (boot_requested snp after).1,
        netboot_poll-giving_back snp b.1 frame net online flying put' ∙ ap some last,
        flying,
        settled_at-IsAt w nb m mac ip frame net1 net v free none_flies,
      )
