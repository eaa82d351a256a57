-- ===== src/Inet6/Deliver.antt =====
-- From udp6_send on one host to udp6_recv on another.
use gigaboot20x.Base.{
  ◌==◌, le→ltb, length, ℕ, ◌+◌, ◌≤◌, ◌≡◌, refl, ap, Option, some, List, [], ◌∷◌, ◌++◌, arith,
}
use gigaboot20x.Cstring.{pos}
use gigaboot20x.Netifc.{Netif, Frame, Snp, eth_get_buffer, eth_send}
use gigaboot20x.Inet6.Addr.{multicast_from_ip6}
use gigaboot20x.Inet6.Packet.{Host, Ip6State, Datagram}
use gigaboot20x.Inet6.Send.{
  udp6_send, udp6_max_payload, resolve_ip6, ip6_setup, udp6_frame, fill_and_send,
}
use gigaboot20x.Inet6.Recv.{eth_recv}
use gigaboot20x.Inet6.Recv.Udp.{IsSendable, sent_datagram, len}
use gigaboot20x.Inet6.Recv.Eth.{udp_packet, learned, eth_recv-udp6_frame}

pub multicast-length : (ip : List ℕ) → length (multicast_from_ip6 ip) ≡ 6
unfolding multicast_from_ip6
multicast-length ip = refl

resolve_ip6-length :
    (st : Ip6State) (ip dmac : List ℕ)
    → length st.rx_mac_addr ≡ 6
    → resolve_ip6 st ip ≡ some dmac
    → length dmac ≡ 6
unfolding resolve_ip6
resolve_ip6-length st ip dmac l e = ground (arith, multicast-length ip)

-- The packet that a stack builds for a payload, handed over from `p + 2` on.
abbrev pub udp_sent : Ip6State → (p : ℕ) → (dmac payload daddr : List ℕ) (dport sport : ℕ) → Frame
udp_sent st p dmac payload daddr dport sport = record {
  address = p + 2;
  bytes =
      udp6_frame (udp_packet dmac st.ll_mac_addr st.ll_ip6_addr daddr (length payload + 8)) payload
        dport sport;
}

-- A datagram that fits is handed to the firmware.
pub udp6_send-sent :
    (snp : Snp) (st : Ip6State) (net net1 : Netif) (p : ℕ) (dmac payload daddr : List ℕ)
    (dport sport : ℕ)
    → length payload ≤ udp6_max_payload
    → eth_get_buffer 1516 net ≡ (some p, net1)
    → resolve_ip6 st daddr ≡ some dmac
    → snp.transmit net1.in_flight (udp_sent st p dmac payload daddr dport sport) ≡ 0
    → udp6_send snp st payload daddr dport sport net
      ≡ some (
        pos 0,
        record net1 {
          in_flight = net1.in_flight ++ udp_sent st p dmac payload daddr dport sport ∷ [];
        },
      )
unfolding udp6_send fill_and_send ip6_setup eth_send
udp6_send-sent snp st net net1 p dmac payload daddr dport sport fits got route taken =
    rw (got, le→ltb udp6_max_payload (length payload) fits, route, ap (λ r. r == 0) taken)

-- With a free buffer, a resolved destination, a payload of at most 1452 bytes, ports of 16 bits,
-- addresses of 16 and 6 bytes, and firmware that takes the frame, udp6_send returns 0 and puts one
-- frame in flight. When a host whose link-local address is the destination finds that frame at the
-- start of its receive buffer, with any bytes behind it and a size of at least that of the frame,
-- its eth_recv calls udp6_recv with the same payload, addresses and ports, having learned the
-- sender's MAC and IP address.
pub udp6_send-eth_recv :
    {App : Type 0} (snp peer_snp : Snp) (udp6_recv : Datagram → Host App → Option (Host App))
    (st : Ip6State) (net net1 : Netif) (p : ℕ) (dmac payload daddr after : List ℕ)
    (dport sport len : ℕ) (peer : Host App)
    → IsSendable st.ll_ip6_addr daddr payload after dport sport
    → length st.ll_mac_addr ≡ 6
    → length st.rx_mac_addr ≡ 6
    → eth_get_buffer 1516 net ≡ (some p, net1)
    → resolve_ip6 st daddr ≡ some dmac
    → snp.transmit net1.in_flight (udp_sent st p dmac payload daddr dport sport) ≡ 0
    → peer.ip.ll_ip6_addr ≡ daddr
    → length payload + 62 ≤ len
    → (udp6_send snp st payload daddr dport sport net
        ≡ some (
          pos 0,
          record net1 {
            in_flight = net1.in_flight ++ udp_sent st p dmac payload daddr dport sport ∷ [];
          },
        ))
      × (eth_recv peer_snp udp6_recv peer
            ((udp_sent st p dmac payload daddr dport sport).bytes ++ after)
            len
          ≡ udp6_recv
              (sent_datagram payload st.ll_ip6_addr daddr dport sport)
              (learned peer st.ll_mac_addr st.ll_ip6_addr))
udp6_send-eth_recv snp peer_snp udp6_recv st net net1 p dmac payload daddr after dport sport len
      peer v lm lr got route taken own fits =
    (
      udp6_send-sent snp st net net1 p dmac payload daddr dport sport v.payload_fits got route
          taken,
      eth_recv-udp6_frame peer_snp udp6_recv dmac st.ll_mac_addr len peer v
          (resolve_ip6-length st daddr dmac lr route) lm own fits,
    )
