-- ===== src/Inet6/Examples.antt =====
-- Two hosts, and runs of the theorems about src/inet6.c on them.
use gigaboot20x.Base.{
  take, replicate, u16, ℕ, ◌+◌, ◌≡◌, refl, ◌≢◌, Option, some, List, [], ◌∷◌, ◌++◌, arith,
}
use gigaboot20x.Cstring.{pos, memcmp}
use gigaboot20x.Netifc.{Frame, Netif, eth_get_buffer}
use gigaboot20x.Netifc.Examples.{one_address, one_buffer, accepting, one_buffer-IsPool}
use gigaboot20x.Inet6.Addr.{ll6addr_from_mac, multicast_from_ip6}
use gigaboot20x.Inet6.Addr.Laws.{ll6addr_from_mac-ne}
use gigaboot20x.Inet6.Checksum.{checksum, ip6_checksum}
use gigaboot20x.Inet6.Checksum.Bits.{swap16-eq}
use gigaboot20x.Inet6.Checksum.Sum.{word_total, end_around, checksum_lem}
use gigaboot20x.Inet6.Packet.{hdr_udp, Ip6State, Host, Datagram}
use gigaboot20x.Inet6.Send.{resolve_ip6, udp6_send}
use gigaboot20x.Inet6.Recv.{normalise_checksum, received_sum, eth_recv}
use gigaboot20x.Inet6.Recv.Verify.{memory, received_sum-field}
use gigaboot20x.Inet6.Recv.Udp.{sent_datagram, IsSendable}
use gigaboot20x.Inet6.Recv.Eth.{learned}
use gigaboot20x.Inet6.Recv.Conserve.{Keeps, eth_recv-Keeps}
use gigaboot20x.Base.{inr}
use gigaboot20x.Inet6.Recv.Icmp.{IsIcmp, icmp_packet, icmp_message}
use gigaboot20x.Inet6.Recv.Reply.{advertised}
use gigaboot20x.Inet6.Answer.{icmp_sent, eth_recv-answers}
use gigaboot20x.Inet6.Send.{icmp6_frame}
use gigaboot20x.Inet6.Deliver.{multicast-length, udp_sent, udp6_send-eth_recv}

abbrev pub mac_a : List ℕ
mac_a = 2 ∷ 0 ∷ 0 ∷ 0 ∷ 0 ∷ 1 ∷ []

abbrev pub mac_b : List ℕ
mac_b = 2 ∷ 0 ∷ 0 ∷ 0 ∷ 0 ∷ 2 ∷ []

abbrev pub link_local : ℕ → List ℕ
link_local n = 0xFE ∷ 0x80 ∷ 0 ∷ 0 ∷ 0 ∷ 0 ∷ 0 ∷ 0 ∷ 0 ∷ 0 ∷ 0 ∷ 0xFF ∷ 0xFE ∷ 0 ∷ 0 ∷ n ∷ []

abbrev solicited : ℕ → List ℕ
solicited n = 0xFF ∷ 2 ∷ 0 ∷ 0 ∷ 0 ∷ 0 ∷ 0 ∷ 0 ∷ 0 ∷ 0 ∷ 0 ∷ 1 ∷ 0xFF ∷ 0 ∷ 0 ∷ n ∷ []

-- Host 1 has heard of host 2.
abbrev pub stack_a : Ip6State
stack_a = record {
  ll_mac_addr = mac_a;
  ll_ip6_addr = link_local 1;
  snm_mac_addr = multicast_from_ip6 (solicited 1);
  snm_ip6_addr = solicited 1;
  rx_mac_addr = mac_b;
  rx_ip6_addr = link_local 2;
}

abbrev pub stack_b : Ip6State
stack_b = record {
  ll_mac_addr = mac_b;
  ll_ip6_addr = link_local 2;
  snm_mac_addr = multicast_from_ip6 (solicited 2);
  snm_ip6_addr = solicited 2;
  rx_mac_addr = mac_b;
  rx_ip6_addr = link_local 2;
}

-- An application that keeps what it has received.
abbrev pub host_b : Host (List Datagram)
host_b = record { ip = stack_b; net = one_buffer; app = [] }

abbrev pub keep_datagram : Datagram → Host (List Datagram) → Option (Host (List Datagram))
keep_datagram d h = some (record h { app = d ∷ h.app })

abbrev hello : List ℕ
hello = 104 ∷ 105 ∷ 33 ∷ []

abbrev pub lent_buffer : Netif
lent_buffer = (eth_get_buffer 1516 one_buffer).1

pub lends_buffer : eth_get_buffer 1516 one_buffer ≡ (some 2064, lent_buffer)
unfolding eth_get_buffer
lends_buffer = refl

knows_peer : resolve_ip6 stack_a (link_local 2) ≡ some mac_b
unfolding resolve_ip6 memcmp
knows_peer = refl

hello-IsSendable : IsSendable (link_local 1) (link_local 2) hello (0 ∷ 0 ∷ []) 33330 33331
hello-IsSendable = record {
  src_length = refl;
  dst_length = refl;
  src_bytes = ground arith;
  dst_bytes = ground arith;
  payload_bytes = ground arith;
  after_bytes = ground arith;
  payload_fits = omega arith;
  dport_fits = omega arith;
  sport_fits = omega arith;
}

abbrev hello_frame : Frame
hello_frame = udp_sent stack_a 2064 mac_b hello (link_local 2) 33330 33331

udp6_send-eth_recv_example :
    (udp6_send accepting stack_a hello (link_local 2) 33330 33331 one_buffer
      ≡ some (pos 0, record lent_buffer { in_flight = lent_buffer.in_flight ++ hello_frame ∷ [] }))
    × (eth_recv accepting keep_datagram host_b (hello_frame.bytes ++ 0 ∷ 0 ∷ []) 67
        ≡ keep_datagram
            (sent_datagram hello (link_local 1) (link_local 2) 33330 33331)
            (learned host_b mac_a (link_local 1)))
udp6_send-eth_recv_example =
    udp6_send-eth_recv accepting accepting keep_datagram stack_a one_buffer lent_buffer 2064 mac_b
      hello (link_local 2) (0 ∷ 0 ∷ []) 33330 33331 67 host_b hello-IsSendable refl refl
      lends_buffer knows_peer refl refl (omega arith)

-- Host 1 asks for the MAC address of host 2, and gives its own.
abbrev solicitation : List ℕ
solicitation = 0 ∷ 0 ∷ 0 ∷ 0 ∷ (link_local 2 ++ 1 ∷ 1 ∷ mac_a)

abbrev advertisement : List ℕ
advertisement = icmp_message 136 0 (0x60 ∷ 0 ∷ 0 ∷ 0 ∷ link_local 2 ++ 2 ∷ 1 ∷ mac_b)

solicitation-IsIcmp : IsIcmp (link_local 1) (solicited 2) 135 0 solicitation (0 ∷ 0 ∷ [])
solicitation-IsIcmp = record {
  src_length = refl;
  dst_length = refl;
  src_bytes = ground arith;
  dst_bytes = ground arith;
  t_byte = omega arith;
  c_byte = omega arith;
  rest_bytes = ground arith;
  after_bytes = ground arith;
  rest_fits = omega arith;
}

eth_recv-answers_example :
    eth_recv accepting keep_datagram host_b
      (icmp6_frame
          (icmp_packet (multicast_from_ip6 (solicited 2)) mac_a (link_local 1) (solicited 2) 32)
          (icmp_message 135 0 solicitation)
        ++ 0 ∷ 0 ∷ [])
      88
    ≡ some (record (learned host_b mac_a (link_local 1)) {
      net = record lent_buffer {
        in_flight =
            lent_buffer.in_flight ++ icmp_sent stack_b 2064 mac_a advertisement (link_local 1) ∷ [];
      };
    })
eth_recv-answers_example =
    eth_recv-answers accepting keep_datagram host_b (multicast_from_ip6 (solicited 2)) mac_a
      (link_local 1) (solicited 2) (0 ∷ 0 ∷ []) 88 2064 lent_buffer
      (advertised 0 0 0 0 (1 ∷ 1 ∷ mac_a)) solicitation-IsIcmp (inr refl) refl refl
      (multicast-length (solicited 2)) refl (ground arith) (omega arith) lends_buffer refl

checksum_lem_example : checksum hello 3 65535 ≡ end_around (65535 + word_total (take 3 hello))
checksum_lem_example =
    checksum_lem hello 3 65535 (omega arith) (ground arith) (omega arith) (omega arith)

ll6addr_from_mac-ne_example : ll6addr_from_mac mac_a ≢ ll6addr_from_mac mac_b
ll6addr_from_mac-ne_example =
    ll6addr_from_mac-ne mac_a mac_b refl refl (ground arith) (ground arith) (ground arith)

eth_recv-Keeps_example :
    Keeps one_address
      (λ (app : List Datagram). Unit)
      (eth_recv accepting keep_datagram host_b hello_frame.bytes 65)
eth_recv-Keeps_example =
    eth_recv-Keeps one_address (λ (app : List Datagram). Unit) accepting keep_datagram
      (λ d h v. (record h { app = d ∷ h.app }, refl, v)) host_b hello_frame.bytes 65
      (one_buffer-IsPool, tt)

abbrev before_checksum : List ℕ
before_checksum = replicate 38 1

-- A UDP packet from its IP header on, with a checksum field.
abbrev packet : ℕ → List ℕ → List ℕ
packet c after = memory 0x60 0 0 0 0 11 17 255 before_checksum hello c after

received_sum-field_example :
    received_sum
      (normalise_checksum 46 (packet (u16 (ip6_checksum (packet 0 []) hdr_udp 11)) (9 ∷ [])))
      hdr_udp
      11
    ≡ 0xFFFF
received_sum-field_example =
    received_sum-field 0x60 0 0 0 0 11 17 255 before_checksum hello (9 ∷ []) refl (omega arith)
      (omega arith) (omega arith) (omega arith) (ground arith) (ground arith) (ground arith) hdr_udp
      11 refl (omega arith) (omega (arith, swap16-eq 17 (omega arith))) 46 refl
