-- ===== src/Inet6/Answer.antt =====
-- From an ICMP message to the frame that icmp6_recv answers it with.
use gigaboot20x.Base.{
  ◌==◌, le→ltb, ne→==, byte_at, length, ℕ, ◌+◌, ◌≤◌, ◌≡◌, ◌≢◌, refl, ap, ◌∙◌, Option, some, List,
  [], ◌∷◌, ◌++◌, arith,
}
use gigaboot20x.Cstring.Laws.{memcmp_refl}
use gigaboot20x.Netifc.{Netif, Frame, Snp, eth_get_buffer, eth_send}
use gigaboot20x.Inet6.Packet.{Host, Ip6State, Datagram}
use gigaboot20x.Inet6.Send.{
  icmp6_send, icmp6_max_payload, resolve_ip6, ip6_setup, icmp6_frame, fill_and_send,
}
use gigaboot20x.Inet6.Recv.{eth_recv, icmp6_answer, icmp6_recv, dispatch}
use gigaboot20x.Inet6.Recv.Verify.{normalised}
use gigaboot20x.Inet6.Recv.Eth.{learned, accepts, IsOwn}
use gigaboot20x.Inet6.Recv.Udp.{len_bytes}
use gigaboot20x.Base.{◌%◌, ◌/◌, u16}
use gigaboot20x.Inet6.Checksum.{swap16}
use gigaboot20x.Inet6.Recv.Icmp.{
  IsIcmp, icmp_packet, icmp_message, icmp_field, icmp6_recv-memory, icmp6_frame-memory,
}
use gigaboot20x.Inet6.Recv.Reply.{IsAnswer, answer-length, icmp6_dispatch-IsAnswer}

-- The host that has just been heard of is found.
pub resolve_ip6-learned :
    (st : Ip6State) (ip mac : List ℕ)
    → byte_at ip 0 ≢ 0xFF
    → resolve_ip6 (record st { rx_mac_addr = mac; rx_ip6_addr = ip }) ip ≡ some mac
unfolding resolve_ip6
resolve_ip6-learned st ip mac unicast = rw (ne→== (byte_at ip 0) 0xFF unicast, memcmp_refl ip 16)

-- The packet that a stack builds for a message, handed over from `p + 2` on.
abbrev pub icmp_sent : Ip6State → (p : ℕ) → (dmac message daddr : List ℕ) → Frame
icmp_sent st p dmac message daddr = record {
  address = p + 2;
  bytes =
      icmp6_frame (icmp_packet dmac st.ll_mac_addr st.ll_ip6_addr daddr (length message)) message;
}

module _ {App : Type 0} (snp : Snp) where
  -- The answer to the host that has just been heard of.
  icmp6_answer-learned :
      (h : Host App) (mac ip message : List ℕ) (p : ℕ) (net1 : Netif)
      → length message ≤ icmp6_max_payload
      → byte_at ip 0 ≢ 0xFF
      → eth_get_buffer 1516 h.net ≡ (some p, net1)
      → snp.transmit net1.in_flight (icmp_sent h.ip p mac message ip) ≡ 0
      → icmp6_answer snp (learned h mac ip) message ip
        ≡ some (record (learned h mac ip) {
          net = record net1 { in_flight = net1.in_flight ++ icmp_sent h.ip p mac message ip ∷ [] };
        })
  unfolding icmp6_answer icmp6_send fill_and_send ip6_setup eth_send
  icmp6_answer-learned h mac ip message p net1 fits unicast got taken = rw (
    got,
    le→ltb icmp6_max_payload (length message) fits,
    resolve_ip6-learned h.ip ip mac unicast,
    ap (λ r. r == 0) taken,
  )

  dispatch-icmp :
      (udp6_recv : Datagram → Host App → Option (Host App)) (h : Host App) (ip : List ℕ) (len : ℕ)
      → dispatch snp udp6_recv h ip len 58 ≡ icmp6_recv snp h ip len
  unfolding dispatch
  dispatch-icmp udp6_recv h ip len = refl

  -- A frame that icmp6_send builds for this host's own or solicited-node address, with an echo
  -- request or with a solicitation of its address, and any bytes behind it in the receive buffer:
  -- eth_recv puts exactly the answer in flight, to the sender's MAC and IP address, in the frame
  -- that icmp6_send builds for it, and the sender is learned.
  -- The addresses have 16 and 6 bytes, the sender's is no multicast address, the message fits a
  -- frame, the size covers the frame, the host has a free buffer and the firmware takes the frame.
  pub eth_recv-answers :
      (udp6_recv : Datagram → Host App → Option (Host App)) (h : Host App)
      (dmac smac src dst after : List ℕ) {t c : ℕ} {rest reply : List ℕ} (len p : ℕ) (net1 : Netif)
      → IsAnswer h.ip.ll_ip6_addr h.ip.ll_mac_addr t c rest reply
      → IsIcmp src dst t c rest after
      → IsOwn h.ip dst
      → length h.ip.ll_ip6_addr ≡ 16
      → length h.ip.ll_mac_addr ≡ 6
      → length dmac ≡ 6
      → length smac ≡ 6
      → byte_at src 0 ≢ 0xFF
      → length rest + 58 ≤ len
      → eth_get_buffer 1516 h.net ≡ (some p, net1)
      → snp.transmit net1.in_flight (icmp_sent h.ip p smac reply src) ≡ 0
      → eth_recv snp udp6_recv h
          (icmp6_frame
              (icmp_packet dmac smac src dst (length (icmp_message t c rest)))
              (icmp_message t c rest)
            ++ after)
          len
        ≡ some (record (learned h smac src) {
          net = record net1 { in_flight = net1.in_flight ++ icmp_sent h.ip p smac reply src ∷ [] };
        })
  eth_recv-answers udp6_recv h dmac smac src dst after {t} {c} {rest} {reply} len p net1 answer v
        own lo lm ld ls unicast fits got taken =
      let n = length (icmp_message t c rest) in
      ap (λ m. eth_recv snp udp6_recv h m len)
        (icmp6_frame-memory dmac smac src dst t c rest after v)
      ∙ accepts snp udp6_recv dmac smac src dst (t ∷ c ∷ []) rest after (swap16 (u16 n) % 256)
          (swap16 (u16 n) / 256 % 256) 58 255 (icmp_field v) n len h ld ls v.src_length v.dst_length
          own (len_bytes n (omega (arith, v.rest_fits))) (omega arith)
      ∙ dispatch-icmp udp6_recv (learned h smac src) _ n
      ∙ icmp6_recv-memory v snp (learned h smac src)
      ∙ icmp6_dispatch-IsAnswer snp (learned h smac src) src dst after (normalised (icmp_field v))
          answer v.src_length v.dst_length lo
      ∙ icmp6_answer-learned h smac src reply p net1 (answer-length answer lo lm v.rest_fits)
          unicast got taken
