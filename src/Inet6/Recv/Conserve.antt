-- ===== src/Inet6/Recv/Conserve.antt =====
-- Receiving a frame, and the pool of transmit buffers.
use Prim.Native.Nat.{bit_and}
use gigaboot20x.Base.{
  ltb, ◌==◌, if◌then◌else◌, drop, byte_at, slice, u16_at, u32_at, ℕ, ◌-◌, ◌≡◌, refl, Bool, true,
  false, not, Option, some, List,
}
use gigaboot20x.Netifc.{Snp}
use gigaboot20x.Netifc.Pool.{IsConserved}
use gigaboot20x.Inet6.Checksum.{swap16}
use gigaboot20x.Inet6.Packet.{
  Host, udp_hdr_len, hdr_udp, hdr_icmp6, icmp6_echo_request, icmp6_ndp_n_solicit, ndp_n_hdr_size,
  Datagram,
}
use gigaboot20x.Inet6.Send.Conserve.{icmp6_send-Conserves}
use gigaboot20x.Inet6.Recv.{
  eth_recv, normalise_checksum, received_sum, ndp_advertise, icmp6_answer, icmp6_dispatch,
  icmp6_recv, deliver, recv_udp, stash, dispatch, accept, is_for_other,
}

module _ {App : Type 0} (all : List ℕ) (P : App → Type 0) where
  -- No transmit buffer is lost, and the application keeps its invariant.
  abbrev pub IsGood : Host App → Type 0
  IsGood h = IsConserved all h.net × P h.app

  -- A handler returns, and the host is good again.
  abbrev pub Keeps : Option (Host App) → Type 0
  Keeps run = (h : Host App) × (run ≡ some h) × IsGood h

  abbrev pub KeepsAll : (Datagram → Host App → Option (Host App)) → Type 0
  KeepsAll recv = (d : Datagram) (h : Host App) → IsGood h → Keeps (recv d h)

  keep : (h : Host App) → IsGood h → Keeps (some h)
  keep h v = (h, refl, v)

  pub keep_if :
      (test : Bool) (x y : Option (Host App)) → Keeps x → Keeps y → Keeps (if test then x else y)
  keep_if true x y a b = a
  keep_if false x y a b = b

  module _ (snp : Snp) where
    icmp6_answer-Keeps :
        (h : Host App) (message daddr : List ℕ)
        → IsGood h
        → Keeps (icmp6_answer snp h message daddr)
    unfolding icmp6_answer
    icmp6_answer-Keeps h message daddr v =
        let (r, net, e, v') = icmp6_send-Conserves snp h.ip message daddr v.0 in
        (record h { net = net }, rw e, (v', v.1))

    icmp6_dispatch-Keeps :
        (h : Host App) (ip : List ℕ) (len : ℕ) → IsGood h → Keeps (icmp6_dispatch snp h ip len)
    unfolding icmp6_dispatch
    icmp6_dispatch-Keeps h ip len v =
        keep_if (byte_at ip 40 == icmp6_ndp_n_solicit) _ _
          (keep_if (ltb len ndp_n_hdr_size) _ _ (keep h v) (
            keep_if (not (byte_at ip 41 == 0)) _ _ (keep h v) (
              keep_if _ _ _ (keep h v)
                (icmp6_answer-Keeps h (ndp_advertise h.ip) (slice 8 16 ip) v))))
          (keep_if (byte_at ip 40 == icmp6_echo_request) _ _ (icmp6_answer-Keeps h _ _ v)
            (keep h v))

    icmp6_recv-Keeps :
        (h : Host App) (ip : List ℕ) (len : ℕ) → IsGood h → Keeps (icmp6_recv snp h ip len)
    unfolding icmp6_recv
    icmp6_recv-Keeps h ip len v =
        keep_if (u16_at ip 42 == 0) _ _ (keep h v)
          (keep_if _ _ _ (keep h v) (icmp6_dispatch-Keeps h (normalise_checksum 42 ip) len v))

    module _ (udp6_recv : Datagram → Host App → Option (Host App))
        (keeps : KeepsAll udp6_recv) where
      deliver-Keeps :
          (h : Host App) (ip : List ℕ) (n : ℕ) → IsGood h → Keeps (deliver snp udp6_recv h ip n)
      unfolding deliver
      deliver-Keeps h ip n v = keeps _ h v

      recv_udp-Keeps :
          (h : Host App) (ip : List ℕ) (len : ℕ)
          → IsGood h
          → Keeps (recv_udp snp udp6_recv h ip len)
      unfolding recv_udp
      recv_udp-Keeps h ip len v =
          let ip' = normalise_checksum 46 ip in
          let n = swap16 (u16_at ip' 44) in
          keep_if (ltb len udp_hdr_len) _ _ (keep h v) (
            keep_if (u16_at ip 46 == 0) _ _ (keep h v) (
              keep_if (not (received_sum ip' hdr_udp len == 0xFFFF)) _ _ (keep h v) (
                keep_if (ltb n udp_hdr_len) _ _ (keep h v)
                  (keep_if (ltb len n) _ _ (keep h v) (deliver-Keeps h ip' n v)))))

      dispatch-Keeps :
          (h : Host App) (ip : List ℕ) (len next_header : ℕ)
          → IsGood h
          → Keeps (dispatch snp udp6_recv h ip len next_header)
      unfolding dispatch
      dispatch-Keeps h ip len next_header v =
          keep_if (next_header == hdr_icmp6) _ _ (icmp6_recv-Keeps h ip len v)
            (keep_if (next_header == hdr_udp) _ _ (recv_udp-Keeps h ip len v) (keep h v))

      accept-Keeps :
          (h : Host App) (frame : List ℕ) (len n : ℕ)
          → IsGood h
          → Keeps (accept snp udp6_recv h frame len n)
      unfolding accept
      accept-Keeps h frame len n v = keep_if (ltb len n) _ _ (keep h v) (
          keep_if (is_for_other h.ip frame) _ _ (keep h v)
            (dispatch-Keeps (stash snp udp6_recv h frame) (drop 14 frame) n (byte_at frame 20) v))

      -- If udp6_recv always returns and keeps every transmit buffer either free or in flight, and
      -- keeps an invariant of the application, then eth_recv does so too, on a frame of any length
      -- and content.
      pub eth_recv-Keeps :
          (h : Host App) (frame : List ℕ) (len : ℕ)
          → IsGood h
          → Keeps (eth_recv snp udp6_recv h frame len)
      unfolding eth_recv
      eth_recv-Keeps h frame len v = keep_if (ltb len 54) _ _ (keep h v) (
          keep_if (not (byte_at frame 12 == 0x86)) _ _ (keep h v) (
            keep_if (not (byte_at frame 13 == 0xDD)) _ _ (keep h v) (
              keep_if (not (bit_and (u32_at frame 14) 0xF0 == 0x60)) _ _ (keep h v)
                (accept-Keeps h frame (len - 54) (swap16 (u16_at frame 18)) v))))
