-- ===== src/Inet6/Recv/Eth.antt =====
-- From the frame in the receive buffer to the call of udp6_recv.
use gigaboot20x.Base.{
  le→ltb, length, length-append, take-append, take-length, ℕ, ◌+◌, ◌-◌, ◌≤◌, ◌<◌, ◌≡◌, refl, ap,
  ◌∙◌, Option, List, [], ◌∷◌, ◌++◌, append_assoc, arith,
}
use gigaboot20x.Cstring.{pos, memcmp, is_zero}
use gigaboot20x.Cstring.Laws.{memcmp_iff}
use gigaboot20x.Netifc.{Snp}
use gigaboot20x.Inet6.Packet.{Host, Ip6State, Ip6Pkt, Datagram}
use gigaboot20x.Inet6.Send.{udp6_datagram, udp6_frame}
use gigaboot20x.Inet6.Addr.{ip6_addr_len}
use gigaboot20x.Base.{◌%◌, ◌*◌, ◌/◌, u16, le16, ◌⊎◌, inl, inr, not, ◌&&◌, Bool, false, true}
use gigaboot20x.Inet6.Checksum.{swap16}
use gigaboot20x.Inet6.Recv.{eth_recv, recv_udp, dispatch}
use gigaboot20x.Inet6.Recv.Verify.{memory}
use gigaboot20x.Inet6.Recv.Udp.{
  udp_memory, udp_hdr, sent_datagram, len_bytes, IsSendable, len, sent_field, recv_udp-memory,
  udp6_datagram-memory,
}

abbrev pub udp_packet : (dmac smac src dst : List ℕ) (len : ℕ) → Ip6Pkt
udp_packet dmac smac src dst len = record {
  eth = dmac ++ smac ++ 0x86 ∷ 0xDD ∷ [];
  ip6 = udp_hdr src dst len;
}

memcmp-own :
    (a dst rest : List ℕ) → a ≡ dst → length dst ≡ 16 → memcmp a (dst ++ rest) ip6_addr_len ≡ pos 0
memcmp-own a dst rest e len =
    (memcmp_iff a (dst ++ rest) 16 (rw e (omega (arith, len)))
        (omega (arith, length-append dst rest))).1
      (rw (e, take-append dst rest 16 len) (take-length dst 16 (omega arith)))

-- A packet for the link-local or the solicited-node address.
abbrev pub IsOwn : Ip6State → List ℕ → Type 0
IsOwn st dst = (st.ll_ip6_addr ≡ dst) ⊎ (st.snm_ip6_addr ≡ dst)

and_false : (b : Bool) → (b && false) ≡ false
and_false true = refl
and_false false = refl

not-for-other :
    (st : Ip6State) (dst rest : List ℕ)
    → IsOwn st dst
    → length dst ≡ 16
    → (not (is_zero (memcmp st.ll_ip6_addr (dst ++ rest) ip6_addr_len))
        && not (is_zero (memcmp st.snm_ip6_addr (dst ++ rest) ip6_addr_len)))
      ≡ false
not-for-other st dst rest (inl e) len = rw (memcmp-own st.ll_ip6_addr dst rest e len)
not-for-other st dst rest (inr e) len =
    rw (memcmp-own st.snm_ip6_addr dst rest e len)
      (and_false (not (is_zero (memcmp st.ll_ip6_addr (dst ++ rest) ip6_addr_len))))

module _ {App : Type 0} where
  -- A host that has seen a packet from these addresses.
  abbrev pub learned : Host App → List ℕ → List ℕ → Host App
  learned h mac ip = record h { ip = record h.ip { rx_mac_addr = mac; rx_ip6_addr = ip } }

  module _ (snp : Snp) (udp6_recv : Datagram → Host App → Option (Host App)) where
    -- An IP packet for the own address is dispatched, whatever is behind its addresses.
    pub accepts :
        (dmac smac src dst more post after : List ℕ) (l0 l1 next hop c n len : ℕ) (h : Host App)
        → length dmac ≡ 6
        → length smac ≡ 6
        → length src ≡ 16
        → length dst ≡ 16
        → IsOwn h.ip dst
        → swap16 (l0 + 256 * l1) ≡ n
        → n + 54 ≤ len
        → eth_recv snp udp6_recv h
            (dmac
              ++ smac
              ++ 0x86 ∷ 0xDD ∷ []
              ++ memory 0x60 0 0 0 l0 l1 next hop (src ++ dst ++ more) post c after)
            len
          ≡ dispatch snp udp6_recv
              (learned h smac src)
              (memory 0x60 0 0 0 l0 l1 next hop (src ++ dst ++ more) post c after)
              n
              next
    unfolding eth_recv
    accepts (m0 ∷ m1 ∷ m2 ∷ m3 ∷ m4 ∷ m5 ∷ []) (n0 ∷ n1 ∷ n2 ∷ n3 ∷ n4 ∷ n5 ∷ [])
          (s0 ∷ s1 ∷ s2 ∷ s3 ∷ s4 ∷ s5 ∷ s6 ∷ s7 ∷ s8 ∷ s9 ∷ s10 ∷ s11 ∷ s12 ∷ s13 ∷ s14 ∷ s15 ∷ [])
          (d0 ∷ d1 ∷ d2 ∷ d3 ∷ d4 ∷ d5 ∷ d6 ∷ d7 ∷ d8 ∷ d9 ∷ d10 ∷ d11 ∷ d12 ∷ d13 ∷ d14 ∷ d15 ∷ [])
          more post after l0 l1 next hop c n len h lm ln ls ld own announced fits =
        rw (
          le→ltb len 54 (omega arith),
          announced,
          le→ltb (len - 54) n (omega arith),
          not-for-other h.ip
              (d0 ∷ d1 ∷ d2 ∷ d3 ∷ d4 ∷ d5 ∷ d6 ∷ d7 ∷ d8 ∷ d9 ∷ d10 ∷ d11 ∷ d12 ∷ d13 ∷ d14 ∷ d15
                ∷ [])
              ((more ++ c % 256 ∷ c / 256 % 256 ∷ post) ++ after) own refl,
        )
    accepts _ _ _ _ more post after l0 l1 next hop c n len h lm ln ls ld own announced fits =
        absurd (omega arith)

    -- With the length that ip6_setup announces, a UDP packet reaches recv_udp.
    accepts_udp :
        (dmac smac src dst payload after : List ℕ) (dport sport c len : ℕ) (h : Host App)
        → length dmac ≡ 6
        → length smac ≡ 6
        → length src ≡ 16
        → length dst ≡ 16
        → h.ip.ll_ip6_addr ≡ dst
        → length payload < 65528
        → length payload + 62 ≤ len
        → let n = length payload + 8 in
          let ip = udp_memory src dst payload after dport sport n c in
          eth_recv snp udp6_recv h (dmac ++ smac ++ 0x86 ∷ 0xDD ∷ [] ++ ip) len
          ≡ recv_udp snp udp6_recv (learned h smac src) ip n
    unfolding dispatch
    accepts_udp dmac smac src dst payload after dport sport c len h lm ln ls ld own short fits =
        let n = length payload + 8 in
        let l = swap16 (u16 n) in
        let ports = le16 (swap16 sport) ++ le16 (swap16 dport) ++ le16 l in
        rw
          (
            append_assoc (src ++ dst ++ le16 (swap16 sport)) (le16 (swap16 dport)) (le16 l),
            append_assoc (src ++ dst) (le16 (swap16 sport)) (le16 (swap16 dport) ++ le16 l),
          )
          (accepts dmac smac src dst ports payload after (l % 256) (l / 256 % 256) 17 255 c n len h
            lm ln ls ld (inl own) (len_bytes n (omega arith)) (omega arith))

    pub eth_recv-udp6_frame :
        {src dst payload after : List ℕ} {dport sport : ℕ} (dmac smac : List ℕ) (len : ℕ)
        (h : Host App)
        → IsSendable src dst payload after dport sport
        → length dmac ≡ 6
        → length smac ≡ 6
        → h.ip.ll_ip6_addr ≡ dst
        → length payload + 62 ≤ len
        → eth_recv snp udp6_recv h
            (udp6_frame (udp_packet dmac smac src dst (length payload + 8)) payload dport sport
              ++ after)
            len
          ≡ udp6_recv (sent_datagram payload src dst dport sport) (learned h smac src)
    unfolding udp6_frame
    eth_recv-udp6_frame {src} {dst} {payload} {after} {dport} {sport} dmac smac len h v lm ln own
          fits =
        ap (λ m. eth_recv snp udp6_recv h m len)
          (append_assoc (dmac ++ smac ++ 0x86 ∷ 0xDD ∷ [])
              (udp6_datagram (udp_hdr src dst (length payload + 8)) payload dport sport) after
            ∙ ap (λ m. dmac ++ smac ++ 0x86 ∷ 0xDD ∷ [] ++ m)
                (udp6_datagram-memory src dst payload after dport sport v))
        ∙ accepts_udp dmac smac src dst payload after dport sport (sent_field v) len h lm ln
            v.src_length v.dst_length own (omega (arith, v.payload_fits)) fits
        ∙ recv_udp-memory snp udp6_recv v (learned h smac src)
