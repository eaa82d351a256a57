-- ===== src/Inet6/Recv/Reply.antt =====
-- The handlers of icmp6_recv, on the messages that they answer.
use gigaboot20x.Base.{
  le→ltb, byte_at, length, take-append, take-length, length-append, ℕ, ◌+◌, ◌≤◌, ◌≡◌, refl, sym,
  List, [], ◌∷◌, ◌++◌, append_assoc, arith,
}
use gigaboot20x.Cstring.{pos, memcmp}
use gigaboot20x.Cstring.Laws.{memcmp_iff}
use gigaboot20x.Netifc.{Snp}
use gigaboot20x.Inet6.Packet.{Host}
use gigaboot20x.Inet6.Send.{icmp6_max_payload}
use gigaboot20x.Inet6.Recv.{echo_recv, solicit_recv, ndp_advertise, icmp6_answer, icmp6_dispatch}
use gigaboot20x.Inet6.Recv.Icmp.{icmp_message, icmp_memory}

-- The messages that are answered, and their answers, at the IP address `own` and the MAC address
-- `mac`: an echo request, and a solicitation of the own address with or without options.
pub data IsAnswer (own mac : List ℕ) : (t c : ℕ) (rest reply : List ℕ) → Type 0 where
  echoed : (c : ℕ) (rest : List ℕ) → IsAnswer own mac 128 c rest (icmp_message 129 c rest)
  advertised :
      (r0 r1 r2 r3 : ℕ) (options : List ℕ)
      → IsAnswer own mac 135 0
          (r0 ∷ r1 ∷ r2 ∷ r3 ∷ (own ++ options))
          (icmp_message 136 0 (0x60 ∷ 0 ∷ 0 ∷ 0 ∷ own ++ 2 ∷ 1 ∷ mac))

pub answer-length :
    {own mac : List ℕ} {t c : ℕ} {rest reply : List ℕ}
    → IsAnswer own mac t c rest reply
    → length own ≡ 16
    → length mac ≡ 6
    → length rest + 4 ≤ icmp6_max_payload
    → length reply ≤ icmp6_max_payload
answer-length (echoed c rest) lo lm fits = omega arith
answer-length {own} {mac} (advertised r0 r1 r2 r3 options) lo lm fits =
    omega (arith, length-append (0x60 ∷ 0 ∷ 0 ∷ 0 ∷ own) (2 ∷ 1 ∷ mac))

memcmp-own_target : (own rest : List ℕ) → length own ≡ 16 → memcmp (own ++ rest) own 16 ≡ pos 0
memcmp-own_target own rest len =
    (memcmp_iff (own ++ rest) own 16 (omega (arith, length-append own rest)) (omega (arith, len))).1
      (rw (take-append own rest 16 len) (sym (take-length own 16 (omega arith))))

-- The type and the code, as the receiver reads them.
type-memory :
    (src dst after : List ℕ) (t c : ℕ) (rest : List ℕ) (field : ℕ)
    → length src ≡ 16
    → length dst ≡ 16
    → byte_at (icmp_memory src dst t c rest after (length (icmp_message t c rest)) field) 40 ≡ t
type-memory
      (s0 ∷ s1 ∷ s2 ∷ s3 ∷ s4 ∷ s5 ∷ s6 ∷ s7 ∷ s8 ∷ s9 ∷ s10 ∷ s11 ∷ s12 ∷ s13 ∷ s14 ∷ s15 ∷ [])
      (d0 ∷ d1 ∷ d2 ∷ d3 ∷ d4 ∷ d5 ∷ d6 ∷ d7 ∷ d8 ∷ d9 ∷ d10 ∷ d11 ∷ d12 ∷ d13 ∷ d14 ∷ d15 ∷ [])
      after t c rest field ls ld =
    refl
type-memory _ _ after t c rest field ls ld = absurd (omega arith)

module _ {App : Type 0} (snp : Snp) where
  echo_recv-memory :
      (h : Host App) (src dst rest after : List ℕ) (c field : ℕ)
      → length src ≡ 16
      → length dst ≡ 16
      → let len = length (icmp_message 128 c rest) in
        echo_recv snp h (icmp_memory src dst 128 c rest after len field) len
        ≡ icmp6_answer snp h (icmp_message 129 c rest) src
  unfolding echo_recv
  echo_recv-memory h
        (s0 ∷ s1 ∷ s2 ∷ s3 ∷ s4 ∷ s5 ∷ s6 ∷ s7 ∷ s8 ∷ s9 ∷ s10 ∷ s11 ∷ s12 ∷ s13 ∷ s14 ∷ s15 ∷ [])
        (d0 ∷ d1 ∷ d2 ∷ d3 ∷ d4 ∷ d5 ∷ d6 ∷ d7 ∷ d8 ∷ d9 ∷ d10 ∷ d11 ∷ d12 ∷ d13 ∷ d14 ∷ d15 ∷ [])
        rest after c field ls ld =
      rw (take-append rest after (length rest) refl)
  echo_recv-memory h _ _ rest after c field ls ld = absurd (omega arith)

  solicit_recv-memory :
      (h : Host App) (src dst options after : List ℕ) (r0 r1 r2 r3 field : ℕ)
      → length src ≡ 16
      → length dst ≡ 16
      → length h.ip.ll_ip6_addr ≡ 16
      → let own = h.ip.ll_ip6_addr in
        let rest = r0 ∷ r1 ∷ r2 ∷ r3 ∷ (own ++ options) in
        let len = length (icmp_message 135 0 rest) in
        solicit_recv snp h (icmp_memory src dst 135 0 rest after len field) len
        ≡ icmp6_answer snp h
            (icmp_message 136 0 (0x60 ∷ 0 ∷ 0 ∷ 0 ∷ own ++ 2 ∷ 1 ∷ h.ip.ll_mac_addr))
            src
  unfolding solicit_recv ndp_advertise
  solicit_recv-memory h
        (s0 ∷ s1 ∷ s2 ∷ s3 ∷ s4 ∷ s5 ∷ s6 ∷ s7 ∷ s8 ∷ s9 ∷ s10 ∷ s11 ∷ s12 ∷ s13 ∷ s14 ∷ s15 ∷ [])
        (d0 ∷ d1 ∷ d2 ∷ d3 ∷ d4 ∷ d5 ∷ d6 ∷ d7 ∷ d8 ∷ d9 ∷ d10 ∷ d11 ∷ d12 ∷ d13 ∷ d14 ∷ d15 ∷ [])
        options after r0 r1 r2 r3 field ls ld lo =
      let own = h.ip.ll_ip6_addr in
      let rest = r0 ∷ r1 ∷ r2 ∷ r3 ∷ (own ++ options) in
      rw (
        le→ltb (length (icmp_message 135 0 rest)) 24 (omega (arith, length-append own options)),
        append_assoc own options after,
        memcmp-own_target own (options ++ after) lo,
      )
  solicit_recv-memory h _ _ options after r0 r1 r2 r3 field ls ld lo = absurd (omega arith)

  pub icmp6_dispatch-IsAnswer :
      (h : Host App) (src dst after : List ℕ) {t c : ℕ} {rest reply : List ℕ} (field : ℕ)
      → IsAnswer h.ip.ll_ip6_addr h.ip.ll_mac_addr t c rest reply
      → length src ≡ 16
      → length dst ≡ 16
      → length h.ip.ll_ip6_addr ≡ 16
      → let len = length (icmp_message t c rest) in
        icmp6_dispatch snp h (icmp_memory src dst t c rest after len field) len
        ≡ icmp6_answer snp h reply src
  unfolding icmp6_dispatch
  icmp6_dispatch-IsAnswer h src dst after field (echoed c rest) ls ld lo =
      rw (type-memory src dst after 128 c rest field ls ld)
        (echo_recv-memory h src dst rest after c field ls ld)
  icmp6_dispatch-IsAnswer h src dst after field (advertised r0 r1 r2 r3 options) ls ld lo =
      rw
        (type-memory src dst after 135 0 (r0 ∷ r1 ∷ r2 ∷ r3 ∷ (h.ip.ll_ip6_addr ++ options)) field
          ls ld)
        (solicit_recv-memory h src dst options after r0 r1 r2 r3 field ls ld lo)
