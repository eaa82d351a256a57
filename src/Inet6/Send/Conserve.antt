-- ===== src/Inet6/Send/Conserve.antt =====
-- The senders of src/inet6.c, and the pool of transmit buffers.
use gigaboot20x.Base.{
  ℕ, ◌+◌, ◌%◌, ◌≡◌, refl, sym, ap, Bool, true, false, Option, none, some, List, ◌∷◌, arith,
}
use gigaboot20x.Cstring.{ℤ, negsuc}
use gigaboot20x.Netifc.{Netif, Snp, eth_get_buffer, buffer_of, eth_send}
use gigaboot20x.Netifc.Pool.{
  IsConserved, count, IsPool, Got, exhausted, get_lem, put-IsPool, IsPool-reorder, lent_out,
  eth_send-IsConserved, lends,
}
use gigaboot20x.Inet6.Packet.{Ip6Pkt, Ip6State}
use gigaboot20x.Inet6.Send.{udp6_send, give_up, icmp6_send, with_buffer, fill_and_send}

-- A sender returns, with 0 or -1, and what is not free is in flight again.
abbrev Conserves : List ℕ → Option (ℤ × Netif) → Type 0
Conserves all run = (r : ℤ) × (net : Netif) × (run ≡ some (r, net)) × IsConserved all net

-- A buffer taken for a packet, in a pool where all else that is not free is in flight.
abbrev Holds : List ℕ → ℕ → Netif → Type 0
Holds all p net = IsPool all (buffer_of p ∷ lent_out net.in_flight) net

give_up-Conserves :
    (snp : Snp) {all : List ℕ} {net : Netif} (p : ℕ)
    → Holds all p net
    → Conserves all (give_up snp p net)
unfolding give_up
give_up-Conserves snp p v =
    let (net', e, pool, same) = put-IsPool p v in
    (
      negsuc 0,
      net',
      rw e,
      IsPool-reorder (λ a. ap (λ frames. count a (lent_out frames)) (sym same)) pool,
    )

send-Conserves :
    (snp : Snp) {all : List ℕ} {net : Netif} (p : ℕ) (bytes : List ℕ)
    → p % 2048 ≡ 16
    → Holds all p net
    → Conserves all (eth_send snp (p + 2) bytes net)
send-Conserves snp {all} {net} p bytes aligned v =
    let inside : buffer_of p ≡ buffer_of (p + 2) = omega arith in
    eth_send-IsConserved snp (p + 2) bytes
      (IsPool-reorder (λ a. ap (λ b. count a (b ∷ lent_out net.in_flight)) inside) v)

with_buffer-Conserves :
    {all : List ℕ} {net : Netif} (got : Option ℕ × Netif) (k : ℕ → Netif → Option (ℤ × Netif))
    → IsConserved all net
    → Got all (lent_out net.in_flight) net got
    → ((p : ℕ) (net' : Netif) → p % 2048 ≡ 16 → Holds all p net' → Conserves all (k p net'))
    → Conserves all (with_buffer got k)
with_buffer-Conserves {net} got k v (exhausted e none_left) body = rw e (negsuc 0, net, refl, v)
with_buffer-Conserves {net} got k v (lends p net' e pool same aligned) body = rw e (
    body p net' aligned (
      IsPool-reorder (λ a. ap (λ frames. count a (buffer_of p ∷ lent_out frames)) (sym same)) pool))

fill_and_send-Conserves :
    (snp : Snp) (too_long : Bool) (route : Option Ip6Pkt) (build : Ip6Pkt → List ℕ) {all : List ℕ}
    (p : ℕ) (net : Netif)
    → p % 2048 ≡ 16
    → Holds all p net
    → Conserves all (fill_and_send snp too_long route build p net)
unfolding fill_and_send
fill_and_send-Conserves snp true route build p net aligned v = give_up-Conserves snp p v
fill_and_send-Conserves snp false none build p net aligned v = give_up-Conserves snp p v
fill_and_send-Conserves snp false (some pkt) build p net aligned v =
    send-Conserves snp p (build pkt) aligned v

-- Where every transmit buffer is either free or in flight, udp6_send returns, whatever its
-- arguments and the firmware's answer, and this is so again.
pub udp6_send-Conserves :
    (snp : Snp) (st : Ip6State) (payload daddr : List ℕ) (dport sport : ℕ) {all : List ℕ}
    {net : Netif}
    → IsConserved all net
    → Conserves all (udp6_send snp st payload daddr dport sport net)
unfolding udp6_send
udp6_send-Conserves snp st payload daddr dport sport {all} {net} v =
    with_buffer-Conserves (eth_get_buffer 1516 net) _ v (get_lem 1516 (omega arith) v)
      (fill_and_send-Conserves snp _ _ _)

-- icmp6_send returns on every path, and each buffer that it took is in flight or free again.
pub icmp6_send-Conserves :
    (snp : Snp) (st : Ip6State) (message daddr : List ℕ) {all : List ℕ} {net : Netif}
    → IsConserved all net
    → Conserves all (icmp6_send snp st message daddr net)
unfolding icmp6_send
icmp6_send-Conserves snp st message daddr {all} {net} v =
    with_buffer-Conserves (eth_get_buffer 1516 net) _ v (get_lem 1516 (omega arith) v)
      (fill_and_send-Conserves snp _ _ _)
