-- ===== src/Open/Idle.antt =====
-- netifc_open hands nothing to the firmware to send.
use gigaboot20x.Base.{
  ◌==◌, if◌then◌else◌, Bool-cases, Option-cases, ◌>>=◌, ℕ, zero, suc, ◌+◌, ◌*◌, ◌≡◌, sym, ap, ◌∙◌,
  inl, inr, Bool, true, false, not, Option, none, some, List, arith,
}
use gigaboot20x.Netifc.{
  eth_buffer_magic, Netif, Snp, write, eth_put_buffer, eth_add_mcast_filter, add_buffers,
}
use gigaboot20x.Inet6.Packet.{Ip6State}
use gigaboot20x.Inet6.Send.{ip6_init}
use gigaboot20x.Open.{OpenFirmware, Opened, is_started, open_filters, netifc_open, num_buffer_pages}

eth_put_buffer-in_flight :
    (p : ℕ) (n n' : Netif) → eth_put_buffer p n ≡ some n' → n'.in_flight ≡ n.in_flight
unfolding eth_put_buffer
eth_put_buffer-in_flight p n n' e = ground (arith, e)

add_buffers-in_flight :
    (r ptr : ℕ) (n n' : Netif) → add_buffers r ptr n ≡ some n' → n'.in_flight ≡ n.in_flight
unfolding add_buffers
add_buffers-in_flight zero ptr n n' e = ground (arith, e)
add_buffers-in_flight (suc r) ptr n n' e =
    let stamped = record n {
      heap = write n.heap ptr (record (n.heap ptr) { magic = eth_buffer_magic });
    } in
    elim (Option-cases (eth_put_buffer ptr stamped)) [
      | inl stuck ↦ absurd (ground (arith, stuck, e))
      | inr (n1, put) ↦
          add_buffers-in_flight r (ptr + 2048) n1 n' (rw put at e)
          ∙ eth_put_buffer-in_flight ptr stamped n1 put
    ]

eth_add_mcast_filter-in_flight :
    (snp : Snp) (addr : List ℕ) (n : Netif)
    → (eth_add_mcast_filter snp addr n).1.in_flight ≡ n.in_flight
unfolding eth_add_mcast_filter
eth_add_mcast_filter-in_flight snp addr n = ground arith

ip6_init-in_flight :
    (snp : Snp) (mac : List ℕ) (st : Ip6State) (n : Netif)
    → (ip6_init snp mac st n).1.in_flight ≡ n.in_flight
unfolding ip6_init
ip6_init-in_flight snp mac st n =
    eth_add_mcast_filter-in_flight snp _ _ ∙ eth_add_mcast_filter-in_flight snp _ n

open_filters-in_flight :
    (snp : Snp) (fw : OpenFirmware) (st : Ip6State) (n : Netif)
    → (open_filters snp fw st n).2.in_flight ≡ n.in_flight
unfolding open_filters
open_filters-in_flight snp fw st n = elim (Bool-cases (fw.receive_filters == 0)) [
  | inl set_up ↦ rw set_up (ip6_init-in_flight snp fw.current_address st n)
  | inr failed ↦ rw failed (ip6_init-in_flight snp fw.current_address st n)
]

-- What netifc_open returns, with the same frames in flight.
abbrev IsIdle : Netif → Option Opened → Type 0
IsIdle n run = (opened : Opened) → run ≡ some opened → opened.2.in_flight ≡ n.in_flight

IsIdle-if :
    (n : Netif) (test : Bool) (x y : Option Opened)
    → IsIdle n x
    → IsIdle n y
    → IsIdle n (if test then x else y)
IsIdle-if n true x y a b = a
IsIdle-if n false x y a b = b

pub IsIdle-netifc_open :
    (snp : Snp) (fw : OpenFirmware) (st : Ip6State) (n : Netif) → IsIdle n (netifc_open snp fw st n)
unfolding netifc_open
IsIdle-netifc_open snp fw st n =
    let failed : IsIdle n (some (none, st, n)) = λ opened e. ground (arith, e) in
    IsIdle-if n (not (fw.locate_handle == 0)) _ _ failed (
      IsIdle-if n (not (fw.open_protocol == 0)) _ _ failed (
        IsIdle-if n (not (is_started fw)) _ _ failed
          (IsIdle-if n (not (fw.allocate_pages == 0)) _ _ failed carved)))
  where
    carved : IsIdle n (
        add_buffers (num_buffer_pages * 2) fw.buffers_base n >>= λ n'.
        some (open_filters snp fw st n'))
    carved opened e = elim (Option-cases (add_buffers (num_buffer_pages * 2) fw.buffers_base n)) [
      | inl stuck ↦ absurd (ground (arith, stuck, e))
      | inr (n', added) ↦
          let opens : open_filters snp fw st n' ≡ opened = ground (arith, rw added at e) in
          ap (λ (o : Opened). o.2.in_flight) (sym opens)
          ∙ open_filters-in_flight snp fw st n'
          ∙ add_buffers-in_flight 16 fw.buffers_base n n' added
    ]
