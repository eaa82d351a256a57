-- ===== src/Open/Listening.antt =====
-- What the interface listens to after netifc_open.
use mathlib.Core.Path.{subst}
use gigaboot20x.Base.{
  ◌==◌, leb, if◌then◌else◌, Bool-cases, Option-cases, ◌>>=◌, length, ◌++◌, take-length, get_or,
  get_or-take, take, byte_at, All, ℕ, zero, suc, ◌+◌, ◌%◌, ◌≤◌, ◌<◌, ◌≡◌, refl, sym, ap, ◌∙◌, inl,
  inr, Bool, true, false, not, Option, none, some, List, [], ◌∷◌, arith,
}
use gigaboot20x.Cstring.{pos, is_zero, memcmp, ℤ, negsuc}
use gigaboot20x.Cstring.Laws.{memcmp_iff}
use gigaboot20x.Netifc.{
  Netif, Snp, eth_put_buffer, write, eth_buffer_magic, eth_add_mcast_filter, add_buffers,
}
use gigaboot20x.Netifc.Pool.{IsPool}
use gigaboot20x.Netifc.Carve.{buffers_from}
use gigaboot20x.Inet6.Addr.{snmaddr_from_mac, multicast_from_ip6}
use gigaboot20x.Inet6.Packet.{Ip6State}
use gigaboot20x.Inet6.Send.{ip6_init}
use gigaboot20x.Open.{
  OpenFirmware, Mode, multicast, promiscuous, Opened, is_installed, all_installed, check_filters,
  is_started, open_filters, netifc_open,
}
use gigaboot20x.Open.Filters.{IsOpened, netifc_open-IsOpened}

-- The Ethernet addresses of the solicited-node address that belongs to a MAC address, and of all
-- nodes.
abbrev wanted : List ℕ → List (List ℕ)
wanted mac =
    (0x33 ∷ 0x33 ∷ 0xFF ∷ byte_at mac 3 ∷ byte_at mac 4 ∷ byte_at mac 5 ∷ [])
    ∷ (0x33 ∷ 0x33 ∷ 0 ∷ 0 ∷ 0 ∷ 1 ∷ [])
    ∷ []

-- One of the first n filters of the hardware begins with the six bytes.
abbrev IsHeard : ℕ → List (List ℕ) → List ℕ → Type 0
IsHeard n hardware m = (j : ℕ) × (j < n) × (take 6 (get_or hardware j []) ≡ m)

-- Every frame is let through, or at least those to the two addresses.
abbrev IsListening : OpenFirmware → Mode → Type 0
IsListening fw promiscuous = Unit
IsListening fw multicast = All (IsHeard 2 fw.mcast_filter) (wanted fw.current_address)

-- EFI_MAC_ADDRESS has 32 bytes.
abbrev AreAddresses : List (List ℕ) → Type 0
AreAddresses hardware = All (λ (f : List ℕ). 6 ≤ length f) hardware

is_zero→eq : (x : ℤ) → is_zero x ≡ true → x ≡ pos 0
is_zero→eq (pos zero) e = refl
is_zero→eq (pos (suc n)) e = absurd (ground (arith, e))
is_zero→eq (negsuc n) e = absurd (ground (arith, e))

is_installed-IsHeard :
    (n : ℕ) (m : List ℕ) (hardware : List (List ℕ))
    → length m ≡ 6
    → AreAddresses hardware
    → is_installed n m hardware ≡ true
    → IsHeard n hardware m
unfolding is_installed
is_installed-IsHeard zero m hardware six v e = absurd (ground (arith, e))
is_installed-IsHeard (suc n) m [] six v e = absurd (ground (arith, e))
is_installed-IsHeard (suc n) m (f ∷ hardware) six v e = elim (Bool-cases (is_zero (memcmp m f 6))) [
  | inl same ↦
      let agrees = (memcmp_iff m f 6 (omega (arith, six)) v.0).0 (is_zero→eq (memcmp m f 6) same) in
      (0, omega arith, sym agrees ∙ take-length m 6 (omega (arith, six)))
  | inr other ↦
      let (j, below, found) = is_installed-IsHeard n m hardware six v.1 (ground (arith, other)) in
      (suc j, omega arith, found)
]

-- A filter for which there is room is recorded.
eth_add_mcast_filter-added :
    (snp : Snp) (addr : List ℕ) (n : Netif)
    → length n.mcast_filters < 2
    → 2 ≤ snp.max_mcast_filter_count
    → (eth_add_mcast_filter snp addr n).1.mcast_filters ≡ n.mcast_filters ++ take 6 addr ∷ []
unfolding eth_add_mcast_filter
eth_add_mcast_filter-added snp addr n short room =
    let space : leb 8 (length n.mcast_filters) ≡ false = ground (arith, short) in
    let within : leb snp.max_mcast_filter_count (length n.mcast_filters) ≡ false =
      ground (arith, short, room) in
    rw (space, within) refl

ip6_init-wanted :
    (snp : Snp) (mac : List ℕ) (st : Ip6State) (n : Netif)
    → n.mcast_filters ≡ []
    → 2 ≤ snp.max_mcast_filter_count
    → (ip6_init snp mac st n).1.mcast_filters ≡ wanted mac
unfolding ip6_init snmaddr_from_mac multicast_from_ip6
ip6_init-wanted snp mac st n empty room =
    let snm = multicast_from_ip6 (snmaddr_from_mac (take 6 mac)) in
    let n1 = (eth_add_mcast_filter snp snm n).1 in
    let first : n1.mcast_filters ≡ snm ∷ [] =
      eth_add_mcast_filter-added snp snm n (omega (arith, ap length empty)) room
      ∙ ap (λ (l : List (List ℕ)). l ++ take 6 snm ∷ []) empty in
    eth_add_mcast_filter-added snp _ n1 (omega (arith, ap length first)) room
    ∙ ap (λ (l : List (List ℕ)). l ++ (0x33 ∷ 0x33 ∷ 0 ∷ 0 ∷ 0 ∷ 1 ∷ []) ∷ []) first
    ∙ rw
        (
          get_or-take 6 mac 3 0 (omega arith),
          get_or-take 6 mac 4 0 (omega arith),
          get_or-take 6 mac 5 0 (omega arith),
        )
        refl

check_filters-IsListening :
    (fw : OpenFirmware) (mode : Mode)
    → AreAddresses fw.mcast_filter
    → check_filters fw (wanted fw.current_address) ≡ some mode
    → IsListening fw mode
unfolding check_filters all_installed
check_filters-IsListening fw promiscuous v e = tt
check_filters-IsListening fw multicast v e =
    let heard =
      λ (m : List ℕ) (six : length m ≡ 6). is_installed-IsHeard 2 m fw.mcast_filter six v in
    (heard _ refl (ground (arith, e)), (heard _ refl (ground (arith, e)), tt))

-- Carving the buffers records no filter.
add_buffers-mcast_filters :
    (r ptr : ℕ) (n n' : Netif) → add_buffers r ptr n ≡ some n' → n'.mcast_filters ≡ n.mcast_filters
unfolding add_buffers eth_put_buffer
add_buffers-mcast_filters zero ptr n n' e = ground (arith, e)
add_buffers-mcast_filters (suc r) ptr n n' e =
    let stamped = record n {
      heap = write n.heap ptr (record (n.heap ptr) { magic = eth_buffer_magic });
    } in
    elim (Option-cases (eth_put_buffer ptr stamped)) [
      | inl stuck ↦ absurd (ground (arith, stuck, e))
      | inr (n1, put) ↦
          add_buffers-mcast_filters r (ptr + 2048) n1 n' (rw put at e) ∙ ground (arith, put)
    ]

-- What a run of netifc_open that returns says of the interface.
abbrev Listens : OpenFirmware → Opened → Type 0
Listens fw (none, st, n) = Unit
Listens fw (some mode, st, n) = IsListening fw mode

open_filters-Listens :
    (snp : Snp) (fw : OpenFirmware) (st : Ip6State) (n : Netif)
    → n.mcast_filters ≡ []
    → 2 ≤ snp.max_mcast_filter_count
    → AreAddresses fw.mcast_filter
    → Listens fw (open_filters snp fw st n)
unfolding open_filters
open_filters-Listens snp fw st n empty room v =
    let ready = ip6_init snp fw.current_address st n in
    let filters = ip6_init-wanted snp fw.current_address st n empty room in
    elim (Bool-cases (fw.receive_filters == 0)) [
      | inr failed ↦ rw failed tt
      | inl set_up ↦ elim (Option-cases (check_filters fw ready.1.mcast_filters)) [
        | inl refused ↦ rw (set_up, refused) tt
        | inr (mode, checked) ↦
            rw (set_up, checked)
              (check_filters-IsListening fw mode v (ap (check_filters fw) (sym filters) ∙ checked))
      ]
    ]

-- A statement about what a run returns, if it returns.
abbrev Holds : (Opened → Type 0) → Option Opened → Type 0
Holds P run = (opened : Opened) → run ≡ some opened → P opened

Holds-if :
    (P : Opened → Type 0) (test : Bool) (x y : Option Opened)
    → Holds P x
    → Holds P y
    → Holds P (if test then x else y)
Holds-if P true x y a b = a
Holds-if P false x y a b = b

netifc_open-Listens :
    (snp : Snp) (fw : OpenFirmware) (st : Ip6State) (n : Netif)
    → n.mcast_filters ≡ []
    → 2 ≤ snp.max_mcast_filter_count
    → AreAddresses fw.mcast_filter
    → Holds (Listens fw) (netifc_open snp fw st n)
unfolding netifc_open
netifc_open-Listens snp fw st n empty room v =
    let failed : Holds (Listens fw) (some (none, st, n)) =
      λ opened e. subst (Listens fw) (some_injective _ _ e) tt in
    Holds-if (Listens fw) (not (fw.locate_handle == 0)) _ _ failed (
      Holds-if (Listens fw) (not (fw.open_protocol == 0)) _ _ failed (
        Holds-if (Listens fw) (not (is_started fw)) _ _ failed
          (Holds-if (Listens fw) (not (fw.allocate_pages == 0)) _ _ failed carved)))
  where
    some_injective : (x y : Opened) → some x ≡ some y → x ≡ y
    some_injective x y e = ground (arith, e)

    carved :
        Holds
          (Listens fw)
          (add_buffers 16 fw.buffers_base n >>= λ n'. some (open_filters snp fw st n'))
    carved opened e = elim (Option-cases (add_buffers 16 fw.buffers_base n)) [
      | inl stuck ↦ absurd (ground (arith, stuck, e))
      | inr (n', added) ↦ subst (Listens fw) (some_injective _ _ (rw added at e)) (
          open_filters-Listens snp fw st n'
            (add_buffers-mcast_filters 16 fw.buffers_base n n' added ∙ empty) room v)
    ]

-- An interface that came up: all buffers are free, and the two addresses are listened to.
abbrev pub IsUp : OpenFirmware → Opened → Type 0
IsUp fw (none, st, n) = Unit
IsUp fw (some mode, st, n) = IsPool (buffers_from 16 fw.buffers_base) [] n × IsListening fw mode

both :
    (fw : OpenFirmware) (opened : Opened) → IsOpened fw opened → Listens fw opened → IsUp fw opened
both fw (none, st, n) v w = tt
both fw (some mode, st, n) v w = (v.0, w)

-- Where the firmware allocates the pages at a non-zero multiple of 2048, there are no buffers and
-- no filters yet, and the hardware takes two filters at least, netifc_open returns. When it returns
-- 0, all its 16 buffers are free, and either the interface is in promiscuous mode, or the first two
-- filters that the hardware reports have the Ethernet addresses of all nodes, 33:33:00:00:00:01,
-- and of the solicited-node address, 33:33:ff and the last three bytes of its MAC address. The
-- addresses that the firmware reports have six bytes at least.
pub netifc_open-IsUp :
    (snp : Snp) (fw : OpenFirmware) (st : Ip6State) (n : Netif)
    → fw.buffers_base % 2048 ≡ 0
    → 0 < fw.buffers_base
    → n.eth_buffers ≡ 0
    → n.mcast_filters ≡ []
    → 2 ≤ snp.max_mcast_filter_count
    → AreAddresses fw.mcast_filter
    → (opened : Opened) × (netifc_open snp fw st n ≡ some opened) × IsUp fw opened
netifc_open-IsUp snp fw st n aligned used free empty room v =
    let (opened, run, up) = netifc_open-IsOpened snp fw st n aligned used free in
    (opened, run, both fw opened up (netifc_open-Listens snp fw st n empty room v opened run))
