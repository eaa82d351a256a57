-- ===== src/Open/Filters.antt =====
-- What the interface lets through after netifc_open.

use gigaboot20x.Base.{
  leb, ◌==◌, if◌then◌else◌, Bool-cases, Option-cases, length, All, ℕ, ◌%◌, ◌<◌, ◌≡◌, refl, inl, inr,
  Bool, true, false, not, Option, none, some, List, [], ◌∷◌, arith,
}
use gigaboot20x.Netifc.{max_filter, Netif, Snp, eth_add_mcast_filter}
use gigaboot20x.Netifc.Pool.{IsPool}
use gigaboot20x.Netifc.Carve.{buffers_from, add_buffers-IsPool}
use gigaboot20x.Inet6.Packet.{Ip6State}
use gigaboot20x.Inet6.Send.{ip6_init}
use gigaboot20x.Open.{
  OpenFirmware, Mode, multicast, promiscuous, Opened, is_installed, all_installed, check_filters,
  is_started, open_filters, netifc_open,
}

-- Each wanted filter agrees in its six bytes with one of the hardware's first n.
abbrev AreInstalled : ℕ → List (List ℕ) → List (List ℕ) → Type 0
AreInstalled n filters hardware = All (λ m. is_installed n m hardware ≡ true) filters

all_installed-AreInstalled :
    (n : ℕ) (filters hardware : List (List ℕ))
    → all_installed n filters hardware ≡ true
    → AreInstalled n filters hardware
unfolding all_installed
all_installed-AreInstalled n [] hardware e = tt
all_installed-AreInstalled n (m ∷ filters) hardware e =
    elim (Bool-cases (is_installed n m hardware)) [
      | inl found ↦ (found, all_installed-AreInstalled n filters hardware (ground (arith, found)))
      | inr missing ↦ absurd (ground (arith, missing))
    ]

-- The pool of buffers, and either promiscuous mode or filters that are all installed.
abbrev IsReceiving : OpenFirmware → Mode → Netif → Type 0
IsReceiving fw promiscuous n = Unit
IsReceiving fw multicast n = AreInstalled (length n.mcast_filters) n.mcast_filters fw.mcast_filter

check_filters-IsReceiving :
    (fw : OpenFirmware) (n : Netif) (mode : Mode)
    → check_filters fw n.mcast_filters ≡ some mode
    → IsReceiving fw mode n
unfolding check_filters
check_filters-IsReceiving fw n promiscuous e = tt
check_filters-IsReceiving fw n multicast e =
    all_installed-AreInstalled (length n.mcast_filters) n.mcast_filters fw.mcast_filter
      (ground (arith, e))

IsPool-mcast_filters :
    {all lent : List ℕ} {n : Netif} (filters : List (List ℕ))
    → IsPool all lent n
    → IsPool all lent (record n { mcast_filters = filters })
IsPool-mcast_filters filters v = record {
  free = v.free;
  chain = v.chain;
  account = v.account;
  once = v.once;
  stamped = v.stamped;
}

IsPool-eth_add_mcast_filter :
    {all lent : List ℕ} {n : Netif} (snp : Snp) (addr : List ℕ)
    → IsPool all lent n
    → IsPool all lent (eth_add_mcast_filter snp addr n).1
unfolding eth_add_mcast_filter
IsPool-eth_add_mcast_filter {n} snp addr v =
    elim (Bool-cases (leb max_filter (length n.mcast_filters))) [
      | inl full ↦ rw full v
      | inr space ↦ elim (Bool-cases (leb snp.max_mcast_filter_count (length n.mcast_filters))) [
        | inl beyond ↦ rw (space, beyond) v
        | inr within ↦ rw (space, within) (IsPool-mcast_filters _ v)
      ]
    ]

IsPool-ip6_init :
    {all lent : List ℕ} {n : Netif} (snp : Snp) (mac : List ℕ) (st : Ip6State)
    → IsPool all lent n
    → IsPool all lent (ip6_init snp mac st n).1
unfolding ip6_init
IsPool-ip6_init snp mac st v =
    IsPool-eth_add_mcast_filter snp _ (IsPool-eth_add_mcast_filter snp _ v)

-- An interface that came up: all buffers are free, and frames are filtered as the mode says.
abbrev pub IsOpened : OpenFirmware → Opened → Type 0
IsOpened fw (none, st, n) = Unit
IsOpened fw (some mode, st, n) =
    IsPool (buffers_from 16 fw.buffers_base) [] n × IsReceiving fw mode n

open_filters-IsOpened :
    (snp : Snp) (fw : OpenFirmware) (st : Ip6State) (n : Netif)
    → IsPool (buffers_from 16 fw.buffers_base) [] n
    → IsOpened fw (open_filters snp fw st n)
unfolding open_filters
open_filters-IsOpened snp fw st n v =
    let ready = ip6_init snp fw.current_address st n in
    elim (Bool-cases (fw.receive_filters == 0)) [
      | inr failed ↦ rw failed tt
      | inl set_up ↦ elim (Option-cases (check_filters fw ready.1.mcast_filters)) [
        | inl refused ↦ rw (set_up, refused) tt
        | inr (mode, checked) ↦
            rw (set_up, checked)
              (
                IsPool-ip6_init snp fw.current_address st v,
                check_filters-IsReceiving fw ready.1 mode checked,
              )
      ]
    ]

-- A run that returns, with an interface as above.
abbrev Ends : OpenFirmware → Option Opened → Type 0
Ends fw run = (opened : Opened) × (run ≡ some opened) × IsOpened fw opened

Ends-if :
    (fw : OpenFirmware) (test : Bool) (x y : Option Opened)
    → Ends fw x
    → Ends fw y
    → Ends fw (if test then x else y)
Ends-if fw true x y a b = a
Ends-if fw false x y a b = b

-- Where the firmware allocates the pages at a non-zero multiple of 2048 and there are no buffers
-- yet, netifc_open returns. When it returns 0, all its 16 buffers are free, and either every
-- multicast filter that was recorded is among those that the hardware reports, or the
-- interface is in promiscuous mode.
pub netifc_open-IsOpened :
    (snp : Snp) (fw : OpenFirmware) (st : Ip6State) (n : Netif)
    → fw.buffers_base % 2048 ≡ 0
    → 0 < fw.buffers_base
    → n.eth_buffers ≡ 0
    → (opened : Opened) × (netifc_open snp fw st n ≡ some opened) × IsOpened fw opened
unfolding netifc_open
netifc_open-IsOpened snp fw st n aligned used empty =
    let (n', added, pool) = add_buffers-IsPool 16 fw.buffers_base n aligned used empty in
    let failed : Ends fw (some (none, st, n)) = ((none, st, n), refl, tt) in
    Ends-if fw (not (fw.locate_handle == 0)) _ _ failed (
      Ends-if fw (not (fw.open_protocol == 0)) _ _ failed (
        Ends-if fw (not (is_started fw)) _ _ failed (
          Ends-if fw (not (fw.allocate_pages == 0)) _ _ failed
            (open_filters snp fw st n', rw added, open_filters-IsOpened snp fw st n' pool))))
