-- ===== src/Open/Examples.antt =====
-- Runs of the theorems about netifc_open.
use gigaboot20x.Base.{◌≡◌, refl, true, false, some, [], ◌∷◌, arith}
use gigaboot20x.Netifc.{Netif}
use gigaboot20x.Netifc.Examples.{accepting}
use gigaboot20x.Inet6.Examples.{stack_a}
use gigaboot20x.Open.{OpenFirmware, Opened, netifc_open}
use gigaboot20x.Open.Listening.{IsUp, netifc_open-IsUp}

-- A firmware that starts the interface and installs both filters in the other order.
abbrev pub good_firmware : OpenFirmware
good_firmware = record {
  locate_handle = 0;
  open_protocol = 0;
  started = false;
  starts = true;
  initialize = 0;
  allocate_pages = 0;
  buffers_base = 8192;
  current_address = 2 ∷ 0 ∷ 0 ∷ 0 ∷ 0 ∷ 1 ∷ [];
  receive_filters = 0;
  mcast_filter_count = 2;
  mcast_filter = (0x33 ∷ 0x33 ∷ 0 ∷ 0 ∷ 0 ∷ 1 ∷ []) ∷ (0x33 ∷ 0x33 ∷ 0xFF ∷ 0 ∷ 0 ∷ 1 ∷ []) ∷ [];
  set_promiscuous = 0;
}

abbrev closed : Netif
closed = record {
  heap = λ a. record { magic = 0; next = 0 };
  eth_buffers = 0;
  in_flight = [];
  mcast_filters = [];
}

netifc_open-IsUp_example :
    (opened : Opened) × (netifc_open accepting good_firmware stack_a closed ≡ some opened)
    × IsUp good_firmware opened
netifc_open-IsUp_example =
    netifc_open-IsUp accepting good_firmware stack_a closed (omega arith) (omega arith) refl refl
      (omega arith) (omega arith, (omega arith, tt))
