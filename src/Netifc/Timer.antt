-- ===== src/Netifc/Timer.antt =====
-- src/netifc.c: the timer, and closing the interface. The firmware's services are a parameter: what is
-- recorded are the calls of them, in their order.
use gigaboot20x.Base.{ℕ, ◌*◌, Bool, false, List, [], ◌∷◌, ◌==◌, if◌then◌else◌, u64}

-- SetTimer with TimerRelative and its time, and with TimerCancel; CloseEvent; and the calls of the
-- network protocol.
pub data FirmwareCall : Type 0 where
  set_timer : (event time : ℕ) → FirmwareCall
  cancel_timer : (event : ℕ) → FirmwareCall
  close_event : (event : ℕ) → FirmwareCall
  shutdown : FirmwareCall
  stop : FirmwareCall

-- TIMER_MS, in units of 100 ns.
abbrev pub timer_ms : ℕ → ℕ
timer_ms n = u64 (n * 10000)

-- `net_timer` is 0 where CreateEvent failed.
unfoldable pub netifc_set_timer : ℕ → ℕ → List FirmwareCall
netifc_set_timer net_timer ms =
    if net_timer == 0 then [] else set_timer net_timer (timer_ms ms) ∷ []

-- `check_event` is the status of CheckEvent.
unfoldable pub netifc_timer_expired : ℕ → ℕ → Bool
netifc_timer_expired net_timer check_event = if net_timer == 0 then false else check_event == 0

unfoldable pub netifc_close : ℕ → List FirmwareCall
netifc_close net_timer = cancel_timer net_timer ∷ close_event net_timer ∷ shutdown ∷ stop ∷ []
