-- ===== src/Samples/UsbTest.antt =====
-- src/usbtest.c: a driver for USB devices that is installed and removed again. The statuses of the
-- firmware's calls are parameters. What the driver holds open is counted for each controller; of
-- installing and removing, the calls are recorded in their order.
use gigaboot20x.Base.{
  ◌==◌, if◌then◌else◌, ℕ, ◌+◌, ◌-◌, ◌≡◌, ◌≢◌, not, ◌&&◌, List, [], ◌∷◌, ◌++◌, map, arith,
}

abbrev efi_unsupported : ℕ
efi_unsupported = 0x8000000000000003

abbrev efi_device_error : ℕ
efi_device_error = 0x8000000000000007

-- The statuses of OpenProtocol and UsbGetDeviceDescriptor for a controller.
pub record UsbFirmware : Type 0 where
  pub open_protocol : ℕ → ℕ
  pub get_descriptor : ℕ → ℕ

-- How often the driver has opened the UsbIo protocol of a controller.
abbrev OpenCount : Type 0
OpenCount = ℕ → ℕ

abbrev count_open : ℕ → OpenCount → OpenCount
count_open ctlr held c = if c == ctlr then held c + 1 else held c

-- CloseProtocol.
abbrev count_close : ℕ → OpenCount → OpenCount
count_close ctlr held c = if c == ctlr then held c - 1 else held c

module _ (fw : UsbFirmware) where
  -- MyDriverSupported
  pub my_driver_supported : ℕ → OpenCount → ℕ × OpenCount
  my_driver_supported ctlr held =
      if fw.open_protocol ctlr == 0
      then if not (fw.get_descriptor ctlr == 0)
        then (efi_unsupported, count_open ctlr held)
        else (0, count_close ctlr (count_open ctlr held))
      else (efi_unsupported, held)

  pub my_driver_start : ℕ → OpenCount → ℕ × OpenCount
  my_driver_start ctlr held =
      if not (fw.open_protocol ctlr == 0)
      then (efi_device_error, held)
      else (0, count_open ctlr held)

  pub my_driver_stop : ℕ → OpenCount → ℕ × OpenCount
  my_driver_stop ctlr held = (0, count_close ctlr held)

  -- Whatever Supported answers, it leaves open what was open, but where the descriptor of the
  -- device cannot be read: then the protocol that it has opened stays open. Start holds one open
  -- more if and only if it succeeds, and Stop gives that back.
  pub my_driver-held :
      (ctlr c : ℕ) (held : OpenCount)
      → ((my_driver_supported ctlr held).1 c ≡ (
          if c == ctlr && (fw.open_protocol ctlr == 0 && not (fw.get_descriptor ctlr == 0))
          then held c + 1
          else held c))
        × ((my_driver_start ctlr held).0 ≡ 0
            → ((my_driver_start ctlr held).1 c ≡ count_open ctlr held c)
              × ((my_driver_stop ctlr (my_driver_start ctlr held).1).1 c ≡ held c))
        × ((my_driver_start ctlr held).0 ≢ 0 → (my_driver_start ctlr held).1 c ≡ held c)
  unfolding my_driver_supported my_driver_start my_driver_stop
  my_driver-held ctlr c held =
      (ground arith, (λ e. (ground (arith, e), ground (arith, e))), (λ e. ground (arith, e)))

pub data DriverCall : Type 0 where
  install : DriverCall
  connect disconnect : (ctlr : ℕ) → DriverCall
  free_pool : DriverCall
  uninstall : DriverCall

-- What LocateHandleBuffer answers: its status, and the handles.
pub record Handles : Type 0 where
  pub status : ℕ
  pub list : List ℕ

-- `if (r == 0) { ... FreePool(list); }`, with a call for each handle.
abbrev for_each : (ℕ → DriverCall) → Handles → List DriverCall
for_each call h = if h.status == 0 then map call h.list ++ free_pool ∷ [] else []

-- `status` is that of InstallProtocolInterface.
unfoldable install_my_driver : ℕ → Handles → List DriverCall
install_my_driver status h = install ∷ (if not (status == 0) then [] else for_each connect h)

unfoldable remove_my_driver : Handles → List DriverCall
remove_my_driver h = for_each disconnect h ++ uninstall ∷ []
