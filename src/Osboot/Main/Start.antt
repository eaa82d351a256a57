-- ===== src/Osboot/Main/Start.antt =====
-- src/osboot.c: efi_main up to its loop, and src/netboot.c netboot_init.
use gigaboot20x.Base.{◌>>=◌, set, replicate, ℕ, ◌/◌, Option, none, some, List, [], ◌∷◌}
use gigaboot20x.Netifc.{EthBuffer, Netif, Snp}
use gigaboot20x.Inet6.Packet.{Ip6State}
use gigaboot20x.Osboot.Files.{NbFile, Files}
use gigaboot20x.Osboot.Kernel.{Pages, AllocatePages}
use gigaboot20x.Osboot.Boot.{BootFirmware}
use gigaboot20x.LoadFile.{Held}
use gigaboot20x.Netboot.{Nb}
use gigaboot20x.Open.{OpenFirmware, Opened, netifc_open}
use gigaboot20x.Osboot.Main.{
  kbufsize, rbufsize, cmdline_size, BootMedia, Memory, Pass, Machine, RunEnd, boot_failure,
  try_local_boot, main_loop,
}

-- The static variables before the first call.
abbrev no_files : Files
no_files =
    let unset : NbFile = record { buffer = []; size = 0; offset = 0 } in
    record { kernel = unset; ramdisk = unset; cmdline = unset }

abbrev first_nb : Files → Nb
first_nb fs = record {
  last_cookie = 0;
  last_cmd = 0;
  last_arg = 0;
  last_ack_cmd = 0;
  last_ack_arg = 0;
  nb_boot_now = 0;
  nb_active = 0;
  nb_fastcount = 0;
  nb_online = 0;
  item = none;
  files = fs;
}

abbrev pub first_ip : Ip6State
first_ip = record {
  ll_mac_addr = replicate 6 0;
  ll_ip6_addr = replicate 16 0;
  snm_mac_addr = replicate 6 0;
  snm_ip6_addr = replicate 16 0;
  rx_mac_addr = replicate 6 0;
  rx_ip6_addr = replicate 16 0;
}

abbrev pub first_netif : (ℕ → EthBuffer) → Netif
first_netif heap = record { heap = heap; eth_buffers = 0; in_flight = []; mcast_filters = [] }

-- The buffers of efi_main: nbcmdline lies in the static `cmdline`.
abbrev pub first_files : Memory → Files
first_files mem = record {
  kernel = record { buffer = mem.kernel_buffer; size = kbufsize; offset = 0 };
  ramdisk = record { buffer = mem.ramdisk_buffer; size = rbufsize; offset = 0 };
  cmdline = record { buffer = set (replicate cmdline_size 0) 0 0; size = cmdline_size; offset = 0 };
}

-- What AllocatePages holds after the two buffers.
abbrev pub held_buffers : ℕ → ℕ → List Pages
held_buffers kernel ramdisk =
    record { start = ramdisk; count = rbufsize / 4096 }
    ∷ record { start = kernel; count = kbufsize / 4096 }
    ∷ []

module _ (allocate : AllocatePages) (fw : BootFirmware) (mem : Memory) (snp : Snp) where
  -- The server before the first pass.
  abbrev pub first_machine : ℕ → ℕ → ℕ → Ip6State → Netif → Machine
  first_machine net_timer kernel ramdisk ip net = record {
    server = record {
      host = record { ip = ip; net = net; app = first_nb (first_files mem) };
      timer_ms = 0;
    };
    kernel_address = kernel;
    ramdisk_address = ramdisk;
    net_timer = net_timer;
    images_run = [];
  }

  -- Behind netifc_open, which netboot_init calls.
  abbrev pub after_open : ℕ → ℕ → ℕ → List Pass → Opened → Option RunEnd
  after_open net_timer kernel ramdisk passes (none, ip, net) = some boot_failure
  after_open net_timer kernel ramdisk passes (some mode, ip, net) =
      main_loop allocate fw mem snp (held_buffers kernel ramdisk) passes
        (first_machine net_timer kernel ramdisk ip net)

  -- From netboot_init on. `heap` is the memory that the transmit buffers are carved from.
  unfoldable pub start_server :
      OpenFirmware → ℕ → (ℕ → EthBuffer) → ℕ → ℕ → List Pass → Option RunEnd
  start_server open_fw net_timer heap kernel ramdisk passes =
      (netifc_open snp open_fw first_ip (first_netif heap)
        >>= after_open net_timer kernel ramdisk passes)

  -- Behind the allocation of the ramdisk's buffer, that of the kernel's, and try_local_boot.
  module _ (open_fw : OpenFirmware) (net_timer : ℕ) (heap : ℕ → EthBuffer)
      (passes : List Pass) where
    abbrev pub after_ramdisk : ℕ → Option ℕ → Option RunEnd
    after_ramdisk kernel none = some boot_failure
    after_ramdisk kernel (some ramdisk) = start_server open_fw net_timer heap kernel ramdisk passes

    abbrev pub after_kernel : Option ℕ → Option RunEnd
    after_kernel none = some boot_failure
    after_kernel (some kernel) = after_ramdisk kernel (
        allocate (record { start = kernel; count = kbufsize / 4096 } ∷ []) 0xFFFFFFFF
          (rbufsize / 4096))

    abbrev pub after_local : Option RunEnd → Option RunEnd
    after_local (some e) = some e
    after_local none = after_kernel (allocate [] 0xFFFFFFFF (kbufsize / 4096))

  -- efi_main; `none` is an endless loop inside netifc_open or a pass.
  unfoldable pub efi_main :
      BootMedia → Held → OpenFirmware → ℕ → (ℕ → EthBuffer) → List Pass → Option RunEnd
  unfolding start_server
  efi_main media h open_fw net_timer heap passes =
      after_local open_fw net_timer heap passes (try_local_boot allocate fw mem media h)
