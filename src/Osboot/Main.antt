-- ===== src/Osboot/Main.antt =====
-- src/osboot.c: efi_main and try_local_boot. The firmware's answers are parameters; a run goes over
-- the answers to each pass of the main loop.
pub mod Start
pub mod Safety
pub mod Run
pub mod Rounds
pub mod Filled
pub mod Sent
pub mod Examples
use gigaboot20x.Base.{
  get_or-append, get_or-append_left, get_or-take, get_or-drop, get_or-set_other, get_or-set,
  length-reverse, set-append, ltb, leb, ◌==◌, if◌then◌else◌, ltb→lt, lt→ltb, le→ltb, ltb→le,
  ==-refl, ==→eq, ne→==, tests, Bool-cases, Option-cases, ◌>>=◌, ◌>>◌, length, get_or, set, take,
  drop, replicate, length-append, length-take, length-drop, length-replicate, length-set,
  take-append, drop-append, take-length, take-append-drop, All, All-append, u8, u16, u32, u64,
  byte_at, slice, le16, le32, u16_at, u32_at, IsBytes, ℕ, zero, suc, ◌+◌, ◌-◌, ◌*◌, ◌/◌, ◌%◌, ◌^◌,
  ◌≤◌, ◌<◌, ◌≡◌, refl, sym, ap, ap₂, ◌∙◌, ◌≢◌, ◌↔◌, ◌⊎◌, inl, inr, Bool, true, false, not, ◌&&◌,
  ◌||◌, Option, none, some, List, [], ◌∷◌, ◌++◌, map, append-nil, append_assoc, arith,
}
use gigaboot20x.Netifc.{
  max_filter, eth_buffer_size, eth_header_size, eth_buffer_magic, EthBuffer, Frame, Netif, Snp,
  write, eth_get_buffer, buffer_of, eth_put_buffer, eth_send, eth_add_mcast_filter, add_buffers,
}
use gigaboot20x.Netifc.Timer.{
  FirmwareCall, netifc_close, set_timer, cancel_timer, close_event, shutdown, stop, timer_ms,
  netifc_set_timer, netifc_timer_expired,
}
use gigaboot20x.Inet6.Packet.{
  eth_hdr_len, eth_mtu, ip6_hdr_len, udp_hdr_len, eth_ip6, hdr_udp, hdr_icmp6, icmp6_echo_request,
  icmp6_echo_reply, icmp6_ndp_n_solicit, icmp6_ndp_n_advertise, ndp_n_tgt_ll_addr, ndp_n_hdr_size,
  Ip6Hdr, UdpHdr, ip6_hdr_bytes, udp_hdr_bytes, Ip6Pkt, Ip6State, Host, Datagram,
}
use gigaboot20x.Osboot.Files.{
  NbFile, FileId, nbkernel, nbramdisk, nbcmdline, Files, file_at, set_file, kernel_name,
  ramdisk_name, cmdline_name, netboot_get_buffer,
}
use gigaboot20x.Osboot.Kernel.{
  zp_setup, zp_setup_sects, zp_jump, zp_header, zp_version, zp_loader_type, zp_ramdisk_base,
  zp_ramdisk_size, zp_cmdline, zp_syssize, Kernel, Pages, AllocatePages, free_pages, Loaded, put32,
  copy_at, setup_size, image_size, setup_end, give_back, is_loadable, blank_page, fill_zeropage,
  load_image, load_cmdline, load_kernel,
}
use gigaboot20x.Osboot.Boot.{
  zp_e820_table, entry_size, efi_invalid_parameter, Graphics, BootFirmware, cmdline_length,
  fill_cmdline, entry_count, key_after, Outcome, returns, starts, install_memmap, after_exit,
  leave_firmware, Given, Booted, boot_kernel,
}
use gigaboot20x.LoadFile.{Firmware, Held, read_data, open_and_read, load_file}
use gigaboot20x.Netboot.{
  nb_magic, nb_server_port, nb_advert_port, nb_command, nb_send_file, nb_data, nb_boot, nb_ack,
  nb_advertise, nb_error_bad_cmd, nb_error_too_large, nb_error_bad_file, nbmsg_size, NbMsg,
  nbmsg_at, nbmsg_bytes, Nb, Reply, reply, printable, file_name, send_file, append_data, file_data,
  receive_data, execute, remember, handle, ack_of, transmit_ack, udp6_recv,
}
use gigaboot20x.Open.{
  OpenFirmware, Mode, multicast, promiscuous, Opened, is_installed, all_installed, check_filters,
  is_started, open_filters, netifc_open,
}
use gigaboot20x.Poll.{
  fast_tick, PollEvent, Server, released, take_back, netifc_poll, advertise_message, advertise,
  go_online, next_tick, on_tick, boot_requested, poll_online, netboot_poll, polls,
}

abbrev pub kbufsize : ℕ
kbufsize = 32 * 1024 * 1024

abbrev pub rbufsize : ℕ
rbufsize = 256 * 1024 * 1024

-- sizeof(cmdline)
abbrev pub cmdline_size : ℕ
cmdline_size = 4096

-- "too small to be a kernel"
abbrev pub min_kernel_size : ℕ
min_kernel_size = 32768

-- What the firmware answers about the files of the boot medium: LoadFile's calls for each, and
-- where the pools of the ramdisk and the command line lie. `no_size` is what a size variable holds
-- that LoadFile did not set.
pub record BootMedia : Type 0 where
  pub kernel : Firmware
  pub ramdisk : Firmware
  pub cmdline : Firmware
  pub ramdisk_address : ℕ
  pub cmdline_address : ℕ
  pub no_size : ℕ

-- The memory that efi_main finds: the pages for the kernel and the ramdisk as allocated, the page of
-- the kernel's command line, where the static `cmdline` lies, and the variable `key` of boot_kernel.
pub record Memory : Type 0 where
  pub kernel_buffer : List ℕ
  pub ramdisk_buffer : List ℕ
  pub old_page : List ℕ
  pub cmdline_address : ℕ
  pub key : ℕ

-- What the firmware answers in a pass, with the statuses of LoadImage and StartImage.
pub record Pass : Type 0 where
  pub event : PollEvent
  pub load_image : ℕ
  pub start_image : ℕ

-- The server, the addresses of the two buffers, the timer event, and the EFI binaries that StartImage has run.
pub record Machine : Type 0 where
  pub server : Server
  pub kernel_address : ℕ
  pub ramdisk_address : ℕ
  pub net_timer : ℕ
  pub images_run : List (List ℕ)

-- How a run ends: "Boot Failure"; a kernel that is started from `image` with its size, with the calls
-- that closed the network before; or a main loop that waits for its next pass.
pub data RunEnd : Type 0 where
  boot_failure : RunEnd
  in_kernel : (image : List ℕ) (size : ℕ) (booted : Booted) (closing : List FirmwareCall) → RunEnd
  polling : Machine → RunEnd

-- boot_kernel returns only to `goto fail`.
abbrev pub after_boot : List ℕ → ℕ → List FirmwareCall → Booted → RunEnd
after_boot image sz closing b = elim b.outcome [
  | returns ↦ boot_failure
  | starts copied count ↦ in_kernel image sz b closing
]

-- A buffer of LoadFile as an argument of boot_kernel.
abbrev given : ℕ → ℕ → Option (List ℕ × ℕ) → Given
given address no_size none = record { address = 0; size = no_size; bytes = [] }
given address no_size (some f) = record { address = address; size = f.1; bytes = f.0 }

-- "MZ" and "PE" at 0 and 0x80.
abbrev pub is_efi_binary : List ℕ → Bool
is_efi_binary x =
    byte_at x 0 == b'M' && byte_at x 1 == b'Z' && byte_at x 0x80 == b'P' && byte_at x 0x81 == b'E'

-- LoadImage, and StartImage if that succeeds.
pub run_image : Pass → Machine → Machine
run_image p m =
    let kernel = m.server.host.app.files.kernel in
    if not (p.load_image == 0)
    then m
    else record m { images_run = take kernel.offset kernel.buffer ∷ m.images_run }

abbrev netboot_close : ℕ → List FirmwareCall
netboot_close = netifc_close

module _ (allocate : AllocatePages) (fw : BootFirmware) (mem : Memory) where
  -- A call of boot_kernel, with what follows it.
  abbrev boot_to_end : List ℕ → ℕ → Given → Given → List Pages → List FirmwareCall → RunEnd
  boot_to_end image sz ramdisk cmdline held closing =
      after_boot image sz closing
        (boot_kernel allocate fw image sz ramdisk cmdline held mem.old_page mem.key)

  -- With the kernel loaded.
  abbrev boot_local : BootMedia → Held → List ℕ × ℕ → RunEnd
  boot_local media h kernel =
      let ramdisk = load_file media.ramdisk h in
      let cmdline = load_file media.cmdline ramdisk.1 in
      boot_to_end kernel.0 kernel.1 (given media.ramdisk_address media.no_size ramdisk.0)
        (given media.cmdline_address media.no_size cmdline.0) [] []

  -- `none` is a return of 0: there is no kernel on the boot medium.
  abbrev pub after_load : BootMedia → Option (List ℕ × ℕ) × Held → Option RunEnd
  after_load media (none, h) = none
  after_load media (some kernel, h) = some (boot_local media h kernel)

  pub try_local_boot : BootMedia → Held → Option RunEnd
  try_local_boot media h = after_load media (load_file media.kernel h)

  -- boot_kernel on what was received, after netboot_close. `held` are the pages of efi_main.
  pub boot_received : List Pages → Machine → RunEnd
  boot_received held m =
      let fs = m.server.host.app.files in
      boot_to_end fs.kernel.buffer fs.kernel.offset
        (record {
          address = m.ramdisk_address;
          size = fs.ramdisk.offset;
          bytes = fs.ramdisk.buffer;
        })
        (record { address = mem.cmdline_address; size = cmdline_size; bytes = fs.cmdline.buffer })
        held (netboot_close m.net_timer)

  module _ (snp : Snp) where
    -- The loop; `none` is a pass that does not return.
    pub main_loop : List Pages → List Pass → Machine → Option RunEnd
    unfolding run_image boot_received
    main_loop held [] m = some (polling m)
    main_loop held (p ∷ passes) m =
        (netboot_poll snp p.event m.server >>= λ (r : ℕ × Server).
        let m' = record m { server = r.1 } in
        let kernel = r.1.host.app.files.kernel in
        let again = main_loop held passes m' in
        let ran = main_loop held passes (run_image p m') in
        if ltb r.0 1
        then again
        else if ltb kernel.offset min_kernel_size
        then again
        else if is_efi_binary kernel.buffer
        then ran
        else some (boot_received held m'))
