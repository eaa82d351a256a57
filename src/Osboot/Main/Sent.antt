-- ===== src/Osboot/Main/Sent.antt =====
-- From a transfer of src/nbserver.c, as frames, to the kernel that src/osboot.c starts.
use mathlib.Core.Path.{subst}
use gigaboot20x.Osboot.Files.{Files}
use gigaboot20x.Base.{
  length, take, length-append, length-take, ℕ, ◌+◌, ◌^◌, ◌≤◌, ◌<◌, ◌≡◌, refl, sym, ap, ◌∙◌, ◌≢◌,
  true, false, some, none, List, [], ◌∷◌, arith,
}
use gigaboot20x.Netifc.{Snp}
use gigaboot20x.Netifc.Timer.{FirmwareCall, netifc_close}
use gigaboot20x.Osboot.Kernel.{Pages, AllocatePages, is_loadable}
use gigaboot20x.Osboot.MemoryMap.{E820Entry, process_memory_map}
use gigaboot20x.Osboot.Boot.{BootFirmware, Given, Booted, boot_kernel, install_memmap}
use gigaboot20x.Osboot.Boot.Starting.{is_loadable-take, boot_kernel-starts}
use gigaboot20x.Netboot.Buffers.{AreFiles, received}
use gigaboot20x.Netboot.Transfer.{total_length, concat}
use gigaboot20x.Nbserver.{stamped}
use gigaboot20x.Nbserver.Xfer.{boot_message}
use gigaboot20x.Poll.Network.{Link}
use gigaboot20x.Poll.Network.State.{IsLink}
use gigaboot20x.Poll.Network.Whole.{IsWaiting, IsWaiting-IsAt, AreBlocks, messages-AreFit}
use gigaboot20x.Osboot.Main.{
  cmdline_size, min_kernel_size, Memory, Pass, Machine, in_kernel, after_boot, is_efi_binary,
  boot_received, main_loop,
}
use gigaboot20x.Osboot.Main.Safety.{is_efi_binary-take}
use gigaboot20x.Osboot.Main.Rounds.{arrival_pass, rounds, main_loop-boot_message}
use gigaboot20x.Osboot.Main.Filled.{file_messages, file_messages-IsFilled}

length-concat : (blocks : List (List ℕ)) → length (concat blocks) ≡ total_length blocks
length-concat [] = refl
length-concat (block ∷ blocks) =
    omega (arith, length-append block (concat blocks), length-concat blocks)

-- The passes in which the messages of a transfer arrive at a server with this address, the boot
-- command at last.
abbrev pub transfer_passes :
    (snp : Snp) (link : Link) (own : List ℕ) (cookie : ℕ) → List (List ℕ) → List Pass → List Pass
transfer_passes snp link own cookie blocks passes =
    rounds snp link own (file_messages cookie blocks)
      (arrival_pass snp link own (stamped (cookie + 1 + length blocks) boot_message) ∷ passes)

after_boot-in_kernel :
    (image : List ℕ) (size : ℕ) (closing : List FirmwareCall) (b : Booted) (count : ℕ)
    → b.outcome ≡ install_memmap count
    → after_boot image size closing b ≡ in_kernel image size b closing
after_boot-in_kernel image size closing b count e = rw e

module _ (allocate : AllocatePages) (fw : BootFirmware) (mem : Memory)
    (grants : (held : List Pages) (limit pages : ℕ) → allocate held limit pages ≢ none) (key : ℕ)
    (table : List E820Entry) (taken : process_memory_map fw.first_map ≡ some (key, table))
    (exits : fw.exit_boot_services 0 key ≡ 0) where
  boot_received-starts :
      (held : List Pages) (m : Machine) (file : List ℕ)
      → AreFiles m.server.host.app.files
      → received m.server.host.app.files.kernel ≡ file
      → min_kernel_size ≤ length file
      → is_loadable file (length file) ≡ true
      → (image : List ℕ) × (b : Booted) × (boot_received allocate fw mem held m
          ≡ in_kernel image (length file) b (netifc_close m.net_timer))
        × (take (length file) image ≡ file)
        × (b.outcome ≡ install_memmap (length table))
  unfolding boot_received
  boot_received-starts held m file files content large good =
      let kernel = m.server.host.app.files.kernel in
      let size : kernel.offset ≡ length file =
        omega (
          arith,
          length-take kernel.offset kernel.buffer,
          ap length content,
          files.0.0,
          files.0.1,
        ) in
      let same : take (length file) kernel.buffer ≡ file =
        ap (λ n. take n kernel.buffer) (sym size) ∙ content in
      let loadable : is_loadable kernel.buffer kernel.offset ≡ true =
        sym
          (is_loadable-take kernel.buffer kernel.offset kernel.offset (omega (arith, size, large)))
        ∙ ap (λ image. is_loadable image kernel.offset) content
        ∙ ap (is_loadable file) size
        ∙ good in
      let fs = m.server.host.app.files in
      let ramdisk : Given = record {
        address = m.ramdisk_address;
        size = fs.ramdisk.offset;
        bytes = fs.ramdisk.buffer;
      } in
      let cmdline : Given = record {
        address = mem.cmdline_address;
        size = cmdline_size;
        bytes = fs.cmdline.buffer;
      } in
      let b =
        boot_kernel allocate fw kernel.buffer kernel.offset ramdisk cmdline held mem.old_page
          mem.key in
      let started =
        boot_kernel-starts allocate grants fw kernel.buffer kernel.offset ramdisk cmdline held
          mem.old_page mem.key key table loadable taken exits in
      (
        kernel.buffer,
        b,
        after_boot-in_kernel kernel.buffer kernel.offset (netifc_close m.net_timer) b (length table)
              started
            ∙ ap (λ n. in_kernel kernel.buffer n b (netifc_close m.net_timer)) size,
        same,
        started,
      )

  -- What the boot host sends is what is booted. Take efi_main's main loop with a server that waits
  -- for a transfer, and passes in which the frames of a transfer arrive: the command to take the
  -- kernel, each block, and the boot command, every one but the last followed by a pass that gives
  -- the answer's buffer back; any passes may follow. Then the loop ends with the start of a kernel:
  -- at its head lie exactly the bytes of all blocks, its size is their number, the calls of
  -- netifc_close are made before, and install_memmap has the count of the table of the first
  -- process_memory_map. The link loses nothing, the boot host has no multicast address, and there is a
  -- transmit buffer. Each block has 1024 bytes at most; the server has not seen the cookie, its files
  -- are in order, and its kernel buffer, of less than 2^32 bytes, has room for all blocks; the cookie
  -- and the number of blocks stay below 2^32 - 2 together. All blocks together have at least 32768
  -- bytes, pass the tests of load_kernel, and are no EFI binary. The firmware has memory for every
  -- request, process_memory_map takes its first map, and ExitBootServices accepts the key of that
  -- map.
  pub main_loop-sent :
      (snp : Snp) (link : Link) (all : List ℕ) (held : List Pages) (cookie : ℕ)
      (blocks : List (List ℕ)) (passes : List Pass) (m : Machine)
      → IsLink snp link all
      → IsWaiting all m.server
      → AreBlocks blocks
      → cookie + length blocks + 2 < 2 ^ 32
      → AreFiles m.server.host.app.files
      → m.server.host.app.last_cookie ≢ cookie
      → total_length blocks ≤ m.server.host.app.files.kernel.size
      → m.server.host.app.files.kernel.size < 2 ^ 32
      → min_kernel_size ≤ total_length blocks
      → is_loadable (concat blocks) (total_length blocks) ≡ true
      → is_efi_binary (concat blocks) ≡ false
      → let arriving = transfer_passes snp link m.server.host.ip.ll_ip6_addr cookie blocks passes in
        (image : List ℕ) × (b : Booted) × (main_loop allocate fw mem snp held arriving m
          ≡ some (in_kernel image (total_length blocks) b (netifc_close m.net_timer)))
        × (take (total_length blocks) image ≡ concat blocks)
        × (b.outcome ≡ install_memmap (length table))
  main_loop-sent snp link all held cookie blocks passes m up v fit short files new fits small large
        good plain =
      let own = m.server.host.ip.ll_ip6_addr in
      let last = cookie + 1 + length blocks in
      let count = length-concat blocks in
      let x =
        file_messages-IsFilled allocate fw mem snp held link all own up cookie blocks
          (arrival_pass snp link own (stamped last boot_message) ∷ passes) m m.server.host.app short
          files new fits small (messages-AreFit blocks fit) v.calm (IsWaiting-IsAt m.server v) in
      let kernel = x.nb.files.kernel in
      let size : kernel.offset ≡ total_length blocks = omega (
        arith,
        length-take kernel.offset kernel.buffer,
        ap length x.stored,
        count,
        x.files.0.0,
        x.files.0.1,
      ) in
      let buffer_plain : is_efi_binary kernel.buffer ≡ false =
        sym (is_efi_binary-take kernel.buffer kernel.offset (omega (arith, size, large)))
        ∙ ap is_efi_binary x.stored
        ∙ plain in
      let (s, ends, kept) =
        main_loop-boot_message allocate fw mem snp held link all own up last passes
          (record m { server = x.server }) x.nb x.idle
          ((messages-AreFit blocks fit).last last (omega (arith, short)))
          (omega (arith, size, large)) buffer_plain in
      let (image, b, starts_it, same, table_goes) =
        boot_received-starts held (record m { server = s }) (concat blocks)
          (subst AreFiles (sym kept) x.files)
          (ap (λ (fs : Files). received fs.kernel) kept ∙ x.stored) (omega (arith, count, large))
          (ap (is_loadable (concat blocks)) count ∙ good) in
      (
        image,
        b,
        x.loops
            ∙ ends
            ∙ ap some starts_it
            ∙ ap (λ n. some (in_kernel image n b (netifc_close m.net_timer))) count,
        ap (λ n. take n image) (sym count) ∙ same,
        table_goes,
      )
