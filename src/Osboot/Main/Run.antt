-- ===== src/Osboot/Main/Run.antt =====
-- A whole run of efi_main of src/osboot.c.
use mathlib.Core.Path.{subst}
use gigaboot20x.Base.{length, All, ℕ, ◌%◌, ◌<◌, ◌≡◌, refl, sym, Option, none, some, List, [], arith}
use gigaboot20x.Netifc.{EthBuffer, Snp}
use gigaboot20x.Netifc.Pool.{IsPool, lent_out}
use gigaboot20x.Netifc.Carve.{buffers_from}
use gigaboot20x.Osboot.Kernel.{AllocatePages}
use gigaboot20x.Osboot.Boot.{BootFirmware}
use gigaboot20x.LoadFile.{Held, load_file}
use gigaboot20x.Netboot.Buffers.{AreFiles}
use gigaboot20x.Open.{OpenFirmware, Opened}
use gigaboot20x.Open.Filters.{IsOpened, netifc_open-IsOpened}
use gigaboot20x.Open.Idle.{IsIdle-netifc_open}
use gigaboot20x.Poll.Forever.{IsHonest}
use gigaboot20x.Osboot.Main.{
  kbufsize, rbufsize, BootMedia, Memory, Pass, RunEnd, boot_failure, try_local_boot, after_load,
}
use gigaboot20x.Osboot.Main.Start.{
  first_ip, first_netif, first_files, held_buffers, start_server, efi_main, first_machine,
  after_open, after_ramdisk, after_kernel, after_local,
}
use gigaboot20x.Osboot.Main.Safety.{from_media, IsEnding, main_loop-Ends, Ends, after_boot-IsEnding}

-- Pages as AllocatePages delivers them, of the sizes asked for.
pub record IsMemory (mem : Memory) : Type 0 where
  pub kernel : length mem.kernel_buffer ≡ kbufsize
  pub ramdisk : length mem.ramdisk_buffer ≡ rbufsize

AreFiles-first : (mem : Memory) → IsMemory mem → AreFiles (first_files mem)
AreFiles-first mem v = ((v.kernel, omega arith), (v.ramdisk, omega arith), (refl, omega arith))

module _ (allocate : AllocatePages) (fw : BootFirmware) (mem : Memory) (snp : Snp)
    (open_fw : OpenFirmware) (net_timer : ℕ) where
  abbrev buffers : List ℕ
  buffers = buffers_from 16 open_fw.buffers_base

  abbrev Finishes : Option RunEnd → Type 0
  Finishes = Ends buffers net_timer allocate fw mem snp

  start_server-Finishes :
      (heap : ℕ → EthBuffer) (kernel ramdisk : ℕ) (passes : List Pass)
      → IsMemory mem
      → open_fw.buffers_base % 2048 ≡ 0
      → 0 < open_fw.buffers_base
      → All (λ (p : Pass). IsHonest p.event) passes
      → Finishes (start_server allocate fw mem snp open_fw net_timer heap kernel ramdisk passes)
  unfolding start_server
  start_server-Finishes heap kernel ramdisk passes memory aligned used honest =
      let (opened, e, v) =
        netifc_open-IsOpened snp open_fw first_ip (first_netif heap) aligned used refl in
      rw e (split opened (IsIdle-netifc_open snp open_fw first_ip (first_netif heap) opened e) v)
    where
      split :
          (opened : Opened)
          → opened.2.in_flight ≡ []
          → IsOpened open_fw opened
          → Finishes (after_open allocate fw mem snp net_timer kernel ramdisk passes opened)
      split (none, ip, net) idle v = (boot_failure, refl, tt)
      split (some mode, ip, net) idle v =
          main_loop-Ends buffers net_timer allocate fw mem snp (held_buffers kernel ramdisk) passes
            (first_machine allocate fw mem snp net_timer kernel ramdisk ip net) honest
            (
              (
                subst (λ fs. IsPool buffers (lent_out fs) net) (sym idle) v.0,
                AreFiles-first mem memory,
              ),
              tt,
              refl,
            )

  -- What try_local_boot starts, if anything.
  abbrev IsLocal : Option RunEnd → Type 0
  IsLocal none = Unit
  IsLocal (some e) = IsEnding buffers net_timer e

  try_local_boot-IsLocal :
      (media : BootMedia) (h : Held) → IsLocal (try_local_boot allocate fw mem media h)
  unfolding try_local_boot
  try_local_boot-IsLocal media h = split (load_file media.kernel h)
    where
      split :
          (loaded : Option (List ℕ × ℕ) × Held) → IsLocal (after_load allocate fw mem media loaded)
      split (none, h1) = tt
      split (some kernel, h1) =
          after_boot-IsEnding buffers net_timer allocate fw _ _ _ _ [] mem.old_page mem.key []
            (from_media refl)

  module _ (heap : ℕ → EthBuffer) (passes : List Pass) (memory : IsMemory mem)
      (aligned : open_fw.buffers_base % 2048 ≡ 0) (used : 0 < open_fw.buffers_base)
      (honest : All (λ (p : Pass). IsHonest p.event) passes) where
    after_ramdisk-Finishes :
        (kernel : ℕ) (o : Option ℕ)
        → Finishes (after_ramdisk allocate fw mem snp open_fw net_timer heap passes kernel o)
    after_ramdisk-Finishes kernel none = (boot_failure, refl, tt)
    after_ramdisk-Finishes kernel (some ramdisk) =
        start_server-Finishes heap kernel ramdisk passes memory aligned used honest

    after_kernel-Finishes :
        (o : Option ℕ) → Finishes (after_kernel allocate fw mem snp open_fw net_timer heap passes o)
    after_kernel-Finishes none = (boot_failure, refl, tt)
    after_kernel-Finishes (some kernel) = after_ramdisk-Finishes kernel _

    after_local-Finishes :
        (o : Option RunEnd)
        → IsLocal o
        → Finishes (after_local allocate fw mem snp open_fw net_timer heap passes o)
    after_local-Finishes none v = after_kernel-Finishes _
    after_local-Finishes (some e) v = (e, refl, v)

  -- Take a firmware that allocates pages of the sizes asked for, the transmit buffers at a non-zero
  -- multiple of 2048, and whose GetStatus gives back only buffers that are in flight. Then
  -- efi_main comes to an end or to its next pass, whatever else the firmware and the network do:
  -- it reports a boot failure; or it starts a kernel that passed the tests of load_kernel, and that
  -- comes from the boot medium, or was received, is no EFI binary, has at least 32768 bytes, all
  -- of them inside its buffer, and is started behind the closing of the network; or it is in its loop, with a server whose
  -- transmit buffers are each either free or in flight and whose files are in order, and has run only EFI
  -- binaries of at least 32768 bytes.
  pub efi_main-Finishes :
      (media : BootMedia) (h : Held) (heap : ℕ → EthBuffer) (passes : List Pass)
      → IsMemory mem
      → open_fw.buffers_base % 2048 ≡ 0
      → 0 < open_fw.buffers_base
      → All (λ (p : Pass). IsHonest p.event) passes
      → Finishes (efi_main allocate fw mem snp media h open_fw net_timer heap passes)
  unfolding efi_main
  efi_main-Finishes media h heap passes memory aligned used honest =
      after_local-Finishes heap passes memory aligned used honest _ (try_local_boot-IsLocal media h)
