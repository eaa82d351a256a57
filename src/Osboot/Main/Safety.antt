-- ===== src/Osboot/Main/Safety.antt =====
-- What efi_main of src/osboot.c starts.
use gigaboot20x.Base.{
  get_or-take, ltb, ◌==◌, ltb→le, Bool-cases, length, take, length-take, All, byte_at, ℕ, ◌≤◌, ◌<◌,
  ◌≡◌, refl, ap, ◌∙◌, inl, inr, true, false, Option, some, List, [], ◌∷◌, arith,
}
use gigaboot20x.Netifc.{Snp}
use gigaboot20x.Netifc.Timer.{FirmwareCall, netifc_close}
use gigaboot20x.Netifc.Pool.{count}
use gigaboot20x.Osboot.Kernel.{Pages, AllocatePages, is_loadable}
use gigaboot20x.Osboot.Boot.{BootFirmware, Outcome, returns, starts, Given, Booted, boot_kernel}
use gigaboot20x.Osboot.Boot.Table.{boot_kernel-is_loadable}
use gigaboot20x.Poll.Forever.{IsHonest, IsServing, netboot_poll-Goes}
use gigaboot20x.Osboot.Main.{
  min_kernel_size, Memory, Pass, Machine, RunEnd, boot_failure, in_kernel, polling, after_boot,
  is_efi_binary, run_image, boot_received, main_loop,
}

-- An EFI binary of at least 32768 bytes.
abbrev IsImage : List ℕ → Type 0
IsImage x = (min_kernel_size ≤ length x) × (is_efi_binary x ≡ true)

byte_at-take : (x : List ℕ) (n i : ℕ) → i < n → byte_at (take n x) i ≡ byte_at x i
byte_at-take x n i h = get_or-take n x i 0 h

pub is_efi_binary-take :
    (x : List ℕ) (n : ℕ) → min_kernel_size ≤ n → is_efi_binary (take n x) ≡ is_efi_binary x
is_efi_binary-take x n large = rw (
  byte_at-take x n 0 (omega arith),
  byte_at-take x n 1 (omega arith),
  byte_at-take x n 0x80 (omega arith),
  byte_at-take x n 0x81 (omega arith),
)

IsImage-take :
    (x : List ℕ) (n : ℕ)
    → min_kernel_size ≤ n
    → n ≤ length x
    → is_efi_binary x ≡ true
    → IsImage (take n x)
IsImage-take x n large fits efi =
    (omega (arith, length-take n x), is_efi_binary-take x n large ∙ efi)

-- Where a kernel of `size` bytes at the head of `image` came from: the boot medium, or the network,
-- which is then closed.
pub data Source (net_timer : ℕ) (image : List ℕ) (size : ℕ) (closing : List FirmwareCall)
    : Type 0 where
  from_media : closing ≡ [] → Source net_timer image size closing
  from_network :
      min_kernel_size ≤ size
      → size ≤ length image
      → is_efi_binary image ≡ false
      → closing ≡ netifc_close net_timer
      → Source net_timer image size closing

module _ (all : List ℕ) (net_timer : ℕ) where
  -- A main loop in good order that ran only EFI binaries, or a kernel that passed the tests of load_kernel.
  abbrev pub IsEnding : RunEnd → Type 0
  IsEnding boot_failure = Unit
  IsEnding (in_kernel image sz booted closing) =
      (is_loadable image sz ≡ true) × Source net_timer image sz closing
  IsEnding (polling m) =
      IsServing all m.server × All IsImage m.images_run × (m.net_timer ≡ net_timer)

  -- boot_kernel starts only an image that passed the tests of load_kernel.
  pub after_boot-IsEnding :
      (allocate : AllocatePages) (fw : BootFirmware) (image : List ℕ) (sz : ℕ)
      (ramdisk cmdline : Given) (held : List Pages) (old_page : List ℕ) (key : ℕ)
      (closing : List FirmwareCall)
      → Source net_timer image sz closing
      → IsEnding (
          after_boot image sz closing
            (boot_kernel allocate fw image sz ramdisk cmdline held old_page key))
  after_boot-IsEnding allocate fw image sz ramdisk cmdline held old_page key closing source =
      split (boot_kernel allocate fw image sz ramdisk cmdline held old_page key).outcome refl
    where
      booted : Booted
      booted = boot_kernel allocate fw image sz ramdisk cmdline held old_page key

      split : (o : Outcome) → booted.outcome ≡ o → IsEnding (after_boot image sz closing booted)
      split returns e = rw e tt
      split (starts copied count) e = rw e (
        boot_kernel-is_loadable allocate fw image sz ramdisk cmdline held old_page key copied count
            e,
        source,
      )

  run_image-IsEnding :
      (p : Pass) (m : Machine)
      → IsEnding (polling m)
      → min_kernel_size ≤ m.server.host.app.files.kernel.offset
      → is_efi_binary m.server.host.app.files.kernel.buffer ≡ true
      → IsEnding (polling (run_image p m))
  unfolding run_image
  run_image-IsEnding p m v large efi = elim (Bool-cases (p.load_image == 0)) [
    | inr failed ↦ rw failed v
    | inl loaded ↦
        let kernel = m.server.host.app.files.kernel in
        let file = v.0.1.0 in
        rw loaded (
          v.0,
          (IsImage-take kernel.buffer kernel.offset large (omega (arith, file.0, file.1)) efi, v.1),
          v.2,
        )
  ]

  module _ (allocate : AllocatePages) (fw : BootFirmware) (mem : Memory) (snp : Snp) where
    -- A run that returns, with an ending as above.
    abbrev pub Ends : Option RunEnd → Type 0
    Ends run = (e : RunEnd) × (run ≡ some e) × IsEnding e

    boot_received-IsEnding :
        (held : List Pages) (m : Machine)
        → IsEnding (polling m)
        → min_kernel_size ≤ m.server.host.app.files.kernel.offset
        → is_efi_binary m.server.host.app.files.kernel.buffer ≡ false
        → IsEnding (boot_received allocate fw mem held m)
    unfolding boot_received
    boot_received-IsEnding held m v large plain =
        let file = v.0.1.0 in
        after_boot-IsEnding allocate fw _ _ _ _ held mem.old_page mem.key _
          (from_network large (omega (arith, file.0, file.1)) plain (ap netifc_close v.2))

    pub main_loop-Ends :
        (held : List Pages) (passes : List Pass) (m : Machine)
        → All (λ (p : Pass). IsHonest p.event) passes
        → IsEnding (polling m)
        → Ends (main_loop allocate fw mem snp held passes m)
    unfolding main_loop
    main_loop-Ends held [] m honest v = (polling m, refl, v)
    main_loop-Ends held (p ∷ passes) m honest v =
        let (r, e, serving) = netboot_poll-Goes all snp p.event m.server honest.0 v.0 in
        let m' = record m { server = r.1 } in
        let kernel = r.1.host.app.files.kernel in
        let v' : IsEnding (polling m') = (serving, v.1, v.2) in
        let again = main_loop-Ends held passes m' honest.1 v' in
        rw e (elim (Bool-cases (ltb r.0 1)) [
          | inl nothing ↦ rw nothing again
          | inr asked ↦ rw asked (elim (Bool-cases (ltb kernel.offset min_kernel_size)) [
            | inl small ↦ rw small again
            | inr large ↦ rw large (elim (Bool-cases (is_efi_binary kernel.buffer)) [
              | inl efi ↦ rw efi (
                  main_loop-Ends held passes (run_image p m') honest.1
                    (run_image-IsEnding p m' v' (ltb→le _ _ large) efi))
              | inr plain ↦ rw plain (
                boot_received allocate fw mem held m',
                refl,
                boot_received-IsEnding held m' v' (ltb→le _ _ large) plain,
              )
            ])
          ])
        ])
