-- ===== src/Osboot/Boot/Starting.antt =====
-- When boot_kernel of src/osboot.c starts the kernel that it is given.
use gigaboot20x.Base.{
  Option-cases, get_or-take, length, take, u32, ℕ, ◌+◌, ◌/◌, ◌<◌, ◌≤◌, ◌≡◌, ◌≢◌, inl, inr, true,
  none, some, List, arith,
}
use gigaboot20x.Osboot.Kernel.{
  image_size, Kernel, Pages, AllocatePages, is_loadable, load_image, load_cmdline, load_kernel,
}
use gigaboot20x.Osboot.Boot.{BootFirmware, install_memmap, leave_firmware, Given, boot_kernel}
use gigaboot20x.Osboot.MemoryMap.{E820Entry, process_memory_map}

-- The tests read only the first bytes of the image.
pub is_loadable-take :
    (image : List ℕ) (n sz : ℕ) → 1024 ≤ n → is_loadable (take n image) sz ≡ is_loadable image sz
unfolding is_loadable
is_loadable-take image n sz long =
    let same = λ (j : ℕ) (below : j < 1024). get_or-take n image j 0 (omega (arith, below, long)) in
    rw (
      same 0x1F1 (omega arith),
      same 0x1F4 (omega arith),
      same 0x1F5 (omega arith),
      same 0x1F6 (omega arith),
      same 0x1F7 (omega arith),
      same 0x202 (omega arith),
      same 0x203 (omega arith),
      same 0x204 (omega arith),
      same 0x205 (omega arith),
      same 0x206 (omega arith),
      same 0x207 (omega arith),
    )

module _ (allocate : AllocatePages)
    (grants : (held : List Pages) (limit pages : ℕ) → allocate held limit pages ≢ none) where
  load_image-loads :
      (image : List ℕ) (k : Kernel) (held : List Pages)
      → (load_image allocate image k held).0 ≢ none
  unfolding load_image
  load_image-loads image k held =
      let pages = u32 (image_size image + 4095) / 4096 in
      elim (Option-cases (allocate held 0x100000 (pages + 1))) [
        | inl refused ↦ absurd (grants _ _ _ refused)
        | inr (i, granted) ↦ rw (load_image, granted) (λ e. absurd (ground (arith, e)))
      ]

  load_cmdline-loads :
      (image : List ℕ) (k : Kernel) (held : List Pages)
      → (load_cmdline allocate image k held).0 ≢ none
  unfolding load_cmdline
  load_cmdline-loads image k held = elim (Option-cases (allocate held 0xFF000 1)) [
    | inl refused ↦ absurd (grants _ _ _ refused)
    | inr (c, granted) ↦
        rw (load_cmdline, granted) (load_image-loads image (record k { cmdline = c }) _)
  ]

  -- An image that passes the tests is loaded where there is memory.
  load_kernel-loads :
      (image : List ℕ) (sz : ℕ) (held : List Pages)
      → is_loadable image sz ≡ true
      → (load_kernel allocate image sz held).0 ≢ none
  unfolding load_kernel
  load_kernel-loads image sz held good = elim (Option-cases (allocate held 0xFF000 1)) [
    | inl refused ↦ absurd (grants _ _ _ refused)
    | inr (z, granted) ↦
        rw (good, granted)
          (load_cmdline-loads image (record { zeropage = z; cmdline = 0; image = 0; pages = 0 }) _)
  ]

  -- It is started where the first memory map is taken and ExitBootServices accepts its key.
  pub boot_kernel-starts :
      (fw : BootFirmware) (image : List ℕ) (sz : ℕ) (ramdisk cmdline : Given) (held : List Pages)
      (old_page : List ℕ) (key key1 : ℕ) (table : List E820Entry)
      → is_loadable image sz ≡ true
      → process_memory_map fw.first_map ≡ some (key1, table)
      → fw.exit_boot_services 0 key1 ≡ 0
      → (boot_kernel allocate fw image sz ramdisk cmdline held old_page key).outcome
        ≡ install_memmap (length table)
  unfolding boot_kernel leave_firmware
  boot_kernel-starts fw image sz ramdisk cmdline held old_page key key1 table good taken exits =
      elim (Option-cases (load_kernel allocate image sz held).0) [
        | inl failed ↦ absurd (load_kernel-loads image sz held good failed)
        | inr (l, loaded) ↦ rw (boot_kernel, loaded, leave_firmware, taken, exits)
      ]
