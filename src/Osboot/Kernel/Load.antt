-- ===== src/Osboot/Kernel/Load.antt =====
-- The pages that load_kernel holds, and the bounds of what it copies.
use mathlib.Core.Path.{subst}
use gigaboot20x.Base.{
  Bool-cases, Option-cases, take, drop, u32, byte_at, slice, u16_at, u32_at, ℕ, ◌+◌, ◌*◌, ◌/◌, ◌^◌,
  ◌≤◌, ◌<◌, ◌≡◌, refl, inl, inr, true, Option, none, some, List, ◌∷◌, arith,
}
use gigaboot20x.Osboot.Kernel.{
  zp_setup_sects, zp_header, zp_version, Kernel, Pages, AllocatePages, Loaded, setup_size,
  image_size, give_back, is_loadable, fill_zeropage, load_image, load_cmdline, load_kernel,
}

-- No allocation answers with address 0.
abbrev pub IsNeverNull : AllocatePages → Type 0
IsNeverNull allocate =
    (held : List Pages) (at pages mem : ℕ) → allocate held at pages ≡ some mem → 0 < mem

-- What is held after load_kernel has returned.
abbrev pub held_after : Option Loaded → List Pages → List Pages
held_after none held = held
held_after (some l) held =
    record { start = l.kernel.image; count = l.kernel.pages + 1 }
    ∷ record { start = l.kernel.cmdline; count = 1 }
    ∷ record { start = l.kernel.zeropage; count = 1 }
    ∷ held

abbrev one_page : ℕ → Pages
one_page p = record { start = p; count = 1 }

abbrev partly : (zeropage cmdline pages : ℕ) → Kernel
partly z c n = record { zeropage = z; cmdline = c; image = 0; pages = n }

give_back-both :
    (z c n : ℕ) (held : List Pages)
    → 0 < z
    → 0 < c
    → give_back (partly z c n) (one_page c ∷ one_page z ∷ held) ≡ held
unfolding give_back
give_back-both z c n held hz hc = ground arith

give_back-zeropage :
    (z : ℕ) (held : List Pages) → 0 < z → give_back (partly z 0 0) (one_page z ∷ held) ≡ held
unfolding give_back
give_back-zeropage z held hz = ground arith

-- A result whose pages are those that held_after names.
abbrev IsHeld : List Pages → Option Loaded × List Pages → Type 0
IsHeld held got = got.1 ≡ held_after got.0 held

module _ (allocate : AllocatePages) (never_null : IsNeverNull allocate) (image : List ℕ) where
  load_image-IsHeld :
      (z c : ℕ) (held : List Pages)
      → 0 < z
      → 0 < c
      → IsHeld held (load_image allocate image (partly z c 0) (one_page c ∷ one_page z ∷ held))
  unfolding load_image
  load_image-IsHeld z c held hz hc =
      let pages = u32 (image_size image + 4095) / 4096 in
      elim (Option-cases (allocate (one_page c ∷ one_page z ∷ held) 0x100000 (pages + 1))) [
        | inl refused ↦ rw (load_image, refused) (give_back-both z c pages held hz hc)
        | inr (mem, given) ↦ rw (load_image, given)
      ]

  load_cmdline-IsHeld :
      (z : ℕ) (held : List Pages)
      → 0 < z
      → IsHeld held (load_cmdline allocate image (partly z 0 0) (one_page z ∷ held))
  unfolding load_cmdline
  load_cmdline-IsHeld z held hz = elim (Option-cases (allocate (one_page z ∷ held) 0xFF000 1)) [
    | inl refused ↦ rw (load_cmdline, refused) (give_back-zeropage z held hz)
    | inr (mem, given) ↦
        rw (load_cmdline, given) (load_image-IsHeld z mem held hz (never_null _ _ _ mem given))
  ]

  -- Where AllocatePages never answers with address 0, a failure of load_kernel frees all that it
  -- allocated, and a success holds three allocations: one page each for the zero page and the
  -- command line, and the pages of the kernel with one more.
  pub load_kernel-held :
      (sz : ℕ) (held : List Pages)
      → (load_kernel allocate image sz held).1
        ≡ held_after (load_kernel allocate image sz held).0 held
  unfolding load_kernel give_back
  load_kernel-held sz held = elim (Bool-cases (is_loadable image sz)) [
    | inr bad ↦ rw bad
    | inl good ↦ elim (Option-cases (allocate held 0xFF000 1)) [
      | inl refused ↦ rw (good, refused)
      | inr (mem, given) ↦
          rw (good, given) (load_cmdline-IsHeld mem held (never_null _ _ _ mem given))
    ]
  ]

-- What a loaded kernel has in memory, and that it was accepted.
pub record IsKernel (image : List ℕ) (sz : ℕ) (l : Loaded) : Type 0 where
  pub accepted : is_loadable image sz ≡ true
  pub room : l.kernel.pages ≡ u32 (image_size image + 4095) / 4096
  pub copied : l.image_bytes ≡ slice (setup_size image) (image_size image) image
  pub filled : l.zeropage_bytes ≡ fill_zeropage image l.kernel

abbrev IsKernelOrFailure : List ℕ → ℕ → Option Loaded → Type 0
IsKernelOrFailure image sz none = Unit
IsKernelOrFailure image sz (some l) = IsKernel image sz l

loadable-fits :
    (image : List ℕ) (sz : ℕ)
    → is_loadable image sz ≡ true
    → setup_size image + image_size image < 2 ^ 32
    → setup_size image + image_size image ≤ sz + 15
unfolding is_loadable
loadable-fits image sz e small = ground (arith, e)

module _ (allocate : AllocatePages) (image : List ℕ) (sz : ℕ) where
  load_image-IsKernelOrFailure :
      (k : Kernel) (held : List Pages)
      → is_loadable image sz ≡ true
      → IsKernelOrFailure image sz (load_image allocate image k held).0
  unfolding load_image
  load_image-IsKernelOrFailure k held good =
      let pages = u32 (image_size image + 4095) / 4096 in
      elim (Option-cases (allocate held 0x100000 (pages + 1))) [
        | inl refused ↦ rw (load_image, refused) tt
        | inr (mem, given) ↦
            rw (load_image, given)
              (record { accepted = good; room = refl; copied = refl; filled = refl })
      ]

  load_cmdline-IsKernelOrFailure :
      (k : Kernel) (held : List Pages)
      → is_loadable image sz ≡ true
      → IsKernelOrFailure image sz (load_cmdline allocate image k held).0
  unfolding load_cmdline
  load_cmdline-IsKernelOrFailure k held good = elim (Option-cases (allocate held 0xFF000 1)) [
    | inl refused ↦ rw (load_cmdline, refused) tt
    | inr (mem, given) ↦
        rw (load_cmdline, given)
          (load_image-IsKernelOrFailure (record k { cmdline = mem }) (one_page mem ∷ held) good)
  ]

  load_kernel-IsKernelOrFailure :
      (held : List Pages) → IsKernelOrFailure image sz (load_kernel allocate image sz held).0
  unfolding load_kernel
  load_kernel-IsKernelOrFailure held = elim (Bool-cases (is_loadable image sz)) [
    | inr bad ↦ rw bad tt
    | inl good ↦ elim (Option-cases (allocate held 0xFF000 1)) [
      | inl refused ↦ rw (good, refused) tt
      | inr (mem, given) ↦
          rw (good, given)
            (load_cmdline-IsKernelOrFailure (partly mem 0 0) (one_page mem ∷ held) good)
    ]
  ]

  pub load_kernel-IsKernel :
      (l : Loaded) (held : List Pages)
      → (load_kernel allocate image sz held).0 ≡ some l
      → IsKernel image sz l
  load_kernel-IsKernel l held e =
      subst (IsKernelOrFailure image sz) e (load_kernel-IsKernelOrFailure held)

  -- Where a kernel of less than 2^31 bytes is loaded and the sum of its two sizes does not wrap, the
  -- copied part ends at most 15 bytes behind the kernel's end and fits the pages allocated for it,
  -- and is what lies in the image behind the setup part.
  pub load_kernel-fits :
      (l : Loaded) (held : List Pages)
      → (load_kernel allocate image sz held).0 ≡ some l
      → sz < 2 ^ 31
      → setup_size image + image_size image < 2 ^ 32
      → (setup_size image + image_size image ≤ sz + 15)
        × (image_size image ≤ l.kernel.pages * 4096)
        × (l.image_bytes ≡ take (image_size image) (drop (setup_size image) image))
  load_kernel-fits l held e short small =
      let v = load_kernel-IsKernel l held e in
      let fits = loadable-fits image sz v.accepted small in
      (fits, omega (arith, v.room, fits), v.copied)

-- The test of the sizes adds them in 32 bits. A kernel of 1024 to 2^31 - 1 bytes with the right
-- magic and version and a sector count from 1 to 255, whose sizes add up to at least 2^32 and to
-- at most 2^32 + sz + 15, is accepted although more bytes are to be copied than it has.
pub is_loadable-wraps :
    (image : List ℕ) (sz : ℕ)
    → 1024 ≤ sz
    → sz < 2 ^ 31
    → u32_at image zp_header ≡ 0x53726448
    → 0x020B ≤ u16_at image zp_version
    → 0 < byte_at image zp_setup_sects
    → byte_at image zp_setup_sects < 256
    → 2 ^ 32 ≤ setup_size image + image_size image
    → setup_size image + image_size image ≤ 2 ^ 32 + sz + 15
    → (is_loadable image sz ≡ true) × (sz < image_size image)
unfolding is_loadable
is_loadable-wraps image sz long short magic version sects byte wraps low = ground arith
