-- ===== src/Osboot/Kernel.antt =====
-- src/osboot.c: load_kernel. What the firmware's AllocatePages answers is a parameter; the pages
-- that are held are a list, the last one first.
pub mod Load
pub mod ZeroPage
use gigaboot20x.Base.{
  get_or-append, set-append, ltb, leb, ◌==◌, if◌then◌else◌, ltb→lt, lt→ltb, le→ltb, ltb→le, ==-refl,
  ==→eq, ne→==, tests, Bool-cases, Option-cases, ◌>>=◌, ◌>>◌, length, get_or, set, take, drop,
  replicate, length-append, length-take, length-drop, length-replicate, length-set, take-append,
  drop-append, take-length, take-append-drop, All, All-append, u8, u16, u32, u64, byte_at, slice,
  le16, le32, u16_at, u32_at, IsBytes, ℕ, zero, suc, ◌+◌, ◌-◌, ◌*◌, ◌/◌, ◌%◌, ◌^◌, ◌≤◌, ◌<◌, ◌≡◌,
  refl, sym, ap, ap₂, ◌∙◌, ◌≢◌, ◌↔◌, ◌⊎◌, inl, inr, Bool, true, false, not, ◌&&◌, ◌||◌, Option,
  none, some, List, [], ◌∷◌, ◌++◌, map, append-nil, append_assoc, arith,
}
use gigaboot20x.Cstring.{
  ℤ, pos, negsuc, sub_ℕ, head_or_zero, is_zero, memset, memcpy, memcmp, strlen,
}

abbrev pub zp_setup : ℕ
zp_setup = 0x1F1

abbrev pub zp_setup_sects : ℕ
zp_setup_sects = 0x1F1

abbrev pub zp_jump : ℕ
zp_jump = 0x200

abbrev pub zp_header : ℕ
zp_header = 0x202

abbrev pub zp_version : ℕ
zp_version = 0x206

abbrev pub zp_loader_type : ℕ
zp_loader_type = 0x210

abbrev pub zp_ramdisk_base : ℕ
zp_ramdisk_base = 0x218

abbrev pub zp_ramdisk_size : ℕ
zp_ramdisk_size = 0x21C

abbrev pub zp_cmdline : ℕ
zp_cmdline = 0x228

abbrev pub zp_syssize : ℕ
zp_syssize = 0x1F4

-- kernel_t; 0 is NULL.
pub record Kernel : Type 0 where
  pub zeropage : ℕ
  pub cmdline : ℕ
  pub image : ℕ
  pub pages : ℕ

pub record Pages : Type 0 where
  pub start : ℕ
  pub count : ℕ

-- AllocatePages: given what is held, the limit or address, and the number of pages, the address of
-- the pages, or `none` for an error status.
abbrev pub AllocatePages : Type 0
AllocatePages = List Pages → ℕ → ℕ → Option ℕ

-- FreePages of what was allocated last, and of nothing for any other pages.
abbrev pub free_pages : ℕ → ℕ → List Pages → List Pages
free_pages p n [] = []
free_pages p n (h ∷ held) = if h.start == p && h.count == n then held else h ∷ free_pages p n held

-- What load_kernel leaves in memory: the zero page, the bytes at `image`, and the command line.
pub record Loaded : Type 0 where
  pub kernel : Kernel
  pub zeropage_bytes : List ℕ
  pub image_bytes : List ℕ
  pub cmdline_bytes : List ℕ

-- ZP32(p, off) = v
abbrev pub put32 : ℕ → ℕ → List ℕ → List ℕ
put32 off v page =
    set (set (set (set page off (v % 256)) (off + 1) (v / 256 % 256)) (off + 2) (v / 65536 % 256))
      (off + 3) (v / 16777216 % 256)

-- CopyMem(page + off, bytes, n)
abbrev pub copy_at : ℕ → List ℕ → List ℕ → List ℕ
copy_at off bytes page = take off page ++ memcpy (drop off page) bytes (length bytes)

-- The sizes that the header gives, as UINT32.
abbrev pub setup_size : List ℕ → ℕ
setup_size image = (byte_at image zp_setup_sects + 1) * 512

abbrev pub image_size : List ℕ → ℕ
image_size image = u32 (u32_at image zp_syssize * 16)

abbrev pub setup_end : List ℕ → ℕ
setup_end image = zp_jump + byte_at image (zp_jump + 1)

-- `fail:`
pub give_back : Kernel → List Pages → List Pages
give_back k held =
    let held1 = if k.image == 0 then held else free_pages k.image k.pages held in
    let held2 = if k.cmdline == 0 then held1 else free_pages k.cmdline 1 held1 in
    if k.zeropage == 0 then held2 else free_pages k.zeropage 1 held2

-- The tests before the first allocation; `false` goes to `fail`.
unfoldable pub is_loadable : List ℕ → ℕ → Bool
is_loadable image sz =
    if ltb sz 1024
    then false
    else if not (u32_at image zp_header == 0x53726448)
    then false
    else if ltb (u16_at image zp_version) 0x020B
    then false
    else not
        (ltb (setup_size image) 1024 || ltb (sz + 15) (u32 (setup_size image + image_size image)))

-- ZeroMem(k->zeropage, 4096)
abbrev pub blank_page : List ℕ
blank_page = replicate 4096 0

pub fill_zeropage : List ℕ → Kernel → List ℕ
fill_zeropage image k =
    let setup = slice zp_setup (setup_end image - zp_setup) image in
    let page = copy_at zp_setup setup blank_page in
    let page1 = put32 zp_cmdline (u32 k.cmdline) page in
    let page2 = put32 zp_ramdisk_size 0 (put32 zp_ramdisk_base 0 page1) in
    set page2 zp_loader_type 0xFF

module _ (allocate : AllocatePages) where
  -- The third allocation, and the copies.
  unfoldable pub load_image : List ℕ → Kernel → List Pages → Option Loaded × List Pages
  unfolding give_back fill_zeropage
  load_image image k0 held =
      let k1 = record k0 { pages = u32 (image_size image + 4095) / 4096 } in
      elim (allocate held 0x100000 (k1.pages + 1)) [
        | none ↦ (none, give_back k1 held)
        | some mem ↦
            let k = record k1 { image = mem } in
            (
              some (record {
                kernel = k;
                zeropage_bytes = fill_zeropage image k;
                image_bytes = slice (setup_size image) (image_size image) image;
                cmdline_bytes = 0 ∷ [];
              }),
              record { start = mem; count = k1.pages + 1 } ∷ held,
            )
      ]

  unfoldable pub load_cmdline : List ℕ → Kernel → List Pages → Option Loaded × List Pages
  unfolding load_image
  load_cmdline image k held = elim (allocate held 0xFF000 1) [
    | none ↦ (none, give_back k held)
    | some mem ↦
        load_image image (record k { cmdline = mem }) (record { start = mem; count = 1 } ∷ held)
  ]

  -- load_kernel; `none` is -1. `image` is the memory from the image on, which may go on behind `sz`.
  unfoldable pub load_kernel : List ℕ → ℕ → List Pages → Option Loaded × List Pages
  unfolding load_cmdline is_loadable
  load_kernel image sz held =
      let k : Kernel = record { zeropage = 0; cmdline = 0; image = 0; pages = 0 } in
      if not (is_loadable image sz)
      then (none, give_back k held)
      else elim (allocate held 0xFF000 1) [
        | none ↦ (none, give_back k held)
        | some mem ↦
            load_cmdline image (record k { zeropage = mem })
              (record { start = mem; count = 1 } ∷ held)
      ]
