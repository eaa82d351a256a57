-- ===== src/Osboot/Boot.antt =====
-- src/osboot.c: boot_kernel and install_memmap, up to the jump into the kernel. The firmware's
-- answers are parameters.
pub mod Table
pub mod Starting
pub mod Examples
use mathlib.Core.List.{reverse}
use gigaboot20x.Base.{
  get_or-append, get_or-append_left, get_or-take, get_or-drop, get_or-set_other, get_or-set,
  length-reverse, set-append, ltb, leb, ◌==◌, if◌then◌else◌, ltb→lt, lt→ltb, le→ltb, ltb→le,
  ==-refl, ==→eq, ne→==, tests, Bool-cases, Option-cases, ◌>>=◌, ◌>>◌, length, get_or, set, take,
  drop, replicate, length-append, length-take, length-drop, length-replicate, length-set,
  take-append, drop-append, take-length, take-append-drop, All, All-append, u8, u16, u32, u64,
  byte_at, slice, le16, le32, u16_at, u32_at, IsBytes, ℕ, zero, suc, ◌+◌, ◌-◌, ◌*◌, ◌/◌, ◌%◌, ◌^◌,
  ◌≤◌, ◌<◌, ◌≡◌, refl, sym, ap, ap₂, ◌∙◌, ◌≢◌, ◌↔◌, ◌⊎◌, inl, inr, Bool, true, false, not, ◌&&◌,
  ◌||◌, Option, none, some, List, [], ◌∷◌, ◌++◌, map, append-nil, append_assoc, arith,
}
use gigaboot20x.Cstring.{
  ℤ, pos, negsuc, sub_ℕ, head_or_zero, is_zero, memset, memcpy, memcmp, strlen,
}
use gigaboot20x.Osboot.MemoryMap.{
  efi_reserved, efi_loader_code, efi_loader_data, efi_boot_services_code, efi_boot_services_data,
  efi_runtime_services_code, efi_runtime_services_data, efi_conventional, efi_acpi_reclaim,
  efi_acpi_nvs, efi_mmio, efi_mmio_port_space, efi_pal_code, e820_ignore, e820_ram, e820_reserved,
  e820_acpi, e820_nvs, e820_unusable, e820type, MemoryDescriptor, E820Entry, byte_size, entry_of,
  continues, add_descriptor, max_entries, add_descriptors, MemoryMap, scratch_size,
  process_memory_map,
}
use gigaboot20x.Osboot.Acpi.{ConfigurationTable, find_acpi_root}
use gigaboot20x.Osboot.Kernel.{
  zp_setup, zp_setup_sects, zp_jump, zp_header, zp_version, zp_loader_type, zp_ramdisk_base,
  zp_ramdisk_size, zp_cmdline, zp_syssize, Kernel, Pages, AllocatePages, free_pages, Loaded, put32,
  copy_at, setup_size, image_size, setup_end, give_back, is_loadable, blank_page, fill_zeropage,
  load_image, load_cmdline, load_kernel,
}

abbrev pub zp_e820_table : ℕ
zp_e820_table = 0x2D0

abbrev zp_extra_magic : ℕ
zp_extra_magic = 0x220

abbrev zp_acpi_rsd : ℕ
zp_acpi_rsd = 0x080

abbrev zp_fb_base : ℕ
zp_fb_base = 0x090

abbrev zp_fb_width : ℕ
zp_fb_width = 0x094

abbrev zp_fb_height : ℕ
zp_fb_height = 0x098

abbrev zp_fb_stride : ℕ
zp_fb_stride = 0x09C

abbrev zp_fb_format : ℕ
zp_fb_format = 0x0A0

abbrev zp_fb_regbase : ℕ
zp_fb_regbase = 0x0A4

abbrev zp_fb_size : ℕ
zp_fb_size = 0x0A8

abbrev zp_magic_value : ℕ
zp_magic_value = 0xDBC64323

-- sizeof(struct e820entry)
abbrev pub entry_size : ℕ
entry_size = 20

abbrev pub efi_invalid_parameter : ℕ
efi_invalid_parameter = 0x8000000000000002

-- gop->Mode
pub record Graphics : Type 0 where
  pub base : ℕ
  pub width : ℕ
  pub height : ℕ
  pub stride : ℕ

-- The configuration tables with what find_acpi_root calls, and what the firmware answers:
-- GetMemoryMap at the two calls, and ExitBootServices at its two calls, 0 and 1, for a key.
pub record BootFirmware : Type 0 where
  pub graphics : Graphics
  pub compare_guid : List ℕ → List ℕ → ℤ
  pub compare_mem : List ℕ → List ℕ → ℕ → ℤ
  pub acpi_table_guid : List ℕ
  pub acpi2_table_guid : List ℕ
  pub tables : List ConfigurationTable
  pub first_map : MemoryMap
  pub second_map : MemoryMap
  pub exit_boot_services : (call key : ℕ) → ℕ

-- The ZP32 lines before the command line.
describe_machine : BootFirmware → List ℕ → List ℕ
describe_machine fw page =
    let root =
      find_acpi_root fw.compare_guid fw.compare_mem fw.acpi_table_guid fw.acpi2_table_guid
        fw.tables in
    let page1 = put32 zp_acpi_rsd root (put32 zp_extra_magic zp_magic_value page) in
    let page2 =
      put32 zp_fb_width (u32 fw.graphics.width) (put32 zp_fb_base (u32 fw.graphics.base) page1) in
    let page3 =
      put32 zp_fb_stride (u32 fw.graphics.stride)
        (put32 zp_fb_height (u32 fw.graphics.height) page2) in
    put32 zp_fb_size (256 * 1024 * 1024) (put32 zp_fb_regbase 0 (put32 zp_fb_format 4 page3))

-- `if (csz >= 4095) csz = 4095;`
abbrev pub cmdline_length : ℕ → ℕ
cmdline_length csz = if leb 4095 csz then 4095 else csz

-- The page of the command line after the copy and its final 0; a write behind the page would make
-- the list longer.
pub fill_cmdline : List ℕ → ℕ → List ℕ → List ℕ
fill_cmdline cmdline csz page =
    copy_at (cmdline_length csz) (0 ∷ []) (memcpy page cmdline (cmdline_length csz))

-- The result of process_memory_map as the `unsigned` that install_memmap takes.
abbrev pub entry_count : Option (ℕ × List E820Entry) → ℕ
entry_count none = 2 ^ 32 - 1
entry_count (some r) = length r.1

-- The key: what the variable held before, where process_memory_map fails.
abbrev pub key_after : ℕ → Option (ℕ × List E820Entry) → ℕ
key_after key none = key
key_after key (some r) = r.0

-- How boot_kernel ends: with a return of -1, or with a jump after install_memmap has copied
-- `copied` bytes to 0x2D0 and written `count` to 0x1E8.
pub data Outcome : Type 0 where
  returns : Outcome
  starts : (copied count : ℕ) → Outcome

abbrev pub install_memmap : ℕ → Outcome
install_memmap count = starts (entry_size * count) (u8 count)

-- `if (r) return -1;` behind ExitBootServices, else the table goes to the kernel.
abbrev pub after_exit : ℕ → Option (ℕ × List E820Entry) → Outcome
after_exit r table = if not (r == 0) then returns else install_memmap (entry_count table)

-- From the first process_memory_map on. `key` is the uninitialised variable.
pub leave_firmware : BootFirmware → ℕ → Outcome
leave_firmware fw key =
    let first = process_memory_map fw.first_map in
    let key1 = key_after key first in
    let r = fw.exit_boot_services 0 key1 in
    let second = process_memory_map fw.second_map in
    if r == efi_invalid_parameter
    then after_exit (fw.exit_boot_services 1 (key_after key1 second)) second
    else after_exit r first

-- A buffer that boot_kernel is given: its address, 0 for NULL, its size, and its bytes.
pub record Given : Type 0 where
  pub address : ℕ
  pub size : ℕ
  pub bytes : List ℕ

-- What the kernel is handed, and how boot_kernel ends.
pub record Booted : Type 0 where
  pub outcome : Outcome
  pub zeropage_bytes : List ℕ
  pub cmdline_bytes : List ℕ

-- `if (ramdisk && rsz)`
abbrev put_ramdisk : Given → List ℕ → List ℕ
put_ramdisk ramdisk page =
    if not (ramdisk.address == 0) && not (ramdisk.size == 0)
    then put32 zp_ramdisk_size (u32 ramdisk.size) (put32 zp_ramdisk_base (u32 ramdisk.address) page)
    else page

-- `if (cmdline)`
abbrev put_cmdline : Given → List ℕ → List ℕ
put_cmdline cmdline page =
    if cmdline.address == 0 then page else fill_cmdline cmdline.bytes cmdline.size page

module _ (allocate : AllocatePages) (fw : BootFirmware) where
  -- `old_page` is what the page of the command line held before, `key` the uninitialised variable.
  pub boot_kernel :
      (image : List ℕ) (sz : ℕ) (ramdisk cmdline : Given) (held : List Pages) (old_page : List ℕ)
      (key : ℕ)
      → Booted
  unfolding describe_machine fill_cmdline leave_firmware
  boot_kernel image sz ramdisk cmdline held old_page key =
      elim (load_kernel allocate image sz held).0 [
        | none ↦ record { outcome = returns; zeropage_bytes = []; cmdline_bytes = [] }
        | some l ↦ record {
          outcome = leave_firmware fw key;
          zeropage_bytes = put_ramdisk ramdisk (describe_machine fw l.zeropage_bytes);
          cmdline_bytes = put_cmdline cmdline (set old_page 0 0);
        }
      ]
