-- ===== src/Osboot/Boot/Examples.antt =====
-- Runs of the theorems about load_kernel and boot_kernel of src/osboot.c.
use gigaboot20x.Base.{drop, length}
use gigaboot20x.Cstring.{pos, memcmp}
use gigaboot20x.Base.{
  length, set, take, drop, replicate, byte_at, slice, ℕ, ◌+◌, ◌*◌, ◌≤◌, ◌<◌, ◌≡◌, refl, ◌≢◌, inl,
  true, none, some, List, [], ◌∷◌, arith,
}
use gigaboot20x.Osboot.MemoryMap.{MemoryMap, process_memory_map}
use gigaboot20x.Osboot.Kernel.{
  zp_setup_sects, zp_header, zp_syssize, Kernel, AllocatePages, Loaded, put32, setup_size,
  image_size, is_loadable, blank_page, fill_zeropage, load_image, load_cmdline, load_kernel,
}
use gigaboot20x.Osboot.Kernel.Load.{
  IsNeverNull, held_after, load_kernel-held, load_kernel-fits, is_loadable-wraps,
}
use gigaboot20x.Osboot.Kernel.ZeroPage.{fill_zeropage-setup}
use gigaboot20x.Osboot.Boot.{BootFirmware, fill_cmdline, starts, leave_firmware, Given, boot_kernel}
use gigaboot20x.Osboot.Boot.Table.{IsInPage, leave_firmware-IsInPage, fill_cmdline-ends}

-- A kernel of 1040 bytes: a setup part of two sectors, and `units` units of 16 bytes.
abbrev small_kernel : ℕ → List ℕ
small_kernel units =
    put32 zp_syssize units (
      set (set (put32 zp_header 0x53726448 (set (replicate 1040 0) 0x201 0x66)) 0x206 0x0B) 0x207 2)

abbrev pub two_sectors : ℕ → List ℕ
two_sectors units = set (small_kernel units) zp_setup_sects 1

-- Every allocation succeeds, at a new address.
abbrev pub next_address : AllocatePages
next_address held at pages = some (4096 * (length held + 1))

next_address-IsNeverNull : IsNeverNull next_address
next_address-IsNeverNull held at pages mem e = ground (arith, e)

abbrev loaded_at : Kernel
loaded_at = record { zeropage = 4096; cmdline = 8192; image = 12288; pages = 1 }

abbrev small_loaded : Loaded
small_loaded = record {
  kernel = loaded_at;
  zeropage_bytes = fill_zeropage (two_sectors 1) loaded_at;
  image_bytes = slice 1024 16 (two_sectors 1);
  cmdline_bytes = 0 ∷ [];
}

loads : (load_kernel next_address (two_sectors 1) 1040 []).0 ≡ some small_loaded
unfolding load_kernel load_cmdline load_image is_loadable
loads = refl

load_kernel-held_example :
    (load_kernel next_address (two_sectors 1) 1040 []).1
    ≡ held_after (load_kernel next_address (two_sectors 1) 1040 []).0 []
load_kernel-held_example =
    load_kernel-held next_address next_address-IsNeverNull (two_sectors 1) 1040 []

load_kernel-fits_example :
    (setup_size (two_sectors 1) + image_size (two_sectors 1) ≤ 1040 + 15)
    × (image_size (two_sectors 1) ≤ 1 * 4096)
    × (small_loaded.image_bytes
        ≡ take (image_size (two_sectors 1)) (drop (setup_size (two_sectors 1)) (two_sectors 1)))
load_kernel-fits_example =
    load_kernel-fits next_address (two_sectors 1) 1040 small_loaded [] loads (omega arith)
      (omega arith)

is_loadable-wraps_example :
    (is_loadable (two_sectors 0x0FFFFFFF) 1040 ≡ true)
    × (1040 < image_size (two_sectors 0x0FFFFFFF))
is_loadable-wraps_example =
    is_loadable-wraps (two_sectors 0x0FFFFFFF) 1040 (omega arith) (omega arith) refl (omega arith)
      (omega arith) (omega arith) (omega arith) (omega arith)

fill_zeropage-setup_example :
    byte_at (fill_zeropage (two_sectors 1) loaded_at) 0x202 ≡ byte_at (two_sectors 1) 0x202
fill_zeropage-setup_example =
    fill_zeropage-setup (two_sectors 1) loaded_at 0x202 (omega arith) (omega arith) (omega arith)
      (omega arith, inl (omega arith), inl (omega arith))

abbrev empty_map : ℕ → MemoryMap
empty_map status = record { status = status; msize = 0; mkey = 7; descriptors = [] }

-- GetMemoryMap answers with the given status at first; ExitBootServices takes every key.
abbrev pub boot_firmware : ℕ → BootFirmware
boot_firmware status = record {
  graphics = record { base = 0; width = 640; height = 480; stride = 640 };
  compare_guid = λ a b. pos 1;
  compare_mem = memcmp;
  acpi_table_guid = 1 ∷ [];
  acpi2_table_guid = 2 ∷ [];
  tables = [];
  first_map = empty_map status;
  second_map = empty_map 0;
  exit_boot_services = λ call key. 0;
}

map_taken : process_memory_map (empty_map 0) ≢ none
unfolding process_memory_map
map_taken e = ground (arith, e)

leave_firmware-IsInPage_example : IsInPage (leave_firmware (boot_firmware 0) 0)
leave_firmware-IsInPage_example = leave_firmware-IsInPage (boot_firmware 0) 0 map_taken map_taken

abbrev no_ramdisk : Given
no_ramdisk = record { address = 0; size = 0; bytes = [] }

abbrev quiet : Given
quiet = record { address = 65536; size = 2; bytes = 65 ∷ 66 ∷ [] }

starts_small :
    (boot_kernel next_address
      (boot_firmware 0)
      (two_sectors 1)
      1040
      no_ramdisk
      quiet
      []
      blank_page
      0).outcome
    ≡ starts 0 0
unfolding boot_kernel load_kernel load_cmdline load_image is_loadable process_memory_map
starts_small = refl

fill_cmdline-ends_example :
    (fill_cmdline quiet.bytes 2 blank_page ≡ 65 ∷ 66 ∷ 0 ∷ drop 3 blank_page)
    × (length (fill_cmdline quiet.bytes 2 blank_page) ≡ 4096)
fill_cmdline-ends_example = fill_cmdline-ends quiet.bytes blank_page 2 (omega arith) refl
