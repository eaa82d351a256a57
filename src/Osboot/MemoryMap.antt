-- ===== src/Osboot/MemoryMap.antt =====
-- src/osboot.c: the firmware's memory map turned into the kernel's E820 table.
pub mod Shape
pub mod Cover
use mathlib.Core.List.{reverse}
use gigaboot20x.Base.{
  get_or-append, set-append, ltb, leb, ◌==◌, if◌then◌else◌, ltb→lt, lt→ltb, le→ltb, ltb→le, ==-refl,
  ==→eq, ne→==, tests, Bool-cases, Option-cases, ◌>>=◌, ◌>>◌, length, get_or, set, take, drop,
  replicate, length-append, length-take, length-drop, length-replicate, length-set, take-append,
  drop-append, take-length, take-append-drop, All, All-append, u8, u16, u32, u64, byte_at, slice,
  le16, le32, u16_at, u32_at, IsBytes, ℕ, zero, suc, ◌+◌, ◌-◌, ◌*◌, ◌/◌, ◌%◌, ◌^◌, ◌≤◌, ◌<◌, ◌≡◌,
  refl, sym, ap, ap₂, ◌∙◌, ◌≢◌, ◌↔◌, ◌⊎◌, inl, inr, Bool, true, false, not, ◌&&◌, ◌||◌, Option,
  none, some, List, [], ◌∷◌, ◌++◌, map, append-nil, append_assoc, arith,
}

-- EFI_MEMORY_TYPE, in the order of the UEFI specification.
abbrev pub efi_reserved : ℕ
efi_reserved = 0

abbrev pub efi_loader_code : ℕ
efi_loader_code = 1

abbrev pub efi_loader_data : ℕ
efi_loader_data = 2

abbrev pub efi_boot_services_code : ℕ
efi_boot_services_code = 3

abbrev pub efi_boot_services_data : ℕ
efi_boot_services_data = 4

abbrev pub efi_runtime_services_code : ℕ
efi_runtime_services_code = 5

abbrev pub efi_runtime_services_data : ℕ
efi_runtime_services_data = 6

abbrev pub efi_conventional : ℕ
efi_conventional = 7

abbrev pub efi_acpi_reclaim : ℕ
efi_acpi_reclaim = 9

abbrev pub efi_acpi_nvs : ℕ
efi_acpi_nvs = 10

abbrev pub efi_mmio : ℕ
efi_mmio = 11

abbrev pub efi_mmio_port_space : ℕ
efi_mmio_port_space = 12

abbrev pub efi_pal_code : ℕ
efi_pal_code = 13

abbrev pub e820_ignore : ℕ
e820_ignore = 0

abbrev pub e820_ram : ℕ
e820_ram = 1

abbrev pub e820_reserved : ℕ
e820_reserved = 2

abbrev pub e820_acpi : ℕ
e820_acpi = 3

abbrev pub e820_nvs : ℕ
e820_nvs = 4

abbrev pub e820_unusable : ℕ
e820_unusable = 5

-- The build does not define WITH_RUNTIME_SERVICES.
pub e820type : ℕ → ℕ
e820type t =
    if t == efi_reserved || t == efi_pal_code
    then e820_reserved
    else if t == efi_runtime_services_code || t == efi_runtime_services_data
    then e820_ram
    else if t == efi_acpi_reclaim
    then e820_acpi
    else if t == efi_acpi_nvs
    then e820_nvs
    else if (t == efi_loader_code || t == efi_loader_data)
        || (t == efi_boot_services_code || t == efi_boot_services_data)
        || t == efi_conventional
    then e820_ram
    else if t == efi_mmio || t == efi_mmio_port_space
    then e820_ignore
    else if leb 0x80000000 t
    then e820_ram
    else e820_unusable

pub record MemoryDescriptor : Type 0 where
  pub type : ℕ
  pub physical_start : ℕ
  pub number_of_pages : ℕ

pub record E820Entry : Type 0 where
  pub addr : ℕ
  pub size : ℕ
  pub type : ℕ

-- `NumberOfPages * 4096UL`
abbrev pub byte_size : MemoryDescriptor → ℕ
byte_size d = u64 (d.number_of_pages * 4096)

abbrev pub entry_of : MemoryDescriptor → E820Entry
entry_of d = record { addr = d.physical_start; size = byte_size d; type = e820type d.type }

-- Whether the descriptor goes on where the last entry, of the same type, ends.
abbrev pub continues : E820Entry → MemoryDescriptor → Bool
continues e d = e.type == e820type d.type && u64 (e.addr + e.size) == d.physical_start

-- The table is kept with its last entry first.
pub add_descriptor : List E820Entry → MemoryDescriptor → List E820Entry
add_descriptor [] d = entry_of d ∷ []
add_descriptor (e ∷ table) d =
    if continues e d
    then record e { size = u64 (e.size + byte_size d) } ∷ table
    else entry_of d ∷ e ∷ table

abbrev pub max_entries : ℕ
max_entries = 128

-- The loop; `none` is the return of -1 when the table is full.
pub add_descriptors : List MemoryDescriptor → List E820Entry → Option (List E820Entry)
unfolding add_descriptor e820type
add_descriptors [] table = some table
add_descriptors (d ∷ ds) table =
    let skipped = add_descriptors ds table in
    let added = add_descriptors ds (add_descriptor table d) in
    if e820type d.type == e820_ignore
    then skipped
    else if length (add_descriptor table d) == max_entries
    then none
    else added

-- What GetMemoryMap answers: its status, the size and the key of the map, and the map.
pub record MemoryMap : Type 0 where
  pub status : ℕ
  pub msize : ℕ
  pub mkey : ℕ
  pub descriptors : List MemoryDescriptor

abbrev pub scratch_size : ℕ
scratch_size = 32768

-- The key and the table in order; `none` is -1.
unfoldable pub process_memory_map : MemoryMap → Option (ℕ × List E820Entry)
unfolding add_descriptors
process_memory_map m =
    if not (m.status == 0)
    then none
    else if ltb scratch_size m.msize
    then none
    else (add_descriptors m.descriptors [] >>= λ table. some (m.mkey, reverse table))
