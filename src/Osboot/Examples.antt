-- ===== src/Osboot/Examples.antt =====
-- Runs of the theorems about src/osboot.c.
use gigaboot20x.Base.{
  ◌==◌, if◌then◌else◌, ==→eq, Bool-cases, length, ℕ, ◌<◌, ◌≡◌, refl, ap, inl, inr, true, some, List,
  [], ◌∷◌, arith,
}
use gigaboot20x.Osboot.MemoryMap.{
  e820_ram, e820_reserved, MemoryDescriptor, E820Entry, MemoryMap, process_memory_map,
}
use gigaboot20x.Osboot.MemoryMap.Shape.{IsMerged, process_memory_map-IsMerged}
use gigaboot20x.Osboot.MemoryMap.Cover.{table_covers, map_covers, process_memory_map-covers}
use mathlib.Core.List.{reverse}
use gigaboot20x.Cstring.{ℤ, pos, is_zero, memcmp}
use gigaboot20x.Osboot.Acpi.{ConfigurationTable, acpi_rsd_ptr, find_acpi_root}
use gigaboot20x.Osboot.Acpi.Root.{find_acpi_root-first_signed}

abbrev descriptor : ℕ → ℕ → ℕ → MemoryDescriptor
descriptor t start pages = record { type = t; physical_start = start; number_of_pages = pages }

-- Two ranges of RAM that touch, a device, and a reserved range.
abbrev small_map : MemoryMap
small_map = record {
  status = 0;
  msize = 192;
  mkey = 7;
  descriptors =
      descriptor 7 0 16
      ∷ descriptor 1 65536 16
      ∷ descriptor 11 131072 1
      ∷ descriptor 0 135168 1
      ∷ [];
}

abbrev small_table : List E820Entry
small_table =
    record { addr = 0; size = 131072; type = e820_ram }
    ∷ record { addr = 135168; size = 4096; type = e820_reserved }
    ∷ []

small_run : process_memory_map small_map ≡ some (7, small_table)
unfolding process_memory_map
small_run = refl

process_memory_map-IsMerged_example : (length small_table < 128) × IsMerged (reverse small_table)
process_memory_map-IsMerged_example = process_memory_map-IsMerged small_map 7 small_table small_run

process_memory_map-covers_example :
    table_covers e820_ram 70000 small_table ≡ map_covers e820_ram 70000 small_map.descriptors
process_memory_map-covers_example =
    process_memory_map-covers small_map 7 e820_ram 70000 small_table (ground arith)
      (omega arith, (omega arith, (omega arith, (omega arith, tt)))) small_run

-- GUIDs of one number; 0 for equal ones.
abbrev compare_first : List ℕ → List ℕ → ℤ
compare_first (a ∷ []) (b ∷ []) = if a == b then pos 0 else pos 1
compare_first _ _ = pos 1

compare_first-eq : (a b : List ℕ) → is_zero (compare_first a b) ≡ true → a ≡ b
compare_first-eq (a ∷ []) (b ∷ []) e = elim (Bool-cases (a == b)) [
  | inl same ↦ ap (λ x. x ∷ []) (==→eq a b same)
  | inr other ↦ absurd (ground (arith, other))
]
compare_first-eq [] b e = absurd (ground (arith, e))
compare_first-eq (a ∷ c ∷ cs) b e = absurd (ground (arith, e))
compare_first-eq (a ∷ []) [] e = absurd (ground (arith, e))
compare_first-eq (a ∷ []) (b ∷ c ∷ bs) e = absurd (ground (arith, e))

-- The second table has neither GUID, but begins like the root.
abbrev two_tables : List ConfigurationTable
two_tables =
    record { vendor_guid = 3 ∷ []; vendor_table = 4096; head = [] }
    ∷ record { vendor_guid = 4 ∷ []; vendor_table = 8192; head = acpi_rsd_ptr }
    ∷ []

find_acpi_root-first_signed_example :
    find_acpi_root compare_first memcmp (1 ∷ []) (2 ∷ []) two_tables ≡ 8192
unfolding memcmp
find_acpi_root-first_signed_example =
    find_acpi_root-first_signed compare_first memcmp (1 ∷ []) (2 ∷ []) compare_first-eq
      (ground arith) two_tables
