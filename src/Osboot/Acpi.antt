-- ===== src/Osboot/Acpi.antt =====
-- src/osboot.c: looking for the ACPI root in the firmware's configuration tables. CompareGuid and
-- CompareMem belong to the firmware library and are parameters.
pub mod Root
use gigaboot20x.Base.{
  get_or-append, set-append, ltb, leb, ◌==◌, if◌then◌else◌, ltb→lt, lt→ltb, le→ltb, ltb→le, ==-refl,
  ==→eq, ne→==, tests, Bool-cases, Option-cases, ◌>>=◌, ◌>>◌, length, get_or, set, take, drop,
  replicate, length-append, length-take, length-drop, length-replicate, length-set, take-append,
  drop-append, take-length, take-append-drop, All, All-append, u8, u16, u32, u64, byte_at, slice,
  le16, le32, u16_at, u32_at, IsBytes, ℕ, zero, suc, ◌+◌, ◌-◌, ◌*◌, ◌/◌, ◌%◌, ◌^◌, ◌≤◌, ◌<◌, ◌≡◌,
  refl, sym, ap, ap₂, ◌∙◌, ◌≢◌, ◌↔◌, ◌⊎◌, inl, inr, Bool, true, false, not, ◌&&◌, ◌||◌, Option,
  none, some, List, [], ◌∷◌, ◌++◌, map, append-nil, append_assoc, arith,
}
use gigaboot20x.Cstring.{
  ℤ, pos, negsuc, sub_ℕ, head_or_zero, is_zero, memset, memcpy, memcmp, strlen,
}

-- `head` are the bytes at VendorTable.
pub record ConfigurationTable : Type 0 where
  pub vendor_guid : List ℕ
  pub vendor_table : ℕ
  pub head : List ℕ

-- "RSD PTR "
abbrev pub acpi_rsd_ptr : List ℕ
acpi_rsd_ptr = b'R' ∷ b'S' ∷ b'D' ∷ b' ' ∷ b'P' ∷ b'T' ∷ b'R' ∷ b' ' ∷ []

module _ (compare_guid : List ℕ → List ℕ → ℤ) (compare_mem : List ℕ → List ℕ → ℕ → ℤ)
    (acpi_table_guid acpi2_table_guid : List ℕ) where
  -- Whether the first test of the loop goes on to the next table.
  abbrev pub is_skipped : ConfigurationTable → Bool
  is_skipped t =
      is_zero (compare_guid t.vendor_guid acpi_table_guid)
      && is_zero (compare_guid t.vendor_guid acpi2_table_guid)

  -- The address is returned as a uint32_t.
  pub find_acpi_root : List ConfigurationTable → ℕ
  find_acpi_root [] = 0
  find_acpi_root (t ∷ tables) =
      let rest = find_acpi_root tables in
      if is_skipped t
      then rest
      else if not (is_zero (compare_mem t.head acpi_rsd_ptr 8))
      then rest
      else u32 t.vendor_table
