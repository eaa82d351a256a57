-- ===== src/Osboot/Acpi/Root.antt =====
-- Which table find_acpi_root takes.
use gigaboot20x.Base.{
  if◌then◌else◌, Bool-cases, u32, ℕ, ◌≡◌, refl, sym, ◌∙◌, ◌≢◌, inl, inr, true, false, List, [], ◌∷◌,
}
use gigaboot20x.Cstring.{ℤ, is_zero}
use gigaboot20x.Osboot.Acpi.{ConfigurationTable, acpi_rsd_ptr, is_skipped, find_acpi_root}

module _ (compare_guid : List ℕ → List ℕ → ℤ) (compare_mem : List ℕ → List ℕ → ℕ → ℤ)
    (acpi_table_guid acpi2_table_guid : List ℕ)
    (equal_guids : (a b : List ℕ) → is_zero (compare_guid a b) ≡ true → a ≡ b)
    (two_guids : acpi_table_guid ≢ acpi2_table_guid) where
  not_skipped :
      (t : ConfigurationTable)
      → is_skipped compare_guid compare_mem acpi_table_guid acpi2_table_guid t ≡ false
  not_skipped t = elim (Bool-cases (is_zero (compare_guid t.vendor_guid acpi_table_guid))) [
    | inr other ↦ rw other
    | inl one ↦ elim (Bool-cases (is_zero (compare_guid t.vendor_guid acpi2_table_guid))) [
      | inr other ↦ rw (one, other)
      | inl both ↦ absurd (
          two_guids (
            sym (equal_guids t.vendor_guid acpi_table_guid one)
            ∙ equal_guids t.vendor_guid acpi2_table_guid both))
    ]
  ]

  -- The address of the first table that begins with "RSD PTR ", and 0 if there is none.
  abbrev first_signed : List ConfigurationTable → ℕ
  first_signed [] = 0
  first_signed (t ∷ tables) =
      if is_zero (compare_mem t.head acpi_rsd_ptr 8)
      then u32 t.vendor_table
      else first_signed tables

  -- Where CompareGuid is 0 only for equal GUIDs and the two ACPI GUIDs differ, find_acpi_root takes
  -- the first table that begins with "RSD PTR ", whatever GUID the table has.
  pub find_acpi_root-first_signed :
      (tables : List ConfigurationTable)
      → find_acpi_root compare_guid compare_mem acpi_table_guid acpi2_table_guid tables
        ≡ first_signed tables
  unfolding find_acpi_root
  find_acpi_root-first_signed [] = refl
  find_acpi_root-first_signed (t ∷ tables) =
      let rest = find_acpi_root-first_signed tables in
      elim (Bool-cases (is_zero (compare_mem t.head acpi_rsd_ptr 8))) [
        | inl signed ↦ rw (not_skipped t, signed)
        | inr other ↦ rw (not_skipped t, other) rest
      ]
