-- ===== src/Samples/ShowMem.antt =====
-- src/showmem.c: the table that dump_memmap prints. The answer of GetMemoryMap is a parameter, and so
-- is sprintf with "0x%08x". A line stands for the arguments of its printf.
use Prim.Native.Char.{code}
use Prim.Native.String.{String}
use native.Mathlib.Nat.{suc-mul}
use gigaboot20x.Base.{
  ltb, ◌==◌, if◌then◌else◌, lt→ltb, le→ltb, ◌>>=◌, u64, ℕ, zero, suc, ◌+◌, ◌*◌, ◌/◌, ◌%◌, ◌^◌, ◌<◌,
  ◌≡◌, true, not, Option, none, some, List, [], ◌∷◌, arith,
}
use gigaboot20x.Osboot.MemoryMap.{
  efi_reserved, efi_loader_code, efi_loader_data, efi_boot_services_code, efi_boot_services_data,
  efi_runtime_services_code, efi_runtime_services_data, efi_conventional, efi_acpi_reclaim,
  efi_acpi_nvs, efi_mmio, efi_mmio_port_space, efi_pal_code,
}

abbrev efi_unusable : ℕ
efi_unusable = 8

-- The characters of a literal.
abbrev codes : String → List ℕ
codes String.[] = []
codes (String.◌∷◌ c s) = code c ∷ codes s

-- The types of the switch, with their names.
abbrev type_names : List (ℕ × List ℕ)
type_names =
    (efi_reserved, codes "Reserved")
    ∷ (efi_loader_code, codes "LoaderCode")
    ∷ (efi_loader_data, codes "LoaderData")
    ∷ (efi_boot_services_code, codes "BootSvcsCode")
    ∷ (efi_boot_services_data, codes "BootSvcsData")
    ∷ (efi_runtime_services_code, codes "RunTimeCode")
    ∷ (efi_runtime_services_data, codes "RunTimeData")
    ∷ (efi_conventional, codes "Conventional")
    ∷ (efi_unusable, codes "Unusable")
    ∷ (efi_acpi_reclaim, codes "ACPIReclaim")
    ∷ (efi_acpi_nvs, codes "ACPINonVolMem")
    ∷ (efi_mmio, codes "MemMappedIO")
    ∷ (efi_mmio_port_space, codes "MemMappedPort")
    ∷ (efi_pal_code, codes "PalCode")
    ∷ []

-- A switch that returns the name of the first case that fits.
abbrev name_in : List (ℕ × List ℕ) → ℕ → List ℕ → List ℕ
name_in [] t other = other
name_in ((k, name) ∷ names) t other = if t == k then name else name_in names t other

-- EFI_MEMORY_DESCRIPTOR
pub record Descriptor : Type 0 where
  pub mem_type : ℕ
  pub physical_start : ℕ
  pub virtual_start : ℕ
  pub number_of_pages : ℕ
  pub attribute : ℕ

pub record Line : Type 0 where
  pub physical : ℕ
  pub virtual : ℕ
  pub pages : ℕ
  pub runtime : ℕ
  pub attribute : ℕ
  pub name : List ℕ

-- What GetMemoryMap answers: its status, the size of the map and of a descriptor, and the descriptor
-- at an offset of `scratch`.
pub record MapAnswer : Type 0 where
  pub status : ℕ
  pub msize : ℕ
  pub dsize : ℕ
  pub descriptor_at : ℕ → Descriptor

module _ (sprintf : ℕ → List ℕ) where
  unfoldable pub mem_type_name : ℕ → List ℕ
  mem_type_name t = name_in type_names t (sprintf t)

  -- `Attribute & EFI_MEMORY_RUNTIME` is the highest bit.
  abbrev line_of : Descriptor → Line
  line_of d = record {
    physical = d.physical_start;
    virtual = d.virtual_start;
    pages = d.number_of_pages;
    runtime = if d.attribute / 2 ^ 63 % 2 == 0 then b'-' else b'R';
    attribute = d.attribute % 2 ^ 16;
    name = mem_type_name d.mem_type;
  }

  -- The loop, over the offset; `none` is out of fuel.
  dump_from : ℕ → MapAnswer → ℕ → Option (List Line)
  dump_from zero m off = none
  dump_from (suc fuel) m off =
      let rest =
        (dump_from fuel m (u64 (off + m.dsize)) >>= λ lines.
        some (line_of (m.descriptor_at off) ∷ lines)) in
      if ltb off m.msize then rest else some []

  -- An offset goes up in every round, so the size of the map bounds the rounds.
  pub dump_memmap : MapAnswer → Option (List Line)
  unfolding dump_from
  dump_memmap m = if not (m.status == 0) then some [] else dump_from (m.msize + 1) m 0

  -- The lines of n descriptors, one behind the other.
  abbrev pub lines_at : ℕ → MapAnswer → ℕ → List Line
  lines_at zero m off = []
  lines_at (suc n) m off = line_of (m.descriptor_at off) ∷ lines_at n m (off + m.dsize)

  dump_from-lines :
      (n fuel off : ℕ) (m : MapAnswer)
      → n < fuel
      → 0 < m.dsize
      → off + n * m.dsize ≡ m.msize
      → m.msize < 2 ^ 64
      → dump_from fuel m off ≡ some (lines_at n m off)
  unfolding dump_from
  dump_from-lines n zero off m enough used fits small = absurd (omega arith)
  dump_from-lines zero (suc fuel) off m enough used fits small =
      rw (le→ltb off m.msize (omega (arith, fits)))
  dump_from-lines (suc n) (suc fuel) off m enough used fits small =
      let more : off + m.dsize + n * m.dsize ≡ m.msize = omega (arith, suc-mul n m.dsize, fits) in
      let next : u64 (off + m.dsize) ≡ off + m.dsize = omega (arith, more, small) in
      rw (
        lt→ltb off m.msize (omega (arith, more, used)),
        next,
        dump_from-lines n fuel (off + m.dsize) m (omega arith) used more small,
      )

  -- Where GetMemoryMap succeeds with n descriptors of a size other than 0, and the map has less than
  -- 2^64 bytes, the loop of dump_memmap ends, and prints exactly one line for each descriptor, in
  -- their order.
  pub dump_memmap-lines :
      (n : ℕ) (m : MapAnswer)
      → m.status ≡ 0
      → 0 < m.dsize
      → n * m.dsize ≡ m.msize
      → m.msize < 2 ^ 64
      → dump_memmap m ≡ some (lines_at n m 0)
  unfolding dump_memmap
  dump_memmap-lines n m done used fits small =
      let succeeds : (m.status == 0) ≡ true = ground (arith, done) in
      rw succeeds (
        dump_from-lines n (m.msize + 1) 0 m (grind (arith, fits, used)) used (omega (arith, fits))
          small)
