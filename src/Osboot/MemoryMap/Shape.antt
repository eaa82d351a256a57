-- ===== src/Osboot/MemoryMap/Shape.antt =====
-- The size of the table and its neighbouring entries.
use mathlib.Core.Path.{subst}
use mathlib.Core.Option.{some-injective}
use mathlib.Core.List.{reverse, reverse-reverse}
use gigaboot20x.Base.{
  ◌==◌, Bool-cases, Option-cases, length, length-reverse, u64, ℕ, ◌+◌, ◌≤◌, ◌<◌, ◌≡◌, sym, ap, ◌∙◌,
  ◌≢◌, inl, inr, false, some, List, [], ◌∷◌, arith,
}
use gigaboot20x.Osboot.MemoryMap.{
  e820type, e820_ignore, MemoryDescriptor, E820Entry, entry_of, continues, add_descriptor,
  max_entries, add_descriptors, MemoryMap, process_memory_map,
}

length-add_descriptor :
    (table : List E820Entry) (d : MemoryDescriptor)
    → length (add_descriptor table d) ≤ length table + 1
unfolding add_descriptor
length-add_descriptor [] d = omega arith
length-add_descriptor (e ∷ table) d = ground arith

-- The table that is handed to the kernel has fewer than 128 entries.
add_descriptors-length :
    (ds : List MemoryDescriptor) (table result : List E820Entry)
    → length table < max_entries
    → add_descriptors ds table ≡ some result
    → length result < max_entries
unfolding add_descriptors
add_descriptors-length [] table result short e = ground arith
add_descriptors-length (d ∷ ds) table result short e = ground (
  arith,
  length-add_descriptor table d,
  add_descriptors-length ds table result,
  add_descriptors-length ds (add_descriptor table d) result,
)

abbrev Touches : E820Entry → E820Entry → Type 0
Touches e f = (e.type ≡ f.type) × (u64 (e.addr + e.size) ≡ f.addr)

-- No entry goes on where the one before it, of the same type, ends; none has the type IGNORE.
abbrev pub IsMerged : List E820Entry → Type 0
IsMerged [] = Unit
IsMerged (f ∷ []) = f.type ≢ e820_ignore
IsMerged (f ∷ e ∷ table) = (f.type ≢ e820_ignore) × (¬ Touches e f) × IsMerged (e ∷ table)

not_touching :
    (e : E820Entry) (d : MemoryDescriptor) → continues e d ≡ false → ¬ Touches e (entry_of d)
not_touching e d apart t = ground arith

-- The two ways on of a round that does not fail.
pub data Round (d : MemoryDescriptor) (ds : List MemoryDescriptor) (table result : List E820Entry)
    : Type 0 where
  skips :
      e820type d.type ≡ e820_ignore
      → add_descriptors ds table ≡ some result
      → Round d ds table result
  adds :
      e820type d.type ≢ e820_ignore
      → add_descriptors ds (add_descriptor table d) ≡ some result
      → Round d ds table result

pub Round-add_descriptors :
    (d : MemoryDescriptor) (ds : List MemoryDescriptor) (table result : List E820Entry)
    → add_descriptors (d ∷ ds) table ≡ some result
    → Round d ds table result
unfolding add_descriptors
Round-add_descriptors d ds table result e = elim (Bool-cases (e820type d.type == e820_ignore)) [
  | inl skipped ↦ skips (ground (arith, skipped)) (ground (arith, skipped, e))
  | inr kept ↦ elim (Bool-cases (length (add_descriptor table d) == max_entries)) [
    | inl full ↦ absurd (ground (arith, kept, full, e))
    | inr room ↦ adds (ground (arith, kept)) (ground (arith, kept, room, e))
  ]
]

add_descriptor-IsMerged :
    (table : List E820Entry) (d : MemoryDescriptor)
    → e820type d.type ≢ e820_ignore
    → IsMerged table
    → IsMerged (add_descriptor table d)
unfolding add_descriptor
add_descriptor-IsMerged [] d kept v = kept
add_descriptor-IsMerged (e ∷ []) d kept v = elim (Bool-cases (continues e d)) [
  | inl joined ↦ rw joined v
  | inr apart ↦ rw apart (kept, not_touching e d apart, v)
]
add_descriptor-IsMerged (f ∷ e ∷ table) d kept v = elim (Bool-cases (continues f d)) [
  | inl joined ↦ rw joined v
  | inr apart ↦ rw apart (kept, not_touching f d apart, v)
]

pub follow :
    (P : List E820Entry → Type 0) {d : MemoryDescriptor} {ds : List MemoryDescriptor}
    {table result : List E820Entry}
    → Round d ds table result
    → (e820type d.type ≡ e820_ignore → add_descriptors ds table ≡ some result → P result)
    → (e820type d.type ≢ e820_ignore
        → add_descriptors ds (add_descriptor table d) ≡ some result
        → P result)
    → P result
follow P (skips ignored rest) skip add = skip ignored rest
follow P (adds kept rest) skip add = add kept rest

-- The invariant rule of the loop.
add_descriptors_inv :
    (P : List E820Entry → Type 0)
    → ((table : List E820Entry) (d : MemoryDescriptor)
        → e820type d.type ≢ e820_ignore
        → P table
        → P (add_descriptor table d))
    → (ds : List MemoryDescriptor) (table result : List E820Entry) → P table
    → add_descriptors ds table ≡ some result
    → P result
unfolding add_descriptors
add_descriptors_inv P keep [] table result v e = subst P (some-injective table result e) v
add_descriptors_inv P keep (d ∷ ds) table result v e =
    follow P (Round-add_descriptors d ds table result e)
      (λ ignored rest. add_descriptors_inv P keep ds table result v rest)
      (λ kept rest.
        add_descriptors_inv P keep ds (add_descriptor table d) result (keep table d kept v) rest)

add_descriptors-IsMerged :
    (ds : List MemoryDescriptor) (table result : List E820Entry)
    → IsMerged table
    → add_descriptors ds table ≡ some result
    → IsMerged result
add_descriptors-IsMerged = add_descriptors_inv IsMerged add_descriptor-IsMerged

-- A map that was taken without a failure went through the loop.
pub process_memory_map-add_descriptors :
    (m : MemoryMap) (key : ℕ) (table : List E820Entry)
    → process_memory_map m ≡ some (key, table)
    → add_descriptors m.descriptors [] ≡ some (reverse table)
unfolding process_memory_map
process_memory_map-add_descriptors m key table e =
    elim (Option-cases (add_descriptors m.descriptors [])) [
      | inl full ↦ absurd (ground (arith, full))
      | inr (result, found) ↦
          let same : some (m.mkey, reverse result) ≡ some (key, table) = ground (arith, found) in
          let last : reverse table ≡ result =
            ap reverse (sym (ap (λ (r : ℕ × List E820Entry). r.1) (some-injective _ _ same)))
            ∙ reverse-reverse result in
          rw last found
    ]

-- A table that process_memory_map returns has fewer than 128 entries, none of the type IGNORE, and
-- no entry starts, in 64 bits, where the one before it ends if both have one type.
pub process_memory_map-IsMerged :
    (m : MemoryMap) (key : ℕ) (table : List E820Entry)
    → process_memory_map m ≡ some (key, table)
    → (length table < max_entries) × IsMerged (reverse table)
process_memory_map-IsMerged m key table e =
    let added = process_memory_map-add_descriptors m key table e in
    (
      omega (
        arith,
        length-reverse table,
        add_descriptors-length m.descriptors [] (reverse table) (omega arith) added,
      ),
      add_descriptors-IsMerged m.descriptors [] (reverse table) tt added,
    )
