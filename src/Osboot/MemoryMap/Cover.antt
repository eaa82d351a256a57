-- ===== src/Osboot/MemoryMap/Cover.antt =====
-- The addresses that the E820 table and the firmware's map cover.

use mathlib.Core.Bool.{or-false}
use mathlib.Core.Option.{some-injective}
use mathlib.Core.List.{reverse, reverse-cons}
use gigaboot20x.Base.{
  ltb, leb, ◌==◌, Bool-cases, All, ℕ, ◌+◌, ◌*◌, ◌^◌, ◌<◌, ◌≡◌, refl, sym, ap, ◌∙◌, ◌≢◌, inl, inr,
  Bool, true, false, ◌&&◌, ◌||◌, some, List, [], ◌∷◌, ◌++◌, arith,
}
use gigaboot20x.Osboot.MemoryMap.{
  e820type, e820_ignore, MemoryDescriptor, E820Entry, continues, add_descriptor, add_descriptors,
  MemoryMap, process_memory_map,
}
use gigaboot20x.Osboot.MemoryMap.Shape.{
  Round-add_descriptors, follow, process_memory_map-add_descriptors,
}

abbrev entry_covers : ℕ → ℕ → E820Entry → Bool
entry_covers t a e = e.type == t && (leb e.addr a && ltb a (e.addr + e.size))

abbrev pub table_covers : ℕ → ℕ → List E820Entry → Bool
table_covers t a [] = false
table_covers t a (e ∷ table) = entry_covers t a e || table_covers t a table

-- The range of a descriptor by its pages, without the wrap of 64-bit arithmetic.
abbrev descriptor_covers : ℕ → ℕ → MemoryDescriptor → Bool
descriptor_covers t a d =
    e820type d.type == t
    && (leb d.physical_start a && ltb a (d.physical_start + d.number_of_pages * 4096))

abbrev pub map_covers : ℕ → ℕ → List MemoryDescriptor → Bool
map_covers t a [] = false
map_covers t a (d ∷ ds) = descriptor_covers t a d || map_covers t a ds

-- A range that ends below 2^64.
abbrev IsRange : MemoryDescriptor → Type 0
IsRange d = d.physical_start + d.number_of_pages * 4096 < 2 ^ 64

abbrev HasRanges : List E820Entry → Type 0
HasRanges = All (λ (e : E820Entry). e.addr + e.size < 2 ^ 64)

add_descriptor-HasRanges :
    (table : List E820Entry) (d : MemoryDescriptor)
    → IsRange d
    → HasRanges table
    → HasRanges (add_descriptor table d)
unfolding add_descriptor
add_descriptor-HasRanges [] d r v = (omega arith, tt)
add_descriptor-HasRanges (e ∷ table) d r v = elim (Bool-cases (continues e d)) [
  | inl joined ↦ rw joined (ground (arith, joined), v.1)
  | inr apart ↦ rw apart (omega arith, v)
]

-- One descriptor adds its own range to what the table covers.
add_descriptor-covers :
    (t a : ℕ) (table : List E820Entry) (d : MemoryDescriptor)
    → IsRange d
    → HasRanges table
    → table_covers t a (add_descriptor table d)
      ≡ (descriptor_covers t a d || table_covers t a table)
unfolding add_descriptor
add_descriptor-covers t a [] d r v = ground arith
add_descriptor-covers t a (e ∷ table) d r v = ground arith

ignored_covers :
    (t a : ℕ) (d : MemoryDescriptor)
    → t ≢ e820_ignore
    → e820type d.type ≡ e820_ignore
    → descriptor_covers t a d ≡ false
ignored_covers t a d named ignored = ground arith

exchange : (a b c : Bool) → (a || (b || c)) ≡ ((b || a) || c)
exchange true true c = refl
exchange true false c = refl
exchange false true c = refl
exchange false false c = refl

add_descriptors-covers :
    (t a : ℕ) (ds : List MemoryDescriptor) (table result : List E820Entry)
    → t ≢ e820_ignore
    → All IsRange ds
    → HasRanges table
    → add_descriptors ds table ≡ some result
    → table_covers t a result ≡ (map_covers t a ds || table_covers t a table)
unfolding add_descriptors
add_descriptors-covers t a [] table result named r v e =
    ap (table_covers t a) (sym (some-injective _ _ e))
add_descriptors-covers t a (d ∷ ds) table result named r v e =
    follow
      (λ result.
        table_covers t a result
        ≡ ((descriptor_covers t a d || map_covers t a ds) || table_covers t a table))
      (Round-add_descriptors d ds table result e)
      (λ ignored rest.
        rw (ignored_covers t a d named ignored)
          (add_descriptors-covers t a ds table result named r.1 v rest))
      (λ kept rest.
        add_descriptors-covers t a ds (add_descriptor table d) result named r.1
          (add_descriptor-HasRanges table d r.0 v) rest
        ∙ ap (λ b. map_covers t a ds || b) (add_descriptor-covers t a table d r.0 v)
        ∙ exchange (map_covers t a ds) (descriptor_covers t a d) (table_covers t a table))

table_covers-append :
    (t a : ℕ) (xs ys : List E820Entry)
    → table_covers t a (xs ++ ys) ≡ (table_covers t a ys || table_covers t a xs)
table_covers-append t a [] ys = sym (or-false (table_covers t a ys))
table_covers-append t a (e ∷ xs) ys =
    ap (λ b. entry_covers t a e || b) (table_covers-append t a xs ys)
    ∙ swap (entry_covers t a e) (table_covers t a ys) (table_covers t a xs)
  where
    swap : (a b c : Bool) → (a || (b || c)) ≡ (b || (a || c))
    swap true true c = refl
    swap true false c = refl
    swap false b c = refl

table_covers-reverse :
    (t a : ℕ) (table : List E820Entry) → table_covers t a (reverse table) ≡ table_covers t a table
table_covers-reverse t a [] = refl
table_covers-reverse t a (e ∷ table) =
    ap (table_covers t a) (reverse-cons e table)
    ∙ table_covers-append t a (reverse table) (e ∷ [])
    ∙ ap (λ b. b || table_covers t a (reverse table)) (or-false (entry_covers t a e))
    ∙ ap (λ b. entry_covers t a e || b) (table_covers-reverse t a table)

-- Where every range of the firmware's map ends below 2^64, a table that process_memory_map returns
-- covers an address with a type other than IGNORE exactly when a range of the firmware's map that
-- e820type gives that type contains the address.
pub process_memory_map-covers :
    (m : MemoryMap) (key t a : ℕ) (table : List E820Entry)
    → t ≢ e820_ignore
    → All IsRange m.descriptors
    → process_memory_map m ≡ some (key, table)
    → table_covers t a table ≡ map_covers t a m.descriptors
process_memory_map-covers m key t a table named r e =
    sym (table_covers-reverse t a table)
    ∙ add_descriptors-covers t a m.descriptors [] (reverse table) named r tt
        (process_memory_map-add_descriptors m key table e)
    ∙ or-false (map_covers t a m.descriptors)
