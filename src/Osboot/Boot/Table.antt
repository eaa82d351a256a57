-- ===== src/Osboot/Boot/Table.antt =====
-- The table that boot_kernel hands to the kernel.
use Prim.Native.Nat.{min}
use gigaboot20x.Base.{
  refl, length-append, length-drop, ap₂, drop-append, zero, suc, [], ◌∷◌, length,
}
use gigaboot20x.Cstring.{memcpy}
use gigaboot20x.Osboot.Kernel.{copy_at}
use gigaboot20x.Base.{
  ◌==◌, Bool-cases, Option-cases, length, take, drop, length-take, length-drop, take-append, ℕ, ◌+◌,
  ◌*◌, ◌≤◌, ◌≡◌, ap, ◌∙◌, ◌≢◌, inl, inr, true, none, List, ◌++◌, arith,
}
use gigaboot20x.Cstring.Laws.{memcpy_lem}
use gigaboot20x.Osboot.MemoryMap.{MemoryMap, process_memory_map}
use gigaboot20x.Osboot.MemoryMap.Shape.{process_memory_map-IsMerged}
use gigaboot20x.Osboot.Kernel.{Pages, AllocatePages, is_loadable, load_kernel}
use gigaboot20x.Osboot.Kernel.Load.{load_kernel-IsKernel}
use gigaboot20x.Osboot.Boot.{
  zp_e820_table, entry_size, efi_invalid_parameter, BootFirmware, cmdline_length, fill_cmdline,
  entry_count, key_after, Outcome, returns, starts, install_memmap, leave_firmware, after_exit,
  Given, boot_kernel,
}

-- A copy that stays in the zero page, and a count that fits its byte.
abbrev pub IsInPage : Outcome → Type 0
IsInPage returns = Unit
IsInPage (starts copied count) = (zp_e820_table + copied ≤ 4096) × (entry_size * count ≡ copied)

install_memmap-IsInPage :
    (m : MemoryMap)
    → process_memory_map m ≢ none
    → IsInPage (install_memmap (entry_count (process_memory_map m)))
install_memmap-IsInPage m taken = elim (Option-cases (process_memory_map m)) [
  | inl failed ↦ absurd (taken failed)
  | inr (r, e) ↦
      let short = (process_memory_map-IsMerged m r.0 r.1 e).0 in
      rw e (omega (arith, short), omega (arith, short))
]

after_exit-IsInPage :
    (r : ℕ) (m : MemoryMap)
    → process_memory_map m ≢ none
    → IsInPage (after_exit r (process_memory_map m))
after_exit-IsInPage r m taken = elim (Bool-cases (r == 0)) [
  | inl left ↦ rw left (install_memmap-IsInPage m taken)
  | inr refused ↦ rw refused tt
]

-- Where both calls of process_memory_map succeed, whatever ExitBootServices answers, the table that
-- is copied lies inside the zero page, and the count byte is the number of its entries.
pub leave_firmware-IsInPage :
    (fw : BootFirmware) (key : ℕ)
    → process_memory_map fw.first_map ≢ none
    → process_memory_map fw.second_map ≢ none
    → IsInPage (leave_firmware fw key)
unfolding leave_firmware
leave_firmware-IsInPage fw key first second =
    let r = fw.exit_boot_services 0 (key_after key (process_memory_map fw.first_map)) in
    elim (Bool-cases (r == efi_invalid_parameter)) [
      | inl stale ↦ rw stale (after_exit-IsInPage _ fw.second_map second)
      | inr other ↦ rw other (after_exit-IsInPage r fw.first_map first)
    ]

drop_one-drop : (n : ℕ) (xs : List ℕ) → drop 1 (drop n xs) ≡ drop (suc n) xs
drop_one-drop zero xs = refl
drop_one-drop (suc n) [] = refl
drop_one-drop (suc n) (x ∷ xs) = drop_one-drop n xs

-- The command line ends inside its page of 4096 bytes, and nothing is written behind the page: with
-- n the smaller of 4095 and csz, the page then holds the first n of the csz bytes there are, a 0, and
-- what it held behind them, and these are 4096 bytes.
pub fill_cmdline-ends :
    (cmdline page : List ℕ) (csz : ℕ)
    → csz ≤ length cmdline
    → length page ≡ 4096
    → let n = min 4095 csz in
      (fill_cmdline cmdline csz page ≡ take n cmdline ++ 0 ∷ drop (suc n) page)
      × (length (fill_cmdline cmdline csz page) ≡ 4096)
unfolding fill_cmdline
fill_cmdline-ends cmdline page csz fits size =
    let n = min 4095 csz in
    let same : cmdline_length csz ≡ n = ground arith in
    let whole : length (take n cmdline) ≡ n = omega (arith, length-take n cmdline, fits) in
    let copied : memcpy page cmdline n ≡ take n cmdline ++ drop n page =
      memcpy_lem page cmdline n (omega (arith, size)) (omega (arith, fits)) in
    let poked : memcpy (drop n page) (0 ∷ []) 1 ≡ 0 ∷ drop (suc n) page =
      memcpy_lem (drop n page) (0 ∷ []) 1 (omega (arith, length-drop n page, size)) (omega arith)
      ∙ ap (λ t. 0 ∷ t) (drop_one-drop n page) in
    let ended : fill_cmdline cmdline csz page ≡ take n cmdline ++ 0 ∷ drop (suc n) page =
      ap (λ n. copy_at n (0 ∷ []) (memcpy page cmdline n)) same
      ∙ ap (copy_at n (0 ∷ [])) copied
      ∙ ap₂ (λ xs ys. xs ++ memcpy ys (0 ∷ []) 1)
          (take-append (take n cmdline) (drop n page) n whole)
          (drop-append (take n cmdline) (drop n page) n whole)
      ∙ ap (λ ys. take n cmdline ++ ys) poked in
    (
      ended,
      ap length ended
          ∙ omega (
            arith,
            length-append (take n cmdline) (0 ∷ drop (suc n) page),
            length-drop (suc n) page,
            whole,
            size,
          ),
    )

-- boot_kernel starts only an image that passed the tests of load_kernel.
pub boot_kernel-is_loadable :
    (allocate : AllocatePages) (fw : BootFirmware) (image : List ℕ) (sz : ℕ)
    (ramdisk cmdline : Given) (held : List Pages) (old_page : List ℕ) (key copied count : ℕ)
    → (boot_kernel allocate fw image sz ramdisk cmdline held old_page key).outcome
      ≡ starts copied count
    → is_loadable image sz ≡ true
unfolding boot_kernel
boot_kernel-is_loadable allocate fw image sz ramdisk cmdline held old_page key copied count e =
    elim (Option-cases (load_kernel allocate image sz held).0) [
      | inl failed ↦ absurd (ground (arith, failed, e))
      | inr (l, loaded) ↦ (load_kernel-IsKernel allocate image sz l held loaded).accepted
    ]
