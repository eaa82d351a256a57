-- ===== src/Osboot/Kernel/ZeroPage.antt =====
-- What the kernel finds in its zero page.
use gigaboot20x.Base.{
  ltb, ltb→lt, ltb→le, if◌then◌else◌, Bool-cases, inl, inr, replicate, take-length, zero, suc, refl,
}
use gigaboot20x.Base.{
  get_or-append, get_or-append_left, get_or-take, get_or-drop, get_or-set_other, length, take, drop,
  length-take, length-drop, length-replicate, u32, byte_at, slice, ℕ, ◌+◌, ◌-◌, ◌≤◌, ◌<◌, ◌≡◌, sym,
  ap, ◌∙◌, ◌≢◌, ◌⊎◌, List, ◌++◌, arith,
}
use gigaboot20x.Cstring.Laws.{memcpy_lem}
use gigaboot20x.Osboot.Kernel.{
  zp_setup, zp_loader_type, zp_ramdisk_base, zp_ramdisk_size, zp_cmdline, Kernel, put32, copy_at,
  setup_end, fill_zeropage, blank_page,
}

get_or-copy_at :
    (off j : ℕ) (bytes page : List ℕ)
    → off ≤ j
    → j < off + length bytes
    → off + length bytes ≤ length page
    → byte_at (copy_at off bytes page) j ≡ byte_at bytes (j - off)
get_or-copy_at off j bytes page from to fits =
    let room : length bytes ≤ length (drop off page) = omega (arith, length-drop off page) in
    ap (λ t. byte_at (take off page ++ t) j)
      (memcpy_lem (drop off page) bytes (length bytes) room (omega arith))
    ∙ get_or-append (take off page) _ j (j - off) 0 (omega (arith, length-take off page))
    ∙ get_or-append_left (take (length bytes) bytes) (drop (length bytes) (drop off page)) (j - off)
        0 (omega (arith, length-take (length bytes) bytes))
    ∙ get_or-take (length bytes) bytes (j - off) 0 (omega arith)

get_or-put32 :
    (off v j : ℕ) (page : List ℕ)
    → (j < off) ⊎ (off + 4 ≤ j)
    → byte_at (put32 off v page) j ≡ byte_at page j
get_or-put32 off v j page apart =
    get_or-set_other _ (off + 3) j _ 0 (ground (arith, apart))
    ∙ get_or-set_other _ (off + 2) j _ 0 (ground (arith, apart))
    ∙ get_or-set_other _ (off + 1) j _ 0 (ground (arith, apart))
    ∙ get_or-set_other page off j _ 0 (ground (arith, apart))

length-blank_page : length blank_page ≡ 4096
length-blank_page = length-replicate {A = ℕ} 4096 0

-- Bytes of the setup header that load_kernel does not write itself.
abbrev IsUntouched : ℕ → Type 0
IsUntouched j =
    (j ≢ zp_loader_type)
    × ((j < zp_ramdisk_base) ⊎ (zp_ramdisk_base + 8 ≤ j))
    × ((j < zp_cmdline) ⊎ (zp_cmdline + 4 ≤ j))

get_or-blank : (n j : ℕ) → byte_at (replicate n 0) j ≡ 0
get_or-blank zero j = refl
get_or-blank (suc n) zero = refl
get_or-blank (suc n) (suc j) = get_or-blank n j

-- Behind the copy the page is as it was.
get_or-copy_at_behind :
    (off j : ℕ) (bytes page : List ℕ)
    → off + length bytes ≤ j
    → off + length bytes ≤ length page
    → byte_at (copy_at off bytes page) j ≡ byte_at page j
get_or-copy_at_behind off j bytes page from fits =
    let n = length bytes in
    let room : n ≤ length (drop off page) = omega (arith, length-drop off page) in
    let whole : take n bytes ≡ bytes = take-length bytes n (omega arith) in
    ap (λ t. byte_at (take off page ++ t) j) (memcpy_lem (drop off page) bytes n room (omega arith))
    ∙ get_or-append (take off page) _ j (j - off) 0 (omega (arith, length-take off page))
    ∙ get_or-append (take n bytes) (drop n (drop off page)) (j - off) (j - off - n) 0
        (omega (arith, length-take n bytes))
    ∙ get_or-drop n (drop off page) (j - off - n) (j - off) 0 (omega arith)
    ∙ get_or-drop off page (j - off) j 0 (omega arith)

-- If the image has all bytes that the length byte of the jump at 0x200 covers, then, but for the
-- loader type and the fields of the ramdisk and the command line, the zero page holds the bytes of
-- the image from 0x1F1 on, below the address that is 0x200 plus that length, and 0 from there on. The
-- jump counts from 0x202, so these are all bytes of the header but the last two.
pub fill_zeropage-setup :
    (image : List ℕ) (k : Kernel) (j : ℕ)
    → zp_setup ≤ j
    → byte_at image 0x201 < 256
    → 0x200 + byte_at image 0x201 ≤ length image
    → IsUntouched j
    → byte_at (fill_zeropage image k) j
      ≡ (if ltb j (0x200 + byte_at image 0x201) then byte_at image j else 0)
unfolding fill_zeropage
fill_zeropage-setup image k j from byte inside untouched =
    let size = setup_end image - zp_setup in
    let setup = slice zp_setup size image in
    let length-setup : length setup ≡ size =
      omega (arith, length-take size (drop zp_setup image), length-drop zp_setup image) in
    let page = copy_at zp_setup setup blank_page in
    let page1 = put32 zp_cmdline (u32 k.cmdline) page in
    let page2 = put32 zp_ramdisk_base 0 page1 in
    let page3 = put32 zp_ramdisk_size 0 page2 in
    get_or-set_other page3 zp_loader_type j 0xFF 0 (λ e. untouched.0 (sym e))
    ∙ get_or-put32 zp_ramdisk_size 0 j page2 (ground (arith, untouched.1))
    ∙ get_or-put32 zp_ramdisk_base 0 j page1 (ground (arith, untouched.1))
    ∙ get_or-put32 zp_cmdline (u32 k.cmdline) j page untouched.2
    ∙ elim (Bool-cases (ltb j (0x200 + byte_at image 0x201))) [
      | inl before ↦ rw before (
          get_or-copy_at zp_setup j setup blank_page from
            (omega (arith, length-setup, ltb→lt j _ before))
            (omega (arith, length-setup, length-blank_page))
          ∙ get_or-take size (drop zp_setup image) (j - zp_setup) 0
              (omega (arith, ltb→lt j _ before))
          ∙ get_or-drop zp_setup image (j - zp_setup) j 0 (omega arith))
      | inr behind ↦ rw behind (
          get_or-copy_at_behind zp_setup j setup blank_page
            (omega (arith, length-setup, ltb→le j _ behind))
            (omega (arith, length-setup, length-blank_page))
          ∙ get_or-blank 4096 j)
    ]
