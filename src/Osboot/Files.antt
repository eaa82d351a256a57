-- ===== src/Osboot/Files.antt =====
-- src/osboot.c and netboot.h: the three files that a boot server may send, and their buffers.
use gigaboot20x.Base.{if◌then◌else◌, ℕ, Option, none, some, List, [], ◌∷◌}
use gigaboot20x.Cstring.{memcmp, is_zero}

-- An nbfile: the bytes at `data`, the size of that buffer, and the write pointer.
pub record NbFile : Type 0 where
  pub buffer : List ℕ
  pub size : ℕ
  pub offset : ℕ

-- &nbkernel, &nbramdisk and &nbcmdline.
pub data FileId : Type 0 where
  nbkernel nbramdisk nbcmdline : FileId

pub record Files : Type 0 where
  pub kernel : NbFile
  pub ramdisk : NbFile
  pub cmdline : NbFile

abbrev pub file_at : FileId → Files → NbFile
file_at nbkernel fs = fs.kernel
file_at nbramdisk fs = fs.ramdisk
file_at nbcmdline fs = fs.cmdline

abbrev pub set_file : FileId → NbFile → Files → Files
set_file nbkernel f fs = record fs { kernel = f }
set_file nbramdisk f fs = record fs { ramdisk = f }
set_file nbcmdline f fs = record fs { cmdline = f }

-- "kernel.bin" with its final 0.
abbrev pub kernel_name : List ℕ
kernel_name = b'k' ∷ b'e' ∷ b'r' ∷ b'n' ∷ b'e' ∷ b'l' ∷ b'.' ∷ b'b' ∷ b'i' ∷ b'n' ∷ 0 ∷ []

abbrev pub ramdisk_name : List ℕ
ramdisk_name = b'r' ∷ b'a' ∷ b'm' ∷ b'd' ∷ b'i' ∷ b's' ∷ b'k' ∷ b'.' ∷ b'b' ∷ b'i' ∷ b'n' ∷ 0 ∷ []

abbrev pub cmdline_name : List ℕ
cmdline_name = b'c' ∷ b'm' ∷ b'd' ∷ b'l' ∷ b'i' ∷ b'n' ∷ b'e' ∷ 0 ∷ []

-- `none` is NULL.
unfoldable pub netboot_get_buffer : List ℕ → Option FileId
unfolding memcmp
netboot_get_buffer name =
    if is_zero (memcmp name kernel_name 11)
    then some nbkernel
    else if is_zero (memcmp name ramdisk_name 11)
    then some nbramdisk
    else if is_zero (memcmp name cmdline_name 7)
    then some nbcmdline
    else none
