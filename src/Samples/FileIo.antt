-- ===== src/Samples/FileIo.antt =====
-- src/fileio.c: efi_main, which prints a file. The statuses that the firmware's calls return are
-- parameters; what is held open is counted. The lines that it prints about the image are left out.
use gigaboot20x.Base.{◌==◌, if◌then◌else◌, length, take, ℕ, ◌+◌, ◌-◌, ◌≤◌, ◌≡◌, ◌≢◌, not, List, []}
use gigaboot20x.LoadFile.{Held}

-- The status of each call, 0 for success, and the bytes of the file.
pub record FileFirmware : Type 0 where
  pub open_image : ℕ
  pub open_file_system : ℕ
  pub open_volume : ℕ
  pub open_file : ℕ
  pub get_info : ℕ
  pub read : ℕ
  pub contents : List ℕ

-- The call of Fatal that the application ends with, or its return, with the characters that it has
-- printed of the file.
pub data FileEnd : Type 0 where
  died : (status : ℕ) → FileEnd
  returned : (printed : List ℕ) → FileEnd

-- sizeof(buf) - 1
abbrev max_read : ℕ
max_read = 511

-- root->Close and the two calls of CloseProtocol.
abbrev close_all : List ℕ → Held → FileEnd × Held
close_all printed h = (
  returned printed,
  record h { root = h.root - 1; file_system = h.file_system - 1; image = h.image - 1 },
)

-- `if (r == EFI_SUCCESS) { ... }`: Read delivers at most the bytes that it is asked for.
print_file : FileFirmware → Held → FileEnd × Held
print_file fw h =
    if not (fw.get_info == 0)
    then (died fw.get_info, h)
    else if not (fw.read == 0)
    then (died fw.read, h)
    else close_all (take max_read fw.contents) (record h { file = h.file - 1 })

pub file_io : FileFirmware → Held → FileEnd × Held
unfolding print_file
file_io fw h =
    if not (fw.open_image == 0)
    then (died fw.open_image, h)
    else let h = record h { image = h.image + 1 } in
      if not (fw.open_file_system == 0)
      then (died fw.open_file_system, h)
      else let h = record h { file_system = h.file_system + 1 } in
        if not (fw.open_volume == 0)
        then (died fw.open_volume, h)
        else let h = record h { root = h.root + 1 } in
          if fw.open_file == 0
          then print_file fw (record h { file = h.file + 1 })
          else close_all [] h

-- A return leaves nothing open and has printed at most 511 bytes, the first of the file if it was
-- opened; a call of Fatal passes on a status that is not 0.
abbrev pub IsClean : FileFirmware → Held → FileEnd × Held → Type 0
IsClean fw h (died status, after) = status ≢ 0
IsClean fw h (returned printed, after) =
    (after ≡ h)
    × (length printed ≤ 511)
    × (printed ≡ (if fw.open_file == 0 then take 511 fw.contents else []))
