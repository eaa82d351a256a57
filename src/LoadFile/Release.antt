-- ===== src/LoadFile/Release.antt =====
-- What LoadFile returns and what it leaves open.
use gigaboot20x.Base.{
  ◌==◌, if◌then◌else◌, take, ℕ, ◌+◌, ◌≡◌, Bool, not, ◌&&◌, Option, none, some, List, arith,
}
use gigaboot20x.LoadFile.{Firmware, Held, read_data, open_and_read, load_file}

-- The file was opened and then GetInfo failed.
abbrev is_info_missing : Firmware → Bool
is_info_missing fw =
    fw.open_image == 0
    && (fw.open_file_system == 0
        && (fw.open_volume == 0 && (fw.open_file == 0 && not (fw.get_info == 0))))

-- One block of memory for data that is returned.
abbrev memory_of : Option (List ℕ × ℕ) → ℕ
memory_of none = 0
memory_of (some x) = 1

-- The bytes of a file, all of them, if every call succeeds and Read delivers the whole file.
abbrev whole_file : Firmware → Option (List ℕ × ℕ)
whole_file fw =
    if (fw.open_image == 0
        && (fw.open_file_system == 0 && (fw.open_volume == 0 && fw.open_file == 0)))
      && (fw.get_info == 0
          && (fw.allocate_pool == 0 && (fw.read == 0 && fw.read_size == fw.file_size)))
    then some (take fw.file_size fw.bytes, fw.file_size)
    else none

-- LoadFile returns the whole file if every call succeeds, and NULL else.
load_file-whole_file : (fw : Firmware) (h : Held) → (load_file fw h).0 ≡ whole_file fw
unfolding load_file open_and_read read_data
load_file-whole_file fw h = ground arith

-- LoadFile closes all that it opened and frees all memory but that of the data it returns, except
-- where GetInfo fails on the opened file: then the file stays open.
pub load_file-held :
    (fw : Firmware) (h : Held)
    → (load_file fw h).1 ≡ record h {
      file = h.file + (if is_info_missing fw then 1 else 0);
      pool = h.pool + memory_of (whole_file fw);
    }
unfolding load_file open_and_read read_data
load_file-held fw h = ground arith
