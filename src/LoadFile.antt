-- ===== src/LoadFile.antt =====
-- lib/loadfile.c: reading a whole file through the firmware. The statuses that the firmware's calls
-- return are parameters; what the loader holds open is counted.
pub mod Release
pub mod Examples
use gigaboot20x.Base.{
  get_or-append, set-append, ltb, leb, ◌==◌, if◌then◌else◌, ltb→lt, lt→ltb, le→ltb, ltb→le, ==-refl,
  ==→eq, ne→==, tests, Bool-cases, Option-cases, ◌>>=◌, ◌>>◌, length, get_or, set, take, drop,
  replicate, length-append, length-take, length-drop, length-replicate, length-set, take-append,
  drop-append, take-length, take-append-drop, All, All-append, u8, u16, u32, u64, byte_at, slice,
  le16, le32, u16_at, u32_at, IsBytes, ℕ, zero, suc, ◌+◌, ◌-◌, ◌*◌, ◌/◌, ◌%◌, ◌^◌, ◌≤◌, ◌<◌, ◌≡◌,
  refl, sym, ap, ap₂, ◌∙◌, ◌≢◌, ◌↔◌, ◌⊎◌, inl, inr, Bool, true, false, not, ◌&&◌, ◌||◌, Option,
  none, some, List, [], ◌∷◌, ◌++◌, map, append-nil, append_assoc, arith,
}

-- The status of each call, 0 for success, the size that GetInfo reports, the number of bytes that
-- Read delivers, and the bytes.
pub record Firmware : Type 0 where
  pub open_image : ℕ
  pub open_file_system : ℕ
  pub open_volume : ℕ
  pub open_file : ℕ
  pub get_info : ℕ
  pub allocate_pool : ℕ
  pub read : ℕ
  pub file_size : ℕ
  pub read_size : ℕ
  pub bytes : List ℕ

-- How often each protocol and handle is open, and how many blocks of memory are allocated.
pub record Held : Type 0 where
  pub image : ℕ
  pub file_system : ℕ
  pub root : ℕ
  pub file : ℕ
  pub pool : ℕ

-- What is returned: the data with its size, `none` for NULL; and what is held then.
abbrev Result : Type 0
Result = Option (List ℕ × ℕ) × Held

-- The labels: each closes one thing and falls through to the next.
abbrev exit1 : Result → Result
exit1 (contents, h) = (contents, record h { image = h.image - 1 })

abbrev exit2 : Result → Result
exit2 (contents, h) = exit1 (contents, record h { file_system = h.file_system - 1 })

abbrev exit3 : Result → Result
exit3 (contents, h) = exit2 (contents, record h { root = h.root - 1 })

abbrev exit4 : Result → Result
exit4 (contents, h) = exit3 (contents, record h { file = h.file - 1 })

-- `gBS->FreePool(data); data = NULL; goto exit4;`
abbrev drop_data : Held → Result
drop_data h = exit4 (none, record h { pool = h.pool - 1 })

-- From AllocatePool on.
pub read_data : Firmware → Held → Result
read_data fw h =
    if not (fw.allocate_pool == 0)
    then exit4 (none, h)
    else let h = record h { pool = h.pool + 1 } in
      if not (fw.read == 0)
      then drop_data h
      else if not (fw.read_size == fw.file_size)
      then drop_data h
      else exit4 (some (take fw.file_size fw.bytes, fw.file_size), h)

-- From the open volume on.
pub open_and_read : Firmware → Held → Result
unfolding read_data
open_and_read fw h =
    if not (fw.open_file == 0)
    then exit3 (none, h)
    else let h = record h { file = h.file + 1 } in
      if not (fw.get_info == 0) then exit3 (none, h) else read_data fw h

-- LoadFile
pub load_file : Firmware → Held → Result
unfolding open_and_read
load_file fw h =
    if not (fw.open_image == 0)
    then (none, h)
    else let h = record h { image = h.image + 1 } in
      if not (fw.open_file_system == 0)
      then exit1 (none, h)
      else let h = record h { file_system = h.file_system + 1 } in
        if not (fw.open_volume == 0)
        then exit2 (none, h)
        else let h = record h { root = h.root + 1 } in open_and_read fw h
