-- ===== src/LoadFile/Examples.antt =====
-- Runs of the theorems about lib/loadfile.c.
use gigaboot20x.Base.{ℕ, ◌≡◌, [], ◌∷◌}
use gigaboot20x.LoadFile.{Firmware, Held, load_file}
use gigaboot20x.LoadFile.Release.{load_file-held}

-- A file of two bytes on a firmware whose GetInfo answers with the given status.
abbrev two_bytes : ℕ → Firmware
two_bytes status = record {
  open_image = 0;
  open_file_system = 0;
  open_volume = 0;
  open_file = 0;
  get_info = status;
  allocate_pool = 0;
  read = 0;
  file_size = 2;
  read_size = 2;
  bytes = 7 ∷ 8 ∷ [];
}

abbrev nothing_held : Held
nothing_held = record { image = 0; file_system = 0; root = 0; file = 0; pool = 0 }

load_file-held_example : (load_file (two_bytes 5) nothing_held).1 ≡ record nothing_held { file = 1 }
load_file-held_example = load_file-held (two_bytes 5) nothing_held
