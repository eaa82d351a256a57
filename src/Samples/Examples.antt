-- ===== src/Samples/Examples.antt =====
-- Runs of the theorems about the sample applications and lib/goodies.c.
use gigaboot20x.Base.{ℕ, ◌≡◌, refl, some, List, [], ◌∷◌, arith}
use gigaboot20x.LoadFile.{Held}
use gigaboot20x.Samples.FileIo.{FileFirmware}
use gigaboot20x.Samples.ShowMem.{MapAnswer, dump_memmap, lines_at, dump_memmap-lines}
use gigaboot20x.Samples.UsbTest.{UsbFirmware, my_driver_supported, my_driver-held}

abbrev text_file : FileFirmware
text_file = record {
  open_image = 0;
  open_file_system = 0;
  open_volume = 0;
  open_file = 0;
  get_info = 0;
  read = 0;
  contents = 72 ∷ 105 ∷ [];
}

abbrev nothing_open : Held
nothing_open = record { image = 0; file_system = 0; root = 0; file = 0; pool = 0 }

-- Two descriptors of 48 bytes.
abbrev two_descriptors : MapAnswer
two_descriptors = record {
  status = 0;
  msize = 96;
  dsize = 48;
  descriptor_at = λ off. record {
    mem_type = 7;
    physical_start = off;
    virtual_start = 0;
    number_of_pages = 1;
    attribute = 15;
  };
}

abbrev no_digits : ℕ → List ℕ
no_digits t = []

dump_memmap-lines_example :
    dump_memmap no_digits two_descriptors ≡ some (lines_at no_digits 2 two_descriptors 0)
dump_memmap-lines_example =
    dump_memmap-lines no_digits 2 two_descriptors refl (omega arith) refl (omega arith)

-- The protocol opens and the descriptor cannot be read.
abbrev unreadable : UsbFirmware
unreadable = record { open_protocol = λ ctlr. 0; get_descriptor = λ ctlr. 5 }

my_driver-held_example : (my_driver_supported unreadable 3 (λ ctlr. 0)).1 3 ≡ 1
my_driver-held_example = (my_driver-held unreadable 3 3 (λ ctlr. 0)).0
