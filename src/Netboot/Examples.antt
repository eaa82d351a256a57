-- ===== src/Netboot/Examples.antt =====
-- Runs of the theorems about src/netboot.c.
use gigaboot20x.Base.{ℕ, ◌≡◌, refl, some, List, [], ◌∷◌, arith}
use gigaboot20x.Osboot.Files.{NbFile, nbkernel}
use gigaboot20x.Netboot.{nb_magic, nb_send_file, nb_data, nb_ack, NbMsg, Nb, reply, execute, handle}
use gigaboot20x.Netboot.Buffers.{AreFiles, handle-AreFiles}
use gigaboot20x.Netboot.Acks.{handle_twice}

abbrev empty_file : NbFile
empty_file = record { buffer = 0 ∷ 0 ∷ 0 ∷ 0 ∷ 0 ∷ 0 ∷ 0 ∷ 0 ∷ []; size = 8; offset = 0 }

-- The kernel was named and nothing of it has arrived.
abbrev pub opened_nb : Nb
opened_nb = record {
  last_cookie = 1;
  last_cmd = nb_send_file;
  last_arg = 0;
  last_ack_cmd = nb_ack;
  last_ack_arg = 0;
  nb_boot_now = 0;
  nb_active = 0;
  nb_fastcount = 0;
  nb_online = 0;
  item = some nbkernel;
  files = record { kernel = empty_file; ramdisk = empty_file; cmdline = empty_file };
}

pub opened_nb-AreFiles : AreFiles opened_nb.files
opened_nb-AreFiles = ((refl, omega arith), (refl, omega arith), (refl, omega arith))

abbrev message : ℕ → ℕ → List ℕ → NbMsg
message cmd a body = record { magic = nb_magic; cookie = 2; cmd = cmd; arg = a; body = body }

handle-AreFiles_example : AreFiles (handle opened_nb (message nb_data 0 (1 ∷ 2 ∷ 3 ∷ []))).0.files
handle-AreFiles_example =
    handle-AreFiles opened_nb (message nb_data 0 (1 ∷ 2 ∷ 3 ∷ [])) opened_nb-AreFiles

-- Three bytes have arrived.
abbrev later_nb : Nb
later_nb = record opened_nb {
  files = record opened_nb.files { kernel = record empty_file { offset = 3 } };
}

answered : (handle later_nb (message nb_data 3 (4 ∷ 5 ∷ []))).1 ≡ some (reply nb_ack 3)
unfolding handle execute
answered = refl

handle_twice_example :
    let m = message nb_data 3 (4 ∷ 5 ∷ []) in
    handle (handle later_nb m).0 m ≡ ((handle later_nb m).0, some (reply nb_ack 3))
handle_twice_example =
    handle_twice later_nb (message nb_data 3 (4 ∷ 5 ∷ [])) (reply nb_ack 3) answered (ground arith)

abbrev two_blocks : List (List ℕ)
two_blocks = (1 ∷ 2 ∷ 3 ∷ []) ∷ (4 ∷ 5 ∷ []) ∷ []
