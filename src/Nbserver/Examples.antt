-- ===== src/Nbserver/Examples.antt =====
-- Runs of the theorems about src/nbserver.c.
use gigaboot20x.Base.{ℕ, ◌≤◌, ◌≡◌, refl, some, List, [], ◌∷◌}
use gigaboot20x.Cstring.{pos}
use gigaboot20x.Netboot.{nb_ack, nbmsg_bytes, reply, ack_of}
use gigaboot20x.Nbserver.{Answer, again, done, IoResult, is_ack, io_loop, stamped, io}
use gigaboot20x.Nbserver.Xfer.{boot_message}
use gigaboot20x.Nbserver.Io.{IsAnswered, io_lem}

abbrev ack_bytes : List ℕ
ack_bytes = nbmsg_bytes (ack_of 9 (reply nb_ack 0))

-- The first answer is lost; then noise and the acknowledgement arrive.
abbrev lossy : List Answer
lossy = done [] ∷ again ∷ done [] ∷ done (1 ∷ 2 ∷ []) ∷ done ack_bytes ∷ []

abbrev after_lossy : IoResult
after_lossy = record { result = pos 0; sent = 2; rest = [] }

lossy_run : (io 9 boot_message lossy).1 ≡ some after_lossy
unfolding io io_loop is_ack
lossy_run = refl

io_lem_example :
    (after_lossy.sent ≤ 5)
    × (after_lossy.result ≡ pos 0 → IsAnswered (stamped 9 boot_message) lossy)
io_lem_example = io_lem 9 boot_message lossy after_lossy lossy_run

abbrev pub two_blocks : List (List ℕ)
two_blocks = (1 ∷ 2 ∷ 3 ∷ []) ∷ (4 ∷ 5 ∷ []) ∷ []
