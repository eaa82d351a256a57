-- ===== src/Nbserver/Main/Examples.antt =====
-- Runs of the theorems about main of src/nbserver.c.
use gigaboot20x.Base.{ℕ, ◌≡◌, refl, true, false, some, List, [], ◌∷◌, arith}
use gigaboot20x.Inet6.Addr.{ll6addr_from_mac}
use gigaboot20x.Netboot.{Nb, nbmsg_bytes}
use gigaboot20x.Netboot.Buffers.{received}
use gigaboot20x.Netboot.Examples.{opened_nb, opened_nb-AreFiles}
use gigaboot20x.Poll.{advertise_message}
use gigaboot20x.Nbserver.Examples.{two_blocks}
use gigaboot20x.Nbserver.Xfer.{booted}
use gigaboot20x.Nbserver.Xfer.Server.{server}
use gigaboot20x.Nbserver.Main.{
  once_option, read_options, no_options, Incoming, datagram, is_beacon, main,
}
use gigaboot20x.Nbserver.Main.Arguments.{read_options_iff}
use gigaboot20x.Cstring.{pos}
use gigaboot20x.Nbserver.Main.Boots.{main-boots}
use gigaboot20x.Nbserver.Main.Beacons.{IsIgnored, ready_setup}

-- "-1 a -1"
abbrev three_arguments : List (List ℕ)
three_arguments = once_option ∷ (b'a' ∷ []) ∷ once_option ∷ []

read_options_iff_example : read_options three_arguments no_options ≡ some (b'a' ∷ [], true)
read_options_iff_example =
    (read_options_iff three_arguments (b'a' ∷ []) true).1 (refl, (refl, (refl, tt)), refl)

abbrev own_mac : List ℕ
own_mac = 2 ∷ 0 ∷ 0 ∷ 0 ∷ 0 ∷ 1 ∷ []

abbrev short_datagram : Incoming
short_datagram = datagram false (0xFE ∷ 0x80 ∷ []) (1 ∷ 2 ∷ [])

short_datagram-IsIgnored : IsIgnored short_datagram
unfolding is_beacon
short_datagram-IsIgnored = refl

-- A server that has seen no message.
abbrev fresh_nb : Nb
fresh_nb = record opened_nb { last_cookie = 0 }

main-boots_example :
    (nb' : Nb) × (main
        (λ sender. server)
        true
        true
        (λ fn. ready_setup two_blocks)
        three_arguments
        (short_datagram
          ∷ datagram false (ll6addr_from_mac own_mac) (nbmsg_bytes advertise_message)
          ∷ short_datagram
          ∷ [])
        fresh_nb
      ≡ some (some (pos 0), booted ∷ [], nb'))
    × (received nb'.files.kernel ≡ 1 ∷ 2 ∷ 3 ∷ 4 ∷ 5 ∷ [])
    × (nb'.nb_boot_now ≡ 1)
main-boots_example =
    main-boots (λ sender. server) (λ fn. ready_setup two_blocks) three_arguments (b'a' ∷ [])
      (short_datagram ∷ []) (short_datagram ∷ []) false own_mac two_blocks fresh_nb
      (refl, (refl, (refl, tt)), refl) refl (short_datagram-IsIgnored, tt) refl (omega arith)
      opened_nb-AreFiles (ground arith) (omega arith) (omega arith)
