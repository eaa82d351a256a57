-- ===== src/Nbserver/Main/Boots.antt =====
-- nbserver -1, from its command line to its exit.
use gigaboot20x.Base.{
  arith, length, All, ℕ, ◌+◌, ◌^◌, ◌≤◌, ◌<◌, ◌≡◌, ◌≢◌, Bool, true, false, some, List, [], ◌∷◌, ◌++◌,
}
use gigaboot20x.Cstring.{pos}
use gigaboot20x.Inet6.Addr.{ll6addr_from_mac}
use gigaboot20x.Netboot.{NbMsg, nbmsg_bytes, Nb}
use gigaboot20x.Netboot.Buffers.{AreFiles, received}
use gigaboot20x.Netboot.Transfer.{total_length, concat}
use gigaboot20x.Poll.{advertise_message}
use gigaboot20x.Nbserver.{Answer}
use gigaboot20x.Nbserver.Xfer.{booted}
use gigaboot20x.Nbserver.Xfer.Server.{server}
use gigaboot20x.Nbserver.Main.{
  Incoming, datagram, Setup, main, serve_file, first_cookie, once_option,
}
use gigaboot20x.Nbserver.Main.Arguments.{names, flags, is_empty, read_options_iff}
use gigaboot20x.Nbserver.Main.Beacons.{IsIgnored, ready_setup, serve_beacons-boots}

-- A command line that names one file and asks to boot once.
abbrev IsOnce : List (List ℕ) → List ℕ → Type 0
IsOnce args fn =
    (names args ≡ fn ∷ [])
    × All (λ (flag : List ℕ). flag ≡ once_option) (flags args)
    × (is_empty (flags args) ≡ false)

-- Take a command line with one file name and otherwise one -1 or more, in any order, a host that
-- gives it its socket and can open the file, a network that delivers some datagrams that are no beacons
-- and then one of the server, and a server that has not seen the first cookie, whose files are in
-- order, and whose kernel buffer, of less than 2^32 bytes, has room for the whole file. Over a
-- socket that loses nothing, main exits with 0 after one transfer, whatever is received behind the
-- beacon, and the server holds exactly the file as its kernel and is to boot. The number of blocks
-- is below 2^32 - 3.
pub main-boots :
    (peer : List ℕ → Nb → NbMsg → Nb × List Answer) (files : List ℕ → Setup) (args : List (List ℕ))
    (fn : List ℕ) (noise rest : List Incoming) (queued : Bool) (mac : List ℕ)
    (blocks : List (List ℕ)) (nb : Nb)
    → IsOnce args fn
    → files fn ≡ ready_setup blocks
    → All IsIgnored noise
    → peer (ll6addr_from_mac mac) ≡ server
    → length blocks + 3 < 2 ^ 32
    → AreFiles nb.files
    → nb.last_cookie ≢ first_cookie
    → total_length blocks ≤ nb.files.kernel.size
    → nb.files.kernel.size < 2 ^ 32
    → (nb' : Nb) × (main peer true true files args
          (noise ++ datagram queued (ll6addr_from_mac mac) (nbmsg_bytes advertise_message) ∷ rest)
          nb
        ≡ some (some (pos 0), booted ∷ [], nb'))
      × (received nb'.files.kernel ≡ concat blocks)
      × (nb'.nb_boot_now ≡ 1)
unfolding main serve_file
main-boots peer files args fn noise rest queued mac blocks nb command found quiet same short order
      new fits small =
    let taken = (read_options_iff args fn true).1 (command.0, command.1, rw command.2) in
    let (nb', run, stored, boots) =
      serve_beacons-boots peer noise rest queued mac blocks first_cookie nb quiet same (omega arith)
        order new fits small in
    (nb', rw (taken, found, run), stored, boots)
