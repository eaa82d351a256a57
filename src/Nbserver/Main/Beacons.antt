-- ===== src/Nbserver/Main/Beacons.antt =====
-- From the beacon of the boot server to a finished transfer.
use gigaboot20x.Base.{
  length, All, u32, ℕ, ◌+◌, ◌^◌, ◌≤◌, ◌<◌, ◌≡◌, refl, ◌≢◌, Bool, true, false, some, List, [], ◌∷◌,
  ◌++◌,
}
use gigaboot20x.Inet6.Addr.{ll6addr_from_mac}
use gigaboot20x.Netboot.{NbMsg, nbmsg_bytes, Nb}
use gigaboot20x.Netboot.Buffers.{AreFiles, received}
use gigaboot20x.Netboot.Transfer.{total_length, concat}
use gigaboot20x.Poll.{advertise_message}
use gigaboot20x.Nbserver.{Answer}
use gigaboot20x.Nbserver.Xfer.{booted}
use gigaboot20x.Nbserver.Xfer.Server.{server}
use gigaboot20x.Nbserver.Xfer.Whole.{xfer-server}
use gigaboot20x.Nbserver.Main.{
  Incoming, datagram, recv_error, is_beacon, Setup, transfer, serve_beacons,
}

-- The advertisement of the boot server, from the link-local address of any MAC address, is a beacon
-- for the boot host.
pub advertise_message-is_beacon :
    (mac : List ℕ) → is_beacon (ll6addr_from_mac mac) (nbmsg_bytes advertise_message) ≡ true
unfolding is_beacon ll6addr_from_mac
advertise_message-is_beacon mac = refl

-- A datagram that is no beacon.
abbrev pub IsIgnored : Incoming → Type 0
IsIgnored recv_error = ⊥
IsIgnored (datagram queued sender bytes) = is_beacon sender bytes ≡ false

abbrev pub ready_setup : List (List ℕ) → Setup
ready_setup blocks = record {
  opens = true;
  has_socket = true;
  connects = true;
  blocks = blocks;
  read_error = false;
}

serve_beacons-ignored :
    {S : Type 0} (peer : List ℕ → S → NbMsg → S × List Answer) (once : Bool) (f : Setup)
    (noise incoming : List Incoming) (cookie : ℕ) (s : S)
    → All IsIgnored noise
    → serve_beacons peer false once f (noise ++ incoming) cookie s
      ≡ serve_beacons peer false once f incoming cookie s
unfolding serve_beacons
serve_beacons-ignored peer once f [] incoming cookie s v = refl
serve_beacons-ignored peer once f (recv_error ∷ noise) incoming cookie s v = absurd v.0
serve_beacons-ignored peer once f (datagram queued sender bytes ∷ noise) incoming cookie s v =
    rw v.0 (serve_beacons-ignored peer once f noise incoming cookie s v.1)

-- Take a boot host with -1 that has opened the file, a network that delivers some datagrams that are no
-- beacons and then one of the server, and a server that has not seen the cookie, whose files are
-- in order, and whose kernel buffer, of less than 2^32 bytes, has room for the whole file. Over a
-- socket that loses nothing, main comes to its end after one transfer, and the server holds
-- exactly the file as its kernel and is to boot. The cookie and the number of blocks stay below
-- 2^32 - 2 together.
pub serve_beacons-boots :
    (peer : List ℕ → Nb → NbMsg → Nb × List Answer) (noise rest : List Incoming) (queued : Bool)
    (mac : List ℕ) (blocks : List (List ℕ)) (cookie : ℕ) (nb : Nb)
    → All IsIgnored noise
    → peer (ll6addr_from_mac mac) ≡ server
    → cookie + length blocks + 2 < 2 ^ 32
    → AreFiles nb.files
    → nb.last_cookie ≢ cookie
    → total_length blocks ≤ nb.files.kernel.size
    → nb.files.kernel.size < 2 ^ 32
    → (nb' : Nb) × (serve_beacons peer false true
          (ready_setup blocks)
          (noise ++ datagram queued (ll6addr_from_mac mac) (nbmsg_bytes advertise_message) ∷ rest)
          cookie
          nb
        ≡ some (booted ∷ [], true, u32 (cookie + length blocks + 2), nb'))
      × (received nb'.files.kernel ≡ concat blocks)
      × (nb'.nb_boot_now ≡ 1)
unfolding serve_beacons transfer
serve_beacons-boots peer noise rest queued mac blocks cookie nb quiet same short files new fits
      small =
    let (nb', run, stored, boots) = xfer-server cookie blocks nb short files new fits small in
    (
      nb',
      rw (
        serve_beacons-ignored peer true (ready_setup blocks) noise _ cookie nb quiet,
        advertise_message-is_beacon mac,
        same,
        run,
      ),
      stored,
      boots,
    )
