-- ===== src/Poll/Network/Steps.antt =====
-- What the server at the far end of a network answers, and how it stands after it.

use gigaboot20x.Base.{
  ◌==◌, ==-refl, All-append, IsBytes, le32, length, length-append, ℕ, ◌+◌, ◌<◌, ◌≡◌, false, some,
  List, [], ◌∷◌, ◌++◌, arith,
}
use gigaboot20x.Netifc.{Frame, Netif, Snp, eth_put_buffer}
use gigaboot20x.Inet6.Packet.{Host, Datagram}
use gigaboot20x.Inet6.Recv.{eth_recv}
use gigaboot20x.Inet6.Recv.Udp.{udp_hdr, length-udp6_datagram}
use gigaboot20x.Inet6.Recv.Eth.{udp_packet}
use gigaboot20x.Inet6.Send.{udp6_frame, udp6_datagram}
use gigaboot20x.Netboot.{NbMsg, nbmsg_bytes}
use gigaboot20x.Nbserver.{done}
use gigaboot20x.Poll.{
  Server, netboot_poll, go_online, on_tick, poll_online, netifc_poll, take_back, boot_requested,
}
use gigaboot20x.Poll.Network.{giving_back, keep, Link, payloads, heard}

pub netboot_poll-giving_back :
    (snp : Snp) (s : Server) (f : Frame) (net : Netif)
    → s.host.app.nb_online ≡ 1
    → s.host.net.in_flight ≡ f ∷ []
    → eth_put_buffer f.address (record s.host.net { in_flight = [] }) ≡ some net
    → netboot_poll snp giving_back s
      ≡ some (boot_requested snp (record s { host = record s.host { net = net } }))
unfolding netboot_poll poll_online go_online on_tick netifc_poll take_back
netboot_poll-giving_back snp s f net online flying put =
    let up : (s.host.app.nb_online == 0) ≡ false = ground (arith, online) in
    rw (up, flying, ==-refl f.address, put)

pub length-udp6_frame :
    (dmac smac src dst payload : List ℕ) (dport sport : ℕ)
    → length dmac ≡ 6
    → length smac ≡ 6
    → length src ≡ 16
    → length dst ≡ 16
    → length (udp6_frame (udp_packet dmac smac src dst (length payload + 8)) payload dport sport)
      ≡ length payload + 62
unfolding udp6_frame
length-udp6_frame dmac smac src dst payload dport sport ld ls lsrc ldst =
    let datagram = udp6_datagram (udp_hdr src dst (length payload + 8)) payload dport sport in
    omega (
      arith,
      length-append (dmac ++ smac ++ 0x86 ∷ 0xDD ∷ []) datagram,
      length-append (dmac ++ smac) (0x86 ∷ 0xDD ∷ []),
      length-append dmac smac,
      length-udp6_datagram src dst payload dport sport lsrc ldst,
    )

le32-IsBytes : (n : ℕ) → IsBytes (le32 n)
le32-IsBytes n = (omega arith, (omega arith, (omega arith, (omega arith, tt))))

pub nbmsg_bytes-IsBytes : (m : NbMsg) → IsBytes m.body → IsBytes (nbmsg_bytes m)
nbmsg_bytes-IsBytes m body =
    let join = All-append (λ (x : ℕ). x < 256) in
    join (le32 m.magic ++ le32 m.cookie ++ le32 m.cmd ++ le32 m.arg) m.body
      (join (le32 m.magic ++ le32 m.cookie ++ le32 m.cmd) (le32 m.arg)
        (join (le32 m.magic ++ le32 m.cookie) (le32 m.cmd)
          (join (le32 m.magic) (le32 m.cookie) (le32-IsBytes m.magic) (le32-IsBytes m.cookie))
          (le32-IsBytes m.cmd))
        (le32-IsBytes m.arg))
      body

-- The socket reads the payload of the one frame in flight.
pub heard-one :
    (snp : Snp) (link : Link) (f : Frame) (d : Datagram) (h : Host (List Datagram))
    → eth_recv link.snp keep link.host f.bytes (length f.bytes) ≡ keep d h
    → h.app ≡ []
    → heard snp link (f ∷ []) ≡ done d.payload ∷ []
unfolding heard payloads
heard-one snp link f d h e silent = rw (e, silent)
