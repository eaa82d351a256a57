-- ===== src/Poll/Network.antt =====
-- The boot server at the far end of a network that carries frames: what a socket of the boot host
-- sees of netboot_poll.
pub mod Steps
pub mod State
pub mod Refines
pub mod Examples
pub mod Whole
use gigaboot20x.Base.{
  ◌==◌, if◌then◌else◌, length, map, ℕ, ◌+◌, ◌≡◌, refl, Bool, true, false, Option, none, some, List,
  [], ◌∷◌, ◌++◌, arith,
}
use gigaboot20x.Netifc.{Frame, Snp}
use gigaboot20x.Inet6.Packet.{Host, Datagram}
use gigaboot20x.Inet6.Recv.{eth_recv}
use gigaboot20x.Inet6.Deliver.{udp_sent}
use gigaboot20x.Netboot.{NbMsg, nbmsg_bytes, nb_server_port}
use gigaboot20x.Nbserver.{Answer, done}
use gigaboot20x.Poll.{PollEvent, Server, netboot_poll}
use gigaboot20x.Poll.Wire.{arrival}

-- A pass in which the firmware gives back the first frame that it holds.
abbrev pub giving_back : PollEvent
giving_back = record {
  active = true;
  timer_expired = false;
  get_status = 0;
  txdone = λ frames. elim frames [ [] ↦ none | f ∷ fs ↦ some f.address ];
  receive_irq = false;
  receive_status = 0;
  frame = [];
  frame_size = 0;
}

-- The server, and whether netboot_poll has returned 1. What the main loop does then is left out.
pub record Remote : Type 0 where
  pub server : Server
  pub requested : ℕ

-- An application that keeps what it receives.
abbrev pub keep : Datagram → Host (List Datagram) → Option (Host (List Datagram))
keep d h = some (record h { app = d ∷ h.app })

-- The boot host's side of the link: its stack, the UDP port of its socket, and the
-- MAC address of the server.
pub record Link : Type 0 where
  pub host : Host (List Datagram)
  pub snp : Snp
  pub port : ℕ
  pub server_mac : List ℕ

module _ (snp : Snp) (link : Link) where
  -- The frame that carries a message to this address.
  abbrev pub question : List ℕ → NbMsg → Frame
  question server_ip m =
      udp_sent link.host.ip 0 link.server_mac (nbmsg_bytes m) server_ip nb_server_port link.port

  -- What the socket reads from a frame.
  pub payloads : Option (Host (List Datagram)) → List Answer
  payloads none = []
  payloads (some h) = map (λ (d : Datagram). done d.payload) h.app

  pub heard : List Frame → List Answer
  unfolding payloads
  heard [] = []
  heard (f ∷ frames) =
      payloads (eth_recv link.snp keep link.host f.bytes (length f.bytes)) ++ heard frames

  -- The state after the two passes, and what the socket calls answer to the message.
  pub settled : Remote → ℕ → Server → Option (ℕ × Server) → Remote × List Answer
  unfolding heard
  settled w n s none = (record w { server = s }, [])
  settled w n s (some r) = (
    record { server = r.1; requested = if n == 0 then w.requested else 1 },
    done [] ∷ heard s.host.net.in_flight,
  )

  -- The pass after the one in which the message arrives.
  pub settle : Remote → Option (ℕ × Server) → Remote × List Answer
  unfolding settled
  settle w none = (w, [])
  settle w (some r) = settled w r.0 r.1 (netboot_poll snp giving_back r.1)

  -- A message goes out, and what is in flight after the pass that it arrives in comes back.
  pub remote : Remote → NbMsg → Remote × List Answer
  unfolding settle
  remote w m =
      let f = question w.server.host.ip.ll_ip6_addr m in
      settle w (netboot_poll snp (arrival f.bytes (length f.bytes)) w.server)
