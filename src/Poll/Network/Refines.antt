-- ===== src/Poll/Network/Refines.antt =====
-- The server at the far end of a network does what the boot server does.

use gigaboot20x.Base.{◌==◌, if◌then◌else◌}
use gigaboot20x.Poll.{Server, boot_requested}
use gigaboot20x.Poll.Wire.{answered}
use gigaboot20x.Poll.Ticks.{boot_requested_lem}
use gigaboot20x.Poll.Network.{giving_back, heard, settled}
use gigaboot20x.Base.{
  length, append-nil, ℕ, ◌+◌, ◌≤◌, ◌≡◌, sym, ap, ap₂, ◌∙◌, some, List, [], ◌∷◌, ◌++◌, arith,
}
use gigaboot20x.Netifc.{Snp}
use gigaboot20x.Inet6.Recv.{eth_recv}
use gigaboot20x.Inet6.Recv.Udp.{IsSendable}
use gigaboot20x.Netboot.{Nb, NbMsg, Reply, nbmsg_bytes, nb_server_port, handle, ack_of}
use gigaboot20x.Netboot.Flags.{handle-IsAlike}
use gigaboot20x.Nbserver.{done}
use gigaboot20x.Nbserver.Xfer.Refined.{Refines}
use gigaboot20x.Poll.{netboot_poll}
use gigaboot20x.Poll.Wire.{arrival, answer_frame, netboot_poll-answers}
use gigaboot20x.Poll.Network.{Remote, keep, Link, question, heard, settle, remote}
use gigaboot20x.Poll.Network.Steps.{length-udp6_frame, nbmsg_bytes-IsBytes, heard-one}
use gigaboot20x.Poll.Network.State.{IsLink, IsFit, IsAt, has_buffer, answer_passes}

module _ (snp : Snp) (link : Link) (all own : List ℕ) (up : IsLink snp link all) where
  answer-IsSendable :
      (w : Remote) (nb : Nb) (cookie : ℕ) (r : Reply)
      → IsAt all own w nb
      → IsSendable w.server.host.ip.ll_ip6_addr link.host.ip.ll_ip6_addr
          (nbmsg_bytes (ack_of cookie r))
          []
          link.port
          nb_server_port
  answer-IsSendable w nb cookie r v = record {
    src_length = v.ip;
    dst_length = up.host_ip;
    src_bytes = v.ip_bytes;
    dst_bytes = up.host_ip_bytes;
    payload_bytes = nbmsg_bytes-IsBytes (ack_of cookie r) tt;
    after_bytes = tt;
    payload_fits = omega arith;
    dport_fits = up.port_fits;
    sport_fits = omega arith;
  }

  question-IsSendable :
      (w : Remote) (nb : Nb) (m : NbMsg)
      → IsAt all own w nb
      → IsFit m
      → IsSendable link.host.ip.ll_ip6_addr w.server.host.ip.ll_ip6_addr
          (nbmsg_bytes m)
          []
          nb_server_port
          link.port
  question-IsSendable w nb m v fit = record {
    src_length = up.host_ip;
    dst_length = v.ip;
    src_bytes = up.host_ip_bytes;
    dst_bytes = v.ip_bytes;
    payload_bytes = fit.bytes;
    after_bytes = tt;
    payload_fits = fit.fits;
    dport_fits = omega arith;
    sport_fits = up.port_fits;
  }

  -- Neither a frame's bytes nor its length depend on the empty list behind it.
  whole :
      {A : Type 0} (read : List ℕ → ℕ → A) (bytes : List ℕ) (n : ℕ)
      → length bytes ≡ n
      → read bytes (length bytes) ≡ read (bytes ++ []) n
  whole read bytes n e = ap₂ read (sym (append-nil bytes)) e

  -- The two passes that belong to a message, and what the host hears between them.
  pub record IsServed (w : Remote) (nb : Nb) (m : NbMsg) (r : Reply) : Type 0 where
    pub first : ℕ × Server
    pub server : Server
    pub arrives :
        let f = question snp link w.server.host.ip.ll_ip6_addr m in
        netboot_poll snp (arrival f.bytes (length f.bytes)) w.server ≡ some first
    pub settles : netboot_poll snp giving_back first.1 ≡ some (0, server)
    pub heard_back :
        heard snp link first.1.host.net.in_flight ≡ done (nbmsg_bytes (ack_of m.cookie r)) ∷ []
    pub files : first.1.host.app.files ≡ (handle nb m).0.files
    pub at :
        IsAt all own
          (record { server = server; requested = if first.0 == 0 then w.requested else 1 })
          (handle nb m).0

  pub serves :
      (w : Remote) (nb : Nb) (m : NbMsg) (r : Reply)
      → IsAt all own w nb
      → IsFit m
      → (handle nb m).1 ≡ some r
      → IsServed w nb m r
  serves w nb m r v fit e =
      let s = w.server in
      let mac = link.host.ip.ll_mac_addr in
      let ip = link.host.ip.ll_ip6_addr in
      let (answers, state, boots) = handle-IsAlike 1 s.host.app.nb_active nb m in
      let handled : (handle s.host.app m).1 ≡ some r =
        ap (λ a. (handle a m).1) v.app ∙ answers ∙ e in
      let (q, net1, got, pool, idle, place) = has_buffer snp link all own up w nb v in
      let answer = answer_frame s q mac ip link.port m r in
      let f = question snp link s.host.ip.ll_ip6_addr m in
      let long : length (nbmsg_bytes m) + 62 ≤ length f.bytes = omega (
        arith,
        length-udp6_frame link.server_mac mac ip s.host.ip.ll_ip6_addr (nbmsg_bytes m)
            nb_server_port link.port up.server_mac up.host_mac up.host_ip v.ip,
      ) in
      let (arrives, received) =
        netboot_poll-answers snp link.snp keep s link.host m r link.server_mac [] [] link.port
          (length f.bytes) 78 0 q net1 (ap (λ a. a.nb_online) v.app) fit.fields
          (question-IsSendable w nb m v fit) (answer-IsSendable w nb m.cookie r v) up.server_mac
          up.host_mac v.mac up.host_unicast long (omega arith) handled got
          (up.transmits net1.in_flight answer) in
      let t = answered s net1 answer mac ip (handle s.host.app m).0 in
      let (after, settles, flying, at) =
        answer_passes snp link all own up w nb m mac ip q answer.bytes net1 v pool idle place in
      let (ip1, nets, app1, timer1) = boot_requested_lem snp t in
      let size : length answer.bytes ≡ 78 =
        length-udp6_frame mac s.host.ip.ll_mac_addr s.host.ip.ll_ip6_addr ip
          (nbmsg_bytes (ack_of m.cookie r)) link.port nb_server_port up.host_mac v.mac v.ip
          up.host_ip in
      record {
        first = boot_requested snp t;
        server = after;
        arrives =
            ap (λ bytes. netboot_poll snp (arrival bytes (length f.bytes)) s)
              (sym (append-nil f.bytes))
            ∙ arrives;
        settles = settles;
        heard_back =
            ap (heard snp link) flying
            ∙ heard-one snp link answer _ _
                (whole (eth_recv link.snp keep link.host) answer.bytes 78 size ∙ received)
                up.silent;
        files =
            ap (λ (a : Nb). a.files) app1
            ∙ ap (λ (a : Nb). (handle a m).0.files) v.app
            ∙ ap (λ (a : Nb). a.files) state;
        at = at;
      }

  step :
      (w : Remote) (nb : Nb) (m : NbMsg) (r : Reply)
      → IsAt all own w nb
      → IsFit m
      → (handle nb m).1 ≡ some r
      → (w' : Remote) × (remote snp link w m
          ≡ (w', done [] ∷ done (nbmsg_bytes (ack_of m.cookie r)) ∷ []))
        × IsAt all own w' (handle nb m).0
  unfolding remote settle settled
  step w nb m r v fit e =
      let x = serves w nb m r v fit e in
      (
        record { server = x.server; requested = if x.first.0 == 0 then w.requested else 1 },
        rw (x.arrives, x.settles, x.heard_back),
        x.at,
      )

  pub remote-Refines : Refines (remote snp link) (IsAt all own) IsFit
  remote-Refines = record { step = step }
