-- ===== src/Poll/Forever.antt =====
-- The server's invariant over any number of passes.
use gigaboot20x.Base.{
  ltb, ◌==◌, if◌then◌else◌, Bool-cases, length, All, ℕ, ◌≡◌, refl, sym, ap, inl, inr, Bool, true,
  false, not, ◌||◌, Option, none, some, List, [], ◌∷◌, arith,
}
use gigaboot20x.Netifc.{Frame, Snp, buffer_of}
use gigaboot20x.Netifc.Pool.{
  IsConserved, count, put-IsPool, IsPool-reorder, lent_out, IsPool-in_flight,
}
use gigaboot20x.Inet6.Addr.{ip6_ll_all_nodes}
use gigaboot20x.Inet6.Packet.{Host, Datagram}
use gigaboot20x.Inet6.Send.Conserve.{udp6_send-Conserves}
use gigaboot20x.Inet6.Recv.Conserve.{Keeps, IsGood, KeepsAll, keep_if, eth_recv-Keeps}
use gigaboot20x.Netboot.{
  Nb, nb_server_port, nb_advert_port, nbmsg_size, NbMsg, nbmsg_at, nbmsg_bytes, Reply, handle,
  ack_of, transmit_ack, udp6_recv,
}
use gigaboot20x.Netboot.Buffers.{AreFiles, handle-AreFiles}
use gigaboot20x.Poll.{
  Server, fast_tick, PollEvent, released, take_back, netifc_poll, advertise_message, advertise,
  go_online, next_tick, on_tick, boot_requested, netboot_poll, poll_online, polls,
}

abbrev HasFiles : Nb → Type 0
HasFiles nb = AreFiles nb.files

abbrev is_in_flight : ℕ → List Frame → Bool
is_in_flight p [] = false
is_in_flight p (f ∷ frames) = f.address == p || is_in_flight p frames

-- GetStatus gives back only what was handed to the firmware.
abbrev pub IsHonest : PollEvent → Type 0
IsHonest ev =
    (frames : List Frame) (p : ℕ) → ev.txdone frames ≡ some p → is_in_flight p frames ≡ true

count-released :
    (a p : ℕ) (frames : List Frame)
    → is_in_flight p frames ≡ true
    → count a (lent_out frames) ≡ count a (buffer_of p ∷ lent_out (released p frames))
count-released a p [] h = cc
count-released a p (f ∷ frames) h = ground (arith, count-released a p frames)

module _ (all : List ℕ) where
  transmit_ack-Keeps :
      (snp : Snp) (d : Datagram) (m : NbMsg) (h : Host Nb) (x : Nb × Option Reply)
      → IsConserved all h.net
      → HasFiles x.0
      → Keeps all HasFiles (transmit_ack snp d m h x)
  unfolding transmit_ack
  transmit_ack-Keeps snp d m h (nb, none) v w = (record h { app = nb }, refl, (v, w))
  transmit_ack-Keeps snp d m h (nb, some r) v w =
      let (z, net, e, v') =
        udp6_send-Conserves snp h.ip (nbmsg_bytes (ack_of m.cookie r)) d.saddr d.sport
          nb_server_port v in
      (record h { net = net; app = record nb { nb_active = 1 } }, rw e, (v', w))

  udp6_recv-KeepsAll : (snp : Snp) → KeepsAll all HasFiles (udp6_recv snp)
  unfolding udp6_recv
  udp6_recv-KeepsAll snp d h v =
      let m = nbmsg_at d.payload in
      keep_if all HasFiles (not (d.dport == nb_server_port)) _ _ (h, refl, v)
        (keep_if all HasFiles (ltb (length d.payload) nbmsg_size) _ _ (h, refl, v)
          (transmit_ack-Keeps snp d m h (handle h.app m) v.0 (handle-AreFiles h.app m v.1)))

  take_back-Keeps :
      (ev : PollEvent) (h : Host Nb)
      → IsHonest ev
      → IsGood all HasFiles h
      → Keeps all HasFiles (take_back (ev.txdone h.net.in_flight) h)
  unfolding take_back
  take_back-Keeps ev h honest v = split (ev.txdone h.net.in_flight) refl
    where
      split : (o : Option ℕ) → ev.txdone h.net.in_flight ≡ o → Keeps all HasFiles (take_back o h)
      split none e = (h, refl, v)
      split (some p) e =
          let frames = h.net.in_flight in
          let held =
            IsPool-in_flight (released p frames)
              (IsPool-reorder (λ a. count-released a p frames (honest frames p e)) v.0) in
          let (net, returns, pool, same) = put-IsPool p held in
          (
            record h { net = net },
            rw returns,
            (IsPool-reorder (λ a. ap (λ fs. count a (lent_out fs)) (sym same)) pool, v.1),
          )

  netifc_poll-Keeps :
      (snp : Snp) (ev : PollEvent) (h : Host Nb)
      → IsHonest ev
      → IsGood all HasFiles h
      → Keeps all HasFiles (netifc_poll snp (udp6_recv snp) ev h)
  unfolding netifc_poll
  netifc_poll-Keeps snp ev h honest v =
      let (h', e, v') = take_back-Keeps ev h honest v in
      keep_if all HasFiles (ev.get_status == 0) _ _
        (rw e (
          keep_if all HasFiles ev.receive_irq _ _
            (keep_if all HasFiles (ev.receive_status == 0) _ _
              (eth_recv-Keeps all HasFiles snp (udp6_recv snp) (udp6_recv-KeepsAll snp) h' ev.frame
                ev.frame_size v')
              (h', refl, v'))
            (h', refl, v')))
        (h, refl, v)

  advertise-Keeps :
      (snp : Snp) (h : Host Nb) → IsGood all HasFiles h → Keeps all HasFiles (advertise snp h)
  unfolding advertise
  advertise-Keeps snp h v =
      let (z, net, e, v') =
        udp6_send-Conserves snp h.ip (nbmsg_bytes advertise_message) ip6_ll_all_nodes nb_advert_port
          nb_server_port v.0 in
      (record h { net = net }, rw e, (v', v.1))

  -- No transmit buffer is lost, and every write pointer lies inside its buffer.
  abbrev pub IsServing : Server → Type 0
  IsServing s = IsGood all HasFiles s.host

  go_online-IsServing :
      (snp : Snp) (s : Server)
      → IsServing s
      → (t : Server) × (go_online snp s ≡ some t) × IsServing t
  unfolding go_online
  go_online-IsServing snp s v = elim (Bool-cases (s.host.app.nb_online == 0)) [
    | inr online ↦ (s, rw online, v)
    | inl offline ↦
        let up = record s.host { app = record s.host.app { nb_online = 1; nb_fastcount = 20 } } in
        let (h, e, v') = advertise-Keeps snp up v in
        (record { host = h; timer_ms = fast_tick }, rw (offline, e), v')
  ]

  next_tick-IsServing : (snp : Snp) (s : Server) → IsServing s → IsServing (next_tick snp s)
  unfolding next_tick
  next_tick-IsServing snp s v = elim (Bool-cases (s.host.app.nb_fastcount == 0)) [
    | inl slow ↦ rw slow v
    | inr fast ↦ rw fast v
  ]

  on_tick-IsServing :
      (snp : Snp) (expired : Bool) (s : Server)
      → IsServing s
      → (t : Server) × (on_tick snp expired s ≡ some t) × IsServing t
  unfolding on_tick
  on_tick-IsServing snp false s v = (s, refl, v)
  on_tick-IsServing snp true s v =
      let t = next_tick snp s in
      let w = next_tick-IsServing snp s v in
      elim (Bool-cases (t.host.app.nb_active == 0)) [
        | inl idle ↦
            let (h, e, w') = advertise-Keeps snp t.host w in
            (record t { host = h }, rw (idle, e), w')
        | inr busy ↦ (
          record t { host = record t.host { app = record t.host.app { nb_active = 0 } } },
          rw busy,
          w,
        )
      ]

  boot_requested-IsServing :
      (snp : Snp) (s : Server) → IsServing s → IsServing (boot_requested snp s).1
  boot_requested-IsServing snp s v = elim (Bool-cases (s.host.app.nb_boot_now == 0)) [
    | inl waiting ↦ rw waiting v
    | inr requested ↦ rw requested v
  ]

  -- A pass returns a server that keeps the invariant.
  abbrev Goes : Option (ℕ × Server) → Type 0
  Goes run = (r : ℕ × Server) × (run ≡ some r) × IsServing r.1

  Goes-if :
      (test : Bool) (x y : Option (ℕ × Server)) → Goes x → Goes y → Goes (if test then x else y)
  Goes-if true x y a b = a
  Goes-if false x y a b = b

  poll_online-Goes :
      (snp : Snp) (ev : PollEvent) (s : Server)
      → IsHonest ev
      → IsServing s
      → Goes (poll_online snp ev s)
  unfolding poll_online
  poll_online-Goes snp ev s honest v =
      let (online, e1, v1) = go_online-IsServing snp s v in
      let (ticked, e2, v2) = on_tick-IsServing snp ev.timer_expired online v1 in
      let (h, e3, v3) = netifc_poll-Keeps snp ev ticked.host honest v2 in
      (
        boot_requested snp (record ticked { host = h }),
        rw (e1, e2, e3),
        boot_requested-IsServing snp (record ticked { host = h }) v3,
      )

  -- One pass of the main loop returns, whatever the firmware and the network do, and keeps the
  -- server's invariant.
  pub netboot_poll-Goes :
      (snp : Snp) (ev : PollEvent) (s : Server)
      → IsHonest ev
      → IsServing s
      → Goes (netboot_poll snp ev s)
  unfolding netboot_poll
  netboot_poll-Goes snp ev s honest v = Goes-if ev.active _ _ (poll_online-Goes snp ev s honest v) (
      Goes-if (s.host.app.nb_online == 1) _ _
        (
          (0, record s { host = record s.host { app = record s.host.app { nb_online = 0 } } }),
          refl,
          v,
        )
        ((0, s), refl, v))

  -- From a server whose transmit buffers are each either free or in flight, and whose files have
  -- buffers of their sizes and write pointers inside them, any sequence of passes returns and
  -- leads to such a server again, if in each pass GetStatus gives back only a buffer that is in
  -- flight.
  pub polls-IsServing :
      (snp : Snp) (evs : List PollEvent) (s : Server)
      → All IsHonest evs
      → IsServing s
      → (t : Server) × (polls snp evs s ≡ some t) × IsServing t
  unfolding polls
  polls-IsServing snp [] s honest v = (s, refl, v)
  polls-IsServing snp (ev ∷ evs) s honest v =
      let (r, e, w) = netboot_poll-Goes snp ev s honest.0 v in
      let (t, e', w') = polls-IsServing snp evs r.1 honest.1 w in (t, rw (e, e'), w')
