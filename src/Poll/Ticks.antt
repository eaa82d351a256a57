-- ===== src/Poll/Ticks.antt =====
-- Passes of netboot_poll in which only the timer has something to report.
use gigaboot20x.Base.{
  ◌==◌, ltb, if◌then◌else◌, ne→==, length, All, ℕ, ◌-◌, ◌≡◌, ◌≢◌, refl, sym, ap, ◌∙◌, true, false,
  some, List, [], ◌∷◌, ◌++◌, arith,
}
use gigaboot20x.Netifc.{Netif, Frame, Snp, eth_get_buffer}
use gigaboot20x.Inet6.Addr.{multicast_from_ip6, ip6_ll_all_nodes}
use gigaboot20x.Inet6.Packet.{Ip6State, Host}
use gigaboot20x.Inet6.Send.{resolve_ip6}
use gigaboot20x.Inet6.Deliver.{udp_sent, udp6_send-sent}
use gigaboot20x.Base.{◌⊎◌, inl, inr, Bool-cases, none, Option}
use gigaboot20x.Inet6.Packet.{Datagram}
use gigaboot20x.Netboot.{udp6_recv, Nb, nbmsg_bytes, nb_advert_port, nb_server_port}
use gigaboot20x.Poll.{
  PollEvent, Server, advertise_message, advertise, go_online, on_tick, next_tick, poll_online,
  netboot_poll, netifc_poll, take_back, receive, polls, boot_requested, fast_tick, slow_tick,
}

-- The frame of an advertisement from the buffer at p.
abbrev pub beacon_frame : Ip6State → ℕ → Frame
beacon_frame st p =
    udp_sent st p (multicast_from_ip6 ip6_ll_all_nodes) (nbmsg_bytes advertise_message)
      ip6_ll_all_nodes nb_advert_port nb_server_port

-- The interface has nothing to report: it has finished no frame and received none, or GetStatus fails.
abbrev IsSilent : PollEvent → Type 0
IsSilent ev =
    (ev.get_status ≢ 0)
    ⊎ (((frames : List Frame) → ev.txdone frames ≡ none)
        × ((ev.receive_irq ≡ false) ⊎ (ev.receive_status ≢ 0)))

netifc_poll-silent :
    {App : Type 0} (snp : Snp) (udp6_recv : Datagram → Host App → Option (Host App))
    (ev : PollEvent) (h : Host App)
    → IsSilent ev
    → netifc_poll snp udp6_recv ev h ≡ some h
unfolding netifc_poll take_back receive
netifc_poll-silent snp udp6_recv ev h (inl failed) = rw (ne→== ev.get_status 0 failed)
netifc_poll-silent snp udp6_recv ev h (inr (none_done, received)) =
    elim (Bool-cases (ev.get_status == 0)) [
      | inr failed ↦ rw failed
      | inl answered ↦ rw (answered, none_done h.net.in_flight) (ground (arith, received))
    ]

-- A pass in which only the timer has something to report.
abbrev pub IsTick : PollEvent → Type 0
IsTick ev = (ev.active ≡ true) × (ev.timer_expired ≡ true) × IsSilent ev

resolve_ip6-all_nodes :
    (st : Ip6State) → resolve_ip6 st ip6_ll_all_nodes ≡ some (multicast_from_ip6 ip6_ll_all_nodes)
unfolding resolve_ip6
resolve_ip6-all_nodes st = refl

-- The advertisement is in flight, and the timer is set as after `ticks` ticks.
abbrev pub IsAdvertised : Server → Netif → (p ticks : ℕ) → Server → Type 0
IsAdvertised s net1 p ticks s' =
    (s'.host.net ≡ record net1 { in_flight = net1.in_flight ++ beacon_frame s.host.ip p ∷ [] })
    × (s'.timer_ms ≡ (if ltb s.host.app.nb_fastcount ticks then slow_tick else fast_tick))

module _ (snp : Snp) where
  -- An advertisement is sent with a free buffer.
  advertise-sent :
      (h : Host Nb) (net1 : Netif) (p : ℕ)
      → eth_get_buffer 1516 h.net ≡ (some p, net1)
      → snp.transmit net1.in_flight (beacon_frame h.ip p) ≡ 0
      → advertise snp h
        ≡ some (record h {
          net = record net1 { in_flight = net1.in_flight ++ beacon_frame h.ip p ∷ [] };
        })
  unfolding advertise
  advertise-sent h net1 p got taken = rw (
      udp6_send-sent snp h.ip h.net net1 p (multicast_from_ip6 ip6_ll_all_nodes)
        (nbmsg_bytes advertise_message) ip6_ll_all_nodes nb_advert_port nb_server_port (omega arith)
        got (resolve_ip6-all_nodes h.ip) taken)

  -- A tick of an online server is on_tick and the test for a request to boot.
  netboot_poll-tick :
      (ev : PollEvent) (s s' : Server)
      → IsTick ev
      → s.host.app.nb_online ≡ 1
      → on_tick snp true s ≡ some s'
      → netboot_poll snp ev s ≡ some (boot_requested snp s')
  unfolding netboot_poll poll_online go_online
  netboot_poll-tick ev s s' tick online e =
      let up : (s.host.app.nb_online == 0) ≡ false = ground (arith, online) in
      rw (tick.0, up, tick.1, e, netifc_poll-silent snp (udp6_recv snp) ev s'.host tick.2)

  on_tick-idle :
      (s : Server) (net1 : Netif) (p : ℕ)
      → let t = next_tick snp s in
        t.host.app.nb_active ≡ 0
        → eth_get_buffer 1516 t.host.net ≡ (some p, net1)
        → snp.transmit net1.in_flight (beacon_frame t.host.ip p) ≡ 0
        → on_tick snp true s
          ≡ some (record t {
            host = record t.host {
              net = record net1 { in_flight = net1.in_flight ++ beacon_frame t.host.ip p ∷ [] };
            };
          })
  unfolding on_tick
  on_tick-idle s net1 p idle got taken =
      rw (idle, advertise-sent (next_tick snp s).host net1 p got taken)

  on_tick-active :
      (s : Server)
      → let t = next_tick snp s in
        t.host.app.nb_active ≢ 0
        → on_tick snp true s
          ≡ some (record t { host = record t.host { app = record t.host.app { nb_active = 0 } } })
  unfolding on_tick
  on_tick-active s active = rw (ne→== (next_tick snp s).host.app.nb_active 0 active)

  -- A tick changes the timer and its counter.
  next_tick_lem :
      (s : Server)
      → let t = next_tick snp s in
        (t.host.ip ≡ s.host.ip)
        × (t.host.net ≡ s.host.net)
        × (t.host.app ≡ record s.host.app { nb_fastcount = s.host.app.nb_fastcount - 1 })
        × (t.timer_ms ≡ (if ltb s.host.app.nb_fastcount 1 then slow_tick else fast_tick))
  unfolding next_tick
  next_tick_lem s = ground arith

  pub boot_requested_lem :
      (s : Server)
      → let t = (boot_requested snp s).1 in
        (t.host.ip ≡ s.host.ip)
        × (t.host.net ≡ s.host.net)
        × (t.host.app ≡ record s.host.app { nb_boot_now = 0 })
        × (t.timer_ms ≡ s.timer_ms)
  boot_requested_lem s = ground arith

  polls-idle :
      (ev : PollEvent) (s : Server) (net1 : Netif) (p : ℕ)
      → IsTick ev
      → s.host.app.nb_online ≡ 1
      → s.host.app.nb_active ≡ 0
      → eth_get_buffer 1516 s.host.net ≡ (some p, net1)
      → snp.transmit net1.in_flight (beacon_frame s.host.ip p) ≡ 0
      → (s' : Server) × (polls snp (ev ∷ []) s ≡ some s') × IsAdvertised s net1 p 1 s'
  unfolding polls
  polls-idle ev s net1 p tick online idle got taken =
      let (ip, net, app, timer) = next_tick_lem s in
      let t = next_tick snp s in
      let sent = record t {
        host = record t.host {
          net = record net1 { in_flight = net1.in_flight ++ beacon_frame t.host.ip p ∷ [] };
        };
      } in
      let ticked =
        on_tick-idle s net1 p (ap (λ a. a.nb_active) app ∙ idle)
          (ap (eth_get_buffer 1516) net ∙ got)
          (ap (λ ip. snp.transmit net1.in_flight (beacon_frame ip p)) ip ∙ taken) in
      let (ip', net', app', timer') = boot_requested_lem sent in
      (
        (boot_requested snp sent).1,
        rw (netboot_poll-tick ev s sent tick online ticked),
        (
          net' ∙ ap (λ ip. record net1 { in_flight = net1.in_flight ++ beacon_frame ip p ∷ [] }) ip,
          timer' ∙ timer,
        ),
      )

  polls-active :
      (ev : PollEvent) (s : Server)
      → IsTick ev
      → s.host.app.nb_online ≡ 1
      → s.host.app.nb_active ≢ 0
      → (s' : Server) × ((evs : List PollEvent) → polls snp (ev ∷ evs) s ≡ polls snp evs s')
        × (s'.host.ip ≡ s.host.ip)
        × (s'.host.net ≡ s.host.net)
        × (s'.host.app.nb_fastcount ≡ s.host.app.nb_fastcount - 1)
        × (s'.host.app.nb_active ≡ 0)
        × (s'.host.app.nb_online ≡ 1)
  unfolding polls
  polls-active ev s tick online active =
      let (ip, net, app, timer) = next_tick_lem s in
      let t = next_tick snp s in
      let calm = record t { host = record t.host { app = record t.host.app { nb_active = 0 } } } in
      let ticked = on_tick-active s (λ e. active (sym (ap (λ a. a.nb_active) app) ∙ e)) in
      let (ip', net', app', timer') = boot_requested_lem calm in
      (
        (boot_requested snp calm).1,
        (λ evs. rw (netboot_poll-tick ev s calm tick online ticked) refl),
        ip' ∙ ip,
        net' ∙ net,
        ap (λ a. a.nb_fastcount) app' ∙ ap (λ a. a.nb_fastcount) app,
        ap (λ a. a.nb_active) app',
        ap (λ a. a.nb_online) app' ∙ ap (λ a. a.nb_online) app ∙ online,
      )

  pub polls-needed :
      (evs : List PollEvent) (s : Server) (net1 : Netif) (p : ℕ)
      → All IsTick evs
      → length evs ≡ (if s.host.app.nb_active == 0 then 1 else 2)
      → s.host.app.nb_online ≡ 1
      → eth_get_buffer 1516 s.host.net ≡ (some p, net1)
      → snp.transmit net1.in_flight (beacon_frame s.host.ip p) ≡ 0
      → (s' : Server) × (polls snp evs s ≡ some s') × IsAdvertised s net1 p (length evs) s'
  polls-needed [] s net1 p ticks count online got taken = absurd (ground arith)
  polls-needed (ev ∷ []) s net1 p ticks count online got taken =
      polls-idle ev s net1 p ticks.0 online (ground arith) got taken
  polls-needed (ev ∷ next ∷ []) s net1 p ticks count online got taken =
      let (s1, run, ip, net, fast, idle, up) = polls-active ev s ticks.0 online (ground arith) in
      let (s', ends, (sent, timer)) =
        polls-idle next s1 net1 p ticks.1.0 up idle (ap (eth_get_buffer 1516) net ∙ got)
          (ap (λ ip. snp.transmit net1.in_flight (beacon_frame ip p)) ip ∙ taken) in
      (
        s',
        run (next ∷ []) ∙ ends,
        (
          sent ∙ ap (λ ip. record net1 { in_flight = net1.in_flight ++ beacon_frame ip p ∷ [] }) ip,
          timer ∙ ground (arith, fast),
        ),
      )
  polls-needed (ev ∷ next ∷ more ∷ evs) s net1 p ticks count online got taken =
      absurd (ground arith)
