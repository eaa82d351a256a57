-- ===== src/Poll/Examples.antt =====
-- A run of the server of Poll over two events.
use gigaboot20x.Base.{◌≡◌, refl, true, none, some, [], ◌∷◌, ◌++◌, arith}
use gigaboot20x.Netifc.Examples.{one_address, one_buffer, accepting, one_buffer-IsPool}
use gigaboot20x.Inet6.Recv.Udp.{sent_datagram, IsSendable}
use gigaboot20x.Inet6.Recv.Eth.{learned}
use gigaboot20x.Inet6.Recv.{eth_recv}
use gigaboot20x.Inet6.Deliver.{udp_sent}
use gigaboot20x.Netboot.{
  nb_magic, nb_boot, nb_ack, NbMsg, nbmsg_bytes, Reply, reply, execute, handle, ack_of,
}
use gigaboot20x.Inet6.Addr.{ll6addr_from_mac}
use gigaboot20x.Nbserver.Main.{is_beacon}
use gigaboot20x.Netboot.{nb_advert_port}
use gigaboot20x.Poll.{advertise_message}
use gigaboot20x.Base.{inl, inr, false}
use gigaboot20x.Poll.Ticks.{IsTick, beacon_frame, IsAdvertised}
use gigaboot20x.Poll.Beacon.{IsCarried, polls-advertises}
use gigaboot20x.Poll.Wire.{arrival, answer_frame, answered, netboot_poll-answers}
use gigaboot20x.Inet6.Examples.{
  mac_a, mac_b, link_local, stack_a, stack_b, host_b, keep_datagram, lent_buffer, lends_buffer,
}
use gigaboot20x.Netboot.Examples.{opened_nb, opened_nb-AreFiles}
use gigaboot20x.Poll.{PollEvent, Server, netboot_poll, polls, boot_requested}
use gigaboot20x.Poll.Forever.{IsHonest, IsServing, polls-IsServing}

abbrev offline_server : Server
offline_server = record {
  host = record { ip = stack_a; net = one_buffer; app = opened_nb };
  timer_ms = 0;
}

-- The timer expires, and the firmware gives back the advertisement.
abbrev pub done_event : PollEvent
done_event = record {
  active = true;
  timer_expired = true;
  get_status = 0;
  txdone = λ frames. elim frames [ [] ↦ none | f ∷ fs ↦ some f.address ];
  receive_irq = true;
  receive_status = 0;
  frame = 1 ∷ 2 ∷ [];
  frame_size = 2;
}

pub done_event-IsHonest : IsHonest done_event
done_event-IsHonest [] p e = absurd (ground arith)
done_event-IsHonest (f ∷ frames) p e = ground arith

offline_server-IsServing : IsServing one_address offline_server
offline_server-IsServing = (one_buffer-IsPool, opened_nb-AreFiles)

polls-IsServing_example :
    (t : Server) × (polls accepting (done_event ∷ done_event ∷ []) offline_server ≡ some t)
    × IsServing one_address t
polls-IsServing_example =
    polls-IsServing one_address accepting (done_event ∷ done_event ∷ []) offline_server
      (done_event-IsHonest, (done_event-IsHonest, tt)) offline_server-IsServing

abbrev online_server : Server
online_server = record {
  host = record { ip = stack_a; net = one_buffer; app = record opened_nb { nb_online = 1 } };
  timer_ms = 100;
}

-- A pass in which only the timer has something to report.
abbrev tick : PollEvent
tick = record done_event {
  active = true;
  timer_expired = true;
  txdone = λ frames. none;
  receive_irq = false;
}

tick-IsTick : IsTick tick
tick-IsTick = (refl, refl, inr ((λ frames. refl), inl refl))

-- A server with the addresses of ip6_init, in a transfer that has come to a halt.
abbrev halted_server : Server
halted_server = record online_server {
  host = record online_server.host {
    ip = record stack_a { ll_ip6_addr = ll6addr_from_mac mac_a };
    app = record opened_nb { nb_online = 1; nb_active = 1; nb_fastcount = 1 };
  };
}

polls-advertises_example :
    ((s' : Server) × (polls accepting (tick ∷ tick ∷ []) halted_server ≡ some s')
      × IsAdvertised halted_server lent_buffer 2064 2 s')
    × IsCarried
        (beacon_frame halted_server.host.ip 2064).bytes
        (ll6addr_from_mac mac_a)
        (nbmsg_bytes advertise_message)
        nb_advert_port
    × (is_beacon (ll6addr_from_mac mac_a) (nbmsg_bytes advertise_message) ≡ true)
polls-advertises_example =
    polls-advertises accepting (tick ∷ tick ∷ []) halted_server lent_buffer 2064
      (tick-IsTick, (tick-IsTick, tt)) refl refl refl refl lends_buffer refl

abbrev boot_order : NbMsg
boot_order = record { magic = nb_magic; cookie = 5; cmd = nb_boot; arg = 0; body = [] }

abbrev boot_reply : Reply
boot_reply = reply nb_ack 0

boot_order-handled : (handle online_server.host.app boot_order).1 ≡ some boot_reply
unfolding handle execute
boot_order-handled = refl

order-IsSendable : IsSendable (link_local 2) (link_local 1) (nbmsg_bytes boot_order) [] 33330 40000
order-IsSendable = record {
  src_length = refl;
  dst_length = refl;
  src_bytes = ground arith;
  dst_bytes = ground arith;
  payload_bytes = ground arith;
  after_bytes = tt;
  payload_fits = omega arith;
  dport_fits = omega arith;
  sport_fits = omega arith;
}

reply-IsSendable :
    IsSendable (link_local 1) (link_local 2) (nbmsg_bytes (ack_of 5 boot_reply)) [] 40000 33330
reply-IsSendable = record {
  src_length = refl;
  dst_length = refl;
  src_bytes = ground arith;
  dst_bytes = ground arith;
  payload_bytes = ground arith;
  after_bytes = tt;
  payload_fits = omega arith;
  dport_fits = omega arith;
  sport_fits = omega arith;
}

netboot_poll-answers_example :
    let question = udp_sent stack_b 16 mac_a (nbmsg_bytes boot_order) (link_local 1) 33330 40000 in
    let answer = answer_frame online_server 2064 mac_b (link_local 2) 40000 boot_order boot_reply in
    (netboot_poll accepting (arrival (question.bytes ++ []) 78) online_server
      ≡ some (
          boot_requested accepting (
            answered online_server lent_buffer answer mac_b
              (link_local 2)
              (handle online_server.host.app boot_order).0)))
    × (eth_recv accepting keep_datagram host_b (answer.bytes ++ []) 78
        ≡ keep_datagram
            (sent_datagram
              (nbmsg_bytes (ack_of 5 boot_reply))
              (link_local 1)
              (link_local 2)
              40000
              33330)
            (learned host_b mac_a (link_local 1)))
netboot_poll-answers_example =
    netboot_poll-answers accepting accepting keep_datagram online_server host_b boot_order
      boot_reply mac_a [] [] 40000 78 78 16 2064 lent_buffer refl
      (record { magic = omega arith; cookie = omega arith; cmd = omega arith; arg = omega arith })
      order-IsSendable reply-IsSendable refl refl refl (ground arith) (omega arith) (omega arith)
      boot_order-handled lends_buffer refl
