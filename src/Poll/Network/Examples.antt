-- ===== src/Poll/Network/Examples.antt =====
-- A run of the transfer as frames.
use gigaboot20x.Base.{◌≡◌, refl, false, some, [], ◌∷◌, arith}
use gigaboot20x.Netifc.Pool.{IsPool}
use gigaboot20x.Netifc.Examples.{accepting, one_address, one_buffer, one_buffer-IsPool}
use gigaboot20x.Inet6.Examples.{mac_a, stack_a, stack_b}
use gigaboot20x.Netboot.Buffers.{received}
use gigaboot20x.Netboot.Examples.{opened_nb, opened_nb-AreFiles}
use gigaboot20x.Nbserver.Examples.{two_blocks}
use gigaboot20x.Nbserver.Xfer.{booted, xfer}
use gigaboot20x.Poll.{Server}
use gigaboot20x.Poll.Network.{Remote, Link, remote}
use gigaboot20x.Poll.Network.State.{IsLink}
use gigaboot20x.Poll.Network.Whole.{IsWaiting, xfer-remote}

abbrev waiting_server : Server
waiting_server = record {
  host = record { ip = stack_a; net = one_buffer; app = record opened_nb { nb_online = 1 } };
  timer_ms = 100;
}

abbrev pub link_b : Link
link_b = record {
  host = record { ip = stack_b; net = one_buffer; app = [] };
  snp = accepting;
  port = 40000;
  server_mac = mac_a;
}

pub link_b-IsLink : IsLink accepting link_b one_address
link_b-IsLink = record {
  transmits = λ frames f. refl;
  some_buffer = (2048, ground arith);
  silent = refl;
  host_mac = refl;
  server_mac = refl;
  host_ip = refl;
  host_ip_bytes = ground arith;
  host_unicast = ground arith;
  port_fits = omega arith;
}

waiting_server-IsWaiting : IsWaiting one_address waiting_server
waiting_server-IsWaiting = record {
  online = refl;
  calm = refl;
  ip = refl;
  ip_bytes = ground arith;
  mac = refl;
  pool = one_buffer-IsPool;
  idle = refl;
}

xfer-remote_example :
    (w : Remote) × (xfer
        (remote accepting link_b)
        false
        2
        two_blocks
        (record { server = waiting_server; requested = 0 })
      ≡ some (booted, 6, w))
    × (w.requested ≡ 1)
    × (received w.server.host.app.files.kernel ≡ 1 ∷ 2 ∷ 3 ∷ 4 ∷ 5 ∷ [])
    × IsPool one_address [] w.server.host.net
xfer-remote_example =
    xfer-remote accepting link_b one_address 2 two_blocks waiting_server link_b-IsLink
      waiting_server-IsWaiting ((ground arith, omega arith), ((ground arith, omega arith), tt))
      (omega arith) opened_nb-AreFiles (ground arith) (omega arith) (omega arith)
