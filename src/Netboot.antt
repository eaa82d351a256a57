-- ===== src/Netboot.antt =====
-- src/netboot.c: the boot server's protocol over UDP.
pub mod Examples
pub mod Buffers
pub mod Acks
pub mod Transfer
pub mod Flags
use gigaboot20x.Base.{
  get_or-append, set-append, ltb, leb, ◌==◌, if◌then◌else◌, ltb→lt, lt→ltb, le→ltb, ltb→le, ==-refl,
  ==→eq, ne→==, tests, Bool-cases, Option-cases, ◌>>=◌, ◌>>◌, length, get_or, set, take, drop,
  replicate, length-append, length-take, length-drop, length-replicate, length-set, take-append,
  drop-append, take-length, take-append-drop, All, All-append, u8, u16, u32, u64, byte_at, slice,
  le16, le32, u16_at, u32_at, IsBytes, ℕ, zero, suc, ◌+◌, ◌-◌, ◌*◌, ◌/◌, ◌%◌, ◌^◌, ◌≤◌, ◌<◌, ◌≡◌,
  refl, sym, ap, ap₂, ◌∙◌, ◌≢◌, ◌↔◌, ◌⊎◌, inl, inr, Bool, true, false, not, ◌&&◌, ◌||◌, Option,
  none, some, List, [], ◌∷◌, ◌++◌, map, append-nil, append_assoc, arith,
}
use gigaboot20x.Cstring.{
  memcpy, ℤ, pos, negsuc, sub_ℕ, head_or_zero, is_zero, memset, memcmp, strlen,
}
use gigaboot20x.Netifc.{
  Netif, max_filter, eth_buffer_size, eth_header_size, eth_buffer_magic, EthBuffer, Frame, Snp,
  write, eth_get_buffer, buffer_of, eth_put_buffer, eth_send, eth_add_mcast_filter, add_buffers,
}
use gigaboot20x.Inet6.Addr.{
  ip6_ll_all_nodes, eth_addr_len, ip6_addr_len, ip6_ll_all_routers, ll6addr_from_mac,
  snmaddr_from_mac, multicast_from_ip6,
}
use gigaboot20x.Inet6.Packet.{
  Host, eth_hdr_len, eth_mtu, ip6_hdr_len, udp_hdr_len, eth_ip6, hdr_udp, hdr_icmp6,
  icmp6_echo_request, icmp6_echo_reply, icmp6_ndp_n_solicit, icmp6_ndp_n_advertise,
  ndp_n_tgt_ll_addr, ndp_n_hdr_size, Ip6Hdr, UdpHdr, ip6_hdr_bytes, udp_hdr_bytes, Ip6Pkt, Ip6State,
  Datagram,
}
use gigaboot20x.Inet6.Send.{
  udp6_send, udp6_max_payload, icmp6_max_payload, resolve_ip6, ip6_setup, udp6_datagram, udp6_frame,
  icmp6_frame, with_buffer, give_up, fill_and_send, icmp6_send, ip6_init,
}
use gigaboot20x.Osboot.Files.{
  FileId, NbFile, nbkernel, nbramdisk, nbcmdline, Files, file_at, set_file, kernel_name,
  ramdisk_name, cmdline_name, netboot_get_buffer,
}

abbrev pub nb_magic : ℕ
nb_magic = 0xAA774217

abbrev pub nb_server_port : ℕ
nb_server_port = 33330

abbrev pub nb_advert_port : ℕ
nb_advert_port = 33331

abbrev pub nb_command : ℕ
nb_command = 1

abbrev pub nb_send_file : ℕ
nb_send_file = 2

abbrev pub nb_data : ℕ
nb_data = 3

abbrev pub nb_boot : ℕ
nb_boot = 4

abbrev pub nb_ack : ℕ
nb_ack = 0

abbrev pub nb_advertise : ℕ
nb_advertise = 0x77777777

abbrev pub nb_error_bad_cmd : ℕ
nb_error_bad_cmd = 0x80000001

abbrev pub nb_error_too_large : ℕ
nb_error_too_large = 0x80000003

abbrev pub nb_error_bad_file : ℕ
nb_error_bad_file = 0x80000004

-- sizeof(nbmsg)
abbrev pub nbmsg_size : ℕ
nbmsg_size = 16

-- An nbmsg with the `len` bytes of its data.
pub record NbMsg : Type 0 where
  pub magic : ℕ
  pub cookie : ℕ
  pub cmd : ℕ
  pub arg : ℕ
  pub body : List ℕ

abbrev pub nbmsg_at : List ℕ → NbMsg
nbmsg_at payload = record {
  magic = u32_at payload 0;
  cookie = u32_at payload 4;
  cmd = u32_at payload 8;
  arg = u32_at payload 12;
  body = drop nbmsg_size payload;
}

abbrev pub nbmsg_bytes : NbMsg → List ℕ
nbmsg_bytes m = le32 m.magic ++ le32 m.cookie ++ le32 m.cmd ++ le32 m.arg ++ m.body

-- The static variables of netboot.c, and the files that `item` may point to.
pub record Nb : Type 0 where
  pub last_cookie : ℕ
  pub last_cmd : ℕ
  pub last_arg : ℕ
  pub last_ack_cmd : ℕ
  pub last_ack_arg : ℕ
  pub nb_boot_now : ℕ
  pub nb_active : ℕ
  pub nb_fastcount : ℕ
  pub nb_online : ℕ
  pub item : Option FileId
  pub files : Files

-- The cmd and arg of an answer; `none` is a `return` before `transmit`.
pub record Reply : Type 0 where
  pub cmd : ℕ
  pub arg : ℕ

abbrev pub reply : ℕ → ℕ → Reply
reply c a = record { cmd = c; arg = a }

-- A byte of a file name that is printed: anything outside ' ' to 127 becomes '.'.
abbrev pub printable : ℕ → ℕ
printable c = if ltb c b' ' || ltb 127 c then b'.' else c

-- The name in the message: its last byte is overwritten by 0.
unfoldable pub file_name : List ℕ → List ℕ
file_name body = map printable (take (length body - 1) body) ++ 0 ∷ []

unfoldable pub send_file : Nb → NbMsg → Nb × Option Reply
unfolding file_name netboot_get_buffer
send_file nb m =
    if length m.body == 0 then (nb, none) else elim (netboot_get_buffer (file_name m.body)) [
      | none ↦ (record nb { item = none }, some (reply nb_error_bad_file 0))
      | some id ↦
          let opened = record (file_at id nb.files) { offset = 0 } in
          (record nb { item = some id; files = set_file id opened nb.files }, some (reply nb_ack 0))
    ]

-- memcpy(item->data + item->offset, msg->data, len); item->offset += len;
pub append_data : NbFile → List ℕ → NbFile
unfolding memcpy
append_data f body = record f {
  buffer = take f.offset f.buffer ++ memcpy (drop f.offset f.buffer) body (length body);
  offset = f.offset + length body;
}

pub file_data : FileId → Nb → NbMsg → Nb × Option Reply
unfolding append_data
file_data id nb m =
    let f = file_at id nb.files in
    if not (m.arg == f.offset)
    then (nb, none)
    else if ltb f.size (f.offset + length m.body)
    then (nb, some (reply nb_error_too_large m.arg))
    else (
      record nb { files = set_file id (append_data f m.body) nb.files },
      some (reply nb_ack m.arg),
    )

-- `if (item == 0) return;`
pub receive_data : Option FileId → Nb → NbMsg → Nb × Option Reply
unfolding file_data
receive_data none nb m = (nb, none)
receive_data (some id) nb m = file_data id nb m

-- The `switch`.
unfoldable pub execute : Nb → NbMsg → Nb × Option Reply
unfolding send_file receive_data
execute nb m =
    if m.cmd == nb_command
    then (nb, if length m.body == 0 then none else some (reply nb_ack 0))
    else if m.cmd == nb_send_file
    then send_file nb m
    else if m.cmd == nb_data
    then receive_data nb.item nb m
    else if m.cmd == nb_boot
    then (record nb { nb_boot_now = 1 }, some (reply nb_ack 0))
    else (nb, some (reply nb_error_bad_cmd 0))

abbrev pub remember : NbMsg → Nb × Option Reply → Nb × Option Reply
remember m (nb, none) = (nb, none)
remember m (nb, some r) = (
  record nb {
    last_cookie = m.cookie;
    last_cmd = m.cmd;
    last_arg = m.arg;
    last_ack_cmd = r.cmd;
    last_ack_arg = r.arg;
  },
  some r,
)

-- `(last_cookie == cookie) && (last_cmd == cmd) && (last_arg = arg)`: the last operand assigns, and
-- is true for an `arg` that is not 0. Every answer carries the cookie of the message.
unfoldable pub handle : Nb → NbMsg → Nb × Option Reply
handle nb m =
    if nb.last_cookie == m.cookie && nb.last_cmd == m.cmd
    then if m.arg == 0
      then remember m (execute (record nb { last_arg = m.arg }) m)
      else (record nb { last_arg = m.arg }, some (reply nb.last_ack_cmd nb.last_ack_arg))
    else remember m (execute nb m)

abbrev pub ack_of : ℕ → Reply → NbMsg
ack_of cookie r = record { magic = nb_magic; cookie = cookie; cmd = r.cmd; arg = r.arg; body = [] }

module _ (snp : Snp) where
  -- `transmit:`, whose result is dropped.
  unfoldable pub transmit_ack : Datagram → NbMsg → Host Nb → Nb × Option Reply → Option (Host Nb)
  transmit_ack d m h (nb, none) = some (record h { app = nb })
  transmit_ack d m h (nb, some r) = do
    sent ← udp6_send snp h.ip (nbmsg_bytes (ack_of m.cookie r)) d.saddr d.sport nb_server_port h.net
    some (record h { net = sent.1; app = record nb { nb_active = 1 } })

  unfoldable pub udp6_recv : Datagram → Host Nb → Option (Host Nb)
  unfolding transmit_ack
  udp6_recv d h =
      if not (d.dport == nb_server_port)
      then some h
      else if ltb (length d.payload) nbmsg_size
      then some h
      else let m = nbmsg_at d.payload in transmit_ack d m h (handle h.app m)
