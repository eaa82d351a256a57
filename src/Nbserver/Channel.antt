-- ===== src/Nbserver/Channel.antt =====
-- xfer of src/nbserver.c against the boot server of src/netboot.c over a network that loses
-- datagrams in both directions.
pub mod Returns
pub mod Lossless
pub mod Whole
pub mod FirstAck
pub mod Examples
use gigaboot20x.Base.{
  get_or-append, get_or-append_left, get_or-take, get_or-drop, get_or-set_other, get_or-set,
  length-reverse, set-append, ltb, leb, ◌==◌, if◌then◌else◌, ltb→lt, lt→ltb, le→ltb, ltb→le,
  ==-refl, ==→eq, ne→==, tests, Bool-cases, Option-cases, ◌>>=◌, ◌>>◌, length, get_or, set, take,
  drop, replicate, length-append, length-take, length-drop, length-replicate, length-set,
  take-append, drop-append, take-length, take-append-drop, All, All-append, u8, u16, u32, u64,
  byte_at, slice, le16, le32, u16_at, u32_at, IsBytes, ℕ, zero, suc, ◌+◌, ◌-◌, ◌*◌, ◌/◌, ◌%◌, ◌^◌,
  ◌≤◌, ◌<◌, ◌≡◌, refl, sym, ap, ap₂, ◌∙◌, ◌≢◌, ◌↔◌, ◌⊎◌, inl, inr, Bool, true, false, not, ◌&&◌,
  ◌||◌, Option, none, some, List, [], ◌∷◌, ◌++◌, map, append-nil, append_assoc, arith,
}
use gigaboot20x.Netboot.{
  nb_magic, nb_server_port, nb_advert_port, nb_command, nb_send_file, nb_data, nb_boot, nb_ack,
  nb_advertise, nb_error_bad_cmd, nb_error_too_large, nb_error_bad_file, nbmsg_size, NbMsg,
  nbmsg_at, nbmsg_bytes, Nb, Reply, reply, printable, file_name, send_file, append_data, file_data,
  receive_data, execute, remember, handle, ack_of, transmit_ack, udp6_recv,
}
use gigaboot20x.Nbserver.{
  Answer, again, failed, done, Phase, writing, reading, IoResult, is_ack, count_sent, stop, io_loop,
  max_retries, stamped, io,
}
use gigaboot20x.Nbserver.Xfer.{
  send_file_message, data_message, boot_message, Ending, not_started, not_sent, not_booted, booted,
  exchange, send_boot, send_blocks, xfer,
}

-- The read delivers the server's answer and then times out.
abbrev pub replies : NbMsg → Option Reply → List Answer
replies m none = again ∷ []
replies m (some r) = done (nbmsg_bytes (ack_of m.cookie r)) ∷ again ∷ []

abbrev pub is_accepted : NbMsg → Option Reply → Bool
is_accepted m none = false
is_accepted m (some r) = is_ack m (nbmsg_bytes (ack_of m.cookie r))

-- The rounds of a message that is sent n times at most, with the server's state after them and what
-- the socket calls answer. A lost round says whether the message reached the server and only the
-- answer was lost. In a later round nothing is lost, and the last is the one whose answer io accepts.
pub rounds : ℕ → List Bool → Nb → NbMsg → Nb × List Answer
rounds zero losses nb m = (nb, [])
rounds (suc n) (reached ∷ losses) nb m =
    let r = rounds n losses (if reached then (handle nb m).0 else nb) m in
    (r.0, done [] ∷ again ∷ r.1)
rounds (suc n) [] nb m =
    let x = handle nb m in
    let r = rounds n [] x.0 m in
    if is_accepted m x.1
    then (x.0, done [] ∷ replies m x.1)
    else (r.0, done [] ∷ replies m x.1 ++ r.1)

-- The server behind such a network. Every message has a cookie of its own: its losses are given by it.
pub lossy_server : (ℕ → List Bool) → Nb → NbMsg → Nb × List Answer
unfolding rounds
lossy_server losses nb m = rounds max_retries (losses m.cookie) nb m
