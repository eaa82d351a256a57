-- ===== src/Nbserver.antt =====
-- src/nbserver.c: io, by which the boot host sends a message and waits for its acknowledgement. The
-- answers of the socket calls, in the order of the calls, are a parameter.
pub mod Io
pub mod Xfer
pub mod Channel
pub mod Main
pub mod Examples
use gigaboot20x.Base.{
  get_or-append, get_or-append_left, get_or-take, get_or-drop, get_or-set_other, get_or-set,
  length-reverse, set-append, ltb, leb, ◌==◌, if◌then◌else◌, ltb→lt, lt→ltb, le→ltb, ltb→le,
  ==-refl, ==→eq, ne→==, tests, Bool-cases, Option-cases, ◌>>=◌, ◌>>◌, length, get_or, set, take,
  drop, replicate, length-append, length-take, length-drop, length-replicate, length-set,
  take-append, drop-append, take-length, take-append-drop, All, All-append, u8, u16, u32, u64,
  byte_at, slice, le16, le32, u16_at, u32_at, IsBytes, ℕ, zero, suc, ◌+◌, ◌-◌, ◌*◌, ◌/◌, ◌%◌, ◌^◌,
  ◌≤◌, ◌<◌, ◌≡◌, refl, sym, ap, ap₂, ◌∙◌, ◌≢◌, ◌↔◌, ◌⊎◌, inl, inr, Bool, true, false, not, ◌&&◌,
  ◌||◌, Option, none, some, List, [], ◌∷◌, ◌++◌, map, append-nil, append_assoc, arith,
}
use gigaboot20x.Cstring.{
  ℤ, pos, negsuc, sub_ℕ, head_or_zero, is_zero, memset, memcpy, memcmp, strlen,
}
use gigaboot20x.Netboot.{
  nb_magic, nb_server_port, nb_advert_port, nb_command, nb_send_file, nb_data, nb_boot, nb_ack,
  nb_advertise, nb_error_bad_cmd, nb_error_too_large, nb_error_bad_file, nbmsg_size, NbMsg,
  nbmsg_at, nbmsg_bytes, Nb, Reply, reply, printable, file_name, send_file, append_data, file_data,
  receive_data, execute, remember, handle, ack_of, transmit_ack, udp6_recv,
}

-- What write or read answers: EAGAIN or EWOULDBLOCK, another error, or success, with the bytes that
-- were read.
pub data Answer : Type 0 where
  again : Answer
  failed : Answer
  done : List ℕ → Answer

-- The call that comes next: the write at the head of the loop, or the read at the label `again`.
pub data Phase : Type 0 where
  writing reading : Phase

-- The result, the number of datagrams that were written, and the answers that are left.
pub record IoResult : Type 0 where
  pub result : ℤ
  pub sent : ℕ
  pub rest : List Answer

-- The tests on what was read.
pub is_ack : NbMsg → List ℕ → Bool
is_ack msg bytes =
    let ack = nbmsg_at bytes in
    if ltb (length bytes) nbmsg_size
    then false
    else if not (ack.magic == nb_magic)
    then false
    else if not (ack.cookie == msg.cookie)
    then false
    else if not (ack.arg == msg.arg)
    then false
    else ack.cmd == nb_ack

abbrev pub count_sent : Option IoResult → Option IoResult
count_sent none = none
count_sent (some r) = some (record r { sent = r.sent + 1 })

abbrev pub stop : ℤ → List Answer → Option IoResult
stop n answers = some (record { result = n; sent = 0; rest = answers })

-- The loop; `none` is a call that has no answer yet.
pub io_loop : Phase → ℕ → NbMsg → List Answer → Option IoResult
unfolding is_ack
io_loop phase retries msg [] = none
io_loop writing retries msg (again ∷ answers) = io_loop writing retries msg answers
io_loop writing retries msg (failed ∷ answers) = stop (negsuc 0) answers
io_loop writing retries msg (done bytes ∷ answers) =
    count_sent (io_loop reading retries msg answers)
io_loop reading retries msg (again ∷ answers) =
    let repeat = io_loop writing (retries - 1) msg answers in
    if ltb 0 (retries - 1) then repeat else stop (negsuc 0) answers
io_loop reading retries msg (failed ∷ answers) = stop (negsuc 0) answers
io_loop reading retries msg (done bytes ∷ answers) =
    let ignore = io_loop reading retries msg answers in
    if is_ack msg bytes then stop (pos 0) answers else ignore

abbrev pub max_retries : ℕ
max_retries = 5

-- The message that io sends: its magic and cookie are set, and the static cookie goes up.
abbrev pub stamped : ℕ → NbMsg → NbMsg
stamped cookie msg = record msg { magic = nb_magic; cookie = cookie }

-- io with the static cookie before and after.
pub io : ℕ → NbMsg → List Answer → ℕ × Option IoResult
unfolding io_loop
io cookie msg answers = (u32 (cookie + 1), io_loop writing max_retries (stamped cookie msg) answers)
