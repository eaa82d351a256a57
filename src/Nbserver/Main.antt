-- ===== src/Nbserver/Main.antt =====
-- src/nbserver.c: main, drain and the start of xfer. What the socket delivers is a list; the peers
-- that answer a transfer are a parameter.
pub mod Arguments
pub mod Beacons
pub mod Boots
pub mod Examples
use gigaboot20x.Base.{
  get_or-append, get_or-append_left, get_or-take, get_or-drop, get_or-set_other, get_or-set,
  length-reverse, set-append, ltb, leb, ◌==◌, if◌then◌else◌, ltb→lt, lt→ltb, le→ltb, ltb→le,
  ==-refl, ==→eq, ne→==, tests, Bool-cases, Option-cases, ◌>>=◌, ◌>>◌, length, get_or, set, take,
  drop, replicate, length-append, length-take, length-drop, length-replicate, length-set,
  take-append, drop-append, take-length, take-append-drop, All, All-append, u8, u16, u32, u64,
  byte_at, slice, le16, le32, u16_at, u32_at, IsBytes, ℕ, zero, suc, ◌+◌, ◌-◌, ◌*◌, ◌/◌, ◌%◌, ◌^◌,
  ◌≤◌, ◌<◌, ◌≡◌, refl, sym, ap, ap₂, ◌∙◌, ◌≢◌, ◌↔◌, ◌⊎◌, inl, inr, Bool, true, false, not, ◌&&◌,
  ◌||◌, Option, none, some, List, [], ◌∷◌, ◌++◌, map, append-nil, append_assoc, arith,
}
use gigaboot20x.Cstring.{
  ℤ, pos, negsuc, sub_ℕ, head_or_zero, is_zero, memset, memcpy, memcmp, strlen,
}
use gigaboot20x.Netboot.{
  nb_magic, nb_server_port, nb_advert_port, nb_command, nb_send_file, nb_data, nb_boot, nb_ack,
  nb_advertise, nb_error_bad_cmd, nb_error_too_large, nb_error_bad_file, nbmsg_size, NbMsg,
  nbmsg_at, nbmsg_bytes, Nb, Reply, reply, printable, file_name, send_file, append_data, file_data,
  receive_data, execute, remember, handle, ack_of, transmit_ack, udp6_recv,
}
use gigaboot20x.Nbserver.{
  Answer, again, failed, done, Phase, writing, reading, IoResult, is_ack, count_sent, stop, io_loop,
  max_retries, stamped, io,
}
use gigaboot20x.Nbserver.Xfer.{
  send_file_message, data_message, boot_message, Ending, not_started, not_sent, not_booted, booted,
  exchange, send_boot, send_blocks, xfer,
}

-- strcmp gives 0. The strings are without their final 0.
pub is_same : List ℕ → List ℕ → Bool
is_same [] [] = true
is_same [] (y ∷ ys) = false
is_same (x ∷ xs) [] = false
is_same (x ∷ xs) (y ∷ ys) = x == y && is_same xs ys

-- "-1"
abbrev pub once_option : List ℕ
once_option = b'-' ∷ b'1' ∷ []

-- `fn`, where NULL is `none`, and `once`.
pub record Options : Type 0 where
  pub file : Option (List ℕ)
  pub once : Bool

-- The file name, unless there is one.
abbrev take_name : List ℕ → Options → Option Options
take_name arg o = elim o.file [ some fn ↦ none | none ↦ some (record o { file = some arg }) ]

-- One round of the loop over the arguments; `none` is usage(), which exits.
pub read_option : List ℕ → Options → Option Options
unfolding is_same
read_option arg o =
    if not (head_or_zero arg == b'-')
    then take_name arg o
    else if is_same arg once_option
    then some (record o { once = true })
    else none

-- The loop, and the test on `fn`.
pub read_options : List (List ℕ) → Options → Option (List ℕ × Bool)
unfolding read_option
read_options [] o = elim o.file [ none ↦ none | some fn ↦ some (fn, o.once) ]
read_options (arg ∷ args) o = (read_option arg o >>= λ o'. read_options args o')

abbrev pub no_options : Options
no_options = record { file = none; once = false }

-- A datagram, with its sender; `queued` says that it was in the queue when the last transfer ended.
-- Or an error of recvfrom.
pub data Incoming : Type 0 where
  datagram : (queued : Bool) (sender bytes : List ℕ) → Incoming
  recv_error : Incoming

-- The tests on what was received.
pub is_beacon : List ℕ → List ℕ → Bool
is_beacon sender bytes =
    let msg = nbmsg_at bytes in
    if ltb (length bytes) nbmsg_size
    then false
    else if not (byte_at sender 0 == 0xFE) || not (byte_at sender 1 == 0x80)
    then false
    else if not (msg.magic == nb_magic)
    then false
    else msg.cmd == nb_advertise

-- What xfer finds: whether fopen, socket and connect succeed, the blocks of the file, and whether
-- reading it ends in an error.
pub record Setup : Type 0 where
  pub opens : Bool
  pub has_socket : Bool
  pub connects : Bool
  pub blocks : List (List ℕ)
  pub read_error : Bool

-- `static uint32_t cookie = 1;`
abbrev pub first_cookie : ℕ
first_cookie = 1

-- `exit(1)` in usage, whose text is left out.
abbrev usage_code : ℤ
usage_code = pos 1

module _ {S : Type 0} (peer : List ℕ → S → NbMsg → S × List Answer) where
  -- xfer from its first line on.
  pub transfer : Setup → List ℕ → ℕ → S → Option (Ending × ℕ × S)
  transfer f sender cookie s =
      if not f.opens
      then some (not_started, cookie, s)
      else if not f.has_socket
      then some (not_started, cookie, s)
      else if not f.connects
      then some (not_started, cookie, s)
      else xfer (peer sender) f.read_error cookie f.blocks s

  -- The loop of main: the endings of its transfers, whether it has ended, and the cookie and the
  -- peers after it; `none` is a transfer that does not return. `draining` is the loop of drain, which
  -- reads what is queued until it reads no bytes.
  pub serve_beacons :
      Bool → Bool → Setup → List Incoming → ℕ → S → Option (List Ending × Bool × ℕ × S)
  unfolding transfer is_beacon
  serve_beacons draining once f [] cookie s = some ([], false, cookie, s)
  serve_beacons draining once f (recv_error ∷ incoming) cookie s = some ([], true, cookie, s)
  serve_beacons draining once f (datagram queued sender bytes ∷ incoming) cookie s =
      let discard = serve_beacons (not (length bytes == 0)) once f incoming cookie s in
      let ignore = serve_beacons false once f incoming cookie s in
      let serve =
        (transfer f sender cookie s >>= λ (x : Ending × ℕ × S).
        let ends : Option (List Ending × Bool × ℕ × S) = some (x.0 ∷ [], true, x.1, x.2) in
        let goes_on =
          (serve_beacons true once f incoming x.1 x.2 >>= λ (y : List Ending × Bool × ℕ × S).
          some (x.0 ∷ y.0, y.1, y.2, y.3)) in
        if once then ends else goes_on) in
      if draining && queued then discard else if is_beacon sender bytes then serve else ignore

  -- The socket of main: whether socket and bind succeed.
  module _ (has_socket binds : Bool) where
    -- main behind its loop over the arguments, with what it finds of each file, up to its exit code
    -- or as long as datagrams come: the code, where it has ended, the endings of its transfers, and
    -- the peers after it.
    pub serve_file :
        (List ℕ → Setup)
        → List Incoming
        → S
        → Option (List ℕ × Bool)
        → Option (Option ℤ × List Ending × S)
    unfolding serve_beacons
    serve_file files incoming s none = some (some usage_code, [], s)
    serve_file files incoming s (some (fn, once)) =
        let serve =
          (serve_beacons false once (files fn) incoming first_cookie s
            >>= λ (x : List Ending × Bool × ℕ × S).
                some (if x.1 then some (pos 0) else none, x.0, x.3)) in
        if not has_socket
        then some (some (negsuc 0), [], s)
        else if not binds
        then some (some (negsuc 0), [], s)
        else serve

    pub main :
        (List ℕ → Setup) → List (List ℕ) → List Incoming → S → Option (Option ℤ × List Ending × S)
    unfolding read_options serve_file
    main files args incoming s = serve_file files incoming s (read_options args no_options)
