-- ===== src/Nbserver/Xfer.antt =====
-- src/nbserver.c: xfer, from the first message to the boot command. The peer behind the socket is a
-- parameter: what it does with a message, and what the socket calls of io then answer. So are the
-- blocks that fread delivers, and whether they end in a read error.
pub mod Server
pub mod Whole
pub mod Refined
use gigaboot20x.Base.{
  get_or-append, get_or-append_left, get_or-take, get_or-drop, get_or-set_other, get_or-set,
  length-reverse, set-append, ltb, leb, ◌==◌, if◌then◌else◌, ltb→lt, lt→ltb, le→ltb, ltb→le,
  ==-refl, ==→eq, ne→==, tests, Bool-cases, Option-cases, ◌>>=◌, ◌>>◌, length, get_or, set, take,
  drop, replicate, length-append, length-take, length-drop, length-replicate, length-set,
  take-append, drop-append, take-length, take-append-drop, All, All-append, u8, u16, u32, u64,
  byte_at, slice, le16, le32, u16_at, u32_at, IsBytes, ℕ, zero, suc, ◌+◌, ◌-◌, ◌*◌, ◌/◌, ◌%◌, ◌^◌,
  ◌≤◌, ◌<◌, ◌≡◌, refl, sym, ap, ap₂, ◌∙◌, ◌≢◌, ◌↔◌, ◌⊎◌, inl, inr, Bool, true, false, not, ◌&&◌,
  ◌||◌, Option, none, some, List, [], ◌∷◌, ◌++◌, map, append-nil, append_assoc, arith,
}
use gigaboot20x.Cstring.{
  ℤ, pos, negsuc, sub_ℕ, head_or_zero, is_zero, memset, memcpy, memcmp, strlen,
}
use gigaboot20x.Osboot.Files.{
  NbFile, FileId, nbkernel, nbramdisk, nbcmdline, Files, file_at, set_file, kernel_name,
  ramdisk_name, cmdline_name, netboot_get_buffer,
}
use gigaboot20x.Netboot.{
  nb_magic, nb_server_port, nb_advert_port, nb_command, nb_send_file, nb_data, nb_boot, nb_ack,
  nb_advertise, nb_error_bad_cmd, nb_error_too_large, nb_error_bad_file, nbmsg_size, NbMsg,
  nbmsg_at, nbmsg_bytes, Nb, Reply, reply, printable, file_name, send_file, append_data, file_data,
  receive_data, execute, remember, handle, ack_of, transmit_ack, udp6_recv,
}
use gigaboot20x.Nbserver.{
  Answer, again, failed, done, Phase, writing, reading, IoResult, is_ack, count_sent, stop, io_loop,
  max_retries, stamped, io,
}

abbrev pub send_file_message : NbMsg
send_file_message = record {
  magic = 0;
  cookie = 0;
  cmd = nb_send_file;
  arg = 0;
  body = kernel_name;
}

abbrev pub data_message : ℕ → List ℕ → NbMsg
data_message off block = record { magic = 0; cookie = 0; cmd = nb_data; arg = off; body = block }

abbrev pub boot_message : NbMsg
boot_message = record { magic = 0; cookie = 0; cmd = nb_boot; arg = 0; body = [] }

-- How far xfer came.
pub data Ending : Type 0 where
  not_started not_sent not_booted booted : Ending

module _ {S : Type 0} (peer : S → NbMsg → S × List Answer) where
  -- A call of io: its result and the peer after it; `none` never returns.
  unfoldable pub exchange : ℕ → NbMsg → S → Option (ℤ × S)
  exchange cookie msg s =
      let (s', answers) = peer s (stamped cookie msg) in
      ((io cookie msg answers).1 >>= λ (r : IoResult). some (r.result, s'))

  unfoldable pub send_boot : ℕ → S → Option (Ending × S)
  unfolding exchange
  send_boot cookie s =
      (exchange cookie boot_message s >>= λ (x : ℤ × S).
      some (if is_zero x.0 then (booted, x.1) else (not_booted, x.1)))

  module _ (read_error : Bool) where
    -- The loop: whether every block was acknowledged and none is missing, and the cookie and the peer
    -- after it.
    unfoldable pub send_blocks : ℕ → ℕ → List (List ℕ) → S → Option (Bool × ℕ × S)
    unfolding exchange
    send_blocks cookie off [] s = some (not read_error, cookie, s)
    send_blocks cookie off (block ∷ blocks) s =
        (exchange cookie (data_message off block) s >>= λ (x : ℤ × S).
        let rest = send_blocks (u32 (cookie + 1)) (u32 (off + length block)) blocks x.1 in
        if is_zero x.0 then rest else some (false, u32 (cookie + 1), x.1))

    -- With the static cookie after it.
    unfoldable pub xfer : ℕ → List (List ℕ) → S → Option (Ending × ℕ × S)
    unfolding send_blocks send_boot
    xfer cookie blocks s =
        (exchange cookie send_file_message s >>= λ (x : ℤ × S).
        let after =
          (send_blocks (u32 (cookie + 1)) 0 blocks x.1 >>= λ (y : Bool × ℕ × S).
          (let boot = (send_boot y.1 y.2 >>= λ (z : Ending × S). some (z.0, u32 (y.1 + 1), z.1)) in
            if y.0 then boot else some (not_sent, y.1, y.2))) in
        if is_zero x.0 then after else some (not_started, u32 (cookie + 1), x.1))
