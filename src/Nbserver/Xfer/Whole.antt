-- ===== src/Nbserver/Xfer/Whole.antt =====
-- A whole transfer: naming the file, its blocks, and the boot command.

use gigaboot20x.Base.{
  ne→==, false, length, u32, ℕ, ◌+◌, ◌^◌, ◌≤◌, ◌<◌, ◌≡◌, refl, ap, ◌∙◌, ◌≢◌, inr, Option, some,
  List, arith,
}
use gigaboot20x.Cstring.{pos, memcmp}
use gigaboot20x.Osboot.Files.{nbkernel, Files, kernel_name, netboot_get_buffer}
use gigaboot20x.Netboot.{
  nb_send_file, nb_ack, Nb, Reply, reply, file_name, send_file, execute, handle,
}
use gigaboot20x.Netboot.Buffers.{AreFiles, received}
use gigaboot20x.Netboot.Acks.{handle_new, touched-files}
use gigaboot20x.Netboot.Transfer.{total_length, concat, IsReady}
use gigaboot20x.Nbserver.{stamped}
use gigaboot20x.Nbserver.Xfer.{send_file_message, boot_message, booted, exchange, send_boot, xfer}
use gigaboot20x.Nbserver.Xfer.Server.{server, exchange-acked, send_blocks-IsSent}

-- The server after it was told to receive the kernel.
abbrev pub named : ℕ → Nb → Nb
named cookie nb = record nb {
  item = some nbkernel;
  files = record nb.files { kernel = record nb.files.kernel { offset = 0 } };
  last_cookie = cookie;
  last_cmd = nb_send_file;
  last_arg = 0;
  last_ack_cmd = nb_ack;
  last_ack_arg = 0;
}

pub kernel_is_known : netboot_get_buffer (file_name kernel_name) ≡ some nbkernel
unfolding netboot_get_buffer file_name memcmp
kernel_is_known = refl

pub handle-named :
    (cookie : ℕ) (nb : Nb)
    → nb.last_cookie ≢ cookie
    → handle nb (stamped cookie send_file_message) ≡ (named cookie nb, some (reply nb_ack 0))
unfolding handle execute send_file
handle-named cookie nb new = rw (ne→== nb.last_cookie cookie new, kernel_is_known)

-- The boot command is always executed, since its arg is 0.
pub handle-boot :
    (cookie : ℕ) (nb : Nb)
    → let r = handle nb (stamped cookie boot_message) in
      (r.1 ≡ some (reply nb_ack 0)) × (r.0.nb_boot_now ≡ 1) × (r.0.files ≡ nb.files)
unfolding execute
handle-boot cookie nb =
    let m = stamped cookie boot_message in
    rw (handle_new nb m (inr refl)) (refl, refl, touched-files nb m)

exchange-named :
    (cookie : ℕ) (nb : Nb)
    → cookie < 2 ^ 32
    → nb.last_cookie ≢ cookie
    → exchange server cookie send_file_message nb ≡ some (pos 0, named cookie nb)
exchange-named cookie nb small new =
    let first = handle-named cookie nb new in
    exchange-acked cookie send_file_message nb small (omega arith)
      (ap (λ (r : Nb × Option Reply). r.1) first)
    ∙ ap (λ (r : Nb × Option Reply). some (pos 0, r.0)) first

pub IsReady-named :
    (cookie more : ℕ) (nb : Nb)
    → AreFiles nb.files
    → more ≤ nb.files.kernel.size
    → nb.files.kernel.size < 2 ^ 32
    → IsReady nbkernel (cookie + 1) 0 more (named cookie nb)
IsReady-named cookie more nb files fits small = record {
  opened = refl;
  files = ((files.0.0, omega arith), files.1, files.2);
  at_offset = refl;
  fits = omega (arith, fits);
  size_fits = small;
  new_cookie = inr refl;
}

-- Over a socket that loses nothing, to a server that has not seen the cookie and whose files are
-- in order, and whose kernel buffer, of less than 2^32 bytes, has room for all blocks, xfer
-- returns after an acknowledged boot command. The server then holds exactly the concatenation of
-- the blocks as its kernel, and is to boot, and the cookie went up by the number of messages. The cookie and the number of blocks stay below 2^32 -
-- 2 together.
pub xfer-server :
    (cookie : ℕ) (blocks : List (List ℕ)) (nb : Nb)
    → cookie + length blocks + 2 < 2 ^ 32
    → AreFiles nb.files
    → nb.last_cookie ≢ cookie
    → total_length blocks ≤ nb.files.kernel.size
    → nb.files.kernel.size < 2 ^ 32
    → (nb' : Nb) × (xfer server false cookie blocks nb
        ≡ some (booted, u32 (cookie + length blocks + 2), nb'))
      × (received nb'.files.kernel ≡ concat blocks)
      × (nb'.nb_boot_now ≡ 1)
unfolding xfer send_boot
xfer-server cookie blocks nb short files new fits small =
    let start = named cookie nb in
    let last = cookie + 1 + length blocks in
    let started = exchange-named cookie nb (omega (arith, short)) new in
    let (nb1, sent) =
      send_blocks-IsSent (cookie + 1) 0 blocks start (omega (arith, short))
        (IsReady-named cookie (total_length blocks) nb files fits small) in
    let (acked, boots, kept) = handle-boot last nb1 in
    let stopped = exchange-acked last boot_message nb1 (omega (arith, short)) (omega arith) acked in
    let next32 : u32 (cookie + 1) ≡ cookie + 1 = omega (arith, short) in
    let last32 : u32 last ≡ last = omega (arith, short) in
    let count : cookie + length blocks + 2 ≡ last + 1 = omega arith in
    (
      (handle nb1 (stamped last boot_message)).0,
      rw (started, next32, sent.run, last32, stopped, count),
      ap (λ (fs : Files). received fs.kernel) kept ∙ sent.stored,
      boots,
    )
