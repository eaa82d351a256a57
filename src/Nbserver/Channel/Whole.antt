-- ===== src/Nbserver/Channel/Whole.antt =====
-- A whole transfer over a network that loses datagrams.
use gigaboot20x.Base.{
  length, u32, ℕ, ◌+◌, ◌^◌, ◌≤◌, ◌<◌, ◌≡◌, ap, ◌∙◌, ◌≢◌, inl, inr, Bool, false, some, List, arith,
}
use gigaboot20x.Cstring.{pos}
use gigaboot20x.Osboot.Files.{Files}
use gigaboot20x.Netboot.{nb_ack, Nb, reply, handle}
use gigaboot20x.Netboot.Buffers.{AreFiles, received, handle-AreFiles}
use gigaboot20x.Netboot.Transfer.{total_length, concat}
use gigaboot20x.Nbserver.{stamped}
use gigaboot20x.Nbserver.Xfer.{send_file_message, boot_message, booted, exchange, send_boot, xfer}
use gigaboot20x.Nbserver.Xfer.Server.{send_blocks-IsSent}
use gigaboot20x.Nbserver.Xfer.Whole.{named, handle-named, handle-boot, IsReady-named}
use gigaboot20x.Nbserver.Channel.{lossy_server}
use gigaboot20x.Nbserver.Channel.Lossless.{
  AreUnreached, exchange-lossy, answer-eq, handle-named_twice, handle-boot_twice, AreFew, AreFilled,
  send_blocks-lossy,
}

module _ (losses : ℕ → List Bool) (few : AreFew losses) where
  exchange-named_lossy :
      (cookie : ℕ) (nb : Nb)
      → cookie < 2 ^ 32
      → nb.last_cookie ≢ cookie
      → exchange (lossy_server losses) cookie send_file_message nb ≡ some (pos 0, named cookie nb)
  exchange-named_lossy cookie nb small new =
      exchange-lossy losses cookie send_file_message nb (named cookie nb) small (omega arith)
        (few cookie) (handle-named cookie nb new) (inl (handle-named_twice cookie nb))

  exchange-boot_lossy :
      (cookie : ℕ) (nb : Nb)
      → cookie < 2 ^ 32
      → exchange (lossy_server losses) cookie boot_message nb
        ≡ some (pos 0, (handle nb (stamped cookie boot_message)).0)
  exchange-boot_lossy cookie nb small =
      let m = stamped cookie boot_message in
      exchange-lossy losses cookie boot_message nb _ small (omega arith) (few cookie)
        (answer-eq nb m (reply nb_ack 0) (handle-boot cookie nb).0)
        (inl (handle-boot_twice cookie nb))

  -- Over a network that loses up to four rounds of each message, in either direction, and of the
  -- first block only such rounds in which the block itself is lost, a transfer of non-empty blocks
  -- ends as over one that loses nothing: where the server has not seen the cookie, its files are
  -- in order, and its kernel buffer, of less than 2^32 bytes, has room for all blocks, the boot
  -- command is acknowledged, the server holds exactly the concatenation of the blocks as its
  -- kernel, each block once, is to boot, and has its files in order. The cookie and the number of blocks stay below 2^32 - 2 together.
  pub xfer-lossy :
      (cookie : ℕ) (blocks : List (List ℕ)) (nb : Nb)
      → AreUnreached (losses (cookie + 1))
      → AreFilled blocks
      → cookie + length blocks + 2 < 2 ^ 32
      → AreFiles nb.files
      → nb.last_cookie ≢ cookie
      → total_length blocks ≤ nb.files.kernel.size
      → nb.files.kernel.size < 2 ^ 32
      → (nb' : Nb) × (xfer (lossy_server losses) false cookie blocks nb
          ≡ some (booted, u32 (cookie + length blocks + 2), nb'))
        × (received nb'.files.kernel ≡ concat blocks)
        × (nb'.nb_boot_now ≡ 1)
        × AreFiles nb'.files
  unfolding xfer send_boot
  xfer-lossy cookie blocks nb first filled short files new fits small =
      let start = named cookie nb in
      let last = cookie + 1 + length blocks in
      let ready = IsReady-named cookie (total_length blocks) nb files fits small in
      let (nb1, sent) =
        send_blocks-IsSent (cookie + 1) 0 blocks start (omega (arith, short)) ready in
      let sends =
        send_blocks-lossy losses few (cookie + 1) 0 blocks start (omega (arith, short)) filled ready
          (inr first) in
      let (acked, boots, kept) = handle-boot last nb1 in
      let next32 : u32 (cookie + 1) ≡ cookie + 1 = omega (arith, short) in
      let last32 : u32 last ≡ last = omega (arith, short) in
      let count : cookie + length blocks + 2 ≡ last + 1 = omega arith in
      (
        (handle nb1 (stamped last boot_message)).0,
        rw (
          exchange-named_lossy cookie nb (omega (arith, short)) new,
          next32,
          sends,
          sent.run,
          last32,
          exchange-boot_lossy last nb1 (omega (arith, short)),
          count,
        ),
        ap (λ (fs : Files). received fs.kernel) kept ∙ sent.stored,
        boots,
        handle-AreFiles nb1 (stamped last boot_message) sent.ready.files,
      )
