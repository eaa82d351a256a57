-- ===== src/Nbserver/Channel/FirstAck.antt =====
-- The acknowledgement of the first block is lost.
use mathlib.Core.Path.{subst}
use gigaboot20x.Base.{
  ltb, ltb→lt, Bool-cases, length, u32, ℕ, zero, suc, ◌+◌, ◌-◌, ◌^◌, ◌≤◌, ◌<◌, ◌≡◌, refl, ap, ◌∙◌,
  ◌≢◌, inl, inr, Bool, true, false, Option, none, some, List, [], ◌∷◌, ◌++◌, arith,
}
use gigaboot20x.Cstring.{pos, negsuc}
use gigaboot20x.Osboot.Files.{NbFile, nbkernel}
use gigaboot20x.Netboot.{nb_data, NbMsg, Nb, handle}
use gigaboot20x.Netboot.Buffers.{AreFiles, append_data-offset}
use gigaboot20x.Netboot.Acks.{touched, touched-files, touched-item, Accepted-file, handle_stale}
use gigaboot20x.Netboot.Transfer.{block_at, block-Accepted}
use gigaboot20x.Nbserver.{
  Answer, again, writing, reading, IoResult, count_sent, io_loop, stamped, io,
}
use gigaboot20x.Nbserver.Xfer.{
  send_file_message, data_message, not_sent, exchange, send_blocks, xfer,
}
use gigaboot20x.Nbserver.Xfer.Whole.{named, handle-named, IsReady-named}
use gigaboot20x.Nbserver.Channel.{rounds, lossy_server}
use gigaboot20x.Nbserver.Channel.Lossless.{AreUnreached, exchange-lossy, handle-named_twice}

-- The kernel's file is open and has data.
abbrev HasData : Nb → Type 0
HasData nb = (nb.item ≡ some nbkernel) × (0 < nb.files.kernel.offset)

-- A call of io that fails.
abbrev Fails : Option IoResult → Type 0
Fails run = (r : IoResult) × (run ≡ some r) × (r.result ≡ negsuc 0)

count_sent-Fails : (o : Option IoResult) → Fails o → Fails (count_sent o)
count_sent-Fails o (r, e, minus_one) = (record r { sent = r.sent + 1 }, rw e, minus_one)

module _ (m : NbMsg) (is_data : m.cmd ≡ nb_data) (no_arg : m.arg ≡ 0) where
  HasData-touched : (nb : Nb) → HasData nb → HasData (touched nb m)
  HasData-touched nb v = (touched-item nb m ∙ v.0, ground (arith, touched-files nb m, v.1))

  unanswered : (nb : Nb) → HasData nb → handle nb m ≡ (touched nb m, none)
  unanswered nb v = handle_stale nbkernel nb m v.0 is_data no_arg v.1

  timed_out :
      (n : ℕ) (answers : List Answer)
      → (0 < n → Fails (io_loop writing n m answers))
      → Fails (io_loop reading (suc n) m (again ∷ answers))
  unfolding io_loop
  timed_out n answers rest =
      let left : suc n - 1 ≡ n = omega arith in
      rw left (elim (Bool-cases (ltb 0 n)) [
        | inl more ↦ rw more (rest (ltb→lt 0 n more))
        | inr last ↦ rw last (record { result = negsuc 0; sent = 0; rest = answers }, refl, refl)
      ])

  io_loop-unanswered :
      (n : ℕ) (losses : List Bool) (nb : Nb)
      → HasData nb
      → 0 < n
      → Fails (io_loop writing n m (rounds n losses nb m).1)
  unfolding io_loop rounds
  io_loop-unanswered zero losses nb v h = absurd (omega arith)
  io_loop-unanswered (suc n) (false ∷ losses) nb v h =
      count_sent-Fails _ (timed_out n (rounds n losses nb m).1 (io_loop-unanswered n losses nb v))
  io_loop-unanswered (suc n) (true ∷ losses) nb v h =
      let nb' = touched nb m in
      rw (unanswered nb v) (
        count_sent-Fails _ (
          timed_out n (rounds n losses nb' m).1
            (io_loop-unanswered n losses nb' (HasData-touched nb v))))
  io_loop-unanswered (suc n) [] nb v h =
      let nb' = touched nb m in
      rw (unanswered nb v) (
        count_sent-Fails _
          (timed_out n (rounds n [] nb' m).1 (io_loop-unanswered n [] nb' (HasData-touched nb v))))

  -- Rounds in which the message is lost, then one that loses the acknowledgement.
  io_loop-ack_lost :
      (n : ℕ) (lost losses : List Bool) (nb : Nb)
      → length lost < n
      → AreUnreached lost
      → HasData (handle nb m).0
      → Fails (io_loop writing n m (rounds n (lost ++ true ∷ losses) nb m).1)
  unfolding io_loop rounds
  io_loop-ack_lost zero lost losses nb short u v = absurd (omega arith)
  io_loop-ack_lost (suc n) [] losses nb short u v =
      let nb' = (handle nb m).0 in
      count_sent-Fails _ (timed_out n (rounds n losses nb' m).1 (io_loop-unanswered n losses nb' v))
  io_loop-ack_lost (suc n) (reached ∷ lost) losses nb short u v = rw u.0 (
      count_sent-Fails _ (
        timed_out n (rounds n (lost ++ true ∷ losses) nb m).1
          (λ h. io_loop-ack_lost n lost losses nb (omega arith) u.1 v)))

exchange-ack_lost :
    (losses : ℕ → List Bool) (cookie : ℕ) (lost more : List Bool) (block : List ℕ) (nb : Nb)
    → losses cookie ≡ lost ++ true ∷ more
    → length lost < 5
    → AreUnreached lost
    → HasData (handle nb (stamped cookie (data_message 0 block))).0
    → (nb' : Nb) × (exchange (lossy_server losses) cookie (data_message 0 block) nb
        ≡ some (negsuc 0, nb'))
unfolding exchange io lossy_server
exchange-ack_lost losses cookie lost more block nb at_cookie short u v =
    let m = stamped cookie (data_message 0 block) in
    let (r, e, minus_one) = io_loop-ack_lost m refl refl 5 lost more nb short u v in
    ((rounds 5 (losses cookie) nb m).0, rw (at_cookie, e, minus_one))

xfer-not_sent :
    (losses : ℕ → List Bool) (read_error : Bool) (cookie : ℕ) (block : List ℕ)
    (blocks : List (List ℕ)) (nb nb1 nb2 : Nb)
    → exchange (lossy_server losses) cookie send_file_message nb ≡ some (pos 0, nb1)
    → exchange (lossy_server losses) (cookie + 1) (data_message 0 block) nb1 ≡ some (negsuc 0, nb2)
    → cookie + 1 < 2 ^ 32
    → xfer (lossy_server losses) read_error cookie (block ∷ blocks) nb
      ≡ some (not_sent, u32 (cookie + 2), nb2)
unfolding xfer send_blocks
xfer-not_sent losses read_error cookie block blocks nb nb1 nb2 started sends hc =
    let next32 : u32 (cookie + 1) ≡ cookie + 1 = omega (arith, hc) in
    let count : cookie + 2 ≡ cookie + 1 + 1 = omega arith in rw (started, next32, sends, count)

-- If the first block reaches the server, and its acknowledgement is lost, then the transfer fails,
-- whatever the network does from then on: xfer returns after "error: sending", and sends no boot
-- command. This holds where up to four rounds of the first message are lost, up to four rounds lose
-- the block before it arrives, the server has not seen the cookie and its files are in order, and the block is not
-- empty and fits the kernel's buffer, of less than 2^32 bytes.
pub xfer-ack_lost :
    (losses : ℕ → List Bool) (lost more : List Bool) (read_error : Bool) (cookie : ℕ)
    (block : List ℕ) (blocks : List (List ℕ)) (nb : Nb)
    → length (losses cookie) ≤ 4
    → losses (cookie + 1) ≡ lost ++ true ∷ more
    → length lost ≤ 4
    → AreUnreached lost
    → cookie + 1 < 2 ^ 32
    → AreFiles nb.files
    → nb.last_cookie ≢ cookie
    → 0 < length block
    → length block ≤ nb.files.kernel.size
    → nb.files.kernel.size < 2 ^ 32
    → (nb' : Nb) × (xfer (lossy_server losses) read_error cookie (block ∷ blocks) nb
        ≡ some (not_sent, u32 (cookie + 2), nb'))
xfer-ack_lost losses lost more read_error cookie block blocks nb few at_cookie short u hc files new
      filled fits small =
    let start = named cookie nb in
    let start_ready =
      IsReady-named cookie (length block + 0) nb files (omega (arith, fits)) small in
    let a = block-Accepted nbkernel (cookie + 1) 0 0 block start start_ready in
    let started =
      exchange-lossy losses cookie send_file_message nb start (omega arith) (omega arith) few
        (handle-named cookie nb new) (inl (handle-named_twice cookie nb)) in
    let next32 : u32 (cookie + 1) ≡ cookie + 1 = omega (arith, hc) in
    let m32 : block_at nbkernel (cookie + 1) 0 block ≡ stamped (cookie + 1) (data_message 0 block) =
      rw next32 in
    let has_data : HasData (handle start (stamped (cookie + 1) (data_message 0 block))).0 =
      subst (λ m. HasData (handle start m).0) m32
        (
          a.item,
          omega (
            arith,
            ap (λ (f : NbFile). f.offset) (Accepted-file a),
            append_data-offset start.files.kernel block,
          ),
        ) in
    let (nb', sends) =
      exchange-ack_lost losses (cookie + 1) lost more block start at_cookie (omega arith) u
        has_data in
    (nb', xfer-not_sent losses read_error cookie block blocks nb start nb' started sends hc)
