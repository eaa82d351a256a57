-- ===== src/Nbserver/Xfer/Refined.antt =====
-- xfer against a peer that does what the boot server does.
use mathlib.Core.Path.{subst}
use gigaboot20x.Base.{
  false, true, length, All, u32, ℕ, suc, ◌+◌, ◌^◌, ◌≤◌, ◌<◌, ◌≡◌, refl, sym, ap, ◌∙◌, ◌≢◌, Option,
  some, List, [], ◌∷◌, ◌++◌, append-nil, append_assoc, arith,
}
use gigaboot20x.Cstring.{pos}
use gigaboot20x.Osboot.Files.{nbkernel, Files, file_at}
use gigaboot20x.Netboot.{nb_ack, NbMsg, nbmsg_bytes, Nb, Reply, reply, handle, ack_of}
use gigaboot20x.Netboot.Buffers.{AreFiles, received}
use gigaboot20x.Netboot.Transfer.{
  total_length, concat, IsReady, block_at, block-Accepted, IsReady-handle, received-block,
}
use gigaboot20x.Nbserver.{Answer, done, io_loop, stamped, io}
use gigaboot20x.Nbserver.Io.{ack_of-is_ack}
use gigaboot20x.Nbserver.Xfer.{
  send_file_message, data_message, boot_message, booted, exchange, send_blocks, send_boot, xfer,
}
use gigaboot20x.Nbserver.Xfer.Whole.{named, handle-named, handle-boot, IsReady-named}

-- A peer that stands in the relation R to the boot server, and answers each message that it is fit
-- for, and that the server answers, as the server does.
pub record Refines {S : Type 0} (peer : S → NbMsg → S × List Answer) (R : S → Nb → Type 0)
    (IsFit : NbMsg → Type 0) : Type 0 where
  pub step :
      (s : S) (nb : Nb) (m : NbMsg) (r : Reply)
      → R s nb
      → IsFit m
      → (handle nb m).1 ≡ some r
      → (s' : S) × (peer s m ≡ (s', done [] ∷ done (nbmsg_bytes (ack_of m.cookie r)) ∷ []))
        × R s' (handle nb m).0

-- The messages of a transfer are fit.
pub record AreFit (IsFit : NbMsg → Type 0) (blocks : List (List ℕ)) : Type 0 where
  pub first : (cookie : ℕ) → cookie < 2 ^ 32 → IsFit (stamped cookie send_file_message)
  pub each :
      All (λ (block : List ℕ). (cookie off : ℕ) → IsFit (block_at nbkernel cookie off block)) blocks
  pub last : (cookie : ℕ) → cookie < 2 ^ 32 → IsFit (stamped cookie boot_message)

module _ {S : Type 0} {peer : S → NbMsg → S × List Answer} {R : S → Nb → Type 0}
    {IsFit : NbMsg → Type 0} (refines : Refines peer R IsFit) where
  exchange-refined :
      (cookie : ℕ) (msg m : NbMsg) (s : S) (nb : Nb)
      → stamped cookie msg ≡ m
      → cookie < 2 ^ 32
      → msg.arg < 2 ^ 32
      → R s nb
      → IsFit m
      → (handle nb m).1 ≡ some (reply nb_ack msg.arg)
      → (s' : S) × (exchange peer cookie msg s ≡ some (pos 0, s')) × R s' (handle nb m).0
  unfolding exchange io io_loop
  exchange-refined cookie msg m s nb same hc ha v fit e =
      let (s', run, v') = refines.step s nb m (reply nb_ack msg.arg) v fit e in
      let run' =
        subst
          (λ m'.
            peer s m'
            ≡ (s', done [] ∷ done (nbmsg_bytes (ack_of m'.cookie (reply nb_ack msg.arg))) ∷ []))
          (sym same) run in
      (s', rw (run', ack_of-is_ack (stamped cookie msg) hc ha), v')

  -- A run of the loop to a peer that stands for a server with all the blocks.
  record IsSentTo (cookie off : ℕ) (blocks : List (List ℕ)) (s : S) (nb : Nb) : Type 0 where
    peer' : S
    nb' : Nb
    run :
        send_blocks peer false cookie off blocks s
        ≡ some (true, u32 (cookie + length blocks), peer')
    related : R peer' nb'
    stored :
        received (file_at nbkernel nb'.files)
        ≡ received (file_at nbkernel nb.files) ++ concat blocks

  send_blocks-refined :
      (cookie off : ℕ) (blocks : List (List ℕ)) (s : S) (nb : Nb)
      → cookie + length blocks < 2 ^ 32
      → IsReady nbkernel cookie off (total_length blocks) nb
      → All
          (λ (block : List ℕ). (cookie off : ℕ) → IsFit (block_at nbkernel cookie off block))
          blocks
      → R s nb
      → IsSentTo cookie off blocks s nb
  unfolding send_blocks
  send_blocks-refined cookie off [] s nb short v fit related =
      let same : u32 (cookie + 0) ≡ cookie = omega arith in
      record { peer' = s; nb' = nb; run = rw same; related = related; stored = sym (append-nil _) }
  send_blocks-refined cookie off (block ∷ blocks) s nb short v fit related =
      let m = block_at nbkernel cookie off block in
      let small : off < 2 ^ 32 = omega (arith, v.fits, v.size_fits) in
      let sum : off + length block < 2 ^ 32 = omega (arith, v.fits, v.size_fits) in
      let a = block-Accepted nbkernel cookie off (total_length blocks) block nb v in
      let off32 : u32 off ≡ off = omega arith in
      let cookie32 : u32 cookie ≡ cookie = omega arith in
      let (s1, sent, related1) =
        exchange-refined cookie (data_message off block) m s nb (rw (off32, cookie32)) (omega arith)
          small related (fit.0 cookie off) (a.answer ∙ ap (λ n. some (reply nb_ack n)) off32) in
      let rest =
        send_blocks-refined (cookie + 1) (off + length block) blocks s1 (handle nb m).0
          (omega arith) (IsReady-handle nbkernel cookie off (total_length blocks) block nb v) fit.1
          related1 in
      let next32 : u32 (cookie + 1) ≡ cookie + 1 = omega arith in
      let sum32 : u32 (off + length block) ≡ off + length block = omega arith in
      let cookies : cookie + suc (length blocks) ≡ cookie + 1 + length blocks = omega arith in
      record {
        peer' = rest.peer';
        nb' = rest.nb';
        run = rw (sent, next32, sum32, cookies) rest.run;
        related = rest.related;
        stored =
            rest.stored
            ∙ ap (λ t. t ++ concat blocks)
                (received-block nbkernel cookie off (total_length blocks) block nb v)
            ∙ append_assoc (received (file_at nbkernel nb.files)) block (concat blocks);
      }

  -- A whole transfer.
  pub xfer-refined :
      (cookie : ℕ) (blocks : List (List ℕ)) (s : S) (nb : Nb)
      → cookie + length blocks + 2 < 2 ^ 32
      → AreFiles nb.files
      → nb.last_cookie ≢ cookie
      → total_length blocks ≤ nb.files.kernel.size
      → nb.files.kernel.size < 2 ^ 32
      → AreFit IsFit blocks
      → R s nb
      → (s' : S) × (nb' : Nb) × (xfer peer false cookie blocks s
          ≡ some (booted, u32 (cookie + length blocks + 2), s'))
        × R s' nb'
        × (received nb'.files.kernel ≡ concat blocks)
        × (nb'.nb_boot_now ≡ 1)
  unfolding xfer send_boot
  xfer-refined cookie blocks s nb short files new fits small fit related =
      let last = cookie + 1 + length blocks in
      let first = handle-named cookie nb new in
      let (s0, started, related0) =
        exchange-refined cookie send_file_message (stamped cookie send_file_message) s nb refl
          (omega (arith, short)) (omega arith) related (fit.first cookie (omega (arith, short)))
          (ap (λ (r : Nb × Option Reply). r.1) first) in
      let related1 : R s0 (named cookie nb) =
        subst (λ (r : Nb × Option Reply). R s0 r.0) first related0 in
      let sent =
        send_blocks-refined (cookie + 1) 0 blocks s0 (named cookie nb) (omega (arith, short))
          (IsReady-named cookie (total_length blocks) nb files fits small) fit.each related1 in
      let (acked, boots, kept) = handle-boot last sent.nb' in
      let (s', stopped, related') =
        exchange-refined last boot_message (stamped last boot_message) sent.peer' sent.nb' refl
          (omega (arith, short)) (omega arith) sent.related (fit.last last (omega (arith, short)))
          acked in
      let next32 : u32 (cookie + 1) ≡ cookie + 1 = omega (arith, short) in
      let last32 : u32 last ≡ last = omega (arith, short) in
      let count : cookie + length blocks + 2 ≡ last + 1 = omega arith in
      (
        s',
        (handle sent.nb' (stamped last boot_message)).0,
        rw (started, next32, sent.run, last32, stopped, count),
        related',
        ap (λ (fs : Files). received fs.kernel) kept ∙ sent.stored,
        boots,
      )
