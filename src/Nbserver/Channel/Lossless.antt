-- ===== src/Nbserver/Channel/Lossless.antt =====
-- Losses that do not change what a transfer does.
use mathlib.Core.Path.{subst}
use gigaboot20x.Base.{
  ◌==◌, lt→ltb, ==-refl, Bool-cases, length, All, u32, ℕ, zero, suc, ◌+◌, ◌-◌, ◌^◌, ◌≤◌, ◌<◌, ◌≡◌,
  refl, ap, ◌∙◌, ◌⊎◌, inl, inr, Bool, true, false, ◌&&◌, Option, some, List, [], ◌∷◌, ◌++◌, arith,
}
use gigaboot20x.Cstring.{ℤ, pos}
use gigaboot20x.Osboot.Files.{nbkernel}
use gigaboot20x.Netboot.{nb_boot, nb_ack, NbMsg, Nb, Reply, reply, send_file, execute, handle}
use gigaboot20x.Netboot.Acks.{handle_twice}
use gigaboot20x.Netboot.Transfer.{total_length, IsReady, block_at, block-Accepted, IsReady-handle}
use gigaboot20x.Nbserver.{Answer, again, done, writing, io_loop, stamped, io}
use gigaboot20x.Nbserver.Io.{ack_of-is_ack}
use gigaboot20x.Nbserver.Xfer.{send_file_message, data_message, boot_message, exchange, send_blocks}
use gigaboot20x.Nbserver.Xfer.Server.{server, exchange-acked_at}
use gigaboot20x.Nbserver.Xfer.Whole.{named, kernel_is_known}
use gigaboot20x.Nbserver.Channel.{replies, is_accepted, rounds, lossy_server}

-- What the calls of the lost rounds answer.
abbrev timeouts : List Bool → List Answer
timeouts [] = []
timeouts (reached ∷ losses) = done [] ∷ again ∷ timeouts losses

-- No message of a lost round reached the server.
abbrev pub AreUnreached : List Bool → Type 0
AreUnreached losses = All (λ (reached : Bool). reached ≡ false) losses

module _ (m : NbMsg) (r : Reply) (after : Nb) (accepts : is_accepted m (some r) ≡ true) where
  -- The state after the message answers it in the same way, or sees it only once.
  abbrev IsSettled : List Bool → Type 0
  IsSettled losses = (handle after m ≡ (after, some r)) ⊎ AreUnreached losses

  rounds-settled :
      (n : ℕ) (losses : List Bool) (nb : Nb)
      → length losses < n
      → handle nb m ≡ (after, some r)
      → IsSettled losses
      → rounds n losses nb m ≡ (after, timeouts losses ++ done [] ∷ replies m (some r))
  unfolding rounds
  rounds-settled zero losses nb short e v = absurd (omega arith)
  rounds-settled (suc n) [] nb short e v = rw (e, accepts)
  rounds-settled (suc n) (false ∷ losses) nb short e v =
      let v' : IsSettled losses = ground (arith, v) in
      rw (rounds-settled n losses nb (omega arith) e v')
  rounds-settled (suc n) (true ∷ losses) nb short e (inl same) =
      rw (e, rounds-settled n losses after (omega arith) same (inl same))
  rounds-settled (suc n) (true ∷ losses) nb short e (inr unreached) =
      absurd (ground (arith, unreached.0))

  io_loop-settled :
      (n : ℕ) (losses : List Bool)
      → length losses < n
      → (sent : ℕ) × (io_loop writing n m (timeouts losses ++ done [] ∷ replies m (some r))
          ≡ some (record { result = pos 0; sent = sent; rest = again ∷ [] }))
  unfolding io_loop
  io_loop-settled zero losses short = absurd (omega arith)
  io_loop-settled (suc n) [] short = (1, rw accepts)
  io_loop-settled (suc n) (reached ∷ losses) short =
      let (sent, e) = io_loop-settled n losses (omega arith) in
      let left : suc n - 1 ≡ n = omega arith in (sent + 1, rw (left, lt→ltb 0 n (omega arith), e))

pub exchange-lossy :
    (losses : ℕ → List Bool) (cookie : ℕ) (msg : NbMsg) (nb after : Nb)
    → cookie < 2 ^ 32
    → msg.arg < 2 ^ 32
    → length (losses cookie) ≤ 4
    → let m = stamped cookie msg in
      let r = reply nb_ack msg.arg in
      handle nb m ≡ (after, some r)
      → (handle after m ≡ (after, some r)) ⊎ AreUnreached (losses cookie)
      → exchange (lossy_server losses) cookie msg nb ≡ some (pos 0, after)
unfolding exchange io lossy_server
exchange-lossy losses cookie msg nb after hc ha short e v =
    let m = stamped cookie msg in
    let r = reply nb_ack msg.arg in
    let accepts = ack_of-is_ack m hc ha in
    let (sent, ends) = io_loop-settled m r after accepts 5 (losses cookie) (omega arith) in
    rw (rounds-settled m r after accepts 5 (losses cookie) nb (omega arith) e v, ends)

-- The answer to a message, with the state after it.
pub answer-eq :
    (nb : Nb) (m : NbMsg) (r : Reply)
    → (handle nb m).1 ≡ some r
    → handle nb m ≡ ((handle nb m).0, some r)
answer-eq nb m r e = ap (λ (o : Option Reply). ((handle nb m).0, o)) e

pub handle-named_twice :
    (cookie : ℕ) (nb : Nb)
    → handle (named cookie nb) (stamped cookie send_file_message)
      ≡ (named cookie nb, some (reply nb_ack 0))
unfolding handle execute send_file
handle-named_twice cookie nb = rw (==-refl cookie, kernel_is_known)

pub handle-boot_twice :
    (cookie : ℕ) (nb : Nb)
    → let m = stamped cookie boot_message in
      handle (handle nb m).0 m ≡ ((handle nb m).0, some (reply nb_ack 0))
unfolding handle execute
handle-boot_twice cookie nb =
    elim (Bool-cases (nb.last_cookie == cookie && nb.last_cmd == nb_boot)) [
      | inl seen ↦ rw (seen, ==-refl cookie)
      | inr fresh ↦ rw (fresh, ==-refl cookie)
    ]

-- Few enough losses that a message still comes through, for every message.
abbrev pub AreFew : (ℕ → List Bool) → Type 0
AreFew losses = (cookie : ℕ) → length (losses cookie) ≤ 4

exchange-lossy_at :
    (losses : ℕ → List Bool) (cookie : ℕ) (msg m : NbMsg) (nb : Nb)
    → stamped cookie msg ≡ m
    → cookie < 2 ^ 32
    → msg.arg < 2 ^ 32
    → length (losses cookie) ≤ 4
    → (handle nb m).1 ≡ some (reply nb_ack msg.arg)
    → (handle (handle nb m).0 m ≡ ((handle nb m).0, some (reply nb_ack msg.arg)))
      ⊎ AreUnreached (losses cookie)
    → exchange (lossy_server losses) cookie msg nb ≡ some (pos 0, (handle nb m).0)
exchange-lossy_at losses cookie msg m nb same hc ha short =
    let r = reply nb_ack msg.arg in
    subst
      (λ m.
        (handle nb m).1 ≡ some r
        → (handle (handle nb m).0 m ≡ ((handle nb m).0, some r)) ⊎ AreUnreached (losses cookie)
        → exchange (lossy_server losses) cookie msg nb ≡ some (pos 0, (handle nb m).0))
      same
      (λ e.
        exchange-lossy losses cookie msg nb _ hc ha short (answer-eq nb (stamped cookie msg) r e))

abbrev pub AreFilled : List (List ℕ) → Type 0
AreFilled blocks = All (λ (block : List ℕ). 0 < length block) blocks

module _ (losses : ℕ → List Bool) (few : AreFew losses) where
  -- One block; the state after it is the same.
  exchange_block :
      (cookie off more : ℕ) (block : List ℕ) (nb : Nb)
      → cookie < 2 ^ 32
      → IsReady nbkernel cookie off (length block + more) nb
      → (0 < off) ⊎ AreUnreached (losses cookie)
      → let after : Option (ℤ × Nb) =
          some (pos 0, (handle nb (block_at nbkernel cookie off block)).0) in
        (exchange (lossy_server losses) cookie (data_message off block) nb ≡ after)
        × (exchange server cookie (data_message off block) nb ≡ after)
  exchange_block cookie off more block nb hc v first =
      let m = block_at nbkernel cookie off block in
      let small : off < 2 ^ 32 = omega (arith, v.fits, v.size_fits) in
      let off32 : u32 off ≡ off = omega arith in
      let cookie32 : u32 cookie ≡ cookie = omega arith in
      let a = block-Accepted nbkernel cookie off more block nb v in
      let answer = a.answer ∙ ap (λ n. some (reply nb_ack n)) off32 in
      (
        exchange-lossy_at losses cookie (data_message off block) m nb (rw (off32, cookie32)) hc
            small (few cookie) answer
            (elim first [
              | inr unreached ↦ inr unreached
              | inl moved ↦ inl (
                  handle_twice nb m (reply nb_ack off) answer
                    (λ e. absurd (omega (arith, off32, moved, e))))
            ]),
        exchange-acked_at cookie (data_message off block) m nb (rw (off32, cookie32)) hc small
            answer,
      )

  pub send_blocks-lossy :
      (cookie off : ℕ) (blocks : List (List ℕ)) (nb : Nb)
      → cookie + length blocks < 2 ^ 32
      → AreFilled blocks
      → IsReady nbkernel cookie off (total_length blocks) nb
      → (0 < off) ⊎ AreUnreached (losses cookie)
      → send_blocks (lossy_server losses) false cookie off blocks nb
        ≡ send_blocks server false cookie off blocks nb
  unfolding send_blocks
  send_blocks-lossy cookie off [] nb short filled v first = refl
  send_blocks-lossy cookie off (block ∷ blocks) nb short filled v first =
      let m = block_at nbkernel cookie off block in
      let (with_losses, without) =
        exchange_block cookie off (total_length blocks) block nb (omega arith) v first in
      let next32 : u32 (cookie + 1) ≡ cookie + 1 = omega arith in
      let sum32 : u32 (off + length block) ≡ off + length block =
        omega (arith, v.fits, v.size_fits) in
      rw (with_losses, without, next32, sum32)
        (send_blocks-lossy (cookie + 1) (off + length block) blocks (handle nb m).0 (omega arith)
          filled.1 (IsReady-handle nbkernel cookie off (total_length blocks) block nb v)
          (inl (omega (arith, filled.0))))
