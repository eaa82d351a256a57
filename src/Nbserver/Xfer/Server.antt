-- ===== src/Nbserver/Xfer/Server.antt =====
-- xfer against the boot server of src/netboot.c over a socket that loses nothing.
use mathlib.Core.Path.{subst}
use gigaboot20x.Base.{
  false, length, u32, ℕ, suc, ◌+◌, ◌^◌, ◌<◌, ◌≡◌, sym, ap, ◌∙◌, true, Option, none, some, List, [],
  ◌∷◌, ◌++◌, append-nil, append_assoc, arith,
}
use gigaboot20x.Cstring.{pos}
use gigaboot20x.Osboot.Files.{nbkernel, file_at}
use gigaboot20x.Netboot.{nb_ack, NbMsg, nbmsg_bytes, Nb, Reply, reply, handle, ack_of}
use gigaboot20x.Netboot.Buffers.{received}
use gigaboot20x.Netboot.Transfer.{
  total_length, concat, IsReady, block_at, block-Accepted, IsReady-handle, received-block,
}
use gigaboot20x.Nbserver.{Answer, done, io_loop, stamped, io}
use gigaboot20x.Nbserver.Io.{ack_of-is_ack}
use gigaboot20x.Nbserver.Xfer.{data_message, exchange, send_blocks}

-- What the socket calls answer: the write succeeds, and the read delivers what the server sent.
abbrev answers_of : NbMsg → Option Reply → List Answer
answers_of m none = done [] ∷ []
answers_of m (some r) = done [] ∷ done (nbmsg_bytes (ack_of m.cookie r)) ∷ []

abbrev pub server : Nb → NbMsg → Nb × List Answer
server nb m = ((handle nb m).0, answers_of m (handle nb m).1)

pub exchange-acked :
    (cookie : ℕ) (msg : NbMsg) (nb : Nb)
    → cookie < 2 ^ 32
    → msg.arg < 2 ^ 32
    → (handle nb (stamped cookie msg)).1 ≡ some (reply nb_ack msg.arg)
    → exchange server cookie msg nb ≡ some (pos 0, (handle nb (stamped cookie msg)).0)
unfolding exchange io io_loop
exchange-acked cookie msg nb hc ha e = rw (e, ack_of-is_ack (stamped cookie msg) hc ha)

pub exchange-acked_at :
    (cookie : ℕ) (msg m : NbMsg) (nb : Nb)
    → stamped cookie msg ≡ m
    → cookie < 2 ^ 32
    → msg.arg < 2 ^ 32
    → (handle nb m).1 ≡ some (reply nb_ack msg.arg)
    → exchange server cookie msg nb ≡ some (pos 0, (handle nb m).0)
exchange-acked_at cookie msg m nb same hc ha =
    subst
      (λ m.
        (handle nb m).1 ≡ some (reply nb_ack msg.arg)
        → exchange server cookie msg nb ≡ some (pos 0, (handle nb m).0))
      same (exchange-acked cookie msg nb hc ha)

-- A run of the loop that reaches nb' with all the blocks behind what the kernel's file held.
pub record IsSent (cookie off : ℕ) (blocks : List (List ℕ)) (nb nb' : Nb) : Type 0 where
  pub run :
      send_blocks server false cookie off blocks nb ≡ some (true, u32 (cookie + length blocks), nb')
  pub stored :
      received (file_at nbkernel nb'.files) ≡ received (file_at nbkernel nb.files) ++ concat blocks
  pub ready : IsReady nbkernel (cookie + length blocks) (off + total_length blocks) 0 nb'

pub send_blocks-IsSent :
    (cookie off : ℕ) (blocks : List (List ℕ)) (nb : Nb)
    → cookie + length blocks < 2 ^ 32
    → IsReady nbkernel cookie off (total_length blocks) nb
    → (nb' : Nb) × IsSent cookie off blocks nb nb'
unfolding send_blocks
send_blocks-IsSent cookie off [] nb short v =
    let same : u32 (cookie + 0) ≡ cookie = omega arith in
    let start : cookie + 0 ≡ cookie = omega arith in
    let place : off + 0 ≡ off = omega arith in
    (nb, record { run = rw same; stored = sym (append-nil _); ready = rw (start, place) v })
send_blocks-IsSent cookie off (block ∷ blocks) nb short v =
    let m = block_at nbkernel cookie off block in
    let small : off < 2 ^ 32 = omega (arith, v.fits, v.size_fits) in
    let sum : off + length block < 2 ^ 32 = omega (arith, v.fits, v.size_fits) in
    let a = block-Accepted nbkernel cookie off (total_length blocks) block nb v in
    let off32 : u32 off ≡ off = omega arith in
    let cookie32 : u32 cookie ≡ cookie = omega arith in
    let sent =
      exchange-acked_at cookie (data_message off block) m nb (rw (off32, cookie32)) (omega arith)
        small (a.answer ∙ ap (λ n. some (reply nb_ack n)) off32) in
    let (nb', rest) =
      send_blocks-IsSent (cookie + 1) (off + length block) blocks (handle nb m).0 (omega arith)
        (IsReady-handle nbkernel cookie off (total_length blocks) block nb v) in
    let next32 : u32 (cookie + 1) ≡ cookie + 1 = omega arith in
    let sum32 : u32 (off + length block) ≡ off + length block = omega arith in
    let cookies : cookie + suc (length blocks) ≡ cookie + 1 + length blocks = omega arith in
    let places : off + (length block + total_length blocks)
        ≡ off + length block + total_length blocks =
      omega arith in
    (
      nb',
      record {
        run = rw (sent, next32, sum32, cookies) rest.run;
        stored =
            rest.stored
            ∙ ap (λ t. t ++ concat blocks)
                (received-block nbkernel cookie off (total_length blocks) block nb v)
            ∙ append_assoc (received (file_at nbkernel nb.files)) block (concat blocks);
        ready = rw (cookies, places) rest.ready;
      },
    )
