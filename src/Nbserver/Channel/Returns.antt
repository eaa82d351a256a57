-- ===== src/Nbserver/Channel/Returns.antt =====
-- That a transfer comes to an end.
use gigaboot20x.Base.{
  ltb, if◌then◌else◌, ltb→lt, Bool-cases, Option-cases, ◌>>=◌, length, u32, ℕ, zero, suc, ◌+◌, ◌-◌,
  ◌<◌, ◌≡◌, refl, ◌≢◌, inl, inr, Bool, true, false, not, Option, none, some, List, [], ◌∷◌, ◌++◌,
  arith,
}
use gigaboot20x.Cstring.{is_zero}
use gigaboot20x.Netboot.{NbMsg, nbmsg_bytes, Nb, Reply, handle, ack_of}
use gigaboot20x.Nbserver.{
  Answer, again, writing, reading, IoResult, is_ack, count_sent, io_loop, stamped, io,
}
use gigaboot20x.Nbserver.Xfer.{
  send_file_message, data_message, boot_message, exchange, send_boot, send_blocks, xfer,
}
use gigaboot20x.Nbserver.Channel.{replies, is_accepted, rounds, lossy_server}

count_sent-returns : (o : Option IoResult) → o ≢ none → count_sent o ≢ none
count_sent-returns none h = absurd (h refl)
count_sent-returns (some r) h = λ e. cc

-- After a timeout of the read.
timed_out :
    (n : ℕ) (m : NbMsg) (answers : List Answer)
    → (0 < n → io_loop writing n m answers ≢ none)
    → io_loop reading (suc n) m (again ∷ answers) ≢ none
unfolding io_loop
timed_out n m answers rest =
    let left : suc n - 1 ≡ n = omega arith in
    rw left (elim (Bool-cases (ltb 0 n)) [
      | inl more ↦ rw more (rest (ltb→lt 0 n more))
      | inr last ↦ rw last (λ e. cc)
    ])

-- After the server's answer, if there is one.
answered :
    (n : ℕ) (m : NbMsg) (o : Option Reply) (answers : List Answer)
    → (0 < n → io_loop writing n m answers ≢ none)
    → io_loop reading (suc n) m (replies m o ++ answers) ≢ none
unfolding io_loop
answered n m none answers rest = timed_out n m answers rest
answered n m (some r) answers rest =
    elim (Bool-cases (is_ack m (nbmsg_bytes (ack_of m.cookie r)))) [
      | inl good ↦ rw good (λ e. cc)
      | inr other ↦ rw other (timed_out n m answers rest)
    ]

accepted :
    (n : ℕ) (m : NbMsg) (o : Option Reply)
    → is_accepted m o ≡ true
    → io_loop reading (suc n) m (replies m o) ≢ none
unfolding io_loop
accepted n m none h = cc
accepted n m (some r) h = rw h (λ e. cc)

io_loop-rounds :
    (n : ℕ) (losses : List Bool) (nb : Nb) (m : NbMsg)
    → 0 < n
    → io_loop writing n m (rounds n losses nb m).1 ≢ none
unfolding io_loop rounds
io_loop-rounds zero losses nb m h = absurd (omega arith)
io_loop-rounds (suc n) (reached ∷ losses) nb m h =
    let nb' = if reached then (handle nb m).0 else nb in
    count_sent-returns _ (timed_out n m (rounds n losses nb' m).1 (io_loop-rounds n losses nb' m))
io_loop-rounds (suc n) [] nb m h = elim (Bool-cases (is_accepted m (handle nb m).1)) [
  | inl good ↦ rw good (count_sent-returns _ (accepted n m (handle nb m).1 good))
  | inr other ↦ rw other (
      count_sent-returns _ (
        answered n m (handle nb m).1 (rounds n [] (handle nb m).0 m).1
          (io_loop-rounds n [] (handle nb m).0 m)))
]

-- A run that returns.
abbrev pub Returns {ℓ} : {A : Type ℓ} → Option A → Type ℓ
Returns {A} run = (r : A) × (run ≡ some r)

Returns-bind {ℓ κ} :
    {A : Type ℓ} {B : Type κ} (run : Option A) (f : A → Option B)
    → Returns run
    → ((a : A) → Returns (f a))
    → Returns (run >>= f)
Returns-bind run f (a, e) rest = rw e (rest a)

Returns-if {ℓ} :
    {A : Type ℓ} (test : Bool) (x y : Option A)
    → Returns x
    → Returns y
    → Returns (if test then x else y)
Returns-if true x y a b = a
Returns-if false x y a b = b

module _ (losses : ℕ → List Bool) where
  exchange-Returns :
      (cookie : ℕ) (msg : NbMsg) (nb : Nb) → Returns (exchange (lossy_server losses) cookie msg nb)
  unfolding exchange io lossy_server
  exchange-Returns cookie msg nb =
      let m = stamped cookie msg in
      elim (Option-cases (io_loop writing 5 m (rounds 5 (losses cookie) nb m).1)) [
        | inl stuck ↦ absurd (io_loop-rounds 5 (losses cookie) nb m (omega arith) stuck)
        | inr (r, e) ↦ ((r.result, (rounds 5 (losses cookie) nb m).0), rw e)
      ]

  send_blocks-Returns :
      (read_error : Bool) (cookie off : ℕ) (blocks : List (List ℕ)) (nb : Nb)
      → Returns (send_blocks (lossy_server losses) read_error cookie off blocks nb)
  unfolding send_blocks
  send_blocks-Returns read_error cookie off [] nb = ((not read_error, cookie, nb), refl)
  send_blocks-Returns read_error cookie off (block ∷ blocks) nb =
      Returns-bind _ _ (exchange-Returns cookie (data_message off block) nb) λ x.
        Returns-if (is_zero x.0) _ _
          (send_blocks-Returns read_error (u32 (cookie + 1)) (u32 (off + length block)) blocks x.1)
          (_, refl)

  send_boot-Returns : (cookie : ℕ) (nb : Nb) → Returns (send_boot (lossy_server losses) cookie nb)
  unfolding send_boot
  send_boot-Returns cookie nb =
      Returns-bind _ _ (exchange-Returns cookie boot_message nb) λ x. (_, refl)

  -- A transfer to the boot server comes to an end, whichever datagrams the network loses, whatever
  -- the server holds, and whether the file can be read to its end.
  pub xfer-Returns :
      (read_error : Bool) (cookie : ℕ) (blocks : List (List ℕ)) (nb : Nb)
      → Returns (xfer (lossy_server losses) read_error cookie blocks nb)
  unfolding xfer
  xfer-Returns read_error cookie blocks nb =
      Returns-bind _ _ (exchange-Returns cookie send_file_message nb) λ x.
        Returns-if (is_zero x.0) _ _
          (Returns-bind _ _ (send_blocks-Returns read_error (u32 (cookie + 1)) 0 blocks x.1) λ y.
            Returns-if y.0 _ _ (Returns-bind _ _ (send_boot-Returns y.1 y.2) λ z. (_, refl))
              (_, refl))
          (_, refl)
