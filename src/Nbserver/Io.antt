-- ===== src/Nbserver/Io.antt =====
-- When io succeeds, and how often it sends.
use mathlib.Core.Path.{subst}
use gigaboot20x.Base.{
  ltb, ==-refl, Bool-cases, length, ℕ, ◌+◌, ◌-◌, ◌*◌, ◌/◌, ◌%◌, ◌^◌, ◌≤◌, ◌<◌, ◌≡◌, inl, inr, true,
  Option, none, some, List, [], ◌∷◌, arith,
}
use gigaboot20x.Cstring.{pos, negsuc}
use gigaboot20x.Netboot.{nb_ack, NbMsg, nbmsg_at, nbmsg_bytes, reply, ack_of, nb_magic, nbmsg_size}
use gigaboot20x.Nbserver.{
  Answer, again, failed, done, Phase, writing, reading, IoResult, is_ack, count_sent, stop, io_loop,
  stamped, io,
}

-- At least a header, with the magic, the cookie and arg of the message, and the cmd NB_ACK.
pub record IsAckFor (msg : NbMsg) (bytes : List ℕ) : Type 0 where
  pub long : nbmsg_size ≤ length bytes
  pub magic : (nbmsg_at bytes).magic ≡ nb_magic
  pub cookie : (nbmsg_at bytes).cookie ≡ msg.cookie
  pub arg : (nbmsg_at bytes).arg ≡ msg.arg
  pub cmd : (nbmsg_at bytes).cmd ≡ nb_ack

is_ack-IsAckFor : (msg : NbMsg) (bytes : List ℕ) → is_ack msg bytes ≡ true → IsAckFor msg bytes
unfolding is_ack
is_ack-IsAckFor msg bytes e = record {
  long = ground (arith, e);
  magic = ground (arith, e);
  cookie = ground (arith, e);
  arg = ground (arith, e);
  cmd = ground (arith, e);
}

-- An acknowledgement of the message is among the answers.
pub data IsAnswered (msg : NbMsg) : List Answer → Type 0 where
  here :
      (bytes : List ℕ) (answers : List Answer)
      → IsAckFor msg bytes
      → IsAnswered msg (done bytes ∷ answers)
  later :
      (a : Answer) (answers : List Answer) → IsAnswered msg answers → IsAnswered msg (a ∷ answers)

-- The number of datagrams that a run may still send.
abbrev budget : Phase → ℕ → ℕ
budget writing retries = retries
budget reading retries = retries - 1

abbrev IsWithin : Phase → ℕ → NbMsg → List Answer → Option IoResult → Type 0
IsWithin phase retries msg answers none = Unit
IsWithin phase retries msg answers (some r) =
    (r.sent ≤ budget phase retries) × (r.result ≡ pos 0 → IsAnswered msg answers)

IsWithin-later :
    (p q : Phase) (n k : ℕ) (msg : NbMsg) (a : Answer) (answers : List Answer) (o : Option IoResult)
    → budget p n ≤ budget q k
    → IsWithin p n msg answers o
    → IsWithin q k msg (a ∷ answers) o
IsWithin-later p q n k msg a answers none le v = tt
IsWithin-later p q n k msg a answers (some r) le v =
    (omega (arith, v.0), λ e. later a answers (v.1 e))

IsWithin-count_sent :
    (n : ℕ) (msg : NbMsg) (a : Answer) (answers : List Answer) (o : Option IoResult)
    → 0 < n
    → IsWithin reading n msg answers o
    → IsWithin writing n msg (a ∷ answers) (count_sent o)
IsWithin-count_sent n msg a answers none le v = tt
IsWithin-count_sent n msg a answers (some r) le v =
    (omega (arith, v.0), λ e. later a answers (v.1 e))

IsWithin-stop :
    (phase : Phase) (n : ℕ) (msg : NbMsg) (answers rest : List Answer)
    → IsWithin phase n msg answers (stop (negsuc 0) rest)
IsWithin-stop phase n msg answers rest = (omega arith, λ e. absurd (ground (arith, e)))

io_loop-IsWithin :
    (phase : Phase) (n : ℕ) (msg : NbMsg) (answers : List Answer)
    → 0 < n
    → IsWithin phase n msg answers (io_loop phase n msg answers)
unfolding io_loop
io_loop-IsWithin phase n msg [] h = tt
io_loop-IsWithin writing n msg (again ∷ answers) h =
    IsWithin-later writing writing n n msg again answers _ (omega arith)
      (io_loop-IsWithin writing n msg answers h)
io_loop-IsWithin writing n msg (failed ∷ answers) h = IsWithin-stop writing n msg _ answers
io_loop-IsWithin writing n msg (done bytes ∷ answers) h =
    IsWithin-count_sent n msg (done bytes) answers _ h (io_loop-IsWithin reading n msg answers h)
io_loop-IsWithin reading n msg (again ∷ answers) h = elim (Bool-cases (ltb 0 (n - 1))) [
  | inl more ↦ rw more (
      IsWithin-later writing reading (n - 1) n msg again answers _ (omega arith)
        (io_loop-IsWithin writing (n - 1) msg answers (ground (arith, more))))
  | inr last ↦ rw last (IsWithin-stop reading n msg _ answers)
]
io_loop-IsWithin reading n msg (failed ∷ answers) h = IsWithin-stop reading n msg _ answers
io_loop-IsWithin reading n msg (done bytes ∷ answers) h = elim (Bool-cases (is_ack msg bytes)) [
  | inl good ↦ rw good (omega arith, λ e. here bytes answers (is_ack-IsAckFor msg bytes good))
  | inr bad ↦ rw bad (
      IsWithin-later reading reading n n msg (done bytes) answers _ (omega arith)
        (io_loop-IsWithin reading n msg answers h))
]

-- When io has returned, it has written the message at most five times, and when it has returned 0,
-- the socket has delivered a datagram of at least 16 bytes with the magic, the cookie and arg of the
-- message, and the cmd NB_ACK.
pub io_lem :
    (cookie : ℕ) (msg : NbMsg) (answers : List Answer) (r : IoResult)
    → (io cookie msg answers).1 ≡ some r
    → (r.sent ≤ 5) × (r.result ≡ pos 0 → IsAnswered (stamped cookie msg) answers)
unfolding io
io_lem cookie msg answers r e =
    subst (IsWithin writing 5 (stamped cookie msg) answers) e
      (io_loop-IsWithin writing 5 (stamped cookie msg) answers (omega arith))

u32_at-le32 :
    (n : ℕ)
    → n < 2 ^ 32
    → n % 256 + 256 * (n / 256 % 256) + 65536 * (n / 65536 % 256) + 16777216 * (n / 16777216 % 256)
      ≡ n
u32_at-le32 n h = omega arith

-- A header of four 32-bit fields is read back from its bytes, with the data behind it.
pub nbmsg_at-nbmsg_bytes :
    (m : NbMsg)
    → m.magic < 2 ^ 32
    → m.cookie < 2 ^ 32
    → m.cmd < 2 ^ 32
    → m.arg < 2 ^ 32
    → nbmsg_at (nbmsg_bytes m) ≡ m
nbmsg_at-nbmsg_bytes m hm hk hc ha =
    rw (u32_at-le32 m.magic hm, u32_at-le32 m.cookie hk, u32_at-le32 m.cmd hc, u32_at-le32 m.arg ha)

-- The server's acknowledgement of a message is one for io.
pub ack_of-is_ack :
    (msg : NbMsg)
    → msg.cookie < 2 ^ 32
    → msg.arg < 2 ^ 32
    → is_ack msg (nbmsg_bytes (ack_of msg.cookie (reply nb_ack msg.arg))) ≡ true
unfolding is_ack
ack_of-is_ack msg hk ha =
    rw (u32_at-le32 msg.cookie hk, u32_at-le32 msg.arg ha, ==-refl msg.cookie, ==-refl msg.arg)
