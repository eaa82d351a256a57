-- ===== src/Netifc/Pool.antt =====
-- src/netifc.c: which transmit buffers are free and which are lent.
use gigaboot20x.Base.{
  ◌==◌, if◌then◌else◌, ==-refl, Bool-cases, ℕ, ◌+◌, ◌%◌, ◌≤◌, ◌<◌, ◌≡◌, refl, inl, inr, Option,
  none, some, List, [], ◌∷◌, ◌++◌, map, arith,
}
use gigaboot20x.Netifc.{
  Netif, eth_buffer_size, eth_buffer_magic, EthBuffer, Frame, Snp, write, eth_get_buffer, buffer_of,
  eth_put_buffer, eth_send,
}
use gigaboot20x.Cstring.{pos, ℤ, negsuc}

abbrev pub count : ℕ → List ℕ → ℕ
count a [] = 0
count a (x ∷ xs) = (if a == x then 1 else 0) + count a xs

pub count-append : (p : ℕ) (us vs : List ℕ) → count p (us ++ vs) ≡ count p us + count p vs
count-append p [] vs = omega arith
count-append p (u ∷ us) vs = omega (count-append p us vs, arith)

-- From p the next pointers lead through the stamped buffers xs to NULL.
abbrev Chain : (ℕ → EthBuffer) → ℕ → List ℕ → Type 0
Chain heap p [] = p ≡ 0
Chain heap p (x ∷ xs) = (p ≡ x) × (0 < x) × Chain heap (heap x).next xs

pub Chain-write :
    (heap : ℕ → EthBuffer) (a : ℕ) (b : EthBuffer) (p : ℕ) (xs : List ℕ)
    → count a xs ≡ 0
    → Chain heap p xs
    → Chain (write heap a b) p xs
Chain-write heap a b p [] out c = c
Chain-write heap a b p (x ∷ xs) out c =
    (c.0, c.1, ground (arith, Chain-write heap a b (heap x).next xs))

-- The buffers of `all`, at distinct multiples of 2048, are the free ones and those of `lent`.
pub record IsPool (all lent : List ℕ) (n : Netif) : Type 0 where
  pub free : List ℕ
  pub chain : Chain n.heap n.eth_buffers free
  pub account : (a : ℕ) → count a free + count a lent ≡ count a all
  pub once : (a : ℕ) → count a all ≤ 1
  pub stamped :
      (a : ℕ) → 0 < count a all → ((n.heap a).magic ≡ eth_buffer_magic) × (a % 2048 ≡ 0) × (0 < a)

abbrev next_set : Netif → ℕ → ℕ → ℕ → EthBuffer
next_set n b v = write n.heap b (record (n.heap b) { next = v })

abbrev without_head : Netif → ℕ → Netif
without_head n x = record n { eth_buffers = (n.heap x).next; heap = next_set n x 0 }

abbrev with_head : Netif → ℕ → Netif
with_head n x = record n { heap = next_set n x n.eth_buffers; eth_buffers = x }

-- What a call of eth_get_buffer may do to a pool: hand out a buffer that was not lent, or NULL
-- because every buffer is lent.
pub data Got (all lent : List ℕ) (n : Netif) (r : Option ℕ × Netif) : Type 0 where
  exhausted : r ≡ (none, n) → ((a : ℕ) → count a lent ≡ count a all) → Got all lent n r
  lends :
      (p : ℕ) (n' : Netif)
      → r ≡ (some p, n')
      → IsPool all (buffer_of p ∷ lent) n'
      → n'.in_flight ≡ n.in_flight
      → p % 2048 ≡ 16
      → Got all lent n r

magic-next_set : (n : Netif) (b v a : ℕ) → (next_set n b v a).magic ≡ (n.heap a).magic
magic-next_set n b v a = ground arith

module _ {all lent : List ℕ} {n : Netif} (v : IsPool all lent n) where
  account_of : (a : ℕ) (free : List ℕ) → free ≡ v.free → count a free + count a lent ≡ count a all
  account_of a free e = rw e (v.account a)

  taken :
      (x : ℕ) (free : List ℕ)
      → (x ∷ free) ≡ v.free
      → Chain n.heap n.eth_buffers (x ∷ free)
      → IsPool all (buffer_of (x + 16) ∷ lent) (without_head n x)
  taken x free e c =
      let at_x = account_of x (x ∷ free) e in
      let used : 0 < count x all = ground (arith, at_x) in
      let unlisted : count x free ≡ 0 = ground (arith, at_x, v.once x) in
      let base : buffer_of (x + 16) ≡ x = omega (arith, (v.stamped x used).1) in
      record {
        free = free;
        chain = Chain-write n.heap x _ _ free unlisted c.2;
        account = λ a. rw base (ground (arith, account_of a (x ∷ free) e));
        once = v.once;
        stamped = λ a h. rw magic-next_set (v.stamped a h);
      }

-- In a pool, eth_get_buffer for at most 1516 bytes either hands out the address 16 bytes into a
-- buffer that was not lent, which is lent then, or gives NULL and changes nothing, every buffer
-- being lent.
pub get_lem :
    {all lent : List ℕ} {n : Netif} (sz : ℕ)
    → sz ≤ eth_buffer_size
    → IsPool all lent n
    → Got all lent n (eth_get_buffer sz n)
unfolding eth_get_buffer
get_lem {all} {lent} {n} sz fits v = split v.free refl v.chain
  where
    split :
        (free : List ℕ)
        → free ≡ v.free
        → Chain n.heap n.eth_buffers free
        → Got all lent n (eth_get_buffer sz n)
    split [] e c = exhausted (ground arith) (λ a. ground (arith, account_of v a [] e))
    split (x ∷ free) e c =
        lends (x + 16) (without_head n x) (ground arith) (taken v x free e c) refl
          (ground (arith, account_of v x (x ∷ free) e, v.stamped x))

-- In a pool where a buffer is lent, eth_put_buffer with any address inside that buffer returns,
-- and the buffer is free and no longer lent. What is in flight does not change.
pub put-IsPool :
    {all lent : List ℕ} {n : Netif} (p : ℕ)
    → IsPool all (buffer_of p ∷ lent) n
    → (n' : Netif) × (eth_put_buffer p n ≡ some n')
      × IsPool all lent n'
      × (n'.in_flight ≡ n.in_flight)
unfolding eth_put_buffer
put-IsPool {all} {lent} {n} p v =
    let at_b = v.account (buffer_of p) in
    let stamped = v.stamped (buffer_of p) (ground (arith, at_b)) in
    let unlisted : count (buffer_of p) v.free ≡ 0 = ground (arith, at_b, v.once (buffer_of p)) in
    (
      with_head n (buffer_of p),
      ground (arith, stamped),
      record {
        free = buffer_of p ∷ v.free;
        chain = (
          refl,
          stamped.2,
          rw ==-refl (Chain-write n.heap (buffer_of p) _ n.eth_buffers v.free unlisted v.chain),
        );
        account = λ a. ground (arith, v.account a);
        once = v.once;
        stamped = λ a h. rw magic-next_set (v.stamped a h);
      },
      refl,
    )

pub IsPool-reorder :
    {all lent lent' : List ℕ} {n : Netif}
    → ((a : ℕ) → count a lent ≡ count a lent')
    → IsPool all lent n
    → IsPool all lent' n
IsPool-reorder same v = record {
  free = v.free;
  chain = v.chain;
  account = λ a. ground (arith, same a, v.account a);
  once = v.once;
  stamped = v.stamped;
}

-- What counts as in flight is no part of a pool's own state.
pub IsPool-in_flight :
    {all lent : List ℕ} {n : Netif} (frames : List Frame)
    → IsPool all lent n
    → IsPool all lent (record n { in_flight = frames })
IsPool-in_flight frames v = record {
  free = v.free;
  chain = v.chain;
  account = v.account;
  once = v.once;
  stamped = v.stamped;
}

-- The buffers that the firmware holds.
abbrev pub lent_out : List Frame → List ℕ
lent_out frames = map (λ f. buffer_of f.address) frames

-- Between two calls, what is not free is in flight.
abbrev pub IsConserved : List ℕ → Netif → Type 0
IsConserved all n = IsPool all (lent_out n.in_flight) n

count-sent :
    (a : ℕ) (frames : List Frame) (f : Frame)
    → count a (buffer_of f.address ∷ lent_out frames) ≡ count a (lent_out (frames ++ f ∷ []))
count-sent a [] f = refl
count-sent a (g ∷ frames) f = omega (arith, count-sent a frames f)

-- Where one buffer is lent and every other one is either free or in flight, eth_send with an
-- address inside the lent one returns, and every buffer is then free or in flight.
pub eth_send-IsConserved :
    (snp : Snp) {all : List ℕ} {n : Netif} (p : ℕ) (bytes : List ℕ)
    → IsPool all (buffer_of p ∷ lent_out n.in_flight) n
    → (r : ℤ) × (n' : Netif) × (eth_send snp p bytes n ≡ some (r, n')) × IsConserved all n'
unfolding eth_send
eth_send-IsConserved snp {all} {n} p bytes v =
    let frame : Frame = record { address = p; bytes = bytes } in
    elim (Bool-cases (snp.transmit n.in_flight frame == 0)) [
      | inl ok ↦ (
        pos 0,
        record n { in_flight = n.in_flight ++ frame ∷ [] },
        rw ok,
        record {
          free = v.free;
          chain = v.chain;
          account = λ a. ground (arith, v.account a, count-sent a n.in_flight frame);
          once = v.once;
          stamped = v.stamped;
        },
      )
      | inr failed ↦
          let (n', e, pool, same) = put-IsPool p v in (negsuc 0, n', rw (failed, e), rw same pool)
    ]
