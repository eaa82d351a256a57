-- ===== src/Netifc/Carve.antt =====
-- src/netifc.c: the pool that the loop of netifc_open makes.
use gigaboot20x.Base.{
  ℕ, zero, suc, ◌+◌, ◌%◌, ◌≤◌, ◌<◌, ◌≡◌, refl, sym, some, List, [], ◌∷◌, ◌++◌, append-nil, arith,
}
use gigaboot20x.Netifc.{eth_buffer_magic, Netif, write, buffer_of, add_buffers}
use gigaboot20x.Netifc.Pool.{count, count-append, IsPool, put-IsPool, Chain-write}

-- The addresses of the first r buffers from ptr on.
abbrev pub buffers_from : ℕ → ℕ → List ℕ
buffers_from zero ptr = []
buffers_from (suc r) ptr = ptr ∷ buffers_from r (ptr + 2048)

abbrev stamp : Netif → ℕ → Netif
stamp n p = record n { heap = write n.heap p (record (n.heap p) { magic = eth_buffer_magic }) }

-- No buffer of the list lies at p or behind it.
abbrev AreBelow : ℕ → List ℕ → Type 0
AreBelow p all = (a : ℕ) → p ≤ a → count a all ≡ 0

stamp-IsPool :
    {all lent : List ℕ} {n : Netif} (p : ℕ)
    → p % 2048 ≡ 0
    → 0 < p
    → AreBelow p all
    → IsPool all lent n
    → IsPool (p ∷ all) (buffer_of p ∷ lent) (stamp n p)
stamp-IsPool {all} {lent} {n} p aligned used below v =
    let base : buffer_of p ≡ p = omega (arith, aligned) in
    record {
      free = v.free;
      chain =
          Chain-write n.heap p _ n.eth_buffers v.free
            (omega (arith, v.account p, below p (omega arith))) v.chain;
      account = λ a. rw base (ground (arith, v.account a));
      once = λ a. ground (arith, v.once a, below a);
      stamped = λ a h. ground (arith, aligned, v.stamped a);
    }

IsPool-regroup :
    {all all' lent : List ℕ} {n : Netif}
    → ((a : ℕ) → count a all ≡ count a all')
    → IsPool all lent n
    → IsPool all' lent n
IsPool-regroup same v = record {
  free = v.free;
  chain = v.chain;
  account = λ a. omega (arith, same a, v.account a);
  once = λ a. omega (arith, same a, v.once a);
  stamped = λ a h. v.stamped a (omega (arith, same a, h));
}

add_buffers_from :
    (r ptr : ℕ) {all lent : List ℕ} {n : Netif}
    → ptr % 2048 ≡ 0
    → 0 < ptr
    → AreBelow ptr all
    → IsPool all lent n
    → (n' : Netif) × (add_buffers r ptr n ≡ some n') × IsPool (buffers_from r ptr ++ all) lent n'
unfolding add_buffers
add_buffers_from zero ptr aligned used below v = (_, refl, v)
add_buffers_from (suc r) ptr {all} {lent} aligned used below v =
    let (n', put, pool, same) = put-IsPool ptr (stamp-IsPool ptr aligned used below v) in
    let (last, added, whole) =
      add_buffers_from r (ptr + 2048) (omega arith) (omega arith) (λ a h. ground (arith, below a))
        pool in
    (
      last,
      rw put added,
      IsPool-regroup
          (λ a. ground (
            arith,
            count-append a (buffers_from r (ptr + 2048)) (ptr ∷ all),
            count-append a (buffers_from r (ptr + 2048)) all,
          ))
          whole,
    )

-- From no buffers at all, the loop of netifc_open over r blocks of 2048 bytes at a non-zero
-- multiple of 2048 returns, with a pool in which all these r blocks are free.
pub add_buffers-IsPool :
    (r ptr : ℕ) (n : Netif)
    → ptr % 2048 ≡ 0
    → 0 < ptr
    → n.eth_buffers ≡ 0
    → (n' : Netif) × (add_buffers r ptr n ≡ some n') × IsPool (buffers_from r ptr) [] n'
add_buffers-IsPool r ptr n aligned used empty =
    let fresh : IsPool [] [] n = record {
      free = [];
      chain = empty;
      account = λ a. refl;
      once = λ a. omega arith;
      stamped = λ a h. absurd (omega arith);
    } in
    let (n', added, pool) = add_buffers_from r ptr aligned used (λ a h. refl) fresh in
    (n', added, rw (sym (append-nil (buffers_from r ptr))) pool)
