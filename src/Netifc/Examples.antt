-- ===== src/Netifc/Examples.antt =====
-- A pool of one buffer, and runs of the theorems about src/netifc.c on it.
use gigaboot20x.Base.{ℕ, ◌≡◌, refl, some, List, [], ◌∷◌, arith}
use gigaboot20x.Netifc.{eth_buffer_magic, Netif, Snp, add_buffers}
use gigaboot20x.Netifc.Pool.{IsPool}
use gigaboot20x.Netifc.Carve.{buffers_from, add_buffers-IsPool}

abbrev pub one_address : List ℕ
one_address = 2048 ∷ []

-- The buffer at 2048 is free.
abbrev pub one_buffer : Netif
one_buffer = record {
  heap = λ a. record { magic = eth_buffer_magic; next = 0 };
  eth_buffers = 2048;
  in_flight = [];
  mcast_filters = [];
}

-- The buffer at 2048 is lent.
abbrev no_buffer : Netif
no_buffer = record one_buffer { eth_buffers = 0 }

abbrev pub accepting : Snp
accepting = record { transmit = λ frames f. 0; max_mcast_filter_count = 4 }

pub one_buffer-IsPool : IsPool one_address [] one_buffer
one_buffer-IsPool = record {
  free = one_address;
  chain = (refl, omega arith, refl);
  account = λ a. omega arith;
  once = λ a. ground arith;
  stamped = λ a h. ground arith;
}

no_buffer-IsPool : IsPool one_address (2048 ∷ []) no_buffer
no_buffer-IsPool = record {
  free = [];
  chain = refl;
  account = λ a. omega arith;
  once = λ a. ground arith;
  stamped = λ a h. ground arith;
}

add_buffers-IsPool_example :
    (n' : Netif) × (add_buffers 16 4096 no_buffer ≡ some n') × IsPool (buffers_from 16 4096) [] n'
add_buffers-IsPool_example = add_buffers-IsPool 16 4096 no_buffer (omega arith) (omega arith) refl
