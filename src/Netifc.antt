-- ===== src/Netifc.antt =====
-- src/netifc.c: the transmit buffers and the multicast filters of the network interface. The
-- firmware's network protocol is a parameter. Buffers are an intrusive list in a heap that maps an
-- address to the header of the buffer there; 0 is NULL. What a buffer holds is handed along as
-- the list of its bytes.
pub mod Examples
pub mod Pool
pub mod Carve
pub mod Timer
use gigaboot20x.Base.{
  ℕ, zero, suc, ◌+◌, ◌-◌, ◌%◌, Option, none, some, Bool, List, [], ◌∷◌, ◌++◌, leb, ltb, ◌==◌,
  if◌then◌else◌, length, take, ◌>>=◌,
}
use gigaboot20x.Cstring.{ℤ, pos, negsuc}
use gigaboot20x.Inet6.Addr.{eth_addr_len}

abbrev pub max_filter : ℕ
max_filter = 8

abbrev pub eth_buffer_size : ℕ
eth_buffer_size = 1516

abbrev pub eth_header_size : ℕ
eth_header_size = 16

abbrev pub eth_buffer_magic : ℕ
eth_buffer_magic = 0x424201020304A7A7

pub record EthBuffer : Type 0 where
  pub magic : ℕ
  pub next : ℕ

-- What is handed to the firmware: an address inside a buffer, and the bytes from there on.
pub record Frame : Type 0 where
  pub address : ℕ
  pub bytes : List ℕ

-- The static variables of the file, and the frames that the firmware has not given back.
pub record Netif : Type 0 where
  pub heap : ℕ → EthBuffer
  pub eth_buffers : ℕ
  pub in_flight : List Frame
  pub mcast_filters : List (List ℕ)

-- The firmware's EFI_SIMPLE_NETWORK, as far as sending needs it: the status of Transmit for a
-- frame, given what is in flight, and Mode->MaxMCastFilterCount.
pub record Snp : Type 0 where
  pub transmit : List Frame → Frame → ℕ
  pub max_mcast_filter_count : ℕ

abbrev pub write : (ℕ → EthBuffer) → ℕ → EthBuffer → ℕ → EthBuffer
write heap p b a = if a == p then b else heap a

-- `none` is NULL.
unfoldable pub eth_get_buffer : ℕ → Netif → Option ℕ × Netif
eth_get_buffer sz n =
    if ltb eth_buffer_size sz
    then (none, n)
    else if n.eth_buffers == 0
    then (none, n)
    else let buf = n.eth_buffers in
      (
        some (buf + eth_header_size),
        record n {
          eth_buffers = (n.heap buf).next;
          heap = write n.heap buf (record (n.heap buf) { next = 0 });
        },
      )

-- `data & ~2047`
abbrev pub buffer_of : ℕ → ℕ
buffer_of p = p - p % 2048

-- `none` is the endless loop behind "fatal: eth buffer ... bad magic".
unfoldable pub eth_put_buffer : ℕ → Netif → Option Netif
eth_put_buffer p n =
    let buf = buffer_of p in
    if (n.heap buf).magic == eth_buffer_magic
    then some (record n {
      heap = write n.heap buf (record (n.heap buf) { next = n.eth_buffers });
      eth_buffers = buf;
    })
    else none

module _ (snp : Snp) where
  unfoldable pub eth_send : ℕ → List ℕ → Netif → Option (ℤ × Netif)
  eth_send address bytes n =
      let frame : Frame = record { address = address; bytes = bytes } in
      if snp.transmit n.in_flight frame == 0
      then some (pos 0, record n { in_flight = n.in_flight ++ frame ∷ [] })
      else (eth_put_buffer address n >>= λ n'. some (negsuc 0, n'))

  -- mcast_filter_count is the length of the list of filters.
  unfoldable pub eth_add_mcast_filter : List ℕ → Netif → ℤ × Netif
  eth_add_mcast_filter addr n =
      if leb max_filter (length n.mcast_filters)
      then (negsuc 0, n)
      else if leb snp.max_mcast_filter_count (length n.mcast_filters)
      then (negsuc 0, n)
      else (pos 0, record n { mcast_filters = n.mcast_filters ++ take eth_addr_len addr ∷ [] })

-- The loop of netifc_open that carves the allocated pages into buffers of 2048 bytes.
unfoldable pub add_buffers : ℕ → ℕ → Netif → Option Netif
add_buffers zero ptr n = some n
add_buffers (suc r) ptr n = do
  let stamped = record (n.heap ptr) { magic = eth_buffer_magic }
  n' ← eth_put_buffer ptr (record n { heap = write n.heap ptr stamped })
  add_buffers r (ptr + 2048) n'
