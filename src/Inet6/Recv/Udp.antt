-- ===== src/Inet6/Recv/Udp.antt =====
-- The bytes that udp6_send builds, as _udp6_recv reads them.
use gigaboot20x.Base.{
  ◌==◌, le→ltb, ne→==, length, length-append, take-append, All-append, u16, le16, u16_at, IsBytes,
  ℕ, ◌+◌, ◌-◌, ◌*◌, ◌/◌, ◌%◌, ◌^◌, ◌≤◌, ◌<◌, ◌≡◌, sym, ap, ◌∙◌, ◌≢◌, Option, List, [], ◌∷◌, ◌++◌,
  append-nil, arith,
}
use gigaboot20x.Netifc.{Snp}
use gigaboot20x.Inet6.Checksum.{swap16, ip6_checksum}
use gigaboot20x.Inet6.Checksum.Bits.{swap16-lt, swap16-eq, swap16-swap16}
use gigaboot20x.Inet6.Packet.{Host, hdr_udp, Ip6Hdr, Datagram}
use gigaboot20x.Inet6.Send.{udp6_max_payload, udp6_datagram}
use gigaboot20x.Inet6.Recv.{normalise_checksum, received_sum, checked_deliver, recv_udp}
use gigaboot20x.Inet6.Recv.Verify.{
  memory, normalised, field-memory, normalise-memory, field-ne-zero, received_sum-field,
}

-- What ip6_setup builds for a datagram of `len` bytes.
abbrev pub udp_hdr : (src dst : List ℕ) (len : ℕ) → Ip6Hdr
udp_hdr src dst len = record {
  ver_tc_flow = 0x60;
  length = swap16 (u16 len);
  next_header = hdr_udp;
  hop_limit = 255;
  src = src;
  dst = dst;
}

-- The datagram as its sender gave it.
abbrev pub sent_datagram : (payload src dst : List ℕ) (dport sport : ℕ) → Datagram
sent_datagram payload src dst dport sport = record {
  payload = payload;
  daddr = dst;
  dport = dport;
  saddr = src;
  sport = sport;
}

-- The addresses and the UDP header up to its checksum.
abbrev before_field : (src dst : List ℕ) (dport sport len : ℕ) → List ℕ
before_field src dst dport sport len =
    src ++ dst ++ le16 (swap16 sport) ++ le16 (swap16 dport) ++ le16 (swap16 (u16 len))

abbrev pub udp_memory : (src dst payload after : List ℕ) (dport sport len c : ℕ) → List ℕ
udp_memory src dst payload after dport sport len c =
    memory 0x60 0 0 0 (swap16 (u16 len) % 256) (swap16 (u16 len) / 256 % 256) 17 255
      (before_field src dst dport sport len) payload c after

pub u16_bytes : (n : ℕ) → n < 2 ^ 16 → swap16 (swap16 n % 256 + 256 * (swap16 n / 256 % 256)) ≡ n
u16_bytes n h = ap swap16 (omega (arith, swap16-lt n)) ∙ swap16-swap16 n h

pub len_bytes :
    (n : ℕ) → n < 2 ^ 16 → swap16 (swap16 (u16 n) % 256 + 256 * (swap16 (u16 n) / 256 % 256)) ≡ n
len_bytes n h = u16_bytes (u16 n) (omega arith) ∙ omega arith

-- Inputs of udp6_send that fit a packet, and bytes that may follow it in the receive buffer.
pub record IsSendable (src dst payload after : List ℕ) (dport sport : ℕ) : Type 0 where
  pub src_length : length src ≡ 16
  pub dst_length : length dst ≡ 16
  pub src_bytes : IsBytes src
  pub dst_bytes : IsBytes dst
  pub payload_bytes : IsBytes payload
  pub after_bytes : IsBytes after
  pub payload_fits : length payload ≤ udp6_max_payload
  pub dport_fits : dport < 2 ^ 16
  pub sport_fits : sport < 2 ^ 16

module _ {src dst payload after : List ℕ} {dport sport : ℕ}
    (v : IsSendable src dst payload after dport sport) where
  abbrev pub len : ℕ
  len = length payload + 8

  abbrev pre : List ℕ
  pre = before_field src dst dport sport len

  length-pre : length pre ≡ 38
  length-pre = omega (
    arith,
    length-append src dst,
    length-append (src ++ dst) (le16 (swap16 sport)),
    length-append (src ++ dst ++ le16 (swap16 sport)) (le16 (swap16 dport)),
    length-append (src ++ dst ++ le16 (swap16 sport) ++ le16 (swap16 dport))
        (le16 (swap16 (u16 len))),
    v.src_length,
    v.dst_length,
  )

  le16-IsBytes : (n : ℕ) → IsBytes (le16 n)
  le16-IsBytes n = omega arith

  pre-IsBytes : IsBytes pre
  pre-IsBytes =
      All-append _ (src ++ dst ++ le16 (swap16 sport) ++ le16 (swap16 dport)) _
        (All-append _ (src ++ dst ++ le16 (swap16 sport)) _
          (All-append _ (src ++ dst) _ (All-append _ src dst v.src_bytes v.dst_bytes)
            (le16-IsBytes (swap16 sport)))
          (le16-IsBytes (swap16 dport)))
        (le16-IsBytes (swap16 (u16 len)))

  typed : 0 < swap16 17
  typed = omega (arith, swap16-eq 17 (omega arith))

  even-pre : length pre % 2 ≡ 0
  even-pre = omega (arith, length-pre)

  fits : 32 + len ≡ length pre + 2 + length payload
  fits = omega (arith, length-pre)

  -- The checksum field that the sender computes.
  abbrev pub sent_field : ℕ
  sent_field = u16 (ip6_checksum (udp_memory src dst payload [] dport sport len 0) 17 len)

  sent_field-ne-zero : sent_field ≢ 0
  sent_field-ne-zero =
      field-ne-zero 0x60 0 0 0 (swap16 (u16 len) % 256) (swap16 (u16 len) / 256 % 256) 17 255 pre
        payload after even-pre (omega arith) (omega arith) (omega arith) (omega arith) pre-IsBytes
        v.payload_bytes v.after_bytes 17 len fits (omega (arith, v.payload_fits)) typed

  sent_field-verifies :
      received_sum
        (normalise_checksum 46 (udp_memory src dst payload after dport sport len sent_field))
        17
        len
      ≡ 0xFFFF
  sent_field-verifies =
      received_sum-field 0x60 0 0 0 (swap16 (u16 len) % 256) (swap16 (u16 len) / 256 % 256) 17 255
        pre payload after even-pre (omega arith) (omega arith) (omega arith) (omega arith)
        pre-IsBytes v.payload_bytes v.after_bytes 17 len fits (omega (arith, v.payload_fits)) typed
        46 (omega (arith, length-pre))

  sent_field-memory :
      u16_at (udp_memory src dst payload after dport sport len sent_field) 46 ≡ sent_field
  sent_field-memory =
      field-memory 0x60 0 0 0 (swap16 (u16 len) % 256) (swap16 (u16 len) / 256 % 256) 17 255 pre
        payload after 46 sent_field (omega (arith, length-pre)) (omega arith)

  normalised-memory :
      normalise_checksum 46 (udp_memory src dst payload after dport sport len sent_field)
      ≡ udp_memory src dst payload after dport sport len (normalised sent_field)
  normalised-memory =
      normalise-memory 0x60 0 0 0 (swap16 (u16 len) % 256) (swap16 (u16 len) / 256 % 256) 17 255 pre
        payload after 46 sent_field (omega (arith, length-pre)) (omega arith)

module _ {App : Type 0} (snp : Snp) (udp6_recv : Datagram → Host App → Option (Host App)) where
  checked_deliver-memory :
      (src dst payload after : List ℕ) (dport sport c : ℕ) (h : Host App)
      → length src ≡ 16
      → length dst ≡ 16
      → length payload ≤ udp6_max_payload
      → dport < 2 ^ 16
      → sport < 2 ^ 16
      → received_sum
          (udp_memory src dst payload after dport sport (length payload + 8) c)
          17
          (length payload + 8)
        ≡ 0xFFFF
      → checked_deliver snp udp6_recv h
          (udp_memory src dst payload after dport sport (length payload + 8) c)
          (length payload + 8)
        ≡ udp6_recv (sent_datagram payload src dst dport sport) h
  unfolding checked_deliver
  checked_deliver-memory
        (s0 ∷ s1 ∷ s2 ∷ s3 ∷ s4 ∷ s5 ∷ s6 ∷ s7 ∷ s8 ∷ s9 ∷ s10 ∷ s11 ∷ s12 ∷ s13 ∷ s14 ∷ s15 ∷ [])
        (d0 ∷ d1 ∷ d2 ∷ d3 ∷ d4 ∷ d5 ∷ d6 ∷ d7 ∷ d8 ∷ d9 ∷ d10 ∷ d11 ∷ d12 ∷ d13 ∷ d14 ∷ d15 ∷ [])
        payload after dport sport c h ls ld short hd hs ok =
      rw (ok, len_bytes (length payload + 8) (omega arith), u16_bytes dport hd, u16_bytes sport hs)
        (rw (
          le→ltb (length payload + 8) 8 (omega arith),
          le→ltb (length payload + 8) (length payload + 8) (omega arith),
          take-append payload after (length payload + 8 - 8) (omega arith),
        ))
  checked_deliver-memory _ _ payload after dport sport c h ls ld short hd hs ok =
      absurd (omega arith)

  pub recv_udp-memory :
      {src dst payload after : List ℕ} {dport sport : ℕ}
      (v : IsSendable src dst payload after dport sport) (h : Host App)
      → recv_udp snp udp6_recv h
          (udp_memory src dst payload after dport sport (length payload + 8) (sent_field v))
          (length payload + 8)
        ≡ udp6_recv (sent_datagram payload src dst dport sport) h
  unfolding recv_udp
  recv_udp-memory {src} {dst} {payload} {after} {dport} {sport} v h =
      rw
        (
          le→ltb (length payload + 8) 8 (omega arith),
          ap (λ n. n == 0) (sent_field-memory v) ∙ ne→== _ 0 (sent_field-ne-zero v),
          normalised-memory v,
        )
        (checked_deliver-memory src dst payload after dport sport (normalised (sent_field v)) h
          v.src_length v.dst_length v.payload_fits v.dport_fits v.sport_fits
          (ap (λ m. received_sum m 17 (length payload + 8)) (sym (normalised-memory v))
            ∙ sent_field-verifies v))

-- What udp6_send puts behind the Ethernet header is the memory that the receiver reads.
pub udp6_datagram-memory :
    (src dst payload after : List ℕ) (dport sport : ℕ)
    (v : IsSendable src dst payload after dport sport)
    → udp6_datagram (udp_hdr src dst (length payload + 8)) payload dport sport ++ after
      ≡ udp_memory src dst payload after dport sport (length payload + 8) (sent_field v)
unfolding udp6_datagram
udp6_datagram-memory
      (s0 ∷ s1 ∷ s2 ∷ s3 ∷ s4 ∷ s5 ∷ s6 ∷ s7 ∷ s8 ∷ s9 ∷ s10 ∷ s11 ∷ s12 ∷ s13 ∷ s14 ∷ s15 ∷ [])
      (d0 ∷ d1 ∷ d2 ∷ d3 ∷ d4 ∷ d5 ∷ d6 ∷ d7 ∷ d8 ∷ d9 ∷ d10 ∷ d11 ∷ d12 ∷ d13 ∷ d14 ∷ d15 ∷ [])
      payload after dport sport v =
    rw append-nil
udp6_datagram-memory _ _ payload after dport sport v =
    absurd (omega (arith, v.src_length, v.dst_length))

pub length-udp6_datagram :
    (src dst payload : List ℕ) (dport sport : ℕ)
    → length src ≡ 16
    → length dst ≡ 16
    → length (udp6_datagram (udp_hdr src dst (length payload + 8)) payload dport sport)
      ≡ length payload + 48
unfolding udp6_datagram
length-udp6_datagram
      (s0 ∷ s1 ∷ s2 ∷ s3 ∷ s4 ∷ s5 ∷ s6 ∷ s7 ∷ s8 ∷ s9 ∷ s10 ∷ s11 ∷ s12 ∷ s13 ∷ s14 ∷ s15 ∷ [])
      (d0 ∷ d1 ∷ d2 ∷ d3 ∷ d4 ∷ d5 ∷ d6 ∷ d7 ∷ d8 ∷ d9 ∷ d10 ∷ d11 ∷ d12 ∷ d13 ∷ d14 ∷ d15 ∷ [])
      payload dport sport ls ld =
    omega arith
length-udp6_datagram _ _ payload dport sport ls ld = absurd (omega arith)
