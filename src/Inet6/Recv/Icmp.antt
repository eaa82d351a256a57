-- ===== src/Inet6/Recv/Icmp.antt =====
-- The bytes that icmp6_send builds, as icmp6_recv reads them.
use gigaboot20x.Base.{
  ◌==◌, ne→==, length, length-append, All-append, u16, u16_at, IsBytes, ℕ, ◌+◌, ◌/◌, ◌%◌, ◌≤◌, ◌<◌,
  ◌≡◌, ap, ◌∙◌, ◌≢◌, List, [], ◌∷◌, ◌++◌, append-nil, append_assoc, arith,
}
use gigaboot20x.Netifc.{Snp}
use gigaboot20x.Inet6.Checksum.{swap16, ip6_checksum}
use gigaboot20x.Inet6.Checksum.Bits.{swap16-eq}
use gigaboot20x.Inet6.Packet.{hdr_icmp6, Ip6Hdr, ip6_hdr_bytes, Ip6Pkt, Host}
use gigaboot20x.Inet6.Send.{icmp6_max_payload, icmp6_frame}
use gigaboot20x.Inet6.Recv.{normalise_checksum, received_sum, icmp6_dispatch, icmp6_recv}
use gigaboot20x.Inet6.Recv.Verify.{
  memory, normalised, field-memory, normalise-memory, field-ne-zero, received_sum-field,
}

-- What ip6_setup builds for a message of `len` bytes.
abbrev icmp_hdr : (src dst : List ℕ) (len : ℕ) → Ip6Hdr
icmp_hdr src dst len = record {
  ver_tc_flow = 0x60;
  length = swap16 (u16 len);
  next_header = hdr_icmp6;
  hop_limit = 255;
  src = src;
  dst = dst;
}

abbrev pub icmp_packet : (dmac smac src dst : List ℕ) (len : ℕ) → Ip6Pkt
icmp_packet dmac smac src dst len = record {
  eth = dmac ++ smac ++ 0x86 ∷ 0xDD ∷ [];
  ip6 = icmp_hdr src dst len;
}

-- A message with its type, its code, an empty checksum, and what follows.
abbrev pub icmp_message : (t c : ℕ) (rest : List ℕ) → List ℕ
icmp_message t c rest = t ∷ c ∷ 0 ∷ 0 ∷ rest

abbrev pub icmp_memory : (src dst : List ℕ) (t c : ℕ) (rest after : List ℕ) (len field : ℕ) → List ℕ
icmp_memory src dst t c rest after len field =
    memory 0x60 0 0 0 (swap16 (u16 len) % 256) (swap16 (u16 len) / 256 % 256) 58 255
      (src ++ dst ++ t ∷ c ∷ []) rest field after

-- A message that fits a packet, and bytes that may follow it in the receive buffer.
pub record IsIcmp (src dst : List ℕ) (t c : ℕ) (rest after : List ℕ) : Type 0 where
  pub src_length : length src ≡ 16
  pub dst_length : length dst ≡ 16
  pub src_bytes : IsBytes src
  pub dst_bytes : IsBytes dst
  pub t_byte : t < 256
  pub c_byte : c < 256
  pub rest_bytes : IsBytes rest
  pub after_bytes : IsBytes after
  pub rest_fits : length rest + 4 ≤ icmp6_max_payload

module _ {src dst : List ℕ} {t c : ℕ} {rest after : List ℕ}
    (v : IsIcmp src dst t c rest after) where
  abbrev len : ℕ
  len = length (icmp_message t c rest)

  abbrev pre : List ℕ
  pre = src ++ dst ++ t ∷ c ∷ []

  length-pre : length pre ≡ 34
  length-pre = omega (
    arith,
    length-append src dst,
    length-append (src ++ dst) (t ∷ c ∷ []),
    v.src_length,
    v.dst_length,
  )

  pre-IsBytes : IsBytes pre
  pre-IsBytes =
      All-append _ (src ++ dst) _ (All-append _ src dst v.src_bytes v.dst_bytes)
        (v.t_byte, (v.c_byte, tt))

  typed : 0 < swap16 58
  typed = omega (arith, swap16-eq 58 (omega arith))

  even-pre : length pre % 2 ≡ 0
  even-pre = omega (arith, length-pre)

  fits : 32 + len ≡ length pre + 2 + length rest
  fits = omega (arith, length-pre)

  -- The checksum field that the sender computes.
  abbrev pub icmp_field : ℕ
  icmp_field = u16 (ip6_checksum (icmp_memory src dst t c rest [] len 0) 58 len)

  icmp_field-ne-zero : icmp_field ≢ 0
  icmp_field-ne-zero =
      field-ne-zero 0x60 0 0 0 (swap16 (u16 len) % 256) (swap16 (u16 len) / 256 % 256) 58 255 pre
        rest after even-pre (omega arith) (omega arith) (omega arith) (omega arith) pre-IsBytes
        v.rest_bytes v.after_bytes 58 len fits (omega (arith, v.rest_fits)) typed

  icmp_field-verifies :
      received_sum
        (normalise_checksum 42 (icmp_memory src dst t c rest after len icmp_field))
        58
        len
      ≡ 0xFFFF
  icmp_field-verifies =
      received_sum-field 0x60 0 0 0 (swap16 (u16 len) % 256) (swap16 (u16 len) / 256 % 256) 58 255
        pre rest after even-pre (omega arith) (omega arith) (omega arith) (omega arith) pre-IsBytes
        v.rest_bytes v.after_bytes 58 len fits (omega (arith, v.rest_fits)) typed 42
        (omega (arith, length-pre))

  icmp_field-memory : u16_at (icmp_memory src dst t c rest after len icmp_field) 42 ≡ icmp_field
  icmp_field-memory =
      field-memory 0x60 0 0 0 (swap16 (u16 len) % 256) (swap16 (u16 len) / 256 % 256) 58 255 pre
        rest after 42 icmp_field (omega (arith, length-pre)) (omega arith)

  normalised-icmp_memory :
      normalise_checksum 42 (icmp_memory src dst t c rest after len icmp_field)
      ≡ icmp_memory src dst t c rest after len (normalised icmp_field)
  normalised-icmp_memory =
      normalise-memory 0x60 0 0 0 (swap16 (u16 len) % 256) (swap16 (u16 len) / 256 % 256) 58 255 pre
        rest after 42 icmp_field (omega (arith, length-pre)) (omega arith)

  -- The checksum is taken for valid.
  pub icmp6_recv-memory :
      {App : Type 0} (snp : Snp) (h : Host App)
      → icmp6_recv snp h (icmp_memory src dst t c rest after len icmp_field) len
        ≡ icmp6_dispatch snp h (icmp_memory src dst t c rest after len (normalised icmp_field)) len
  unfolding icmp6_recv
  icmp6_recv-memory snp h = rw (
    ap (λ n. n == 0) icmp_field-memory ∙ ne→== _ 0 icmp_field-ne-zero,
    icmp_field-verifies,
    normalised-icmp_memory,
  )

-- What icmp6_send puts behind the Ethernet header is the memory that the receiver reads.
abbrev icmp_bytes : (src dst : List ℕ) (t c : ℕ) (rest : List ℕ) → List ℕ
icmp_bytes src dst t c rest =
    let ip = ip6_hdr_bytes (icmp_hdr src dst (length (icmp_message t c rest))) in
    let sum =
      u16 (ip6_checksum (ip ++ icmp_message t c rest) hdr_icmp6 (length (icmp_message t c rest))) in
    ip ++ t ∷ c ∷ sum % 256 ∷ sum / 256 % 256 ∷ rest

icmp_bytes-memory :
    (src dst : List ℕ) (t c : ℕ) (rest after : List ℕ) (v : IsIcmp src dst t c rest after)
    → icmp_bytes src dst t c rest ++ after
      ≡ icmp_memory src dst t c rest after (length (icmp_message t c rest)) (icmp_field v)
unfolding ip6_hdr_bytes
icmp_bytes-memory
      (s0 ∷ s1 ∷ s2 ∷ s3 ∷ s4 ∷ s5 ∷ s6 ∷ s7 ∷ s8 ∷ s9 ∷ s10 ∷ s11 ∷ s12 ∷ s13 ∷ s14 ∷ s15 ∷ [])
      (d0 ∷ d1 ∷ d2 ∷ d3 ∷ d4 ∷ d5 ∷ d6 ∷ d7 ∷ d8 ∷ d9 ∷ d10 ∷ d11 ∷ d12 ∷ d13 ∷ d14 ∷ d15 ∷ []) t c
      rest after v =
    rw append-nil
icmp_bytes-memory _ _ t c rest after v = absurd (omega (arith, v.src_length, v.dst_length))

pub icmp6_frame-memory :
    (dmac smac src dst : List ℕ) (t c : ℕ) (rest after : List ℕ) (v : IsIcmp src dst t c rest after)
    → icmp6_frame
          (icmp_packet dmac smac src dst (length (icmp_message t c rest)))
          (icmp_message t c rest)
        ++ after
      ≡ (dmac ++ smac ++ 0x86 ∷ 0xDD ∷ [])
        ++ icmp_memory src dst t c rest after (length (icmp_message t c rest)) (icmp_field v)
unfolding icmp6_frame
icmp6_frame-memory dmac smac src dst t c rest after v =
    let eth = dmac ++ smac ++ 0x86 ∷ 0xDD ∷ [] in
    let ip = ip6_hdr_bytes (icmp_hdr src dst (length (icmp_message t c rest))) in
    let sum =
      u16 (ip6_checksum (ip ++ icmp_message t c rest) hdr_icmp6 (length (icmp_message t c rest))) in
    let message : List ℕ = t ∷ c ∷ sum % 256 ∷ sum / 256 % 256 ∷ rest in
    ap (λ x. x ++ after) (append_assoc eth ip message)
    ∙ append_assoc eth (ip ++ message) after
    ∙ ap (λ x. eth ++ x) (icmp_bytes-memory src dst t c rest after v)
