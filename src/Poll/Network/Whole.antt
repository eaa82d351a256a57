-- ===== src/Poll/Network/Whole.antt =====
-- A whole transfer, as frames.
use gigaboot20x.Base.{
  refl, All, IsBytes, length, u32, ℕ, ◌+◌, ◌^◌, ◌≤◌, ◌<◌, ◌≡◌, ◌≢◌, sym, ap, ◌∙◌, false, some, List,
  [], ◌∷◌, arith,
}
use gigaboot20x.Netifc.{Snp}
use gigaboot20x.Netifc.Pool.{IsPool}
use gigaboot20x.Osboot.Files.{nbkernel}
use gigaboot20x.Netboot.{Nb, NbMsg}
use gigaboot20x.Netboot.Buffers.{AreFiles, received}
use gigaboot20x.Netboot.Transfer.{total_length, concat, block_at}
use gigaboot20x.Nbserver.Xfer.{booted, xfer}
use gigaboot20x.Nbserver.Xfer.Refined.{AreFit, xfer-refined}
use gigaboot20x.Poll.{Server}
use gigaboot20x.Poll.Wire.{IsMessage}
use gigaboot20x.Poll.Network.{Remote, Link, remote}
use gigaboot20x.Poll.Network.Steps.{nbmsg_bytes-IsBytes}
use gigaboot20x.Poll.Network.State.{IsLink, IsFit, IsAt}
use gigaboot20x.Poll.Network.Refines.{remote-Refines}

-- What fread may deliver.
abbrev pub AreBlocks : List (List ℕ) → Type 0
AreBlocks blocks = All (λ (block : List ℕ). IsBytes block × (length block ≤ 1024)) blocks

body-IsFit : (m : NbMsg) → IsMessage m → IsBytes m.body → length m.body ≤ 1024 → IsFit m
body-IsFit m fields body short = record {
  fields = fields;
  bytes = nbmsg_bytes-IsBytes m body;
  fits = omega (arith, short);
}

blocks-AreFit :
    (blocks : List (List ℕ))
    → AreBlocks blocks
    → All (λ (block : List ℕ). (cookie off : ℕ) → IsFit (block_at nbkernel cookie off block)) blocks
blocks-AreFit [] v = tt
blocks-AreFit (block ∷ blocks) v = (
  λ cookie off.
      body-IsFit (block_at nbkernel cookie off block)
        (record { magic = omega arith; cookie = omega arith; cmd = omega arith; arg = omega arith })
        v.0.0 v.0.1,
  blocks-AreFit blocks v.1,
)

pub messages-AreFit : (blocks : List (List ℕ)) → AreBlocks blocks → AreFit IsFit blocks
messages-AreFit blocks v = record {
  first = λ cookie small.
      body-IsFit _
        (record { magic = omega arith; cookie = small; cmd = omega arith; arg = omega arith })
        (ground arith) (omega arith);
  each = blocks-AreFit blocks v;
  last = λ cookie small.
      body-IsFit _
        (record { magic = omega arith; cookie = small; cmd = omega arith; arg = omega arith }) tt
        (omega arith);
}

-- A server that waits for a transfer, with all buffers free and addresses of 16 and 6 bytes.
pub record IsWaiting (all : List ℕ) (s : Server) : Type 0 where
  pub online : s.host.app.nb_online ≡ 1
  pub calm : s.host.app.nb_boot_now ≡ 0
  pub ip : length s.host.ip.ll_ip6_addr ≡ 16
  pub ip_bytes : IsBytes s.host.ip.ll_ip6_addr
  pub mac : length s.host.ip.ll_mac_addr ≡ 6
  pub pool : IsPool all [] s.host.net
  pub idle : s.host.net.in_flight ≡ []

pub IsWaiting-IsAt :
    {all : List ℕ} (s : Server)
    → IsWaiting all s
    → IsAt all s.host.ip.ll_ip6_addr (record { server = s; requested = 0 }) s.host.app
IsWaiting-IsAt s v = record {
  address = refl;
  ip = v.ip;
  ip_bytes = v.ip_bytes;
  mac = v.mac;
  app = ground (arith, v.online, v.calm);
  requested = sym v.calm;
  pool = v.pool;
  idle = v.idle;
}

-- A transfer as frames. Every message that xfer sends is put into a frame, which netboot_poll
-- finds in its receive buffer, and the frame that is then in flight is what the socket's host
-- receives; the buffer is given back in a further pass. Over a link that loses nothing, to a server that waits,
-- xfer returns after an acknowledged boot command: netboot_poll has returned 1, the server holds
-- exactly the concatenation of the blocks as its kernel, and all its transmit buffers are free.
-- Each block has 1024 bytes at most; the server has not seen the cookie, its files are in order,
-- and its kernel buffer, of less than 2^32 bytes, has room for all blocks. The cookie and the
-- number of blocks stay below 2^32 - 2 together.
pub xfer-remote :
    (snp : Snp) (link : Link) (all : List ℕ) (cookie : ℕ) (blocks : List (List ℕ)) (s : Server)
    → IsLink snp link all
    → IsWaiting all s
    → AreBlocks blocks
    → cookie + length blocks + 2 < 2 ^ 32
    → AreFiles s.host.app.files
    → s.host.app.last_cookie ≢ cookie
    → total_length blocks ≤ s.host.app.files.kernel.size
    → s.host.app.files.kernel.size < 2 ^ 32
    → (w : Remote) × (xfer
          (remote snp link)
          false
          cookie
          blocks
          (record { server = s; requested = 0 })
        ≡ some (booted, u32 (cookie + length blocks + 2), w))
      × (w.requested ≡ 1)
      × (received w.server.host.app.files.kernel ≡ concat blocks)
      × IsPool all [] w.server.host.net
xfer-remote snp link all cookie blocks s up v fit short files new fits small =
    let start = IsWaiting-IsAt s v in
    let (w, nb, run, at, stored, boots) =
      xfer-refined (remote-Refines snp link all s.host.ip.ll_ip6_addr up) cookie blocks _ s.host.app
        short files new fits small (messages-AreFit blocks fit) start in
    (
      w,
      run,
      at.requested ∙ boots,
      ap (λ (a : Nb). received a.files.kernel) at.app ∙ stored,
      at.pool,
    )
