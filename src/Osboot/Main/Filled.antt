-- ===== src/Osboot/Main/Filled.antt =====
-- The main loop of src/osboot.c up to the boot command of a transfer by src/nbserver.c.
use mathlib.Core.Path.{subst}
use gigaboot20x.Base.{
  All, length, ℕ, ◌+◌, ◌^◌, ◌≤◌, ◌<◌, ◌≡◌, refl, sym, ap, ◌∙◌, ◌≢◌, Option, List, [], ◌∷◌, ◌++◌,
  append-nil, append_assoc, arith,
}
use gigaboot20x.Netifc.{Snp}
use gigaboot20x.Osboot.Files.{nbkernel}
use gigaboot20x.Osboot.Kernel.{Pages, AllocatePages}
use gigaboot20x.Osboot.Boot.{BootFirmware}
use gigaboot20x.Netboot.{NbMsg, Nb, Reply, reply, nb_ack, handle}
use gigaboot20x.Netboot.Buffers.{AreFiles, received}
use gigaboot20x.Netboot.Flags.{handle_data-nb_boot_now}
use gigaboot20x.Netboot.Transfer.{
  data_messages, total_length, concat, IsReady, block_at, block-Accepted, IsReady-handle,
  received-block,
}
use gigaboot20x.Nbserver.{stamped}
use gigaboot20x.Nbserver.Xfer.Whole.{named, handle-named, IsReady-named}
use gigaboot20x.Nbserver.Xfer.Refined.{AreFit}
use gigaboot20x.Nbserver.Xfer.{send_file_message}
use gigaboot20x.Poll.{Server}
use gigaboot20x.Poll.Network.{Link}
use gigaboot20x.Poll.Network.State.{IsLink, IsFit}
use gigaboot20x.Osboot.Main.{Memory, Pass, Machine, main_loop}
use gigaboot20x.Osboot.Main.Rounds.{rounds, IsIdle, round-lem}

-- The messages of a transfer before the boot command.
abbrev pub file_messages : ℕ → List (List ℕ) → List NbMsg
file_messages cookie blocks = stamped cookie send_file_message ∷ data_messages (cookie + 1) 0 blocks

module _ (allocate : AllocatePages) (fw : BootFirmware) (mem : Memory) (snp : Snp)
    (held : List Pages) (link : Link) (all own : List ℕ) (up : IsLink snp link all) where
  -- The loop after the messages of a transfer, up to the boot command.
  pub record IsFilled (m : Machine) (msgs : List NbMsg) (passes : List Pass) (content : List ℕ)
      : Type 0 where
    pub server : Server
    pub nb : Nb
    pub loops :
        main_loop allocate fw mem snp held (rounds snp link own msgs passes) m
        ≡ main_loop allocate fw mem snp held passes (record m { server = server })
    pub idle : IsIdle all own server nb
    pub calm : nb.nb_boot_now ≡ 0
    pub files : AreFiles nb.files
    pub stored : received nb.files.kernel ≡ content

  rounds-IsFilled :
      (cookie off : ℕ) (blocks : List (List ℕ)) (passes : List Pass) (m : Machine) (nb : Nb)
      → cookie + length blocks < 2 ^ 32
      → IsReady nbkernel cookie off (total_length blocks) nb
      → All
          (λ (block : List ℕ). (cookie off : ℕ) → IsFit (block_at nbkernel cookie off block))
          blocks
      → nb.nb_boot_now ≡ 0
      → IsIdle all own m.server nb
      → IsFilled m
          (data_messages cookie off blocks)
          passes
          (received nb.files.kernel ++ concat blocks)
  rounds-IsFilled cookie off [] passes m nb short v fit calm idle = record {
    server = m.server;
    nb = nb;
    loops = refl;
    idle = idle;
    calm = calm;
    files = v.files;
    stored = sym (append-nil _);
  }
  rounds-IsFilled cookie off (block ∷ blocks) passes m nb short v fit calm idle =
      let msg = block_at nbkernel cookie off block in
      let a = block-Accepted nbkernel cookie off (total_length blocks) block nb v in
      let still : (handle nb msg).0.nb_boot_now ≡ 0 = handle_data-nb_boot_now nb msg refl ∙ calm in
      let later = data_messages (cookie + 1) (off + length block) blocks in
      let (s, loops, idle1) =
        round-lem allocate fw mem snp held link all own up msg (rounds snp link own later passes) m
          nb _ idle (fit.0 cookie off) a.answer still in
      let rest =
        rounds-IsFilled (cookie + 1) (off + length block) blocks passes (record m { server = s })
          (handle nb msg).0 (omega (arith, short))
          (IsReady-handle nbkernel cookie off (total_length blocks) block nb v) fit.1 still idle1 in
      record {
        server = rest.server;
        nb = rest.nb;
        loops = loops ∙ rest.loops;
        idle = rest.idle;
        calm = rest.calm;
        files = rest.files;
        stored =
            rest.stored
            ∙ ap (λ t. t ++ concat blocks)
                (received-block nbkernel cookie off (total_length blocks) block nb v)
            ∙ append_assoc (received nb.files.kernel) block (concat blocks);
      }

  pub file_messages-IsFilled :
      (cookie : ℕ) (blocks : List (List ℕ)) (passes : List Pass) (m : Machine) (nb : Nb)
      → cookie + length blocks + 2 < 2 ^ 32
      → AreFiles nb.files
      → nb.last_cookie ≢ cookie
      → total_length blocks ≤ nb.files.kernel.size
      → nb.files.kernel.size < 2 ^ 32
      → AreFit IsFit blocks
      → nb.nb_boot_now ≡ 0
      → IsIdle all own m.server nb
      → IsFilled m (file_messages cookie blocks) passes (concat blocks)
  file_messages-IsFilled cookie blocks passes m nb short files new fits small fit calm idle =
      let msg = stamped cookie send_file_message in
      let first = handle-named cookie nb new in
      let still : (handle nb msg).0.nb_boot_now ≡ 0 =
        ap (λ (r : Nb × Option Reply). r.0.nb_boot_now) first ∙ calm in
      let (s, loops, idle1) =
        round-lem allocate fw mem snp held link all own up msg
          (rounds snp link own (data_messages (cookie + 1) 0 blocks) passes) m nb (reply nb_ack 0)
          idle (fit.first cookie (omega (arith, short))) (ap (λ (r : Nb × Option Reply). r.1) first)
          still in
      let rest =
        rounds-IsFilled (cookie + 1) 0 blocks passes (record m { server = s }) (named cookie nb)
          (omega (arith, short)) (IsReady-named cookie (total_length blocks) nb files fits small)
          fit.each calm (subst (λ (r : Nb × Option Reply). IsIdle all own s r.0) first idle1) in
      record {
        server = rest.server;
        nb = rest.nb;
        loops = loops ∙ rest.loops;
        idle = rest.idle;
        calm = rest.calm;
        files = rest.files;
        stored = rest.stored;
      }
