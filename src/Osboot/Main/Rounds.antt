-- ===== src/Osboot/Main/Rounds.antt =====
-- The main loop of src/osboot.c over the messages of a transfer by src/nbserver.c.
use mathlib.Core.Path.{subst}
use gigaboot20x.Base.{
  le→ltb, length, ℕ, ◌≤◌, ◌<◌, ◌≡◌, sym, ap, ◌∙◌, false, some, List, [], ◌∷◌, arith,
}
use gigaboot20x.Netifc.{Snp}
use gigaboot20x.Osboot.Files.{Files}
use gigaboot20x.Osboot.Kernel.{Pages, AllocatePages}
use gigaboot20x.Osboot.Boot.{BootFirmware}
use gigaboot20x.Netboot.{NbMsg, Nb, Reply, reply, nb_ack, handle}
use gigaboot20x.Nbserver.{stamped}
use gigaboot20x.Nbserver.Xfer.Whole.{handle-boot}
use gigaboot20x.Nbserver.Xfer.{boot_message}
use gigaboot20x.Poll.{PollEvent, Server, netboot_poll}
use gigaboot20x.Poll.Wire.{arrival}
use gigaboot20x.Poll.Network.{Remote, Link, giving_back, question}
use gigaboot20x.Poll.Network.State.{IsLink, IsFit, IsAt}
use gigaboot20x.Poll.Network.Refines.{serves}
use gigaboot20x.Osboot.Main.{
  min_kernel_size, Memory, Pass, Machine, is_efi_binary, boot_received, main_loop,
}

-- A pass that no EFI binary is started in.
abbrev plain_pass : PollEvent → Pass
plain_pass event = record { event = event; load_image = 0; start_image = 0 }

-- The server of a loop that has not been asked to boot.
abbrev pub IsIdle : (all own : List ℕ) → Server → Nb → Type 0
IsIdle all own s nb = IsAt all own (record { server = s; requested = 0 }) nb

module _ (snp : Snp) (link : Link) (own : List ℕ) where
  -- The pass in which the frame of a message arrives.
  abbrev pub arrival_pass : NbMsg → Pass
  arrival_pass m = let f = question snp link own m in plain_pass (arrival f.bytes (length f.bytes))

  -- The passes of messages, each followed by one that gives the answer's buffer back.
  abbrev pub rounds : List NbMsg → List Pass → List Pass
  rounds [] passes = passes
  rounds (m ∷ ms) passes = arrival_pass m ∷ plain_pass giving_back ∷ rounds ms passes

module _ (allocate : AllocatePages) (fw : BootFirmware) (mem : Memory) (snp : Snp)
    (held : List Pages) where
  main_loop-goes_on :
      (p : Pass) (passes : List Pass) (m : Machine) (s : Server)
      → netboot_poll snp p.event m.server ≡ some (0, s)
      → main_loop allocate fw mem snp held (p ∷ passes) m
        ≡ main_loop allocate fw mem snp held passes (record m { server = s })
  unfolding main_loop
  main_loop-goes_on p passes m s polled = rw polled

  main_loop-ends :
      (p : Pass) (passes : List Pass) (m : Machine) (n : ℕ) (s : Server)
      → netboot_poll snp p.event m.server ≡ some (n, s)
      → 0 < n
      → min_kernel_size ≤ s.host.app.files.kernel.offset
      → is_efi_binary s.host.app.files.kernel.buffer ≡ false
      → main_loop allocate fw mem snp held (p ∷ passes) m
        ≡ some (boot_received allocate fw mem held (record m { server = s }))
  unfolding main_loop
  main_loop-ends p passes m n s polled asked large plain =
      rw (
        polled,
        le→ltb n 1 asked,
        le→ltb s.host.app.files.kernel.offset min_kernel_size large,
        plain,
      )

  module _ (link : Link) (all own : List ℕ) (up : IsLink snp link all) where
    -- A message that does not ask to boot.
    pub round-lem :
        (msg : NbMsg) (passes : List Pass) (m : Machine) (nb : Nb) (r : Reply)
        → IsIdle all own m.server nb
        → IsFit msg
        → (handle nb msg).1 ≡ some r
        → (handle nb msg).0.nb_boot_now ≡ 0
        → (s : Server) × (main_loop allocate fw mem snp held
              (rounds snp link own (msg ∷ []) passes)
              m
            ≡ main_loop allocate fw mem snp held passes (record m { server = s }))
          × IsIdle all own s (handle nb msg).0
    round-lem msg passes m nb r v fit answer calm =
        let w : Remote = record { server = m.server; requested = 0 } in
        let x = serves snp link all own up w nb msg r v fit answer in
        let unasked : x.first.0 ≡ 0 = ground (arith, x.at.requested, calm) in
        let arrives : netboot_poll snp (arrival_pass snp link own msg).event m.server
            ≡ some (0, x.first.1) =
          subst
            (λ ip.
              let f = question snp link ip msg in
              netboot_poll snp (arrival f.bytes (length f.bytes)) m.server ≡ some x.first)
            v.address x.arrives
          ∙ ap (λ n. some (n, x.first.1)) unasked in
        (
          x.server,
          main_loop-goes_on (arrival_pass snp link own msg) (plain_pass giving_back ∷ passes) m
                x.first.1 arrives
              ∙ main_loop-goes_on (plain_pass giving_back) passes (record m { server = x.first.1 })
                  x.server x.settles,
          subst (λ n. IsAt all own (record { server = x.server; requested = n }) (handle nb msg).0)
              (x.at.requested ∙ calm) x.at,
        )

    -- The boot command.
    pub main_loop-boot_message :
        (cookie : ℕ) (passes : List Pass) (m : Machine) (nb : Nb)
        → IsIdle all own m.server nb
        → IsFit (stamped cookie boot_message)
        → min_kernel_size ≤ nb.files.kernel.offset
        → is_efi_binary nb.files.kernel.buffer ≡ false
        → (s : Server) × (main_loop allocate fw mem snp held
              (arrival_pass snp link own (stamped cookie boot_message) ∷ passes)
              m
            ≡ some (boot_received allocate fw mem held (record m { server = s })))
          × (s.host.app.files ≡ nb.files)
    main_loop-boot_message cookie passes m nb v fit large plain =
        let msg = stamped cookie boot_message in
        let w : Remote = record { server = m.server; requested = 0 } in
        let (acked, boots, kept) = handle-boot cookie nb in
        let x = serves snp link all own up w nb msg (reply nb_ack 0) v fit acked in
        let files = x.files ∙ kept in
        let asked : 0 < x.first.0 = ground (arith, x.at.requested, boots) in
        let arrives : netboot_poll snp (arrival_pass snp link own msg).event m.server
            ≡ some x.first =
          subst
            (λ ip.
              let f = question snp link ip msg in
              netboot_poll snp (arrival f.bytes (length f.bytes)) m.server ≡ some x.first)
            v.address x.arrives in
        (
          x.first.1,
          main_loop-ends (arrival_pass snp link own msg) passes m x.first.0 x.first.1 arrives asked
              (subst (λ (fs : Files). min_kernel_size ≤ fs.kernel.offset) (sym files) large)
              (ap (λ (fs : Files). is_efi_binary fs.kernel.buffer) files ∙ plain),
          files,
        )
