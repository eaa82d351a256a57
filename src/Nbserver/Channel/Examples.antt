-- ===== src/Nbserver/Channel/Examples.antt =====
-- Transfers of two blocks over networks that lose something.
use gigaboot20x.Base.{
  ◌==◌, if◌then◌else◌, ℕ, ◌≡◌, refl, Bool, true, false, some, List, [], ◌∷◌, arith,
}
use gigaboot20x.Netboot.{Nb}
use gigaboot20x.Netboot.Buffers.{received, AreFiles}
use gigaboot20x.Netboot.Examples.{opened_nb, opened_nb-AreFiles}
use gigaboot20x.Nbserver.Xfer.{not_sent, booted, xfer}
use gigaboot20x.Nbserver.Examples.{two_blocks}
use gigaboot20x.Nbserver.Channel.{lossy_server}
use gigaboot20x.Nbserver.Channel.Returns.{Returns, xfer-Returns}
use gigaboot20x.Nbserver.Channel.Lossless.{AreFew}
use gigaboot20x.Nbserver.Channel.Whole.{xfer-lossy}
use gigaboot20x.Nbserver.Channel.FirstAck.{xfer-ack_lost}

-- The first block is lost twice, and the acknowledgement of each other message once.
abbrev some_losses : ℕ → List Bool
some_losses cookie = if cookie == 3 then false ∷ false ∷ [] else true ∷ []

some_losses-AreFew : AreFew some_losses
some_losses-AreFew cookie = ground arith

xfer-lossy_example :
    (nb' : Nb) × (xfer (lossy_server some_losses) false 2 two_blocks opened_nb
      ≡ some (booted, 6, nb'))
    × (received nb'.files.kernel ≡ 1 ∷ 2 ∷ 3 ∷ 4 ∷ 5 ∷ [])
    × (nb'.nb_boot_now ≡ 1)
    × AreFiles nb'.files
xfer-lossy_example =
    xfer-lossy some_losses some_losses-AreFew 2 two_blocks opened_nb (refl, (refl, tt))
      (omega arith, (omega arith, tt)) (omega arith) opened_nb-AreFiles (ground arith) (omega arith)
      (omega arith)

-- Every first acknowledgement is lost.
abbrev acks_lost : ℕ → List Bool
acks_lost cookie = true ∷ []

xfer-Returns_example : Returns (xfer (lossy_server acks_lost) true 2 two_blocks opened_nb)
xfer-Returns_example = xfer-Returns acks_lost true 2 two_blocks opened_nb

xfer-ack_lost_example :
    (nb' : Nb) × (xfer (lossy_server acks_lost) false 2 two_blocks opened_nb
      ≡ some (not_sent, 4, nb'))
xfer-ack_lost_example =
    xfer-ack_lost acks_lost [] [] false 2 (1 ∷ 2 ∷ 3 ∷ []) ((4 ∷ 5 ∷ []) ∷ []) opened_nb
      (omega arith) refl (omega arith) tt (omega arith) opened_nb-AreFiles (ground arith)
      (omega arith) (omega arith) (omega arith)
