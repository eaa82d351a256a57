-- ===== src/Netboot/Transfer.antt =====
-- A whole file, sent block by block as the boot host of src/nbserver.c sends it.

use gigaboot20x.Base.{
  length, u32, ℕ, ◌+◌, ◌^◌, ◌≤◌, ◌<◌, ◌≡◌, refl, sym, ap, ap₂, ◌∙◌, ◌≢◌, ◌⊎◌, inl, Option, some,
  List, [], ◌∷◌, ◌++◌, append-nil, append_assoc, arith,
}
use gigaboot20x.Osboot.Files.{FileId, file_at}
use gigaboot20x.Netboot.{Nb, nb_magic, nb_data, nb_ack, NbMsg, Reply, reply, handle}
use gigaboot20x.Netboot.Buffers.{
  AreFiles, IsFile-file_at, append_data-offset, append_data-size, received, append_data-received,
  handle-AreFiles,
}
use gigaboot20x.Netboot.Acks.{Accepted, handle-Accepted, Accepted-file}

-- The messages of the loop of xfer: the cookie goes up by 1, the arg by the size of the block.
abbrev pub data_messages : ℕ → ℕ → List (List ℕ) → List NbMsg
data_messages cookie off [] = []
data_messages cookie off (block ∷ blocks) =
    record { magic = nb_magic; cookie = u32 cookie; cmd = nb_data; arg = u32 off; body = block }
    ∷ data_messages (cookie + 1) (off + length block) blocks

-- Messages handled one after the other, with their answers.
serve : Nb → List NbMsg → Nb × List (Option Reply)
serve nb [] = (nb, [])
serve nb (m ∷ ms) = let (nb', r) = handle nb m in let (final, rs) = serve nb' ms in (final, r ∷ rs)

-- One acknowledgement for each block, with the place of the block.
abbrev acks_from : ℕ → List (List ℕ) → List (Option Reply)
acks_from off [] = []
acks_from off (block ∷ blocks) = some (reply nb_ack off) ∷ acks_from (off + length block) blocks

abbrev pub total_length : List (List ℕ) → ℕ
total_length [] = 0
total_length (block ∷ blocks) = length block + total_length blocks

abbrev pub concat : List (List ℕ) → List ℕ
concat [] = []
concat (block ∷ blocks) = block ++ concat blocks

-- An open file at `off` with room for more, in a state that has not seen the next cookie.
pub record IsReady (id : FileId) (cookie off more : ℕ) (nb : Nb) : Type 0 where
  pub opened : nb.item ≡ some id
  pub files : AreFiles nb.files
  pub at_offset : (file_at id nb.files).offset ≡ off
  pub fits : off + more ≤ (file_at id nb.files).size
  pub size_fits : (file_at id nb.files).size < 2 ^ 32
  pub new_cookie : (nb.last_cookie ≢ u32 cookie) ⊎ (off ≡ 0)

module _ (id : FileId) where
  abbrev pub block_at : ℕ → ℕ → List ℕ → NbMsg
  block_at cookie off block = record {
    magic = nb_magic;
    cookie = u32 cookie;
    cmd = nb_data;
    arg = u32 off;
    body = block;
  }

  pub block-Accepted :
      (cookie off more : ℕ) (block : List ℕ) (nb : Nb)
      → IsReady id cookie off (length block + more) nb
      → Accepted id nb (block_at cookie off block) (handle nb (block_at cookie off block))
  block-Accepted cookie off more block nb v =
      handle-Accepted id nb (block_at cookie off block) (ground (arith, v.new_cookie)) (record {
        opened = v.opened;
        is_data = refl;
        next = ground (arith, v.at_offset, v.fits, v.size_fits);
        fits = omega (arith, v.at_offset, v.fits);
      })

  pub IsReady-handle :
      (cookie off more : ℕ) (block : List ℕ) (nb : Nb)
      → IsReady id cookie off (length block + more) nb
      → IsReady id (cookie + 1) (off + length block) more (handle nb (block_at cookie off block)).0
  IsReady-handle cookie off more block nb v =
      let a = block-Accepted cookie off more block nb v in
      let f = Accepted-file a in
      record {
        opened = a.item;
        files = handle-AreFiles nb (block_at cookie off block) v.files;
        at_offset =
            rw f (omega (arith, append_data-offset (file_at id nb.files) block, v.at_offset));
        fits = rw f (omega (arith, append_data-size (file_at id nb.files) block, v.fits));
        size_fits = rw f (omega (arith, append_data-size (file_at id nb.files) block, v.size_fits));
        new_cookie = inl (omega (arith, a.cookie));
      }

  pub received-block :
      (cookie off more : ℕ) (block : List ℕ) (nb : Nb)
      → IsReady id cookie off (length block + more) nb
      → received (file_at id (handle nb (block_at cookie off block)).0.files)
        ≡ received (file_at id nb.files) ++ block
  received-block cookie off more block nb v =
      ap received (Accepted-file (block-Accepted cookie off more block nb v))
      ∙ append_data-received (file_at id nb.files) block (IsFile-file_at id nb.files v.files)
          (omega (arith, v.at_offset, v.fits))

  -- Take an open file of less than 2^32 bytes with room for all blocks from its write pointer on,
  -- and a server that has not just seen the first cookie, or a write pointer of 0. Blocks that are
  -- sent in order from there, under rising cookies, are each acknowledged with their place, and
  -- the file then holds what it held and the blocks behind it.
  serve-data_messages :
      (cookie off : ℕ) (blocks : List (List ℕ)) (nb : Nb)
      → IsReady id cookie off (total_length blocks) nb
      → let (nb', answers) = serve nb (data_messages cookie off blocks) in
        (received (file_at id nb'.files) ≡ received (file_at id nb.files) ++ concat blocks)
        × (answers ≡ acks_from off blocks)
  unfolding serve
  serve-data_messages cookie off [] nb v = (sym (append-nil _), refl)
  serve-data_messages cookie off (block ∷ blocks) nb v =
      let m = block_at cookie off block in
      let a = block-Accepted cookie off (total_length blocks) block nb v in
      let rest =
        serve-data_messages (cookie + 1) (off + length block) blocks (handle nb m).0
          (IsReady-handle cookie off (total_length blocks) block nb v) in
      (
        rest.0
            ∙ ap (λ t. t ++ concat blocks)
                (received-block cookie off (total_length blocks) block nb v)
            ∙ append_assoc (received (file_at id nb.files)) block (concat blocks),
        ap₂ ◌∷◌ (a.answer ∙ ap (λ n. some (reply nb_ack n)) (omega (arith, v.fits, v.size_fits)))
            rest.1,
      )
