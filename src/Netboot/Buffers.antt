-- ===== src/Netboot/Buffers.antt =====
-- The buffers of the files under the messages of src/netboot.c.
use gigaboot20x.Base.{
  ltb, ◌==◌, ltb→le, Bool-cases, Option-cases, length, take, drop, length-append, length-take,
  length-drop, take-append, take-length, ℕ, ◌+◌, ◌≤◌, ◌≡◌, refl, sym, ap, ◌∙◌, inl, inr, ◌&&◌,
  Option, none, some, List, ◌++◌, append_assoc, arith,
}
use gigaboot20x.Cstring.Laws.{memcpy_lem}
use gigaboot20x.Osboot.Files.{
  FileId, NbFile, nbkernel, nbramdisk, nbcmdline, Files, file_at, set_file, netboot_get_buffer,
}
use gigaboot20x.Netboot.{
  Nb, NbMsg, Reply, file_name, send_file, append_data, file_data, receive_data, execute, remember,
  handle,
}

abbrev IsFile : NbFile → Type 0
IsFile f = (length f.buffer ≡ f.size) × (f.offset ≤ f.size)

abbrev pub AreFiles : Files → Type 0
AreFiles fs = IsFile fs.kernel × IsFile fs.ramdisk × IsFile fs.cmdline

pub IsFile-file_at : (id : FileId) (fs : Files) → AreFiles fs → IsFile (file_at id fs)
IsFile-file_at nbkernel fs v = v.0
IsFile-file_at nbramdisk fs v = v.1
IsFile-file_at nbcmdline fs v = v.2

AreFiles-set_file :
    (id : FileId) (f : NbFile) (fs : Files) → IsFile f → AreFiles fs → AreFiles (set_file id f fs)
AreFiles-set_file nbkernel f fs vf v = (vf, v.1, v.2)
AreFiles-set_file nbramdisk f fs vf v = (v.0, vf, v.2)
AreFiles-set_file nbcmdline f fs vf v = (v.0, v.1, vf)

-- Where the data fits, it is written behind what was there, and nothing else changes.
append_data-buffer :
    (f : NbFile) (body : List ℕ)
    → IsFile f
    → f.offset + length body ≤ f.size
    → (append_data f body).buffer
      ≡ take f.offset f.buffer ++ (body ++ drop (length body) (drop f.offset f.buffer))
unfolding append_data
append_data-buffer f body v fits =
    ap (λ t. take f.offset f.buffer ++ t)
      (memcpy_lem (drop f.offset f.buffer) body (length body)
          (omega (arith, length-drop f.offset f.buffer, v.0)) (omega arith)
        ∙ ap (λ t. t ++ drop (length body) (drop f.offset f.buffer))
            (take-length body (length body) (omega arith)))

append_data-IsFile :
    (f : NbFile) (body : List ℕ)
    → IsFile f
    → f.offset + length body ≤ f.size
    → IsFile (append_data f body)
unfolding append_data
append_data-IsFile f body v fits =
    let rest = drop (length body) (drop f.offset f.buffer) in
    (
      ap length (append_data-buffer f body v fits)
          ∙ omega (
            arith,
            length-append (take f.offset f.buffer) (body ++ rest),
            length-append body rest,
            length-take f.offset f.buffer,
            length-drop (length body) (drop f.offset f.buffer),
            length-drop f.offset f.buffer,
            v.0,
          ),
      fits,
    )

pub append_data-offset :
    (f : NbFile) (body : List ℕ) → (append_data f body).offset ≡ f.offset + length body
unfolding append_data
append_data-offset f body = refl

pub append_data-size : (f : NbFile) (body : List ℕ) → (append_data f body).size ≡ f.size
unfolding append_data
append_data-size f body = refl

-- The bytes received so far.
abbrev pub received : NbFile → List ℕ
received f = take f.offset f.buffer

pub append_data-received :
    (f : NbFile) (body : List ℕ)
    → IsFile f
    → f.offset + length body ≤ f.size
    → received (append_data f body) ≡ received f ++ body
unfolding append_data
append_data-received f body v fits =
    ap (take (f.offset + length body)) (
      append_data-buffer f body v fits
      ∙ sym (append_assoc (received f) body (drop (length body) (drop f.offset f.buffer))))
    ∙ take-append (received f ++ body) _ (f.offset + length body)
        (omega (arith, length-append (received f) body, length-take f.offset f.buffer, v.0))

file_data-AreFiles :
    (id : FileId) (nb : Nb) (m : NbMsg) → AreFiles nb.files → AreFiles (file_data id nb m).0.files
unfolding file_data
file_data-AreFiles id nb m v = elim (Bool-cases (m.arg == (file_at id nb.files).offset)) [
  | inr other ↦ rw other v
  | inl next ↦
      elim (Bool-cases
        (ltb (file_at id nb.files).size ((file_at id nb.files).offset + length m.body))) [
          | inl large ↦ rw (next, large) v
          | inr fits ↦
              rw (next, fits)
                (AreFiles-set_file id _ nb.files
                  (append_data-IsFile (file_at id nb.files) m.body (IsFile-file_at id nb.files v)
                    (ltb→le _ _ fits))
                  v)
        ]
]

reopened : (f : NbFile) → IsFile f → IsFile (record f { offset = 0 })
reopened f v = (v.0, omega arith)

send_file-AreFiles : (nb : Nb) (m : NbMsg) → AreFiles nb.files → AreFiles (send_file nb m).0.files
unfolding send_file
send_file-AreFiles nb m v = elim (Bool-cases (length m.body == 0)) [
  | inl empty ↦ rw empty v
  | inr named ↦ rw named (elim (Option-cases (netboot_get_buffer (file_name m.body))) [
    | inl unknown ↦ rw unknown v
    | inr (id, known) ↦ rw known (
        AreFiles-set_file id _ nb.files
          (reopened (file_at id nb.files) (IsFile-file_at id nb.files v)) v)
  ])
]

receive_data-AreFiles :
    (item : Option FileId) (nb : Nb) (m : NbMsg)
    → AreFiles nb.files
    → AreFiles (receive_data item nb m).0.files
unfolding receive_data
receive_data-AreFiles none nb m v = v
receive_data-AreFiles (some id) nb m v = file_data-AreFiles id nb m v

execute-AreFiles : (nb : Nb) (m : NbMsg) → AreFiles nb.files → AreFiles (execute nb m).0.files
unfolding execute
execute-AreFiles nb m v =
    ground (arith, send_file-AreFiles nb m v, receive_data-AreFiles nb.item nb m v)

remember-files : (m : NbMsg) (r : Nb × Option Reply) → (remember m r).0.files ≡ r.0.files
remember-files m (nb, none) = refl
remember-files m (nb, some r) = refl

-- If every file has a buffer of its size and a write pointer inside it, then this is so after any
-- message. In particular nothing is written behind the end of a buffer, which would then be longer
-- than its size.
pub handle-AreFiles : (nb : Nb) (m : NbMsg) → AreFiles nb.files → AreFiles (handle nb m).0.files
unfolding handle
handle-AreFiles nb m v = elim (Bool-cases (nb.last_cookie == m.cookie && nb.last_cmd == m.cmd)) [
  | inr fresh ↦ rw fresh (remembered nb v)
  | inl seen ↦ rw seen (elim (Bool-cases (m.arg == 0)) [
    | inl no_arg ↦ rw no_arg (remembered (record nb { last_arg = m.arg }) v)
    | inr has_arg ↦ rw has_arg v
  ])
]
  where
    remembered : (nb : Nb) → AreFiles nb.files → AreFiles (remember m (execute nb m)).0.files
    remembered nb v = rw (remember-files m (execute nb m)) (execute-AreFiles nb m v)

pub file_at-set_file : (id : FileId) (f : NbFile) (fs : Files) → file_at id (set_file id f fs) ≡ f
file_at-set_file nbkernel f fs = refl
file_at-set_file nbramdisk f fs = refl
file_at-set_file nbcmdline f fs = refl
