-- ===== src/Netboot/Flags.antt =====
-- What handle does does not depend on the flags that netboot_poll keeps.
use gigaboot20x.Base.{
  ◌==◌, if◌then◌else◌, Option-cases, Bool-cases, ℕ, ◌≡◌, refl, inl, inr, ◌&&◌, Option, none, some,
  arith,
}
use gigaboot20x.Osboot.Files.{FileId, netboot_get_buffer}
use gigaboot20x.Netboot.{
  nb_data, NbMsg, Nb, Reply, file_name, send_file, file_data, receive_data, execute, remember,
  handle,
}

-- The state with other flags.
abbrev pub flagged : (online active boot_now : ℕ) → Nb → Nb
flagged online active boot_now nb = record nb {
  nb_online = online;
  nb_active = active;
  nb_boot_now = boot_now;
}

-- The same answer and state but for the flags, of which nb_boot_now may be set on both sides.
abbrev IsAlike : (online active : ℕ) → (nb : Nb) → (r r' : Nb × Option Reply) → Type 0
IsAlike online active nb r r' =
    (r'.1 ≡ r.1)
    × (r'.0 ≡ flagged online active r'.0.nb_boot_now r.0)
    × ((if r'.0.nb_boot_now == 0 then nb.nb_boot_now else 1) ≡ r.0.nb_boot_now)

module _ (online active : ℕ) where
  send_file-IsAlike :
      (nb : Nb) (m : NbMsg)
      → IsAlike online active nb (send_file nb m) (send_file (flagged online active 0 nb) m)
  unfolding send_file
  send_file-IsAlike nb m = elim (Option-cases (netboot_get_buffer (file_name m.body))) [
    | inl unknown ↦ rw unknown (ground arith)
    | inr (id, found) ↦ rw found (ground arith)
  ]

  file_data-IsAlike :
      (id : FileId) (nb : Nb) (m : NbMsg)
      → IsAlike online active nb (file_data id nb m) (file_data id (flagged online active 0 nb) m)
  unfolding file_data
  file_data-IsAlike id nb m = ground arith

  receive_data-IsAlike :
      (item : Option FileId) (nb : Nb) (m : NbMsg)
      → IsAlike online active nb
          (receive_data item nb m)
          (receive_data item (flagged online active 0 nb) m)
  unfolding receive_data
  receive_data-IsAlike none nb m = (refl, refl, refl)
  receive_data-IsAlike (some id) nb m = file_data-IsAlike id nb m

  execute-IsAlike :
      (nb : Nb) (m : NbMsg)
      → IsAlike online active nb (execute nb m) (execute (flagged online active 0 nb) m)
  unfolding execute
  execute-IsAlike nb m = ground (arith, send_file-IsAlike nb m, receive_data-IsAlike nb.item nb m)

  remember-IsAlike :
      (nb : Nb) (m : NbMsg) (r r' : Nb × Option Reply)
      → IsAlike online active nb r r'
      → IsAlike online active nb (remember m r) (remember m r')
  remember-IsAlike nb m (n, none) (n', none) v = v
  remember-IsAlike nb m (n, none) (n', some a') v = absurd (ground (arith, v.0))
  remember-IsAlike nb m (n, some a) (n', none) v = absurd (ground (arith, v.0))
  remember-IsAlike nb m (n, some a) (n', some a') v = ground (arith, v.0, v.1, v.2)

  pub handle-IsAlike :
      (nb : Nb) (m : NbMsg)
      → IsAlike online active nb (handle nb m) (handle (flagged online active 0 nb) m)
  unfolding handle
  handle-IsAlike nb m =
      let again = record nb { last_arg = m.arg } in
      let first = remember-IsAlike nb m _ _ (execute-IsAlike nb m) in
      let second = remember-IsAlike nb m _ _ (execute-IsAlike again m) in
      elim (Bool-cases (nb.last_cookie == m.cookie && nb.last_cmd == m.cmd)) [
        | inl seen ↦ elim (Bool-cases (m.arg == 0)) [
          | inl zeroth ↦ rw (seen, zeroth) second
          | inr later ↦ rw (seen, later) (refl, refl, refl)
        ]
        | inr fresh ↦ rw fresh first
      ]

-- A data message does not touch nb_boot_now.
receive_data-nb_boot_now :
    (item : Option FileId) (nb : Nb) (m : NbMsg)
    → (receive_data item nb m).0.nb_boot_now ≡ nb.nb_boot_now
unfolding receive_data file_data
receive_data-nb_boot_now none nb m = refl
receive_data-nb_boot_now (some id) nb m = ground arith

remember-nb_boot_now :
    (m : NbMsg) (r : Nb × Option Reply) → (remember m r).0.nb_boot_now ≡ r.0.nb_boot_now
remember-nb_boot_now m (nb, none) = refl
remember-nb_boot_now m (nb, some r) = refl

execute_data-nb_boot_now :
    (nb : Nb) (m : NbMsg) → m.cmd ≡ nb_data → (execute nb m).0.nb_boot_now ≡ nb.nb_boot_now
unfolding execute
execute_data-nb_boot_now nb m e = ground (arith, e, receive_data-nb_boot_now nb.item nb m)

pub handle_data-nb_boot_now :
    (nb : Nb) (m : NbMsg) → m.cmd ≡ nb_data → (handle nb m).0.nb_boot_now ≡ nb.nb_boot_now
unfolding handle
handle_data-nb_boot_now nb m e =
    let again = record nb { last_arg = m.arg } in
    ground (
      arith,
      remember-nb_boot_now m (execute nb m),
      remember-nb_boot_now m (execute again m),
      execute_data-nb_boot_now nb m e,
      execute_data-nb_boot_now again m e,
    )
