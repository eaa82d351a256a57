-- ===== src/Netboot/Acks.antt =====
-- src/netboot.c: messages that arrive again, and the duplicate test.
use gigaboot20x.Base.{
  ◌==◌, if◌then◌else◌, le→ltb, length, ◌+◌, ◌≤◌, ◌<◌, ◌≡◌, sym, ap, ◌∙◌, ◌≢◌, ◌⊎◌, inr, ◌&&◌,
  Option, none, some, arith,
}
use gigaboot20x.Osboot.Files.{FileId, NbFile, file_at, set_file}
use gigaboot20x.Netboot.Buffers.{file_at-set_file, append_data-offset}
use gigaboot20x.Netboot.{
  Nb, nb_data, nb_ack, NbMsg, Reply, reply, append_data, file_data, receive_data, execute, remember,
  handle,
}

-- What is remembered of a message that got the answer r.
record IsLast (nb : Nb) (m : NbMsg) (r : Reply) : Type 0 where
  cookie : nb.last_cookie ≡ m.cookie
  cmd : nb.last_cmd ≡ m.cmd
  arg : nb.last_arg ≡ m.arg
  ack_cmd : nb.last_ack_cmd ≡ r.cmd
  ack_arg : nb.last_ack_arg ≡ r.arg

remember-IsLast :
    (m : NbMsg) (x : Nb × Option Reply) (r : Reply)
    → (remember m x).1 ≡ some r
    → IsLast (remember m x).0 m r
remember-IsLast m (nb, none) r e = cc
remember-IsLast m (nb, some q) r e = ground arith

IsLast-repeats :
    (nb : Nb) (m : NbMsg) (r : Reply) → IsLast nb m r → m.arg ≢ 0 → handle nb m ≡ (nb, some r)
unfolding handle
IsLast-repeats nb m r v has_arg = ground arith

handle-IsLast :
    (nb : Nb) (m : NbMsg) (r : Reply) → (handle nb m).1 ≡ some r → IsLast (handle nb m).0 m r
unfolding handle
handle-IsLast nb m r e = ground (
  arith,
  remember-IsLast m (execute nb m) r,
  remember-IsLast m (execute (record nb { last_arg = m.arg }) m) r,
)

-- A message that was answered and has an arg other than 0 may be repeated: the answer is the same
-- and the state does not change, so no data is stored twice.
pub handle_twice :
    (nb : Nb) (m : NbMsg) (r : Reply)
    → (handle nb m).1 ≡ some r
    → m.arg ≢ 0
    → handle (handle nb m).0 m ≡ ((handle nb m).0, some r)
handle_twice nb m r e has_arg = IsLast-repeats (handle nb m).0 m r (handle-IsLast nb m r e) has_arg

-- The state after the assignment inside the duplicate test.
abbrev pub touched : Nb → NbMsg → Nb
touched nb m =
    if nb.last_cookie == m.cookie && nb.last_cmd == m.cmd
    then record nb { last_arg = m.arg }
    else nb

-- What accepting the data of m does to the state.
abbrev stored : FileId → Nb → NbMsg → Nb
stored id nb m = record nb {
  files = set_file id (append_data (file_at id nb.files) m.body) nb.files;
}

execute_next :
    (id : FileId) (nb : Nb) (m : NbMsg)
    → nb.item ≡ some id
    → m.cmd ≡ nb_data
    → m.arg ≡ (file_at id nb.files).offset
    → (file_at id nb.files).offset + length m.body ≤ (file_at id nb.files).size
    → execute nb m ≡ (stored id nb m, some (reply nb_ack m.arg))
unfolding execute receive_data file_data
execute_next id nb m opened is_data next fits = ground (
  arith,
  ap (λ item. receive_data item nb m) opened,
  le→ltb (file_at id nb.files).size ((file_at id nb.files).offset + length m.body) fits,
)

execute_stale :
    (id : FileId) (nb : Nb) (m : NbMsg)
    → nb.item ≡ some id
    → m.cmd ≡ nb_data
    → m.arg ≢ (file_at id nb.files).offset
    → execute nb m ≡ (nb, none)
unfolding execute receive_data file_data
execute_stale id nb m opened is_data other =
    ground (arith, ap (λ item. receive_data item nb m) opened)

-- A message that is not taken for a repetition.
abbrev IsNew : Nb → NbMsg → Type 0
IsNew nb m = (nb.last_cookie ≢ m.cookie) ⊎ (m.arg ≡ 0)

pub handle_new :
    (nb : Nb) (m : NbMsg) → IsNew nb m → handle nb m ≡ remember m (execute (touched nb m) m)
unfolding handle
handle_new nb m new = ground arith

pub touched-files : (nb : Nb) (m : NbMsg) → (touched nb m).files ≡ nb.files
touched-files nb m = ground arith

pub touched-item : (nb : Nb) (m : NbMsg) → (touched nb m).item ≡ nb.item
touched-item nb m = ground arith

-- A block that goes behind what file id holds, and the state and answer after it.
pub record IsNext (id : FileId) (nb : Nb) (m : NbMsg) : Type 0 where
  pub opened : nb.item ≡ some id
  pub is_data : m.cmd ≡ nb_data
  pub next : m.arg ≡ (file_at id nb.files).offset
  pub fits : (file_at id nb.files).offset + length m.body ≤ (file_at id nb.files).size

pub record Accepted (id : FileId) (nb : Nb) (m : NbMsg) (r : Nb × Option Reply) : Type 0 where
  pub answer : r.1 ≡ some (reply nb_ack m.arg)
  pub item : r.0.item ≡ some id
  pub files : r.0.files ≡ set_file id (append_data (file_at id nb.files) m.body) nb.files
  pub cookie : r.0.last_cookie ≡ m.cookie

pub handle-Accepted :
    (id : FileId) (nb : Nb) (m : NbMsg)
    → IsNew nb m
    → IsNext id nb m
    → Accepted id nb m (handle nb m)
handle-Accepted id nb m new v =
    rw
      (
        handle_new nb m new,
        execute_next id (touched nb m) m (touched-item nb m ∙ v.opened) v.is_data
            (v.next ∙ ap (λ fs. (file_at id fs).offset) (sym (touched-files nb m)))
            (ground (arith, touched-files nb m)),
      )
      (ground (arith, touched-files nb m, touched-item nb m))

pub Accepted-file :
    {id : FileId} {nb : Nb} {m : NbMsg} {r : Nb × Option Reply}
    → Accepted id nb m r
    → file_at id r.0.files ≡ append_data (file_at id nb.files) m.body
Accepted-file {id} {nb} {m} a =
    ap (file_at id) a.files
    ∙ file_at-set_file id (append_data (file_at id nb.files) m.body) nb.files

-- A data message with arg 0 for a file that has data gets no answer.
pub handle_stale :
    (id : FileId) (nb : Nb) (m : NbMsg)
    → nb.item ≡ some id
    → m.cmd ≡ nb_data
    → m.arg ≡ 0
    → 0 < (file_at id nb.files).offset
    → handle nb m ≡ (touched nb m, none)
handle_stale id nb m opened is_data no_arg ahead =
    handle_new nb m (inr no_arg)
    ∙ ap (remember m) (
        execute_stale id (touched nb m) m (touched-item nb m ∙ opened) is_data
          (ground (arith, ap (file_at id) (touched-files nb m))))

-- A first block that fits, is not empty and goes to an open file with write pointer 0, and so has
-- arg 0, is acknowledged; but when the same message arrives again, it gets no answer.
first_block_twice :
    (nb : Nb) (m : NbMsg) (id : FileId)
    → nb.item ≡ some id
    → m.cmd ≡ nb_data
    → m.arg ≡ 0
    → (file_at id nb.files).offset ≡ 0
    → 0 < length m.body
    → length m.body ≤ (file_at id nb.files).size
    → ((handle nb m).1 ≡ some (reply nb_ack 0)) × ((handle (handle nb m).0 m).1 ≡ none)
first_block_twice nb m id opened is_data no_arg start some_data fits = (
  once.answer ∙ ap (λ a. some (reply nb_ack a)) no_arg,
  ap (λ (r : Nb × Option Reply). r.1)
      (handle_stale id (handle nb m).0 m once.item is_data no_arg moved),
)
  where
    once : Accepted id nb m (handle nb m)
    once =
        handle-Accepted id nb m (inr no_arg)
          (record { opened = opened; is_data = is_data; next = omega arith; fits = omega arith })

    moved : 0 < (file_at id (handle nb m).0.files).offset
    moved = omega (
      arith,
      ap (λ (f : NbFile). f.offset) (Accepted-file once),
      append_data-offset (file_at id nb.files) m.body,
    )
