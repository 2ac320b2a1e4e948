-- ===== src/Ws/Session/Stamps.antt =====
-- The sequence numbers of the events of backend/app/ws/connection.py.
use ephemeral_rooms.Prelude.{
  ℕ, zero, suc, ◌+◌, ◌≡◌, ◌⊎◌, inl, inr, refl, ap, List, [], ◌∷◌, ◌++◌, length, arith,
}
use ephemeral_rooms.Collab.Registry.{rename, delete}
use ephemeral_rooms.Rooms.Types.{User}
use ephemeral_rooms.Rooms.Instance.State.{next_op_seq}
use ephemeral_rooms.Ws.Session.{
  Message, pong, set_name, create_document, rename_document, delete_document, delete_file_message,
  upload_progress, Event, user_updated, document_created, document_renamed, document_deleted,
  file_deleted, progress, too_many_documents, Context, State, handle_message, set_display_name,
  create_document_named, rename_document_to, delete_document_by, delete_file_by, report_progress,
}

-- The sequence numbers that events carry.
abbrev pub stamps : List Event → List ℕ
stamps [] = []
stamps (user_updated user name seq ∷ es) = seq ∷ stamps es
stamps (document_created d seq ∷ es) = seq ∷ stamps es
stamps (document_renamed d seq ∷ es) = seq ∷ stamps es
stamps (document_deleted d by seq ∷ es) = seq ∷ stamps es
stamps (file_deleted f name by ∷ es) = stamps es
stamps (progress u name file percent ∷ es) = stamps es
stamps (too_many_documents ∷ es) = stamps es

-- `k` numbers from `n` on.
abbrev pub count_from : ℕ → ℕ → List ℕ
count_from n zero = []
count_from n (suc k) = n ∷ count_from (suc n) k

stamps-append : (es fs : List Event) → stamps (es ++ fs) ≡ stamps es ++ stamps fs
stamps-append [] fs = refl
stamps-append (user_updated user name seq ∷ es) fs = ap (λ l. seq ∷ l) (stamps-append es fs)
stamps-append (document_created d seq ∷ es) fs = ap (λ l. seq ∷ l) (stamps-append es fs)
stamps-append (document_renamed d seq ∷ es) fs = ap (λ l. seq ∷ l) (stamps-append es fs)
stamps-append (document_deleted d by seq ∷ es) fs = ap (λ l. seq ∷ l) (stamps-append es fs)
stamps-append (file_deleted f name by ∷ es) fs = stamps-append es fs
stamps-append (progress u name file percent ∷ es) fs = stamps-append es fs
stamps-append (too_many_documents ∷ es) fs = stamps-append es fs

module _ {D W : Type 0} where
  -- One write, with the next number; or none, and the counter stays.
  abbrev pub Stamped : ℕ → State D W × List Event → Type 0
  Stamped n o =
      ((stamps o.1 ≡ []) × (o.0.0.op_seq ≡ n))
      ⊎ ((stamps o.1 ≡ suc n ∷ []) × (o.0.0.op_seq ≡ suc n))

  handle_message-Stamped :
      (c : Context D) (user : User) (m : Message) (s : State D W)
      → Stamped s.0.op_seq (handle_message c user m s)
  unfolding handle_message set_display_name create_document_named rename_document_to
      delete_document_by delete_file_by report_progress next_op_seq rename delete
  handle_message-Stamped c user pong (r, t) = inl (refl, refl)
  handle_message-Stamped c user (set_name raw) (r, t) = inr (refl, refl)
  handle_message-Stamped c user (create_document raw) (r, t) = ground arith
  handle_message-Stamped c user (rename_document i raw) (r, t) = ground arith
  handle_message-Stamped c user (delete_document i) (r, t) = ground arith
  handle_message-Stamped c user (delete_file_message f) (r, t) = ground arith
  handle_message-Stamped c user (upload_progress i percent) (r, t) = ground arith

  -- The messages of any sessions, in the order in which the server processes them.
  unfoldable pub run : List (Context D × User × Message) → State D W → State D W × List Event
  unfolding handle_message
  run [] s = (s, [])
  run ((c, user, m) ∷ ms) s =
      let (s', events) = handle_message c user m s in
      let (t, later) = run ms s' in (t, events ++ later)

  -- Over the messages of any sessions in the order in which the server processes them, the sequence
  -- numbers of the events are consecutive from the room's counter on, and the counter ends at the
  -- last one: the metadata writes of a room are totally ordered without ties or gaps.
  pub run-stamps :
      (ms : List (Context D × User × Message)) (s : State D W)
      → let o = run ms s in
        (stamps o.1 ≡ count_from (suc s.0.op_seq) (length (stamps o.1)))
        × (o.0.0.op_seq ≡ s.0.op_seq + length (stamps o.1))
  unfolding run
  run-stamps [] s = (refl, omega arith)
  run-stamps ((c, user, m) ∷ ms) s =
      let (s', events) = handle_message c user m s in
      let (seen, count) = run-stamps ms s' in
      elim (handle_message-Stamped c user m s) [
        | inl (quiet, same_seq) ↦ ground (arith, stamps-append events (run ms s').1, seen, count)
        | inr (one, next_seq) ↦ ground (arith, stamps-append events (run ms s').1, seen, count)
      ]
