-- ===== src/Ws/Binary/Relay.antt =====
-- What a binary frame does in `handle_binary` of backend/app/ws/connection.py.
use ephemeral_rooms.Prelude.{
  ℕ, ◌≡◌, ◌≢◌, ◌⊎◌, inl, inr, refl, Bool, true, false, none, some, List, [], ◌∷◌, ◌==◌, Text,
  length, drop, same, arith, same_iff, Bool-cases, Option-cases, subst, sym, if◌then◌else◌,
}
use ephemeral_rooms.Dict.{get, alter, put, get-alter, get-put}
use ephemeral_rooms.Storage.FileStore.{Bytes}
use ephemeral_rooms.Collab.Registry.{doc}
use ephemeral_rooms.Collab.Sync.{decode_frame, encode_frame, message_kind, sync_message}
use ephemeral_rooms.Collab.Sync.Laws.{decode_frame-encode_frame}
use ephemeral_rooms.Rooms.Instance.State.{Room}
use ephemeral_rooms.Ws.Binary.{
  Crdt, Surroundings, Sent, to_room, Line, is_change, apply_sync, set_doc, report_capacity,
  relay_update, handle_sync, handle_awareness, handle_binary,
}

module _ {D W : Type 0} where
  -- A room that differs in one document's replica and awareness at most.
  pub record Edits (i : Text) (r r' : Room D W) : Type 0 where
    pub records : r'.documents.by_id ≡ r.documents.by_id
    pub users : r'.users ≡ r.users
    pub files : r'.files ≡ r.files
    pub uploads : r'.uploads ≡ r.uploads
    pub state : r'.state ≡ r.state
    pub op_seq : r'.op_seq ≡ r.op_seq
    pub other_docs : (j : Text) → j ≢ i → get r'.documents.docs j ≡ get r.documents.docs j
    pub other_awareness : (j : Text) → j ≢ i → get r'.awareness j ≡ get r.awareness j

  Edits-refl : (i : Text) (r : Room D W) → Edits i r r
  Edits-refl i r = record {
    records = refl;
    users = refl;
    files = refl;
    uploads = refl;
    state = refl;
    op_seq = refl;
    other_docs = λ j ne. refl;
    other_awareness = λ j ne. refl;
  }

  set_doc-Edits : (i : Text) (d : D) (r : Room D W) → Edits i r (set_doc i d r)
  set_doc-Edits i d r = record {
    records = refl;
    users = refl;
    files = refl;
    uploads = refl;
    state = refl;
    op_seq = refl;
    other_docs = λ j ne. ground (arith, get-alter (λ _. d) r.documents.docs i j, same_iff i j);
    other_awareness = λ j ne. refl;
  }

  put-Edits :
      (i : Text) (w : W) (r : Room D W) → Edits i r (record r { awareness = put r.awareness i w })
  put-Edits i w r = record {
    records = refl;
    users = refl;
    files = refl;
    uploads = refl;
    state = refl;
    op_seq = refl;
    other_docs = λ j ne. refl;
    other_awareness = λ j ne. ground (arith, get-put r.awareness i j w, same_iff i j);
  }

  room-report_capacity :
      (crdt : Crdt D W) (env : Surroundings) (i : Text) (l : Line D W)
      → (report_capacity crdt env i l).0.room ≡ l.room
  unfolding report_capacity
  room-report_capacity crdt env i l = ground arith

  room-handle_sync :
      (crdt : Crdt D W) (env : Surroundings) (i : Text) (payload : Bytes) (d : D) (l : Line D W)
      → (handle_sync crdt env i payload d l).0.room
        ≡ set_doc i (apply_sync crdt env.uuid_bytes i d payload).0 l.room
  unfolding handle_sync apply_sync alter
  room-handle_sync crdt env i payload d l =
      let d' = (apply_sync crdt env.uuid_bytes i d payload).0 in
      elim (Option-cases (apply_sync crdt env.uuid_bytes i d payload).1) [
        | inl e ↦ rw e refl
        | inr (answer, e) ↦ elim (Option-cases (relay_update crdt env i (crdt.get_state d) d')) [
          | inl e1 ↦ rw (e, e1) (room-report_capacity crdt env i _)
          | inr (relayed, e1) ↦ rw (e, e1) (room-report_capacity crdt env i _)
        ]
      ]

  handle_awareness-Edits :
      (crdt : Crdt D W) (i : Text) (frame payload : Bytes) (d : D) (l : Line D W)
      → Edits i l.room (handle_awareness crdt i frame payload d l).0.room
  unfolding handle_awareness
  handle_awareness-Edits crdt i frame payload d l = put-Edits i _ l.room

  handle_sync-Edits :
      (crdt : Crdt D W) (env : Surroundings) (i : Text) (payload : Bytes) (d : D) (l : Line D W)
      → Edits i l.room (handle_sync crdt env i payload d l).0.room
  handle_sync-Edits crdt env i payload d l =
      subst (Edits i l.room) (sym (room-handle_sync crdt env i payload d l))
        (set_doc-Edits i (apply_sync crdt env.uuid_bytes i d payload).0 l.room)

  -- The rest of `handle_binary` once the frame is decoded.
  abbrev dispatched :
      Crdt D W → Surroundings → Bytes → Bytes → Text → Line D W → Line D W × List Sent × Bool
  dispatched crdt env frame payload i l = elim (message_kind payload) [
    | none ↦ (l, [], false)
    | some kind ↦ elim (doc l.room.documents i) [
      | none ↦ (l, [], false)
      | some d ↦
          if kind == sync_message
          then handle_sync crdt env i payload d l
          else handle_awareness crdt i frame payload d l
    ]
  ]

  decoded :
      (crdt : Crdt D W) (env : Surroundings) (frame payload : Bytes) (i : Text) (l : Line D W)
      → decode_frame env.uuid_text frame ≡ some (i, payload)
      → handle_binary crdt env frame l ≡ dispatched crdt env frame payload i l
  unfolding handle_binary
  decoded crdt env frame payload i l e = ground arith

  dispatched-Edits :
      (crdt : Crdt D W) (env : Surroundings) (frame payload : Bytes) (i : Text) (l : Line D W)
      → Edits i l.room (dispatched crdt env frame payload i l).0.room
  dispatched-Edits crdt env frame payload i l = elim (Option-cases (message_kind payload)) [
    | inl e ↦ rw (dispatched, e) (Edits-refl i l.room)
    | inr (kind, e) ↦ elim (Option-cases (doc l.room.documents i)) [
      | inl e1 ↦ rw (dispatched, e, e1) (Edits-refl i l.room)
      | inr (d, e1) ↦ elim (Bool-cases (kind == sync_message)) [
        | inl e2 ↦ rw (dispatched, e, e1, e2) (handle_sync-Edits crdt env i payload d l)
        | inr e2 ↦ rw (dispatched, e, e1, e2) (handle_awareness-Edits crdt i frame payload d l)
      ]
    ]
  ]

  -- A binary frame that decodes to a document's id changes nothing in the room but that document's
  -- replica and awareness: the documents' records, the users, files, uploads, state and counter and
  -- the other documents stay, whatever pycrdt does and even where it raises.
  pub handle_binary-Edits :
      (crdt : Crdt D W) (env : Surroundings) (frame payload : Bytes) (i : Text) (l : Line D W)
      → decode_frame env.uuid_text frame ≡ some (i, payload)
      → Edits i l.room (handle_binary crdt env frame l).0.room
  unfolding handle_binary
  handle_binary-Edits crdt env frame payload i l e =
      subst (λ o. Edits i l.room o.0.room) (sym (decoded crdt env frame payload i l e))
        (dispatched-Edits crdt env frame payload i l)

  pub handle_binary_dropped :
      (crdt : Crdt D W) (env : Surroundings) (frame : Bytes) (l : Line D W)
      → ((i : Text) (payload : Bytes) (kind : ℕ)
          → decode_frame env.uuid_text frame ≡ some (i, payload)
          → message_kind payload ≡ some kind
          → doc l.room.documents i ≡ none)
      → handle_binary crdt env frame l ≡ (l, [], false)
  unfolding handle_binary
  handle_binary_dropped crdt env frame l bad =
      elim (Option-cases (decode_frame env.uuid_text frame)) [
        | inl e ↦ ground arith
        | inr ((i, payload), e) ↦ elim (Option-cases (message_kind payload)) [
          | inl e1 ↦ ground arith
          | inr (kind, e1) ↦ ground (arith, bad i payload kind e e1)
        ]
      ]

  pub handle_binary_raised :
      (crdt : Crdt D W) (env : Surroundings) (frame payload : Bytes) (i : Text) (d d' : D)
      (l : Line D W)
      → decode_frame env.uuid_text frame ≡ some (i, payload)
      → message_kind payload ≡ some sync_message
      → doc l.room.documents i ≡ some d
      → crdt.handle_sync_message (drop 1 payload) d ≡ (d', none)
      → handle_binary crdt env frame l ≡ (record l { room = set_doc i d' l.room }, [], true)
  unfolding handle_binary handle_sync apply_sync
  handle_binary_raised crdt env frame payload i d d' l e k there bad = ground arith

  pub relay_update_lem :
      (crdt : Crdt D W) (env : Surroundings) (i b : Text) (before : Bytes) (d : D)
      (sent : List Sent)
      → env.uuid_bytes i ≡ some b
      → length b ≡ 16
      → env.uuid_text b ≡ i
      → ((update : Bytes) → crdt.create_update_message update ≢ [])
      → relay_update crdt env i before d ≡ some sent
      → ((sent ≡ []) × (is_change (crdt.get_update d before) ≡ false))
        ⊎ ((frame : Bytes) × (is_change (crdt.get_update d before) ≡ true)
            × (sent ≡ to_room frame ∷ [])
            × (decode_frame env.uuid_text frame
                ≡ some (i, crdt.create_update_message (crdt.get_update d before))))
  unfolding relay_update
  relay_update_lem crdt env i b before d sent id size text full e =
      let update = crdt.get_update d before in
      let message = crdt.create_update_message update in
      elim (Bool-cases (is_change update)) [
        | inr same ↦ inl (ground arith, same)
        | inl changed ↦ elim (Option-cases (encode_frame env.uuid_bytes i message)) [
          | inl e1 ↦ absurd (ground arith)
          | inr (frame, e1) ↦ inr (
            frame,
            changed,
            ground arith,
            decode_frame-encode_frame env.uuid_bytes env.uuid_text i b message frame id size text
                (full update) e1,
          )
        ]
      ]
