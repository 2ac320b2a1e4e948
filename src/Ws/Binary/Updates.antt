-- ===== src/Ws/Binary/Updates.antt =====
-- What `handle_binary` of backend/app/ws/connection.py relays of a sync message.
use ephemeral_rooms.Prelude.{
  ◌≡◌, ◌≢◌, ◌⊎◌, inl, inr, refl, sym, ap, ◌∙◌, Bool, true, false, Option, none, some, List, [], ◌∷◌,
  ◌++◌, Text, length, drop, arith, same_iff, Option-cases, Bool-cases,
}
use ephemeral_rooms.Storage.FileStore.{Bytes}
use ephemeral_rooms.Collab.Registry.{doc}
use ephemeral_rooms.Collab.Sync.{decode_frame, message_kind, sync_message}
use ephemeral_rooms.Ws.Binary.{
  Crdt, Surroundings, Sent, to_peer, to_room, warning, no_document, Line, is_change, apply_sync,
  set_doc, report_capacity, relay_update, handle_sync, handle_binary, sent_reply, warn,
}
use ephemeral_rooms.Ws.Binary.Relay.{relay_update_lem}

-- The frames that go to the rest of the room.
abbrev pub room_frames : List Sent → List Bytes
room_frames [] = []
room_frames (to_room frame ∷ sent) = frame ∷ room_frames sent
room_frames (to_peer frame ∷ sent) = room_frames sent
room_frames (warning code ∷ sent) = room_frames sent
room_frames (no_document ∷ sent) = room_frames sent

room_frames-append : (a b : List Sent) → room_frames a ≡ [] → room_frames (a ++ b) ≡ room_frames b
room_frames-append [] b h = refl
room_frames-append (to_room frame ∷ a) b h = absurd (ground arith)
room_frames-append (to_peer frame ∷ a) b h = room_frames-append a b h
room_frames-append (warning code ∷ a) b h = room_frames-append a b h
room_frames-append (no_document ∷ a) b h = room_frames-append a b h

room_frames-sent_reply : (answer : Option Bytes) → room_frames (sent_reply answer) ≡ []
room_frames-sent_reply none = refl
room_frames-sent_reply (some frame) = refl

-- An update that is neither empty nor the empty update of two zeros.
is_change_iff :
    (update : Bytes)
    → ((is_change update ≡ false) × ((update ≡ []) ⊎ (update ≡ 0 ∷ 0 ∷ [])))
      ⊎ ((is_change update ≡ true) × (update ≢ []) × (update ≢ 0 ∷ 0 ∷ []))
is_change_iff [] = inl (refl, inl refl)
is_change_iff (c ∷ update) = elim (Bool-cases (is_change (c ∷ update))) [
  | inl changed ↦
      inr (
        changed,
        λ e. ground arith,
        λ e. ground (arith, changed, same_iff (c ∷ update) (0 ∷ 0 ∷ [])),
      )
  | inr kept ↦ inl (kept, inr (ground (arith, kept, same_iff (c ∷ update) (0 ∷ 0 ∷ []))))
]

module _ {D W : Type 0} where
  room_frames-report_capacity :
      (crdt : Crdt D W) (env : Surroundings) (i : Text) (l : Line D W)
      → room_frames (report_capacity crdt env i l).1 ≡ []
  unfolding report_capacity warn
  room_frames-report_capacity crdt env i l = ground arith

  -- What a message that raises nothing hands to the room is what `relay_update` makes of it.
  room_frames-handle_sync :
      (crdt : Crdt D W) (env : Surroundings) (i : Text) (payload : Bytes) (d : D) (l : Line D W)
      → (handle_sync crdt env i payload d l).2 ≡ false
      → (sent : List Sent) × (relay_update crdt env i
            (crdt.get_state d)
            (crdt.handle_sync_message (drop 1 payload) d).0
          ≡ some sent)
        × (room_frames (handle_sync crdt env i payload d l).1 ≡ room_frames sent)
  unfolding handle_sync apply_sync
  room_frames-handle_sync crdt env i payload d l quiet =
      let d' = (crdt.handle_sync_message (drop 1 payload) d).0 in
      let told = report_capacity crdt env i (record l { room = set_doc i d' l.room }) in
      elim (Option-cases (apply_sync crdt env.uuid_bytes i d payload).1) [
        | inl e ↦ absurd (ground (arith, e, quiet))
        | inr (answer, e) ↦ elim (Option-cases (relay_update crdt env i (crdt.get_state d) d')) [
          | inl e1 ↦ absurd (ground (arith, e, e1, quiet))
          | inr (sent, e1) ↦ (
            sent,
            e1,
            rw (e, e1)
                (room_frames-append (sent_reply answer) (told.1 ++ sent)
                    (room_frames-sent_reply answer)
                  ∙ room_frames-append told.1 sent (
                      room_frames-report_capacity crdt env i
                        (record l { room = set_doc i d' l.room }))),
          )
        ]
      ]

  handle_binary-eq :
      (crdt : Crdt D W) (env : Surroundings) (frame payload : Bytes) (i : Text) (d : D)
      (l : Line D W)
      → decode_frame env.uuid_text frame ≡ some (i, payload)
      → message_kind payload ≡ some sync_message
      → doc l.room.documents i ≡ some d
      → handle_binary crdt env frame l ≡ handle_sync crdt env i payload d l
  unfolding handle_binary
  handle_binary-eq crdt env frame payload i d l is_for kind there =
      ground (arith, is_for, kind, there)

  -- A binary frame with a sync message for a document of the room, in whose handling nothing
  -- raises, hands the rest of the room nothing where the update since the replica's state before is
  -- empty or the empty update of two zeros, and otherwise exactly one frame, which decodes to the
  -- document and the message of that update. The document's id is taken to be a UUID of 16 bytes
  -- whose text is the id, and no update message to be empty.
  pub handle_binary-relay_update :
      (crdt : Crdt D W) (env : Surroundings) (frame payload : Bytes) (i b : Text) (d : D)
      (l : Line D W)
      → env.uuid_bytes i ≡ some b
      → length b ≡ 16
      → env.uuid_text b ≡ i
      → ((update : Bytes) → crdt.create_update_message update ≢ [])
      → decode_frame env.uuid_text frame ≡ some (i, payload)
      → message_kind payload ≡ some sync_message
      → doc l.room.documents i ≡ some d
      → (handle_binary crdt env frame l).2 ≡ false
      → let update =
          crdt.get_update (crdt.handle_sync_message (drop 1 payload) d).0 (crdt.get_state d) in
        let relayed = room_frames (handle_binary crdt env frame l).1 in
        (((update ≡ []) ⊎ (update ≡ 0 ∷ 0 ∷ [])) × (relayed ≡ []))
        ⊎ ((update ≢ [])
            × (update ≢ 0 ∷ 0 ∷ [])
            × ((out : Bytes) × (relayed ≡ out ∷ [])
                × (decode_frame env.uuid_text out ≡ some (i, crdt.create_update_message update))))
  handle_binary-relay_update crdt env frame payload i b d l id size text full is_for kind there
        quiet =
      let d' = (crdt.handle_sync_message (drop 1 payload) d).0 in
      let update = crdt.get_update d' (crdt.get_state d) in
      let is : handle_binary crdt env frame l ≡ handle_sync crdt env i payload d l =
        handle_binary-eq crdt env frame payload i d l is_for kind there in
      let (sent, e, shown) =
        room_frames-handle_sync crdt env i payload d l
          (ap (λ (o : Line D W × List Sent × Bool). o.2) (sym is) ∙ quiet) in
      let shown' : room_frames (handle_binary crdt env frame l).1 ≡ room_frames sent =
        ap (λ (o : Line D W × List Sent × Bool). room_frames o.1) is ∙ shown in
      elim (relay_update_lem crdt env i b (crdt.get_state d) d' sent id size text full e) [
        | inl (none_sent, kept) ↦ elim (is_change_iff update) [
          | inl (c, what) ↦ inl (what, shown' ∙ ap room_frames none_sent)
          | inr (c, real, more) ↦ absurd (ground (arith, c, kept))
        ]
        | inr (out, changed, one, tells) ↦ elim (is_change_iff update) [
          | inl (c, what) ↦ absurd (ground (arith, c, changed))
          | inr (c, real, more) ↦ inr (real, more, (out, shown' ∙ ap room_frames one, tells))
        ]
      ]
