-- ===== src/Ws/Binary.antt =====
-- The binary side of a session: `_subscribe`, `handle_binary`, `_report_capacity` and `_warn` of
-- backend/app/ws/connection.py, with what they call of backend/app/collab/sync.py. pycrdt is a
-- parameter. A frame goes to this socket, or to the room without this user.
pub mod Warnings
pub mod Relay
pub mod Updates
use ephemeral_rooms.Prelude.{
  ℕ, ◌-◌, Bool, true, false, not, ◌&&◌, ◌||◌, Option, none, some, List, [], ◌∷◌, ◌++◌,
  if◌then◌else◌, ◌==◌, ltb, Text, codes, same, any, drop,
}
use ephemeral_rooms.Prelude.Int.{ℤ}
use ephemeral_rooms.Config.{Settings}
use ephemeral_rooms.Dict.{Dict, get, put, alter}
use ephemeral_rooms.Storage.FileStore.{Bytes}
use ephemeral_rooms.Storage.Memory.{Guard, under_pressure}
use ephemeral_rooms.Collab.Registry.{doc, contains, text_length}
use ephemeral_rooms.Collab.Sync.{encode_frame, decode_frame, message_kind, sync_message}
use ephemeral_rooms.Rooms.Instance.State.{Room, is_empty}

-- What pycrdt does. A document or an awareness that is handed over may be changed in place, whether
-- the call raises or not: `none` and `false` say that it raised.
pub record Crdt (D W : Type 0) : Type 0 where
  pub get_state : D → Bytes
  pub get_update : D → Bytes → Bytes
  pub text_of : D → Text
  pub create_sync_message : D → Bytes
  pub handle_sync_message : Bytes → D → D × Option (Option Bytes)
  pub create_update_message : Bytes → Bytes
  pub new_awareness : D → W
  pub client_ids : W → List ℕ
  pub awareness_message : W → List ℕ → Bytes
  pub apply_awareness_update : Bytes → W → W × Bool

-- What a call reads: Python's `uuid`, the two clocks, and the memory provider's figure.
pub record Surroundings : Type 0 where
  pub cfg : Settings
  pub uuid_bytes : Text → Option Bytes
  pub uuid_text : Bytes → Text
  pub valid : Text → Bool
  pub now : ℕ
  pub monotonic : ℕ
  pub reading : ℤ

-- The session's own state: the documents that it has asked for, and when it was last warned.
pub record Peer : Type 0 where
  pub subscribed : List Text
  pub warned_at : Dict ℕ

pub data Sent : Type 0 where
  to_peer to_room : Bytes → Sent
  warning : Text → Sent
  no_document : Sent

-- `set.add`
abbrev pub add_text : Text → List Text → List Text
add_text t set = if any (λ k. same k t) set then set else t ∷ set

-- CAPACITY_WARNING_INTERVAL_MS
abbrev pub capacity_warning_interval : ℕ
capacity_warning_interval = 30000

-- `_warn(code, …)`
unfoldable pub warn : Text → ℕ → Dict ℕ → Dict ℕ × List Sent
warn code now warned = elim (get warned code) [
  | none ↦ (put warned code now, warning code ∷ [])
  | some last ↦
      if ltb (now - last) capacity_warning_interval
      then (warned, [])
      else (put warned code now, warning code ∷ [])
]

abbrev pub document_too_large : Text
document_too_large = codes "document_too_large"

abbrev pub low_memory : Text
low_memory = codes "low_memory"

-- `apply_sync`: the document, and the reply, if any; `none` is an exception.
unfoldable pub apply_sync :
    {D W : Type 0} → Crdt D W → (Text → Option Bytes) → Text → D → Bytes → D × Option (Option Bytes)
apply_sync crdt uuid_bytes document_id d payload =
    let (d', reply) = crdt.handle_sync_message (drop 1 payload) d in
    (
      d',
      elim reply [
        | none ↦ none
        | some none ↦ some none
        | some (some message) ↦ elim (encode_frame uuid_bytes document_id message) [
          | none ↦ none
          | some frame ↦ some (some frame)
        ]
      ],
    )

-- `if update and update != b"\x00\x00"`
abbrev pub is_change : Bytes → Bool
is_change update = not (is_empty update) && not (same update (0 ∷ 0 ∷ []))

abbrev pub sent_reply : Option Bytes → List Sent
sent_reply none = []
sent_reply (some frame) = to_peer frame ∷ []

-- The awareness states that a new subscriber is shown, if there are any.
unfoldable pub awareness_frame :
    {D W : Type 0} → Crdt D W → (Text → Option Bytes) → Text → W → List ℕ → Option Bytes
awareness_frame crdt uuid_bytes document_id awareness client_ids =
    if is_empty client_ids
    then none
    else encode_frame uuid_bytes document_id (crdt.awareness_message awareness client_ids)

-- The room, the session and the memory guard.
pub record Line (D W : Type 0) : Type 0 where
  pub room : Room D W
  pub peer : Peer
  pub guard : Guard

module _ {D W : Type 0} where
  unfoldable pub report_capacity : Crdt D W → Surroundings → Text → Line D W → Line D W × List Sent
  report_capacity crdt env document_id l =
      let (large_at, large) = warn document_too_large env.now l.peer.warned_at in
      let (low_at, low) = warn low_memory env.now l.peer.warned_at in
      let (guard', pressed) = under_pressure env.monotonic env.reading l.guard in
      if ltb 0 env.cfg.max_doc_bytes
        && ltb env.cfg.max_doc_bytes (text_length crdt.text_of l.room.documents document_id)
      then (record l { peer = record l.peer { warned_at = large_at } }, large)
      else if pressed
      then (record l { peer = record l.peer { warned_at = low_at }; guard = guard' }, low)
      else (record l { guard = guard' }, [])

  -- The replica of a document after pycrdt had it.
  abbrev pub set_doc : Text → D → Room D W → Room D W
  set_doc document_id d r = record r {
    documents = record r.documents { docs = alter (λ _. d) document_id r.documents.docs };
  }

  -- `room.awareness[document_id]`, made where it is missing.
  abbrev pub awareness_of : Crdt D W → Text → D → Room D W → W
  awareness_of crdt document_id d r = elim (get r.awareness document_id) [
    | none ↦ crdt.new_awareness d
    | some w ↦ w
  ]

  -- The relay of what a frame has changed.
  unfoldable pub relay_update : Crdt D W → Surroundings → Text → Bytes → D → Option (List Sent)
  relay_update crdt env document_id before d =
      let update = crdt.get_update d before in
      if is_change update
      then elim (encode_frame env.uuid_bytes document_id (crdt.create_update_message update)) [
        | none ↦ none
        | some frame ↦ some (to_room frame ∷ [])
      ]
      else some []

  -- A SYNC message. The flag is whether an exception leaves the handler.
  unfoldable pub handle_sync :
      Crdt D W → Surroundings → Text → Bytes → D → Line D W → Line D W × List Sent × Bool
  handle_sync crdt env document_id payload d l =
      let (d', reply) = apply_sync crdt env.uuid_bytes document_id d payload in
      let applied = record l { room = set_doc document_id d' l.room } in
      let (reported, warned) = report_capacity crdt env document_id applied in
      elim reply [
        | none ↦ (applied, [], true)
        | some answer ↦ elim (relay_update crdt env document_id (crdt.get_state d) d') [
          | none ↦ (reported, sent_reply answer ++ warned, true)
          | some relayed ↦ (reported, sent_reply answer ++ (warned ++ relayed), false)
        ]
      ]

  -- An AWARENESS message, relayed as it came.
  unfoldable pub handle_awareness :
      Crdt D W → Text → Bytes → Bytes → D → Line D W → Line D W × List Sent × Bool
  handle_awareness crdt document_id frame payload d l =
      let (w, ok) =
        crdt.apply_awareness_update (drop 1 payload) (awareness_of crdt document_id d l.room) in
      let l' = record l {
        room = record l.room { awareness = put l.room.awareness document_id w };
      } in
      (l', if ok then to_room frame ∷ [] else [], false)

  unfoldable pub handle_binary :
      Crdt D W → Surroundings → Bytes → Line D W → Line D W × List Sent × Bool
  handle_binary crdt env frame l = elim (decode_frame env.uuid_text frame) [
    | none ↦ (l, [], false)
    | some (document_id, payload) ↦ elim (message_kind payload) [
      | none ↦ (l, [], false)
      | some kind ↦ elim (doc l.room.documents document_id) [
        | none ↦ (l, [], false)
        | some d ↦
            if kind == sync_message
            then handle_sync crdt env document_id payload d l
            else handle_awareness crdt document_id frame payload d l
      ]
    ]
  ]

  -- The frames for a new subscriber; the second one goes where there are states to show.
  abbrev pub subscription : Crdt D W → Surroundings → Text → D → Room D W → List Sent × Bool
  subscription crdt env document_id d r =
      let first = encode_frame env.uuid_bytes document_id (crdt.create_sync_message d) in
      elim first [
        | none ↦ ([], true)
        | some frame ↦ elim (get r.awareness document_id) [
          | none ↦ (to_peer frame ∷ [], false)
          | some w ↦
              let states = awareness_frame crdt env.uuid_bytes document_id w (crdt.client_ids w) in
              (to_peer frame ∷ sent_reply states, false)
        ]
      ]

  unfoldable pub subscribe : Crdt D W → Surroundings → Text → Line D W → Line D W × List Sent × Bool
  subscribe crdt env document_id l =
      if not (env.valid document_id) || not (contains l.room.documents document_id)
      then (l, no_document ∷ [], false)
      else elim (doc l.room.documents document_id) [
        | none ↦ (l, [], false)
        | some d ↦
            let (sent, failed) = subscription crdt env document_id d l.room in
            let peer' = record l.peer { subscribed = add_text document_id l.peer.subscribed } in
            (record l { peer = peer' }, sent, failed)
      ]
