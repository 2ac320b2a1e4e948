-- ===== src/Tests/Sockets.antt =====
-- Examples of a socket: its binary frames, its warnings, its heartbeat and its receive loop.
use ephemeral_rooms.Prelude.{
  ℕ, ◌+◌, ◌≤◌, ◌<◌, ◌≡◌, ◌≢◌, ◌⊎◌, refl, true, none, some, List, [], ◌∷◌, ◌++◌, if◌then◌else◌, same,
  arith,
}
use ephemeral_rooms.Prelude.Int.{pos}
use ephemeral_rooms.Dict.{get, values}
use ephemeral_rooms.Storage.FileStore.{Bytes}
use ephemeral_rooms.Storage.Memory.{new_guard}
use ephemeral_rooms.Collab.Registry.{new_registry, doc}
use ephemeral_rooms.Rooms.Instance.State.{new_room}
use ephemeral_rooms.Collab.Sync.{decode_frame, encode_frame, message_kind}
use ephemeral_rooms.Ws.Binary.{
  Crdt, Surroundings, Line, relay_update, handle_binary, handle_sync, apply_sync, report_capacity,
  low_memory, document_too_large,
}
use ephemeral_rooms.Ws.Binary.Relay.{Edits, handle_binary-Edits}
use ephemeral_rooms.Ws.Binary.Updates.{room_frames, handle_binary-relay_update}
use ephemeral_rooms.Ws.Binary.Warnings.{said, AreSpaced, said-AreSpaced}
use ephemeral_rooms.Ws.Heartbeat.{Peer, loop, timed_out}
use ephemeral_rooms.Ws.Heartbeat
use ephemeral_rooms.Ws.Heartbeat.{IsSilent, loop_terminates}
use ephemeral_rooms.Config.Validation.{IsSane}
use ephemeral_rooms.Ws.Messages.{accepted, invalid_message, pong_message, join_message}
use ephemeral_rooms.Ws.Endpoint.{Session, Frame, binary, neither, goes_on, ends, accept, run}
use ephemeral_rooms.Ws.Endpoint.Laws.{Logged, accept-Logged}
use ephemeral_rooms.Ws.Events.{presence, snapshot_json, user_joined, user_left, user_updated}
use ephemeral_rooms.Ws.Events.Privacy.{with_token, retoken, presence-retoken}
use ephemeral_rooms.Tests.{cfg, an_instance, a_code}
use ephemeral_rooms.Tests.Rooms.{with_alice, alice_user}
use ephemeral_rooms.Tests.Sessions.{sixteen}

-- A document is the bytes of its updates; pycrdt that appends what it is sent.
abbrev crdt : Crdt (List ℕ) (Unit {0})
crdt = record {
  get_state = λ d. d;
  get_update = λ d before. if same d before then [] else d;
  text_of = λ d. d;
  create_sync_message = λ d. 0 ∷ 0 ∷ d;
  handle_sync_message = λ message d. (d ++ message, some none);
  create_update_message = λ update. 0 ∷ 2 ∷ update;
  new_awareness = λ d. tt;
  client_ids = λ w. [];
  awareness_message = λ w ids. [];
  apply_awareness_update = λ payload w. (w, true);
}

abbrev around : Surroundings
around = record {
  cfg = cfg;
  uuid_bytes = λ t. some t;
  uuid_text = λ b. b;
  valid = λ t. true;
  now = 7;
  monotonic = 7;
  reading = pos 30;
}

said-AreSpaced_example : AreSpaced none (
    said low_memory
      ((low_memory, 5) ∷ (document_too_large, 6) ∷ (low_memory, 7) ∷ (low_memory, 40000) ∷ [])
      [])
unfolding get
said-AreSpaced_example =
    said-AreSpaced low_memory
      ((low_memory, 5) ∷ (document_too_large, 6) ∷ (low_memory, 7) ∷ (low_memory, 40000) ∷ []) []

-- A user that answered at 5 and never again.
abbrev silent : Heartbeat.Peer
silent = record { is_open = λ t. true; last_pong_at = λ t. 5; sends = λ t. true }

cfg-IsSane : IsSane cfg
cfg-IsSane = record {
  somebody = omega arith;
  some_room = omega arith;
  codes_suffice = omega arith;
  pongs_in_time = omega arith;
  ticks = omega arith;
  reconnects = omega arith;
  lingers = omega arith;
  some_name = omega arith;
  rechecks = omega arith;
  goes_stale = omega arith;
}

silent-IsSilent : IsSilent silent 5
silent-IsSilent = record { stays_open = λ t. refl; writable = λ t. refl; quiet = λ t. refl }

loop_terminates_example : (t : ℕ) × ((loop 51 cfg silent 8).1 ≡ timed_out t) × (55 < t) × (t ≤ 75)
loop_terminates_example =
    loop_terminates cfg silent 8 5 silent-IsSilent cfg-IsSane (omega arith) (omega arith)

-- A session that counts what it is given, and takes an empty text for a pong and 1 for a join.
abbrev a_session : Session ℕ
a_session = record {
  parse = λ t.
      if same t []
      then accepted pong_message
      else if same t (1 ∷ [])
      then accepted (join_message (record { room_code = a_code; session_token = none }))
      else invalid_message;
  handle_join = λ m n. (n + 1, goes_on);
  handle_message = λ m n. (n + 1, ends);
  handle_binary = λ b n. (n + 1, goes_on);
  leave = λ n. 0;
}

accept-Logged_example : Logged (accept 0) (
    run a_session
      (Frame.text (2 ∷ [])
        ∷ binary []
        ∷ Frame.text (1 ∷ [])
        ∷ binary []
        ∷ Frame.text []
        ∷ neither
        ∷ [])
      (accept 0))
accept-Logged_example =
    accept-Logged a_session
      (Frame.text (2 ∷ [])
        ∷ binary []
        ∷ Frame.text (1 ∷ [])
        ∷ binary []
        ∷ Frame.text []
        ∷ neither
        ∷ [])
      0

presence-retoken_example :
    (presence (λ t. t) (values (retoken (λ t. 9 ∷ t) with_alice.users))
      ≡ presence (λ t. t) (values with_alice.users))
    × (snapshot_json (record with_alice { users = retoken (λ t. 9 ∷ t) with_alice.users })
        ≡ snapshot_json with_alice)
    × (user_joined (λ t. t) (with_token (8 ∷ []) alice_user) ≡ user_joined (λ t. t) alice_user)
    × (user_left (with_token (8 ∷ []) alice_user) ≡ user_left alice_user)
    × (user_updated (with_token (8 ∷ []) alice_user) 3 ≡ user_updated alice_user 3)
presence-retoken_example = presence-retoken (λ t. t) (λ t. 9 ∷ t) with_alice alice_user (8 ∷ []) 3

-- A room with one document, and a socket of it.
abbrev a_line : Line (List ℕ) (Unit {0})
a_line = record {
  room = record (new_room a_code an_instance 0) {
    documents = record new_registry { docs = (sixteen, 5 ∷ []) ∷ [] };
  };
  peer = record { subscribed = []; warned_at = [] };
  guard = new_guard 10 2;
}

handle_binary-Edits_example :
    Edits sixteen a_line.room
      (handle_binary crdt around (1 ∷ sixteen ++ 0 ∷ 2 ∷ 5 ∷ []) a_line).0.room
unfolding decode_frame
handle_binary-Edits_example =
    handle_binary-Edits crdt around (1 ∷ sixteen ++ 0 ∷ 2 ∷ 5 ∷ []) (0 ∷ 2 ∷ 5 ∷ []) sixteen a_line
      refl

-- What the room is told once the document has taken a message.
abbrev the_update : Bytes
the_update = 5 ∷ 2 ∷ 5 ∷ []

handle_binary-relay_update_example :
    let relayed =
      room_frames (handle_binary crdt around (1 ∷ sixteen ++ 0 ∷ 2 ∷ 5 ∷ []) a_line).1 in
    (((the_update ≡ []) ⊎ (the_update ≡ 0 ∷ 0 ∷ [])) × (relayed ≡ []))
    ⊎ ((the_update ≢ [])
        × (the_update ≢ 0 ∷ 0 ∷ [])
        × ((out : Bytes) × (relayed ≡ out ∷ [])
            × (decode_frame (λ b. b) out ≡ some (sixteen, 0 ∷ 2 ∷ the_update))))
unfolding decode_frame message_kind doc handle_binary handle_sync apply_sync report_capacity
    relay_update encode_frame same get
handle_binary-relay_update_example =
    handle_binary-relay_update crdt around (1 ∷ sixteen ++ 0 ∷ 2 ∷ 5 ∷ []) (0 ∷ 2 ∷ 5 ∷ []) sixteen
      sixteen (5 ∷ []) a_line refl refl refl (λ update e. ground arith) refl refl refl refl
