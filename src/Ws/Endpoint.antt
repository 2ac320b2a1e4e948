-- ===== src/Ws/Endpoint.antt =====
-- `websocket_endpoint` of backend/app/ws/routes.py: the receive loop of one socket. The session that
-- it drives is an interface; a send is taken to succeed, since a failing one ends the loop as a
-- disconnect does.
pub mod Log
pub mod Rounds
pub mod Laws
use ephemeral_rooms.Prelude.{
  ℕ, suc, Bool, true, false, Option, none, some, List, [], ◌∷◌, ◌++◌, if◌then◌else◌, ltb, Text,
  codes,
}
use ephemeral_rooms.Storage.FileStore.{Bytes}
use ephemeral_rooms.Rooms.CloseCode.{room_closing, protocol_abuse}
use ephemeral_rooms.Ws.Messages.{
  JoinMessage, ClientMessage, join_message, Parsed, accepted, message_too_large, invalid_message,
}

-- MAX_PROTOCOL_ERRORS
abbrev pub max_protocol_errors : ℕ
max_protocol_errors = 20

-- One `ws.receive()`; `neither` has no bytes and no text.
pub data Frame : Type 0 where
  disconnect neither : Frame
  binary : Bytes → Frame
  text : Text → Frame

-- How a handler of the session ends: `True`, `False`, or by an exception.
pub data Reply : Type 0 where
  goes_on ends raises : Reply

-- The `Session` of a socket, over its state.
pub record Session (S : Type 0) : Type 0 where
  pub parse : Text → Parsed
  pub handle_join : JoinMessage → S → S × Reply
  pub handle_message : ClientMessage → S → S × Reply
  pub handle_binary : Bytes → S → S × Reply
  pub leave : S → S

-- What the endpoint does, in order: error events by their code, what the session is given, and what
-- happens to the socket.
pub data Action : Type 0 where
  refused_frame : Text → Action
  not_joined server_error : Action
  joins : Reply → Action
  handles : ClientMessage → Action
  relays : Bytes → Action
  heartbeat_starts heartbeat_stops leaves : Action
  closes : ℕ → Action

-- The variables of the loop; `running` is over once it has been left and the `finally` is through.
pub record Loop (S : Type 0) : Type 0 where
  pub session : S
  pub joined : Bool
  pub errors : ℕ
  pub running : Bool

abbrev pub is_join : ClientMessage → Option JoinMessage
is_join (join_message m) = some m
is_join _ = none

module _ {S : Type 0} where
  unfoldable pub accept : S → Loop S
  accept s = record { session = s; joined = false; errors = 0; running = true }

  -- The `finally` block, behind what came before it.
  unfoldable pub finish : Session S → List Action → Loop S → Loop S × List Action
  finish h before l = (
    record l { session = h.leave l.session; running = false },
    before
        ++ ((if l.joined then heartbeat_stops ∷ [] else []) ++ leaves ∷ closes room_closing ∷ []),
  )

  -- What a handler's end makes of the loop.
  abbrev pub after_reply : Session S → List Action → Loop S → Reply → Loop S × List Action
  after_reply h before l goes_on = (l, before)
  after_reply h before l ends = finish h before l
  after_reply h before l raises = finish h (before ++ server_error ∷ []) l

  -- A frame that does not parse.
  unfoldable pub reject : Session S → Text → Loop S → Loop S × List Action
  unfolding finish
  reject h code l =
      let counted = record l { errors = suc l.errors } in
      let told = refused_frame code ∷ [] in
      if ltb max_protocol_errors counted.errors
      then finish h (refused_frame code ∷ closes protocol_abuse ∷ []) counted
      else (counted, told)

  -- The heartbeat starts where the session has joined.
  abbrev pub after_join : Session S → Loop S → Reply → Loop S × List Action
  after_join h l goes_on = (record l { joined = true }, joins goes_on ∷ heartbeat_starts ∷ [])
  after_join h l ends = finish h (joins ends ∷ []) l
  after_join h l raises = finish h (joins raises ∷ server_error ∷ []) l

  -- The first frame that is a join.
  unfoldable pub try_join : Session S → JoinMessage → Loop S → Loop S × List Action
  try_join h m l =
      let (s, reply) = h.handle_join m l.session in after_join h (record l { session = s }) reply

  -- A message, by whether it is a join.
  abbrev pub dispatch_as :
      Session S → ClientMessage → Option JoinMessage → Loop S → Loop S × List Action
  dispatch_as h m none l =
      let (s, reply) = h.handle_message m l.session in
      if l.joined
      then after_reply h (handles m ∷ []) (record l { session = s }) reply
      else (l, not_joined ∷ [])
  dispatch_as h m (some j) l = if l.joined then (l, []) else try_join h j l

  unfoldable pub dispatch : Session S → ClientMessage → Loop S → Loop S × List Action
  unfolding finish try_join
  dispatch h m l = dispatch_as h m (is_join m) l

  -- A text frame, by what it parses to.
  abbrev pub receive_text : Session S → Parsed → Loop S → Loop S × List Action
  receive_text h message_too_large l = reject h (codes "message_too_large") l
  receive_text h invalid_message l = reject h (codes "invalid_message") l
  receive_text h (accepted m) l = dispatch h m l

  -- One round of the loop.
  unfoldable pub step : Session S → Frame → Loop S → Loop S × List Action
  unfolding finish reject dispatch
  step h disconnect l = finish h [] l
  step h neither l = (l, [])
  step h (binary bytes) l =
      let (s, reply) = h.handle_binary bytes l.session in
      if l.joined
      then after_reply h (relays bytes ∷ []) (record l { session = s }) reply
      else (l, [])
  step h (text raw) l = receive_text h (h.parse raw) l

  -- The loop over the frames of a socket, as far as they have come.
  unfoldable pub run : Session S → List Frame → Loop S → Loop S × List Action
  unfolding step
  run h [] l = (l, [])
  run h (f ∷ frames) l =
      let (l', actions) = step h f l in
      let (l'', later) = run h frames l' in if l.running then (l'', actions ++ later) else (l, [])
