-- ===== src/Ws/Endpoint/Rounds.antt =====
-- One round of the receive loop of backend/app/ws/routes.py: what it does and what it leaves.
use ephemeral_rooms.Prelude.{
  suc, ◌+◌, ◌≤◌, ◌≡◌, inl, inr, refl, true, false, Option, none, some, List, [], ◌∷◌, ◌++◌, Text,
  arith, subst, sym, Bool-cases, ltb, if◌then◌else◌,
}
use mathlib.Core.List.{append_assoc}
use ephemeral_rooms.Rooms.CloseCode.{room_closing, protocol_abuse}
use ephemeral_rooms.Ws.Messages.{
  JoinMessage, ClientMessage, Parsed, accepted, message_too_large, invalid_message,
}
use ephemeral_rooms.Ws.Endpoint.{
  Frame, disconnect, neither, binary, text, Reply, goes_on, ends, raises, Session, Action,
  refused_frame, not_joined, server_error, joins, handles, relays, heartbeat_starts,
  heartbeat_stops, leaves, closes, Loop, finish, after_reply, reject, after_join, try_join,
  dispatch_as, receive_text, dispatch, step, is_join, max_protocol_errors,
}
use ephemeral_rooms.Ws.Endpoint.Log.{
  IsOrderly, is_refused, is_leave, count, count-append, ending-counts, ending-IsOrderly,
}

module _ {S : Type 0} where
  -- One round: what it adds to the log, and where it leaves the loop.
  pub record Round (l : Loop S) (o : Loop S × List Action) : Type 0 where
    pub orderly : (log : List Action) → IsOrderly o.0.joined log → IsOrderly l.joined (o.1 ++ log)
    pub errors : o.0.errors ≡ l.errors + count is_refused o.1
    pub few : o.0.errors ≤ suc max_protocol_errors
    pub abused : o.0.running ≡ true → o.0.errors ≤ max_protocol_errors
    pub left : count is_leave o.1 ≡ (if o.0.running then 0 else 1)

  -- What a log must have for `Round` before the `finally` block is added, or nothing is.
  record Before (l0 l : Loop S) (before : List Action) : Type 0 where
    pub orderly : (log : List Action) → IsOrderly l.joined log → IsOrderly l0.joined (before ++ log)
    pub errors : l.errors ≡ l0.errors + count is_refused before
    pub few : l.errors ≤ suc max_protocol_errors
    pub stays : count is_leave before ≡ 0

  finish-Round :
      (h : Session S) (before : List Action) (l0 l : Loop S)
      → Before l0 l before
      → Round l0 (finish h before l)
  unfolding finish
  finish-Round h before l0 l b =
      let ending =
        (if l.joined then heartbeat_stops ∷ [] else []) ++ leaves ∷ closes room_closing ∷ [] in
      let (none_refused, one_leave) = ending-counts l.joined in
      record {
        orderly = λ log o.
            subst (IsOrderly l0.joined) (sym (append_assoc before ending log))
              (b.orderly (ending ++ log) (ending-IsOrderly l.joined log o));
        errors = omega (arith, b.errors, count-append is_refused before ending, none_refused);
        few = b.few;
        abused = λ e. absurd (ground arith);
        left = omega (arith, b.stays, count-append is_leave before ending, one_leave);
      }

  stay-Round :
      (before : List Action) (l0 l : Loop S)
      → Before l0 l before
      → l.running ≡ true
      → l.errors ≤ max_protocol_errors
      → Round l0 (l, before)
  stay-Round before l0 l b going few = record {
    orderly = b.orderly;
    errors = b.errors;
    few = b.few;
    abused = λ e. few;
    left = ground (arith, b.stays, going);
  }

  after_reply-Round :
      (h : Session S) (before : List Action) (l0 l : Loop S) (reply : Reply)
      → Before l0 l before
      → l.running ≡ true
      → l.errors ≤ max_protocol_errors
      → Round l0 (after_reply h before l reply)
  after_reply-Round h before l0 l goes_on b going few = stay-Round before l0 l b going few
  after_reply-Round h before l0 l ends b going few = finish-Round h before l0 l b
  after_reply-Round h before l0 l raises b going few =
      finish-Round h (before ++ server_error ∷ []) l0 l (record {
        orderly = λ log o.
            subst (IsOrderly l0.joined) (sym (append_assoc before (server_error ∷ []) log))
              (b.orderly (server_error ∷ log) o);
        errors = omega (arith, b.errors, count-append is_refused before (server_error ∷ []));
        few = b.few;
        stays = omega (arith, b.stays, count-append is_leave before (server_error ∷ []));
      })

  reject-Round :
      (h : Session S) (code : Text) (l : Loop S)
      → l.running ≡ true
      → l.errors ≤ max_protocol_errors
      → Round l (reject h code l)
  unfolding reject
  reject-Round h code l going few = elim (Bool-cases (ltb max_protocol_errors (suc l.errors))) [
    | inl over ↦ rw over (
        finish-Round h (refused_frame code ∷ closes protocol_abuse ∷ []) l
          (record l { errors = suc l.errors })
          (record { orderly = λ log o. o; errors = omega arith; few = omega arith; stays = refl }))
    | inr within ↦ rw within (
        stay-Round (refused_frame code ∷ []) l (record l { errors = suc l.errors })
          (record { orderly = λ log o. o; errors = omega arith; few = omega arith; stays = refl })
          going (ground arith))
  ]

  after_join-Round :
      (h : Session S) (l0 l : Loop S) (reply : Reply)
      → l0.joined ≡ false
      → l.joined ≡ l0.joined
      → l.errors ≡ l0.errors
      → l.running ≡ true
      → l.errors ≤ max_protocol_errors
      → Round l0 (after_join h l reply)
  after_join-Round h l0 l goes_on out kept same going few =
      stay-Round (joins goes_on ∷ heartbeat_starts ∷ []) l0 (record l { joined = true })
        (record {
          orderly = λ log o. (out, (refl, o));
          errors = omega arith;
          few = omega arith;
          stays = refl;
        })
        going few
  after_join-Round h l0 l ends out kept same going few =
      finish-Round h (joins ends ∷ []) l0 l (record {
        orderly = λ log o. (out, subst (λ b. IsOrderly b log) kept o);
        errors = omega arith;
        few = omega arith;
        stays = refl;
      })
  after_join-Round h l0 l raises out kept same going few =
      finish-Round h (joins raises ∷ server_error ∷ []) l0 l (record {
        orderly = λ log o. (out, subst (λ b. IsOrderly b log) kept o);
        errors = omega arith;
        few = omega arith;
        stays = refl;
      })

  dispatch_as-Round :
      (h : Session S) (m : ClientMessage) (j : Option JoinMessage) (l : Loop S)
      → l.running ≡ true
      → l.errors ≤ max_protocol_errors
      → Round l (dispatch_as h m j l)
  dispatch_as-Round h m none l going few = elim (Bool-cases l.joined) [
    | inl inside ↦ rw inside (
        after_reply-Round h (handles m ∷ []) (record l { joined = true })
          (record l { session = (h.handle_message m l.session).0; joined = true })
          (h.handle_message m l.session).1
          (record {
            orderly = λ log o. (refl, o);
            errors = omega arith;
            few = omega arith;
            stays = refl;
          })
          going few)
    | inr outside ↦ rw outside (
        stay-Round (not_joined ∷ []) (record l { joined = false }) (record l { joined = false })
          (record { orderly = λ log o. o; errors = omega arith; few = omega arith; stays = refl })
          going few)
  ]
  dispatch_as-Round h m (some j) l going few = elim (Bool-cases l.joined) [
    | inl inside ↦ rw inside (
        stay-Round [] (record l { joined = true }) (record l { joined = true })
          (record { orderly = λ log o. o; errors = omega arith; few = omega arith; stays = refl })
          going few)
    | inr outside ↦ rw outside (
        unfold try_join in
        after_join-Round h (record l { joined = false })
          (record l { session = (h.handle_join j l.session).0; joined = false })
          (h.handle_join j l.session).1 refl refl refl going few)
  ]

  receive_text-Round :
      (h : Session S) (p : Parsed) (l : Loop S)
      → l.running ≡ true
      → l.errors ≤ max_protocol_errors
      → Round l (receive_text h p l)
  unfolding dispatch
  receive_text-Round h message_too_large l going few = reject-Round h _ l going few
  receive_text-Round h invalid_message l going few = reject-Round h _ l going few
  receive_text-Round h (accepted m) l going few = dispatch_as-Round h m (is_join m) l going few

  pub step-Round :
      (h : Session S) (f : Frame) (l : Loop S)
      → l.running ≡ true
      → l.errors ≤ max_protocol_errors
      → Round l (step h f l)
  unfolding step
  step-Round h disconnect l going few =
      finish-Round h [] l l
        (record { orderly = λ log o. o; errors = omega arith; few = omega arith; stays = refl })
  step-Round h neither l going few =
      stay-Round [] l l
        (record { orderly = λ log o. o; errors = omega arith; few = omega arith; stays = refl })
        going few
  step-Round h (binary bytes) l going few = elim (Bool-cases l.joined) [
    | inl inside ↦ rw inside (
        after_reply-Round h (relays bytes ∷ []) (record l { joined = true })
          (record l { session = (h.handle_binary bytes l.session).0; joined = true })
          (h.handle_binary bytes l.session).1
          (record {
            orderly = λ log o. (refl, o);
            errors = omega arith;
            few = omega arith;
            stays = refl;
          })
          going few)
    | inr outside ↦ rw outside (
        stay-Round [] (record l { joined = false }) (record l { joined = false })
          (record { orderly = λ log o. o; errors = omega arith; few = omega arith; stays = refl })
          going few)
  ]
  step-Round h (text raw) l going few = receive_text-Round h (h.parse raw) l going few
