-- ===== src/Ws/Joining.antt =====
-- `Session.handle_join` of backend/app/ws/connection.py: from a join message to a user in a room.
-- The arguments are what the call draws: codes, instance ids for a first and a second lookup, the
-- user's identifiers, and the id of a first document.
pub mod Laws
use ephemeral_rooms.Prelude.{
  ℕ, Bool, false, ◌&&◌, Option, none, some, [], ◌∷◌, if◌then◌else◌, ◌==◌, Text,
}
use ephemeral_rooms.Config.{Settings}
use ephemeral_rooms.Dict.{get, alter}
use ephemeral_rooms.Collab.Registry.{create, size}
use ephemeral_rooms.Rooms.Types.{User}
use ephemeral_rooms.Rooms.Instance.State.{Room}
use ephemeral_rooms.Rooms.Instance.Join.{Fresh, JoinOutcome, joined, not_joinable, room_full, join}
use ephemeral_rooms.Rooms.Manager.{Manager, get_or_create}

-- `unhandled` is an exception that leaves the handler: the second lookup or join failed as well.
pub data JoinReply : Type 0 where
  entered : Text → User → Bool → Bool → JoinReply
  at_capacity full unhandled : JoinReply

pub record Draws (D : Type 0) : Type 0 where
  pub codes : ℕ → ℕ
  pub instance_id : Text
  pub second_instance_id : Text
  pub fresh : Fresh
  pub document_id : Text
  pub new_doc : D

-- "untitled.txt"
abbrev pub first_document : Text
first_document = 117 ∷ 110 ∷ 116 ∷ 105 ∷ 116 ∷ 108 ∷ 101 ∷ 100 ∷ 46 ∷ 116 ∷ 120 ∷ 116 ∷ []

module _ {D W : Type 0} where
  -- A room always opens with something to type in.
  unfoldable pub open_document : D → Text → ℕ → Room D W → Room D W
  unfolding create size
  open_document new_doc document_id now r =
      if size r.documents == 0
      then record r { documents = (create new_doc document_id first_document now r.documents).0 }
      else r

  -- The rest of the handler once the room has answered; `none` is `RoomNotJoinableError`.
  unfoldable pub enter :
      Draws D
      → ℕ
      → Text
      → Bool
      → Room D W × JoinOutcome
      → Manager D W
      → Manager D W × Option JoinReply
  unfolding open_document
  enter d now i created (r, joined u resumed close) m =
      let opened = open_document d.new_doc d.document_id now r in
      (
        record m {
          instances = alter (λ _. record opened { created_by_url_visit = false }) i m.instances;
        },
        some (entered i u resumed (created && opened.created_by_url_visit)),
      )
  enter d now i created (r, room_full) m =
      (record m { instances = alter (λ _. r) i m.instances }, some full)
  enter d now i created (r, not_joinable) m = (m, none)

  -- `room.join(…)` on the instance that the lookup gave.
  unfoldable pub attempt :
      (ℕ → Bool)
      → Settings
      → Draws D
      → ℕ
      → ℕ
      → Option Text
      → Text
      → Bool
      → Manager D W
      → Manager D W × Option JoinReply
  unfolding enter join
  attempt is_open cfg d now conn token i created m = elim (get m.instances i) [
    | none ↦ (m, some unhandled)
    | some r ↦ enter d now i created (join is_open cfg now d.fresh conn token none r) m
  ]

  -- The second lookup and join, whose refusals are not caught.
  unfoldable pub retry :
      (ℕ → Bool)
      → Settings
      → Draws D
      → ℕ
      → ℕ
      → Option Text
      → Text
      → Manager D W
      → Manager D W × JoinReply
  unfolding attempt get_or_create
  retry is_open cfg d now conn token code m =
      elim (get_or_create cfg d.codes d.second_instance_id now code m) [
        | none ↦ (m, unhandled)
        | some (m', i, created) ↦
            let (m'', reply) = attempt is_open cfg d now conn token i created m' in
            elim reply [
              | some (entered j u resumed was_created) ↦ (m'', entered j u resumed was_created)
              | _ ↦ (m'', unhandled)
            ]
      ]

  unfoldable pub handle_join :
      (ℕ → Bool)
      → Settings
      → Draws D
      → ℕ
      → ℕ
      → Option Text
      → Text
      → Manager D W
      → Manager D W × JoinReply
  unfolding attempt retry get_or_create
  handle_join is_open cfg d now conn token code m =
      elim (get_or_create cfg d.codes d.instance_id now code m) [
        | none ↦ (m, at_capacity)
        | some (m', i, created) ↦
            let (m'', reply) = attempt is_open cfg d now conn token i created m' in
            let again = retry is_open cfg d now conn token code m'' in
            elim reply [ none ↦ again | some answer ↦ (m'', answer) ]
      ]
