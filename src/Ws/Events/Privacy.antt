-- ===== src/Ws/Events/Privacy.antt =====
-- Session tokens and the events of backend/app/ws/events.py: what is told of other users does not
-- depend on their tokens.
use ephemeral_rooms.Prelude.{ℕ, ◌≡◌, refl, [], ◌∷◌, map, Text}
use ephemeral_rooms.Dict.{Dict, values}
use ephemeral_rooms.Rooms.Types.{User}
use ephemeral_rooms.Rooms.Instance.State.{Room}
use ephemeral_rooms.Ws.Events.{
  dict, user_fields, presence_of, snapshot_json, user_joined, user_left, user_updated, presence,
}

abbrev pub with_token : Text → User → User
with_token token u = record u { session_token = token }

-- Other tokens, by the user's id.
abbrev pub retoken : (Text → Text) → Dict User → Dict User
retoken f [] = []
retoken f ((k, u) ∷ users) = (k, with_token (f k) u) ∷ retoken f users

map-retoken :
    {A : Type 0} (g : User → A) (f : Text → Text) (users : Dict User)
    → ((token : Text) (u : User) → g (with_token token u) ≡ g u)
    → map g (values (retoken f users)) ≡ map g (values users)
unfolding values
map-retoken g f [] blind = refl
map-retoken g f ((k, u) ∷ users) blind = λ i. blind (f k) u i ∷ map-retoken g f users blind i

module _ {D W : Type 0} where
  -- The presence list, the snapshot of a room and the events about a user are the same whatever the
  -- users' session tokens are: no token is told to others.
  pub presence-retoken :
      (color : Text → Text) (f : Text → Text) (r : Room D W) (u : User) (token : Text) (seq : ℕ)
      → let r' = record r { users = retoken f r.users } in
        let u' = with_token token u in
        (presence color (values r'.users) ≡ presence color (values r.users))
        × (snapshot_json r' ≡ snapshot_json r)
        × (user_joined color u' ≡ user_joined color u)
        × (user_left u' ≡ user_left u)
        × (user_updated u' seq ≡ user_updated u seq)
  unfolding presence snapshot_json user_joined user_left user_updated
  presence-retoken color f r u token seq = (
    rw (map-retoken (presence_of color) f r.users λ t v. refl) refl,
    rw (map-retoken (λ v. dict (user_fields v)) f r.users λ t v. refl) refl,
    refl,
    refl,
    refl,
  )
