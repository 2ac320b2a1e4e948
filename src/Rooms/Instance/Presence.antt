-- ===== src/Rooms/Instance/Presence.antt =====
-- Who is connected, over the dict of a room's users, and the dict entry of a session token.
use ephemeral_rooms.Prelude.{
  ◌≡◌, ◌≢◌, refl, true, false, some, List, [], ◌∷◌, arith, Text, same_iff, is_some, keep,
}
use ephemeral_rooms.Dict.{Dict, get, pop, alter, values}
use ephemeral_rooms.Dict.Distinct.{Distinct}
use ephemeral_rooms.Rooms.Types.{User, is_connected}
use ephemeral_rooms.Rooms.Instance.State.{find_token_in}

abbrev pub connected_in : Dict User → List User
connected_in d = keep is_connected (values d)

-- With nobody connected, each user is disconnected.
pub connected_in_none :
    (d : Dict User) (k : Text) (u : User)
    → connected_in d ≡ []
    → get d k ≡ some u
    → is_connected u ≡ false
unfolding values get
connected_in_none [] k u h e = ground arith
connected_in_none ((j, w) ∷ d) k u h e = ground (arith, connected_in_none d k u)

-- A connected user makes the list non-empty.
pub connected_in-some :
    (d : Dict User) (k : Text) (u : User)
    → get d k ≡ some u
    → is_connected u ≡ true
    → connected_in d ≢ []
connected_in-some d k u e c = λ h. ground (arith, connected_in_none d k u h e)

pub connected_in-pop :
    (d : Dict User) (k : Text) → connected_in d ≡ [] → connected_in (pop d k) ≡ []
unfolding values pop
connected_in-pop [] k h = refl
connected_in-pop ((j, w) ∷ d) k h = ground (arith, connected_in-pop d k)

pub connected_in-alter :
    (f : User → User) (k : Text) (d : Dict User)
    → ((u : User) → is_connected (f u) ≡ false)
    → connected_in d ≡ []
    → connected_in (alter f k d) ≡ []
unfolding values alter
connected_in-alter f k [] off h = refl
connected_in-alter f k ((j, w) ∷ d) off h = ground (arith, off w, connected_in-alter f k d off)

-- What a token finds is an entry of the dict, and it holds the token.
pub find_token_in_sound :
    (d : Dict User) (t k : Text) (u : User)
    → Distinct d
    → find_token_in d t ≡ some (k, u)
    → (get d k ≡ some u) × (u.session_token ≡ t)
unfolding find_token_in get
find_token_in_sound [] t k u dis h = ground arith
find_token_in_sound ((j, w) ∷ d) t k u dis h =
    ground (arith, same_iff w.session_token t, same_iff j k, find_token_in_sound d t k u dis.1)

-- A token that some user holds finds an entry.
pub find_token_in_complete :
    (d : Dict User) (k : Text) (u : User)
    → get d k ≡ some u
    → is_some (find_token_in d u.session_token) ≡ true
unfolding find_token_in get
find_token_in_complete [] k u h = ground arith
find_token_in_complete ((j, w) ∷ d) k u h =
    ground (arith, same_iff w.session_token u.session_token, find_token_in_complete d k u)
