-- ===== src/Rooms/Manager/Steps.antt =====
-- The life of the manager of backend/app/rooms/manager.py as a step relation: rooms are created and
-- visited, live, lapse, are forced to close, and are cleaned up, in any order.
use ephemeral_rooms.Prelude.{ℕ, ◌≡◌, ◌≢◌, Bool, true, Option, none, some, Text, arith, any, same}
use ephemeral_rooms.Config.{Settings}
use ephemeral_rooms.Dict.{get, put}
use ephemeral_rooms.Storage.FileStore.{FileTree}
use ephemeral_rooms.Rooms.Instance.State.{
  Room, is_joinable, cancel_empty_grace, maybe_start_empty_grace,
}
use ephemeral_rooms.Rooms.Instance.Depart.{
  Fired, nothing, fire, mark_disconnected, drop_connection, remove_user, run_callback,
  remove_lapsed, on_empty_grace_elapsed,
}
use ephemeral_rooms.Rooms.Instance.Join.{Fresh, join, admit_or_refuse, admit, resume}
use ephemeral_rooms.Rooms.Instance.Depart
use ephemeral_rooms.Rooms.Manager.{Manager, create, get_or_create, begin_closing, close_room_now}

module _ {D W : Type 0} where
  -- The object of a room once an operation of the instance has changed it.
  abbrev pub with_object : Text → Room D W → Manager D W → Manager D W
  with_object i r m = record m { instances = put m.instances i r }

  -- Whose code and id are those of another object.
  abbrev pub IsNamed : Room D W → Room D W → Type 0
  IsNamed r r' = (r'.room_code ≡ r.room_code) × (r'.room_instance_id ≡ r.room_instance_id)

  -- A cleanup task has been started for the instance.
  abbrev pub IsClosing : Manager D W → Text → Type 0
  IsClosing m i = any (λ j. same j i) m.closing_tasks ≡ true

  -- `on_closing` is called where the timer says so.
  abbrev pub after_fire : Fired → Text → Room D W → Manager D W → Manager D W
  after_fire Depart.begin_closing i r m = begin_closing r (with_object i r m)
  after_fire nothing i r m = with_object i r m
  after_fire (Depart.user_left u) i r m = with_object i r m

  pub data Step (cfg : Settings) (m : Manager D W) : Manager D W → Type 0 where
    -- `POST /rooms`
    creates :
        (draws : ℕ → ℕ) (j : Text) (now : ℕ) (n : Manager D W)
        → get m.instances j ≡ none
        → create cfg draws j now none m ≡ some (n, j)
        → Step cfg m n
    visits :
        (draws : ℕ → ℕ) (j : Text) (now : ℕ) (code : Text) (n : Manager D W) (i : Text) (b : Bool)
        → get m.instances j ≡ none
        → get_or_create cfg draws j now code m ≡ some (n, i, b)
        → Step cfg m n
    -- `join` of the room of an object, in the map or not
    joins :
        (i : Text) (r : Room D W) (is_open : ℕ → Bool) (now : ℕ) (fresh : Fresh) (conn : ℕ)
        (token name : Option Text)
        → get m.instances i ≡ some r
        → Step cfg m (with_object i (join is_open cfg now fresh conn token name r).0 m)
    drops :
        (i : Text) (r : Room D W) (now : ℕ) (user_id : Text) (conn : ℕ)
        → get m.instances i ≡ some r
        → Step cfg m (with_object i (mark_disconnected cfg now user_id conn r) m)
    leaves :
        (i : Text) (r : Room D W) (now : ℕ) (user_id : Text)
        → get m.instances i ≡ some r
        → Step cfg m (with_object i (remove_user cfg now user_id r).0 m)
    -- a timer of the room, with what the manager does when it is told that the room closes
    fires :
        (i : Text) (r : Room D W) (now handle : ℕ)
        → get m.instances i ≡ some r
        → Step cfg m (after_fire (fire cfg now handle r).1 i (fire cfg now handle r).0 m)
    forces : (i : Text) → Step cfg m (close_room_now i m)
    -- a step of a cleanup task: what it makes of its object and of the directories
    cleans :
        (i : Text) (r r' : Room D W) (store : FileTree)
        → IsClosing m i
        → get m.instances i ≡ some r
        → IsNamed r r'
        → Step cfg m (record (with_object i r' m) { store = store })

  pub data Serves (cfg : Settings) (m : Manager D W) : Manager D W → Type 0 where
    here : Serves cfg m m
    next : {n p : Manager D W} → Serves cfg m n → Step cfg n p → Serves cfg m p

  pub join-IsNamed :
      (is_open : ℕ → Bool) (cfg : Settings) (now : ℕ) (fresh : Fresh) (conn : ℕ)
      (token name : Option Text) (r : Room D W)
      → IsNamed r (join is_open cfg now fresh conn token name r).0
  unfolding join admit_or_refuse admit resume cancel_empty_grace
  join-IsNamed is_open cfg now fresh conn token name r = (ground arith, ground arith)

  maybe_start-IsNamed :
      (cfg : Settings) (now : ℕ) (r : Room D W) → IsNamed r (maybe_start_empty_grace cfg now r)
  unfolding maybe_start_empty_grace
  maybe_start-IsNamed cfg now r = (ground arith, ground arith)

  pub mark_disconnected-IsNamed :
      (cfg : Settings) (now : ℕ) (id : Text) (conn : ℕ) (r : Room D W)
      → IsNamed r (mark_disconnected cfg now id conn r)
  unfolding mark_disconnected drop_connection maybe_start_empty_grace
  mark_disconnected-IsNamed cfg now id conn r = (ground arith, ground arith)

  pub remove_user-IsNamed :
      (cfg : Settings) (now : ℕ) (id : Text) (r : Room D W) → IsNamed r (remove_user cfg now id r).0
  unfolding remove_user maybe_start_empty_grace
  remove_user-IsNamed cfg now id r = (ground arith, ground arith)

  pub fire-IsNamed :
      (cfg : Settings) (now handle : ℕ) (r : Room D W) → IsNamed r (fire cfg now handle r).0
  unfolding fire run_callback remove_lapsed remove_user on_empty_grace_elapsed
      maybe_start_empty_grace
  fire-IsNamed cfg now handle r = (ground arith, ground arith)

  -- Nothing but the end of the grace of an empty room makes it refuse joins.
  pub join_live :
      (is_open : ℕ → Bool) (cfg : Settings) (now : ℕ) (fresh : Fresh) (conn : ℕ)
      (token name : Option Text) (r : Room D W)
      → is_joinable r ≡ true
      → is_joinable (join is_open cfg now fresh conn token name r).0 ≡ true
  unfolding join admit_or_refuse admit resume cancel_empty_grace is_joinable
  join_live is_open cfg now fresh conn token name r live = ground arith

  pub mark_disconnected_live :
      (cfg : Settings) (now : ℕ) (id : Text) (conn : ℕ) (r : Room D W)
      → is_joinable r ≡ true
      → is_joinable (mark_disconnected cfg now id conn r) ≡ true
  unfolding mark_disconnected drop_connection maybe_start_empty_grace is_joinable
  mark_disconnected_live cfg now id conn r live = ground arith

  pub remove_user_live :
      (cfg : Settings) (now : ℕ) (id : Text) (r : Room D W)
      → is_joinable r ≡ true
      → is_joinable (remove_user cfg now id r).0 ≡ true
  unfolding remove_user maybe_start_empty_grace is_joinable
  remove_user_live cfg now id r live = ground arith

  pub fire_live :
      (cfg : Settings) (now handle : ℕ) (r : Room D W)
      → (fire cfg now handle r).1 ≢ Depart.begin_closing
      → is_joinable r ≡ true
      → is_joinable (fire cfg now handle r).0 ≡ true
  unfolding fire run_callback remove_lapsed remove_user on_empty_grace_elapsed
      maybe_start_empty_grace is_joinable
  fire_live cfg now handle r stays live = ground arith
