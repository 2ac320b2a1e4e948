-- ===== src/Ws/Session/Leaving.antt =====
-- `leave` of backend/app/ws/connection.py, and the invariant of the room.
use ephemeral_rooms.Prelude.{
  ℕ, ◌<◌, ◌≡◌, ◌≢◌, sym, ap, ◌∙◌, subst, Bool, true, false, Option, none, some, [], Text, arith,
  Bool-cases, inl, inr,
}
use ephemeral_rooms.Config.{Settings}
use ephemeral_rooms.Dict.{Dict, get}
use ephemeral_rooms.Rooms.Types.{User}
use ephemeral_rooms.Rooms.Instance.State.{Room}
use ephemeral_rooms.Rooms.Instance.Depart.{mark_disconnected, is_superseded}
use ephemeral_rooms.Rooms.Instance.Join.{Fresh, JoinOutcome, join}
use ephemeral_rooms.Rooms.Instance.Identity.{HoldsAlone, Resumes, join-Resumes}
use ephemeral_rooms.Rooms.Instance.Invariant.{IsValid}
use ephemeral_rooms.Rooms.Instance.Keeps.{remove_user-IsValid, mark_disconnected-IsValid}
use ephemeral_rooms.Ws.Session.{clear_awareness, leave}

module _ {D W : Type 0} where
  cleared-IsValid :
      (clear : ℕ → W → W) (n : ℕ) (r : Room D W)
      → IsValid r
      → IsValid (record r { awareness = clear_awareness clear n r.awareness })
  cleared-IsValid clear n r v = record { timed = v.timed; members = v.members; phase = v.phase }

  -- Whichever way a session leaves, a valid room stays valid.
  pub leave-IsValid :
      (clear : ℕ → W → W) (cfg : Settings) (now conn : ℕ) (explicit left : Bool) (user : User)
      (r : Room D W)
      → IsValid r
      → IsValid (leave clear cfg now conn explicit left user r).0
  unfolding leave
  leave-IsValid clear cfg now conn explicit true user r v = v
  leave-IsValid clear cfg now conn false false user r v =
      mark_disconnected-IsValid cfg now user.user_id conn _
        (cleared-IsValid clear user.client_id r v)
  leave-IsValid clear cfg now conn true false user r v =
      elim (Bool-cases (is_superseded conn user)) [
        | inl stale ↦ rw stale (cleared-IsValid clear user.client_id r v)
        | inr own ↦
            rw own (
              remove_user-IsValid cfg now user.user_id _ (cleared-IsValid clear user.client_id r v))
      ]

  leave_superseded :
      (clear : ℕ → W → W) (cfg : Settings) (now conn other : ℕ) (explicit : Bool) (user : User)
      (r : Room D W)
      → get r.users user.user_id ≡ some user
      → user.connection ≡ some other
      → other ≢ conn
      → leave clear cfg now conn explicit false user r
        ≡ (record r { awareness = clear_awareness clear user.client_id r.awareness }, true, [])
  unfolding leave mark_disconnected
  leave_superseded clear cfg now conn other true user r here on ne = ground (arith, on)
  leave_superseded clear cfg now conn other false user r here on ne = ground (arith, here, on)

  cleared-Resumes :
      (r s : Room D W) (k : Text) (u : User) (conn : ℕ) (out : JoinOutcome) (a : Dict W)
      → Resumes r s k u conn out
      → Resumes r (record s { awareness = a }) k u conn out
  cleared-Resumes r s k u conn out a back = record {
    user = back.user;
    to_close = back.to_close;
    outcome = back.outcome;
    in_room = back.in_room;
    identity = back.identity;
    on_socket = back.on_socket;
    is_online = back.is_online;
    awake = back.awake;
    number_kept = back.number_kept;
    contents = record {
      room_instance_id = back.contents.room_instance_id;
      documents = back.contents.documents;
      files = back.contents.files;
      uploads = back.contents.uploads;
      op_seq = back.contents.op_seq;
    };
    no_removal = back.no_removal;
  }

  -- When a user of a valid room has come back by its token on a new socket, the session of another
  -- socket of the user that leaves, explicitly or not, tells nobody and changes nothing but the
  -- user's awareness, which it clears: the user is still the same, connected to the new socket, and
  -- no removal of the user is pending. The token is taken to be held by this user alone and not to
  -- be empty, the id drawn to be new, and MAX_USERS_PER_ROOM to be at least 1.
  pub leave-join :
      (clear : ℕ → W → W) (is_open : ℕ → Bool) (cfg : Settings) (now later : ℕ) (fresh : Fresh)
      (old conn : ℕ) (explicit : Bool) (name : Option Text) (r : Room D W) (k : Text) (u w : User)
      → IsValid r
      → 0 < cfg.max_users_per_room
      → get r.users fresh.user_id ≡ none
      → get r.users k ≡ some u
      → u.session_token ≢ []
      → HoldsAlone r k u
      → old ≢ conn
      → get (join is_open cfg now fresh conn (some u.session_token) name r).0.users k ≡ some w
      → let (s, out) = join is_open cfg now fresh conn (some u.session_token) name r in
        let l = leave clear cfg later old explicit false w s in
        (l ≡ (record s { awareness = clear_awareness clear u.client_id s.awareness }, true, []))
        × Resumes r l.0 k u conn out
  leave-join clear is_open cfg now later fresh old conn explicit name r k u w v room new here real
        alone ne there =
      let o = join is_open cfg now fresh conn (some u.session_token) name r in
      let back = join-Resumes is_open cfg now fresh conn name r k u v room new here real alone in
      let is_w : back.user ≡ w = ground (arith, back.in_room, there) in
      let keyed : w.user_id ≡ k =
        ap (λ (x : User). x.user_id) (sym is_w)
        ∙ back.identity.user_id
        ∙ (v.members.each k u here).keyed in
      let number : w.client_id ≡ u.client_id =
        ap (λ (x : User). x.client_id) (sym is_w) ∙ back.identity.client_id in
      let on : w.connection ≡ some conn =
        ap (λ (x : User). x.connection) (sym is_w) ∙ back.on_socket in
      let cleared =
        leave_superseded clear cfg later old conn explicit w o.0 (ap (get o.0.users) keyed ∙ there)
          on (λ e. ne (sym e)) in
      let left =
        cleared
        ∙ ap (λ n. (record o.0 { awareness = clear_awareness clear n o.0.awareness }, true, []))
            number in
      (
        left,
        subst (λ l. Resumes r l.0 k u conn o.1) (sym left)
            (cleared-Resumes r o.0 k u conn o.1 (clear_awareness clear u.client_id o.0.awareness)
              back),
      )
