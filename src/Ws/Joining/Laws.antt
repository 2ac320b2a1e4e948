-- ===== src/Ws/Joining/Laws.antt =====
-- `handle_join` of backend/app/ws/connection.py, for a newcomer.
use ephemeral_rooms.Prelude.{
  ℕ, ◌<◌, ◌≡◌, refl, Bool, false, ◌&&◌, Option, none, some, [], ◌∷◌, Text, length, arith, inl, inr,
  ap, ◌∙◌,
}
use ephemeral_rooms.Config.{Settings}
use ephemeral_rooms.Dict.{Dict, get, put, get-alter_self}
use ephemeral_rooms.Collab.Registry.{create, size}
use ephemeral_rooms.Rooms.Types.{User, active}
use ephemeral_rooms.Rooms.Instance.State.{Room, find_by_token}
use ephemeral_rooms.Rooms.Instance.Join.{Fresh, joined, join, or_empty}
use ephemeral_rooms.Rooms.Instance.Presence.{connected_in}
use ephemeral_rooms.Rooms.Instance.Invariant.{IsValid}
use ephemeral_rooms.Rooms.Instance.Capacity.{join_new}
use ephemeral_rooms.Rooms.Manager.{Manager, get_or_create}
use ephemeral_rooms.Ws.Joining.{
  entered, Draws, first_document, open_document, enter, attempt, handle_join,
}

length-put-pos : {V : Type 0} (d : Dict V) (k : Text) (v : V) → 0 < length (put d k v)
unfolding put
length-put-pos [] k v = omega arith
length-put-pos ((j, w) ∷ d) k v = ground arith

module _ {D W : Type 0} where
  -- A newcomer in the room that the lookup gave.
  pub record Entered (i : Text) (u : User) (fresh : Fresh) (m : Manager D W) : Type 0 where
    pub room : Room D W
    pub object : get m.instances i ≡ some room
    pub in_room : get room.users fresh.user_id ≡ some u
    pub some_document : 0 < size room.documents
    pub is_active : room.state ≡ active
    pub visit_told : room.created_by_url_visit ≡ false

  size-create :
      (new_doc : D) (document_id : Text) (now : ℕ) (r : Room D W)
      → 0 < size (create new_doc document_id first_document now r.documents).0
  unfolding create size
  size-create new_doc document_id now r = length-put-pos r.documents.by_id document_id _

  size-open_document :
      (new_doc : D) (document_id : Text) (now : ℕ) (r : Room D W)
      → 0 < size (open_document new_doc document_id now r).documents
  unfolding open_document
  size-open_document new_doc document_id now r =
      ground (arith, size-create new_doc document_id now r)

  open_document-keeps :
      (new_doc : D) (document_id : Text) (now : ℕ) (r : Room D W)
      → let r' = open_document new_doc document_id now r in
        (r'.users ≡ r.users) × (r'.state ≡ r.state)
  unfolding open_document
  open_document-keeps new_doc document_id now r = ground arith

  enter-Entered :
      (d : Draws D) (now : ℕ) (i : Text) (created : Bool) (r q : Room D W) (u : User)
      (resumed : Bool) (close : Option ℕ) (m : Manager D W)
      → get m.instances i ≡ some q
      → get r.users d.fresh.user_id ≡ some u
      → r.state ≡ active
      → Entered i u d.fresh (enter d now i created (r, joined u resumed close) m).0
  unfolding enter
  enter-Entered d now i created r q u resumed close m there here on =
      let opened = open_document d.new_doc d.document_id now r in
      let (users, state) = open_document-keeps d.new_doc d.document_id now r in
      record {
        room = record opened { created_by_url_visit = false };
        object =
            get-alter_self (λ _. record opened { created_by_url_visit = false }) m.instances i
              there;
        in_room = ap (λ us. get us d.fresh.user_id) users ∙ here;
        some_document = size-open_document d.new_doc d.document_id now r;
        is_active = state ∙ on;
        visit_told = refl;
      }

  attempt-eq :
      (is_open : ℕ → Bool) (cfg : Settings) (d : Draws D) (now conn : ℕ) (token : Option Text)
      (i : Text) (created : Bool) (m : Manager D W) (r : Room D W)
      → get m.instances i ≡ some r
      → attempt is_open cfg d now conn token i created m
        ≡ enter d now i created (join is_open cfg now d.fresh conn token none r) m
  unfolding attempt
  attempt-eq is_open cfg d now conn token i created m r there = ground (arith, there)

  attempt-Entered :
      (is_open : ℕ → Bool) (cfg : Settings) (d : Draws D) (now conn : ℕ) (token : Option Text)
      (i : Text) (created : Bool) (m : Manager D W) (r : Room D W)
      → get m.instances i ≡ some r
      → IsValid r
      → get r.users d.fresh.user_id ≡ none
      → find_by_token r (or_empty token) ≡ none
      → length (connected_in r.users) < cfg.max_users_per_room
      → (m' : Manager D W) × (u : User) × (told : Bool) × (attempt is_open cfg d now conn token i
            created m
          ≡ (m', some (entered i u false told)))
        × Entered i u d.fresh m'
  attempt-Entered is_open cfg d now conn token i created m r there v new lost space =
      elim (join_new is_open cfg now d.fresh conn token none r v new lost) [
        | inr (refusal, at_limit) ↦ absurd (omega arith)
        | inl (a, below, within) ↦
            let o = join is_open cfg now d.fresh conn token none r in
            let e : attempt is_open cfg d now conn token i created m
                ≡ enter d now i created (o.0, joined a.user false none) m =
              attempt-eq is_open cfg d now conn token i created m r there
              ∙ ap (λ out. enter d now i created (o.0, out) m) a.outcome in
            (
              (enter d now i created (o.0, joined a.user false none) m).0,
              a.user,
              created && (open_document d.new_doc d.document_id now o.0).created_by_url_visit,
              e ∙ unfold enter in refl,
              enter-Entered d now i created o.0 r a.user false none m there a.in_room a.awake,
            )
      ]

  -- A join message, whose token no user holds, for a code whose lookup gives a valid room with
  -- space brings a new user in: the reply names it as not resumed, and the room has it, has at
  -- least one document, is ACTIVE, and has forgotten that it was created by a visit. The id drawn
  -- is taken to be new to the room.
  pub handle_join-Entered :
      (is_open : ℕ → Bool) (cfg : Settings) (d : Draws D) (now conn : ℕ) (token : Option Text)
      (code i : Text) (created : Bool) (m m' : Manager D W) (r : Room D W)
      → get_or_create cfg d.codes d.instance_id now code m ≡ some (m', i, created)
      → get m'.instances i ≡ some r
      → IsValid r
      → get r.users d.fresh.user_id ≡ none
      → find_by_token r (or_empty token) ≡ none
      → length (connected_in r.users) < cfg.max_users_per_room
      → (m'' : Manager D W) × (u : User) × (told : Bool) × (handle_join is_open cfg d now conn token
            code m
          ≡ (m'', entered i u false told))
        × Entered i u d.fresh m''
  unfolding handle_join
  handle_join-Entered is_open cfg d now conn token code i created m m' r found there v new lost
        space =
      let (m'', u, told, e, entry) =
        attempt-Entered is_open cfg d now conn token i created m' r there v new lost space in
      (m'', u, told, ground (arith, found, e), entry)
