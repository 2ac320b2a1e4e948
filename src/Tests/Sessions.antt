-- ===== src/Tests/Sessions.antt =====
-- Examples of the sessions of a room, its cleanup, and the reaper.
use ephemeral_rooms.Prelude.{
  ℕ, ◌+◌, ◌≡◌, refl, none, some, [], ◌∷◌, List, arith, Bool, true, false, length, same, suc,
}
use ephemeral_rooms.Dict.{get, put, values, alter}
use ephemeral_rooms.Storage.FileStore.{Bytes, Removal}
use ephemeral_rooms.Rooms.Types.{User}
use ephemeral_rooms.Rooms.Instance.State.{
  new_room, is_joinable, find_by_token, find_token_in, connected_users, cancel_empty_grace,
}
use ephemeral_rooms.Rooms.Manager.{Manager, get_or_create, lookup, open_room}
use ephemeral_rooms.Cleanup.Room.{clean}
use ephemeral_rooms.Cleanup.Room.Laws.{clean-gone}
use ephemeral_rooms.Ws.Session.{Context, Message, set_name, create_document, clear_awareness, leave}
use ephemeral_rooms.Ws.Session.Stamps.{stamps, count_from, run, run-stamps}
use ephemeral_rooms.Ws.Session.Leaving.{leave-join}
use ephemeral_rooms.Ws.Joining.{Draws, entered, handle_join}
use ephemeral_rooms.Ws.Joining.Laws.{Entered, handle_join-Entered}
use ephemeral_rooms.Rooms.Instance.Join.{join, resume, rebind, admit, admit_or_refuse}
use ephemeral_rooms.Rooms.Instance.Identity.{Resumes}
use ephemeral_rooms.Tests.{cfg, a_code, an_instance, another_instance, alice, bob, no_socket}
use ephemeral_rooms.Tests.Rooms.{
  empty_room, empty_room-IsValid, with_alice, alice_user, with_alice-IsValid, alice_alone,
}
use ephemeral_rooms.Tests.Files.{a_room, receiving, an_upload}
use ephemeral_rooms.Tests.Names.{some_unicode}

clean-gone_example :
    get (clean no_socket (λ k. Removal.gone) an_instance (receiving 3)).manager.store an_instance
    ≡ none
unfolding get same
clean-gone_example =
    clean-gone no_socket (λ k. Removal.gone) 0 an_instance a_room (receiving 3) refl (omega arith)
      refl

abbrev pub sixteen : Bytes
sixteen = 0 ∷ 1 ∷ 2 ∷ 3 ∷ 4 ∷ 5 ∷ 6 ∷ 7 ∷ 8 ∷ 9 ∷ 10 ∷ 11 ∷ 12 ∷ 13 ∷ 14 ∷ 15 ∷ []

abbrev context : Context (Unit {0})
context = record {
  cfg = cfg;
  unicode = some_unicode;
  valid = λ t. true;
  now = 7;
  new_id = an_upload;
  new_doc = tt;
  uploads = [];
}

abbrev two_messages : List (Context (Unit {0}) × User × Message)
two_messages =
    (context, alice_user, set_name (66 ∷ []))
    ∷ (context, alice_user, create_document (67 ∷ []))
    ∷ []

run-stamps_example :
    let o = run two_messages (with_alice, []) in
    (stamps o.1 ≡ count_from (suc with_alice.op_seq) (length (stamps o.1)))
    × (o.0.0.op_seq ≡ with_alice.op_seq + length (stamps o.1))
run-stamps_example = run-stamps two_messages (with_alice, [])

abbrev keep_states : ℕ → Unit {0} → Unit {0}
keep_states n w = w

-- Alice has come back on socket 2 when the session of socket 1 leaves.
leave-join_example :
    let (s, out) = join no_socket cfg 30 bob 2 (some alice_user.session_token) none with_alice in
    let l = leave keep_states cfg 35 1 true false (rebind 2 30 alice_user) s in
    (l ≡ (
      record s { awareness = clear_awareness keep_states alice_user.client_id s.awareness },
      true,
      [],
    ))
    × Resumes with_alice l.0 alice.user_id alice_user 2 out
unfolding join is_joinable new_room find_by_token find_token_in admit_or_refuse admit
    connected_users values put cancel_empty_grace same get resume alter
leave-join_example =
    leave-join keep_states no_socket cfg 30 35 bob 1 2 true none with_alice alice.user_id alice_user
      (rebind 2 30 alice_user) with_alice-IsValid (omega arith) refl refl (λ e. ground arith)
      alice_alone (λ e. ground arith) refl

abbrev one_room : Manager (Unit {0}) (Unit {0})
one_room =
    open_room a_code an_instance 0
      (record { rooms = []; instances = []; store = []; closing_tasks = [] })

abbrev draws : Draws (Unit {0})
draws = record {
  codes = λ k. 0;
  instance_id = another_instance;
  second_instance_id = another_instance;
  fresh = alice;
  document_id = an_upload;
  new_doc = tt;
}

handle_join-Entered_example :
    (m'' : Manager (Unit {0}) (Unit {0})) × (u : User) × (told : Bool) × (handle_join no_socket cfg
        draws 5 1 none a_code one_room
      ≡ (m'', entered an_instance u false told))
    × Entered an_instance u alice m''
unfolding get_or_create lookup open_room new_room put get same is_joinable find_by_token values
handle_join-Entered_example =
    handle_join-Entered no_socket cfg draws 5 1 none a_code an_instance false one_room one_room
      empty_room refl refl empty_room-IsValid refl refl (omega arith)
