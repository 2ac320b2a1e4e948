-- ===== src/Files/StorageFeed/Laws.antt =====
-- Whom the storage feed of backend/app/files/storage_feed.py tells, and what.
use ephemeral_rooms.Prelude.{
  ℕ, ◌≡◌, ◌⊎◌, inl, inr, refl, ap, ◌↔◌, ◌==◌, ◌&&◌, ◌||◌, Bool, true, false, not, any, ◌≢◌, none,
  some, List, [], ◌∷◌, ◌++◌, keep, Text, arith, Bool-cases, Option-cases, same, same_iff, same_refl,
}
use ephemeral_rooms.Prelude.Int.{ℤ}
use ephemeral_rooms.Dict.{Dict, get, values}
use ephemeral_rooms.Storage.Memory.{Guard, available_for_new_text}
use ephemeral_rooms.Rooms.Types.{User}
use ephemeral_rooms.Rooms.Instance.State.{Room, connected_users, is_empty}
use ephemeral_rooms.Rooms.Instance.Broadcast.{reaches, broadcast}
use ephemeral_rooms.Rooms.Manager.{Manager}
use ephemeral_rooms.Files.Ledger.{Ledger, available_locked}
use ephemeral_rooms.Files.Routes.{figures, storage}
use ephemeral_rooms.Ws.Events
use ephemeral_rooms.Files.StorageFeed.{rooms_in, has_company, sockets_of, broadcast_once}

is_empty→nil : {A : Type 0} (xs : List A) → is_empty xs ≡ true → xs ≡ []
is_empty→nil [] h = refl
is_empty→nil (x ∷ xs) h = absurd (ground arith)

any_append :
    {A : Type 0} (p : A → Bool) (xs ys : List A) → any p (xs ++ ys) ≡ (any p xs || any p ys)
any_append p [] ys = refl
any_append p (x ∷ xs) ys = ground (arith, any_append p xs ys)

-- Whether a user is connected by a socket.
abbrev pub is_on : ℕ → User → Bool
is_on conn u = elim u.connection [ none ↦ false | some c ↦ c == conn ]

company-on : (conn : ℕ) (us : List User) → any (is_on conn) us ≡ true → not (is_empty us) ≡ true
company-on conn [] on = absurd (ground arith)
company-on conn (u ∷ us) on = refl

reaches_iff :
    (is_open : ℕ → Bool) (conn : ℕ) (us : List User)
    → any (λ c. c == conn) (reaches is_open none us) ≡ (is_open conn && any (is_on conn) us)
unfolding reaches
reaches_iff is_open conn [] = ground arith
reaches_iff is_open conn (u ∷ us) = elim (Option-cases u.connection) [
  | inl out ↦ ground (arith, out, reaches_iff is_open conn us)
  | inr (c, on) ↦ elim (Bool-cases (c == conn)) [
    | inr other ↦ ground (arith, on, other, reaches_iff is_open conn us)
    | inl own ↦
        let is : c ≡ conn = ground (arith, own) in
        ground (arith, on, own, ap is_open is, reaches_iff is_open conn us)
  ]
]

module _ {D W : Type 0} where
  -- The room of an instance that some code leads to.
  abbrev pub IsServed : Manager D W → Text → Room D W → Type 0
  IsServed m i r = (any (λ j. same j i) (values m.rooms) ≡ true) × (get m.instances i ≡ some r)

  deserted :
      (is : List Text) (instances : Dict (Room D W)) (i : Text) (r : Room D W)
      → is_empty (keep has_company (rooms_in is instances)) ≡ true
      → any (λ j. same j i) is ≡ true
      → get instances i ≡ some r
      → connected_users r ≡ []
  unfolding rooms_in
  deserted [] instances i r nobody listed at_i = absurd (ground arith)
  deserted (j ∷ is) instances i r nobody listed at_i = elim (Bool-cases (same j i)) [
    | inl here ↦ is_empty→nil (connected_users r) (ground (arith, same_iff j i, at_i, nobody))
    | inr later ↦ deserted is instances i r (ground arith) (ground arith) at_i
  ]

  inhabited :
      (is : List Text) (instances : Dict (Room D W))
      → is_empty (keep has_company (rooms_in is instances)) ≡ false
      → (i : Text) × (r : Room D W) × (any (λ j. same j i) is ≡ true)
        × (get instances i ≡ some r)
        × (connected_users r ≢ [])
  unfolding rooms_in
  inhabited [] instances somebody = absurd (ground arith)
  inhabited (j ∷ is) instances somebody = elim (Option-cases (get instances j)) [
    | inl out ↦
        let (i, r, listed, at_i, company) = inhabited is instances (ground (arith, out)) in
        (i, r, ground arith, at_i, company)
    | inr (q, at_j) ↦ elim (Bool-cases (is_empty (connected_users q))) [
      | inr company ↦ (j, q, ground (arith, same_refl j), at_j, λ e. ground (arith, company, e))
      | inl alone ↦
          let (i, r, listed, at_i, company) =
            inhabited is instances (ground (arith, at_j, alone)) in
          (i, r, ground arith, at_i, company)
    ]
  ]

  -- A connected user of a room that a code leads to is on the socket.
  abbrev pub IsServedOn : Manager D W → ℕ → Type 0
  IsServedOn m conn =
      (i : Text) × (r : Room D W) × IsServed m i r × (any (is_on conn) (connected_users r) ≡ true)

  sockets_of_sound :
      (is_open : ℕ → Bool) (conn : ℕ) (is : List Text) (instances : Dict (Room D W))
      → any (λ c. c == conn) (sockets_of is_open (keep has_company (rooms_in is instances))) ≡ true
      → (is_open conn ≡ true)
        × ((i : Text) × (r : Room D W) × (any (λ j. same j i) is ≡ true)
            × (get instances i ≡ some r)
            × (any (is_on conn) (connected_users r) ≡ true))
  unfolding rooms_in broadcast
  sockets_of_sound is_open conn [] instances sent = absurd (ground arith)
  sockets_of_sound is_open conn (j ∷ is) instances sent = elim (Option-cases (get instances j)) [
    | inl out ↦
        let (open_conn, (i, r, listed, at_i, on)) =
          sockets_of_sound is_open conn is instances (ground (arith, out)) in
        (open_conn, (i, r, ground arith, at_i, on))
    | inr (q, at_j) ↦ elim (Bool-cases (any (λ c. c == conn) (broadcast is_open none q))) [
      | inl told ↦ (
        ground (arith, reaches_iff is_open conn (connected_users q)),
        (
          j,
          q,
          ground (arith, same_refl j),
          at_j,
          ground (arith, reaches_iff is_open conn (connected_users q)),
        ),
      )
      | inr untold ↦
          let (open_conn, (i, r, listed, at_i, on)) = sockets_of_sound is_open conn is instances (
            ground (
              arith,
              at_j,
              untold,
              any_append (λ c. c == conn) (broadcast is_open none q)
                  (sockets_of is_open (keep has_company (rooms_in is instances))),
            )) in
          (open_conn, (i, r, ground arith, at_i, on))
    ]
  ]

  sockets_of_complete :
      (is_open : ℕ → Bool) (conn : ℕ) (is : List Text) (instances : Dict (Room D W)) (i : Text)
      (r : Room D W)
      → is_open conn ≡ true
      → any (λ j. same j i) is ≡ true
      → get instances i ≡ some r
      → any (is_on conn) (connected_users r) ≡ true
      → any (λ c. c == conn) (sockets_of is_open (keep has_company (rooms_in is instances))) ≡ true
  unfolding rooms_in broadcast
  sockets_of_complete is_open conn [] instances i r open_conn listed at_i on = absurd (ground arith)
  sockets_of_complete is_open conn (j ∷ is) instances i r open_conn listed at_i on =
      elim (Bool-cases (same j i)) [
        | inl own ↦
            let company : has_company r ≡ true = company-on conn (connected_users r) on in
            ground (
              arith,
              same_iff j i,
              at_i,
              company,
              reaches_iff is_open conn (connected_users r),
              any_append (λ c. c == conn) (broadcast is_open none r)
                  (sockets_of is_open (keep has_company (rooms_in is instances))),
            )
        | inr other ↦
            let rest =
              sockets_of_complete is_open conn is instances i r open_conn (ground arith) at_i on in
            elim (Option-cases (get instances j)) [
              | inl out ↦ ground (arith, out, rest)
              | inr (q, at_j) ↦ ground (
                arith,
                at_j,
                rest,
                any_append (λ c. c == conn) (broadcast is_open none q)
                    (sockets_of is_open (keep has_company (rooms_in is instances))),
              )
            ]
      ]

  sent_iff :
      (is_open : ℕ → Bool) (conn : ℕ) (m : Manager D W)
      → (any
            (λ c. c == conn)
            (sockets_of is_open (keep has_company (rooms_in (values m.rooms) m.instances)))
          ≡ true)
        ↔ ((is_open conn ≡ true) × IsServedOn m conn)
  sent_iff is_open conn m = (
    λ sent.
        let (open_conn, (i, r, listed, at_i, on)) =
          sockets_of_sound is_open conn (values m.rooms) m.instances sent in
        (open_conn, (i, r, (listed, at_i), on)),
    λ (open_conn, (i, r, (listed, at_i), on)).
        sockets_of_complete is_open conn (values m.rooms) m.instances i r open_conn listed at_i on,
  )

  -- Where some room that a code leads to has connected users, the feed sends to exactly the open
  -- sockets of the connected users of such rooms the same two figures that `GET /storage` would
  -- answer at that moment, and returns the figure of the disk; where no room has any, it sends
  -- nothing and reads nothing.
  pub broadcast_once-storage :
      (is_open : ℕ → Bool) (free now : ℕ) (reading : ℤ) (l : Ledger) (m : Manager D W) (g : Guard)
      → let o = broadcast_once is_open free now reading l m g in
        (((i : Text) (r : Room D W) → IsServed m i r → connected_users r ≡ [])
          × (o ≡ (g, none, [], 0)))
        ⊎ (((i : Text) × (r : Room D W) × IsServed m i r × (connected_users r ≢ []))
            × ((disk : ℕ) × (memory : ℤ) × (storage free now reading l g
                  ≡ (o.0, figures disk memory))
                × (o.1 ≡ some (Events.storage disk memory))
                × (o.2
                    ≡ sockets_of is_open (keep has_company (rooms_in (values m.rooms) m.instances)))
                × ((conn : ℕ)
                    → (any (λ c. c == conn) o.2 ≡ true)
                      ↔ ((is_open conn ≡ true) × IsServedOn m conn))
                × (o.3 ≡ disk)))
  unfolding broadcast_once storage
  broadcast_once-storage is_open free now reading l m g =
      elim (Bool-cases (is_empty (keep has_company (rooms_in (values m.rooms) m.instances)))) [
        | inl nobody ↦ inl (
          λ i r (listed, at_i). deserted (values m.rooms) m.instances i r nobody listed at_i,
          rw nobody refl,
        )
        | inr somebody ↦
            let (i, r, listed, at_i, company) = inhabited (values m.rooms) m.instances somebody in
            inr (
              (i, r, (listed, at_i), company),
              (
                available_locked free l,
                (available_for_new_text now reading g).1,
                rw somebody refl,
                rw somebody refl,
                rw somebody refl,
                (λ conn. rw somebody (sent_iff is_open conn m)),
                rw somebody refl,
              ),
            )
      ]
