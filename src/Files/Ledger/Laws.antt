-- ===== src/Files/Ledger/Laws.antt =====
-- The sum of the promises under the operations of backend/app/files/reservations.py.
use ephemeral_rooms.Prelude.{
  ℕ, ◌+◌, ◌≤◌, ◌<◌, ◌≡◌, ◌≢◌, refl, false, Option, none, some, ltb, Text, if◌then◌else◌, arith,
  same_iff, same_refl, inl, inr, Bool-cases, ltb→lt, ltb→le,
}
use ephemeral_rooms.Prelude.Int.{ℤ, pos_part}
use ephemeral_rooms.Dict.{get, put, pop, get-put, get-put_self, get-pop, pop_absent}
use ephemeral_rooms.Dict.Distinct.{
  Distinct, size_of, sum_values-put, sum_values-pop, put-Distinct, pop-Distinct,
}
use ephemeral_rooms.Files.Ledger.{
  Ledger, ReservationDenied, reserved_bytes, is_reserved, available_locked, reserve, release,
  shrink,
}

-- What an upload still has promised.
abbrev pub reserved : Text → Ledger → ℕ
reserved upload_id l = size_of (λ (n : ℕ). n) (get l.reservations upload_id)

reserved_bytes-put :
    (id : Text) (size : ℕ) (l : Ledger)
    → get l.reservations id ≡ none
    → reserved_bytes (record l { reservations = put l.reservations id size })
      ≡ reserved_bytes l + size
unfolding reserved_bytes
reserved_bytes-put id size l new =
    ground (arith, sum_values-put (λ (n : ℕ). n) l.reservations id size)

fits_disk :
    (free size : ℕ) (l : Ledger) (after : ℕ)
    → after ≡ reserved_bytes l + size
    → 0 < size
    → size ≤ available_locked free l
    → after + l.headroom ≤ free
unfolding available_locked
fits_disk free size l after e pos fits = omega arith

-- What a request for space comes to.
abbrev pub Reserved : ℕ → Text → ℕ → Ledger → Ledger × Option ReservationDenied → Type 0
Reserved free id size l (l', none) =
    (size ≤ available_locked free l)
    × (get l'.reservations id ≡ some size)
    × (reserved_bytes l' ≡ reserved_bytes l + size)
    × (l'.headroom ≡ l.headroom)
    × (0 < size → reserved_bytes l' + l'.headroom ≤ free)
Reserved free id size l (l', some denied) =
    (available_locked free l < size) × (denied.available ≡ available_locked free l) × (l' ≡ l)

-- A request for space under a new id is granted when the size fits what is free beyond the other
-- promises and the headroom: the size is added to the promises, and unless it is zero they fit the
-- disk with the headroom. Otherwise it is refused: nothing changes, and the caller learns what was
-- available.
pub reserve_lem :
    (free : ℕ) (id : Text) (size : ℕ) (l : Ledger)
    → get l.reservations id ≡ none
    → Reserved free id size l (reserve free id size l)
reserve_lem free id size l new = elim (Bool-cases (ltb (available_locked free l) size)) [
  | inl short ↦ unfold reserve in rw short (ltb→lt _ _ short, refl, refl)
  | inr fits ↦
      unfold reserve in
      rw fits (
        ltb→le _ _ fits,
        get-put_self l.reservations id size,
        reserved_bytes-put id size l new,
        refl,
        λ some_bytes.
            fits_disk free size l
              (reserved_bytes (record l { reservations = put l.reservations id size }))
              (reserved_bytes-put id size l new) some_bytes (ltb→le _ _ fits),
      )
]

-- In a ledger that holds each upload once, a release takes exactly the upload's promise out of the
-- sum, and leaves every other promise.
pub release_lem :
    (id : Text) (l : Ledger)
    → Distinct l.reservations
    → (reserved_bytes (release id l) + reserved id l ≡ reserved_bytes l)
      × (get (release id l).reservations id ≡ none)
      × ((j : Text) → j ≢ id → get (release id l).reservations j ≡ get l.reservations j)
unfolding release reserved_bytes
release_lem id l d = (
  sum_values-pop (λ (n : ℕ). n) l.reservations id d,
  ground (arith, get-pop l.reservations id id, same_refl id),
  λ j ne. ground (arith, get-pop l.reservations id j, same_iff id j),
)

-- A second release changes nothing.
pub release-release : (id : Text) (l : Ledger) → release id (release id l) ≡ release id l
unfolding release
release-release id l =
    ground
      (arith, pop_absent (pop l.reservations id) id, get-pop l.reservations id id, same_refl id)

-- A shrink moves the sum by exactly the change of the upload's own promise, which becomes what
-- remains, or zero where that is negative; without a promise it does nothing, so it never brings a
-- released one back.
pub shrink_lem :
    (id : Text) (remaining : ℤ) (l : Ledger)
    → (reserved_bytes (shrink id remaining l) + reserved id l
        ≡ reserved_bytes l + (if is_reserved id l then pos_part remaining else 0))
      × (reserved id (shrink id remaining l) ≡ (if is_reserved id l then pos_part remaining else 0))
      × (is_reserved id l ≡ false → shrink id remaining l ≡ l)
unfolding shrink is_reserved reserved_bytes
shrink_lem id remaining l = (
  ground (arith, sum_values-put (λ (n : ℕ). n) l.reservations id (pos_part remaining)),
  ground (arith, get-put l.reservations id id (pos_part remaining), same_refl id),
  λ h. ground arith,
)

pub reserve-Distinct :
    (free : ℕ) (id : Text) (size : ℕ) (l : Ledger)
    → Distinct l.reservations
    → Distinct (reserve free id size l).0.reservations
unfolding reserve
reserve-Distinct free id size l d = ground (arith, put-Distinct l.reservations id size d)

pub release-Distinct :
    (id : Text) (l : Ledger) → Distinct l.reservations → Distinct (release id l).reservations
unfolding release
release-Distinct id l d = pop-Distinct l.reservations id d

pub shrink-Distinct :
    (id : Text) (remaining : ℤ) (l : Ledger)
    → Distinct l.reservations
    → Distinct (shrink id remaining l).reservations
unfolding shrink
shrink-Distinct id remaining l d =
    ground (arith, put-Distinct l.reservations id (pos_part remaining) d)
