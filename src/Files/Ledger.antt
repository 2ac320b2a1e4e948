-- ===== src/Files/Ledger.antt =====
-- `ReservationLedger` of backend/app/files/reservations.py. `free` is what the disk provider reports
-- inside the call; the lock makes each call one step.
pub mod Laws
pub mod Locking
use ephemeral_rooms.Prelude.{ℕ, ◌-◌, Bool, Option, none, some, ltb, Text, if◌then◌else◌}
use ephemeral_rooms.Prelude.Int.{ℤ, pos_part}
use ephemeral_rooms.Dict.{Dict, has, put, pop}
use ephemeral_rooms.Dict.Distinct.{sum_values}

pub record Ledger : Type 0 where
  pub headroom : ℕ
  pub reservations : Dict ℕ

-- `ReservationDenied`; its reason is one fixed sentence.
pub record ReservationDenied : Type 0 where
  pub available : ℕ

unfoldable pub reserved_bytes : Ledger → ℕ
reserved_bytes l = sum_values (λ n. n) l.reservations

unfoldable pub is_reserved : Text → Ledger → Bool
is_reserved upload_id l = has l.reservations upload_id

-- `max(0, free - reserved - headroom)`: subtraction of naturals stops at 0.
unfoldable pub available_locked : ℕ → Ledger → ℕ
unfolding reserved_bytes
available_locked free l = free - reserved_bytes l - l.headroom

unfoldable pub reserve : ℕ → Text → ℕ → Ledger → Ledger × Option ReservationDenied
unfolding available_locked
reserve free upload_id size l =
    let available = available_locked free l in
    if ltb available size
    then (l, some (record { available = available }))
    else (record l { reservations = put l.reservations upload_id size }, none)

unfoldable pub release : Text → Ledger → Ledger
release upload_id l = record l { reservations = pop l.reservations upload_id }

-- `max(0, remaining)` of an integer that may be negative.
unfoldable pub shrink : Text → ℤ → Ledger → Ledger
unfolding has
shrink upload_id remaining l =
    if has l.reservations upload_id
    then record l { reservations = put l.reservations upload_id (pos_part remaining) }
    else l

unfoldable pub headroom_breached : ℕ → Ledger → Bool
headroom_breached free l = ltb free l.headroom
