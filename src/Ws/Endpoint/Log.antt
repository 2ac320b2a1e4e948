-- ===== src/Ws/Endpoint/Log.antt =====
-- What the receive loop of backend/app/ws/routes.py logs: counts, and the order of the actions.
use ephemeral_rooms.Prelude.{
  ℕ, suc, ◌+◌, ◌≡◌, refl, Bool, true, false, List, [], ◌∷◌, ◌++◌, arith, if◌then◌else◌,
}
use ephemeral_rooms.Rooms.CloseCode.{room_closing}
use ephemeral_rooms.Ws.Endpoint.{
  goes_on, Action, refused_frame, joins, handles, relays, heartbeat_starts, heartbeat_stops, leaves,
  closes,
}

-- What a log counts.
abbrev pub count : (Action → Bool) → List Action → ℕ
count p [] = 0
count p (a ∷ log) = let rest = count p log in if p a then suc rest else rest

abbrev pub is_refused : Action → Bool
is_refused (refused_frame code) = true
is_refused _ = false

abbrev pub is_leave : Action → Bool
is_leave leaves = true
is_leave _ = false

pub count-append :
    (p : Action → Bool) (a b : List Action) → count p (a ++ b) ≡ count p a + count p b
count-append p [] b = omega arith
count-append p (x ∷ a) b = ground (arith, count-append p a b)

-- A log in which the session gets nothing before it has joined, and joins once at most; `joined` is
-- whether it had joined before.
abbrev pub IsOrderly : Bool → List Action → Type 0
IsOrderly joined [] = Unit
IsOrderly joined (joins goes_on ∷ log) = (joined ≡ false) × IsOrderly true log
IsOrderly joined (joins reply ∷ log) = (joined ≡ false) × IsOrderly joined log
IsOrderly joined (handles m ∷ log) = (joined ≡ true) × IsOrderly joined log
IsOrderly joined (relays bytes ∷ log) = (joined ≡ true) × IsOrderly joined log
IsOrderly joined (heartbeat_starts ∷ log) = (joined ≡ true) × IsOrderly joined log
IsOrderly joined (heartbeat_stops ∷ log) = (joined ≡ true) × IsOrderly joined log
IsOrderly joined (_ ∷ log) = IsOrderly joined log

pub ending-IsOrderly :
    (joined : Bool) (log : List Action)
    → IsOrderly joined log
    → IsOrderly joined (
        ((if joined then heartbeat_stops ∷ [] else []) ++ leaves ∷ closes room_closing ∷ []) ++ log)
ending-IsOrderly true log h = (refl, h)
ending-IsOrderly false log h = h

pub ending-counts :
    (joined : Bool)
    → let ending =
        (if joined then heartbeat_stops ∷ [] else []) ++ leaves ∷ closes room_closing ∷ [] in
      (count is_refused ending ≡ 0) × (count is_leave ending ≡ 1)
ending-counts true = (refl, refl)
ending-counts false = (refl, refl)
