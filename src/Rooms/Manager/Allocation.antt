-- ===== src/Rooms/Manager/Allocation.antt =====
-- What `allocate_code` of backend/app/rooms/manager.py finds.
use ephemeral_rooms.Prelude.{
  ℕ, zero, suc, ◌+◌, ◌≤◌, ◌<◌, ◌≡◌, ◌↔◌, ◌⊎◌, subst, refl, Option, none, some, [], ◌∷◌, leb, length,
  Text, true, false, arith, same_iff, inl, inr, Bool-cases, leb→le, leb→lt, le→leb,
}
use ephemeral_rooms.Dict.{Dict, has, get, pop, has-pop, length-pop-le}
use ephemeral_rooms.Rooms.Manager.Codes.{
  str, try_draws, scan, allocate_code, or_else, code_low, code_high,
}

-- The four digits determine the number.
str-injective : (a b : ℕ) → a < 10000 → b < 10000 → str a ≡ str b → a ≡ b
unfolding str
str-injective a b p q e = ground arith

pub length-pop-lt :
    {V : Type 0} (d : Dict V) (k : Text) → has d k ≡ true → length (pop d k) < length d
unfolding has get pop
length-pop-lt [] k h = ground arith
length-pop-lt ((j, w) ∷ d) k h = ground (arith, length-pop-le d k, length-pop-lt d k)

-- A key that the scan passed over is still there once another key is gone.
scan-pop :
    (n c k : ℕ) (rooms : Dict Text)
    → k < c
    → c + n ≤ 10000
    → scan n c rooms ≡ none
    → scan n c (pop rooms (str k)) ≡ none
unfolding scan
scan-pop zero c k rooms lt le h = refl
scan-pop (suc n) c k rooms lt le h = ground (
  arith,
  has-pop rooms (str k) (str c),
  same_iff (str k) (str c),
  str-injective k c (omega arith) (omega arith),
  scan-pop n (suc c) k rooms (omega arith) (omega arith),
)

-- A scan that finds nothing has met that many different keys.
scan-le-length :
    (n c : ℕ) (rooms : Dict Text) → c + n ≤ 10000 → scan n c rooms ≡ none → n ≤ length rooms
unfolding scan
scan-le-length zero c rooms le h = omega arith
scan-le-length (suc n) c rooms le h = elim (Bool-cases (has rooms (str c))) [
  | inl used ↦ omega (
    arith,
    length-pop-lt rooms (str c) used,
    scan-le-length n (suc c) (pop rooms (str c)) (omega arith)
        (scan-pop n (suc c) c rooms (omega arith) (omega arith) (ground arith)),
  )
  | inr unused ↦ absurd (ground arith)
]

or_else-none : (a b : Option Text) → or_else a b ≡ none → b ≡ none
or_else-none none b e = e
or_else-none (some x) b e = absurd (ground arith)

-- With a cap of at most 9000, which the settings enforce, no code is found exactly when the number
-- of rooms has reached the cap, whatever is drawn.
pub allocate_code-none :
    (max_rooms : ℕ) (draws : ℕ → ℕ) (rooms : Dict Text)
    → max_rooms ≤ 9000
    → (allocate_code max_rooms draws rooms ≡ none) ↔ (max_rooms ≤ length rooms)
unfolding allocate_code
allocate_code-none max_rooms draws rooms cap = (forth, back)
  where
    forth : allocate_code max_rooms draws rooms ≡ none → max_rooms ≤ length rooms
    forth e = elim (Bool-cases (leb max_rooms (length rooms))) [
      | inl full ↦ leb→le _ _ full
      | inr space ↦ absurd (
          omega (
            arith,
            leb→lt _ _ space,
            scan-le-length 9000 code_low rooms (omega arith)
                (or_else-none (try_draws 200 0 draws rooms) _ (rw space at e)),
          ))
    ]

    back : max_rooms ≤ length rooms → allocate_code max_rooms draws rooms ≡ none
    back le = rw (le→leb max_rooms (length rooms) le)

-- A code in the range of the allocator.
abbrev pub IsCode : Text → Type 0
IsCode code = (n : ℕ) × (code_low ≤ n) × (n ≤ code_high) × (code ≡ str n)

abbrev Unused : Dict Text → Text → Type 0
Unused rooms code = (has rooms code ≡ false) × IsCode code

try_draws-Unused :
    (n k : ℕ) (draws : ℕ → ℕ) (rooms : Dict Text) (code : Text)
    → ((i : ℕ) → draws i < 9000)
    → try_draws n k draws rooms ≡ some code
    → Unused rooms code
unfolding try_draws
try_draws-Unused zero k draws rooms code span e = absurd (ground arith)
try_draws-Unused (suc n) k draws rooms code span e =
    elim (Bool-cases (has rooms (str (code_low + draws k)))) [
      | inl used ↦ try_draws-Unused n (suc k) draws rooms code span (ground arith)
      | inr unused ↦
          let here : str (code_low + draws k) ≡ code = ground arith in
          subst (Unused rooms) here
            (unused, (code_low + draws k, omega arith, omega (arith, span k), refl))
    ]

scan-Unused :
    (n c : ℕ) (rooms : Dict Text) (code : Text)
    → code_low ≤ c
    → c + n ≤ 10000
    → scan n c rooms ≡ some code
    → Unused rooms code
unfolding scan
scan-Unused zero c rooms code low high e = absurd (ground arith)
scan-Unused (suc n) c rooms code low high e = elim (Bool-cases (has rooms (str c))) [
  | inl used ↦ scan-Unused n (suc c) rooms code (omega arith) (omega arith) (ground arith)
  | inr unused ↦
      let here : str c ≡ code = ground arith in
      subst (Unused rooms) here (unused, (c, low, omega arith, refl))
]

or_else-some :
    (a b : Option Text) (code : Text) → or_else a b ≡ some code → (a ≡ some code) ⊎ (b ≡ some code)
or_else-some none b code e = inr e
or_else-some (some x) b code e = inl e

-- An allocated code is the four digits of a number from 1000 to 9999 and is not in use, and the
-- rooms are below the cap; the draws are taken to be below 9000.
pub allocate_code_sound :
    (max_rooms : ℕ) (draws : ℕ → ℕ) (rooms : Dict Text) (code : Text)
    → ((i : ℕ) → draws i < 9000)
    → allocate_code max_rooms draws rooms ≡ some code
    → (has rooms code ≡ false) × IsCode code × (length rooms < max_rooms)
unfolding allocate_code
allocate_code_sound max_rooms draws rooms code span e =
    elim (Bool-cases (leb max_rooms (length rooms))) [
      | inl full ↦ absurd (ground arith)
      | inr space ↦
          let found : Unused rooms code =
            elim (or_else-some (try_draws 200 0 draws rooms) (scan 9000 code_low rooms) code
              (rw space at e)) [
                | inl drawn ↦ try_draws-Unused 200 0 draws rooms code span drawn
                | inr scanned ↦
                    scan-Unused 9000 code_low rooms code (omega arith) (omega arith) scanned
              ] in
          (found.0, found.1, leb→lt _ _ space)
    ]
