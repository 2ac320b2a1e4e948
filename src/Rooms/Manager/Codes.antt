-- ===== src/Rooms/Manager/Codes.antt =====
-- `allocate_code` of backend/app/rooms/manager.py: draws, with a scan of the whole range behind them.
use ephemeral_rooms.Prelude.{
  ℕ, zero, suc, ◌+◌, ◌/◌, ◌%◌, Option, none, some, [], ◌∷◌, if◌then◌else◌, leb, length, Text,
}
use ephemeral_rooms.Dict.{Dict, has}

abbrev pub code_low : ℕ
code_low = 1000

abbrev pub code_high : ℕ
code_high = 9999

-- `str(n)` of a number with four decimal digits, as every room code that is allocated has.
unfoldable pub str : ℕ → Text
str n = (48 + n / 1000 % 10) ∷ (48 + n / 100 % 10) ∷ (48 + n / 10 % 10) ∷ (48 + n % 10) ∷ []

-- Up to `n` tries: `draws k` is the k-th value of `secrets.randbelow(span)`.
unfoldable pub try_draws : ℕ → ℕ → (ℕ → ℕ) → Dict Text → Option Text
try_draws zero k draws rooms = none
try_draws (suc n) k draws rooms =
    let rest = try_draws n (suc k) draws rooms in
    let code = str (code_low + draws k) in if has rooms code then rest else some code

-- `range(candidate, candidate + n)`, first unused.
unfoldable pub scan : ℕ → ℕ → Dict Text → Option Text
scan zero candidate rooms = none
scan (suc n) candidate rooms =
    let rest = scan n (suc candidate) rooms in
    if has rooms (str candidate) then rest else some (str candidate)

abbrev pub or_else : Option Text → Option Text → Option Text
or_else none later = later
or_else (some code) later = some code

-- `none` is `NoCodesAvailableError`.
unfoldable pub allocate_code : ℕ → (ℕ → ℕ) → Dict Text → Option Text
allocate_code max_rooms draws rooms =
    if leb max_rooms (length rooms)
    then none
    else or_else (try_draws 200 0 draws rooms) (scan 9000 code_low rooms)
