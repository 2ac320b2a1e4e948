-- ===== src/Util/Decimal.antt =====
-- Decimal numbers as Python reads them: `int` of a text, which backend/app/storage/memory.py and
-- backend/app/files/routes.py call. A `ValueError` is `none`.
use ephemeral_rooms.Prelude.{
  ℕ, ◌+◌, ◌-◌, ◌*◌, Bool, true, false, not, ◌&&◌, Option, none, some, [], ◌∷◌, if◌then◌else◌, ◌==◌,
  ltb, leb, length, Text,
}
use ephemeral_rooms.Prelude.Int.{ℤ, pos, neg}
use ephemeral_rooms.Util.Sanitize.{strip}

abbrev pub is_digit : ℕ → Bool
is_digit c = leb 48 c && leb c 57

-- The number that digits spell behind `n`.
abbrev pub value : ℕ → Text → ℕ
value n [] = n
value n (c ∷ s) = value (n * 10 + (c - 48)) s

-- `sys.int_info.default_max_str_digits`: `int` refuses a longer text.
abbrev pub max_str_digits : ℕ
max_str_digits = 4300

-- `int(digits)`
unfoldable pub int_digits : Text → Option ℕ
int_digits s = if ltb max_str_digits (length s) then none else some (value 0 s)

abbrev pub cons_digit : ℕ → Option Text → Option Text
cons_digit c none = none
cons_digit c (some s) = some (c ∷ s)

-- The digits of a text that may hold single underscores between them; `due` is whether a digit must
-- come next.
unfoldable pub ungrouped : Bool → Text → Option Text
ungrouped due [] = if due then none else some []
ungrouped due (c ∷ s) =
    let rest = ungrouped (not (is_digit c)) s in
    if is_digit c then cons_digit c rest else if (c == 95) && not due then rest else none

abbrev pub signed : Bool → Option ℕ → Option ℤ
signed minus none = none
signed minus (some n) = some (if minus then neg (pos n) else pos n)

abbrev pub int_ungrouped : Option Text → Option ℕ
int_ungrouped none = none
int_ungrouped (some s) = int_digits s

abbrev pub int_signed : Text → Option ℤ
int_signed [] = none
int_signed (c ∷ s) =
    if c == 45
    then signed true (int_ungrouped (ungrouped true s))
    else if c == 43
    then signed false (int_ungrouped (ungrouped true s))
    else signed false (int_ungrouped (ungrouped true (c ∷ s)))

-- `int(text)` of ASCII text.
unfoldable pub int : Text → Option ℤ
unfolding strip int_digits ungrouped
int text = int_signed (strip text)
