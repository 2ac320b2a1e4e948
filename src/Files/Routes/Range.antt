-- ===== src/Files/Routes/Range.antt =====
-- `_CONTENT_RANGE` of backend/app/files/routes.py: `^bytes (\d+)-(\d+)/(\d+|\*)$`, matched against
-- the stripped header. A header is Latin-1, so `\d` is an ASCII digit, and after `strip` no newline
-- is left for `$` to overlook. The parts of a match are those that the groups capture.
pub mod Laws
use ephemeral_rooms.Prelude.{
  Bool, true, false, ◌||◌, Option, none, some, [], ◌∷◌, if◌then◌else◌, ◌==◌, Text, codes, same,
}
use ephemeral_rooms.Util.Decimal.{is_digit}

-- What is left behind a literal.
unfoldable pub after : Text → Text → Option Text
after [] s = some s
after (c ∷ literal) [] = none
after (c ∷ literal) (d ∷ s) = let rest = after literal s in if c == d then rest else none

-- `\d*`, as far as it goes: what follows each of the groups is no digit.
unfoldable pub span_digits : Text → Text × Text
span_digits [] = ([], [])
span_digits (c ∷ s) =
    let (digits, rest) = span_digits s in if is_digit c then (c ∷ digits, rest) else ([], c ∷ s)

-- A group `(\d+)` and the literal behind it: what the group captures, and what is left.
abbrev pub grouped : Text → Option Text → Option (Text × Text)
grouped [] rest = none
grouped (c ∷ digits) none = none
grouped (c ∷ digits) (some rest) = some (c ∷ digits, rest)

unfoldable pub digits_then : Text → Text → Option (Text × Text)
digits_then literal s = let (digits, rest) = span_digits s in grouped digits (after literal rest)

abbrev pub is_number : Text × Text → Bool
is_number ([], rest) = false
is_number (c ∷ digits, []) = true
is_number (c ∷ digits, d ∷ rest) = false

-- `(\d+|\*)$`
unfoldable pub is_total : Text → Bool
is_total s = is_number (span_digits s) || same s (codes "*")

unfoldable pub match_range : Text → Option (Text × Text)
match_range header = elim (after (codes "bytes ") header) [
  | none ↦ none
  | some s ↦ elim (digits_then (codes "-") s) [
    | none ↦ none
    | some start ↦ elim (digits_then (codes "/") start.1) [
      | none ↦ none
      | some end ↦ if is_total end.1 then some (start.0, end.0) else none
    ]
  ]
]
