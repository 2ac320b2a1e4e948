-- ===== src/Files/Routes/Range/Laws.antt =====
-- The headers that `_CONTENT_RANGE` of backend/app/files/routes.py accepts, and what it reads.
use ephemeral_rooms.Prelude.{
  ◌≡◌, ◌≢◌, ◌↔◌, ◌⊎◌, inl, inr, refl, sym, ap, true, false, none, some, [], ◌∷◌, ◌++◌, Text, codes,
  same, same_iff, All, arith, Bool-cases, Option-cases, Option, subst, ◌∙◌,
}
use mathlib.Core.List.{append-nil}
use ephemeral_rooms.Util.Decimal.{is_digit}
use ephemeral_rooms.Files.Routes.Range.{
  after, span_digits, grouped, digits_then, is_number, is_total, match_range,
}

abbrev pub IsDigits : Text → Type 0
IsDigits s = All (λ c. is_digit c ≡ true) s

-- One digit or more.
abbrev pub IsNumber : Text → Type 0
IsNumber s = (s ≢ []) × IsDigits s

-- No digit comes first.
abbrev pub IsPlain : Text → Type 0
IsPlain [] = Unit
IsPlain (c ∷ s) = is_digit c ≡ false

after-append : (literal s : Text) → after literal (literal ++ s) ≡ some s
unfolding after
after-append [] s = refl
after-append (c ∷ literal) s = ground (arith, after-append literal s)

after_sound : (literal h s : Text) → after literal h ≡ some s → h ≡ literal ++ s
unfolding after
after_sound [] h s e = ground arith
after_sound (c ∷ literal) [] s e = absurd (ground arith)
after_sound (c ∷ literal) (d ∷ h) s e = ground (arith, after_sound literal h s)

span_digits-append : (d s : Text) → IsDigits d → IsPlain s → span_digits (d ++ s) ≡ (d, s)
unfolding span_digits
span_digits-append [] [] h p = refl
span_digits-append [] (c ∷ s) h p = ground arith
span_digits-append (c ∷ d) s (here, later) p = ground (arith, span_digits-append d s later p)

span_digits_sound :
    (h : Text) → (h ≡ (span_digits h).0 ++ (span_digits h).1) × IsDigits (span_digits h).0
unfolding span_digits
span_digits_sound [] = (refl, tt)
span_digits_sound (c ∷ h) = elim (Bool-cases (is_digit c)) [
  | inl digit ↦ let (e, all) = span_digits_sound h in rw digit (ap (λ t. c ∷ t) e, (digit, all))
  | inr plain ↦ rw plain (refl, tt)
]

digits_then-append :
    (literal d s : Text)
    → IsNumber d
    → IsPlain (literal ++ s)
    → digits_then literal (d ++ (literal ++ s)) ≡ some (d, s)
unfolding digits_then
digits_then-append literal [] s (some_digit, digits) p = absurd (some_digit refl)
digits_then-append literal (c ∷ d) s (some_digit, digits) p =
    rw (span_digits-append (c ∷ d) (literal ++ s) digits p, after-append literal s) refl

grouped_sound :
    (d : Text) (o : Option Text) (g s : Text)
    → grouped d o ≡ some (g, s)
    → (d ≡ g) × (o ≡ some s) × (g ≢ [])
grouped_sound [] o g s e = absurd (ground arith)
grouped_sound (c ∷ d) none g s e = absurd (ground arith)
grouped_sound (c ∷ d) (some rest) g s e = (ground arith, ground arith, ground arith)

digits_then_sound :
    (literal h d s : Text)
    → digits_then literal h ≡ some (d, s)
    → (h ≡ d ++ (literal ++ s)) × IsNumber d
unfolding digits_then
digits_then_sound literal h d s e =
    let (same_digits, rest, some_digit) =
      grouped_sound (span_digits h).0 (after literal (span_digits h).1) d s e in
    let (split, digits) = span_digits_sound h in
    (
      split
          ∙ ap (λ t. t ++ (span_digits h).1) same_digits
          ∙ ap (λ t. d ++ t) (after_sound literal (span_digits h).1 s rest),
      (some_digit, subst IsDigits same_digits digits),
    )

abbrev pub IsTotal : Text → Type 0
IsTotal t = IsNumber t ⊎ (t ≡ codes "*")

is_number_sound : (p : Text × Text) → is_number p ≡ true → (p.0 ≢ []) × (p.1 ≡ [])
is_number_sound ([], rest) h = absurd (ground arith)
is_number_sound (c ∷ digits, []) h = (ground arith, refl)
is_number_sound (c ∷ digits, d ∷ rest) h = absurd (ground arith)

is_total_sound : (t : Text) → is_total t ≡ true → IsTotal t
unfolding is_total
is_total_sound t h = elim (Bool-cases (is_number (span_digits t))) [
  | inl number ↦
      let (some_digit, nothing_left) = is_number_sound (span_digits t) number in
      let (split, digits) = span_digits_sound t in
      let whole =
        split ∙ ap (λ r. (span_digits t).0 ++ r) nothing_left ∙ append-nil (span_digits t).0 in
      inl (subst IsNumber (sym whole) (some_digit, digits))
  | inr other ↦ inr (ground (arith, same_iff t (codes "*")))
]

is_total_complete : (t : Text) → IsTotal t → is_total t ≡ true
unfolding is_total
is_total_complete t (inr star) = unfold span_digits same in rw star refl
is_total_complete [] (inl (some_digit, digits)) = absurd (some_digit refl)
is_total_complete (c ∷ t) (inl (some_digit, digits)) =
    let whole =
      ap span_digits (sym (append-nil (c ∷ t))) ∙ span_digits-append (c ∷ t) [] digits tt in
    rw whole refl

-- The header for a range.
abbrev pub range_of : Text → Text → Text → Text
range_of start end total = codes "bytes " ++ (start ++ (codes "-" ++ (end ++ (codes "/" ++ total))))

match_range-eq :
    (header s start t end total : Text)
    → after (codes "bytes ") header ≡ some s
    → digits_then (codes "-") s ≡ some (start, t)
    → digits_then (codes "/") t ≡ some (end, total)
    → is_total total ≡ true
    → match_range header ≡ some (start, end)
unfolding match_range after
match_range-eq header s start t end total e e1 e2 e3 = rw (e, e1, e2, e3) refl

match_range_complete :
    (start end total : Text)
    → IsNumber start
    → IsNumber end
    → IsTotal total
    → match_range (range_of start end total) ≡ some (start, end)
match_range_complete start end total s e t =
    let behind = codes "/" ++ total in
    let rest = end ++ behind in
    match_range-eq (range_of start end total) (start ++ (codes "-" ++ rest)) start rest end total
      (after-append (codes "bytes ") (start ++ (codes "-" ++ rest)))
      (digits_then-append (codes "-") start rest s refl)
      (digits_then-append (codes "/") end total e refl) (is_total_complete total t)

the_groups :
    (a b start end : Text)
    → ◌≡◌ {A = Option (Text × Text)} (some (a, b)) (some (start, end))
    → (a ≡ start) × (b ≡ end)
the_groups a b start end e = (ground arith, ground arith)

match_range_sound :
    (header start end : Text)
    → match_range header ≡ some (start, end)
    → (total : Text) × (header ≡ range_of start end total)
      × IsNumber start
      × IsNumber end
      × IsTotal total
unfolding match_range
match_range_sound header start end h = elim (Option-cases (after (codes "bytes ") header)) [
  | inl e ↦ absurd (ground (arith, e))
  | inr (s, e) ↦ elim (Option-cases (digits_then (codes "-") s)) [
    | inl e1 ↦ absurd (ground (arith, e, e1))
    | inr ((a, t), e1) ↦ elim (Option-cases (digits_then (codes "/") t)) [
      | inl e2 ↦ absurd (ground (arith, e, e1, e2))
      | inr ((b, total), e2) ↦ elim (Bool-cases (is_total total)) [
        | inr e3 ↦ absurd (ground (arith, e, e1, e2, e3))
        | inl e3 ↦
            let (split, number) = digits_then_sound (codes "-") s a t e1 in
            let (split', number') = digits_then_sound (codes "/") t b total e2 in
            let (is_start, is_end) = the_groups a b start end (ground (arith, e, e1, e2, e3)) in
            (
              total,
              after_sound (codes "bytes ") header s e
                  ∙ ap (λ r. codes "bytes " ++ r) (split ∙ ap (λ r. a ++ (codes "-" ++ r)) split')
                  ∙ ap (λ k. range_of k b total) is_start
                  ∙ ap (λ k. range_of start k total) is_end,
              subst IsNumber is_start number,
              subst IsNumber is_end number',
              is_total_sound total e3,
            )
      ]
    ]
  ]
]

-- The matching of a Content-Range header finds a start and an end exactly when the header reads
-- `bytes <start>-<end>/<total>`, with one digit or more in the start and in the end, and digits or
-- an asterisk for the total.
pub match_range_iff :
    (header start end : Text)
    → (match_range header ≡ some (start, end)) ↔ (
        (total : Text) × (header ≡ range_of start end total)
        × IsNumber start
        × IsNumber end
        × IsTotal total)
match_range_iff header start end = (
  match_range_sound header start end,
  λ (total, form, s, e, t). ap match_range form ∙ match_range_complete start end total s e t,
)
