-- ===== src/Files/Routes/Disposition.antt =====
-- `_content_disposition` of backend/app/files/routes.py: the header that names a download.
use ephemeral_rooms.Prelude.{
  ℕ, ◌+◌, ◌-◌, ◌*◌, ap, ◌/◌, ◌%◌, ◌≤◌, ◌<◌, ◌≡◌, ◌≢◌, ◌⊎◌, inl, inr, refl, Bool, true, false, ◌&&◌,
  ◌||◌, [], ◌∷◌, ◌++◌, map, if◌then◌else◌, ◌==◌, ltb, leb, any, Text, codes, All, All-append,
  All-weaken, arith, Bool-cases, ◌∙◌,
}
use ephemeral_rooms.Storage.FileStore.{Bytes}
use ephemeral_rooms.Util.Sanitize.{Unicode, cc, is_kept, clean_filename}
use ephemeral_rooms.Util.Sanitize.Laws.{IsPlain, KeepsAscii, All-map}
use ephemeral_rooms.Util.Sanitize.Filename.{clean_filename-IsSafeName}
use ephemeral_rooms.Util.Utf8.{utf8, utf8_of}

-- `filename.encode("ascii", "replace").decode("ascii").replace('"', "_")`
abbrev pub ascii_char : ℕ → ℕ
ascii_char c = if ltb c 128 then (if c == 34 then 95 else c) else 63

unfoldable pub ascii_fallback : Text → Text
ascii_fallback filename = map ascii_char filename

-- The bytes that `quote(…, safe='')` leaves as they are: letters, digits and `_.-~`.
abbrev pub is_unreserved : ℕ → Bool
is_unreserved b =
    (leb 48 b && leb b 57)
    || (leb 65 b && leb b 90)
    || (leb 97 b && leb b 122)
    || any (λ c. b == c) (codes "_.-~")

-- A digit of `%02X`.
abbrev pub hex_digit : ℕ → ℕ
hex_digit n = if ltb n 10 then 48 + n else 55 + n

abbrev pub quote_byte : ℕ → Text
quote_byte b =
    if is_unreserved b then b ∷ [] else 37 ∷ hex_digit (b / 16 % 16) ∷ hex_digit (b % 16) ∷ []

abbrev pub quote_bytes : Bytes → Text
quote_bytes [] = []
quote_bytes (b ∷ bs) = quote_byte b ++ quote_bytes bs

unfoldable pub quote : Text → Text
quote filename = quote_bytes (utf8 filename)

unfoldable pub content_disposition : Text → Text
content_disposition filename =
    codes "attachment; filename=\""
    ++ (ascii_fallback filename ++ (codes "\"; filename*=UTF-8''" ++ quote filename))

-- What a browser makes of it: RFC 5987's percent-decoding.
abbrev pub hex_value : ℕ → ℕ
hex_value c = if ltb c 65 then c - 48 else c - 55

abbrev pub unquote : Text → Bytes
unquote [] = []
unquote (c ∷ []) = c ∷ []
unquote (c ∷ h ∷ []) = c ∷ h ∷ []
unquote (c ∷ h ∷ l ∷ s) =
    let plain = unquote (h ∷ l ∷ s) in
    let later = unquote s in if c == 37 then (16 * hex_value h + hex_value l) ∷ later else c ∷ plain

unquote-cons : (c : ℕ) (s : Text) → (c == 37) ≡ false → unquote (c ∷ s) ≡ c ∷ unquote s
unquote-cons c [] ne = refl
unquote-cons c (h ∷ []) ne = refl
unquote-cons c (h ∷ l ∷ s) ne = rw ne refl

hex_byte :
    (b : ℕ)
    → b < 256
    → 16 * hex_value (hex_digit (b / 16 % 16)) + hex_value (hex_digit (b % 16)) ≡ b
hex_byte b small = ground arith

unreserved_ne : (b : ℕ) → is_unreserved b ≡ true → (b == 37) ≡ false
unreserved_ne b h = ground arith

unquote-quote_byte : (b : ℕ) (s : Text) → b < 256 → unquote (quote_byte b ++ s) ≡ b ∷ unquote s
unquote-quote_byte b s small = elim (Bool-cases (is_unreserved b)) [
  | inl plain ↦ rw plain (unquote-cons b s (unreserved_ne b plain))
  | inr quoted ↦ rw quoted (ap (λ c. c ∷ unquote s) (hex_byte b small))
]

abbrev pub IsByte : ℕ → Type 0
IsByte b = b < 256

utf8_of-IsByte : (c : ℕ) → c < 1114112 → All IsByte (utf8_of c)
utf8_of-IsByte c h = ground arith

unquote-quote_bytes : (bs : Bytes) → All IsByte bs → unquote (quote_bytes bs) ≡ bs
unquote-quote_bytes [] h = refl
unquote-quote_bytes (b ∷ bs) (here, later) =
    unquote-quote_byte b (quote_bytes bs) here ∙ ap (λ s. b ∷ s) (unquote-quote_bytes bs later)

abbrev pub IsCodePoint : ℕ → Type 0
IsCodePoint c = c < 1114112

utf8-IsByte : (s : Text) → All IsCodePoint s → All IsByte (utf8 s)
unfolding utf8
utf8-IsByte [] h = tt
utf8-IsByte (c ∷ s) (here, later) =
    All-append IsByte (utf8_of c) (utf8 s) (utf8_of-IsByte c here) (utf8-IsByte s later)

-- The encoded name decodes to the name's UTF-8.
pub unquote-quote : (s : Text) → All IsCodePoint s → unquote (quote s) ≡ utf8 s
unfolding quote
unquote-quote s h = unquote-quote_bytes (utf8 s) (utf8-IsByte s h)

-- A character of a header's value, printable ASCII.
abbrev pub IsVisible : ℕ → Type 0
IsVisible c = (32 ≤ c) × (c < 127)

-- A character that stands for itself in a quoted string.
abbrev pub IsQuotable : ℕ → Type 0
IsQuotable c = IsVisible c × (c ≢ 34) × (c ≢ 92)

-- The control characters of ASCII have a control category.
abbrev pub HasControls : Unicode → Type 0
HasControls uc = (c : ℕ) → (c < 32) ⊎ (c ≡ 127) → uc.category c ≡ cc

no_control : (uc : Unicode) → HasControls uc → (c : ℕ) → is_kept uc c ≡ true → (32 ≤ c) × (c ≢ 127)
unfolding is_kept
no_control uc controls c kept = elim (Bool-cases (ltb c 32)) [
  | inl low ↦ absurd (ground (arith, controls c (inl (ground arith))))
  | inr high ↦ elim (Bool-cases (c == 127)) [
    | inl delete ↦ absurd (ground (arith, controls c (inr (ground arith))))
    | inr other ↦ (ground arith, ground arith)
  ]
]

ascii_char-IsQuotable :
    (uc : Unicode) → HasControls uc → (c : ℕ) → IsPlain uc c → IsQuotable (ascii_char c)
unfolding is_kept
ascii_char-IsQuotable uc controls c (kept, no_slash, no_backslash) =
    let (low, no_delete) = no_control uc controls c kept in ground arith

hex_digit-IsVisible : (n : ℕ) → n < 16 → IsVisible (hex_digit n)
hex_digit-IsVisible n h = ground arith

unreserved-IsVisible : (b : ℕ) → is_unreserved b ≡ true → IsVisible b
unreserved-IsVisible b h = ground arith

quote_byte-IsVisible : (b : ℕ) → b < 256 → All IsVisible (quote_byte b)
quote_byte-IsVisible b small = elim (Bool-cases (is_unreserved b)) [
  | inl plain ↦ rw plain (unreserved-IsVisible b plain, tt)
  | inr quoted ↦ rw quoted (
    (omega arith, omega arith),
    (
      hex_digit-IsVisible (b / 16 % 16) (omega arith),
      (hex_digit-IsVisible (b % 16) (omega arith), tt),
    ),
  )
]

quote_bytes-IsVisible : (bs : Bytes) → All IsByte bs → All IsVisible (quote_bytes bs)
quote_bytes-IsVisible [] h = tt
quote_bytes-IsVisible (b ∷ bs) (here, later) =
    All-append IsVisible (quote_byte b) (quote_bytes bs) (quote_byte-IsVisible b here)
      (quote_bytes-IsVisible bs later)

abbrev all_visible : Text → Bool
all_visible [] = true
all_visible (c ∷ s) = leb 32 c && ltb c 127 && all_visible s

all_visible_sound : (s : Text) → all_visible s ≡ true → All IsVisible s
all_visible_sound [] h = tt
all_visible_sound (c ∷ s) h = ((ground arith, ground arith), all_visible_sound s (ground arith))

-- What the header says for a name: only visible characters, and the quoted one ends where it should.
pub record IsSafeHeader (filename : Text) : Type 0 where
  pub visible : All IsVisible (content_disposition filename)
  pub quotable : All IsQuotable (ascii_fallback filename)
  pub decodes : unquote (quote filename) ≡ utf8 filename

-- The Content-Disposition header of a cleaned filename consists of printable ASCII characters; the
-- quoted name in it has no quote and no backslash; and the encoded name decodes to the UTF-8 of the
-- filename. Printable ASCII is taken to have no control category, the control characters of ASCII
-- to have one, and the name to consist of code points.
pub content_disposition-IsSafeHeader :
    (uc : Unicode) (raw : Text) (max_chars : ℕ)
    → KeepsAscii uc
    → HasControls uc
    → All IsCodePoint (clean_filename uc raw max_chars)
    → IsSafeHeader (clean_filename uc raw max_chars)
unfolding content_disposition quote ascii_fallback
content_disposition-IsSafeHeader uc raw max_chars ascii controls points =
    let name = clean_filename uc raw max_chars in
    let quotable =
      All-map (IsPlain uc) IsQuotable ascii_char name (ascii_char-IsQuotable uc controls)
        (clean_filename-IsSafeName uc raw max_chars ascii).plain in
    record {
      visible =
          All-append IsVisible (codes "attachment; filename=\"") _
            (all_visible_sound (codes "attachment; filename=\"") refl)
            (All-append IsVisible (ascii_fallback name) _
              (All-weaken IsQuotable IsVisible (ascii_fallback name) (λ c q. q.0) quotable)
              (All-append IsVisible (codes "\"; filename*=UTF-8''") _
                (all_visible_sound (codes "\"; filename*=UTF-8''") refl)
                (quote_bytes-IsVisible (utf8 name) (utf8-IsByte name points))));
      quotable = quotable;
      decodes = unquote-quote name points;
    }
