-- ===== src/Util/Sanitize.antt =====
-- backend/app/util/sanitize.py: the cleaning of user-supplied names. Python's Unicode database is a
-- parameter: NFC normalization, and the category of a character, as far as the code tests it.
pub mod Laws
pub mod Filename
use ephemeral_rooms.Prelude.{
  ℕ, Bool, true, false, ◌||◌, ◌&&◌, List, [], ◌∷◌, ◌++◌, map, if◌then◌else◌, ◌==◌, leb, Text, take,
  any, keep, not, same,
}

-- The categories that `_strip_unsafe` drops, and the others.
pub data Category : Type 0 where
  cc cf cs co cn other : Category

pub record Unicode : Type 0 where
  pub normalize_nfc : Text → Text
  pub category : ℕ → Category

abbrev pub is_unsafe_category : Category → Bool
is_unsafe_category other = false
is_unsafe_category _ = true

-- `_DIRECTIONAL`
abbrev pub directional : List ℕ
directional = 8234 ∷ 8235 ∷ 8236 ∷ 8237 ∷ 8238 ∷ 8294 ∷ 8295 ∷ 8296 ∷ 8297 ∷ 8206 ∷ 8207 ∷ 1564 ∷ []

unfoldable pub is_directional : ℕ → Bool
is_directional ch = any (λ d. ch == d) directional

unfoldable pub is_kept : Unicode → ℕ → Bool
unfolding is_directional
is_kept uc ch = not (is_directional ch) && not (is_unsafe_category (uc.category ch))

unfoldable pub strip_unsafe : Unicode → Text → Text
unfolding is_kept
strip_unsafe uc text = keep (is_kept uc) text

-- `str.isspace` of one character: what `split()` and `strip()` take for whitespace.
unfoldable pub is_space : ℕ → Bool
is_space ch =
    (leb 9 ch && leb ch 13)
    || (leb 28 ch && leb ch 32)
    || any (λ d. ch == d) (133 ∷ 160 ∷ 5760 ∷ 8232 ∷ 8233 ∷ 8239 ∷ 8287 ∷ 12288 ∷ [])
    || (leb 8192 ch && leb ch 8202)

-- A word before the words that follow it; an empty one is none.
abbrev pub cons_word : Text → List Text → List Text
cons_word [] words = words
cons_word (c ∷ w) words = (c ∷ w) ∷ words

-- `text.split()`; `word` holds the characters of the running word.
unfoldable pub split_from : Text → Text → List Text
unfolding is_space
split_from word [] = cons_word word []
split_from word (c ∷ s) =
    let ended = split_from [] s in
    let running = split_from (word ++ c ∷ []) s in
    if is_space c then cons_word word ended else running

-- `" ".join(words)`
unfoldable pub join_words : List Text → Text
join_words [] = []
join_words (w ∷ []) = w
join_words (w ∷ v ∷ ws) = w ++ 32 ∷ join_words (v ∷ ws)

unfoldable pub lstrip : Text → Text
unfolding is_space
lstrip [] = []
lstrip (c ∷ s) = let rest = lstrip s in if is_space c then rest else c ∷ s

-- The trailing whitespace goes: a character stays if anything after it does.
unfoldable pub rstrip : Text → Text
unfolding is_space
rstrip [] = []
rstrip (c ∷ s) = elim (rstrip s) [ [] ↦ if is_space c then [] else c ∷ [] | d ∷ t ↦ c ∷ d ∷ t ]

unfoldable pub strip : Text → Text
unfolding lstrip rstrip
strip s = rstrip (lstrip s)

abbrev pub or_text : Text → Text → Text
or_text [] fallback = fallback
or_text (c ∷ s) fallback = c ∷ s

unfoldable pub clean_text : Unicode → Text → ℕ → Text → Text
unfolding strip_unsafe split_from join_words strip
clean_text uc raw max_chars fallback =
    let text = strip_unsafe uc (uc.normalize_nfc raw) in
    let collapsed = join_words (split_from [] text) in
    or_text (strip (take max_chars collapsed)) fallback

abbrev pub untitled : Text
untitled = 117 ∷ 110 ∷ 116 ∷ 105 ∷ 116 ∷ 108 ∷ 101 ∷ 100 ∷ []

abbrev pub file_fallback : Text
file_fallback = 102 ∷ 105 ∷ 108 ∷ 101 ∷ []

unfoldable pub clean_display_name : Unicode → Text → ℕ → Text → Text
unfolding clean_text
clean_display_name uc raw max_chars fallback = clean_text uc raw max_chars fallback

unfoldable pub clean_document_name : Unicode → Text → ℕ → Text
unfolding clean_text
clean_document_name uc raw max_chars = clean_text uc raw max_chars untitled

-- `name.replace("/", "_").replace("\\", "_")` of one character.
unfoldable pub no_separator : ℕ → ℕ
no_separator ch = if ch == 47 then 95 else if ch == 92 then 95 else ch

unfoldable pub clean_filename : Unicode → Text → ℕ → Text
unfolding clean_text no_separator
clean_filename uc raw max_chars =
    let name = map no_separator (clean_text uc raw max_chars file_fallback) in
    if same name (46 ∷ []) || same name (46 ∷ 46 ∷ [])
    then file_fallback
    else or_text name file_fallback
