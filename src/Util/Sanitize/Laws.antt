-- ===== src/Util/Sanitize/Laws.antt =====
-- The characters and the length of a cleaned text, in backend/app/util/sanitize.py.
use ephemeral_rooms.Prelude.{
  ℕ, ◌≤◌, ◌<◌, ◌≡◌, ◌≢◌, ◌⊎◌, inl, inr, refl, Bool, true, false, List, [], ◌∷◌, ◌++◌, map,
  if◌then◌else◌, Text, length, take, All, All-append, All-take, keep, arith, Bool-cases,
  length-take-le,
}
use ephemeral_rooms.Util.Sanitize.{
  Unicode, other, is_kept, is_directional, strip_unsafe, is_space, split_from, join_words, lstrip,
  rstrip, strip, cons_word, or_text, clean_text, no_separator, file_fallback,
}

-- A property of each character survives the steps of the cleaning.
module _ (P : ℕ → Type 0) where
  All-keep : (p : ℕ → Bool) (s : Text) → ((c : ℕ) → p c ≡ true → P c) → All P (keep p s)
  All-keep p [] h = tt
  All-keep p (c ∷ s) h = elim (Bool-cases (p c)) [
    | inl kept ↦ rw kept (h c kept, All-keep p s h)
    | inr lost ↦ rw lost (All-keep p s h)
  ]

  All-cons_word :
      (w : Text) (ws : List Text) → All P w → All (All P) ws → All (All P) (cons_word w ws)
  All-cons_word [] ws h hs = hs
  All-cons_word (c ∷ w) ws h hs = (h, hs)

  All-split_from : (w s : Text) → All P w → All P s → All (All P) (split_from w s)
  unfolding split_from
  All-split_from w [] hw hs = All-cons_word w [] hw tt
  All-split_from w (c ∷ s) hw (hc, hs) = elim (Bool-cases (is_space c)) [
    | inl space ↦ rw space (All-cons_word w (split_from [] s) hw (All-split_from [] s tt hs))
    | inr glyph ↦ rw glyph (All-split_from (w ++ c ∷ []) s (All-append P w (c ∷ []) hw (hc, tt)) hs)
  ]

  All-join_words : (ws : List Text) → P 32 → All (All P) ws → All P (join_words ws)
  unfolding join_words
  All-join_words [] sp h = tt
  All-join_words (w ∷ []) sp (h, _) = h
  All-join_words (w ∷ v ∷ ws) sp (h, hs) =
      All-append P w (32 ∷ join_words (v ∷ ws)) h (sp, All-join_words (v ∷ ws) sp hs)

  All-lstrip : (s : Text) → All P s → All P (lstrip s)
  unfolding lstrip
  All-lstrip [] h = tt
  All-lstrip (c ∷ s) (hc, hs) = elim (Bool-cases (is_space c)) [
    | inl space ↦ rw space (All-lstrip s hs)
    | inr glyph ↦ rw glyph (hc, hs)
  ]

  All-rstrip : (s : Text) → All P s → All P (rstrip s)
  unfolding rstrip
  All-rstrip [] h = tt
  All-rstrip (c ∷ s) (hc, hs) = go (rstrip s) (All-rstrip s hs)
    where
      last : (b : Bool) → All P (if b then [] else c ∷ [])
      last true = tt
      last false = (hc, tt)

      go :
          (t : Text)
          → All P t
          → All P (elim t [ [] ↦ if is_space c then [] else c ∷ [] | d ∷ u ↦ c ∷ d ∷ u ])
      go [] h = last (is_space c)
      go (d ∷ u) h = (hc, h)

  All-or_text : (s fallback : Text) → All P s → All P fallback → All P (or_text s fallback)
  All-or_text [] fallback hs hf = hf
  All-or_text (c ∷ s) fallback hs hf = hs

  -- What holds of the kept characters, of a space and of the fallback holds of the cleaned text.
  pub All-clean_text :
      (uc : Unicode) (raw : Text) (max_chars : ℕ) (fallback : Text)
      → ((c : ℕ) → is_kept uc c ≡ true → P c)
      → P 32
      → All P fallback
      → All P (clean_text uc raw max_chars fallback)
  unfolding clean_text strip strip_unsafe
  All-clean_text uc raw max_chars fallback kept sp hf =
      let text = uc.normalize_nfc raw in
      let words = split_from [] (strip_unsafe uc text) in
      All-or_text _ fallback
        (All-rstrip _ (
          All-lstrip _ (
            All-take P max_chars (join_words words) (
              All-join_words words sp
                (All-split_from [] (strip_unsafe uc text) tt (All-keep (is_kept uc) text kept))))))
        hf

length-lstrip-le : (s : Text) → length (lstrip s) ≤ length s
unfolding lstrip
length-lstrip-le [] = omega arith
length-lstrip-le (c ∷ s) = ground (arith, length-lstrip-le s)

length-rstrip-le : (s : Text) → length (rstrip s) ≤ length s
unfolding rstrip
length-rstrip-le [] = omega arith
length-rstrip-le (c ∷ s) = ground (arith, length-rstrip-le s)

or_text-cases :
    (s fallback : Text) → ((or_text s fallback ≡ s) × (s ≢ [])) ⊎ (or_text s fallback ≡ fallback)
or_text-cases [] fallback = inr refl
or_text-cases (c ∷ s) fallback = inl (refl, λ e. ground arith)

-- A cleaned text is within the cap and not empty, or it is the fallback.
pub clean_text-Capped :
    (uc : Unicode) (raw : Text) (max_chars : ℕ) (fallback : Text)
    → let name = clean_text uc raw max_chars fallback in
      ((length name ≤ max_chars) × (name ≢ [])) ⊎ (name ≡ fallback)
unfolding clean_text strip
clean_text-Capped uc raw max_chars fallback =
    let taken =
      take max_chars (join_words (split_from [] (strip_unsafe uc (uc.normalize_nfc raw)))) in
    elim (or_text-cases (rstrip (lstrip taken)) fallback) [
      | inl (e, some_left) ↦ inl (
          rw e (
            omega (
              arith,
              length-rstrip-le (lstrip taken),
              length-lstrip-le taken,
              length-take-le max_chars
                  (join_words (split_from [] (strip_unsafe uc (uc.normalize_nfc raw)))),
            ),
            some_left,
          ))
      | inr e ↦ inr e
    ]

pub length-map : (f : ℕ → ℕ) (s : Text) → length (map f s) ≡ length s
length-map f [] = refl
length-map f (c ∷ s) = omega (arith, length-map f s)

pub All-map :
    (P Q : ℕ → Type 0) (f : ℕ → ℕ) (s : Text)
    → ((c : ℕ) → P c → Q (f c))
    → All P s
    → All Q (map f s)
All-map P Q f [] h hs = tt
All-map P Q f (c ∷ s) h (hc, hs) = (h c hc, All-map P Q f s h hs)

-- A character that a filename may have: kept by `_strip_unsafe`, and no path separator.
abbrev pub IsPlain : Unicode → ℕ → Type 0
IsPlain uc c = (is_kept uc c ≡ true) × (c ≢ 47) × (c ≢ 92)

-- Printable ASCII has no control category.
abbrev pub KeepsAscii : Unicode → Type 0
KeepsAscii uc = (c : ℕ) → 32 ≤ c → c < 127 → uc.category c ≡ other

-- What a client can rely on for a filename that the server shows.
pub record IsSafeName (uc : Unicode) (max_chars : ℕ) (name : Text) : Type 0 where
  pub plain : All (IsPlain uc) name
  pub not_empty : name ≢ []
  pub not_here : name ≢ 46 ∷ []
  pub not_parent : name ≢ 46 ∷ 46 ∷ []
  pub capped : (length name ≤ max_chars) ⊎ (name ≡ file_fallback)

pub no_separator-IsPlain :
    (uc : Unicode) → KeepsAscii uc → (c : ℕ) → is_kept uc c ≡ true → IsPlain uc (no_separator c)
unfolding no_separator is_kept is_directional
no_separator-IsPlain uc ascii c kept = ground (arith, ascii 95)

pub is_kept-ascii :
    (uc : Unicode) → KeepsAscii uc → (c : ℕ) → 32 ≤ c → c < 127 → is_kept uc c ≡ true
unfolding is_kept is_directional
is_kept-ascii uc ascii c low high = ground (arith, ascii c)
