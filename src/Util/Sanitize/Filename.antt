-- ===== src/Util/Sanitize/Filename.antt =====
-- `clean_filename` of backend/app/util/sanitize.py, for any string that a client sends.
use ephemeral_rooms.Prelude.{
  if◌then◌else◌, ℕ, ◌≤◌, ◌<◌, ◌≡◌, ◌≢◌, ◌⊎◌, inl, inr, refl, true, ◌||◌, [], ◌∷◌, map, Text, length,
  All, arith, Bool-cases, same, same_iff,
}
use ephemeral_rooms.Util.Sanitize.{
  Unicode, is_kept, clean_text, clean_filename, no_separator, file_fallback, or_text,
}
use ephemeral_rooms.Util.Sanitize.Laws.{
  IsPlain, KeepsAscii, IsSafeName, no_separator-IsPlain, is_kept-ascii, All-clean_text, All-map,
  clean_text-Capped, length-map,
}

file_fallback-kept : (uc : Unicode) → KeepsAscii uc → All (λ c. is_kept uc c ≡ true) file_fallback
file_fallback-kept uc ascii =
    let kept : (c : ℕ) → 32 ≤ c → c < 127 → is_kept uc c ≡ true = is_kept-ascii uc ascii in
    (
      kept 102 (omega arith) (omega arith),
      (
        kept 105 (omega arith) (omega arith),
        (kept 108 (omega arith) (omega arith), (kept 101 (omega arith) (omega arith), tt)),
      ),
    )

file_fallback-IsPlain : (uc : Unicode) → KeepsAscii uc → All (IsPlain uc) file_fallback
unfolding no_separator
file_fallback-IsPlain uc ascii =
    All-map (λ c. is_kept uc c ≡ true) (IsPlain uc) no_separator file_fallback
      (no_separator-IsPlain uc ascii) (file_fallback-kept uc ascii)

file_fallback-IsSafeName :
    (uc : Unicode) (max_chars : ℕ) → KeepsAscii uc → IsSafeName uc max_chars file_fallback
file_fallback-IsSafeName uc max_chars ascii = record {
  plain = file_fallback-IsPlain uc ascii;
  not_empty = λ e. ground arith;
  not_here = λ e. ground arith;
  not_parent = λ e. ground arith;
  capped = inr refl;
}

separators_gone :
    (uc : Unicode) (raw : Text) (max_chars : ℕ)
    → KeepsAscii uc
    → All (IsPlain uc) (map no_separator (clean_text uc raw max_chars file_fallback))
separators_gone uc raw max_chars ascii =
    All-map (λ c. is_kept uc c ≡ true) (IsPlain uc) no_separator _ (no_separator-IsPlain uc ascii)
      (All-clean_text (λ c. is_kept uc c ≡ true) uc raw max_chars file_fallback (λ c h. h)
        (is_kept-ascii uc ascii 32 (omega arith) (omega arith)) (file_fallback-kept uc ascii))

map_capped :
    (max_chars : ℕ) (t : Text)
    → ((length t ≤ max_chars) × (t ≢ [])) ⊎ (t ≡ file_fallback)
    → ((length (map no_separator t) ≤ max_chars) × (map no_separator t ≢ []))
      ⊎ (map no_separator t ≡ file_fallback)
unfolding no_separator
map_capped max_chars [] (inl (le, ne)) = absurd (ne refl)
map_capped max_chars (c ∷ t) (inl (le, ne)) =
    inl (omega (arith, le, length-map no_separator t), λ e. ground arith)
map_capped max_chars t (inr e) = inr (rw e refl)

-- Whatever a client sends as a filename, the server's version of it is not empty, is neither `.`
-- nor `..`, has no path separator, no directional override and no control character, and is within
-- the cap unless it is the fallback. Printable ASCII is taken to have no control category.
pub clean_filename-IsSafeName :
    (uc : Unicode) (raw : Text) (max_chars : ℕ)
    → KeepsAscii uc
    → IsSafeName uc max_chars (clean_filename uc raw max_chars)
unfolding clean_filename
clean_filename-IsSafeName uc raw max_chars ascii =
    go (map no_separator (clean_text uc raw max_chars file_fallback))
      (separators_gone uc raw max_chars ascii)
      (map_capped max_chars _ (clean_text-Capped uc raw max_chars file_fallback))
  where
    kept :
        (t : Text)
        → All (IsPlain uc) t
        → ((length t ≤ max_chars) × (t ≢ [])) ⊎ (t ≡ file_fallback)
        → t ≢ 46 ∷ []
        → t ≢ 46 ∷ 46 ∷ []
        → IsSafeName uc max_chars (or_text t file_fallback)
    kept [] plain cap here parent = file_fallback-IsSafeName uc max_chars ascii
    kept (c ∷ t) plain cap here parent = record {
      plain = plain;
      not_empty = λ e. ground arith;
      not_here = here;
      not_parent = parent;
      capped = elim cap [ inl (le, ne) ↦ inl le | inr e ↦ inr e ];
    }

    go :
        (t : Text)
        → All (IsPlain uc) t
        → ((length t ≤ max_chars) × (t ≢ [])) ⊎ (t ≡ file_fallback)
        → IsSafeName uc max_chars (
            if same t (46 ∷ []) || same t (46 ∷ 46 ∷ [])
            then file_fallback
            else or_text t file_fallback)
    go t plain cap = elim (Bool-cases (same t (46 ∷ []) || same t (46 ∷ 46 ∷ []))) [
      | inl dots ↦ rw dots (file_fallback-IsSafeName uc max_chars ascii)
      | inr name ↦ rw name (
          kept t plain cap (λ e. ground (arith, same_iff t (46 ∷ []), name))
            (λ e. ground (arith, same_iff t (46 ∷ 46 ∷ []), name)))
    ]
