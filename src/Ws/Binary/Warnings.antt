-- ===== src/Ws/Binary/Warnings.antt =====
-- How often `_warn` of backend/app/ws/connection.py repeats itself.
use ephemeral_rooms.Prelude.{
  ℕ, ◌+◌, ◌-◌, ◌≤◌, ◌≡◌, ◌⊎◌, inl, inr, Bool, true, false, Option, none, some, List, [], ◌∷◌,
  if◌then◌else◌, ltb, Text, same, arith, same_iff, Bool-cases, Option-cases, subst,
}
use ephemeral_rooms.Dict.{Dict, get, get-put}
use ephemeral_rooms.Ws.Binary.{capacity_warning_interval, warn, Sent}

-- Whether a call says anything.
abbrev says : List Sent → Bool
says [] = false
says (s ∷ sent) = true

-- The times at which `code` is said, over calls with a code and a time each.
abbrev pub said : Text → List (Text × ℕ) → Dict ℕ → List ℕ
said code [] warned = []
said code ((c, now) ∷ calls) warned =
    let (warned', sent) = warn c now warned in
    let rest = said code calls warned' in
    if same c code then (if says sent then now ∷ rest else rest) else rest

-- Each at least the interval behind the one before, and the first behind `last`.
abbrev pub AreSpaced : Option ℕ → List ℕ → Type 0
AreSpaced last [] = Unit
AreSpaced none (t ∷ ts) = AreSpaced (some t) ts
AreSpaced (some last) (t ∷ ts) = (last + capacity_warning_interval ≤ t) × AreSpaced (some t) ts

AreSpaced-cons :
    (last : Option ℕ) (t : ℕ) (ts : List ℕ)
    → AreSpaced last (t ∷ [])
    → AreSpaced (some t) ts
    → AreSpaced last (t ∷ ts)
AreSpaced-cons none t ts first later = later
AreSpaced-cons (some last) t ts first later = (first.0, later)

-- One call, seen from one code.
warn_lem :
    (c code : Text) (now : ℕ) (warned : Dict ℕ)
    → let o = warn c now warned in
      ((same c code ≡ false) × (get o.0 code ≡ get warned code))
      ⊎ ((same c code ≡ true) × (says o.1 ≡ false) × (get o.0 code ≡ get warned code))
      ⊎ ((same c code ≡ true)
          × (says o.1 ≡ true)
          × (get o.0 code ≡ some now)
          × AreSpaced (get warned code) (now ∷ []))
unfolding warn
warn_lem c code now warned = elim (Bool-cases (same c code)) [
  | inr other ↦ inl (other, ground (arith, get-put warned c code now))
  | inl here ↦ elim (Option-cases (get warned c)) [
    | inl first ↦ inr (
        inr (
          here,
          ground arith,
          ground (arith, get-put warned c code now),
          subst (λ k. AreSpaced (get warned k) (now ∷ [])) ((same_iff c code).0 here) (rw first tt),
        ))
    | inr (last, e) ↦ elim (Bool-cases (ltb (now - last) capacity_warning_interval)) [
      | inl early ↦ inr (inl (here, ground arith, ground arith))
      | inr due ↦ inr (
          inr (
            here,
            ground arith,
            ground (arith, get-put warned c code now),
            subst (λ k. AreSpaced (get warned k) (now ∷ [])) ((same_iff c code).0 here)
                (rw e (ground arith, tt)),
          ))
    ]
  ]
]

-- However often a session runs into the capacity, any two successive warnings with the same code
-- are at least 30 seconds apart, and the first is as far from the last one before.
pub said-AreSpaced :
    (code : Text) (calls : List (Text × ℕ)) (warned : Dict ℕ)
    → AreSpaced (get warned code) (said code calls warned)
said-AreSpaced code [] warned = tt
said-AreSpaced code ((c, now) ∷ calls) warned =
    let rest = said-AreSpaced code calls (warn c now warned).0 in
    let later = said code calls (warn c now warned).0 in
    elim (warn_lem c code now warned) [
      | inl (other, e) ↦ rw other (subst (λ o. AreSpaced o later) e rest)
      | inr (inl (here, quiet, e)) ↦ rw (here, quiet) (subst (λ o. AreSpaced o later) e rest)
      | inr (inr (here, loud, e, due)) ↦
          rw (here, loud)
            (AreSpaced-cons (get warned code) now later due (subst (λ o. AreSpaced o later) e rest))
    ]
