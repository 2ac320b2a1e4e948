-- ===== src/Http/Security/Laws.antt =====
-- The headers that backend/app/security.py adds to a response.
use ephemeral_rooms.Prelude.{
  ℕ, suc, ◌+◌, ◌≡◌, inl, inr, refl, Bool, true, false, not, ◌&&◌, ◌||◌, subst, List, [], ◌∷◌, ◌++◌,
  if◌then◌else◌, ltb, any, same, same_iff, same_refl, All, arith, Bool-cases,
}
use ephemeral_rooms.Dict.{get, has}
use ephemeral_rooms.Dict.Distinct.{Distinct}
use ephemeral_rooms.Storage.FileStore.{Bytes}
use ephemeral_rooms.Http.Security.{
  Headers, base_headers, hsts_name, lower, present_names, missing, hsts_headers, with_headers,
}

-- How many headers have this name, in any case of letters.
abbrev pub count : Bytes → Headers → ℕ
count n [] = 0
count n ((m, v) ∷ hs) = let rest = count n hs in if same (lower m) n then suc rest else rest

pub count-append : (n : Bytes) (a b : Headers) → count n (a ++ b) ≡ count n a + count n b
count-append n [] b = omega arith
count-append n (h ∷ a) b = ground (arith, count-append n a b)

present-count :
    (n : Bytes) (hs : Headers) → any (λ p. same p n) (present_names hs) ≡ ltb 0 (count n hs)
present-count n [] = refl
present-count n ((m, v) ∷ hs) = ground (arith, present-count n hs)

-- Names in small letters.
abbrev pub IsLower : Headers → Type 0
IsLower hs = All (λ (h : Bytes × Bytes). lower h.0 ≡ h.0) hs

count_absent :
    (n : Bytes) (present : List Bytes) (base : Headers)
    → IsLower base
    → has base n ≡ false
    → count n (missing present base) ≡ 0
unfolding missing has get
count_absent n present [] low absent = refl
count_absent n present ((m, v) ∷ base) (here, low) absent =
    ground (arith, count_absent n present base low)

count-missing :
    (n : Bytes) (present : List Bytes) (base : Headers)
    → Distinct base
    → IsLower base
    → count n (missing present base)
      ≡ (if has base n && not (any (λ p. same p n) present) then 1 else 0)
unfolding missing has get
count-missing n present [] distinct low = refl
count-missing n present ((m, v) ∷ base) (new, distinct) (here, low) = elim (Bool-cases (same m n)) [
  | inl h ↦
      subst
        (λ k.
          count k (missing present ((m, v) ∷ base))
          ≡ (if has ((m, v) ∷ base) k && not (any (λ p. same p k) present) then 1 else 0))
        ((same_iff m n).0 h)
        (ground (arith, here, same_refl m, count_absent m present base low (ground (arith, new))))
  | inr h ↦ ground (arith, here, h, count-missing n present base distinct low)
]

base_headers-Distinct : Distinct base_headers
unfolding get same
base_headers-Distinct = (refl, (refl, (refl, (refl, (refl, (refl, (refl, tt)))))))

pub base_headers-IsLower : IsLower base_headers
unfolding lower
base_headers-IsLower = (refl, (refl, (refl, (refl, (refl, (refl, (refl, tt)))))))

-- How many the middleware's own policy adds.
abbrev pub added : Bool → Bytes → Headers → ℕ
added secure n hs =
    if ltb 0 (count n hs)
    then 0
    else if has base_headers n || (secure && same hsts_name n)
    then 1
    else 0

hsts_count :
    (secure : Bool) (n : Bytes) (present : List Bytes)
    → count n (hsts_headers secure present)
      ≡ (if secure && same hsts_name n && not (any (λ p. same p n) present) then 1 else 0)
unfolding lower
hsts_count secure n present = elim (Bool-cases (same hsts_name n)) [
  | inl h ↦
      subst
        (λ k.
          count k (hsts_headers secure present)
          ≡ (if secure && same hsts_name k && not (any (λ p. same p k) present) then 1 else 0))
        ((same_iff hsts_name n).0 h) (ground (arith, same_refl hsts_name))
  | inr h ↦ ground (arith, h)
]

count_all :
    (secure : Bool) (n : Bytes) (hs base : Headers)
    → Distinct base
    → IsLower base
    → has base hsts_name ≡ false
    → let present = present_names hs in
      count n (hs ++ (missing present base ++ hsts_headers secure present))
      ≡ count n hs
        + (if ltb 0 (count n hs)
            then 0
            else if has base n || (secure && same hsts_name n)
            then 1
            else 0)
count_all secure n hs base distinct low none_such =
    let present = present_names hs in
    let tail = missing present base ++ hsts_headers secure present in
    let only : same hsts_name n ≡ true → has base n ≡ false =
      λ h. subst (λ k. has base k ≡ false) ((same_iff hsts_name n).0 h) none_such in
    ground (
      arith,
      count-append n hs tail,
      count-append n (missing present base) (hsts_headers secure present),
      count-missing n present base distinct low,
      hsts_count secure n present,
      present-count n hs,
      only,
    )

pub count-with_headers :
    (secure : Bool) (n : Bytes) (hs : Headers)
    → count n (with_headers secure hs) ≡ count n hs + added secure n hs
unfolding with_headers
count-with_headers secure n hs =
    count_all secure n hs base_headers base_headers-Distinct base_headers-IsLower
      (unfold has get same in refl)
