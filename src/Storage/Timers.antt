-- ===== src/Storage/Timers.antt =====
-- `SystemClock.schedule` and `AsyncioTimer` of backend/app/storage/fs.py. A clock holds the timers
-- whose task has neither been cancelled nor run its callback; a handle is the timer's identity.
-- What a callback does is data here, and the room interprets it.
use ephemeral_rooms.Prelude.{
  inl, inr, Option-cases, ℕ, suc, ◌+◌, ◌<◌, ◌≡◌, refl, Bool, true, false, Option, none, some, List,
  [], ◌∷◌, arith, if◌then◌else◌, ◌==◌, leb,
}

pub record Timer {ℓ} (A : Type ℓ) : Type ℓ where
  pub handle : ℕ
  pub due : ℕ
  pub callback : A

pub record Clock {ℓ} (A : Type ℓ) : Type ℓ where
  pub next_handle : ℕ
  pub pending : List (Timer A)

-- Whether a field that may hold a handle holds this one.
abbrev pub holds : Option ℕ → ℕ → Bool
holds none j = false
holds (some i) j = i == j

module _ {ℓ} {A : Type ℓ} where
  abbrev pub idle : Clock A
  idle = record { next_handle = 0; pending = [] }

  unfoldable pub find_in : ℕ → List (Timer A) → Option (Timer A)
  find_in i [] = none
  find_in i (t ∷ ts) = if t.handle == i then some t else find_in i ts

  unfoldable pub drop_in : ℕ → List (Timer A) → List (Timer A)
  drop_in i [] = []
  drop_in i (t ∷ ts) = let rest = drop_in i ts in if t.handle == i then rest else t ∷ rest

  -- Handles are never reused, so all pending ones lie below the next.
  unfoldable pub below_in : ℕ → List (Timer A) → Bool
  below_in n [] = true
  below_in n (t ∷ ts) = let rest = below_in n ts in if leb n t.handle then false else rest

  -- The timer that a handle stands for, while it can still run.
  unfoldable pub find : Clock A → ℕ → Option (Timer A)
  unfolding find_in
  find c i = find_in i c.pending

  -- `AsyncioTimer(delay_ms, callback)`, created at `now`.
  unfoldable pub schedule : Clock A → ℕ → ℕ → A → Clock A
  schedule c now delay_ms callback = record {
    next_handle = suc c.next_handle;
    pending =
        record { handle = c.next_handle; due = now + delay_ms; callback = callback } ∷ c.pending;
  }

  -- `cancel()`, and the end of a timer that has run.
  unfoldable pub cancel : Clock A → ℕ → Clock A
  unfolding drop_in
  cancel c i = record c { pending = drop_in i c.pending }

  -- `if timer is not None: timer.cancel()`
  unfoldable pub cancel_held : Clock A → Option ℕ → Clock A
  cancel_held c none = c
  cancel_held c (some i) = cancel c i

  find_in-drop_in :
      (i j : ℕ) (ts : List (Timer A))
      → find_in j (drop_in i ts) ≡ (if i == j then none else find_in j ts)
  unfolding find_in drop_in
  find_in-drop_in i j [] = ground arith
  find_in-drop_in i j (t ∷ ts) = ground (arith, find_in-drop_in i j ts)

  below_in-suc : (n : ℕ) (ts : List (Timer A)) → below_in n ts ≡ true → below_in (suc n) ts ≡ true
  unfolding below_in
  below_in-suc n [] h = refl
  below_in-suc n (t ∷ ts) h = ground (arith, below_in-suc n ts)

  below_in-drop_in :
      (n i : ℕ) (ts : List (Timer A)) → below_in n ts ≡ true → below_in n (drop_in i ts) ≡ true
  unfolding below_in drop_in
  below_in-drop_in n i [] h = refl
  below_in-drop_in n i (t ∷ ts) h = ground (arith, below_in-drop_in n i ts)

  find_in_lt :
      (n i : ℕ) (ts : List (Timer A)) (t : Timer A)
      → below_in n ts ≡ true
      → find_in i ts ≡ some t
      → i < n
  unfolding below_in find_in
  find_in_lt n i [] t h e = ground arith
  find_in_lt n i (s ∷ ts) t h e = ground (arith, find_in_lt n i ts t)

  -- No handle of a pending timer has yet to be given out.
  unfoldable pub IsFresh : Clock A → Type 0
  IsFresh c = below_in c.next_handle c.pending ≡ true

  pub schedule-IsFresh :
      (c : Clock A) (now d : ℕ) (a : A) → IsFresh c → IsFresh (schedule c now d a)
  unfolding IsFresh schedule below_in
  schedule-IsFresh c now d a h = ground (arith, below_in-suc c.next_handle c.pending)

  pub cancel_held-IsFresh : (c : Clock A) (o : Option ℕ) → IsFresh c → IsFresh (cancel_held c o)
  unfolding IsFresh cancel_held cancel
  cancel_held-IsFresh c none h = h
  cancel_held-IsFresh c (some i) h = below_in-drop_in c.next_handle i c.pending h

  pub find_lt :
      (c : Clock A) (i : ℕ) (t : Timer A) → IsFresh c → find c i ≡ some t → i < c.next_handle
  unfolding IsFresh find
  find_lt c i t h e = find_in_lt c.next_handle i c.pending t h e

  pub find-cancel :
      (c : Clock A) (i j : ℕ) → find (cancel c i) j ≡ (if i == j then none else find c j)
  unfolding find cancel
  find-cancel c i j = find_in-drop_in i j c.pending

  pub find-cancel_held :
      (c : Clock A) (o : Option ℕ) (j : ℕ)
      → find (cancel_held c o) j ≡ (if holds o j then none else find c j)
  unfolding cancel_held
  find-cancel_held c none j = refl
  find-cancel_held c (some i) j = find-cancel c i j

  pub find-schedule :
      (c : Clock A) (now d : ℕ) (a : A) (j : ℕ)
      → find (schedule c now d a) j ≡ (
          if c.next_handle == j
          then some (record { handle = c.next_handle; due = now + d; callback = a })
          else find c j)
  unfolding find schedule find_in
  find-schedule c now d a j = refl

-- What a handle would run.
module _ {ℓ} {A : Type ℓ} where
  unfoldable pub callback_at : Clock A → ℕ → Option A
  callback_at c i = elim (find c i) [ none ↦ none | some t ↦ some t.callback ]

  pub callback_at-some :
      (c : Clock A) (i : ℕ) (t : Timer A) → find c i ≡ some t → callback_at c i ≡ some t.callback
  unfolding callback_at
  callback_at-some c i t e = ground arith

  pub callback_at-none : (c : Clock A) (i : ℕ) → find c i ≡ none → callback_at c i ≡ none
  unfolding callback_at
  callback_at-none c i e = ground arith

  pub callback_at-cancel :
      (c : Clock A) (i j : ℕ)
      → callback_at (cancel c i) j ≡ (if i == j then none else callback_at c j)
  unfolding callback_at
  callback_at-cancel c i j = ground (arith, find-cancel c i j)

  pub callback_at-cancel_held :
      (c : Clock A) (o : Option ℕ) (j : ℕ)
      → callback_at (cancel_held c o) j ≡ (if holds o j then none else callback_at c j)
  unfolding callback_at
  callback_at-cancel_held c o j = ground (arith, find-cancel_held c o j)

  pub callback_at-schedule :
      (c : Clock A) (now d : ℕ) (a : A) (j : ℕ)
      → callback_at (schedule c now d a) j
        ≡ (if c.next_handle == j then some a else callback_at c j)
  unfolding callback_at
  callback_at-schedule c now d a j = ground (arith, find-schedule c now d a j)

  -- The next handle runs nothing yet.
  pub callback_at_fresh : (c : Clock A) → IsFresh c → callback_at c c.next_handle ≡ none
  unfolding callback_at
  callback_at_fresh c h = elim (Option-cases (find c c.next_handle)) [
    | inl e ↦ rw (e, callback_at)
    | inr (t, e) ↦ absurd (omega (arith, find_lt c c.next_handle t h e))
  ]

  pub next_handle-cancel_held :
      (c : Clock A) (o : Option ℕ) → (cancel_held c o).next_handle ≡ c.next_handle
  unfolding cancel_held cancel
  next_handle-cancel_held c none = refl
  next_handle-cancel_held c (some i) = refl

pub idle-IsFresh {ℓ} : (A : Type ℓ) → IsFresh (idle {A = A})
unfolding IsFresh below_in
idle-IsFresh A = refl

pub callback_at-idle {ℓ} : {A : Type ℓ} (i : ℕ) → callback_at (idle {A = A}) i ≡ none
unfolding callback_at find find_in
callback_at-idle i = refl
