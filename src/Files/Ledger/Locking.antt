-- ===== src/Files/Ledger/Locking.antt =====
-- `reserve` of backend/app/files/reservations.py holds its lock across the probe of the disk, and
-- transfers run while it waits for the figure. A step is one await-free stretch of one task.
-- Transfers write without the lock, and shrink their promise under it, so bytes can have landed
-- whose promise still stands.
use ephemeral_rooms.Prelude.{
  ℕ, ◌+◌, ◌-◌, ◌≤◌, ◌≡◌, refl, ◌∙◌, Bool-cases, Option-cases, false, inl, inr, same, same_iff,
  Option, none, some, Text, arith,
}
use ephemeral_rooms.Prelude.Int.{ℤ, pos, pos_part}
use ephemeral_rooms.Dict.{Dict, get, put, pop, has, get-put, get-pop}
use ephemeral_rooms.Dict.Distinct.{
  Distinct, put-Distinct, pop-Distinct, sum_values, size_of, sum_values-put, sum_values-pop,
}
use ephemeral_rooms.Files.Ledger.{Ledger, reserved_bytes, is_reserved, reserve, release, shrink}
use ephemeral_rooms.Files.Ledger.Laws.{
  Reserved, reserve_lem, release_lem, shrink_lem, reserve-Distinct, release-Distinct,
  shrink-Distinct,
}

-- `free` is what the disk really has, `pending` the bytes that each upload has written since its
-- promise was last shrunk. `holder` is the upload and size that the lock is held for, `reading` the
-- figure that its probe brought.
pub record Disk : Type 0 where
  pub ledger : Ledger
  pub free : ℕ
  pub pending : Dict ℕ
  pub holder : Option (Text × ℕ)
  pub reading : Option ℕ

abbrev written : Dict ℕ → ℕ
written pending = sum_values (λ n. n) pending

pub data Step (s : Disk) : Disk → Type 0 where
  -- `async with self._lock`
  locks :
      (id : Text) (size : ℕ)
      → s.holder ≡ none
      → get s.ledger.reservations id ≡ none
      → Step s (record s { holder = some (id, size); reading = none })
  -- the thread that asks for the free space; the figure is no more than what is free
  probes :
      (q : Text × ℕ) (f : ℕ)
      → s.holder ≡ some q
      → f ≤ s.free
      → Step s (record s { reading = some f })
  -- the rest of `reserve`, and the end of the `async with`
  records :
      (id : Text) (size f : ℕ)
      → s.holder ≡ some (id, size)
      → s.reading ≡ some f
      → Step s (record s { ledger = (reserve f id size s.ledger).0; holder = none; reading = none })
  -- `append_part` of the one request that writes to an upload, after the check of the declared size
  appends :
      (id : Text) (r n : ℕ)
      → get s.ledger.reservations id ≡ some r
      → get s.pending id ≡ none
      → n ≤ r
      → n ≤ s.free
      → Step s (record s { free = s.free - n; pending = put s.pending id n })
  -- its `shrink` by the `n` bytes that it wrote, which waits for the lock
  shrinks :
      (id : Text) (r n : ℕ)
      → s.holder ≡ none
      → get s.ledger.reservations id ≡ some r
      → get s.pending id ≡ some n
      → Step s (record s { ledger = shrink id (pos (r - n)) s.ledger; pending = pop s.pending id })
  -- a `shrink` after the upload has been released
  shrinks_late :
      (id : Text) (remaining : ℤ)
      → s.holder ≡ none
      → get s.ledger.reservations id ≡ none
      → Step s (record s { ledger = shrink id remaining s.ledger })
  -- `release` of an upload that is complete or aborted, also between its append and its shrink
  releases :
      (id : Text) (r : ℕ)
      → s.holder ≡ none
      → get s.ledger.reservations id ≡ some r
      → Step s (record s { ledger = release id s.ledger; pending = pop s.pending id })
  -- bytes leave the disk: a file or a part is deleted
  frees : (n : ℕ) → Step s (record s { free = s.free + n })

-- What an upload has pending is within its promise.
abbrev Within : Disk → Type 0
Within s =
    (id : Text) (n : ℕ)
    → get s.pending id ≡ some n
    → (r : ℕ) × (get s.ledger.reservations id ≡ some r) × (n ≤ r)

-- Every promised byte that has yet to be written has its place on the disk, above the headroom; and
-- a reading in hand is at most what was free before the bytes that have landed since.
pub record IsCovered (s : Disk) : Type 0 where
  pub covered : reserved_bytes s.ledger + s.ledger.headroom ≤ s.free + written s.pending
  pub within : Within s
  pub once : Distinct s.ledger.reservations
  pub writers : Distinct s.pending
  pub reading_ok : (f : ℕ) → s.reading ≡ some f → f ≤ s.free + written s.pending
  pub idle : s.holder ≡ none → s.reading ≡ none
  pub new_holder :
      (id : Text) (size : ℕ) → s.holder ≡ some (id, size) → get s.ledger.reservations id ≡ none

records-covered :
    (f size : ℕ) (id : Text) (l : Ledger) (room : ℕ)
    → get l.reservations id ≡ none
    → reserved_bytes l + l.headroom ≤ room
    → f ≤ room
    → let l' = (reserve f id size l).0 in reserved_bytes l' + l'.headroom ≤ room
records-covered f size id l room new c r = go (reserve f id size l) (reserve_lem f id size l new)
  where
    go : (o : Ledger × Option _) → Reserved f id size l o → reserved_bytes o.0 + o.0.headroom ≤ room
    go (l', none) (fits, at, sum, same, disk) = grind arith
    go (l', some d) (short, av, same) = rw same c

-- A shrink by `n` lowers the sum by `n`, and a release by the whole promise; neither moves the
-- headroom.
shrink_sum :
    (id : Text) (r n : ℕ) (l : Ledger)
    → get l.reservations id ≡ some r
    → n ≤ r
    → let l' = shrink id (pos (r - n)) l in
      (reserved_bytes l' + n ≡ reserved_bytes l) × (l'.headroom ≡ l.headroom)
shrink_sum id r n l held le =
    let (sum, own, absent) = shrink_lem id (pos (r - n)) l in
    (unfold is_reserved in ground (arith, sum, held), unfold shrink in ground arith)

release_sum :
    (id : Text) (r : ℕ) (l : Ledger)
    → Distinct l.reservations
    → get l.reservations id ≡ some r
    → let l' = release id l in
      (reserved_bytes l' + r ≡ reserved_bytes l) × (l'.headroom ≡ l.headroom)
release_sum id r l d held =
    let (sum, out, others) = release_lem id l d in
    (ground (arith, sum, held), unfold release in refl)

written-put :
    (d : Dict ℕ) (id : Text) (n : ℕ) → get d id ≡ none → written (put d id n) ≡ written d + n
written-put d id n new = ground (arith, sum_values-put (λ (k : ℕ). k) d id n)

written-pop :
    (d : Dict ℕ) (id : Text)
    → Distinct d
    → written (pop d id) + size_of (λ n. n) (get d id) ≡ written d
written-pop d id h = sum_values-pop (λ (k : ℕ). k) d id h

Within-put :
    (s : Disk) (id : Text) (r n : ℕ)
    → Within s
    → get s.ledger.reservations id ≡ some r
    → n ≤ r
    → Within (record s { pending = put s.pending id n })
Within-put s id r n w at le j m e = elim (Bool-cases (same id j)) [
  | inl own ↦ (r, ground (arith, same_iff id j), ground (arith, get-put s.pending id j n))
  | inr other ↦ w j m (ground (arith, get-put s.pending id j n))
]

Within-pop :
    (s : Disk) (l : Ledger) (id : Text)
    → Within s
    → ((j : Text) → same id j ≡ false → get l.reservations j ≡ get s.ledger.reservations j)
    → Within (record s { ledger = l; pending = pop s.pending id })
Within-pop s l id w others j m e = elim (Bool-cases (same id j)) [
  | inl own ↦ absurd (ground (arith, get-pop s.pending id j))
  | inr other ↦
      let (r, at, le) = w j m (ground (arith, get-pop s.pending id j)) in
      (r, others j other ∙ at, le)
]

Within-reserve :
    (s : Disk) (f : ℕ) (id : Text) (size : ℕ)
    → Within s
    → get s.ledger.reservations id ≡ none
    → Within (record s { ledger = (reserve f id size s.ledger).0 })
unfolding reserve
Within-reserve s f id size w new j m e =
    let (r, at, le) = w j m e in
    (r, ground (arith, at, new, same_iff id j, get-put s.ledger.reservations id j size), le)

shrink_others :
    (id : Text) (remaining : ℤ) (l : Ledger) (j : Text)
    → same id j ≡ false
    → get (shrink id remaining l).reservations j ≡ get l.reservations j
unfolding shrink
shrink_others id remaining l j other =
    ground (arith, other, get-put l.reservations id j (pos_part remaining))

release_others :
    (id : Text) (l : Ledger) (j : Text)
    → same id j ≡ false
    → get (release id l).reservations j ≡ get l.reservations j
unfolding release
release_others id l j other = ground (arith, other, get-pop l.reservations id j)

releases-covered :
    (s : Disk) (id : Text) (r : ℕ)
    → ((n : ℕ)
        → get s.pending id ≡ some n
        → (q : ℕ) × (get s.ledger.reservations id ≡ some q) × (n ≤ q))
    → reserved_bytes s.ledger + s.ledger.headroom ≤ s.free + written s.pending
    → (let l = release id s.ledger in
        (reserved_bytes l + r ≡ reserved_bytes s.ledger) × (l.headroom ≡ s.ledger.headroom))
    → written (pop s.pending id) + size_of (λ n. n) (get s.pending id) ≡ written s.pending
    → get s.ledger.reservations id ≡ some r
    → let l = release id s.ledger in
      reserved_bytes l + l.headroom ≤ s.free + written (pop s.pending id)
releases-covered s id r within covered (sum, same_room) popped held =
    elim (Option-cases (get s.pending id)) [
      | inl out ↦ ground (arith, out)
      | inr (n, at) ↦ let (q, at_q, le) = within n at in ground (arith, at, at_q, le)
    ]

pub Step-IsCovered : (s t : Disk) → IsCovered s → Step s t → IsCovered t
Step-IsCovered s _ c (locks id size free new) = record {
  covered = c.covered;
  within = c.within;
  once = c.once;
  writers = c.writers;
  reading_ok = λ f e. absurd (ground arith);
  idle = λ e. refl;
  new_holder = λ j n e. ground (arith, new);
}
Step-IsCovered s _ c (probes q f held le) = record {
  covered = c.covered;
  within = c.within;
  once = c.once;
  writers = c.writers;
  reading_ok = λ g e. ground (arith, le);
  idle = λ e. absurd (ground arith);
  new_holder = c.new_holder;
}
Step-IsCovered s _ c (records id size f held got) = record {
  covered =
      records-covered f size id s.ledger (s.free + written s.pending) (c.new_holder id size held)
        c.covered (c.reading_ok f got);
  within = Within-reserve s f id size c.within (c.new_holder id size held);
  once = reserve-Distinct f id size s.ledger c.once;
  writers = c.writers;
  reading_ok = λ g e. absurd (ground arith);
  idle = λ e. refl;
  new_holder = λ j n e. absurd (ground arith);
}
Step-IsCovered s _ c (appends id r n at new le room) = record {
  covered = omega (arith, c.covered, written-put s.pending id n new);
  within = Within-put s id r n c.within at le;
  once = c.once;
  writers = put-Distinct s.pending id n c.writers;
  reading_ok = λ f e. omega (arith, c.reading_ok f e, written-put s.pending id n new);
  idle = c.idle;
  new_holder = c.new_holder;
}
Step-IsCovered s _ c (shrinks id r n free held at) =
    let (q, at_q, le) = c.within id n at in
    let le_r : n ≤ r = ground (arith, held, at_q, le) in
    record {
      covered = ground (
        arith,
        shrink_sum id r n s.ledger held le_r,
        c.covered,
        written-pop s.pending id c.writers,
        at,
      );
      within =
          Within-pop s (shrink id (pos (r - n)) s.ledger) id c.within
            (shrink_others id (pos (r - n)) s.ledger);
      once = shrink-Distinct id (pos (r - n)) s.ledger c.once;
      writers = pop-Distinct s.pending id c.writers;
      reading_ok = λ f e. absurd (ground (arith, c.idle free));
      idle = c.idle;
      new_holder = λ j m e. absurd (ground arith);
    }
Step-IsCovered s _ c (shrinks_late id remaining free out) =
    let kept : shrink id remaining s.ledger ≡ s.ledger =
      (shrink_lem id remaining s.ledger).2 (unfold is_reserved has in ground (arith, out)) in
    rw kept c
Step-IsCovered s _ c (releases id r free held) = record {
  covered =
      releases-covered s id r (c.within id) c.covered (release_sum id r s.ledger c.once held)
        (written-pop s.pending id c.writers) held;
  within = Within-pop s (release id s.ledger) id c.within (release_others id s.ledger);
  once = release-Distinct id s.ledger c.once;
  writers = pop-Distinct s.pending id c.writers;
  reading_ok = λ f e. absurd (ground (arith, c.idle free));
  idle = c.idle;
  new_holder = λ j m e. absurd (ground arith);
}
Step-IsCovered s _ c (frees n) = record {
  covered = omega (arith, c.covered);
  within = c.within;
  once = c.once;
  writers = c.writers;
  reading_ok = λ f e. omega (arith, c.reading_ok f e);
  idle = c.idle;
  new_holder = c.new_holder;
}

pub data Reach (s : Disk) : Disk → Type 0 where
  here : Reach s s
  next : {t u : Disk} → Reach s t → Step t u → Reach s u

-- From a covered disk, however reservations, probes, appends, shrinks, releases and deletions of
-- different uploads interleave, every promised byte that is not yet written has its place on the
-- disk above the headroom, what an upload has written since its last shrink is within its promise,
-- and the ledger holds each upload once. An upload is taken to be written to by one request at a
-- time, each append to be within what is still promised to the upload and within what is free, and
-- a figure that a probe brings to be no more than what is then free.
pub Reach-IsCovered : (s t : Disk) → IsCovered s → Reach s t → IsCovered t
Reach-IsCovered s _ c here = c
Reach-IsCovered s _ c (next {t} {u} path step) =
    Step-IsCovered t u (Reach-IsCovered s t c path) step
