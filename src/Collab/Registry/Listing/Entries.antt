-- ===== src/Collab/Registry/Listing/Entries.antt =====
-- The entries of a registry's dict, in order, after the dict's operations.
use ephemeral_rooms.Prelude.{
  ℕ, suc, ◌≤◌, ◌<◌, ◌≡◌, refl, ap, false, not, none, [], ◌∷◌, ◌++◌, map, keep, any, le→leb, Text,
  same, same_iff, arith, Bool-cases, inl, inr,
}
use ephemeral_rooms.Dict.{Dict, get, pop, alter, values}
use ephemeral_rooms.Dict.Distinct.{Distinct}
use ephemeral_rooms.Rooms.Types.{DocumentRecord}
use ephemeral_rooms.Collab.Registry.{insert_by_seq, sort_by_seq}
use ephemeral_rooms.Collab.Registry.Listing.{Listing, renamed_in, has_id}

-- The entries in order: each under its own id, with a number above the one before.
abbrev pub IsOrdered : ℕ → Dict DocumentRecord → Type 0
IsOrdered lo [] = Unit
IsOrdered lo ((k, r) ∷ d) = (lo < r.create_seq) × (r.document_id ≡ k) × IsOrdered r.create_seq d

abbrev pub IsBelow : ℕ → Dict DocumentRecord → Type 0
IsBelow n [] = Unit
IsBelow n ((k, r) ∷ d) = (r.create_seq ≤ n) × IsBelow n d

abbrev pub entry : DocumentRecord → Text × Text
entry r = (r.document_id, r.name)

pub sort_ordered :
    (lo : ℕ) (d : Dict DocumentRecord) → IsOrdered lo d → sort_by_seq (values d) ≡ values d
unfolding sort_by_seq insert_by_seq values
sort_ordered lo [] o = refl
sort_ordered lo ((k, r) ∷ []) o = refl
sort_ordered lo ((k, r) ∷ (j, s) ∷ d) (above, own, o) =
    rw (sort_ordered r.create_seq ((j, s) ∷ d) o)
      (rw (le→leb r.create_seq s.create_seq (omega (arith, o.0))) refl)

unfoldable pub entries : Dict DocumentRecord → Listing
entries d = map entry (values d)

pub entries-append :
    (d : Dict DocumentRecord) (k : Text) (r : DocumentRecord)
    → entries (d ++ (k, r) ∷ []) ≡ entries d ++ entry r ∷ []
unfolding entries values
entries-append [] k r = refl
entries-append ((j, s) ∷ d) k r = ap (λ l. entry s ∷ l) (entries-append d k r)

-- An id that no entry has is no key.
pub absent :
    (lo : ℕ) (d : Dict DocumentRecord) (id : Text)
    → IsOrdered lo d
    → any (has_id id) (entries d) ≡ false
    → get d id ≡ none
unfolding entries values get
absent lo [] id o h = refl
absent lo ((k, r) ∷ d) id (above, own, o) h = ground (arith, own, absent r.create_seq d id o)

pub renamed_absent :
    (lo : ℕ) (d : Dict DocumentRecord) (id name : Text)
    → IsOrdered lo d
    → get d id ≡ none
    → map (renamed_in id name) (entries d) ≡ entries d
unfolding entries values get
renamed_absent lo [] id name o h = refl
renamed_absent lo ((k, r) ∷ d) id name (above, own, o) h =
    ground (arith, own, renamed_absent r.create_seq d id name o)

unfoldable pub set_name : Text → DocumentRecord → DocumentRecord
set_name name r = record r { name = name }

pub entries-alter :
    (lo : ℕ) (d : Dict DocumentRecord) (id name : Text)
    → IsOrdered lo d
    → Distinct d
    → entries (alter (set_name name) id d) ≡ map (renamed_in id name) (entries d)
unfolding entries values alter set_name
entries-alter lo [] id name o distinct = refl
entries-alter lo ((k, r) ∷ d) id name (above, own, o) (new, distinct) = ground (
  arith,
  own,
  same_iff k id,
  entries-alter r.create_seq d id name o distinct,
  renamed_absent r.create_seq d id name o,
)

pub entries-pop :
    (lo : ℕ) (d : Dict DocumentRecord) (id : Text)
    → IsOrdered lo d
    → entries (pop d id) ≡ keep (λ e. not (has_id id e)) (entries d)
unfolding entries values pop
entries-pop lo [] id o = refl
entries-pop lo ((k, r) ∷ d) id (above, own, o) =
    ground (arith, own, entries-pop r.create_seq d id o)

pub IsOrdered-weaken :
    (lo hi : ℕ) (d : Dict DocumentRecord) → lo ≤ hi → IsOrdered hi d → IsOrdered lo d
IsOrdered-weaken lo hi [] h o = tt
IsOrdered-weaken lo hi ((k, r) ∷ d) h (above, own, o) = (omega arith, own, o)

pub append-IsOrdered :
    (lo n : ℕ) (d : Dict DocumentRecord) (r : DocumentRecord)
    → IsOrdered lo d
    → IsBelow n d
    → lo ≤ n
    → n < r.create_seq
    → IsOrdered lo (d ++ (r.document_id, r) ∷ [])
append-IsOrdered lo n [] r o below h last = (omega arith, refl, tt)
append-IsOrdered lo n ((k, s) ∷ d) r (above, own, o) (here, below) h last =
    (above, own, append-IsOrdered s.create_seq n d r o below here last)

pub append-IsBelow :
    (n : ℕ) (d : Dict DocumentRecord) (k : Text) (r : DocumentRecord)
    → IsBelow n d
    → r.create_seq ≡ suc n
    → IsBelow (suc n) (d ++ (k, r) ∷ [])
append-IsBelow n [] k r below last = (omega arith, tt)
append-IsBelow n ((j, s) ∷ d) k r (here, below) last =
    (omega arith, append-IsBelow n d k r below last)

pub alter-IsOrdered :
    (lo : ℕ) (d : Dict DocumentRecord) (id name : Text)
    → IsOrdered lo d
    → IsOrdered lo (alter (set_name name) id d)
unfolding alter set_name
alter-IsOrdered lo [] id name o = tt
alter-IsOrdered lo ((k, r) ∷ d) id name (above, own, o) = elim (Bool-cases (same k id)) [
  | inl here ↦ rw here (above, own, o)
  | inr other ↦ rw other (above, own, alter-IsOrdered r.create_seq d id name o)
]

pub alter-IsBelow :
    (n : ℕ) (d : Dict DocumentRecord) (id name : Text)
    → IsBelow n d
    → IsBelow n (alter (set_name name) id d)
unfolding alter set_name
alter-IsBelow n [] id name o = tt
alter-IsBelow n ((k, r) ∷ d) id name (here, below) = elim (Bool-cases (same k id)) [
  | inl found ↦ rw found (here, below)
  | inr other ↦ rw other (here, alter-IsBelow n d id name below)
]

pub pop-IsOrdered :
    (lo : ℕ) (d : Dict DocumentRecord) (id : Text) → IsOrdered lo d → IsOrdered lo (pop d id)
unfolding pop
pop-IsOrdered lo [] id o = tt
pop-IsOrdered lo ((k, r) ∷ d) id (above, own, o) =
    let rest = pop-IsOrdered r.create_seq d id o in
    elim (Bool-cases (same k id)) [
      | inl here ↦ rw here (IsOrdered-weaken lo r.create_seq (pop d id) (omega arith) rest)
      | inr other ↦ rw other (above, own, rest)
    ]

pub pop-IsBelow : (n : ℕ) (d : Dict DocumentRecord) (id : Text) → IsBelow n d → IsBelow n (pop d id)
unfolding pop
pop-IsBelow n [] id o = tt
pop-IsBelow n ((k, r) ∷ d) id (here, below) =
    let rest = pop-IsBelow n d id below in
    elim (Bool-cases (same k id)) [ inl found ↦ rw found rest | inr other ↦ rw other (here, rest) ]
