-- ===== src/Collab/Registry/Listing.antt =====
-- `DocumentRegistry` of backend/app/collab/registry.py as a client sees it: the documents' ids and
-- names, in the order of creation, and what the operations do to that.
pub mod Entries
pub mod Refinement
use ephemeral_rooms.Prelude.{
  ℕ, ◌≡◌, Bool, false, not, List, [], ◌∷◌, ◌++◌, map, keep, any, if◌then◌else◌, Text, same,
}

-- What changes a registry: a document with its id, name and time of creation, a new name, a removal.
pub data Op (D : Type 0) : Type 0 where
  creates : D → Text → Text → ℕ → Op D
  renames : Text → Text → Op D
  deletes : Text → Op D

-- The abstract state and what an operation does to it.
abbrev pub Listing : Type 0
Listing = List (Text × Text)

abbrev pub renamed_in : Text → Text → Text × Text → Text × Text
renamed_in id name (i, n) = if same i id then (i, name) else (i, n)

abbrev pub has_id : Text → Text × Text → Bool
has_id id (i, n) = same i id

module _ {D : Type 0} where
  abbrev pub step_listing : Op D → Listing → Listing
  step_listing (creates d id name now) l = l ++ (id, name) ∷ []
  step_listing (renames id name) l = map (renamed_in id name) l
  step_listing (deletes id) l = keep (λ e. not (has_id id e)) l

  -- A created document has an id that is not in use.
  abbrev pub IsNew : Op D → Listing → Type 0
  IsNew (creates d id name now) l = any (has_id id) l ≡ false
  IsNew (renames id name) l = Unit
  IsNew (deletes id) l = Unit

  abbrev pub run_listing : List (Op D) → Listing → Listing
  run_listing [] l = l
  run_listing (op ∷ ops) l = run_listing ops (step_listing op l)

  abbrev pub AreNew : List (Op D) → Listing → Type 0
  AreNew [] l = Unit
  AreNew (op ∷ ops) l = IsNew op l × AreNew ops (step_listing op l)
