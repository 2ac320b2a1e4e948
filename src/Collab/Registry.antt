-- ===== src/Collab/Registry.antt =====
-- `DocumentRegistry` of backend/app/collab/registry.py. The CRDT document itself is pycrdt's: its
-- type `D`, the fresh document and the text that it holds are parameters.
pub mod Order
pub mod Listing
use ephemeral_rooms.Prelude.{
  ℕ, suc, Option, none, some, List, [], ◌∷◌, if◌then◌else◌, Bool, leb, length, Text,
}
use ephemeral_rooms.Dict.{Dict, get, has, put, pop, alter, values}
use ephemeral_rooms.Rooms.Types.{DocumentRecord}

pub record Registry (D : Type 0) : Type 0 where
  pub by_id : Dict DocumentRecord
  pub docs : Dict D
  pub create_seq : ℕ

-- `sorted(…, key=lambda r: r.create_seq)`: Python's sort is stable.
unfoldable pub insert_by_seq : DocumentRecord → List DocumentRecord → List DocumentRecord
insert_by_seq r [] = r ∷ []
insert_by_seq r (s ∷ rs) =
    if leb r.create_seq s.create_seq then r ∷ s ∷ rs else s ∷ insert_by_seq r rs

unfoldable pub sort_by_seq : List DocumentRecord → List DocumentRecord
sort_by_seq [] = []
sort_by_seq (r ∷ rs) = insert_by_seq r (sort_by_seq rs)

module _ {D : Type 0} where
  abbrev pub new_registry : Registry D
  new_registry = record { by_id = []; docs = []; create_seq = 0 }

  -- document_id in registry
  unfoldable pub contains : Registry D → Text → Bool
  contains g i = has g.by_id i

  -- len(registry)
  unfoldable pub size : Registry D → ℕ
  size g = length g.by_id

  unfoldable pub records : Registry D → List DocumentRecord
  records g = sort_by_seq (values g.by_id)

  unfoldable pub record_of : Registry D → Text → Option DocumentRecord
  record_of g i = get g.by_id i

  unfoldable pub doc : Registry D → Text → Option D
  doc g i = get g.docs i

  -- `new_doc` is the fresh `Doc` with an empty `Text` under TEXT_KEY.
  unfoldable pub create : D → Text → Text → ℕ → Registry D → Registry D × DocumentRecord
  create new_doc document_id name created_at g =
      let made : DocumentRecord = record {
        document_id = document_id;
        name = name;
        created_at = created_at;
        create_seq = suc g.create_seq;
      } in
      (
        record {
          by_id = put g.by_id document_id made;
          docs = put g.docs document_id new_doc;
          create_seq = suc g.create_seq;
        },
        made,
      )

  -- The record is changed in place, so every reader of the dict sees the new name.
  unfoldable pub rename : Text → Text → Registry D → Registry D × Option DocumentRecord
  rename document_id name g = elim (get g.by_id document_id) [
    | none ↦ (g, none)
    | some r ↦ (
      record g { by_id = alter (λ x. record x { name = name }) document_id g.by_id },
      some (record r { name = name }),
    )
  ]

  unfoldable pub delete : Text → Registry D → Registry D × Option DocumentRecord
  delete document_id g = (
    record g { by_id = pop g.by_id document_id; docs = pop g.docs document_id },
    get g.by_id document_id,
  )

  unfoldable pub clear : Registry D → Registry D
  clear g = record g { by_id = []; docs = [] }

  -- `text_of` is `str(doc[TEXT_KEY])`.
  unfoldable pub text : (D → Text) → Registry D → Text → Text
  text text_of g i = elim (get g.docs i) [ none ↦ [] | some d ↦ text_of d ]

  unfoldable pub text_length : (D → Text) → Registry D → Text → ℕ
  text_length text_of g i = elim (get g.docs i) [ none ↦ 0 | some d ↦ length (text_of d) ]
