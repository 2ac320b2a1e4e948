-- ===== src/Collab/Registry/Order.antt =====
-- The order of `records` of backend/app/collab/registry.py.
use ephemeral_rooms.Prelude.{
  ℕ, suc, ◌<◌, ◌≡◌, refl, ◌∙◌, ap, none, List, [], ◌∷◌, ◌++◌, Text, All, arith,
}
use ephemeral_rooms.Dict.{Dict, get, values, put_new}
use ephemeral_rooms.Rooms.Types.{DocumentRecord}
use ephemeral_rooms.Collab.Registry.{Registry, insert_by_seq, sort_by_seq, records, create}

abbrev pub Below : ℕ → DocumentRecord → Type 0
Below n d = d.create_seq < n

-- Every record was numbered before.
abbrev pub IsNumbered : {D : Type 0} → Registry D → Type 0
IsNumbered g = All (Below (suc g.create_seq)) (values g.by_id)

insert_last :
    (d : DocumentRecord) (l : List DocumentRecord)
    → All (Below d.create_seq) l
    → insert_by_seq d l ≡ l ++ d ∷ []
unfolding insert_by_seq
insert_last d [] h = refl
insert_last d (e ∷ l) (he, hl) = ground (arith, insert_last d l hl)

insert-append :
    (d e : DocumentRecord) (l : List DocumentRecord)
    → e.create_seq < d.create_seq
    → insert_by_seq e (l ++ d ∷ []) ≡ insert_by_seq e l ++ d ∷ []
unfolding insert_by_seq
insert-append d e [] lt = ground arith
insert-append d e (f ∷ l) lt = ground (arith, insert-append d e l lt)

sort-append :
    (d : DocumentRecord) (l : List DocumentRecord)
    → All (Below d.create_seq) l
    → sort_by_seq (l ++ d ∷ []) ≡ sort_by_seq l ++ d ∷ []
unfolding sort_by_seq insert_by_seq
sort-append d [] h = refl
sort-append d (e ∷ l) (he, hl) =
    ap (insert_by_seq e) (sort-append d l hl) ∙ insert-append d e (sort_by_seq l) he

values-append :
    {V : Type 0} (d : Dict V) (k : Text) (v : V) → values (d ++ (k, v) ∷ []) ≡ values d ++ v ∷ []
unfolding values
values-append [] k v = refl
values-append ((j, w) ∷ d) k v = ap (λ l. w ∷ l) (values-append d k v)

-- In a registry whose records were all numbered before, a document created under a new id is listed
-- last, behind the others in their order.
pub records-create :
    {D : Type 0} (new_doc : D) (document_id name : Text) (created_at : ℕ) (g : Registry D)
    → IsNumbered g
    → get g.by_id document_id ≡ none
    → let (g', made) = create new_doc document_id name created_at g in
      records g' ≡ records g ++ made ∷ []
unfolding records create
records-create new_doc document_id name created_at g numbered new =
    let made = (create new_doc document_id name created_at g).1 in
    ap (λ d. sort_by_seq (values d)) (put_new g.by_id document_id made new)
    ∙ ap sort_by_seq (values-append g.by_id document_id made)
    ∙ sort-append made (values g.by_id) numbered
