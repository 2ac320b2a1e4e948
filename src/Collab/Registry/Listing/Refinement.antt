-- ===== src/Collab/Registry/Listing/Refinement.antt =====
-- The operations of backend/app/collab/registry.py do what they do to the list that a client sees.
use ephemeral_rooms.Prelude.{
  ℕ, suc, ◌≡◌, refl, ap, sym, subst, ◌∙◌, List, [], ◌∷◌, map, Text, arith, inl, inr, Option-cases,
}
use ephemeral_rooms.Dict.{get, alter, values, put_new}
use ephemeral_rooms.Dict.Distinct.{Distinct, put-Distinct, alter-Distinct, pop-Distinct}
use ephemeral_rooms.Collab.Registry.{
  Registry, new_registry, sort_by_seq, records, create, rename, delete,
}
use ephemeral_rooms.Collab.Registry.Listing.{
  Op, creates, renames, deletes, Listing, renamed_in, step_listing, IsNew, run_listing, AreNew,
}
use ephemeral_rooms.Collab.Registry.Listing.Entries.{
  IsOrdered, IsBelow, entry, sort_ordered, entries, entries-append, absent, renamed_absent,
  set_name, entries-alter, entries-pop, append-IsOrdered, append-IsBelow, alter-IsOrdered,
  alter-IsBelow, pop-IsOrdered, pop-IsBelow,
}

module _ {D : Type 0} where
  -- What a client sees.
  abbrev pub listing : Registry D → Listing
  listing g = map entry (records g)

  abbrev pub apply_op : Op D → Registry D → Registry D
  apply_op (creates d id name now) g = (create d id name now g).0
  apply_op (renames id name) g = (rename id name g).0
  apply_op (deletes id) g = (delete id g).0

  abbrev pub apply_ops : List (Op D) → Registry D → Registry D
  apply_ops [] g = g
  apply_ops (op ∷ ops) g = apply_ops ops (apply_op op g)

  record IsTidy (g : Registry D) : Type 0 where
    pub distinct : Distinct g.by_id
    pub ordered : IsOrdered 0 g.by_id
    pub below : IsBelow g.create_seq g.by_id

  listing-entries : (g : Registry D) → IsTidy g → listing g ≡ entries g.by_id
  unfolding records entries
  listing-entries g t = ap (map entry) (sort_ordered 0 g.by_id t.ordered)

  -- What one operation leaves.
  record Refines (op : Op D) (g : Registry D) : Type 0 where
    pub tidy : IsTidy (apply_op op g)
    pub seen : listing (apply_op op g) ≡ step_listing op (listing g)

  Refines-entries :
      (op : Op D) (g : Registry D)
      → IsTidy g
      → IsTidy (apply_op op g)
      → entries (apply_op op g).by_id ≡ step_listing op (entries g.by_id)
      → Refines op g
  Refines-entries op g t t' e = record {
    tidy = t';
    seen =
        listing-entries (apply_op op g) t' ∙ e ∙ ap (step_listing op) (sym (listing-entries g t));
  }

  create-Refines :
      (d : D) (id name : Text) (now : ℕ) (g : Registry D)
      → IsTidy g
      → IsNew (creates d id name now) (listing g)
      → Refines (creates d id name now) g
  unfolding create
  create-Refines d id name now g t new =
      let made = (create d id name now g).1 in
      let gone = absent 0 g.by_id id t.ordered (rw⁻¹ (listing-entries g t) new) in
      let put-eq = put_new g.by_id id made gone in
      Refines-entries (creates d id name now) g t
        (record {
          distinct = put-Distinct g.by_id id made t.distinct;
          ordered = subst (IsOrdered 0) (sym put-eq) (
              append-IsOrdered 0 g.create_seq g.by_id made t.ordered t.below (omega arith)
                (omega arith));
          below =
              subst (IsBelow (suc g.create_seq)) (sym put-eq)
                (append-IsBelow g.create_seq g.by_id id made t.below refl);
        })
        (ap entries put-eq ∙ entries-append g.by_id id made)

  rename-Refines : (id name : Text) (g : Registry D) → IsTidy g → Refines (renames id name) g
  unfolding rename set_name
  rename-Refines id name g t = elim (Option-cases (get g.by_id id)) [
    | inl none_such ↦
        let kept : (rename id name g).0 ≡ g = ground arith in
        let same_listing = listing-entries g t in
        record {
          tidy = subst IsTidy (sym kept) t;
          seen =
              ap listing kept
              ∙ same_listing
              ∙ sym (renamed_absent 0 g.by_id id name t.ordered none_such)
              ∙ ap (map (renamed_in id name)) (sym same_listing);
        }
    | inr (r, there) ↦
        let changed : (rename id name g).0 ≡ record g { by_id = alter (set_name name) id g.by_id } =
          ground arith in
        Refines-entries (renames id name) g t
          (subst IsTidy (sym changed) (record {
            distinct = alter-Distinct (set_name name) id g.by_id t.distinct;
            ordered = alter-IsOrdered 0 g.by_id id name t.ordered;
            below = alter-IsBelow g.create_seq g.by_id id name t.below;
          }))
          (ap (λ (h : Registry D). entries h.by_id) changed
            ∙ entries-alter 0 g.by_id id name t.ordered t.distinct)
  ]

  delete-Refines : (id : Text) (g : Registry D) → IsTidy g → Refines (deletes id) g
  unfolding delete
  delete-Refines id g t =
      Refines-entries (deletes id) g t
        (record {
          distinct = pop-Distinct g.by_id id t.distinct;
          ordered = pop-IsOrdered 0 g.by_id id t.ordered;
          below = pop-IsBelow g.create_seq g.by_id id t.below;
        })
        (entries-pop 0 g.by_id id t.ordered)

  step-Refines : (op : Op D) (g : Registry D) → IsTidy g → IsNew op (listing g) → Refines op g
  step-Refines (creates d id name now) g t new = create-Refines d id name now g t new
  step-Refines (renames id name) g t new = rename-Refines id name g t
  step-Refines (deletes id) g t new = delete-Refines id g t

  run-Refines :
      (ops : List (Op D)) (g : Registry D)
      → IsTidy g
      → AreNew ops (listing g)
      → listing (apply_ops ops g) ≡ run_listing ops (listing g)
  run-Refines [] g t new = refl
  run-Refines (op ∷ ops) g t (here, later) =
      let x = step-Refines op g t here in
      run-Refines ops (apply_op op g) x.tidy (subst (AreNew ops) (sym x.seen) later)
      ∙ ap (run_listing ops) x.seen

  -- From an empty registry, creations, renames and deletions in any order show a client the list
  -- that the same operations make of an empty list of ids and names: a creation appends, a rename
  -- changes the name in its place, a deletion removes. Each created id is taken to be none of those
  -- listed.
  pub listing-apply_ops :
      (ops : List (Op D))
      → AreNew ops []
      → listing (apply_ops ops new_registry) ≡ run_listing ops []
  unfolding records sort_by_seq values
  listing-apply_ops ops new =
      run-Refines ops new_registry (record { distinct = tt; ordered = tt; below = tt }) new
