-- ===== src/Dict.antt =====
-- Python's `dict` with text keys: an association list in insertion order. Assigning to a present
-- key keeps its place; a new key goes to the end; `pop` drops the entry.
pub mod Distinct
use ephemeral_rooms.Prelude.{
  ◌+◌, ◌≤◌, ◌≡◌, refl, Bool, false, Option, none, some, List, [], ◌∷◌, ◌++◌, arith, if◌then◌else◌,
  is_some, length, Text, same, same_iff, same_refl,
}

abbrev pub Dict {ℓ} : Type ℓ → Type ℓ
Dict V = List (Text × V)

module _ {ℓ} {V : Type ℓ} where
  -- d.get(k)
  unfoldable pub get : Dict V → Text → Option V
  get [] k = none
  get ((j, v) ∷ d) k = if same j k then some v else get d k

  -- k in d
  unfoldable pub has : Dict V → Text → Bool
  unfolding get
  has d k = is_some (get d k)

  -- d[k] = v
  unfoldable pub put : Dict V → Text → V → Dict V
  put [] k v = (k, v) ∷ []
  put ((j, w) ∷ d) k v = if same j k then (j, v) ∷ d else (j, w) ∷ put d k v

  -- d.pop(k, None), del d[k]
  unfoldable pub pop : Dict V → Text → Dict V
  pop [] k = []
  pop ((j, w) ∷ d) k = let rest = pop d k in if same j k then rest else (j, w) ∷ rest

  -- d.values()
  unfoldable pub values : Dict V → List V
  values [] = []
  values ((k, v) ∷ d) = v ∷ values d

  -- list(d)
  unfoldable pub keys : Dict V → List Text
  keys [] = []
  keys ((k, v) ∷ d) = k ∷ keys d

  -- A change of the object that a key is bound to, seen through the dict.
  unfoldable pub alter : (V → V) → Text → Dict V → Dict V
  alter f k [] = []
  alter f k ((j, w) ∷ d) = if same j k then (j, f w) ∷ d else (j, w) ∷ alter f k d

  pub get-put :
      (d : Dict V) (k j : Text) (v : V) → get (put d k v) j ≡ (if same k j then some v else get d j)
  unfolding get put
  get-put [] k j v = refl
  get-put ((i, w) ∷ d) k j v =
      ground (arith, same_iff k j, same_iff i k, same_iff i j, get-put d k j v)

  pub get-pop : (d : Dict V) (k j : Text) → get (pop d k) j ≡ (if same k j then none else get d j)
  unfolding get pop
  get-pop [] k j = ground arith
  get-pop ((i, w) ∷ d) k j = ground (arith, same_iff k j, same_iff i k, same_iff i j, get-pop d k j)

  pub has-pop : (d : Dict V) (k j : Text) → has (pop d k) j ≡ (if same k j then false else has d j)
  unfolding has
  has-pop d k j = ground (arith, get-pop d k j)

  -- `f` of what a key is bound to.
  abbrev pub on_some : (V → V) → Option V → Option V
  on_some f none = none
  on_some f (some v) = some (f v)

  pub get-alter :
      (f : V → V) (d : Dict V) (k j : Text)
      → get (alter f k d) j ≡ (if same k j then on_some f (get d j) else get d j)
  unfolding get alter
  get-alter f [] k j = ground arith
  get-alter f ((i, w) ∷ d) k j =
      ground (arith, same_iff k j, same_iff i k, same_iff i j, get-alter f d k j)

  pub get-put_self : (d : Dict V) (k : Text) (v : V) → get (put d k v) k ≡ some v
  get-put_self d k v = ground (arith, get-put d k k v, same_refl k)

  pub get-alter_self :
      (f : V → V) (d : Dict V) (k : Text) {v : V}
      → get d k ≡ some v
      → get (alter f k d) k ≡ some (f v)
  get-alter_self f d k e = ground (arith, get-alter f d k k, same_refl k)

  -- Two changes of one entry are one.
  pub alter-alter :
      (f g : V → V) (k : Text) (d : Dict V) → alter f k (alter g k d) ≡ alter (λ v. f (g v)) k d
  unfolding alter
  alter-alter f g k [] = refl
  alter-alter f g k ((j, w) ∷ d) = ground (arith, alter-alter f g k d)

  pub length-pop-le : (d : Dict V) (k : Text) → length (pop d k) ≤ length d
  unfolding pop
  length-pop-le [] k = omega arith
  length-pop-le ((j, w) ∷ d) k = ground (arith, length-pop-le d k)

  pub length-put :
      (d : Dict V) (k : Text) (v : V)
      → length (put d k v) ≡ (if is_some (get d k) then length d else length d + 1)
  unfolding get put
  length-put [] k v = omega arith
  length-put ((j, w) ∷ d) k v = ground (arith, length-put d k v)

  pub pop_absent : (d : Dict V) (k : Text) → get d k ≡ none → pop d k ≡ d
  unfolding get pop
  pop_absent [] k h = refl
  pop_absent ((j, w) ∷ d) k h = ground (arith, pop_absent d k)

  pub put_new : (d : Dict V) (k : Text) (v : V) → get d k ≡ none → put d k v ≡ d ++ (k, v) ∷ []
  unfolding get put
  put_new [] k v h = refl
  put_new ((j, w) ∷ d) k v h = ground (arith, put_new d k v)

pub ruleset dict_laws = (get-put, get-pop, get-alter)
