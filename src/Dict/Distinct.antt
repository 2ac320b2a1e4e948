-- ===== src/Dict/Distinct.antt =====
-- Dicts that hold a key once, as Python's do, and sums over the values of a dict.
use ephemeral_rooms.Prelude.{
  ℕ, ◌+◌, ◌≡◌, refl, Option, none, some, [], ◌∷◌, arith, Text, same_iff, length,
}
use ephemeral_rooms.Dict.{Dict, get, put, pop, alter, get-put, get-pop, get-alter, pop_absent}

module _ {ℓ} {V : Type ℓ} where
  abbrev pub Distinct : Dict V → Type ℓ
  Distinct [] = Unit
  Distinct ((k, v) ∷ d) = (get d k ≡ none) × Distinct d

  pub put-Distinct : (d : Dict V) (k : Text) (v : V) → Distinct d → Distinct (put d k v)
  unfolding put get
  put-Distinct [] k v h = (refl, tt)
  put-Distinct ((j, w) ∷ d) k v h =
      ground (arith, get-put d k j v, same_iff j k, same_iff k j, put-Distinct d k v h.1)

  pub pop-Distinct : (d : Dict V) (k : Text) → Distinct d → Distinct (pop d k)
  unfolding pop
  pop-Distinct [] k h = tt
  pop-Distinct ((j, w) ∷ d) k h = ground (arith, get-pop d k j, pop-Distinct d k h.1)

  pub alter-Distinct : (f : V → V) (k : Text) (d : Dict V) → Distinct d → Distinct (alter f k d)
  unfolding alter
  alter-Distinct f k [] h = tt
  alter-Distinct f k ((j, w) ∷ d) h = ground (arith, get-alter f d k j, alter-Distinct f k d h.1)

  pub length-pop :
      (d : Dict V) (k : Text) (v : V)
      → Distinct d
      → get d k ≡ some v
      → length (pop d k) + 1 ≡ length d
  unfolding pop get
  length-pop [] k v h e = ground arith
  length-pop ((j, w) ∷ d) k v h e =
      ground (arith, length-pop d k v h.1, pop_absent d k, same_iff j k)

-- The sum of a size over the values, and how the operations move it.
module _ {ℓ} {V : Type ℓ} (size : V → ℕ) where
  unfoldable pub sum_values : Dict V → ℕ
  sum_values [] = 0
  sum_values ((k, v) ∷ d) = size v + sum_values d

  abbrev pub size_of : Option V → ℕ
  size_of none = 0
  size_of (some v) = size v

  pub sum_values-pop :
      (d : Dict V) (k : Text) → Distinct d → sum_values (pop d k) + size_of (get d k) ≡ sum_values d
  unfolding sum_values pop get
  sum_values-pop [] k h = omega arith
  sum_values-pop ((j, w) ∷ d) k h =
      ground (arith, sum_values-pop d k h.1, pop_absent d k, same_iff j k)

  pub sum_values-put :
      (d : Dict V) (k : Text) (v : V)
      → sum_values (put d k v) + size_of (get d k) ≡ sum_values d + size v
  unfolding sum_values put get
  sum_values-put [] k v = omega arith
  sum_values-put ((j, w) ∷ d) k v = ground (arith, sum_values-put d k v)
