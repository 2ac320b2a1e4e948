-- ===== src/Storage/Budget.antt =====
-- `BudgetedDiskSpace` of backend/app/storage/fs.py. A reading is kept for CACHE_TTL_SECONDS; times
-- are those of the monotonic clock, in any unit that `ttl` is given in. `real_free` is the inner
-- provider's figure and `tree` what is stored when the call measures.
use ephemeral_rooms.Prelude.{
  ℕ, ◌+◌, ◌-◌, ◌≤◌, ◌≡◌, Bool, false, Option, none, some, ltb, leb, if◌then◌else◌, arith,
  Bool-cases, inl, inr, ◌⊎◌,
}
use ephemeral_rooms.Storage.FileStore.{FileTree, measure}

pub record Budget : Type 0 where
  pub budget : ℕ
  pub ttl : ℕ
  pub cached_bytes : ℕ
  pub cached_at : Option ℕ

abbrev pub is_fresh : ℕ → ℕ → Option ℕ → Bool
is_fresh ttl now none = false
is_fresh ttl now (some at) = ltb (now - at) ttl

unfoldable pub bytes_used : ℕ → FileTree → Budget → Budget × ℕ
bytes_used now tree b =
    if is_fresh b.ttl now b.cached_at
    then (b, b.cached_bytes)
    else (record b { cached_bytes = measure tree; cached_at = some now }, measure tree)

abbrev pub min_ℕ : ℕ → ℕ → ℕ
min_ℕ a b = if leb a b then a else b

-- `max(0, min(real_free, budget - used))`: subtraction of naturals stops at 0.
unfoldable pub bytes_available : ℕ → ℕ → FileTree → Budget → Budget × ℕ
unfolding bytes_used
bytes_available real_free now tree b =
    let (b', used) = bytes_used now tree b in (b', min_ℕ real_free (b.budget - used))

min_ℕ_lem :
    (a budget used : ℕ)
    → (min_ℕ a (budget - used) ≤ a)
      × ((min_ℕ a (budget - used) ≡ 0) ⊎ (used + min_ℕ a (budget - used) ≤ budget))
min_ℕ_lem a budget used = elim (Bool-cases (leb budget used)) [
  | inl spent ↦ (ground arith, inl (ground arith))
  | inr left ↦ (ground arith, inr (ground arith))
]

-- Where no fresh reading is cached, the figure that the budgeted provider reports is within what is
-- really free, and it is zero or within the budget together with what is stored.
pub bytes_available_bounded :
    (real_free now : ℕ) (tree : FileTree) (b : Budget)
    → is_fresh b.ttl now b.cached_at ≡ false
    → let o = bytes_available real_free now tree b in
      (o.1 ≤ real_free) × ((o.1 ≡ 0) ⊎ (measure tree + o.1 ≤ b.budget))
unfolding bytes_available bytes_used
bytes_available_bounded real_free now tree b stale =
    rw stale (min_ℕ_lem real_free b.budget (measure tree))
