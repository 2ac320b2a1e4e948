-- ===== src/Storage/Memory.antt =====
-- `MemoryGuard` of backend/app/storage/memory.py: the reading is that of the provider when the call
-- probes; times are those of the monotonic clock, in the unit of `ttl`.
pub mod Probes
pub mod Pressure
use ephemeral_rooms.Prelude.{
  ℕ, ◌≡◌, ◌⊎◌, Bool, false, not, ◌&&◌, Option, none, some, if◌then◌else◌, ◌==◌,
}
use ephemeral_rooms.Prelude.Int.{ℤ, pos, negsuc, pos_part, ◌-ℤ◌, eq_ℤ, lt_ℤ}
use ephemeral_rooms.Storage.Budget.{is_fresh}

-- -1: nothing to measure, which 0 is not.
abbrev pub unknown : ℤ
unknown = negsuc 0

-- What a provider may report.
abbrev pub IsReading : ℤ → Type 0
IsReading z = (z ≡ unknown) ⊎ ((n : ℕ) × (z ≡ pos n))

pub record Guard : Type 0 where
  pub headroom : ℕ
  pub ttl : ℕ
  pub cached : ℤ
  pub cached_at : Option ℕ

unfoldable pub new_guard : ℕ → ℕ → Guard
new_guard headroom_bytes poll_interval = record {
  headroom = headroom_bytes;
  ttl = poll_interval;
  cached = unknown;
  cached_at = none;
}

unfoldable pub bytes_available : ℕ → ℤ → Guard → Guard × ℤ
bytes_available now reading g =
    if is_fresh g.ttl now g.cached_at
    then (g, g.cached)
    else (record g { cached = reading; cached_at = some now }, reading)

-- What rooms may still grow into; an unknown reading stays unknown.
unfoldable pub available_for_new_text : ℕ → ℤ → Guard → Guard × ℤ
unfolding bytes_available
available_for_new_text now reading g =
    let (g', figure) = bytes_available now reading g in
    (g', if eq_ℤ figure unknown then unknown else pos (pos_part (figure -ℤ pos g.headroom)))

unfoldable pub under_pressure : ℕ → ℤ → Guard → Guard × Bool
unfolding bytes_available
under_pressure now reading g =
    let (g', figure) = bytes_available now reading g in
    if g.headroom == 0
    then (g, false)
    else (g', not (eq_ℤ figure unknown) && lt_ℤ figure (pos g.headroom))
