-- ===== src/Storage/Memory/Pressure.antt =====
-- What `MemoryGuard` of backend/app/storage/memory.py tells, and when.
use ephemeral_rooms.Prelude.{
  ℕ, zero, suc, ◌+◌, ◌-◌, ◌<◌, ◌≡◌, ◌↔◌, inl, inr, refl, Bool, true, false, not, ◌&&◌, Option, ◌==◌,
  arith, Bool-cases, if◌then◌else◌,
}
use ephemeral_rooms.Prelude.Int.{ℤ, pos, pos_part, ◌-ℤ◌, eq_ℤ, lt_ℤ}
use ephemeral_rooms.Storage.Budget.{is_fresh}
use ephemeral_rooms.Storage.Memory.Probes.{SystemFiles, probe, probe-IsReading}
use ephemeral_rooms.Storage.Memory.{
  Guard, IsReading, unknown, bytes_available, available_for_new_text, under_pressure,
}

-- What the two questions come to for one figure.
pub record Judged (headroom : ℕ) (figure available : ℤ) (pressure : Bool) : Type 0 where
  pub reached : (pressure ≡ true) ↔ ((n : ℕ) × (figure ≡ pos n) × (n < headroom))
  pub nothing_left : pressure ≡ true → available ≡ pos 0
  pub unmeasured : (available ≡ unknown) ↔ (figure ≡ unknown)
  pub rest : (n : ℕ) → available ≡ pos (suc n) → figure ≡ pos (headroom + suc n)

bytes_available-IsReading :
    (now : ℕ) (reading : ℤ) (g : Guard)
    → IsReading reading
    → IsReading g.cached
    → IsReading (bytes_available now reading g).1
unfolding bytes_available
bytes_available-IsReading now reading g r c = elim (Bool-cases (is_fresh g.ttl now g.cached_at)) [
  | inl fresh ↦ rw fresh c
  | inr stale ↦ rw stale r
]

judged :
    (headroom : ℕ) (figure : ℤ)
    → IsReading figure
    → Judged headroom figure
        (if eq_ℤ figure unknown then unknown else pos (pos_part (figure -ℤ pos headroom)))
        (if headroom == 0 then false else not (eq_ℤ figure unknown) && lt_ℤ figure (pos headroom))
judged headroom figure (inl e) = rw e (record {
  reached = (λ h. absurd (ground arith), λ (n, same, below). absurd (ground arith));
  nothing_left = λ h. absurd (ground arith);
  unmeasured = (λ h. h, λ h. h);
  rest = λ n h. absurd (ground arith);
})
judged zero figure (inr (n, e)) = rw e (record {
  reached = (λ h. absurd (ground arith), λ (m, same, below). absurd (omega arith));
  nothing_left = λ h. absurd (ground arith);
  unmeasured = (λ h. absurd (ground arith), λ h. absurd (ground arith));
  rest = λ k h. ground arith;
})
judged (suc headroom) figure (inr (n, e)) = rw e (record {
  reached = (λ h. (n, refl, ground arith), λ (m, same, below). ground arith);
  nothing_left = λ h. ground arith;
  unmeasured = (λ h. absurd (ground arith), λ h. absurd (ground arith));
  rest = λ k h. ground arith;
})

under_pressure-eq :
    (now : ℕ) (reading : ℤ) (g : Guard)
    → let figure = (bytes_available now reading g).1 in
      (under_pressure now reading g).1 ≡ (
        if g.headroom == 0
        then false
        else not (eq_ℤ figure unknown) && lt_ℤ figure (pos g.headroom))
unfolding under_pressure
under_pressure-eq now reading g = elim (Bool-cases (g.headroom == 0)) [
  | inl none_asked ↦ rw none_asked refl
  | inr asked ↦ rw asked refl
]

under_pressure_lem :
    (now : ℕ) (reading : ℤ) (g : Guard)
    → IsReading reading
    → IsReading g.cached
    → Judged g.headroom
        (bytes_available now reading g).1
        (available_for_new_text now reading g).1
        (under_pressure now reading g).1
unfolding available_for_new_text
under_pressure_lem now reading g r c = rw (under_pressure-eq now reading g) (
    judged g.headroom (bytes_available now reading g).1
      (bytes_available-IsReading now reading g r c))

-- Whatever the files of the system hold, the memory guard that reads them reports pressure exactly
-- when the figure is known and below the headroom, reports nothing left where it reports pressure,
-- reports an unknown figure as unknown and only then, and any amount above zero as what the figure
-- has above the headroom. The cached figure is taken to be unknown or zero or more.
pub under_pressure-probe :
    (now : ℕ) (f : SystemFiles) (windows : Option ℤ) (g : Guard)
    → IsReading g.cached
    → let reading = probe f windows in
      Judged g.headroom
        (bytes_available now reading g).1
        (available_for_new_text now reading g).1
        (under_pressure now reading g).1
under_pressure-probe now f windows g c =
    under_pressure_lem now (probe f windows) g (probe-IsReading f windows) c

pub bytes_available_cached :
    (at now : ℕ) (reading later : ℤ) (g : Guard)
    → is_fresh g.ttl at g.cached_at ≡ false
    → now - at < g.ttl
    → let probed = (bytes_available at reading g).0 in
      bytes_available now later probed ≡ (probed, reading)
unfolding bytes_available
bytes_available_cached at now reading later g stale soon = ground arith
