-- ===== src/Ws/Heartbeat.antt =====
-- `Heartbeat` of backend/app/ws/heartbeat.py. What the connection, the clock and the user say at a
-- time is given for each time; a sleep takes exactly its interval.
use ephemeral_rooms.Prelude.{
  ℕ, zero, suc, ◌+◌, ◌-◌, ◌*◌, ◌≤◌, ◌<◌, ◌≡◌, ◌≢◌, inl, inr, Bool, true, not, List, [], ◌∷◌,
  if◌then◌else◌, ltb, arith, Bool-cases,
}
use ephemeral_rooms.Config.{Settings}
use ephemeral_rooms.Config.Validation.{IsSane}

-- At each time: whether the socket is open, `last_pong_at()`, and whether a ping can be sent.
pub record Peer : Type 0 where
  pub is_open : ℕ → Bool
  pub last_pong_at : ℕ → ℕ
  pub sends : ℕ → Bool

-- How the loop ends: by itself, or by closing the socket with HEARTBEAT_TIMEOUT; or it goes on.
pub data Ending : Type 0 where
  stopped beating : Ending
  timed_out : ℕ → Ending

-- What follows a sleep that ends at `now`; `rest` is the loop from there on.
abbrev pub wake : Peer → ℕ → ℕ → List ℕ × Ending → List ℕ × Ending
wake p timeout now (pings, ending) =
    if not (p.is_open now)
    then ([], stopped)
    else if ltb timeout (now - p.last_pong_at now)
    then ([], timed_out now)
    else if p.sends now
    then (now ∷ pings, ending)
    else ([], stopped)

-- The loop from `now` on, for `n` rounds at most: the times of its pings, and how it ends.
unfoldable pub loop : ℕ → Settings → Peer → ℕ → List ℕ × Ending
loop zero cfg p now = ([], beating)
loop (suc n) cfg p now =
    let next = now + cfg.ws_heartbeat_interval_ms in
    let rest = loop n cfg p next in
    if p.is_open now then wake p cfg.ws_heartbeat_timeout_ms next rest else ([], stopped)

-- A socket that is open and can be written to, and whose user says nothing any more.
pub record IsSilent (p : Peer) (last : ℕ) : Type 0 where
  pub stays_open : (t : ℕ) → p.is_open t ≡ true
  pub writable : (t : ℕ) → p.sends t ≡ true
  pub quiet : (t : ℕ) → p.last_pong_at t ≡ last

loop_silent :
    (n : ℕ) (cfg : Settings) (p : Peer) (now last : ℕ)
    → IsSilent p last
    → last ≤ now
    → now ≤ last + cfg.ws_heartbeat_timeout_ms
    → last + cfg.ws_heartbeat_timeout_ms < now + n * cfg.ws_heartbeat_interval_ms
    → (t : ℕ) × ((loop n cfg p now).1 ≡ timed_out t)
      × (last + cfg.ws_heartbeat_timeout_ms < t)
      × (t ≤ last + cfg.ws_heartbeat_timeout_ms + cfg.ws_heartbeat_interval_ms)
unfolding loop
loop_silent zero cfg p now last s before soon enough = absurd (omega arith)
loop_silent (suc n) cfg p now last s before soon enough =
    let next = now + cfg.ws_heartbeat_interval_ms in
    elim (Bool-cases (ltb cfg.ws_heartbeat_timeout_ms (next - last))) [
      | inl late ↦ (
        next,
        ground (arith, s.stays_open now, s.stays_open next, s.quiet next),
        ground arith,
        omega arith,
      )
      | inr early ↦
          let (t, e, after, bound) =
            loop_silent n cfg p next last s (omega arith) (ground arith) (omega arith) in
          (
            t,
            ground (arith, e, s.stays_open now, s.stays_open next, s.quiet next, s.writable next),
            after,
            bound,
          )
    ]

le_mul : (n i : ℕ) → 0 < i → n ≤ n * i
le_mul zero i h = omega arith
le_mul (suc n) i h = omega (arith, le_mul n i h)

-- Under validated settings, the heartbeat of an open, writable socket whose user says nothing any
-- more ends by closing it with the timeout, after the timeout has passed and at most one interval
-- later, within one round more than the timeout has milliseconds. The last pong is taken to be no
-- later than the start and within the timeout of it.
pub loop_terminates :
    (cfg : Settings) (p : Peer) (now last : ℕ)
    → IsSilent p last
    → IsSane cfg
    → last ≤ now
    → now ≤ last + cfg.ws_heartbeat_timeout_ms
    → (t : ℕ) × ((loop (suc cfg.ws_heartbeat_timeout_ms) cfg p now).1 ≡ timed_out t)
      × (last + cfg.ws_heartbeat_timeout_ms < t)
      × (t ≤ last + cfg.ws_heartbeat_timeout_ms + cfg.ws_heartbeat_interval_ms)
loop_terminates cfg p now last s sane before soon =
    let rounds = suc cfg.ws_heartbeat_timeout_ms in
    loop_silent rounds cfg p now last s before soon
      (omega (arith, le_mul rounds cfg.ws_heartbeat_interval_ms sane.ticks))

-- Under validated settings, a socket whose user has answered at each wake since the one before is
-- never closed by the heartbeat's timeout.
loop_answered :
    (n : ℕ) (cfg : Settings) (p : Peer) (now : ℕ)
    → IsSane cfg
    → ((t : ℕ) → t ≤ p.last_pong_at (t + cfg.ws_heartbeat_interval_ms))
    → (t : ℕ) → (loop n cfg p now).1 ≢ timed_out t
unfolding loop
loop_answered zero cfg p now sane answers t e = absurd (ground arith)
loop_answered (suc n) cfg p now sane answers t e =
    loop_answered n cfg p (now + cfg.ws_heartbeat_interval_ms) sane answers t
      (ground (arith, e, answers now, sane.pongs_in_time))
