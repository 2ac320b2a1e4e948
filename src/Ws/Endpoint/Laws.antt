-- ===== src/Ws/Endpoint/Laws.antt =====
-- What the receive loop of backend/app/ws/routes.py does over all the frames of a socket.
use ephemeral_rooms.Prelude.{
  suc, ◌+◌, ◌≤◌, ◌≡◌, inl, inr, refl, true, false, List, [], ◌∷◌, ◌++◌, arith, subst, sym,
  Bool-cases, if◌then◌else◌,
}
use ephemeral_rooms.Ws.Endpoint.{
  Frame, Session, Action, Loop, accept, step, run, max_protocol_errors,
}
use ephemeral_rooms.Ws.Endpoint.Log.{IsOrderly, is_refused, is_leave, count, count-append}
use ephemeral_rooms.Ws.Endpoint.Rounds.{Round, step-Round}

module _ {S : Type 0} where
  -- What the log of a loop is like, and where it stands.
  abbrev pub Logged : Loop S → Loop S × List Action → Type 0
  Logged l o =
      IsOrderly l.joined o.1
      × (l.errors + count is_refused o.1 ≤ suc max_protocol_errors)
      × (count is_leave o.1 ≡ (if o.0.running then 0 else 1))

  run_running :
      (h : Session S) (f : Frame) (frames : List Frame) (l : Loop S)
      → l.running ≡ true
      → let o = step h f l in
        let rest = run h frames o.0 in run h (f ∷ frames) l ≡ (rest.0, o.1 ++ rest.1)
  unfolding run
  run_running h f frames l going = ground arith

  run_over :
      (h : Session S) (frames : List Frame) (l : Loop S)
      → l.running ≡ false
      → run h frames l ≡ (l, [])
  unfolding run
  run_over h [] l over = refl
  run_over h (f ∷ frames) l over = ground arith

  -- A round before the rest of a run.
  Round-Logged :
      (l : Loop S) (o rest : Loop S × List Action)
      → Round l o
      → Logged o.0 rest
      → o.0.running ≡ true
      → Logged l (rest.0, o.1 ++ rest.1)
  Round-Logged l o rest x (orderly, bounded, left) going = (
    x.orderly rest.1 orderly,
    omega (arith, x.errors, count-append is_refused o.1 rest.1),
    ground (arith, x.left, count-append is_leave o.1 rest.1),
  )

  -- A round that ends the loop.
  ended :
      (l : Loop S) (o : Loop S × List Action)
      → Round l o
      → o.0.running ≡ false
      → Logged l (o.0, o.1 ++ [])
  ended l o x over = (
    x.orderly [] tt,
    omega (arith, x.errors, x.few, count-append is_refused o.1 []),
    ground (arith, x.left, count-append is_leave o.1 []),
  )

  run-Logged :
      (h : Session S) (frames : List Frame) (l : Loop S)
      → l.running ≡ true
      → l.errors ≤ max_protocol_errors
      → Logged l (run h frames l)
  unfolding run
  run-Logged h [] l going few = (tt, omega arith, ground arith)
  run-Logged h (f ∷ frames) l going few =
      let o = step h f l in
      let x = step-Round h f l going few in
      subst (Logged l) (sym (run_running h f frames l going)) (elim (Bool-cases o.0.running) [
        | inl still ↦
            Round-Logged l o (run h frames o.0) x (run-Logged h frames o.0 still (x.abused still))
              still
        | inr over ↦
            subst (λ rest. Logged l (rest.0, o.1 ++ rest.1)) (sym (run_over h frames o.0 over))
              (ended l o x over)
      ])

  -- Over any frames of a socket and whatever the session does, the loop hands the session no
  -- message and no binary frame before a successful join and joins once at most, starts the
  -- heartbeat only then, refuses at most 21 frames, and lets the session leave exactly once when it
  -- ends, and not before.
  pub accept-Logged :
      (h : Session S) (frames : List Frame) (s : S) → Logged (accept s) (run h frames (accept s))
  unfolding accept
  accept-Logged h frames s = run-Logged h frames (accept s) refl (omega arith)
