-- ===== src/Cleanup/Reaper/Laws.antt =====
-- A sweep of the reaper of backend/app/cleanup/reaper.py, upload by upload.
use ephemeral_rooms.Prelude.{
  ℕ, ◌≡◌, true, none, List, [], ◌∷◌, Text, any, arith, Bool-cases, same, same_iff, inl, inr,
}
use ephemeral_rooms.Dict.{get, get-pop}
use ephemeral_rooms.Storage.FileStore.{part}
use ephemeral_rooms.Files.Ledger.{release}
use ephemeral_rooms.Files.Uploads.{Service}
use ephemeral_rooms.Cleanup.Reaper.{is_stale, reap_upload, reap_uploads}

module _ {D W : Type 0} where
  -- An upload as it was: its record, its promise, its part in any room, and its index entry.
  pub record Untouched (id : Text) (s s' : Service D W) : Type 0 where
    pub record_kept : get s'.uploads id ≡ get s.uploads id
    pub promise_kept : get s'.ledger.reservations id ≡ get s.ledger.reservations id
    pub part_kept : (i : Text) → part i id s'.manager.store ≡ part i id s.manager.store
    pub index_kept : s'.index ≡ s.index

  -- A released promise stays released.
  reap_uploads-released :
      (now stale_ms : ℕ) (i id : Text) (ids : List Text) (o : Service D W × ℕ)
      → get o.0.ledger.reservations id ≡ none
      → get (reap_uploads now stale_ms i ids o).0.ledger.reservations id ≡ none
  unfolding reap_uploads reap_upload release
  reap_uploads-released now stale_ms i id [] o h = h
  reap_uploads-released now stale_ms i id (k ∷ ids) (s, n) h =
      reap_uploads-released now stale_ms i id ids (reap_upload now stale_ms i k (s, n))
        (ground (arith, get-pop s.ledger.reservations k id))

  records-reap_upload :
      (now stale_ms : ℕ) (i k : Text) (o : Service D W × ℕ)
      → (reap_upload now stale_ms i k o).0.uploads ≡ o.0.uploads
  unfolding reap_upload
  records-reap_upload now stale_ms i k (s, n) = ground arith

  -- When the reaper is through with the uploads of a room, each of those listed that was stale has
  -- no promise any more.
  pub reap_uploads_stale :
      (now stale_ms : ℕ) (i id : Text) (ids : List Text) (o : Service D W × ℕ)
      → any (λ k. same k id) ids ≡ true
      → is_stale now stale_ms (get o.0.uploads id) ≡ true
      → get (reap_uploads now stale_ms i ids o).0.ledger.reservations id ≡ none
  unfolding reap_uploads
  reap_uploads_stale now stale_ms i id [] o listed stale = absurd (ground arith)
  reap_uploads_stale now stale_ms i id (k ∷ ids) (s, n) listed stale =
      elim (Bool-cases (same k id)) [
        | inl here ↦
            reap_uploads-released now stale_ms i id ids (reap_upload now stale_ms i k (s, n)) (
              unfold reap_upload release in
              ground (arith, same_iff k id, get-pop s.ledger.reservations k id))
        | inr later ↦
            reap_uploads_stale now stale_ms i id ids (reap_upload now stale_ms i k (s, n))
              (ground arith) (ground (arith, records-reap_upload now stale_ms i k (s, n)))
      ]
