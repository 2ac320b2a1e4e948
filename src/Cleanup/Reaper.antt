-- ===== src/Cleanup/Reaper.antt =====
-- `UploadReaper.sweep_once` of backend/app/cleanup/reaper.py.
pub mod Laws
use ephemeral_rooms.Prelude.{
  ℕ, ◌-◌, ◌+◌, Bool, false, not, ◌&&◌, Option, none, some, List, [], ◌∷◌, if◌then◌else◌, ltb, Text,
}
use ephemeral_rooms.Dict.{get, values, alter}
use ephemeral_rooms.Storage.FileStore.{discard_part}
use ephemeral_rooms.Rooms.Types.{UploadRecord}
use ephemeral_rooms.Rooms.Instance.State.{Room}
use ephemeral_rooms.Files.Ledger.{release}
use ephemeral_rooms.Files.Uploads.{Service}
use ephemeral_rooms.Files.Transfer.{drop_upload}

-- Not writing, and silent for at least `stale_ms`. `stale_ms` is positive, so a clock that went back
-- makes the difference of naturals, 0, count as it does in the source.
unfoldable pub is_stale : ℕ → ℕ → Option UploadRecord → Bool
is_stale now stale_ms none = false
is_stale now stale_ms (some u) = not u.writing && not (ltb (now - u.last_activity_at) stale_ms)

module _ {D W : Type 0} where
  -- The body of the inner loop, for an upload that the room listed, with the count.
  unfoldable pub reap_upload : ℕ → ℕ → Text → Text → Service D W × ℕ → Service D W × ℕ
  unfolding is_stale
  reap_upload now stale_ms i id (s, reaped) =
      if is_stale now stale_ms (get s.uploads id)
      then (
        record s {
          manager = record s.manager {
            instances = alter (drop_upload id) i s.manager.instances;
            store = discard_part i id s.manager.store;
          };
          ledger = release id s.ledger;
        },
        reaped + 1,
      )
      else (s, reaped)

  unfoldable pub reap_uploads : ℕ → ℕ → Text → List Text → Service D W × ℕ → Service D W × ℕ
  unfolding reap_upload
  reap_uploads now stale_ms i [] o = o
  reap_uploads now stale_ms i (id ∷ ids) o =
      reap_uploads now stale_ms i ids (reap_upload now stale_ms i id o)

  abbrev pub uploads_of : Option (Room D W) → List Text
  uploads_of none = []
  uploads_of (some r) = r.uploads

  -- The outer loop, over the instances that the map held.
  unfoldable pub reap_rooms : ℕ → ℕ → List Text → Service D W × ℕ → Service D W × ℕ
  unfolding reap_uploads
  reap_rooms now stale_ms [] o = o
  reap_rooms now stale_ms (i ∷ is) o =
      reap_rooms now stale_ms is
        (reap_uploads now stale_ms i (uploads_of (get o.0.manager.instances i)) o)

  unfoldable pub sweep_once : ℕ → ℕ → Service D W → Service D W × ℕ
  unfolding reap_rooms
  sweep_once now stale_ms s = reap_rooms now stale_ms (values s.manager.rooms) (s, 0)
