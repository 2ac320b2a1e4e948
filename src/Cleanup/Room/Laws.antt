-- ===== src/Cleanup/Room/Laws.antt =====
-- The cleanup of backend/app/cleanup/room.py, step by step: the uploads, the directory, the room's
-- object, and the other rooms.
use ephemeral_rooms.Prelude.{
  ℕ, zero, suc, ◌+◌, ◌≤◌, ◌<◌, ◌≡◌, ◌≢◌, inl, inr, ◌∙◌, ap, Bool, none, some, [], Text, All, arith,
  Bool-cases, same_refl, ◌==◌, ==_iff,
}
use ephemeral_rooms.Dict.{get, has, get-pop}
use ephemeral_rooms.Storage.FileStore.{FileTree, Removal, remove_room, room_exists}
use ephemeral_rooms.Rooms.Types.{closed}
use ephemeral_rooms.Rooms.Instance.State.{Room}
use ephemeral_rooms.Files.Uploads.{Service}
use ephemeral_rooms.Cleanup.Room.{delete_from, delete_verified, clean_room, clean, max_attempts}

-- Once one of the attempts removes everything, the directory is gone at the end.
delete_from-gone :
    (n k m : ℕ) (removals : ℕ → Removal) (i : Text) (t : FileTree)
    → k ≤ m
    → m < k + n
    → removals m ≡ Removal.gone
    → get (delete_from n k removals i t) i ≡ none
unfolding delete_from room_exists has
delete_from-gone zero k m removals i t low high e = absurd (omega arith)
delete_from-gone (suc n) k m removals i t low high e = elim (Bool-cases (k == m)) [
  | inl here ↦ ground (arith, ==_iff k m, get-pop t i i, same_refl i)
  | inr later ↦ ground (
    arith,
    delete_from-gone n (suc k) m removals i (remove_room (removals k) i t) (ground arith)
        (omega arith) e,
  )
]

module _ {D W : Type 0} where
  -- What a cleanup comes to.
  pub record Cleaned (i : Text) (r : Room D W) (s s' : Service D W) : Type 0 where
    pub object : Room D W
    pub object_at : get s'.manager.instances i ≡ some object
    pub is_closed : object.state ≡ closed
    pub no_users : object.users ≡ []
    pub no_files : object.files ≡ []
    pub no_uploads : object.uploads ≡ []
    pub no_documents : object.documents.docs ≡ []
    pub no_awareness : object.awareness ≡ []
    pub no_timer : object.empty_grace_timer ≡ none
    pub released : All (λ id. get s'.ledger.reservations id ≡ none) r.uploads
    pub codes : s'.manager.rooms ≡ s.manager.rooms
    pub other_objects : (j : Text) → i ≢ j → get s'.manager.instances j ≡ get s.manager.instances j
    pub other_directories : (j : Text) → i ≢ j → get s'.manager.store j ≡ get s.manager.store j

  clean-eq :
      (is_open : ℕ → Bool) (removals : ℕ → Removal) (i : Text) (r : Room D W) (s : Service D W)
      → get s.manager.instances i ≡ some r
      → clean is_open removals i s ≡ clean_room is_open removals i r s
  unfolding clean
  clean-eq is_open removals i r s here = ground (arith, here)

  -- If one of the first four removals of the directory removes everything, then the directory of
  -- the room, which is in the store, is gone at the end of the cleanup.
  pub clean-gone :
      (is_open : ℕ → Bool) (removals : ℕ → Removal) (m : ℕ) (i : Text) (r : Room D W)
      (s : Service D W)
      → get s.manager.instances i ≡ some r
      → m < max_attempts
      → removals m ≡ Removal.gone
      → get (clean is_open removals i s).manager.store i ≡ none
  unfolding clean_room delete_verified
  clean-gone is_open removals m i r s here le e =
      ap (λ q. get q.manager.store i) (clean-eq is_open removals i r s here)
      ∙ delete_from-gone max_attempts 0 m removals i _ (omega arith) (omega arith) e
