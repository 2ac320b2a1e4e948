-- ===== src/Files/Routes/Refusals.antt =====
-- What the endpoints of backend/app/files/routes.py refuse.
use ephemeral_rooms.Prelude.{
  ℕ, ◌≤◌, ◌≡◌, ◌≢◌, ◌⊎◌, inl, inr, refl, Bool, true, Option, none, some, List, ◌∷◌, Text, arith, ap,
  subst, ◌∙◌, same_refl,
}
use ephemeral_rooms.Config.{Settings}
use ephemeral_rooms.Dict.{Dict, get, pop, get-pop}
use ephemeral_rooms.Storage.FileStore.{Bytes}
use ephemeral_rooms.Rooms.Types.{UploadRecord}
use ephemeral_rooms.Rooms.Instance.State.{Room, new_room}
use ephemeral_rooms.Rooms.Manager.{Manager, lookup, begin_closing, get_or_create, mark_visited}
use ephemeral_rooms.Rooms.Manager.Closing.{
  IsValid, rooms-begin_closing, get_or_create-begin_closing,
}
use ephemeral_rooms.Files.Uploads.{
  UploadError, offset_mismatch, Outcome, returned, refused, raised, Service, check_range_start,
}
use ephemeral_rooms.Files.Routes.{
  Response, error, server_error, not_found, status, error_status, range_start, upload_chunk,
  download,
}
use ephemeral_rooms.Files.Routes.Resolving.{Resolves, resolve_lem}

-- Every refusal is a client's error or a server's.
error_status_bad : (e : UploadError) → 400 ≤ error_status e
unfolding error_status
error_status_bad e = ground arith

Outcome-cases :
    {A : Type 0} (o : Outcome A)
    → ((a : A) × (o ≡ returned a)) ⊎ ((e : UploadError) × (o ≡ refused e)) ⊎ (o ≡ raised)
Outcome-cases (returned a) = inl (a, refl)
Outcome-cases (refused e) = inr (inl (e, refl))
Outcome-cases raised = inr (inr refl)

misaligned :
    (u : UploadRecord) (start : ℕ)
    → start ≢ u.committed_offset
    → check_range_start u start ≡ some (offset_mismatch u.committed_offset)
unfolding check_range_start
misaligned u start ne = ground arith

get-pop_self : {V : Type 0} (d : Dict V) (k : Text) → get (pop d k) k ≡ none
get-pop_self d k = ground (arith, get-pop d k k, same_refl k)

module _ {D W : Type 0} where
  -- A request for an upload that is found by its id, with a header that does not name a range from
  -- the committed offset on, changes nothing and is answered with a status of at least 400.
  pub upload_chunk_refused :
      (valid : Text → Bool) (cfg : Settings) (code i id : Text) (header : Option Text)
      (last : ℕ × ℕ) (cut : Bool) (pieces : List (ℕ × ℕ × Bytes)) (r : Room D W) (u : UploadRecord)
      (s : Service D W)
      → Resolves valid code i id r u s
      → get s.uploads id ≡ some u
      → range_start header ≢ returned u.committed_offset
      → (response : Response) × (upload_chunk valid cfg id header last cut pieces s ≡ (s, response))
        × (400 ≤ status response)
  unfolding upload_chunk status
  upload_chunk_refused valid cfg code i id header last cut pieces r u s h there off =
      let found = resolve_lem valid code i id r u s h there in
      elim (Outcome-cases (range_start header)) [
        | inl (start, e) ↦ (
          error (offset_mismatch u.committed_offset),
          ground (arith, found, e, misaligned u start λ same. off (e ∙ ap returned same)),
          error_status_bad _,
        )
        | inr (inl (x, e)) ↦ (error x, ground (arith, found, e), error_status_bad x)
        | inr (inr e) ↦ (server_error, ground (arith, found, e), omega arith)
      ]

  download_no_file :
      (valid : Text → Bool) (code i file_id : Text) (r : Room D W) (m : Manager D W)
      → get m.rooms code ≡ some i
      → get m.instances i ≡ some r
      → get r.files file_id ≡ none
      → download valid code file_id m ≡ not_found
  unfolding download lookup
  download_no_file valid code i file_id r m leads there none_such = ground arith

  -- Once the room of a code has begun to close, its files can no longer be downloaded under the
  -- code, nor can they after a visit has put a fresh room behind it. The manager is taken to be
  -- valid, the code not empty, the new instance id different from the old one and without a
  -- directory.
  pub download-get_or_create :
      (valid : Text → Bool) (cfg : Settings) (draws : ℕ → ℕ) (file_id j i : Text) (now : ℕ) (c : ℕ)
      (rest : Text) (m : Manager D W) (r : Room D W)
      → IsValid cfg m
      → r.room_code ≡ c ∷ rest
      → r.room_instance_id ≡ i
      → get m.rooms (c ∷ rest) ≡ some i
      → i ≢ j
      → get m.store j ≡ none
      → let m' = begin_closing r m in
        (n : Manager D W) × (get_or_create cfg draws j now (c ∷ rest) m' ≡ some (n, j, true))
        × (download valid (c ∷ rest) file_id m' ≡ not_found)
        × (download valid (c ∷ rest) file_id n ≡ not_found)
  unfolding download lookup
  download-get_or_create valid cfg draws file_id j i now c rest m r v code_r id here ne new =
      let (n, e, fresh) =
        get_or_create-begin_closing cfg draws j i now c rest m r v code_r id here ne new in
      let gone =
        subst (λ k. get (begin_closing r m).rooms k ≡ none) code_r
          (rw (rooms-begin_closing m i r (ap (get m.rooms) code_r ∙ here) id)
            (get-pop_self m.rooms r.room_code)) in
      (
        n,
        e,
        ground (arith, gone),
        download_no_file valid (c ∷ rest) j file_id (mark_visited (new_room (c ∷ rest) j now)) n
            fresh.leads_to fresh.object (unfold new_room get in refl),
      )
