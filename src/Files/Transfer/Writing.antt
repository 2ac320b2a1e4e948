-- ===== src/Files/Transfer/Writing.antt =====
-- `write_chunk` of backend/app/files/uploads.py on an open upload: what the part holds, what the
-- record says and what is still promised.
use ephemeral_rooms.Prelude.{
  ℕ, ◌+◌, ◌-◌, ◌≤◌, ◌<◌, ◌≡◌, ◌⊎◌, inl, inr, refl, none, some, [], ◌++◌, ltb, leb, length, Text,
  arith, Bool-cases, same_refl, ltb→lt, ltb→le, length-append,
}
use ephemeral_rooms.Prelude.Int.{ℤ, sub_ℕ}
use ephemeral_rooms.Config.{Settings}
use ephemeral_rooms.Dict.{get, alter, get-alter_self, get-put_self, get-pop}
use ephemeral_rooms.Storage.FileStore.{
  Bytes, FileTree, RoomDir, part, part_size, append_part, append_to, discard_part,
}
use ephemeral_rooms.Storage.FileStore.Laws.{part-append_part, part-discard_part}
use ephemeral_rooms.Rooms.Types.{UploadRecord}
use ephemeral_rooms.Files.Ledger.{Ledger, release, shrink, headroom_breached}
use ephemeral_rooms.Files.Uploads.{
  Service, Outcome, returned, refused, over_declared_size, no_space,
}
use ephemeral_rooms.Files.Transfer.{
  advanced, rechecked, landed, recheck, abort, forget, write_chunk,
}

pub append_part_total :
    (i id : Text) (chunk : Bytes) (t : FileTree) (d : RoomDir)
    → get t i ≡ some d
    → (t' : FileTree) × (n : ℕ) × (append_part i id chunk t ≡ some (t', n))
      × (get t' i ≡ some (append_to id chunk d))
unfolding append_part
append_part_total i id chunk t d there = (
  alter (append_to id chunk) i t,
  part_size i id (alter (append_to id chunk) i t),
  ground arith,
  get-alter_self (append_to id chunk) t i there,
)

shrink_at :
    (id : Text) (a b r : ℕ) (l : Ledger)
    → get l.reservations id ≡ some r
    → get (shrink id (sub_ℕ a b) l).reservations id ≡ some (a - b)
unfolding shrink
shrink_at id a b r l h = ground (arith, get-put_self l.reservations id (a - b))

shrink-headroom : (id : Text) (z : ℤ) (l : Ledger) → (shrink id z l).headroom ≡ l.headroom
unfolding shrink
shrink-headroom id z l = ground arith

module _ {D W : Type 0} where
  -- An upload in progress: the committed offset is the part's size and within the declared size, and
  -- exactly what is still missing is promised.
  pub record IsOpen (i id : Text) (u : UploadRecord) (s : Service D W) : Type 0 where
    pub record_at : get s.uploads id ≡ some u
    pub dir : RoomDir
    pub dir_at : get s.manager.store i ≡ some dir
    pub offset : part_size i id s.manager.store ≡ u.committed_offset
    pub within : u.committed_offset ≤ u.declared_size
    pub promise : get s.ledger.reservations id ≡ some (u.declared_size - u.committed_offset)

  -- What a buffer leaves when it is written: a transfer that is open, further on by the buffer.
  pub record Written (i id : Text) (chunk : Bytes) (u : UploadRecord) (s s' : Service D W) (n : ℕ)
      : Type 0 where
    pub upload : UploadRecord
    pub is_open : IsOpen i id upload s'
    pub content : part i id s'.manager.store ≡ part i id s.manager.store ++ chunk
    pub size : n ≡ u.committed_offset + length chunk
    pub offset : upload.committed_offset ≡ n
    pub declared : upload.declared_size ≡ u.declared_size
    pub file_id : upload.file_id ≡ u.file_id
    pub filename : upload.filename ≡ u.filename
    pub aborted : upload.aborted ≡ u.aborted
    pub headroom : s'.ledger.headroom ≡ s.ledger.headroom

  landed-Written :
      (now n : ℕ) (i id : Text) (chunk : Bytes) (u : UploadRecord) (t' : FileTree) (s : Service D W)
      → IsOpen i id u s
      → u.committed_offset + length chunk ≤ u.declared_size
      → append_part i id chunk s.manager.store ≡ some (t', n)
      → (d : RoomDir) → get t' i ≡ some d
      → Written i id chunk u s (landed now id n (length chunk) u t' s) n
  unfolding landed advanced part_size
  landed-Written now n i id chunk u t' s o fits e d there =
      let (content, size) = part-append_part i id chunk s.manager.store t' n e in
      record {
        upload = advanced now n (length chunk) u;
        is_open = record {
          record_at = get-alter_self (advanced now n (length chunk)) s.uploads id o.record_at;
          dir = d;
          dir_at = there;
          offset =
              rw content (omega (arith, length-append (part i id s.manager.store) chunk, size));
          within = omega (arith, size, o.offset);
          promise =
              shrink_at id u.declared_size n (u.declared_size - u.committed_offset) s.ledger
                o.promise;
        };
        content = content;
        size = omega (arith, size, o.offset);
        offset = refl;
        declared = refl;
        file_id = refl;
        filename = refl;
        aborted = refl;
        headroom = shrink-headroom id (sub_ℕ u.declared_size n) s.ledger;
      }

  -- Nothing is left of an upload: no promise, no part, no entry of the index.
  pub record Gone (i id : Text) (s : Service D W) : Type 0 where
    pub promise : get s.ledger.reservations id ≡ none
    pub no_part : part i id s.manager.store ≡ []
    pub unlisted : get s.index id ≡ none

  -- An abort leaves no part, promise or index entry of the upload, whatever state the service was
  -- in.
  pub abort-Gone : (i id : Text) (s : Service D W) → Gone i id (abort i id s)
  unfolding abort forget release discard_part part
  abort-Gone i id s = record {
    promise = ground (arith, get-pop s.ledger.reservations id id, same_refl id);
    no_part = part-discard_part i id s.manager.store;
    unlisted = ground (arith, get-pop s.index id id, same_refl id);
  }

  rechecked-Written :
      (n : ℕ) (i id : Text) (chunk : Bytes) (u : UploadRecord) (s s' : Service D W)
      → Written i id chunk u s s' n
      → Written i id chunk u s (record s' { uploads = alter rechecked id s'.uploads }) n
  unfolding rechecked
  rechecked-Written n i id chunk u s s' w = record {
    upload = rechecked w.upload;
    is_open = record {
      record_at = get-alter_self rechecked s'.uploads id w.is_open.record_at;
      dir = w.is_open.dir;
      dir_at = w.is_open.dir_at;
      offset = w.is_open.offset;
      within = w.is_open.within;
      promise = w.is_open.promise;
    };
    content = w.content;
    size = w.size;
    offset = w.offset;
    declared = w.declared;
    file_id = w.file_id;
    filename = w.filename;
    aborted = w.aborted;
    headroom = w.headroom;
  }

  -- What one buffer comes to: written; more than was declared, with nothing changed; or out of disk,
  -- with the upload aborted.
  abbrev pub Chunked :
      ℕ → Text → Text → Bytes → UploadRecord → Service D W → Service D W × Outcome ℕ → Type 0
  Chunked free i id chunk u s o =
      ((n : ℕ) × (o.1 ≡ returned n) × Written i id chunk u s o.0 n)
      ⊎ ((o ≡ (s, refused over_declared_size))
          × (u.declared_size < u.committed_offset + length chunk))
      ⊎ ((o.1 ≡ refused (no_space none)) × Gone i id o.0 × (free < s.ledger.headroom))

  recheck_lem :
      (cfg : Settings) (free since n : ℕ) (i id : Text) (chunk : Bytes) (u : UploadRecord)
      (s s' : Service D W)
      → Written i id chunk u s s' n
      → Chunked free i id chunk u s (recheck cfg free i id since n s')
  unfolding recheck headroom_breached
  recheck_lem cfg free since n i id chunk u s s' w =
      elim (Bool-cases (leb cfg.disk_recheck_interval_bytes since)) [
        | inr early ↦ rw early (inl (n, refl, w))
        | inl due ↦ elim (Bool-cases (headroom_breached free s'.ledger)) [
          | inl short ↦
              rw (due, short) (inr (inr (refl, abort-Gone i id _, ground (arith, w.headroom))))
          | inr enough ↦ rw (due, enough) (inl (n, refl, rechecked-Written n i id chunk u s s' w))
        ]
      ]

  -- One buffer of an open upload is written and leaves it open, further on by exactly the buffer,
  -- with the rest still promised; or it exceeds the declared size, is refused and changes nothing;
  -- or the disk is short of its headroom, and the upload is refused and leaves no part, promise or
  -- index entry.
  pub write_chunk_lem :
      (cfg : Settings) (free now : ℕ) (i id : Text) (u : UploadRecord) (chunk : Bytes)
      (s : Service D W)
      → IsOpen i id u s
      → Chunked free i id chunk u s (write_chunk cfg free now i id u chunk s)
  unfolding write_chunk
  write_chunk_lem cfg free now i id u chunk s o =
      elim (Bool-cases (ltb u.declared_size (u.committed_offset + length chunk))) [
        | inl over ↦ rw over (inr (inl (refl, ltb→lt _ _ over)))
        | inr fits ↦
            let (t', n, e, there) = append_part_total i id chunk s.manager.store o.dir o.dir_at in
            rw (fits, e)
              (recheck_lem cfg free (u.bytes_since_recheck + length chunk) n i id chunk u s
                (landed now id n (length chunk) u t' s)
                (landed-Written now n i id chunk u t' s o (ltb→le _ _ fits) e _ there))
      ]
