-- ===== src/Files/Transfer/Completion.antt =====
-- `complete` of backend/app/files/uploads.py after the buffers of a request.
use ephemeral_rooms.Prelude.{
  ℕ, ◌+◌, ◌≤◌, ◌<◌, ◌≡◌, inl, inr, refl, sym, ◌∙◌, ap, true, none, some, List, [], ◌∷◌, ◌++◌, ◌==◌,
  length, Text, All, arith, Option-cases, same_refl, length-append,
}
use mathlib.Core.List.{append-nil, append_assoc}
use ephemeral_rooms.Config.{Settings}
use ephemeral_rooms.Dict.{get, alter, get-pop}
use ephemeral_rooms.Storage.FileStore.{
  Bytes, FileTree, RoomDir, part, part_size, commit_part, commit_in, open_file,
}
use ephemeral_rooms.Storage.FileStore.Laws.{open_file-commit_part}
use ephemeral_rooms.Rooms.Types.{FileRecord, UploadRecord}
use ephemeral_rooms.Files.Ledger.{release}
use ephemeral_rooms.Files.Uploads.{Service, returned, raised}
use ephemeral_rooms.Files.Transfer.{forget, write_chunk, write_all, complete, filed, file_record}
use ephemeral_rooms.Files.Transfer.Writing.{IsOpen, Written, Gone, write_chunk_lem}

-- The bytes of a request, in the order of its buffers.
abbrev pub joined : List (ℕ × ℕ × Bytes) → Bytes
joined [] = []
joined ((free, now, chunk) ∷ pieces) = chunk ++ joined pieces

-- Whenever the disk is asked, it has its headroom.
abbrev pub Roomy : ℕ → List (ℕ × ℕ × Bytes) → Type 0
Roomy headroom pieces = All (λ p. headroom ≤ p.0) pieces

pub commit_part_total :
    (i id f : Text) (t : FileTree) (d : RoomDir)
    → get t i ≡ some d
    → 0 < part_size i id t
    → (t' : FileTree) × (commit_part i id f t ≡ some t')
unfolding commit_part part_size part
commit_part_total i id f t d there some_bytes = elim (Option-cases (get d.tmp id)) [
  | inl no_part ↦ absurd (ground arith)
  | inr (b, held) ↦ (alter (commit_in id f b) i t, ground arith)
]

==_refl : (n : ℕ) → (n == n) ≡ true
==_refl n = ground arith

module _ {D W : Type 0} where
  pub Written-nil :
      (i id : Text) (u : UploadRecord) (s : Service D W)
      → IsOpen i id u s
      → Written i id [] u s s u.committed_offset
  Written-nil i id u s o = record {
    upload = u;
    is_open = o;
    content = sym (append-nil (part i id s.manager.store));
    size = omega arith;
    offset = refl;
    declared = refl;
    file_id = refl;
    filename = refl;
    aborted = refl;
    headroom = refl;
  }

  pub Written-trans :
      {i id : Text} {a b : Bytes} {u : UploadRecord} {s t v : Service D W} {m n : ℕ}
      → (w : Written i id a u s t m) → Written i id b w.upload t v n
      → Written i id (a ++ b) u s v n
  Written-trans {i} {id} {a} {b} {s} w x = record {
    upload = x.upload;
    is_open = x.is_open;
    content = x.content ∙ ap (λ p. p ++ b) w.content ∙ append_assoc (part i id s.manager.store) a b;
    size = omega (arith, x.size, w.size, w.offset, length-append a b);
    offset = x.offset;
    declared = x.declared ∙ w.declared;
    file_id = x.file_id ∙ w.file_id;
    filename = x.filename ∙ w.filename;
    aborted = x.aborted ∙ w.aborted;
    headroom = x.headroom ∙ w.headroom;
  }

  -- Within the declared size, and with the disk's headroom kept, a buffer is written.
  pub write_chunk_fits :
      (cfg : Settings) (free now : ℕ) (i id : Text) (u : UploadRecord) (chunk : Bytes)
      (s : Service D W)
      → IsOpen i id u s
      → u.committed_offset + length chunk ≤ u.declared_size
      → s.ledger.headroom ≤ free
      → (s' : Service D W) × (n : ℕ) × (write_chunk cfg free now i id u chunk s ≡ (s', returned n))
        × Written i id chunk u s s' n
  write_chunk_fits cfg free now i id u chunk s o fits roomy =
      elim (write_chunk_lem cfg free now i id u chunk s o) [
        | inl (n, e, w) ↦ ((write_chunk cfg free now i id u chunk s).0, n, ground (arith, e), w)
        | inr (inl (e, over)) ↦ absurd (omega arith)
        | inr (inr (e, gone, short)) ↦ absurd (omega arith)
      ]

  -- The buffers of a request that stay within the declared size are all written, in order, as long as
  -- the disk keeps its headroom.
  pub write_all_lem :
      (cfg : Settings) (i id : Text) (pieces : List (ℕ × ℕ × Bytes)) (u : UploadRecord)
      (s : Service D W)
      → IsOpen i id u s
      → u.committed_offset + length (joined pieces) ≤ u.declared_size
      → Roomy s.ledger.headroom pieces
      → (s' : Service D W) × (n : ℕ) × (write_all cfg i id pieces s ≡ (s', returned n))
        × Written i id (joined pieces) u s s' n
  unfolding write_all
  write_all_lem cfg i id [] u s o fits roomy =
      (s, u.committed_offset, ground (arith, o.record_at), Written-nil i id u s o)
  write_all_lem cfg i id ((free, now, chunk) ∷ pieces) u s o fits (here, later) =
      let (t, n, e, w) =
        write_chunk_fits cfg free now i id u chunk s o
          (omega (arith, length-append chunk (joined pieces))) here in
      let (v, m, e', x) =
        write_all_lem cfg i id pieces w.upload t w.is_open
          (omega (arith, w.offset, w.size, w.declared, length-append chunk (joined pieces)))
          (rw w.headroom later) in
      (v, m, ground (arith, o.record_at, e, e'), Written-trans w x)

  -- What a completion leaves: the file's record, the stored bytes, and nothing of the upload.
  pub record Completed (now : ℕ) (i id : Text) (u : UploadRecord) (content : Bytes)
      (s' : Service D W) (f : FileRecord) : Type 0 where
    pub file : f ≡ file_record now u.declared_size u
    pub stored : open_file i u.file_id s'.manager.store ≡ some content
    pub gone : Gone i id s'

  pub complete-eq :
      (now : ℕ) (i id : Text) (u : UploadRecord) (s : Service D W) (t' : FileTree)
      → part_size i id s.manager.store ≡ u.declared_size
      → commit_part i id u.file_id s.manager.store ≡ some t'
      → let f = file_record now u.declared_size u in
        complete now i id u s ≡ (filed i id f t' s, returned f)
  unfolding complete
  complete-eq now i id u s t' all e =
      rw (all, ==_refl u.declared_size, e)
        (ap (λ n. (filed i id (file_record now n u) t' s, returned (file_record now n u))) all)

  pub filed-Gone :
      (i id : Text) (f : FileRecord) (t' : FileTree) (s : Service D W)
      → part i id t' ≡ []
      → Gone i id (filed i id f t' s)
  unfolding filed forget release
  filed-Gone i id f t' s no_part = record {
    promise = ground (arith, get-pop s.ledger.reservations id id, same_refl id);
    no_part = no_part;
    unlisted = ground (arith, get-pop s.index id id, same_refl id);
  }

  -- A transfer that has all its bytes, at least one, completes.
  pub complete_lem :
      (now : ℕ) (i id : Text) (u : UploadRecord) (s : Service D W)
      → IsOpen i id u s
      → 0 < u.declared_size
      → u.committed_offset ≡ u.declared_size
      → (s' : Service D W) × (f : FileRecord) × (complete now i id u s ≡ (s', returned f))
        × Completed now i id u (part i id s.manager.store) s' f
  complete_lem now i id u s o some_bytes all =
      let (t', e) =
        commit_part_total i id u.file_id s.manager.store o.dir o.dir_at (omega (arith, o.offset)) in
      let (stored, no_part) = open_file-commit_part i id u.file_id s.manager.store t' e in
      let f = file_record now u.declared_size u in
      (
        filed i id f t' s,
        f,
        complete-eq now i id u s t' (o.offset ∙ all) e,
        record {
          file = refl;
          stored = unfold filed forget in stored;
          gone = filed-Gone i id f t' s no_part;
        },
      )

  -- From an open upload of at least one byte, buffers that make up the rest of the declared size,
  -- however they are cut, are all written, and then `complete` stores a file of the declared size
  -- whose content is the part as it was, followed by the buffers in order, and leaves no part,
  -- promise or index entry. The disk is taken to have its headroom whenever it is asked.
  pub complete-write_all :
      (cfg : Settings) (i id : Text) (pieces : List (ℕ × ℕ × Bytes)) (now : ℕ) (u : UploadRecord)
      (s : Service D W)
      → IsOpen i id u s
      → 0 < u.declared_size
      → u.committed_offset + length (joined pieces) ≡ u.declared_size
      → Roomy s.ledger.headroom pieces
      → (t v : Service D W) × (w : UploadRecord) × (f : FileRecord) × (write_all cfg i id pieces s
          ≡ (t, returned u.declared_size))
        × (get t.uploads id ≡ some w)
        × (complete now i id w t ≡ (v, returned f))
        × (open_file i u.file_id v.manager.store
            ≡ some (part i id s.manager.store ++ joined pieces))
        × (f.size ≡ u.declared_size)
        × Gone i id v
  unfolding file_record
  complete-write_all cfg i id pieces now u s o some_bytes all roomy =
      let (t, n, e, w) = write_all_lem cfg i id pieces u s o (omega arith) roomy in
      let (v, f, e', c) =
        complete_lem now i id w.upload t w.is_open (omega (arith, w.declared))
          (omega (arith, w.offset, w.size, w.declared)) in
      (
        t,
        v,
        w.upload,
        f,
        e ∙ ap (λ m. (t, returned m)) (omega (arith, w.size)),
        w.is_open.record_at,
        e',
        ap (λ k. open_file i k v.manager.store) (sym w.file_id) ∙ c.stored ∙ ap some w.content,
        ground (arith, c.file, w.declared),
        c.gone,
      )

  -- An upload of declared size zero, for which there is no part, does not complete where the room
  -- has its directory: the commit raises, and the service stays as it was.
  pub complete_empty :
      (now : ℕ) (i id : Text) (u : UploadRecord) (s : Service D W) (d : RoomDir)
      → get s.manager.store i ≡ some d
      → get d.tmp id ≡ none
      → u.declared_size ≡ 0
      → complete now i id u s ≡ (s, raised)
  unfolding complete commit_part part_size part
  complete_empty now i id u s d there no_part empty = ground arith
