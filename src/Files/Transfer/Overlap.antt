-- ===== src/Files/Transfer/Overlap.antt =====
-- Two requests that write to one upload at once, in `write_chunk` of backend/app/files/uploads.py: the
-- second has compared its buffer with the offset from before the first one's append.
use ephemeral_rooms.Prelude.{
  ℕ, ◌+◌, ◌≤◌, ◌<◌, ◌≡◌, refl, ap, ◌∙◌, some, ◌++◌, length, Text, arith, length-append,
}
use mathlib.Core.List.{append_assoc}
use ephemeral_rooms.Config.{Settings}
use ephemeral_rooms.Dict.{get, get-alter_self}
use ephemeral_rooms.Storage.FileStore.{Bytes, FileTree, part, part_size, append_part}
use ephemeral_rooms.Storage.FileStore.Laws.{part-append_part}
use ephemeral_rooms.Rooms.Types.{UploadRecord}
use ephemeral_rooms.Files.Uploads.{Service, returned}
use ephemeral_rooms.Files.Transfer.{advanced, landed, recheck, write_chunk}
use ephemeral_rooms.Files.Transfer.Writing.{IsOpen, append_part_total}

module _ {D W : Type 0} where
  -- A buffer that fits what its request saw, where no recheck is due.
  write_chunk-eq :
      (cfg : Settings) (free now n : ℕ) (i id : Text) (u : UploadRecord) (chunk : Bytes)
      (t' : FileTree) (s : Service D W)
      → u.committed_offset + length chunk ≤ u.declared_size
      → u.bytes_since_recheck + length chunk < cfg.disk_recheck_interval_bytes
      → append_part i id chunk s.manager.store ≡ some (t', n)
      → write_chunk cfg free now i id u chunk s
        ≡ (landed now id n (length chunk) u t' s, returned n)
  unfolding write_chunk recheck
  write_chunk-eq cfg free now n i id u chunk t' s fits early e = ground (arith, e)

  -- What two writes leave that have overlapped.
  pub record Overlapped (i id : Text) (a b : Bytes) (u : UploadRecord) (s v : Service D W)
      : Type 0 where
    pub upload : UploadRecord
    pub record_at : get v.uploads id ≡ some upload
    pub offset : upload.committed_offset ≡ u.committed_offset + length a + length b
    pub declared : upload.declared_size ≡ u.declared_size
    pub content : part i id v.manager.store ≡ part i id s.manager.store ++ (a ++ b)

  -- Where a second request writes to an open upload by what it saw of the record before the first
  -- one's append, both writes succeed as long as each buffer fits alone: the part holds both, and
  -- the committed offset moves by both, past the declared size where they only fit alone. No
  -- recheck of the disk is taken to be due.
  pub write_chunk-write_chunk :
      (cfg : Settings) (free free' now now' : ℕ) (i id : Text) (u : UploadRecord) (a b : Bytes)
      (s : Service D W)
      → IsOpen i id u s
      → u.committed_offset + length a ≤ u.declared_size
      → u.committed_offset + length b ≤ u.declared_size
      → u.bytes_since_recheck + length a + length b < cfg.disk_recheck_interval_bytes
      → (t v : Service D W) × (n : ℕ) × (write_chunk cfg free now i id u a s ≡ (t, returned n))
        × (write_chunk cfg free' now' i id u b t ≡ (v, returned (n + length b)))
        × Overlapped i id a b u s v
  unfolding landed advanced part_size
  write_chunk-write_chunk cfg free free' now now' i id u a b s o fits_a fits_b early =
      let (t1, n, e1, there) = append_part_total i id a s.manager.store o.dir o.dir_at in
      let t = landed now id n (length a) u t1 s in
      let (t2, m, e2, _) = append_part_total i id b t1 _ there in
      let v = landed now' id m (length b) u t2 t in
      let (content1, size1) = part-append_part i id a s.manager.store t1 n e1 in
      let (content2, size2) = part-append_part i id b t1 t2 m e2 in
      let longer = ap length content1 ∙ length-append (part i id s.manager.store) a in
      let sum : m ≡ n + length b = omega (arith, size1, size2, longer) in
      (
        t,
        v,
        n,
        write_chunk-eq cfg free now n i id u a t1 s fits_a (omega arith) e1,
        write_chunk-eq cfg free' now' m i id u b t2 t fits_b (omega arith) e2
            ∙ ap (λ k. (v, returned k)) sum,
        record {
          upload = advanced now' m (length b) (advanced now n (length a) u);
          record_at =
              get-alter_self (advanced now' m (length b)) t.uploads id
                (get-alter_self (advanced now n (length a)) s.uploads id o.record_at);
          offset = omega (arith, sum, size1, o.offset);
          declared = refl;
          content =
              content2 ∙ ap (λ p. p ++ b) content1 ∙ append_assoc (part i id s.manager.store) a b;
        },
      )
