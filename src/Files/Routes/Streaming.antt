-- ===== src/Files/Routes/Streaming.antt =====
-- The body of `upload_chunk` in backend/app/files/routes.py: whatever pieces the stream comes in,
-- the bytes are written in order.
use ephemeral_rooms.Prelude.{
  ℕ, ◌+◌, ◌≤◌, ◌≡◌, inl, inr, refl, false, List, [], ◌∷◌, ◌++◌, leb, length, Text, arith,
  Bool-cases, length-append, ap, sym, subst,
}
use mathlib.Core.List.{append-nil, append_assoc}
use ephemeral_rooms.Config.{Settings}
use ephemeral_rooms.Storage.FileStore.{Bytes}
use ephemeral_rooms.Rooms.Types.{UploadRecord}
use ephemeral_rooms.Files.Uploads.{Service, returned}
use ephemeral_rooms.Files.Transfer.{write_chunk, recheck, landed}
use ephemeral_rooms.Files.Transfer.Writing.{IsOpen, Written}
use ephemeral_rooms.Files.Transfer.Completion.{
  joined, Roomy, Written-nil, Written-trans, write_chunk_fits,
}
use ephemeral_rooms.Files.Routes.{stream_read_bytes, write_held, receive}

module _ {D W : Type 0} where
  -- The service's maps of rooms, objects and uploads.
  pub record Kept (s s' : Service D W) : Type 0 where
    pub rooms : s'.manager.rooms ≡ s.manager.rooms
    pub instances : s'.manager.instances ≡ s.manager.instances
    pub index : s'.index ≡ s.index

  pub Kept-trans : {s t v : Service D W} → Kept s t → Kept t v → Kept s v
  Kept-trans k l = record {
    rooms = ground (arith, k.rooms, l.rooms);
    instances = ground (arith, k.instances, l.instances);
    index = ground (arith, k.index, l.index);
  }

  write_chunk-Kept :
      (cfg : Settings) (free now n : ℕ) (i id : Text) (u : UploadRecord) (chunk : Bytes)
      (s s' : Service D W)
      → write_chunk cfg free now i id u chunk s ≡ (s', returned n)
      → Kept s s'
  unfolding write_chunk recheck landed
  write_chunk-Kept cfg free now n i id u chunk s s' e = record {
    rooms = ground arith;
    instances = ground arith;
    index = ground arith;
  }

  pub write_held_fits :
      (cfg : Settings) (free now : ℕ) (i id : Text) (u : UploadRecord) (chunk : Bytes)
      (s : Service D W)
      → IsOpen i id u s
      → u.committed_offset + length chunk ≤ u.declared_size
      → s.ledger.headroom ≤ free
      → (s' : Service D W) × (n : ℕ) × (write_held cfg i id (free, now, chunk) s ≡ (s', returned n))
        × Written i id chunk u s s' n
        × Kept s s'
  unfolding write_held
  write_held_fits cfg free now i id u chunk s o fits roomy =
      let (s', n, e, w) = write_chunk_fits cfg free now i id u chunk s o fits roomy in
      (
        s',
        n,
        ground (arith, o.record_at, e),
        w,
        write_chunk-Kept cfg free now n i id u chunk s s' e,
      )

  -- What the loop over a stream leaves when it has gone through.
  pub record Received (cfg : Settings) (i id : Text) (last : ℕ × ℕ) (buffer : Bytes)
      (pieces : List (ℕ × ℕ × Bytes)) (u : UploadRecord) (s : Service D W) : Type 0 where
    pub after : Service D W
    pub result : ℕ
    pub offset : ℕ
    pub ends : receive cfg i id last false buffer pieces s ≡ (after, returned result)
    pub written : Written i id (buffer ++ joined pieces) u s after offset
    pub kept : Kept s after

  receive_end :
      (cfg : Settings) (i id : Text) (last : ℕ × ℕ) (buffer : Bytes) (u : UploadRecord)
      (s : Service D W)
      → IsOpen i id u s
      → u.committed_offset + length buffer ≤ u.declared_size
      → s.ledger.headroom ≤ last.0
      → Received cfg i id last buffer [] u s
  unfolding receive
  receive_end cfg i id last [] u s o fits roomy = record {
    after = s;
    result = 0;
    offset = u.committed_offset;
    ends = refl;
    written = Written-nil i id u s o;
    kept = record { rooms = refl; instances = refl; index = refl };
  }
  receive_end cfg i id last (c ∷ buffer) u s o fits roomy =
      let (s', n, e, w, k) = write_held_fits cfg last.0 last.1 i id u (c ∷ buffer) s o fits roomy in
      record {
        after = s';
        result = n;
        offset = n;
        ends = e;
        written = subst (λ b. Written i id b u s s' n) (sym (append-nil (c ∷ buffer))) w;
        kept = k;
      }

  -- Bytes within the declared size are all written, whatever pieces they come in, as long as the
  -- disk keeps its headroom.
  pub receive_lem :
      (cfg : Settings) (i id : Text) (last : ℕ × ℕ) (buffer : Bytes) (pieces : List (ℕ × ℕ × Bytes))
      (u : UploadRecord) (s : Service D W)
      → IsOpen i id u s
      → u.committed_offset + length (buffer ++ joined pieces) ≤ u.declared_size
      → Roomy s.ledger.headroom pieces
      → s.ledger.headroom ≤ last.0
      → Received cfg i id last buffer pieces u s
  unfolding receive
  receive_lem cfg i id last buffer [] u s o fits roomy roomy_last =
      receive_end cfg i id last buffer u s o (omega (arith, ap length (append-nil buffer)))
        roomy_last
  receive_lem cfg i id last buffer ((free, now, piece) ∷ pieces) u s o fits (here, later)
        roomy_last =
      let regroup = append_assoc buffer piece (joined pieces) in
      let total = ap length regroup in
      elim (Bool-cases (leb stream_read_bytes (length (buffer ++ piece)))) [
        | inr short ↦
            let r =
              receive_lem cfg i id last (buffer ++ piece) pieces u s o (rw regroup fits) later
                roomy_last in
            record {
              after = r.after;
              result = r.result;
              offset = r.offset;
              ends = ground (arith, short, r.ends);
              written = subst (λ b. Written i id b u s r.after r.offset) regroup r.written;
              kept = r.kept;
            }
        | inl long ↦
            let (t, n, e, w, k) =
              write_held_fits cfg free now i id u (buffer ++ piece) s o
                (omega (arith, total, length-append (buffer ++ piece) (joined pieces))) here in
            let r =
              receive_lem cfg i id last [] pieces w.upload t w.is_open
                (omega (
                  arith,
                  total,
                  w.offset,
                  w.size,
                  w.declared,
                  length-append (buffer ++ piece) (joined pieces),
                ))
                (rw w.headroom later) (rw w.headroom roomy_last) in
            record {
              after = r.after;
              result = r.result;
              offset = r.offset;
              ends = ground (arith, long, e, r.ends);
              written =
                  subst (λ b. Written i id b u s r.after r.offset) regroup
                    (Written-trans w r.written);
              kept = Kept-trans k r.kept;
            }
      ]
