-- ===== src/Files/Routes/Cutting.antt =====
-- A stream whose client vanishes, in `upload_chunk` of backend/app/files/routes.py.
use ephemeral_rooms.Prelude.{
  ℕ, ◌+◌, ◌≤◌, ◌<◌, ◌≡◌, inl, inr, refl, true, List, [], ◌∷◌, ◌++◌, leb, length, Text, arith, ap,
  sym, ◌∙◌, Bool-cases, length-append, leb→lt,
}
use mathlib.Core.List.{append-nil, append_assoc}
use ephemeral_rooms.Config.{Settings}
use ephemeral_rooms.Storage.FileStore.{Bytes}
use ephemeral_rooms.Rooms.Types.{UploadRecord}
use ephemeral_rooms.Files.Uploads.{Service, raised}
use ephemeral_rooms.Files.Transfer.Writing.{IsOpen, Written}
use ephemeral_rooms.Files.Transfer.Completion.{joined, Roomy, Written-nil, Written-trans}
use ephemeral_rooms.Files.Routes.{stream_read_bytes, receive}
use ephemeral_rooms.Files.Routes.Streaming.{Kept, Kept-trans, write_held_fits}

pub regrouped :
    (p sent lost rest body : Bytes)
    → body ≡ sent ++ lost
    → (p ++ sent) ++ (lost ++ rest) ≡ p ++ (body ++ rest)
regrouped p sent lost rest body e =
    append_assoc p sent (lost ++ rest)
    ∙ ap (λ b. p ++ b) (sym (append_assoc sent lost rest) ∙ ap (λ b. b ++ rest) (sym e))

module _ {D W : Type 0} where
  -- What a loop over a stream leaves that ends before its time: less than a full buffer is lost.
  pub record CutShort (cfg : Settings) (i id : Text) (last : ℕ × ℕ) (buffer : Bytes)
      (pieces : List (ℕ × ℕ × Bytes)) (u : UploadRecord) (s : Service D W) : Type 0 where
    pub after : Service D W
    pub offset : ℕ
    pub sent : Bytes
    pub lost : Bytes
    pub split : buffer ++ joined pieces ≡ sent ++ lost
    pub few : length lost < stream_read_bytes
    pub ends : receive cfg i id last true buffer pieces s ≡ (after, raised)
    pub written : Written i id sent u s after offset
    pub kept : Kept s after

  pub receive_cut :
      (cfg : Settings) (i id : Text) (last : ℕ × ℕ) (buffer : Bytes) (pieces : List (ℕ × ℕ × Bytes))
      (u : UploadRecord) (s : Service D W)
      → IsOpen i id u s
      → length buffer < stream_read_bytes
      → u.committed_offset + length (buffer ++ joined pieces) ≤ u.declared_size
      → Roomy s.ledger.headroom pieces
      → CutShort cfg i id last buffer pieces u s
  unfolding receive
  receive_cut cfg i id last buffer [] u s o short fits roomy = record {
    after = s;
    offset = u.committed_offset;
    sent = [];
    lost = buffer;
    split = append-nil buffer;
    few = short;
    ends = refl;
    written = Written-nil i id u s o;
    kept = record { rooms = refl; instances = refl; index = refl };
  }
  receive_cut cfg i id last buffer ((free, now, piece) ∷ pieces) u s o short fits (here, later) =
      let regroup = append_assoc buffer piece (joined pieces) in
      let total = ap length regroup in
      elim (Bool-cases (leb stream_read_bytes (length (buffer ++ piece)))) [
        | inr shorter ↦
            let r =
              receive_cut cfg i id last (buffer ++ piece) pieces u s o (leb→lt _ _ shorter)
                (rw regroup fits) later in
            record {
              after = r.after;
              offset = r.offset;
              sent = r.sent;
              lost = r.lost;
              split = sym regroup ∙ r.split;
              few = r.few;
              ends = ground (arith, shorter, r.ends);
              written = r.written;
              kept = r.kept;
            }
        | inl long ↦
            let (t, n, e, w, k) =
              write_held_fits cfg free now i id u (buffer ++ piece) s o
                (omega (arith, total, length-append (buffer ++ piece) (joined pieces))) here in
            let r =
              receive_cut cfg i id last [] pieces w.upload t w.is_open (omega arith)
                (omega (
                  arith,
                  total,
                  w.offset,
                  w.size,
                  w.declared,
                  length-append (buffer ++ piece) (joined pieces),
                ))
                (rw w.headroom later) in
            record {
              after = r.after;
              offset = r.offset;
              sent = (buffer ++ piece) ++ r.sent;
              lost = r.lost;
              split =
                  sym regroup
                  ∙ ap (λ b. (buffer ++ piece) ++ b) r.split
                  ∙ sym (append_assoc (buffer ++ piece) r.sent r.lost);
              few = r.few;
              ends = ground (arith, long, e, r.ends);
              written = Written-trans w r.written;
              kept = Kept-trans k r.kept;
            }
      ]
