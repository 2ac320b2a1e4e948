-- ===== src/Collab/Sync/Laws.antt =====
-- Encoding and decoding of the frames of backend/app/collab/sync.py.
use ephemeral_rooms.Prelude.{
  ℕ, zero, suc, ◌≡◌, ◌≢◌, refl, ap, Option, some, [], ◌∷◌, ◌++◌, Text, length, take, drop, arith,
  length-append,
}
use ephemeral_rooms.Storage.FileStore.{Bytes}
use ephemeral_rooms.Collab.Sync.{encode_frame, decode_frame}

take-append : (a b : Bytes) (n : ℕ) → length a ≡ n → take n (a ++ b) ≡ a
take-append [] b zero e = refl
take-append [] b (suc n) e = absurd (ground arith)
take-append (x ∷ a) b zero e = absurd (ground arith)
take-append (x ∷ a) b (suc n) e = ap (λ c. x ∷ c) (take-append a b n (omega arith))

drop-append : (a b : Bytes) (n : ℕ) → length a ≡ n → drop n (a ++ b) ≡ b
drop-append [] b zero e = refl
drop-append [] b (suc n) e = absurd (ground arith)
drop-append (x ∷ a) b zero e = absurd (ground arith)
drop-append (x ∷ a) b (suc n) e = drop-append a b n (omega arith)

-- A frame decodes to the document and the payload that it was encoded from, as long as the payload
-- is not empty and the document's id is a UUID of 16 bytes whose text is the id.
pub decode_frame-encode_frame :
    (uuid_bytes : Text → Option Bytes) (uuid_text : Bytes → Text) (document_id b : Text)
    (payload frame : Bytes)
    → uuid_bytes document_id ≡ some b
    → length b ≡ 16
    → uuid_text b ≡ document_id
    → payload ≢ []
    → encode_frame uuid_bytes document_id payload ≡ some frame
    → decode_frame uuid_text frame ≡ some (document_id, payload)
unfolding encode_frame decode_frame
decode_frame-encode_frame uuid_bytes uuid_text document_id b [] frame id size text full e =
    absurd (full refl)
decode_frame-encode_frame uuid_bytes uuid_text document_id b (c ∷ payload) frame id size text full
      e =
    ground (
      arith,
      take-append b (c ∷ payload) 16 size,
      drop-append b (c ∷ payload) 16 size,
      length-append b (c ∷ payload),
    )
