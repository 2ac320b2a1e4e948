-- ===== src/Ws/Messages.antt =====
-- The control messages of backend/app/ws/messages.py. `decode` is pydantic's reading of the JSON: a
-- message with the fields and the types of its model, before their constraints; `none` is a
-- `ValidationError`, which pydantic raises for text that is no JSON, too.
use ephemeral_rooms.Prelude.{
  ℕ, ◌≤◌, ◌≡◌, ◌↔◌, Bool, true, false, ◌&&◌, Option, none, some, [], ◌∷◌, if◌then◌else◌, ◌==◌, ltb,
  leb, length, Text, arith,
}
use ephemeral_rooms.Prelude.Int.{ℤ, pos, negsuc}
use ephemeral_rooms.Util.Utf8.{utf8}

pub record JoinMessage : Type 0 where
  pub room_code : Text
  pub session_token : Option Text

pub data ClientMessage : Type 0 where
  join_message : JoinMessage → ClientMessage
  leave_message pong_message : ClientMessage
  set_name_message create_document_message delete_document_message subscribe_document_message
        delete_file_message :
      Text → ClientMessage
  rename_document_message : Text → Text → ClientMessage
  upload_progress_message : Text → ℤ → ClientMessage

-- `Field(max_length=n)`
abbrev pub at_most : ℕ → Text → Bool
at_most n s = leb (length s) n

-- `^\d{4}$`, where `is_decimal` is what the regular expression takes for a digit.
abbrev pub all_digits : (ℕ → Bool) → Text → Bool
all_digits is_decimal [] = true
all_digits is_decimal (c ∷ s) = is_decimal c && all_digits is_decimal s

abbrev pub is_room_code : (ℕ → Bool) → Text → Bool
is_room_code is_decimal s = (length s == 4) && all_digits is_decimal s

abbrev pub token_fits : Option Text → Bool
token_fits none = true
token_fits (some t) = at_most 64 t

-- `Field(ge=0, le=100)`
abbrev pub is_percent : ℤ → Bool
is_percent (pos n) = leb n 100
is_percent (negsuc n) = false

-- The constraints of the fields.
unfoldable pub is_valid : (ℕ → Bool) → ClientMessage → Bool
is_valid is_decimal (join_message m) =
    is_room_code is_decimal m.room_code && token_fits m.session_token
is_valid is_decimal leave_message = true
is_valid is_decimal pong_message = true
is_valid is_decimal (set_name_message name) = at_most 512 name
is_valid is_decimal (create_document_message name) = at_most 512 name
is_valid is_decimal (delete_document_message id) = at_most 64 id
is_valid is_decimal (subscribe_document_message id) = at_most 64 id
is_valid is_decimal (delete_file_message id) = at_most 64 id
is_valid is_decimal (rename_document_message id name) = at_most 64 id && at_most 512 name
is_valid is_decimal (upload_progress_message id percent) = at_most 64 id && is_percent percent

-- `ParseError` by its code.
pub data Parsed : Type 0 where
  accepted : ClientMessage → Parsed
  message_too_large invalid_message : Parsed

unfoldable pub parse_client_message : (ℕ → Bool) → (Text → Option ClientMessage) → ℕ → Text → Parsed
parse_client_message is_decimal decode max_bytes raw =
    if ltb max_bytes (length (utf8 raw)) then message_too_large else elim (decode raw) [
      | none ↦ invalid_message
      | some m ↦ if is_valid is_decimal m then accepted m else invalid_message
    ]

pub parse_client_message_iff :
    (is_decimal : ℕ → Bool) (decode : Text → Option ClientMessage) (max_bytes : ℕ) (raw : Text)
    (m : ClientMessage)
    → (parse_client_message is_decimal decode max_bytes raw ≡ accepted m)
      ↔ ((length (utf8 raw) ≤ max_bytes) × (decode raw ≡ some m) × (is_valid is_decimal m ≡ true))
unfolding parse_client_message
parse_client_message_iff is_decimal decode max_bytes raw m = ground arith
