-- ===== src/Storage/FileStore/Laws.antt =====
-- The contents of the file store of backend/app/storage/fs.py after its calls.
use ephemeral_rooms.Prelude.{
  ℕ, ◌+◌, ◌≡◌, ◌≢◌, refl, false, some, [], ◌++◌, length, Text, arith, same, same_iff, same_refl,
  length-append, ◌&&◌, inl, inr, Option-cases,
}
use ephemeral_rooms.Dict.{get, pop, get-put, get-pop, get-alter, get-put_self, get-alter_self}
use ephemeral_rooms.Storage.FileStore.{
  Bytes, FileTree, bytes_or_empty, part, part_size, append_to, append_part, discard_part, RoomDir,
  Removal, remove_room, commit_in, commit_part, open_file,
}

-- After an append that succeeds, the part holds its old bytes followed by the new ones, and the
-- size returned is that of the part.
pub part-append_part :
    (i u : Text) (bytes : Bytes) (t t' : FileTree) (n : ℕ)
    → append_part i u bytes t ≡ some (t', n)
    → (part i u t' ≡ part i u t ++ bytes) × (n ≡ part_size i u t + length bytes)
unfolding append_part part
part-append_part i u bytes t t' n e = elim (Option-cases (get t i)) [
  | inl missing ↦ absurd (ground arith)
  | inr (d, there) ↦ ground (
    arith,
    get-alter_self (append_to u bytes) t i there,
    get-put_self d.tmp u (bytes_or_empty (get d.tmp u) ++ bytes),
    length-append (bytes_or_empty (get d.tmp u)) bytes,
  )
]

-- No other part is touched.
pub part-append_part_ne :
    (i j u w : Text) (bytes : Bytes) (t t' : FileTree) (n : ℕ)
    → append_part i u bytes t ≡ some (t', n)
    → (same i j && same u w) ≡ false
    → part j w t' ≡ part j w t
unfolding append_part part
part-append_part_ne i j u w bytes t t' n e ne = elim (Option-cases (get t i)) [
  | inl missing ↦ absurd (ground arith)
  | inr (d, there) ↦ ground (
    arith,
    get-alter (append_to u bytes) t i j,
    same_iff i j,
    get-put d.tmp u w (bytes_or_empty (get d.tmp u) ++ bytes),
  )
]

-- A commit that succeeds turns the part into the file, byte for byte, and leaves no part.
pub open_file-commit_part :
    (i u f : Text) (t t' : FileTree)
    → commit_part i u f t ≡ some t'
    → (open_file i f t' ≡ some (part i u t)) × (part i u t' ≡ [])
unfolding commit_part open_file part
open_file-commit_part i u f t t' e = elim (Option-cases (get t i)) [
  | inl missing ↦ absurd (ground arith)
  | inr (d, there) ↦ elim (Option-cases (get d.tmp u)) [
    | inl no_part ↦ absurd (ground arith)
    | inr (b, held) ↦ ground (
      arith,
      get-alter_self (commit_in u f b) t i there,
      get-put_self d.files f b,
      get-pop d.tmp u u,
      same_refl u,
    )
  ]
]

-- A discard leaves no part.
pub part-discard_part : (i u : Text) (t : FileTree) → part i u (discard_part i u t) ≡ []
unfolding discard_part part
part-discard_part i u t = elim (Option-cases (get t i)) [
  | inl missing ↦
      ground (arith, get-alter (λ (d : RoomDir). record d { tmp = pop d.tmp u }) t i i, same_refl i)
  | inr (d, there) ↦ ground (
    arith,
    get-alter_self (λ (d : RoomDir). record d { tmp = pop d.tmp u }) t i there,
    get-pop d.tmp u u,
    same_refl u,
  )
]

-- No removal touches another room's directory.
pub get-remove_room_ne :
    (o : Removal) (i j : Text) (t : FileTree) → i ≢ j → get (remove_room o i t) j ≡ get t j
unfolding remove_room
get-remove_room_ne Removal.gone i j t ne = ground (arith, get-pop t i j, same_iff i j)
get-remove_room_ne (Removal.left_behind d) i j t ne =
    ground (arith, get-alter (λ _. d) t i j, same_iff i j)
get-remove_room_ne Removal.raised i j t ne = refl
