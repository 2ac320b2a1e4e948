-- ===== src/Files/Uploads/Opening.antt =====
-- How an upload begins: `init`, on each of its branches, and `resolve` after it.
use ephemeral_rooms.Prelude.{
  ℕ, ◌≡◌, ◌⊎◌, inl, inr, refl, sym, ◌∙◌, ap, subst, Bool, true, false, Option, none, some, List, [],
  ◌∷◌, ◌++◌, Text, any, arith, same, same_refl,
}
use ephemeral_rooms.Prelude.Int.{ℤ, pos, negsuc}
use ephemeral_rooms.Config.{Settings}
use ephemeral_rooms.Dict.{get, get-put_self, get-alter_self}
use ephemeral_rooms.Storage.FileStore.{RoomDir, part, part_size}
use ephemeral_rooms.Rooms.Types.{User, UploadRecord}
use ephemeral_rooms.Rooms.Instance.State.{Room}
use ephemeral_rooms.Rooms.Manager.{lookup}
use ephemeral_rooms.Rooms.Manager.Closing.{Mapped}
use ephemeral_rooms.Files.Ledger.{Ledger, ReservationDenied, reserve}
use ephemeral_rooms.Files.Ledger.Laws.{Reserved, reserve_lem}
use ephemeral_rooms.Files.Uploads.{
  Service, Outcome, returned, refused, UploadError, not_in_room, bad_size, no_space, capped,
  new_upload, hold_upload, register, reserve_upload, init_in, init, upload_in, resolve,
}
use ephemeral_rooms.Files.Transfer.Writing.{IsOpen}
use ephemeral_rooms.Util.Sanitize.{Unicode, clean_filename}

any-append_last : (id : Text) (ids : List Text) → any (λ k. same k id) (ids ++ id ∷ []) ≡ true
any-append_last id [] = ground (arith, same_refl id)
any-append_last id (k ∷ ids) = ground (arith, any-append_last id ids)

module _ {D W : Type 0} where
  -- An id that nothing in the service bears yet, and the room's directory.
  pub record IsUnused (i id : Text) (s : Service D W) : Type 0 where
    pub no_record : get s.uploads id ≡ none
    pub no_promise : get s.ledger.reservations id ≡ none
    pub dir : RoomDir
    pub dir_at : get s.manager.store i ≡ some dir
    pub no_part : get dir.tmp id ≡ none

  -- What a request for an upload comes to: a refusal, with nothing changed, or an open upload of the
  -- size that was asked for, which `resolve` finds in the room.
  abbrev pub Opened :
      (Text → Bool)
      → Text
      → Text
      → ℤ
      → Room D W
      → Service D W
      → Service D W × Outcome UploadRecord
      → Type 0
  Opened valid i id size r s o =
      ((e : UploadError) × (o ≡ (s, refused e)))
      ⊎ ((u : UploadRecord) × (o.1 ≡ returned u)
          × (size ≡ pos u.declared_size)
          × (u.committed_offset ≡ 0)
          × IsOpen i id u o.0
          × (resolve valid id o.0 ≡ returned (hold_upload id r, u)))

  resolve-register :
      (valid : Text → Bool) (code i id : Text) (u : UploadRecord) (r : Room D W) (s : Service D W)
      → valid id ≡ true
      → get s.manager.rooms code ≡ some i
      → Mapped s.manager code i r
      → u.aborted ≡ false
      → resolve valid id (register id u r s) ≡ returned (hold_upload id r, u)
  unfolding resolve register lookup upload_in
  resolve-register valid code i id u r s ok at m live = ground (
    arith,
    m.code_of,
    m.id_of,
    get-put_self s.index id r.room_code,
    get-alter_self (hold_upload id) s.manager.instances i m.object,
    get-put_self s.uploads id u,
    any-append_last id r.uploads,
  )

  register-IsOpen :
      (i id : Text) (u : UploadRecord) (r : Room D W) (s : Service D W) (l' : Ledger)
      → IsUnused i id s
      → get l'.reservations id ≡ some u.declared_size
      → u.committed_offset ≡ 0
      → IsOpen i id u (register id u r (record s { ledger = l' }))
  unfolding register part_size part
  register-IsOpen i id u r s l' new promised zero = record {
    record_at = get-put_self s.uploads id u;
    dir = new.dir;
    dir_at = new.dir_at;
    offset = ground (arith, new.dir_at, new.no_part);
    within = omega arith;
    promise = promised ∙ ap some (omega arith);
  }

  reserve_upload_lem :
      (valid : Text → Bool) (cfg : Settings) (uc : Unicode) (free now : ℕ)
      (id file_id filename : Text) (n : ℕ) (user : User) (uploader_id code i : Text) (r : Room D W)
      (s : Service D W)
      → valid id ≡ true
      → get s.manager.rooms code ≡ some i
      → Mapped s.manager code i r
      → IsUnused i id s
      → Opened valid i id
          (pos n)
          r
          s
          (reserve_upload cfg uc free now id file_id filename n user uploader_id r s)
  unfolding reserve_upload
  reserve_upload_lem valid cfg uc free now id file_id filename n user uploader_id code i r s ok at m
        new =
      go (reserve free id n s.ledger) (reserve_lem free id n s.ledger new.no_promise)
    where
      u : UploadRecord
      u =
          new_upload now id file_id (clean_filename uc filename cfg.max_filename_chars) n user
            uploader_id r

      go :
          (o : Ledger × Option ReservationDenied)
          → Reserved free id n s.ledger o
          → Opened valid i id (pos n) r s (elim o.1 [
            | some d ↦ (record s { ledger = o.0 }, refused (no_space (some d.available)))
            | none ↦ (register id u r (record s { ledger = o.0 }), returned u)
          ])
      go (l', some d) (short, av, kept) = inl (
        no_space (some d.available),
        ap (λ l. (record s { ledger = l }, refused (no_space (some d.available)))) kept,
      )
      go (l', none) (fits, promised, sum, kept, disk) = inr (
        u,
        refl,
        refl,
        refl,
        register-IsOpen i id u r s l' new promised refl,
        resolve-register valid code i id u r (record s { ledger = l' }) ok at
            (record { object = m.object; code_of = m.code_of; id_of = m.id_of; admits = m.admits })
            refl,
      )

  init-eq :
      (cfg : Settings) (uc : Unicode) (free now : ℕ) (id file_id filename : Text) (size : ℤ)
      (uploader_id code i : Text) (r : Room D W) (s : Service D W)
      → get s.manager.rooms code ≡ some i
      → Mapped s.manager code i r
      → init cfg uc free now id file_id code filename size uploader_id s
        ≡ init_in cfg uc free now id file_id filename size uploader_id r s
  unfolding init lookup
  init-eq cfg uc free now id file_id filename size uploader_id code i r s at m =
      ground (arith, at, m.object, m.admits)

  init_in_lem :
      (valid : Text → Bool) (cfg : Settings) (uc : Unicode) (free now : ℕ)
      (id file_id filename : Text) (size : ℤ) (uploader_id code i : Text) (r : Room D W)
      (s : Service D W)
      → valid id ≡ true
      → get s.manager.rooms code ≡ some i
      → Mapped s.manager code i r
      → IsUnused i id s
      → Opened valid i id size r s
          (init_in cfg uc free now id file_id filename size uploader_id r s)
  unfolding init_in
  init_in_lem valid cfg uc free now id file_id filename size uploader_id code i r s ok at m new =
      go (get r.users uploader_id) size
    where
      sized :
          (user : User) (n : ℕ) (o : Option UploadError)
          → Opened valid i id (pos n) r s (elim o [
            | some e ↦ (s, refused e)
            | none ↦ reserve_upload cfg uc free now id file_id filename n user uploader_id r s
          ])
      sized user n (some e) = inl (e, refl)
      sized user n none =
          reserve_upload_lem valid cfg uc free now id file_id filename n user uploader_id code i r s
            ok at m new

      go :
          (who : Option User) (size : ℤ)
          → Opened valid i id size r s (elim who [
            | none ↦ (s, refused not_in_room)
            | some user ↦ elim size [
              | negsuc n ↦ (s, refused bad_size)
              | pos n ↦ elim (capped cfg uploader_id n r s.uploads) [
                | some e ↦ (s, refused e)
                | none ↦ reserve_upload cfg uc free now id file_id filename n user uploader_id r s
              ]
            ]
          ])
      go none size = inl (not_in_room, refl)
      go (some user) (negsuc n) = inl (bad_size, refl)
      go (some user) (pos n) = sized user n (capped cfg uploader_id n r s.uploads)

  -- In a room that its code leads to, and under a well-formed id that nothing bears, `init` either
  -- refuses and changes nothing, or opens an upload of exactly the size asked for, with all of it
  -- promised and none of it written, which `resolve` then finds in the room.
  pub init_lem :
      (valid : Text → Bool) (cfg : Settings) (uc : Unicode) (free now : ℕ)
      (id file_id filename : Text) (size : ℤ) (uploader_id code i : Text) (r : Room D W)
      (s : Service D W)
      → valid id ≡ true
      → get s.manager.rooms code ≡ some i
      → Mapped s.manager code i r
      → IsUnused i id s
      → Opened valid i id size r s
          (init cfg uc free now id file_id code filename size uploader_id s)
  init_lem valid cfg uc free now id file_id filename size uploader_id code i r s ok at m new =
      subst (Opened valid i id size r s)
        (sym (init-eq cfg uc free now id file_id filename size uploader_id code i r s at m))
        (init_in_lem valid cfg uc free now id file_id filename size uploader_id code i r s ok at m
          new)
