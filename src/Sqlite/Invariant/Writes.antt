-- ===== src/Sqlite/Invariant/Writes.antt =====
-- Statements on the other tables keep the invariant.
use go_ssb_room.Base.{
  ℕ, ◌≡◌, refl, Bool, true, false, Bool-cases, inl, inr, Text, text_eq, ◌==◌, [], ◌∷◌, ◌++◌, ◌+◌,
}
use go_ssb_room.Sqlite.Rows.{exists, All-append, All-deleted, All-update, update_all, delete_all}
use go_ssb_room.Sqlite.Db.{AliasRow, InviteRow, DeniedRow, SessionRow, PasswordRow, ResetRow, Db}
use go_ssb_room.Sqlite.Schema.{
  is_member, insert_alias, insert_invite, insert_denied, insert_session, insert_password,
  insert_reset, delete_alias, close_invite, delete_invites, delete_denied, delete_sessions,
  update_password, close_reset, delete_resets,
}
use go_ssb_room.Sqlite.Tables.{
  IsTable-append, IsTable-delete, IsTable-update, fresh_text, fresh_number,
}
use go_ssb_room.Sqlite.Keeps.{Keeps}
use go_ssb_room.Sqlite.Invariant.{
  IsWellFormed, with_aliases, with_invites, with_denied_keys, with_sessions, with_passwords,
  with_reset_tokens,
}

insert_alias_kept :
    (name : Text) (member : ℕ) (signature : Text)
    → (db : Db) → IsWellFormed db
    → IsWellFormed (insert_alias name member signature db).1
unfolding insert_alias
insert_alias_kept name member signature db w =
    elim (Bool-cases (exists (λ (r : AliasRow). text_eq r.name name) db.aliases)) [
      | inl taken ↦ rw taken w
      | inr free ↦ rw free (elim (Bool-cases (is_member member db)) [
        | inl known ↦ rw known (
            with_aliases db w (db.aliases ++ row ∷ []) (db.next_alias + 1)
              (IsTable-append db.next_alias db.aliases row refl
                (fresh_text (λ (r : AliasRow). r.name) name db.aliases free) w.aliases)
              (All-append (λ (r : AliasRow). is_member r.member_id db ≡ true) db.aliases (row ∷ [])
                w.alias_member (known, tt)))
        | inr unknown ↦ rw unknown w
      ])
    ]
  where
    row : AliasRow
    row = record { id = db.next_alias; name = name; member_id = member; signature = signature }

pub insert_alias-Keeps :
    (name : Text) (member : ℕ) (signature : Text)
    → Keeps IsWellFormed (insert_alias name member signature)
insert_alias-Keeps name member signature = record {
  apply = insert_alias_kept name member signature;
}

insert_invite_kept :
    (hash : Text) (creator now : ℕ)
    → (db : Db) → IsWellFormed db
    → IsWellFormed (insert_invite hash creator now db).1
unfolding insert_invite
insert_invite_kept hash creator now db w =
    elim (Bool-cases (exists (λ (r : InviteRow). text_eq r.hashed_token hash) db.invites)) [
      | inl taken ↦ rw taken w
      | inr free ↦ rw free (elim (Bool-cases (is_member creator db)) [
        | inl known ↦ rw known (
            with_invites db w (db.invites ++ row ∷ []) (db.next_invite + 1)
              (IsTable-append db.next_invite db.invites row refl
                (fresh_text (λ (r : InviteRow). r.hashed_token) hash db.invites free) w.invites)
              (All-append (λ (r : InviteRow). is_member r.created_by db ≡ true) db.invites
                (row ∷ []) w.invite_creator (known, tt)))
        | inr unknown ↦ rw unknown w
      ])
    ]
  where
    row : InviteRow
    row = record {
      id = db.next_invite;
      hashed_token = hash;
      created_by = creator;
      created_at = now;
      active = true;
    }

pub insert_invite-Keeps :
    (hash : Text) (creator now : ℕ) → Keeps IsWellFormed (insert_invite hash creator now)
insert_invite-Keeps hash creator now = record { apply = insert_invite_kept hash creator now }

insert_denied_kept :
    (key comment : Text) (now : ℕ)
    → (db : Db) → IsWellFormed db
    → IsWellFormed (insert_denied key comment now db).1
unfolding insert_denied
insert_denied_kept key comment now db w =
    elim (Bool-cases (exists (λ (r : DeniedRow). text_eq r.pub_key key) db.denied_keys)) [
      | inl taken ↦ rw taken w
      | inr free ↦ rw free (
          with_denied_keys db w (db.denied_keys ++ row ∷ []) (db.next_denied + 1) (
            IsTable-append db.next_denied db.denied_keys row refl
              (fresh_text (λ (r : DeniedRow). r.pub_key) key db.denied_keys free) w.denied))
    ]
  where
    row : DeniedRow
    row = record { id = db.next_denied; pub_key = key; comment = comment; created_at = now }

pub insert_denied-Keeps :
    (key comment : Text) (now : ℕ) → Keeps IsWellFormed (insert_denied key comment now)
insert_denied-Keeps key comment now = record { apply = insert_denied_kept key comment now }

insert_session_kept :
    (token : Text) (member now : ℕ)
    → (db : Db) → IsWellFormed db
    → IsWellFormed (insert_session token member now db).1
unfolding insert_session
insert_session_kept token member now db w =
    elim (Bool-cases (exists (λ (r : SessionRow). text_eq r.token token) db.sessions)) [
      | inl taken ↦ rw taken w
      | inr free ↦ rw free (elim (Bool-cases (is_member member db)) [
        | inl known ↦ rw known (
            with_sessions db w (db.sessions ++ row ∷ []) (db.next_session + 1)
              (IsTable-append db.next_session db.sessions row refl
                (fresh_text (λ (r : SessionRow). r.token) token db.sessions free) w.sessions)
              (All-append (λ (r : SessionRow). is_member r.member_id db ≡ true) db.sessions
                (row ∷ []) w.session_member (known, tt)))
        | inr unknown ↦ rw unknown w
      ])
    ]
  where
    row : SessionRow
    row = record { id = db.next_session; token = token; member_id = member; created_at = now }

pub insert_session-Keeps :
    (token : Text) (member now : ℕ) → Keeps IsWellFormed (insert_session token member now)
insert_session-Keeps token member now = record { apply = insert_session_kept token member now }

insert_password_kept :
    (hash : Text) (member : ℕ)
    → (db : Db) → IsWellFormed db
    → IsWellFormed (insert_password hash member db).1
unfolding insert_password
insert_password_kept hash member db w =
    elim (Bool-cases (exists (λ (r : PasswordRow). r.member_id == member) db.passwords)) [
      | inl taken ↦ rw taken w
      | inr free ↦ rw free (elim (Bool-cases (is_member member db)) [
        | inl known ↦ rw known (
            with_passwords db w (db.passwords ++ row ∷ []) (db.next_password + 1)
              (IsTable-append db.next_password db.passwords row refl
                (fresh_number (λ (r : PasswordRow). r.member_id) member db.passwords free)
                w.passwords)
              (All-append (λ (r : PasswordRow). is_member r.member_id db ≡ true) db.passwords
                (row ∷ []) w.password_member (known, tt)))
        | inr unknown ↦ rw unknown w
      ])
    ]
  where
    row : PasswordRow
    row = record { id = db.next_password; password_hash = hash; member_id = member }

pub insert_password-Keeps :
    (hash : Text) (member : ℕ) → Keeps IsWellFormed (insert_password hash member)
insert_password-Keeps hash member = record { apply = insert_password_kept hash member }

insert_reset_kept :
    (hash : Text) (creator for_member now : ℕ)
    → (db : Db) → IsWellFormed db
    → IsWellFormed (insert_reset hash creator for_member now db).1
unfolding insert_reset
insert_reset_kept hash creator for_member now db w =
    elim (Bool-cases (exists (λ (r : ResetRow). text_eq r.hashed_token hash) db.reset_tokens)) [
      | inl taken ↦ rw taken w
      | inr free ↦ rw free (elim (Bool-cases (is_member creator db)) [
        | inl known ↦ rw known (elim (Bool-cases (is_member for_member db)) [
          | inl known' ↦ rw known' (
              with_reset_tokens db w (db.reset_tokens ++ row ∷ []) (db.next_reset + 1)
                (IsTable-append db.next_reset db.reset_tokens row refl
                  (fresh_text (λ (r : ResetRow). r.hashed_token) hash db.reset_tokens free)
                  w.resets)
                (All-append (λ (r : ResetRow). is_member r.created_by db ≡ true) db.reset_tokens
                  (row ∷ []) w.reset_creator (known, tt))
                (All-append (λ (r : ResetRow). is_member r.for_member db ≡ true) db.reset_tokens
                  (row ∷ []) w.reset_member (known', tt)))
          | inr unknown ↦ rw unknown w
        ])
        | inr unknown ↦ rw unknown w
      ])
    ]
  where
    row : ResetRow
    row = record {
      id = db.next_reset;
      hashed_token = hash;
      created_by = creator;
      created_at = now;
      for_member = for_member;
      active = true;
    }

pub insert_reset-Keeps :
    (hash : Text) (creator for_member now : ℕ)
    → Keeps IsWellFormed (insert_reset hash creator for_member now)
insert_reset-Keeps hash creator for_member now = record {
  apply = insert_reset_kept hash creator for_member now;
}

delete_alias_kept : (n : ℕ) → (db : Db) → IsWellFormed db → IsWellFormed (delete_alias n db).1
unfolding delete_alias
delete_alias_kept n db w =
    with_aliases db w (delete_all (λ (r : AliasRow). r.id == n) db.aliases) db.next_alias
      (IsTable-delete (λ (r : AliasRow). r.id == n) db.next_alias db.aliases w.aliases)
      (All-deleted (λ (r : AliasRow). is_member r.member_id db ≡ true) (λ (r : AliasRow). r.id == n)
        db.aliases w.alias_member)

pub delete_alias-Keeps : (n : ℕ) → Keeps IsWellFormed (delete_alias n)
delete_alias-Keeps n = record { apply = delete_alias_kept n }

delete_invites_kept :
    (p : InviteRow → Bool) → (db : Db) → IsWellFormed db → IsWellFormed (delete_invites p db).1
unfolding delete_invites
delete_invites_kept p db w =
    with_invites db w (delete_all p db.invites) db.next_invite
      (IsTable-delete p db.next_invite db.invites w.invites)
      (All-deleted (λ (r : InviteRow). is_member r.created_by db ≡ true) p db.invites
        w.invite_creator)

pub delete_invites-Keeps : (p : InviteRow → Bool) → Keeps IsWellFormed (delete_invites p)
delete_invites-Keeps p = record { apply = delete_invites_kept p }

delete_denied_kept : (n : ℕ) → (db : Db) → IsWellFormed db → IsWellFormed (delete_denied n db).1
unfolding delete_denied
delete_denied_kept n db w =
    with_denied_keys db w (delete_all (λ (r : DeniedRow). r.id == n) db.denied_keys) db.next_denied
      (IsTable-delete (λ (r : DeniedRow). r.id == n) db.next_denied db.denied_keys w.denied)

pub delete_denied-Keeps : (n : ℕ) → Keeps IsWellFormed (delete_denied n)
delete_denied-Keeps n = record { apply = delete_denied_kept n }

delete_sessions_kept :
    (p : SessionRow → Bool) → (db : Db) → IsWellFormed db → IsWellFormed (delete_sessions p db).1
unfolding delete_sessions
delete_sessions_kept p db w =
    with_sessions db w (delete_all p db.sessions) db.next_session
      (IsTable-delete p db.next_session db.sessions w.sessions)
      (All-deleted (λ (r : SessionRow). is_member r.member_id db ≡ true) p db.sessions
        w.session_member)

pub delete_sessions-Keeps : (p : SessionRow → Bool) → Keeps IsWellFormed (delete_sessions p)
delete_sessions-Keeps p = record { apply = delete_sessions_kept p }

delete_resets_kept :
    (p : ResetRow → Bool) → (db : Db) → IsWellFormed db → IsWellFormed (delete_resets p db).1
unfolding delete_resets
delete_resets_kept p db w =
    with_reset_tokens db w (delete_all p db.reset_tokens) db.next_reset
      (IsTable-delete p db.next_reset db.reset_tokens w.resets)
      (All-deleted (λ (r : ResetRow). is_member r.created_by db ≡ true) p db.reset_tokens
        w.reset_creator)
      (All-deleted (λ (r : ResetRow). is_member r.for_member db ≡ true) p db.reset_tokens
        w.reset_member)

pub delete_resets-Keeps : (p : ResetRow → Bool) → Keeps IsWellFormed (delete_resets p)
delete_resets-Keeps p = record { apply = delete_resets_kept p }

close_invite_kept : (n : ℕ) → (db : Db) → IsWellFormed db → IsWellFormed (close_invite n db).1
unfolding close_invite
close_invite_kept n db w =
    with_invites db w (update_all p f db.invites) db.next_invite
      (IsTable-update p f db.next_invite db.invites (λ r. refl) (λ r. refl) w.invites)
      (All-update (λ (r : InviteRow). is_member r.created_by db ≡ true) p f db.invites (λ r h. h)
        w.invite_creator)
  where
    p : InviteRow → Bool
    p r = r.id == n

    f : InviteRow → InviteRow
    f r = record r { active = false }

pub close_invite-Keeps : (n : ℕ) → Keeps IsWellFormed (close_invite n)
close_invite-Keeps n = record { apply = close_invite_kept n }

update_password_kept :
    (n : ℕ) (hash : Text) → (db : Db) → IsWellFormed db → IsWellFormed (update_password n hash db).1
unfolding update_password
update_password_kept n hash db w =
    with_passwords db w (update_all p f db.passwords) db.next_password
      (IsTable-update p f db.next_password db.passwords (λ r. refl) (λ r. refl) w.passwords)
      (All-update (λ (r : PasswordRow). is_member r.member_id db ≡ true) p f db.passwords (λ r h. h)
        w.password_member)
  where
    p : PasswordRow → Bool
    p r = r.id == n

    f : PasswordRow → PasswordRow
    f r = record r { password_hash = hash }

pub update_password-Keeps : (n : ℕ) (hash : Text) → Keeps IsWellFormed (update_password n hash)
update_password-Keeps n hash = record { apply = update_password_kept n hash }

close_reset_kept : (n : ℕ) → (db : Db) → IsWellFormed db → IsWellFormed (close_reset n db).1
unfolding close_reset
close_reset_kept n db w =
    with_reset_tokens db w (update_all p f db.reset_tokens) db.next_reset
      (IsTable-update p f db.next_reset db.reset_tokens (λ r. refl) (λ r. refl) w.resets)
      (All-update (λ (r : ResetRow). is_member r.created_by db ≡ true) p f db.reset_tokens
        (λ r h. h) w.reset_creator)
      (All-update (λ (r : ResetRow). is_member r.for_member db ≡ true) p f db.reset_tokens
        (λ r h. h) w.reset_member)
  where
    p : ResetRow → Bool
    p r = r.id == n

    f : ResetRow → ResetRow
    f r = record r { active = false }

pub close_reset-Keeps : (n : ℕ) → Keeps IsWellFormed (close_reset n)
close_reset-Keeps n = record { apply = close_reset_kept n }
