-- ===== src/Sqlite/Invariant/Members.antt =====
-- Statements on the members table keep the invariant, with the cascade of a deletion.
use go_ssb_room.Base.{
  ◌||◌, ℕ, ◌≡◌, ◌≢◌, refl, Bool, none, All, arith, Bool-cases, inl, inr, ◌==◌, List, [], ◌∷◌, ◌++◌,
  ◌+◌,
}
use go_ssb_room.Roomdb.{FeedRef, Role, check_role}
use go_ssb_room.Sqlite.Rows.{exists, All-append, All-deleted, All-update, update_all}
use go_ssb_room.Sqlite.Db.{MemberRow, AliasRow, InviteRow, SessionRow, PasswordRow, ResetRow, Db}
use go_ssb_room.Sqlite.Schema.{has_id, has_key, insert_member, delete_member, update_member_role}
use go_ssb_room.Sqlite.Tables.{
  IsTable-append, IsTable-delete, IsTable-update, fresh_text, Refers, Refers-new_member,
  Refers-update_member, Refers-delete_member,
}
use go_ssb_room.Sqlite.Keeps.{Keeps}
use go_ssb_room.Sqlite.Invariant.{IsWellFormed}

-- An update of the members that keeps ids and keys and gives valid roles.
with_update_members :
    (db : Db) (p : MemberRow → Bool) (role : Role)
    → check_role role ≡ none
    → IsWellFormed db
    → IsWellFormed (record db { members = update_all p (λ m. record m { role = role }) db.members })
with_update_members db p role valid w =
    let members = IsTable-update p f db.next_member db.members (λ m. refl) (λ m. refl) w.members in
    let roles = All-update (λ m. check_role m.role ≡ none) p f db.members (λ m h. valid) w.roles in
    let alias_member = moved (λ (a : AliasRow). a.member_id) db.aliases w.alias_member in
    let invite_creator = moved (λ (i : InviteRow). i.created_by) db.invites w.invite_creator in
    let session_member = moved (λ (s : SessionRow). s.member_id) db.sessions w.session_member in
    let password_member = moved (λ (q : PasswordRow). q.member_id) db.passwords w.password_member in
    let reset_creator = moved (λ (t : ResetRow). t.created_by) db.reset_tokens w.reset_creator in
    let reset_member = moved (λ (t : ResetRow). t.for_member) db.reset_tokens w.reset_member in
    assumption (
      members, roles, alias_member, invite_creator, session_member, password_member, reset_creator,
      reset_member,
    )
  where
    f : MemberRow → MemberRow
    f m = record m { role = role }

    moved :
        {Row : Type 0} (fk : Row → ℕ) (rows : List Row)
        → Refers fk db.members rows
        → Refers fk (update_all p f db.members) rows
    moved fk rows = Refers-update_member fk p f db.members rows (λ m. refl)

update_member_role_kept :
    (n : ℕ) (role : Role)
    → check_role role ≡ none
    → (db : Db) → IsWellFormed db
    → IsWellFormed (update_member_role n role db).1
unfolding update_member_role
update_member_role_kept n role valid db w = elim (Bool-cases (role == 0)) [
  | inl zero_role ↦ rw zero_role w
  | inr positive ↦ rw positive (with_update_members db (has_id n) role valid w)
]

with_new_member :
    (db : Db) (row : MemberRow)
    → row.id ≡ db.next_member
    → All (λ (m : MemberRow). m.pub_key ≢ row.pub_key) db.members
    → check_role row.role ≡ none
    → IsWellFormed db
    → IsWellFormed
        (record db { members = db.members ++ row ∷ []; next_member = db.next_member + 1 })
with_new_member db row same fresh valid w =
    let members = IsTable-append db.next_member db.members row same fresh w.members in
    let roles =
      All-append (λ (m : MemberRow). check_role m.role ≡ none) db.members (row ∷ []) w.roles
        (valid, tt) in
    let alias_member = moved (λ (a : AliasRow). a.member_id) db.aliases w.alias_member in
    let invite_creator = moved (λ (i : InviteRow). i.created_by) db.invites w.invite_creator in
    let session_member = moved (λ (s : SessionRow). s.member_id) db.sessions w.session_member in
    let password_member = moved (λ (q : PasswordRow). q.member_id) db.passwords w.password_member in
    let reset_creator = moved (λ (t : ResetRow). t.created_by) db.reset_tokens w.reset_creator in
    let reset_member = moved (λ (t : ResetRow). t.for_member) db.reset_tokens w.reset_member in
    assumption (
      members, roles, alias_member, invite_creator, session_member, password_member, reset_creator,
      reset_member,
    )
  where
    moved :
        {Row : Type 0} (fk : Row → ℕ) (rows : List Row)
        → Refers fk db.members rows
        → Refers fk (db.members ++ row ∷ []) rows
    moved fk rows = Refers-new_member fk db.members row rows

pub update_member_role-Keeps :
    (n : ℕ) (role : Role) → check_role role ≡ none → Keeps IsWellFormed (update_member_role n role)
update_member_role-Keeps n role valid = record { apply = update_member_role_kept n role valid }

insert_member_kept :
    (key : FeedRef) (role : Role)
    → check_role role ≡ none
    → (db : Db) → IsWellFormed db
    → IsWellFormed (insert_member key role db).1
unfolding insert_member
insert_member_kept key role valid db w = elim (Bool-cases (exists (has_key key) db.members)) [
  | inl taken ↦ rw taken w
  | inr free ↦ rw free (elim (Bool-cases (role == 0)) [
    | inl zero_role ↦ rw zero_role w
    | inr positive ↦ rw positive (
        with_new_member db (record { id = db.next_member; role = role; pub_key = key }) refl
          (fresh_text (λ (m : MemberRow). m.pub_key) key db.members free) valid w)
  ])
]

pub insert_member-Keeps :
    (key : FeedRef) (role : Role)
    → check_role role ≡ none
    → Keeps IsWellFormed (insert_member key role)
insert_member-Keeps key role valid = record { apply = insert_member_kept key role valid }

delete_member_kept : (n : ℕ) → (db : Db) → IsWellFormed db → IsWellFormed (delete_member n db).1
unfolding delete_member
delete_member_kept n db w =
    let members =
      IsTable-delete {id = λ (m : MemberRow). m.id} {key = λ m. m.pub_key} (has_id n) db.next_member
        db.members w.members in
    let roles =
      All-deleted (λ (m : MemberRow). check_role m.role ≡ none) (has_id n) db.members w.roles in
    let aliases =
      IsTable-delete (λ (a : AliasRow). a.member_id == n) db.next_alias db.aliases w.aliases in
    let alias_member =
      Refers-delete_member (λ (a : AliasRow). a.member_id) n (λ a. a.member_id == n) db.members
        db.aliases (λ r other e. ground arith) w.alias_member in
    let invites =
      IsTable-delete (λ (i : InviteRow). i.created_by == n) db.next_invite db.invites w.invites in
    let invite_creator =
      Refers-delete_member (λ (i : InviteRow). i.created_by) n (λ i. i.created_by == n) db.members
        db.invites (λ r other e. ground arith) w.invite_creator in
    let sessions =
      IsTable-delete (λ (s : SessionRow). s.member_id == n) db.next_session db.sessions
        w.sessions in
    let session_member =
      Refers-delete_member (λ (s : SessionRow). s.member_id) n (λ s. s.member_id == n) db.members
        db.sessions (λ r other e. ground arith) w.session_member in
    let passwords =
      IsTable-delete (λ (q : PasswordRow). q.member_id == n) db.next_password db.passwords
        w.passwords in
    let password_member =
      Refers-delete_member (λ (q : PasswordRow). q.member_id) n (λ q. q.member_id == n) db.members
        db.passwords (λ r other e. ground arith) w.password_member in
    let resets =
      IsTable-delete (λ (t : ResetRow). (t.created_by == n) || (t.for_member == n)) db.next_reset
        db.reset_tokens w.resets in
    let reset_creator =
      Refers-delete_member (λ (t : ResetRow). t.created_by) n
        (λ t. (t.created_by == n) || (t.for_member == n)) db.members db.reset_tokens
        (λ r other e. ground arith) w.reset_creator in
    let reset_member =
      Refers-delete_member (λ (t : ResetRow). t.for_member) n
        (λ t. (t.created_by == n) || (t.for_member == n)) db.members db.reset_tokens
        (λ r other e. ground arith) w.reset_member in
    assumption (
      members, roles, aliases, alias_member, invites, invite_creator, sessions, session_member,
      passwords, password_member, resets, reset_creator, reset_member,
    )

pub delete_member-Keeps : (n : ℕ) → Keeps IsWellFormed (delete_member n)
delete_member-Keeps n = record { apply = delete_member_kept n }
