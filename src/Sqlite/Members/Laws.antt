-- ===== src/Sqlite/Members/Laws.antt =====
-- roomdb/sqlite/members.go: what each operation does to the room's members.
use go_ssb_room.Base.{
  ℕ, ◌≡◌, refl, Bool, true, false, Option, none, some, List, [], ◌∷◌, ◌==◌, Text, text_eq_refl,
  arith, ==_iff, ap, ◌||◌, Option-cases, inl, inr, All,
}
use go_ssb_room.Roomdb.{FeedRef, Role, role_admin, already_added, ok, err, Result-cases, check_role}
use go_ssb_room.Sqlite.Rows.{
  select_one, update_all, exists, select_one-passes, select_one-exists, select_one-append,
  select_all-exists, exists-update, exists-delete_self,
}
use go_ssb_room.Sqlite.Db.{
  MemberRow, AliasRow, InviteRow, SessionRow, PasswordRow, ResetRow, Db, Faults, reliable,
  on_unique, conclude, transact,
}
use go_ssb_room.Sqlite.Schema.{
  has_id, has_key, is_member, insert_member, delete_member, update_member_role,
}
use go_ssb_room.Sqlite.Members.Invariant.{set_role-IsAtomic}
use go_ssb_room.Sqlite.Members.{
  aliases_of, to_member, add_member, add, get_by_feed, remove_id, is_other_admin, set_role,
}

abbrev pub is_admin : MemberRow → Bool
is_admin m = m.role == role_admin

abbrev pub HasAdmin : Db → Type 0
HasAdmin db = exists is_admin db.members ≡ true

other_admin_stays :
    (id : ℕ) (role : Role) (rows : List MemberRow)
    → exists (is_other_admin id) (update_all (has_id id) (λ m. record m { role = role }) rows)
      ≡ exists (is_other_admin id) rows
unfolding exists update_all
other_admin_stays id role [] = refl
other_admin_stays id role (m ∷ rows) = ground (arith, other_admin_stays id role rows)

role_is_set :
    (id : ℕ) (role : Role) (rows : List MemberRow)
    → All
        (λ (m : MemberRow). m.id ≡ id → m.role ≡ role)
        (update_all (has_id id) (λ m. record m { role = role }) rows)
unfolding update_all
role_is_set id role [] = tt
role_is_set id role (m ∷ rows) = (ground arith, role_is_set id role rows)

-- What a successful SetRole found, and the one write that it made.
set_role_effect :
    (io : Faults) (id : ℕ) (role : Role) (db : Db)
    → (set_role io id role db).0 ≡ ok tt
    → ((set_role io id role db).1
        ≡ record db { members = update_all (has_id id) (λ m. record m { role = role }) db.members })
      × (exists (is_other_admin id) db.members ≡ true)
      × (check_role role ≡ none)
      × (is_member id db ≡ true)
unfolding set_role transact conclude update_member_role
set_role_effect io id role db h = elim (Option-cases (select_one (has_id id) db.members)) [
  | inl e ↦ absurd (ground arith)
  | inr (m, e) ↦ ground (
    arith,
    select_all-exists (is_other_admin id) db.members,
    select_one-exists (has_id id) db.members m,
    select_one-passes (has_id id) db.members m,
  )
]

-- After a SetRole that succeeds, the role is valid, the member exists and has it, and some member
-- other than this one is an admin.
set_role_lem :
    (io : Faults) (id : ℕ) (role : Role) (db : Db)
    → (set_role io id role db).0 ≡ ok tt
    → let after = (set_role io id role db).1 in
      (exists (is_other_admin id) after.members ≡ true)
      × (check_role role ≡ none)
      × (is_member id after ≡ true)
      × All (λ (m : MemberRow). m.id ≡ id → m.role ≡ role) after.members
set_role_lem io id role db h =
    let (effect, other, valid, there) = set_role_effect io id role db h in
    rw effect (
      rw (other_admin_stays id role db.members) other,
      valid,
      rw
          (exists-update (has_id id) (has_id id) (λ m. record m { role = role }) db.members
            (λ m. refl))
          there,
      role_is_set id role db.members,
    )

other_admin-HasAdmin :
    (id : ℕ) (rows : List MemberRow)
    → exists (is_other_admin id) rows ≡ true
    → exists is_admin rows ≡ true
unfolding exists
other_admin-HasAdmin id [] h = h
other_admin-HasAdmin id (m ∷ rows) h = ground (arith, other_admin-HasAdmin id rows)

-- A SetRole, however it ends, never leaves a room that had an admin without one.
pub set_role-HasAdmin :
    (io : Faults) (id : ℕ) (role : Role) (db : Db)
    → HasAdmin db
    → HasAdmin (set_role io id role db).1
set_role-HasAdmin io id role db h = elim (Result-cases (set_role io id role db).0) [
  | inl (t, e) ↦
      other_admin-HasAdmin id (set_role io id role db).1.members (set_role_lem io id role db e).0
  | inr (x, e) ↦ rw ((set_role-IsAtomic io id role).apply db x e) h
]

-- What a successful RemoveID found and wrote.
remove_id_effect :
    (io : Faults) (id : ℕ) (db : Db)
    → (remove_id io id db).0 ≡ ok tt
    → (is_member id db ≡ true) × ((remove_id io id db).1 ≡ (delete_member id db).1)
unfolding remove_id
remove_id_effect io id db h = elim (Option-cases (select_one (has_id id) db.members)) [
  | inl e ↦ absurd (ground arith)
  | inr (m, e) ↦
      let same : m.id ≡ id = (==_iff m.id id).0 (select_one-passes (has_id id) db.members m e) in
      let there = select_one-exists (has_id id) db.members m e in
      ground (arith, ap (λ n. delete_member n db) same)
]

-- A RemoveID that succeeds was of a member who existed, and leaves no such member, and no alias,
-- invite, session or password of theirs, and no reset token that they issued or that is for them.
pub remove_id_lem :
    (io : Faults) (id : ℕ) (db : Db)
    → (remove_id io id db).0 ≡ ok tt
    → let after = (remove_id io id db).1 in
      (is_member id db ≡ true)
      × (is_member id after ≡ false)
      × (exists (λ (a : AliasRow). a.member_id == id) after.aliases ≡ false)
      × (exists (λ (i : InviteRow). i.created_by == id) after.invites ≡ false)
      × (exists (λ (s : SessionRow). s.member_id == id) after.sessions ≡ false)
      × (exists (λ (p : PasswordRow). p.member_id == id) after.passwords ≡ false)
      × (exists (λ (t : ResetRow). (t.created_by == id) || (t.for_member == id)) after.reset_tokens
          ≡ false)
unfolding delete_member
remove_id_lem io id db h =
    let (there, effect) = remove_id_effect io id db h in
    rw effect (
      there,
      exists-delete_self (has_id id) db.members,
      exists-delete_self (λ (a : AliasRow). a.member_id == id) db.aliases,
      exists-delete_self (λ (i : InviteRow). i.created_by == id) db.invites,
      exists-delete_self (λ (s : SessionRow). s.member_id == id) db.sessions,
      exists-delete_self (λ (p : PasswordRow). p.member_id == id) db.passwords,
      exists-delete_self (λ (t : ResetRow). (t.created_by == id) || (t.for_member == id))
          db.reset_tokens,
    )

-- Where the engine refuses nothing, Add of a key that parses and that no member has, with a valid
-- role, gives the next id, and GetByFeed then finds the key, with that id and role.
add-get_by_feed :
    (parse : Text → Option FeedRef) (key parsed : FeedRef) (role : Role) (db : Db)
    → parse key ≡ some parsed
    → check_role role ≡ none
    → exists (has_key key) db.members ≡ false
    → let after = (add parse reliable key role db).1 in
      ((add parse reliable key role db).0 ≡ ok db.next_member)
      × ((get_by_feed reliable key after).0
          ≡ ok (
              to_member
                (record { id = db.next_member; role = role; pub_key = key })
                (aliases_of (record { id = db.next_member; role = role; pub_key = key }) db)))
unfolding add add_member transact conclude on_unique insert_member get_by_feed check_role
add-get_by_feed parse key parsed role db p valid free = ground (
  arith,
  select_one-append (has_key key) db.members
      (record { id = db.next_member; role = role; pub_key = key }) free (text_eq_refl key),
)

-- Where the engine refuses nothing, Add of a key that parses and that a member has, with a valid
-- role, is refused by an error that names the key, and nothing changes.
pub add_again :
    (parse : Text → Option FeedRef) (key parsed : FeedRef) (role : Role) (db : Db)
    → parse key ≡ some parsed
    → check_role role ≡ none
    → exists (has_key key) db.members ≡ true
    → add parse reliable key role db ≡ (err (already_added key), db)
unfolding add add_member transact conclude on_unique insert_member
add_again parse key parsed role db p valid there = rw (valid, p, there, add_member)
