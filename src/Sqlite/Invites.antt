-- ===== src/Sqlite/Invites.antt =====
-- roomdb/sqlite/invites.go: single use invites. A token is stored as its hash only.
pub mod Invariant
pub mod Creation
pub mod Laws
use go_ssb_room.Base.{
  ℕ, zero, suc, ◌+◌, Bool, true, false, not, ◌&&◌, ◌||◌, Option, none, some, List, [], ◌∷◌, map,
  ◌==◌, Text, text_eq, length, if◌then◌else◌,
}
use go_ssb_room.Roomdb.{
  FeedRef, Role, role_member, role_admin, mode_open, Error, not_found, already_added,
  unique_violation, driver, no_rows, privacy_not_open, no_admin_for_invite, out_of_tries, Result,
  ok, err,
}
use go_ssb_room.Sqlite.Rows.{select_one, select_all}
use go_ssb_room.Sqlite.Db.{
  MemberRow, InviteRow, ConfigRow, Db, Faults, Action, done, fail, ◌>>=◌, ◌>>◌, check, require,
  found, statement, query, transact,
}
use go_ssb_room.Sqlite.Schema.{has_id, insert_invite, close_invite, delete_invites}
use go_ssb_room.Sqlite.Tokens.{Codec, invite_token_length, get_hashed_token, lift}
use go_ssb_room.Sqlite.Members.{Member, Alias, aliases_of, to_member, add_member}

-- `roomdb.Invite`
pub record Invite : Type 0 where
  pub id : ℕ
  pub created_by : Member
  pub created_at : ℕ

-- The argument `createdBy`: the id of a member, or -1 for a visitor of an open room.
pub data Creator : Type 0 where
  visitor : Creator
  member : ℕ → Creator

-- The loop `trying`: `tries` rounds are left, and `random` is what `rand.Read` gives in each. A
-- hash that is taken is tried again with new bytes; any other failure ends the loop.
unfoldable pub create_attempts : Codec → (ℕ → Text) → Faults → ℕ → ℕ → ℕ → Action Text
create_attempts c random io creator now zero db = (err out_of_tries, db)
create_attempts c random io creator now (suc tries) db =
    elim (statement (io (tries + 5)) (insert_invite (c.sha256 (random tries)) creator now) db).0 [
      | ok id ↦ (
        ok (random tries),
        (statement (io (tries + 5)) (insert_invite (c.sha256 (random tries)) creator now) db).1,
      )
      | err unique_violation ↦ create_attempts c random io creator now tries db
      | err e ↦ (err e, db)
    ]

-- Who an invite is booked on: a visitor's on some admin, if the room is open.
unfoldable pub resolve_creator : Faults → Creator → Action ℕ
resolve_creator io (member id) = done id
resolve_creator io visitor = do
  row ← query (io 3) (λ db. db.config)
  config ← found row no_rows
  require (config.privacy_mode == mode_open) (privacy_not_open config.privacy_mode)
  admin ← query (io 4) (λ db. select_one (λ (m : MemberRow). m.role == role_admin) db.members)
  entry ← found admin no_admin_for_invite
  done entry.id

-- `Create`
unfoldable pub create : Codec → (ℕ → Text) → Faults → Creator → ℕ → Action Text
create c random io creator now = do
  bytes ← transact io (do id ← resolve_creator io creator; create_attempts c random io id now 100)
  done (c.encode bytes)

abbrev pub is_open_token : Text → InviteRow → Bool
is_open_token hash i = i.active && text_eq i.hashed_token hash

abbrev pub is_open_id : ℕ → InviteRow → Bool
is_open_id id i = i.active && (i.id == id)

-- The member that `qm.Load("CreatedByMember")` finds. The foreign key promises one; where there is
-- none the source would dereference a nil pointer, and the model fails by `driver`.
abbrev pub creator_of : InviteRow → Db → Option MemberRow
creator_of i db = select_one (has_id i.created_by) db.members

-- The invite as `Consume` and `GetByToken` report it: of its creator the id and the role only.
unfoldable pub brief : InviteRow → MemberRow → Invite
brief i m = record {
  id = i.id;
  created_by = record { id = m.id; role = m.role; pub_key = []; aliases = [] };
  created_at = i.created_at;
}

-- A key that is a member already may use an invite too.
unfoldable pub admit : Codec → Bool → FeedRef → Action (Unit {0})
admit c refused key db = elim (add_member c.parse refused key role_member db).0 [
  | ok id ↦ (ok tt, (add_member c.parse refused key role_member db).1)
  | err (already_added other) ↦ (
    if text_eq other key then ok tt else err (already_added other),
    (add_member c.parse refused key role_member db).1,
  )
  | err e ↦ (err e, (add_member c.parse refused key role_member db).1)
]

-- `Consume`
unfoldable pub consume : Codec → Faults → Text → FeedRef → Action Invite
consume c io token key = do
  hash ← lift (get_hashed_token c token)
  transact io (do
    row ← query (io 3) (λ db. select_one (is_open_token hash) db.invites)
    entry ← found row not_found
    creator ← query (io 4) (creator_of entry)
    issuer ← found creator driver
    admit c (io 5) key
    statement (io 6) (close_invite entry.id)
    done (brief entry issuer))

-- `deleteConsumedInvites`
unfoldable pub delete_consumed_invites : Bool → Action (Unit {0})
delete_consumed_invites refused = statement refused (delete_invites (λ i. not i.active))

-- `GetByToken`
unfoldable pub get_by_token : Codec → Faults → Text → Action Invite
get_by_token c io token = do
  hash ← lift (get_hashed_token c token)
  row ← query (io 0) (λ db. select_one (is_open_token hash) db.invites)
  entry ← found row not_found
  creator ← query (io 1) (creator_of entry)
  issuer ← found creator driver
  done (brief entry issuer)

-- `GetByID`, whose `Load` brings the creator without aliases.
unfoldable pub get_by_id : Faults → ℕ → Action Invite
get_by_id io id = do
  row ← query (io 0) (λ db. select_one (is_open_id id) db.invites)
  entry ← found row not_found
  creator ← query (io 1) (creator_of entry)
  issuer ← found creator driver
  done (record { id = entry.id; created_by = to_member issuer []; created_at = entry.created_at })

-- The entries of `List`, each with its creator, whose role the source leaves at its zero value.
unfoldable with_creators : List InviteRow → Action (List Invite)
with_creators [] = done []
with_creators (i ∷ rows) = do
  rest ← with_creators rows
  creator ← query false (creator_of i)
  issuer ← found creator driver
  names ← query false (aliases_of issuer)
  done (
      record {
        id = i.id;
        created_by = record (to_member issuer names) { role = 0 };
        created_at = i.created_at;
      }
      ∷ rest)

-- `List`
unfoldable pub list : Faults → Action (List Invite)
unfolding with_creators
list io = transact io (do
  all ← query (io 3) (λ db. select_all (λ (i : InviteRow). i.active) db.invites)
  statement (io 4) (with_creators all))

-- `Count`
unfoldable pub count_invites : Faults → Bool → Action ℕ
count_invites io only_active =
    query (io 0)
      (λ db. length (select_all (λ (i : InviteRow). not only_active || i.active) db.invites))

-- `Revoke`
unfoldable pub revoke : Faults → ℕ → Action (Unit {0})
revoke io id = transact io (do
  row ← query (io 3) (λ db. select_one (is_open_id id) db.invites)
  entry ← found row not_found
  statement (io 4) (close_invite entry.id))
