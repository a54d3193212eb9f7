-- ===== src/Sqlite/Members.antt =====
-- roomdb/sqlite/members.go: the members of the room. `parse` is `refs.ParseFeedRef`.
pub mod Invariant
pub mod Laws
use go_ssb_room.Base.{
  ℕ, Bool, true, false, not, ◌&&◌, Option, none, some, List, [], ◌∷◌, map, ◌==◌, ltb, Text, text_eq,
  length,
}
use go_ssb_room.Roomdb.{
  FeedRef, Role, role_admin, Error, not_found, already_added, bad_feed_ref, need_other_admin,
  Result, ok, err, check_role,
}
use go_ssb_room.Sqlite.Rows.{select_one, select_all, exists}
use go_ssb_room.Sqlite.Db.{
  MemberRow, AliasRow, Db, Faults, Action, done, fail, ◌>>=◌, ◌>>◌, check, require, found,
  statement, query, renaming, transact,
}
use go_ssb_room.Sqlite.Schema.{has_id, has_key, insert_member, delete_member, update_member_role}

-- `roomdb.Alias`
pub record Alias : Type 0 where
  pub id : ℕ
  pub name : Text
  pub feed : FeedRef
  pub signature : Text

-- `roomdb.Member`
pub record Member : Type 0 where
  pub id : ℕ
  pub role : Role
  pub pub_key : FeedRef
  pub aliases : List Alias

-- `getAliases`, on the rows that the JOIN found.
unfoldable pub get_aliases : MemberRow → List AliasRow → List Alias
get_aliases m =
    map λ (a : AliasRow). record {
      id = a.id;
      name = a.name;
      feed = m.pub_key;
      signature = a.signature;
    }

-- `entry.Aliases()`
abbrev pub aliases_of : MemberRow → Db → List AliasRow
aliases_of m db = select_all (λ (a : AliasRow). a.member_id == m.id) db.aliases

unfoldable pub to_member : MemberRow → List AliasRow → Member
unfolding get_aliases
to_member m rows = record {
  id = m.id;
  role = m.role;
  pub_key = m.pub_key;
  aliases = get_aliases m rows;
}

-- `add`, which runs in the transaction of its caller.
unfoldable pub add_member : (Text → Option FeedRef) → Bool → FeedRef → Role → Action ℕ
add_member parse refused key role = do
  check (check_role role)
  _ ← found (parse key) bad_feed_ref
  renaming (already_added key) (statement refused (insert_member key role))

-- `Add`
unfoldable pub add : (Text → Option FeedRef) → Faults → FeedRef → Role → Action ℕ
add parse io key role = transact io (add_member parse (io 3) key role)

-- `GetByID`
unfoldable pub get_by_id : Faults → ℕ → Action Member
get_by_id io id = do
  row ← query (io 0) (λ db. select_one (has_id id) db.members)
  entry ← found row not_found
  rows ← query (io 1) (aliases_of entry)
  done (to_member entry rows)

-- `GetByFeed`
unfoldable pub get_by_feed : Faults → FeedRef → Action Member
get_by_feed io key = do
  row ← query (io 0) (λ db. select_one (has_key key) db.members)
  entry ← found row not_found
  rows ← query (io 1) (aliases_of entry)
  done (to_member entry rows)

-- `List`, with the aliases loaded eagerly by a second query.
unfoldable pub list : Faults → Action (List Member)
list io = do
  all ← query (io 0) (λ db. db.members)
  query (io 1) (λ db. map (λ m. to_member m (aliases_of m db)) all)

-- `Count`
unfoldable pub count_members : Faults → Action ℕ
count_members io = query (io 0) (λ db. length db.members)

-- `RemoveFeed`
unfoldable pub remove_feed : Faults → FeedRef → Action (Unit {0})
remove_feed io key = do
  row ← query (io 0) (λ db. select_one (has_key key) db.members)
  entry ← found row not_found
  statement (io 1) (delete_member entry.id)

-- `RemoveID`
unfoldable pub remove_id : Faults → ℕ → Action (Unit {0})
remove_id io id = do
  row ← query (io 0) (λ db. select_one (has_id id) db.members)
  entry ← found row not_found
  statement (io 1) (delete_member entry.id)

-- `id != ? AND role = RoleAdmin`
abbrev pub is_other_admin : ℕ → MemberRow → Bool
is_other_admin id m = not (m.id == id) && (m.role == role_admin)

-- `SetRole`
unfoldable pub set_role : Faults → ℕ → Role → Action (Unit {0})
set_role io id role = do
  check (check_role role)
  transact io (do
    row ← query (io 3) (λ db. select_one (has_id id) db.members)
    entry ← found row not_found
    admins ← query (io 4) (λ db. length (select_all (is_other_admin id) db.members))
    require (not (ltb admins 1)) need_other_admin
    statement (io 5) (update_member_role entry.id role))
