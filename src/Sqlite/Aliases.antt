-- ===== src/Sqlite/Aliases.antt =====
-- roomdb/sqlite/aliases.go: names of members. Validation of a name happens in the callers.
pub mod Invariant
pub mod Laws
use go_ssb_room.Base.{ℕ, Bool, false, Option, none, some, List, [], ◌∷◌, ◌==◌, Text, text_eq}
use go_ssb_room.Roomdb.{FeedRef, Error, not_found, alias_taken, driver, Result, ok, err}
use go_ssb_room.Sqlite.Rows.{select_one, select_all}
use go_ssb_room.Sqlite.Db.{
  MemberRow, AliasRow, Db, Faults, Action, done, fail, ◌>>=◌, ◌>>◌, found, statement, query,
  renaming, transact,
}
use go_ssb_room.Sqlite.Schema.{has_id, has_key, insert_alias, delete_alias}
use go_ssb_room.Sqlite.Members.{Alias}

abbrev pub has_name : Text → AliasRow → Bool
has_name name a = text_eq a.name name

-- The member of the JOIN. The foreign key promises one; without it the source would panic, and the
-- model fails by `driver`.
abbrev pub owner_of : AliasRow → Db → Option MemberRow
owner_of a db = select_one (has_id a.member_id) db.members

abbrev pub to_alias : AliasRow → MemberRow → Alias
to_alias a m = record { id = a.id; name = a.name; feed = m.pub_key; signature = a.signature }

-- `findOne`
unfoldable pub find_one : Faults → (AliasRow → Bool) → Action Alias
find_one io by = do
  row ← query (io 0) (λ db. select_one by db.aliases)
  entry ← found row not_found
  owner ← query (io 1) (owner_of entry)
  m ← found owner driver
  done (to_alias entry m)

-- `Resolve`
unfoldable pub resolve : Faults → Text → Action Alias
unfolding find_one
resolve io name = find_one io (has_name name)

-- `GetByID`
unfoldable pub get_by_id : Faults → ℕ → Action Alias
unfolding find_one
get_by_id io id = find_one io (λ a. a.id == id)

-- The entries of `List`, each with the member of the JOIN.
unfoldable pub with_owners : List AliasRow → Action (List Alias)
with_owners [] = done []
with_owners (a ∷ rows) = do
  rest ← with_owners rows
  owner ← query false (owner_of a)
  m ← found owner driver
  done (to_alias a m ∷ rest)

-- `List`
unfoldable pub list : Faults → Action (List Alias)
unfolding with_owners
list io = do all ← query (io 0) (λ db. db.aliases); statement (io 1) (with_owners all)

-- `Register`
unfoldable pub register : Faults → Text → FeedRef → Text → Action (Unit {0})
register io name key signature = transact io (do
  row ← query (io 3) (λ db. select_one (has_key key) db.members)
  entry ← found row not_found
  _ ← renaming (alias_taken name) (statement (io 4) (insert_alias name entry.id signature))
  done tt)

-- `Revoke`. The alias is read outside the transaction, before which nothing was written.
unfoldable pub revoke : Faults → Text → Action (Unit {0})
revoke io name = transact io (do
  row ← query (io 3) (λ db. select_one (has_name name) db.aliases)
  entry ← found row not_found
  statement (io 4) (delete_alias entry.id))
