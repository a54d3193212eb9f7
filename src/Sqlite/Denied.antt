-- ===== src/Sqlite/Denied.antt =====
-- roomdb/sqlite/denied.go: keys that are banned from the room. `parse` is `refs.ParseFeedRef`.
pub mod Invariant
pub mod Laws
use go_ssb_room.Base.{ℕ, Bool, true, false, Option, none, some, List, ◌==◌, Text, text_eq, length}
use go_ssb_room.Roomdb.{FeedRef, Error, not_found, already_added, bad_feed_ref, Result, ok, err}
use go_ssb_room.Sqlite.Rows.{select_one}
use go_ssb_room.Sqlite.Db.{
  DeniedRow, Db, Faults, Action, done, fail, ◌>>=◌, ◌>>◌, found, statement, query, renaming,
}
use go_ssb_room.Sqlite.Schema.{insert_denied, delete_denied}

abbrev pub is_key : FeedRef → DeniedRow → Bool
is_key key d = text_eq d.pub_key key

abbrev pub is_entry : ℕ → DeniedRow → Bool
is_entry id d = d.id == id

-- `Add`
unfoldable pub add : (Text → Option FeedRef) → Faults → FeedRef → Text → ℕ → Action (Unit {0})
add parse io key comment now = do
  _ ← found (parse key) bad_feed_ref
  _ ← renaming (already_added key) (statement (io 0) (insert_denied key comment now))
  done tt

-- Whether a read found a row: an error of any kind counts as no.
unfoldable pub was_found : {A : Type 0} → Result (Option A) → Bool
was_found (ok (some a)) = true
was_found _ = false

-- `HasFeed`
unfoldable pub has_feed : Faults → FeedRef → Db → Bool
unfolding was_found
has_feed io key db = was_found (query (io 0) (λ d. select_one (is_key key) d.denied_keys) db).0

-- `HasID`
unfoldable pub has_denied_id : Faults → ℕ → Db → Bool
unfolding was_found
has_denied_id io id db = was_found (query (io 0) (λ d. select_one (is_entry id) d.denied_keys) db).0

-- `GetByID`
unfoldable pub get_by_id : Faults → ℕ → Action DeniedRow
get_by_id io id = do
  row ← query (io 0) (λ db. select_one (is_entry id) db.denied_keys)
  found row not_found

-- `List`
unfoldable pub list : Faults → Action (List DeniedRow)
list io = query (io 0) (λ db. db.denied_keys)

-- `Count`
unfoldable pub count_denied : Faults → Action ℕ
count_denied io = query (io 0) (λ db. length db.denied_keys)

-- `RemoveFeed`
unfoldable pub remove_feed : Faults → FeedRef → Action (Unit {0})
remove_feed io key = do
  row ← query (io 0) (λ db. select_one (is_key key) db.denied_keys)
  entry ← found row not_found
  statement (io 1) (delete_denied entry.id)

-- `RemoveID`
unfoldable pub remove_id : Faults → ℕ → Action (Unit {0})
remove_id io id = do
  row ← query (io 0) (λ db. select_one (is_entry id) db.denied_keys)
  entry ← found row not_found
  statement (io 1) (delete_denied entry.id)
