-- ===== src/Sqlite/Denied/Invariant.antt =====
-- roomdb/sqlite/denied.go keeps the invariant, and fails without a trace.
use go_ssb_room.Base.{ℕ, Option, Text}
use go_ssb_room.Roomdb.{FeedRef}
use go_ssb_room.Sqlite.Db.{Faults}
use go_ssb_room.Sqlite.Keeps.{Keeps, IsAtomic, keeping, atomicity}
use go_ssb_room.Sqlite.Atomic.{insert_denied-IsAtomic, delete_denied-IsAtomic}
use go_ssb_room.Sqlite.Invariant.{IsWellFormed}
use go_ssb_room.Sqlite.Invariant.Writes.{insert_denied-Keeps, delete_denied-Keeps}
use go_ssb_room.Sqlite.Denied.{add, remove_feed, remove_id}

module _ (parse : Text → Option FeedRef) (io : Faults) (key : FeedRef) (comment : Text)
    (now : ℕ) where
  pub add-Keeps : Keeps IsWellFormed (add parse io key comment now)
  unfolding add
  add-Keeps = search (keeping, insert_denied-Keeps) depth 12

  pub add-IsAtomic : IsAtomic (add parse io key comment now)
  unfolding add
  add-IsAtomic = search (atomicity, insert_denied-IsAtomic) depth 12

pub remove_feed-Keeps : (io : Faults) (key : FeedRef) → Keeps IsWellFormed (remove_feed io key)
unfolding remove_feed
remove_feed-Keeps io key = search (keeping, delete_denied-Keeps) depth 12

pub remove_id-Keeps : (io : Faults) (id : ℕ) → Keeps IsWellFormed (remove_id io id)
unfolding remove_id
remove_id-Keeps io id = search (keeping, delete_denied-Keeps) depth 12

pub remove_feed-IsAtomic : (io : Faults) (key : FeedRef) → IsAtomic (remove_feed io key)
unfolding remove_feed
remove_feed-IsAtomic io key = search (atomicity, delete_denied-IsAtomic) depth 12

pub remove_id-IsAtomic : (io : Faults) (id : ℕ) → IsAtomic (remove_id io id)
unfolding remove_id
remove_id-IsAtomic io id = search (atomicity, delete_denied-IsAtomic) depth 12
