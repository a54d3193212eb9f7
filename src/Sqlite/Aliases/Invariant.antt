-- ===== src/Sqlite/Aliases/Invariant.antt =====
-- roomdb/sqlite/aliases.go keeps the invariant, and fails without a trace.
use go_ssb_room.Base.{Text}
use go_ssb_room.Roomdb.{FeedRef}
use go_ssb_room.Sqlite.Db.{Faults}
use go_ssb_room.Sqlite.Keeps.{Keeps, IsAtomic, keeping, atomicity}
use go_ssb_room.Sqlite.Invariant.{IsWellFormed}
use go_ssb_room.Sqlite.Invariant.Writes.{insert_alias-Keeps, delete_alias-Keeps}
use go_ssb_room.Sqlite.Aliases.{register, revoke}

pub register-Keeps :
    (io : Faults) (name : Text) (key : FeedRef) (signature : Text)
    → Keeps IsWellFormed (register io name key signature)
unfolding register
register-Keeps io name key signature = search (keeping, insert_alias-Keeps) depth 12

pub revoke-Keeps : (io : Faults) (name : Text) → Keeps IsWellFormed (revoke io name)
unfolding revoke
revoke-Keeps io name = search (keeping, delete_alias-Keeps) depth 12

pub register-IsAtomic :
    (io : Faults) (name : Text) (key : FeedRef) (signature : Text)
    → IsAtomic (register io name key signature)
unfolding register
register-IsAtomic io name key signature = search atomicity

pub revoke-IsAtomic : (io : Faults) (name : Text) → IsAtomic (revoke io name)
unfolding revoke
revoke-IsAtomic io name = search atomicity
