-- ===== src/Sqlite/Atomic.antt =====
-- A statement that the constraints refuse changes nothing.
use go_ssb_room.Base.{ℕ, Text, arith}
use go_ssb_room.Roomdb.{FeedRef, Role}
use go_ssb_room.Sqlite.Schema.{
  insert_member, insert_alias, insert_denied, delete_member, delete_denied, delete_sessions,
}
use go_ssb_room.Sqlite.Db.{SessionRow}
use go_ssb_room.Base.{Bool}
use go_ssb_room.Sqlite.Keeps.{IsAtomic}

pub insert_member-IsAtomic : (key : FeedRef) (role : Role) → IsAtomic (insert_member key role)
unfolding insert_member
insert_member-IsAtomic key role = record { apply = λ db e h. ground arith }

pub insert_alias-IsAtomic :
    (name : Text) (member : ℕ) (signature : Text) → IsAtomic (insert_alias name member signature)
unfolding insert_alias
insert_alias-IsAtomic name member signature = record { apply = λ db e h. ground arith }

pub insert_denied-IsAtomic :
    (key comment : Text) (now : ℕ) → IsAtomic (insert_denied key comment now)
unfolding insert_denied
insert_denied-IsAtomic key comment now = record { apply = λ db e h. ground arith }

pub delete_member-IsAtomic : (n : ℕ) → IsAtomic (delete_member n)
unfolding delete_member
delete_member-IsAtomic n = record { apply = λ db e h. absurd (ground arith) }

pub delete_denied-IsAtomic : (n : ℕ) → IsAtomic (delete_denied n)
unfolding delete_denied
delete_denied-IsAtomic n = record { apply = λ db e h. absurd (ground arith) }

pub delete_sessions-IsAtomic : (p : SessionRow → Bool) → IsAtomic (delete_sessions p)
unfolding delete_sessions
delete_sessions-IsAtomic p = record { apply = λ db e h. absurd (ground arith) }
