-- ===== src/Sqlite/Members/Invariant.antt =====
-- roomdb/sqlite/members.go keeps the invariant, and fails without a trace.
use go_ssb_room.Base.{ℕ, Option, Bool, Text}
use go_ssb_room.Roomdb.{FeedRef, Role, check_role}
use go_ssb_room.Sqlite.Db.{Faults, MemberRow}
use go_ssb_room.Sqlite.Keeps.{
  Keeps, IsAtomic, Keeps-bind, Keeps-checked, Keeps-found, Keeps-renaming, Keeps-require,
  Keeps-statement, Keeps-transact, IsAtomic-bind, Keeps-query, query-IsRead, found-IsRead,
  check-IsRead, transact-IsAtomic, statement-IsAtomic,
}
use go_ssb_room.Sqlite.Atomic.{delete_member-IsAtomic}
use go_ssb_room.Sqlite.Invariant.{IsWellFormed}
use go_ssb_room.Sqlite.Invariant.Members.{
  insert_member-Keeps, delete_member-Keeps, update_member_role-Keeps,
}
use go_ssb_room.Sqlite.Members.{add_member, add, remove_feed, remove_id, set_role}

pub add_member-Keeps :
    (parse : Text → Option FeedRef) (b : Bool) (key : FeedRef) (role : Role)
    → Keeps IsWellFormed (add_member parse b key role)
unfolding add_member
add_member-Keeps parse b key role = Keeps-checked _ (check_role role) _ λ valid.
    Keeps-bind _ _ _ (Keeps-found _ (parse key) _)
      λ _. Keeps-renaming _ _ _ (Keeps-statement _ b _ (insert_member-Keeps key role valid))

pub add-Keeps :
    (parse : Text → Option FeedRef) (io : Faults) (key : FeedRef) (role : Role)
    → Keeps IsWellFormed (add parse io key role)
unfolding add
add-Keeps parse io key role =
    Keeps-transact IsWellFormed io _ (add_member-Keeps parse (io 3) key role)

pub remove_feed-Keeps : (io : Faults) (key : FeedRef) → Keeps IsWellFormed (remove_feed io key)
unfolding remove_feed
remove_feed-Keeps io key = Keeps-bind _ _ _ (Keeps-query _ (io 0) _) λ (row : Option MemberRow).
    Keeps-bind _ _ _ (Keeps-found _ row _)
      λ (entry : MemberRow). Keeps-statement _ (io 1) _ (delete_member-Keeps entry.id)

pub remove_id-Keeps : (io : Faults) (id : ℕ) → Keeps IsWellFormed (remove_id io id)
unfolding remove_id
remove_id-Keeps io id = Keeps-bind _ _ _ (Keeps-query _ (io 0) _) λ (row : Option MemberRow).
    Keeps-bind _ _ _ (Keeps-found _ row _)
      λ (entry : MemberRow). Keeps-statement _ (io 1) _ (delete_member-Keeps entry.id)

pub set_role-Keeps : (io : Faults) (id : ℕ) (role : Role) → Keeps IsWellFormed (set_role io id role)
unfolding set_role
set_role-Keeps io id role = Keeps-checked _ (check_role role) _ λ valid. Keeps-transact _ io _ (
    Keeps-bind _ _ _ (Keeps-query _ (io 3) _) λ (row : Option MemberRow).
      Keeps-bind _ _ _ (Keeps-found _ row _) λ (entry : MemberRow).
        Keeps-bind _ _ _ (Keeps-query _ (io 4) _) λ (admins : ℕ).
          Keeps-bind _ _ _ (Keeps-require _ _ _)
            λ _. Keeps-statement _ (io 5) _ (update_member_role-Keeps entry.id role valid))

pub add-IsAtomic :
    (parse : Text → Option FeedRef) (io : Faults) (key : FeedRef) (role : Role)
    → IsAtomic (add parse io key role)
unfolding add
add-IsAtomic parse io key role = transact-IsAtomic io _

pub remove_feed-IsAtomic : (io : Faults) (key : FeedRef) → IsAtomic (remove_feed io key)
unfolding remove_feed
remove_feed-IsAtomic io key = IsAtomic-bind _ _ (query-IsRead (io 0) _) λ (row : Option MemberRow).
    IsAtomic-bind _ _ (found-IsRead row _)
      λ (entry : MemberRow). statement-IsAtomic (io 1) _ (delete_member-IsAtomic entry.id)

pub remove_id-IsAtomic : (io : Faults) (id : ℕ) → IsAtomic (remove_id io id)
unfolding remove_id
remove_id-IsAtomic io id = IsAtomic-bind _ _ (query-IsRead (io 0) _) λ (row : Option MemberRow).
    IsAtomic-bind _ _ (found-IsRead row _)
      λ (entry : MemberRow). statement-IsAtomic (io 1) _ (delete_member-IsAtomic entry.id)

pub set_role-IsAtomic : (io : Faults) (id : ℕ) (role : Role) → IsAtomic (set_role io id role)
unfolding set_role
set_role-IsAtomic io id role =
    IsAtomic-bind _ _ (check-IsRead (check_role role)) λ _. transact-IsAtomic io _
