-- ===== src/Sqlite/Invites/Invariant.antt =====
-- roomdb/sqlite/invites.go keeps the invariant, and fails without a trace.
use go_ssb_room.Base.{ℕ, zero, suc, ◌+◌, ◌≡◌, refl, Text, Bool, text_eq, if◌then◌else◌}
use go_ssb_room.Roomdb.{FeedRef, role_member, Result, ok, err, already_added}
use go_ssb_room.Sqlite.Db.{Faults, Db, statement}
use go_ssb_room.Sqlite.Schema.{insert_invite}
use go_ssb_room.Sqlite.Tokens.{Codec, lift}
use go_ssb_room.Sqlite.Keeps.{
  Keeps, IsAtomic, IsRead, keeping, atomicity, Keeps-statement, Keeps-read, attempts_round,
}
use go_ssb_room.Sqlite.Invariant.{IsWellFormed}
use go_ssb_room.Sqlite.Invariant.Writes.{
  insert_invite-Keeps, close_invite-Keeps, delete_invites-Keeps,
}
use go_ssb_room.Sqlite.Members.{add_member}
use go_ssb_room.Sqlite.Members.Invariant.{add_member-Keeps}
use go_ssb_room.Sqlite.Invites.{
  Creator, visitor, member, create_attempts, resolve_creator, create, admit, consume, revoke,
  delete_consumed_invites,
}

attempts_kept :
    (c : Codec) (random : ℕ → Text) (io : Faults) (creator now tries : ℕ) (db : Db)
    → IsWellFormed db
    → IsWellFormed (create_attempts c random io creator now tries db).1
unfolding create_attempts
attempts_kept c random io creator now zero db w = w
attempts_kept c random io creator now (suc tries) db w =
    attempts_round IsWellFormed
      (statement (io (tries + 5)) (insert_invite (c.sha256 (random tries)) creator now) db) db
      (random tries) (create_attempts c random io creator now tries db) w
      ((Keeps-statement IsWellFormed (io (tries + 5)) _
          (insert_invite-Keeps (c.sha256 (random tries)) creator now)).apply
        db w)
      (attempts_kept c random io creator now tries db w)

create_attempts-Keeps :
    (c : Codec) (random : ℕ → Text) (io : Faults) (creator now tries : ℕ)
    → Keeps IsWellFormed (create_attempts c random io creator now tries)
create_attempts-Keeps c random io creator now tries = record {
  apply = attempts_kept c random io creator now tries;
}

resolve_creator-Keeps :
    (io : Faults) (creator : Creator) → Keeps IsWellFormed (resolve_creator io creator)
unfolding resolve_creator
resolve_creator-Keeps io (member id) = search keeping
resolve_creator-Keeps io visitor = search keeping depth 12

module _ (c : Codec) (random : ℕ → Text) (io : Faults) (creator : Creator) (now : ℕ) where
  pub create-Keeps : Keeps IsWellFormed (create c random io creator now)
  unfolding create
  create-Keeps = search (keeping, resolve_creator-Keeps, create_attempts-Keeps) depth 12

  pub create-IsAtomic : IsAtomic (create c random io creator now)
  unfolding create
  create-IsAtomic = search atomicity

-- Admitting a key ends in the database of `add`, however its result is read.
admit_same :
    (c : Codec) (b : Bool) (key : FeedRef) (db : Db)
    → (admit c b key db).1 ≡ (add_member c.parse b key role_member db).1
unfolding admit
admit_same c b key db = ended (add_member c.parse b key role_member db)
  where
    ended :
        (r : Result ℕ × Db)
        → (let out : Result (Unit {0}) × Db = elim r.0 [
          | ok id ↦ (ok tt, r.1)
          | err (already_added other) ↦
              (if text_eq other key then ok tt else err (already_added other), r.1)
          | err e ↦ (err e, r.1)
        ] in
            out).1
          ≡ r.1
    ended (ok id, db') = refl
    ended (err (already_added other), db') = refl
    ended (err e, db') = refl

admit-Keeps : (c : Codec) (b : Bool) (key : FeedRef) → Keeps IsWellFormed (admit c b key)
admit-Keeps c b key = record {
  apply =
      λ db w. rw (admit_same c b key db) ((add_member-Keeps c.parse b key role_member).apply db w);
}

pub lift-IsRead : {A : Type 0} (r : Result A) → IsRead (lift r)
lift-IsRead (ok a) = record { apply = λ db. refl }
lift-IsRead (err e) = record { apply = λ db. refl }

Keeps-lift : {A : Type 0} (r : Result A) → Keeps IsWellFormed (lift r)
Keeps-lift r = Keeps-read IsWellFormed (lift r) (lift-IsRead r)

module _ (c : Codec) (io : Faults) (token : Text) (key : FeedRef) where
  pub consume-Keeps : Keeps IsWellFormed (consume c io token key)
  unfolding consume
  consume-Keeps = search (keeping, Keeps-lift, admit-Keeps, close_invite-Keeps) depth 20

  pub consume-IsAtomic : IsAtomic (consume c io token key)
  unfolding consume
  consume-IsAtomic = search (atomicity, lift-IsRead) depth 12

pub revoke-Keeps : (io : Faults) (id : ℕ) → Keeps IsWellFormed (revoke io id)
unfolding revoke
revoke-Keeps io id = search (keeping, close_invite-Keeps) depth 12

pub revoke-IsAtomic : (io : Faults) (id : ℕ) → IsAtomic (revoke io id)
unfolding revoke
revoke-IsAtomic io id = search atomicity

pub delete_consumed_invites-Keeps : (b : Bool) → Keeps IsWellFormed (delete_consumed_invites b)
unfolding delete_consumed_invites
delete_consumed_invites-Keeps b = search (keeping, delete_invites-Keeps) depth 12
