-- ===== src/Sqlite/Aliases/Laws.antt =====
-- roomdb/sqlite/aliases.go: which member a name stands for.
use go_ssb_room.Base.{
  ◌≡◌, true, false, some, [], ◌∷◌, ◌++◌, Text, text_eq_iff, text_eq_refl, arith, Option-cases, inl,
  inr,
}
use go_ssb_room.Roomdb.{FeedRef, not_found, alias_taken, ok, err}
use go_ssb_room.Sqlite.Rows.{
  select_one, exists, select_one-passes, select_one-append, select_one-none,
}
use go_ssb_room.Sqlite.Select.{select_one-by_id, exists-deleted_by_id}
use go_ssb_room.Sqlite.Db.{MemberRow, AliasRow, Db, Faults, reliable, on_unique, transact, conclude}
use go_ssb_room.Sqlite.Schema.{has_id, has_key, insert_alias, delete_alias}
use go_ssb_room.Sqlite.Invariant.{IsWellFormed}
use go_ssb_room.Sqlite.Aliases.{has_name, find_one, resolve, register, revoke}

-- What a successful Register found, and the row that it wrote.
register_effect :
    (io : Faults) (name : Text) (key : FeedRef) (sig : Text) (db : Db)
    → (register io name key sig db).0 ≡ ok tt
    → (m : MemberRow) × (select_one (has_key key) db.members ≡ some m)
      × (exists (has_name name) db.aliases ≡ false)
      × ((register io name key sig db).1.members ≡ db.members)
      × ((register io name key sig db).1.aliases
          ≡ db.aliases
            ++ record { id = db.next_alias; name = name; member_id = m.id; signature = sig } ∷ [])
unfolding register transact conclude on_unique insert_alias
register_effect io name key sig db h = elim (Option-cases (select_one (has_key key) db.members)) [
  | inl e ↦ absurd (ground arith)
  | inr (m, e) ↦ (m, e, ground arith, ground arith, ground arith)
]

-- In a well-formed database, a name whose Register succeeded resolves to the key and the signature
-- it was registered with, under the next id, where the engine refuses nothing in that read.
pub register-resolve :
    (io : Faults) (name : Text) (key : FeedRef) (sig : Text) (db : Db)
    → IsWellFormed db
    → (register io name key sig db).0 ≡ ok tt
    → (resolve reliable name (register io name key sig db).1).0
      ≡ ok (record { id = db.next_alias; name = name; feed = key; signature = sig })
unfolding resolve find_one
register-resolve io name key sig db w h =
    let (m, owner, free, same, rows) = register_effect io name key sig db h in
    let row : AliasRow = record {
      id = db.next_alias;
      name = name;
      member_id = m.id;
      signature = sig;
    } in
    let keyed : m.pub_key ≡ key =
      (text_eq_iff m.pub_key key).0 (select_one-passes (has_key key) db.members m owner) in
    let there : select_one (has_id m.id) db.members ≡ some m =
      select_one-by_id (λ (n : MemberRow). n.id) (has_key key) db.members m w.members.ids owner in
    ground (arith, select_one-append (has_name name) db.aliases row free (text_eq_refl name))

-- Where the engine refuses nothing, a member's Register of a name that is taken is refused by an
-- error that names it, and nothing changes.
pub register_taken :
    (name : Text) (key : FeedRef) (sig : Text) (m : MemberRow) (db : Db)
    → select_one (has_key key) db.members ≡ some m
    → exists (has_name name) db.aliases ≡ true
    → register reliable name key sig db ≡ (err (alias_taken name), db)
unfolding register transact conclude on_unique insert_alias
register_taken name key sig m db e taken = ground arith

-- What a successful Revoke found and wrote.
revoke_effect :
    (io : Faults) (name : Text) (db : Db)
    → (revoke io name db).0 ≡ ok tt
    → (a : AliasRow) × (select_one (has_name name) db.aliases ≡ some a)
      × ((revoke io name db).1 ≡ (delete_alias a.id db).1)
unfolding revoke transact conclude delete_alias
revoke_effect io name db h = elim (Option-cases (select_one (has_name name) db.aliases)) [
  | inl e ↦ absurd (ground arith)
  | inr (a, e) ↦ (a, e, ground arith)
]

-- In a well-formed database, a name whose Revoke succeeded is not found by Resolve, where the
-- engine refuses nothing in that read.
pub revoke-resolve :
    (io : Faults) (name : Text) (db : Db)
    → IsWellFormed db
    → (revoke io name db).0 ≡ ok tt
    → (resolve reliable name (revoke io name db).1).0 ≡ err not_found
unfolding resolve find_one delete_alias
revoke-resolve io name db w h =
    let (a, chosen, effect) = revoke_effect io name db h in
    let gone =
      exists-deleted_by_id (λ (x : AliasRow). x.id) (λ x. x.name) (has_name name) name db.aliases a
        (λ x k. (text_eq_iff x.name name).0 k) w.aliases.keys chosen in
    rw effect (ground (arith, select_one-none (has_name name) _ gone))
