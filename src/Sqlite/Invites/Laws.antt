-- ===== src/Sqlite/Invites/Laws.antt =====
-- roomdb/sqlite/invites.go: an invite that was made is found by its token, admits one key, and is
-- spent.
use go_ssb_room.Base.{
  ◌≡◌, refl, Bool, true, false, some, List, [], ◌∷◌, ◌==◌, Text, text_eq_iff, text_eq_refl, arith,
  Bool-cases, Option-cases, inl, inr,
}
use go_ssb_room.Roomdb.{FeedRef, role_member, not_found, check_role, ok, err, Result-cases}
use go_ssb_room.Sqlite.Rows.{
  Distinct, select_one, update_all, exists, select_one-none, exists-append, exists_singleton,
}
use go_ssb_room.Sqlite.Select.{exists-closed_by_id}
use go_ssb_room.Sqlite.Db.{
  MemberRow, InviteRow, Db, Faults, reliable, transact, conclude, on_unique,
}
use go_ssb_room.Sqlite.Schema.{has_key, insert_member, close_invite}
use go_ssb_room.Sqlite.Tokens.{Codec, get_hashed_token}
use go_ssb_room.Sqlite.Invariant.{IsWellFormed}
use go_ssb_room.Sqlite.Members.{add_member}
use go_ssb_room.Sqlite.Invites.{Invite, is_open_token, creator_of, admit, consume, get_by_token}

-- What a successful Consume found, and the writes that it made.
consume_effect :
    (c : Codec) (io : Faults) (token : Text) (key : FeedRef) (db : Db) (inv : Invite)
    → (consume c io token key db).0 ≡ ok inv
    → (hash : Text) × (entry : InviteRow) × (get_hashed_token c token ≡ ok hash)
      × (select_one (is_open_token hash) db.invites ≡ some entry)
      × ((admit c (io 5) key db).0 ≡ ok tt)
      × ((consume c io token key db).1 ≡ (close_invite entry.id (admit c (io 5) key db).1).1)
unfolding consume close_invite transact conclude
consume_effect c io token key db inv h = elim (Result-cases (get_hashed_token c token)) [
  | inr (x, e) ↦ absurd (ground arith)
  | inl (hash, e) ↦ elim (Option-cases (select_one (is_open_token hash) db.invites)) [
    | inl e' ↦ absurd (ground arith)
    | inr (entry, e') ↦ elim (Option-cases (creator_of entry db)) [
      | inl e'' ↦ absurd (ground arith)
      | inr (m, e'') ↦ (hash, entry, e, e', ground arith, ground arith)
    ]
  ]
]

-- The invite that was found is the only one with its hash, so closing it leaves none open.
closed :
    (hash : Text) (rows : List InviteRow) (entry : InviteRow)
    → Distinct (λ (i : InviteRow). i.hashed_token) rows
    → select_one (is_open_token hash) rows ≡ some entry
    → exists
        (is_open_token hash)
        (update_all (λ (i : InviteRow). i.id == entry.id) (λ i. record i { active = false }) rows)
      ≡ false
closed hash rows entry d h =
    exists-closed_by_id (λ (i : InviteRow). i.id) (λ i. i.hashed_token) (is_open_token hash)
      (λ i. record i { active = false }) hash rows entry
      (λ i e. ground (arith, text_eq_iff i.hashed_token hash)) (λ i. refl) d h

-- What admitting a key does to the tables that an invite touches.
admit_effect :
    (c : Codec) (b : Bool) (key : FeedRef) (db : Db)
    → (admit c b key db).0 ≡ ok tt
    → (exists (has_key key) (admit c b key db).1.members ≡ true)
      × ((admit c b key db).1.invites ≡ db.invites)
unfolding admit add_member on_unique insert_member check_role
admit_effect c b key db h = elim (Bool-cases (exists (has_key key) db.members)) [
  | inl there ↦ ground arith
  | inr free ↦
      let row : MemberRow = record { id = db.next_member; role = role_member; pub_key = key } in
      ground (
        arith,
        exists-append (has_key key) db.members (row ∷ []),
        exists_singleton (has_key key) row,
        text_eq_refl key,
      )
]

not_found_again :
    (c : Codec) (token hash : Text) (db : Db)
    → get_hashed_token c token ≡ ok hash
    → exists (is_open_token hash) db.invites ≡ false
    → (get_by_token c reliable token db).0 ≡ err not_found
unfolding get_by_token
not_found_again c token hash db e spent =
    ground (arith, select_one-none (is_open_token hash) db.invites spent)

not_consumed_again :
    (c : Codec) (token : Text) (key : FeedRef) (hash : Text) (db : Db)
    → get_hashed_token c token ≡ ok hash
    → exists (is_open_token hash) db.invites ≡ false
    → consume c reliable token key db ≡ (err not_found, db)
unfolding consume transact conclude
not_consumed_again c token key hash db e spent =
    ground (arith, select_one-none (is_open_token hash) db.invites spent)

-- In a well-formed database, a Consume that succeeds makes the key a member and spends the invite:
-- where the engine refuses nothing, GetByToken does not find the token again, and Consume refuses
-- it for every key, changing nothing.
pub consume_spends :
    (c : Codec) (io : Faults) (token : Text) (key : FeedRef) (db : Db) (inv : Invite)
    → IsWellFormed db
    → (consume c io token key db).0 ≡ ok inv
    → let after = (consume c io token key db).1 in
      (exists (has_key key) after.members ≡ true)
      × ((get_by_token c reliable token after).0 ≡ err not_found)
      × ((other : FeedRef) → consume c reliable token other after ≡ (err not_found, after))
unfolding close_invite
consume_spends c io token key db inv w h =
    let (hash, entry, decoded, chosen, admitted, effect) = consume_effect c io token key db inv h in
    let (joined, same) = admit_effect c (io 5) key db admitted in
    let spent : exists (is_open_token hash) (consume c io token key db).1.invites ≡ false =
      rw effect (rw same (closed hash db.invites entry w.invites.keys chosen)) in
    (
      rw effect joined,
      not_found_again c token hash (consume c io token key db).1 decoded spent,
      λ other. not_consumed_again c token other hash (consume c io token key db).1 decoded spent,
    )
