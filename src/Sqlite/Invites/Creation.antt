-- ===== src/Sqlite/Invites/Creation.antt =====
-- roomdb/sqlite/invites.go: the token that Create gives is good for one Consume.
use go_ssb_room.Base.{
  ℕ, zero, suc, ◌+◌, ◌≡◌, refl, Bool, true, false, some, List, [], ◌∷◌, ◌++◌, Text, text_eq,
  text_eq_refl, length, arith, Bool-cases, inl, inr, ==_iff,
}
use go_ssb_room.Roomdb.{FeedRef, unique_violation, check_role, ok, Result-cases}
use go_ssb_room.Sqlite.Rows.{select_one, exists, select_one-passes, select_one-append}
use go_ssb_room.Sqlite.Select.{exists-select_one}
use go_ssb_room.Sqlite.Db.{
  MemberRow, InviteRow, Db, Faults, reliable, statement, transact, conclude, on_unique,
}
use go_ssb_room.Sqlite.Schema.{
  has_id, has_key, is_member, insert_invite, insert_member, close_invite,
}
use go_ssb_room.Sqlite.Tokens.{Codec, invite_token_length, get_hashed_token, hash_of_length}
use go_ssb_room.Sqlite.Members.{add_member}
use go_ssb_room.Sqlite.Invites.{
  Invite, member, create_attempts, resolve_creator, create, is_open_token, creator_of, brief, admit,
  consume, get_by_token,
}

abbrev pub is_hash : Text → InviteRow → Bool
is_hash hash i = text_eq i.hashed_token hash

module _ (c : Codec) (io : Faults) (creator now : ℕ) where
  -- What the loop of Create inserts when it succeeds.
  create_attempts_effect :
      (random : ℕ → Text) (tries : ℕ) (db : Db) (bytes : Text)
      → (create_attempts c random io creator now tries db).0 ≡ ok bytes
      → (k : ℕ) × (bytes ≡ random k)
        × (exists (is_hash (c.sha256 bytes)) db.invites ≡ false)
        × (is_member creator db ≡ true)
        × ((create_attempts c random io creator now tries db).1 ≡ record db {
          invites =
              db.invites
              ++ record {
                id = db.next_invite;
                hashed_token = c.sha256 bytes;
                created_by = creator;
                created_at = now;
                active = true;
              }
                ∷ [];
          next_invite = db.next_invite + 1;
        })
  unfolding create_attempts insert_invite
  create_attempts_effect random zero db bytes h = absurd (ground arith)
  create_attempts_effect random (suc tries) db bytes h =
      elim (Result-cases
        (statement (io (tries + 5)) (insert_invite (c.sha256 (random tries)) creator now) db).0) [
          | inl (id, e) ↦ (tries, ground arith, ground arith, ground arith, ground arith)
          | inr (unique_violation, e) ↦
              let (k, drawn, free, there, after) =
                create_attempts_effect random tries db bytes (ground arith) in
              (k, drawn, free, there, ground (arith, after))
          | inr (x, e) ↦ absurd (ground arith)
        ]

  -- What a successful Create by a member inserted.
  create_effect :
      (random : ℕ → Text) (db : Db) (token : Text)
      → (create c random io (member creator) now db).0 ≡ ok token
      → (bytes : Text) × (k : ℕ) × (token ≡ c.encode bytes)
        × (bytes ≡ random k)
        × (exists (is_hash (c.sha256 bytes)) db.invites ≡ false)
        × (is_member creator db ≡ true)
        × ((create c random io (member creator) now db).1 ≡ record db {
          invites =
              db.invites
              ++ record {
                id = db.next_invite;
                hashed_token = c.sha256 bytes;
                created_by = creator;
                created_at = now;
                active = true;
              }
                ∷ [];
          next_invite = db.next_invite + 1;
        })
  unfolding create resolve_creator transact conclude
  create_effect random db token h =
      elim (Result-cases (create_attempts c random io creator now 100 db).0) [
        | inr (x, e) ↦ absurd (ground arith)
        | inl (bytes, e) ↦
            let (k, drawn, free, there, after) = create_attempts_effect random 100 db bytes e in
            (bytes, k, ground arith, drawn, free, there, ground (arith, after))
      ]

not_open :
    (hash : Text) (rows : List InviteRow)
    → exists (is_hash hash) rows ≡ false
    → exists (is_open_token hash) rows ≡ false
unfolding exists
not_open hash [] h = refl
not_open hash (i ∷ rows) h = ground (arith, not_open hash rows)

admit_runs :
    (c : Codec) (key parsed : FeedRef) (db : Db)
    → c.parse key ≡ some parsed
    → (admit c false key db).0 ≡ ok tt
unfolding admit add_member on_unique insert_member check_role
admit_runs c key parsed db h = elim (Bool-cases (exists (has_key key) db.members)) [
  | inl there ↦ ground (arith, text_eq_refl key)
  | inr free ↦ ground arith
]

-- A Consume that meets an open invite, its creator, and a key that can be admitted, succeeds.
consume_runs :
    (c : Codec) (token hash : Text) (key : FeedRef) (db : Db) (entry : InviteRow) (m : MemberRow)
    → get_hashed_token c token ≡ ok hash
    → select_one (is_open_token hash) db.invites ≡ some entry
    → creator_of entry db ≡ some m
    → (admit c false key db).0 ≡ ok tt
    → (consume c reliable token key db).0 ≡ ok (brief entry m)
unfolding consume transact conclude close_invite
consume_runs c token hash key db entry m e chosen owner admitted = ground arith

-- Where decoding undoes encoding, every draw has the right length, and a key parses: after a Create
-- by a member that succeeds, GetByToken finds an invite by the token, with the next id and that
-- creator, and Consume of the token by the key succeeds with the same invite, the engine refusing
-- nothing in these two.
pub create-consume :
    (c : Codec) (random : ℕ → Text) (io : Faults) (creator now : ℕ) (token : Text)
    (key parsed : FeedRef) (db : Db)
    → ((bytes : Text) → c.decode (c.encode bytes) ≡ some bytes)
    → ((k : ℕ) → length (random k) ≡ invite_token_length)
    → c.parse key ≡ some parsed
    → (create c random io (member creator) now db).0 ≡ ok token
    → let after = (create c random io (member creator) now db).1 in
      (inv : Invite) × (inv.id ≡ db.next_invite)
      × (inv.created_by.id ≡ creator)
      × ((get_by_token c reliable token after).0 ≡ ok inv)
      × ((consume c reliable token key after).0 ≡ ok inv)
unfolding get_by_token get_hashed_token hash_of_length brief
create-consume c random io creator now token key parsed db undo sized parses h =
    let (bytes, k, encoded, drawn, free, there, effect) =
      create_effect c io creator now random db token h in
    let after : Db = (create c random io (member creator) now db).1 in
    let row : InviteRow = record {
      id = db.next_invite;
      hashed_token = c.sha256 bytes;
      created_by = creator;
      created_at = now;
      active = true;
    } in
    let (m, owner) = exists-select_one (has_id creator) db.members there in
    let chosen =
      select_one-append (is_open_token (c.sha256 bytes)) db.invites row
        (not_open (c.sha256 bytes) db.invites free) (text_eq_refl (c.sha256 bytes)) in
    let decoded : c.decode token ≡ some bytes = ground (arith, undo bytes) in
    let right : length bytes ≡ 50 = ground (arith, sized k) in
    let admitted = admit_runs c key parsed after parses in
    let members_kept : after.members ≡ db.members = rw effect refl in
    let invites_grown : after.invites ≡ db.invites ++ row ∷ [] = rw effect refl in
    let named : m.id ≡ creator =
      (==_iff m.id creator).0 (select_one-passes (has_id creator) db.members m owner) in
    let opened : select_one (is_open_token (c.sha256 bytes)) after.invites ≡ some row =
      rw invites_grown chosen in
    let owned : creator_of row after ≡ some m = rw members_kept owner in
    let hashed : get_hashed_token c token ≡ ok (c.sha256 bytes) = ground arith in
    (
      brief row m,
      refl,
      named,
      ground arith,
      consume_runs c token (c.sha256 bytes) key after row m hashed opened owned admitted,
    )
