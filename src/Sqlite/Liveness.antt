-- ===== src/Sqlite/Liveness.antt =====
-- The loops of roomdb/sqlite that draw random tokens until one is unused: one unused draw is enough.
use go_ssb_room.Base.{
  ℕ, zero, suc, ◌<◌, ◌≡◌, ◌≢◌, true, false, Text, text_eq, arith, Bool-cases, inl, inr,
}
use go_ssb_room.Roomdb.{ok}
use go_ssb_room.Sqlite.Rows.{exists}
use go_ssb_room.Sqlite.Select.{exists-select_one}
use go_ssb_room.Sqlite.Db.{InviteRow, Db, reliable, transact, conclude}
use go_ssb_room.Sqlite.Schema.{has_id, is_member, insert_session, insert_invite}
use go_ssb_room.Sqlite.Tokens.{Codec}
use go_ssb_room.Sqlite.Sessions.{has_token, token_attempts, create_token}
use go_ssb_room.Sqlite.Invites.{Creator, create_attempts, resolve_creator, create}

token_attempts_live :
    (random : ℕ → Text) (member now k tries : ℕ) (db : Db)
    → is_member member db ≡ true
    → k < tries
    → exists (has_token (random k)) db.sessions ≡ false
    → (token : Text) × ((token_attempts random reliable member now tries db).0 ≡ ok token)
unfolding token_attempts insert_session
token_attempts_live random member now k zero db there early free = absurd (omega arith)
token_attempts_live random member now k (suc tries) db there early free =
    elim (Bool-cases (exists (has_token (random tries)) db.sessions)) [
      | inr e ↦ (random tries, ground arith)
      | inl e ↦
          let other : k ≢ tries = λ same. ground (arith, rw same at free) in
          let (token, h) =
            token_attempts_live random member now k tries db there (omega (arith, other)) free in
          (token, ground arith)
    ]

create_attempts_live :
    (c : Codec) (random : ℕ → Text) (creator now k tries : ℕ) (db : Db)
    → is_member creator db ≡ true
    → k < tries
    → exists (λ (i : InviteRow). text_eq i.hashed_token (c.sha256 (random k))) db.invites ≡ false
    → (token : Text) × ((create_attempts c random reliable creator now tries db).0 ≡ ok token)
unfolding create_attempts insert_invite
create_attempts_live c random creator now k zero db there early free = absurd (omega arith)
create_attempts_live c random creator now k (suc tries) db there early free =
    elim (Bool-cases
      (exists (λ (i : InviteRow). text_eq i.hashed_token (c.sha256 (random tries))) db.invites)) [
        | inr e ↦ (random tries, ground arith)
        | inl e ↦
            let other : k ≢ tries = λ same. ground (arith, rw same at free) in
            let (token, h) =
              create_attempts_live c random creator now k tries db there (omega (arith, other))
                free in
            (token, ground arith)
      ]

-- Where the engine refuses nothing and the member is there, CreateToken gives a token as soon as one
-- of its hundred draws is unused; and so does Create of an invite, for hashes of draws.
pub create_tokens_live :
    (c : Codec) (random : ℕ → Text) (member now k l : ℕ) (db : Db)
    → is_member member db ≡ true
    → k < 100
    → exists (has_token (random k)) db.sessions ≡ false
    → l < 100
    → exists (λ (i : InviteRow). text_eq i.hashed_token (c.sha256 (random l))) db.invites ≡ false
    → ((token : Text) × ((create_token random reliable member now db).0 ≡ ok token))
      × ((token : Text) × ((create c random reliable (Creator.member member) now db).0 ≡ ok token))
unfolding create_token create resolve_creator transact conclude
create_tokens_live c random member now k l db there few free few' free' =
    let (m, found) = exists-select_one (has_id member) db.members there in
    let (token, h) = token_attempts_live random member now k 100 db there few free in
    let (bytes, h') = create_attempts_live c random member now l 100 db there few' free' in
    ((token, ground arith), (c.encode bytes, ground arith))
