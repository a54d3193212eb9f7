-- ===== src/Sqlite/Sessions/Laws.antt =====
-- roomdb/sqlite/auth_withssb.go: which tokens sign a member in, and for how long.
use go_ssb_room.Base.{
  ℕ, zero, suc, ◌+◌, ◌-◌, ◌≤◌, ◌≡◌, Bool, false, some, [], ◌∷◌, ◌++◌, ◌==◌, Text, text_eq_refl,
  arith, Bool-cases, Option-cases, inl, inr,
}
use go_ssb_room.Roomdb.{ok, Result-cases}
use go_ssb_room.Sqlite.Rows.{select_one, delete_all, exists, exists-delete_self, select_one-append}
use go_ssb_room.Sqlite.Select.{select_one-delete_kept}
use go_ssb_room.Sqlite.Db.{SessionRow, Db, Faults, reliable, transact, conclude}
use go_ssb_room.Sqlite.Schema.{has_id, insert_session, delete_sessions}
use go_ssb_room.Sqlite.Sessions.{
  session_timeout, has_token, token_attempts, create_token, is_expired, check_age, check_token,
  wipe_tokens, is_stale, delete_expired_sessions,
}
use go_ssb_room.Sqlite.Sessions.Invariant.{check_token-IsAtomic}

-- What a successful CheckToken found.
check_token_effect :
    (io : Faults) (token : Text) (now member : ℕ) (db : Db)
    → (check_token io token now db).0 ≡ ok member
    → (s : SessionRow) × (select_one (has_token token) db.sessions ≡ some s)
      × (is_expired now s ≡ false)
      × (s.member_id ≡ member)
      × ((check_token io token now db).1 ≡ db)
unfolding check_token check_age transact conclude
check_token_effect io token now member db h =
    elim (Option-cases (select_one (has_token token) db.sessions)) [
      | inl e ↦ absurd (ground arith)
      | inr (s, e) ↦ elim (Bool-cases (is_expired now s)) [
        | inl old ↦ absurd (ground arith)
        | inr young ↦ (s, e, young, ground arith, ground arith)
      ]
    ]

-- Where CheckToken accepts a token, the first session with it is of the member that it gives, and
-- is at most one day old.
pub check_token_lem :
    (io : Faults) (token : Text) (now member : ℕ) (db : Db)
    → (check_token io token now db).0 ≡ ok member
    → (s : SessionRow) × (select_one (has_token token) db.sessions ≡ some s)
      × (s.member_id ≡ member)
      × (now - s.created_at ≤ session_timeout)
check_token_lem io token now member db h =
    let (s, chosen, young, same, kept) = check_token_effect io token now member db h in
    (s, chosen, same, ground arith)

-- CheckToken, however it ends, never changes the database: where the session is too old, the DELETE
-- is rolled back by the error that reports it.
pub check_token_unchanged :
    (io : Faults) (token : Text) (now : ℕ) (db : Db) → (check_token io token now db).1 ≡ db
check_token_unchanged io token now db = elim (Result-cases (check_token io token now db).0) [
  | inl (m, e) ↦ let (s, chosen, young, same, kept) = check_token_effect io token now m db e in kept
  | inr (x, e) ↦ (check_token-IsAtomic io token now).apply db x e
]

-- What the loop of CreateToken inserts when it succeeds.
token_attempts_effect :
    (random : ℕ → Text) (io : Faults) (member now tries : ℕ) (db : Db) (token : Text)
    → (token_attempts random io member now tries db).0 ≡ ok token
    → (exists (has_token token) db.sessions ≡ false)
      × ((token_attempts random io member now tries db).1.sessions
          ≡ db.sessions
            ++ record { id = db.next_session; token = token; member_id = member; created_at = now }
              ∷ [])
unfolding token_attempts insert_session
token_attempts_effect random io member now zero db token h = absurd (ground arith)
token_attempts_effect random io member now (suc tries) db token h =
    ground (arith, token_attempts_effect random io member now tries db token)

-- A token that CreateToken gave is accepted for its member by CheckToken until a day later, where
-- the engine refuses nothing in that check.
pub create_token-check_token :
    (random : ℕ → Text) (io : Faults) (member now later : ℕ) (db : Db) (token : Text)
    → (create_token random io member now db).0 ≡ ok token
    → later ≤ now + session_timeout
    → (check_token reliable token later (create_token random io member now db).1).0 ≡ ok member
unfolding create_token check_token check_age transact conclude
create_token-check_token random io member now later db token h l =
    elim (Option-cases (select_one (has_id member) db.members)) [
      | inl e ↦ absurd (ground arith)
      | inr (m, e) ↦
          let inner : (token_attempts random io member now 100 db).0 ≡ ok token = ground arith in
          let row : SessionRow = record {
            id = db.next_session;
            token = token;
            member_id = member;
            created_at = now;
          } in
          let (fresh, rows) = token_attempts_effect random io member now 100 db token inner in
          ground
            (arith, select_one-append (has_token token) db.sessions row fresh (text_eq_refl token))
    ]

-- After a WipeTokensForMember that succeeds no session of the member is left, and a token that
-- found a session of somebody else still finds it.
wipe_tokens_lem :
    (io : Faults) (member : ℕ) (db : Db)
    → (wipe_tokens io member db).0 ≡ ok tt
    → let after = (wipe_tokens io member db).1 in
      (exists (λ (s : SessionRow). s.member_id == member) after.sessions ≡ false)
      × ((token : Text) (s : SessionRow)
          → select_one (has_token token) db.sessions ≡ some s
          → (s.member_id == member) ≡ false
          → select_one (has_token token) after.sessions ≡ some s)
unfolding wipe_tokens delete_sessions transact conclude
wipe_tokens_lem io member db h =
    let mine : SessionRow → Bool = λ s. s.member_id == member in
    let effect : (wipe_tokens io member db).1.sessions ≡ delete_all mine db.sessions =
      ground arith in
    (
      rw effect (exists-delete_self mine db.sessions),
      λ token s e k. rw effect (select_one-delete_kept (has_token token) mine db.sessions s e k),
    )

stale-expired : (now : ℕ) (s : SessionRow) → is_expired now s ≡ false → is_stale now s ≡ false
stale-expired now s h = ground arith

-- Where CheckToken accepts a token, it still does after the clean up of old sessions at that time.
pub delete_expired_sessions-check_token :
    (io : Faults) (b : Bool) (token : Text) (now member : ℕ) (db : Db)
    → (check_token io token now db).0 ≡ ok member
    → (check_token io token now (delete_expired_sessions b now db).1).0 ≡ ok member
unfolding check_token check_age transact conclude delete_expired_sessions delete_sessions
delete_expired_sessions-check_token io b token now member db h =
    let (s, chosen, young, same, kept) = check_token_effect io token now member db h in
    ground (
      arith,
      select_one-delete_kept (has_token token) (is_stale now) db.sessions s chosen
          (stale-expired now s young),
    )
