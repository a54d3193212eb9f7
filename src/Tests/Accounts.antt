-- ===== src/Tests/Accounts.antt =====
-- The theorems on aliases, denied keys, settings, sessions and passwords, on the small room.
use go_ssb_room.Base.{
  ℕ, ◌≡◌, refl, true, false, some, [], ◌∷◌, Text, text_eq, text_eq_refl, codes, arith,
}
use go_ssb_room.Roomdb.{ok}
use go_ssb_room.Sqlite.Rows.{exists, select_one}
use go_ssb_room.Sqlite.Db.{reliable, transact, conclude}
use go_ssb_room.Sqlite.Schema.{insert_session, update_password}
use go_ssb_room.Sqlite.Sessions.{
  token_attempts, create_token, check_token, check_age, delete_expired_sessions,
}
use go_ssb_room.Sqlite.Sessions.Laws as SessionsLaws
use go_ssb_room.Sqlite.Fallback.{
  alias_or_key, login_member, check_login, set_password, upsert_password, write_password,
}
use go_ssb_room.Sqlite.Fallback.Laws as FallbackLaws
use go_ssb_room.Tests.{plain, world}

check_token_runs : (check_token reliable (codes "s") 150000 world).0 ≡ ok 2
unfolding check_token check_age transact conclude select_one text_eq
check_token_runs = refl

abbrev fresh : ℕ → Text
fresh n = n ∷ []

create_token_runs : (create_token fresh reliable 2 200000 world).0 ≡ ok (99 ∷ [])
unfolding create_token token_attempts transact conclude insert_session select_one exists text_eq
create_token_runs = refl

create_token-check_token_example :
    (check_token reliable (99 ∷ []) 250000 (create_token fresh reliable 2 200000 world).1).0 ≡ ok 2
create_token-check_token_example =
    SessionsLaws.create_token-check_token fresh reliable 2 200000 250000 world (99 ∷ [])
      create_token_runs (omega arith)

delete_expired_sessions-check_token_example :
    (check_token reliable (codes "s") 150000 (delete_expired_sessions false 150000 world).1).0
    ≡ ok 2
delete_expired_sessions-check_token_example =
    SessionsLaws.delete_expired_sessions-check_token reliable false (codes "s") 150000 2 world
      check_token_runs

set_password_runs : (set_password plain reliable 2 (codes "new") world).0 ≡ ok tt
unfolding set_password upsert_password write_password transact conclude update_password select_one
set_password_runs = refl

bob_logs_in :
    (login_member reliable (codes "bob") (set_password plain reliable 2 (codes "new") world).1).0
    ≡ ok 2
unfolding login_member alias_or_key set_password upsert_password write_password transact conclude
    update_password select_one text_eq
bob_logs_in = refl

plain_sound : (text hash : Text) → plain.bcrypt text ≡ some hash → plain.matches hash text ≡ true
plain_sound text hash h = ground (arith, text_eq_refl hash)

set_password-check_login_example :
    let after = (set_password plain reliable 2 (codes "new") world).1 in
    ((check_login plain reliable (codes "bob") (codes "new") after).0 ≡ ok 2)
    × ((check_login plain reliable (codes "bob") (codes "old") after).0 ≡ ok 2
        → (hash : Text) × (plain.bcrypt (codes "new") ≡ some hash)
          × (plain.matches hash (codes "old") ≡ true))
set_password-check_login_example =
    FallbackLaws.set_password-check_login plain reliable 2 (codes "bob") (codes "new") (codes "old")
      world plain_sound set_password_runs bob_logs_in
