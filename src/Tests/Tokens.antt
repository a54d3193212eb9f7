-- ===== src/Tests/Tokens.antt =====
-- The theorems on invites that are made and on reset tokens, on the small room.
use go_ssb_room.Base.{ℕ, ◌≡◌, refl, some, [], ◌∷◌, ◌++◌, Text, text_eq, codes}
use go_ssb_room.Roomdb.{reset_token_missing, ok, err}
use go_ssb_room.Sqlite.Rows.{exists, select_one}
use go_ssb_room.Sqlite.Db.{PasswordRow, ResetRow, reliable, transact, conclude}
use go_ssb_room.Sqlite.Schema.{insert_invite, update_password, close_reset}
use go_ssb_room.Sqlite.Tokens.{get_hashed_token, hash_of_length}
use go_ssb_room.Sqlite.Invites.{
  Invite, member, create_attempts, resolve_creator, create, get_by_token, consume,
}
use go_ssb_room.Sqlite.Invites.Creation as CreationLaws
use go_ssb_room.Sqlite.Fallback.{
  of_member, is_open_reset, write_password, upsert_password, hashed_or_invalid, hash_reset_token,
  set_password_with_token,
}
use go_ssb_room.Sqlite.Fallback.Resets as ResetsLaws
use go_ssb_room.Tests.{dave, ticket, plain, world, world-IsWellFormed}

abbrev five : Text
five = 8 ∷ 8 ∷ 8 ∷ 8 ∷ 8 ∷ []

abbrev twenty_five : Text
twenty_five = five ++ five ++ five ++ five ++ five

-- Another token of the right length, which every draw gives.
abbrev fresh : ℕ → Text
fresh n = twenty_five ++ twenty_five

create_runs : (create plain fresh reliable (member 1) 30 world).0 ≡ ok (twenty_five ++ twenty_five)
unfolding create resolve_creator create_attempts transact conclude insert_invite exists text_eq
create_runs = refl

create-consume_example :
    let after = (create plain fresh reliable (member 1) 30 world).1 in
    (inv : Invite) × (inv.id ≡ 2)
    × (inv.created_by.id ≡ 1)
    × ((get_by_token plain reliable (twenty_five ++ twenty_five) after).0 ≡ ok inv)
    × ((consume plain reliable (twenty_five ++ twenty_five) dave after).0 ≡ ok inv)
create-consume_example =
    CreationLaws.create-consume plain fresh reliable 1 30 (twenty_five ++ twenty_five) dave dave
      world (λ bytes. refl) (λ k. refl) refl create_runs

reset_runs : (set_password_with_token plain reliable ticket (codes "new") world).0 ≡ ok tt
unfolding set_password_with_token hash_reset_token hashed_or_invalid get_hashed_token hash_of_length
    upsert_password write_password transact conclude update_password close_reset select_one text_eq
reset_runs = refl

set_password_with_token_spends_example :
    let after = (set_password_with_token plain reliable ticket (codes "new") world).1 in
    (hashed : Text) × (entry : ResetRow) × (p : PasswordRow) × (get_hashed_token plain ticket
      ≡ ok hashed)
    × (select_one (is_open_reset hashed) world.reset_tokens ≡ some entry)
    × (select_one (of_member entry.for_member) after.passwords ≡ some p)
    × (plain.bcrypt (codes "new") ≡ some p.password_hash)
    × (set_password_with_token plain reliable ticket (codes "more") after
        ≡ (err reset_token_missing, after))
set_password_with_token_spends_example =
    ResetsLaws.set_password_with_token_spends plain reliable ticket (codes "new") (codes "more")
      (codes "more") world world-IsWellFormed reset_runs refl
