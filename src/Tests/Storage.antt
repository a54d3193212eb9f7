-- ===== src/Tests/Storage.antt =====
-- The theorems on roomdb, on the small room.
use go_ssb_room.Base.{◌≡◌, refl, true, false, List, [], ◌∷◌, ◌==◌, ◌||◌, text_eq}
use go_ssb_room.Roomdb.{FeedRef, role_member, role_admin, not_found, ok, err, check_role}
use go_ssb_room.Sqlite.Rows.{exists, select_one}
use go_ssb_room.Sqlite.Db.{
  AliasRow, InviteRow, SessionRow, PasswordRow, ResetRow, Faults, reliable, transact, conclude,
  on_unique,
}
use go_ssb_room.Sqlite.Schema.{has_key, is_member, insert_member, close_invite, delete_member}
use go_ssb_room.Sqlite.Tokens.{get_hashed_token, hash_of_length}
use go_ssb_room.Sqlite.Invariant.{IsWellFormed}
use go_ssb_room.Sqlite.Keeps.{IsAtomic}
use go_ssb_room.Sqlite.Members.{add_member, set_role, remove_id}
use go_ssb_room.Sqlite.Members.Laws as MembersLaws
use go_ssb_room.Sqlite.Members.Laws.{HasAdmin}
use go_ssb_room.Sqlite.Invites.{Invite, consume, admit, get_by_token, brief}
use go_ssb_room.Sqlite.Invites.Laws as InvitesLaws
use go_ssb_room.Sqlite.Service.{Call, migrated, perform, run}
use go_ssb_room.Sqlite.Service.Laws as ServiceLaws
use go_ssb_room.Tests.{alice, dave, ticket, plain, world, world-IsWellFormed}

abbrev history : List (Faults × Call)
history =
    (reliable, Call.add_member alice role_admin)
    ∷ (reliable, Call.set_role 1 role_member)
    ∷ ((λ n. n == 1), Call.remove_member 1)
    ∷ []

run-IsWellFormed_example : IsWellFormed (run plain history migrated)
run-IsWellFormed_example = ServiceLaws.run-IsWellFormed plain history

perform-IsAtomic_example : IsAtomic (perform plain reliable (Call.consume_invite ticket dave))
perform-IsAtomic_example =
    ServiceLaws.perform-IsAtomic plain reliable (Call.consume_invite ticket dave)

world-HasAdmin : HasAdmin world
unfolding exists
world-HasAdmin = refl

set_role-HasAdmin_example : HasAdmin (set_role reliable 1 role_member world).1
set_role-HasAdmin_example =
    MembersLaws.set_role-HasAdmin reliable 1 role_member world world-HasAdmin

remove_id_runs : (remove_id reliable 2 world).0 ≡ ok tt
unfolding remove_id delete_member select_one
remove_id_runs = refl

remove_id_lem_example :
    let after = (remove_id reliable 2 world).1 in
    (is_member 2 world ≡ true)
    × (is_member 2 after ≡ false)
    × (exists (λ (a : AliasRow). a.member_id == 2) after.aliases ≡ false)
    × (exists (λ (i : InviteRow). i.created_by == 2) after.invites ≡ false)
    × (exists (λ (s : SessionRow). s.member_id == 2) after.sessions ≡ false)
    × (exists (λ (p : PasswordRow). p.member_id == 2) after.passwords ≡ false)
    × (exists (λ (t : ResetRow). (t.created_by == 2) || (t.for_member == 2)) after.reset_tokens
        ≡ false)
remove_id_lem_example = MembersLaws.remove_id_lem reliable 2 world remove_id_runs

abbrev alices_invite : Invite
alices_invite = record {
  id = 1;
  created_by = record { id = 1; role = role_admin; pub_key = []; aliases = [] };
  created_at = 10;
}

consume_runs : (consume plain reliable ticket dave world).0 ≡ ok alices_invite
unfolding consume transact conclude admit get_hashed_token hash_of_length add_member on_unique
    insert_member close_invite brief check_role select_one exists text_eq
consume_runs = refl

consume_spends_example :
    let after = (consume plain reliable ticket dave world).1 in
    (exists (has_key dave) after.members ≡ true)
    × ((get_by_token plain reliable ticket after).0 ≡ err not_found)
    × ((other : FeedRef) → consume plain reliable ticket other after ≡ (err not_found, after))
consume_spends_example =
    InvitesLaws.consume_spends plain reliable ticket dave world alices_invite world-IsWellFormed
      consume_runs
