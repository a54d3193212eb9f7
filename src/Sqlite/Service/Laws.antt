-- ===== src/Sqlite/Service/Laws.antt =====
-- What holds of the database whatever calls are made, and however they end.
use go_ssb_room.Base.{ℕ, List, [], ◌∷◌, arith}
use go_ssb_room.Roomdb.{check_mode}
use go_ssb_room.Sqlite.Rows.{exists}
use go_ssb_room.Sqlite.Db.{Faults, Db}
use go_ssb_room.Sqlite.Tokens.{Codec}
use go_ssb_room.Sqlite.Keeps.{Keeps, IsAtomic, keeping, atomicity}
use go_ssb_room.Sqlite.Invariant.{IsWellFormed}
use go_ssb_room.Sqlite.Members.Invariant as MembersInv
use go_ssb_room.Sqlite.Invites.Invariant as InvitesInv
use go_ssb_room.Sqlite.Aliases.Invariant as AliasesInv
use go_ssb_room.Sqlite.Denied.Invariant as DeniedInv
use go_ssb_room.Sqlite.Config.Invariant as ConfigInv
use go_ssb_room.Sqlite.Sessions.Invariant as SessionsInv
use go_ssb_room.Sqlite.Fallback.Invariant as FallbackInv
use go_ssb_room.Sqlite.Notices.Invariant as NoticesInv
use go_ssb_room.Sqlite.Service.{migrated, cleanup, Call, perform, run}

ruleset services_keep = (
  MembersInv.add-Keeps, MembersInv.remove_feed-Keeps, MembersInv.remove_id-Keeps,
  MembersInv.set_role-Keeps, InvitesInv.create-Keeps, InvitesInv.consume-Keeps,
  InvitesInv.revoke-Keeps, InvitesInv.delete_consumed_invites-Keeps, AliasesInv.register-Keeps,
  AliasesInv.revoke-Keeps, DeniedInv.add-Keeps, DeniedInv.remove_feed-Keeps,
  DeniedInv.remove_id-Keeps, ConfigInv.set_privacy_mode-Keeps, ConfigInv.set_default_language-Keeps,
  SessionsInv.create_token-Keeps, SessionsInv.check_token-Keeps, SessionsInv.remove_token-Keeps,
  SessionsInv.wipe_tokens-Keeps, SessionsInv.delete_expired_sessions-Keeps,
  FallbackInv.set_password-Keeps, FallbackInv.set_password_with_token-Keeps,
  FallbackInv.create_reset_token-Keeps, FallbackInv.delete_consumed_resets-Keeps,
  NoticesInv.save-Keeps, NoticesInv.remove_id-Keeps, NoticesInv.set-Keeps,
)

ruleset services_atomic = (
  MembersInv.remove_feed-IsAtomic, MembersInv.remove_id-IsAtomic, MembersInv.set_role-IsAtomic,
  MembersInv.add-IsAtomic, InvitesInv.create-IsAtomic, InvitesInv.consume-IsAtomic,
  InvitesInv.revoke-IsAtomic, AliasesInv.register-IsAtomic, AliasesInv.revoke-IsAtomic,
  DeniedInv.add-IsAtomic, DeniedInv.remove_feed-IsAtomic, DeniedInv.remove_id-IsAtomic,
  ConfigInv.set_privacy_mode-IsAtomic, ConfigInv.set_default_language-IsAtomic,
  SessionsInv.create_token-IsAtomic, SessionsInv.check_token-IsAtomic,
  SessionsInv.remove_token-IsAtomic, SessionsInv.wipe_tokens-IsAtomic,
  FallbackInv.set_password-IsAtomic, FallbackInv.set_password_with_token-IsAtomic,
  FallbackInv.create_reset_token-IsAtomic, NoticesInv.save-IsAtomic, NoticesInv.remove_id-IsAtomic,
  NoticesInv.set-IsAtomic,
)

cleanup-Keeps : (io : Faults) (n now : ℕ) → Keeps IsWellFormed (cleanup io n now)
unfolding cleanup
cleanup-Keeps io n now = search (keeping, services_keep) depth 12

-- Every call keeps the invariant, whatever the engine refuses.
pub perform-Keeps : (c : Codec) (io : Faults) (call : Call) → Keeps IsWellFormed (perform c io call)
unfolding perform
perform-Keeps c io (Call.remove_feed key) = search (keeping, services_keep) depth 8
perform-Keeps c io (Call.scrub now) = search (keeping, cleanup-Keeps) depth 8
perform-Keeps c io _ = search (keeping, services_keep) depth 8

-- A service call that returns an error leaves the database exactly as it found it.
pub perform-IsAtomic : (c : Codec) (io : Faults) (call : Call) → IsAtomic (perform c io call)
unfolding perform
perform-IsAtomic c io (Call.remove_feed key) = search (atomicity, services_atomic) depth 8
perform-IsAtomic c io _ = search (atomicity, services_atomic) depth 8

migrated-IsWellFormed : IsWellFormed migrated
unfolding check_mode exists
migrated-IsWellFormed = ground arith

run-keeps :
    (c : Codec) (calls : List (Faults × Call)) (db : Db)
    → IsWellFormed db
    → IsWellFormed (run c calls db)
unfolding run
run-keeps c [] db w = w
run-keeps c ((io, call) ∷ calls) db w = run-keeps c calls _ ((perform-Keeps c io call).apply db w)

-- From the migrated database, every history of service calls, each with its own refusals of the
-- engine, ends in a well-formed database.
pub run-IsWellFormed :
    (c : Codec) (calls : List (Faults × Call)) → IsWellFormed (run c calls migrated)
run-IsWellFormed c calls = run-keeps c calls migrated migrated-IsWellFormed
