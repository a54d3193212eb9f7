-- ===== src/Sqlite/Service.antt =====
-- The database as the rest of the room sees it: every call of the services that writes, as one
-- step, and `Open` and `cleanup` of roomdb/sqlite/new.go. A call carries what the world adds to
-- it: which statements the engine refuses, the time, and the random bytes.
pub mod Laws
use go_ssb_room.Base.{ℕ, zero, suc, ◌+◌, Bool, true, Option, some, List, [], ◌∷◌, Text, codes}
use go_ssb_room.Roomdb.{FeedRef, Role, PrivacyMode, mode_community, Result, ok, err}
use go_ssb_room.Sqlite.Notices
use go_ssb_room.Sqlite.Notices.{
  Notice, notice_description, notice_news, notice_code_of_conduct, notice_privacy_policy,
}
use go_ssb_room.Sqlite.Db.{NoticeRow, PinRow, Db, Faults, Action, done, ◌>>=◌, ◌>>◌, transact}
use go_ssb_room.Sqlite.Tokens.{Codec}
use go_ssb_room.Sqlite.Members
use go_ssb_room.Sqlite.Invites
use go_ssb_room.Sqlite.Invites.{Creator}
use go_ssb_room.Sqlite.Aliases
use go_ssb_room.Sqlite.Denied
use go_ssb_room.Sqlite.Config
use go_ssb_room.Sqlite.Sessions
use go_ssb_room.Sqlite.Fallback

-- What roomdb/sqlite/migrations/02-notices.sql inserts.
abbrev pub first_pins : List PinRow
first_pins =
    record { id = 1; name = notice_description }
    ∷ record { id = 2; name = notice_news }
    ∷ record { id = 3; name = notice_code_of_conduct }
    ∷ record { id = 4; name = notice_privacy_policy }
    ∷ []

abbrev english : Text
english = codes "en-GB"

abbrev german : Text
german = codes "de-DE"

abbrev pub first_notices : List NoticeRow
first_notices =
    record {
      id = 1;
      title = codes "Description";
      content = codes "Basic description of this Room.";
      language = english;
    }
    ∷ record {
      id = 2;
      title = codes "News";
      content = codes "Some recent updates...";
      language = english;
    }
    ∷ record {
      id = 3;
      title = codes "Code of conduct";
      content =
          codes
            "We expect each other to ...\n* be considerate\n* be respectful\n* be responsible\n* be dedicated\n* be empathetic\n";
      language = english;
    }
    ∷ record {
      id = 4;
      title = codes "Privacy Policy";
      content = codes "To be updated";
      language = english;
    }
    ∷ record {
      id = 5;
      title = codes "Datenschutzrichtlinien";
      content = codes "Bitte aktualisieren";
      language = german;
    }
    ∷ record {
      id = 6;
      title = codes "Beschreibung";
      content = codes "Allgemeine beschreibung des Raumes.";
      language = german;
    }
    ∷ []

-- The database that the migrations make.
abbrev pub migrated : Db
migrated = record {
  members = [];
  aliases = [];
  invites = [];
  denied_keys = [];
  sessions = [];
  passwords = [];
  reset_tokens = [];
  notices = first_notices;
  pins = first_pins;
  pin_notices =
      record { notice_id = 1; pin_id = 1 }
      ∷ record { notice_id = 2; pin_id = 2 }
      ∷ record { notice_id = 3; pin_id = 3 }
      ∷ record { notice_id = 4; pin_id = 4 }
      ∷ record { notice_id = 5; pin_id = 4 }
      ∷ record { notice_id = 6; pin_id = 1 }
      ∷ [];
  config = some (record {
    privacy_mode = mode_community;
    default_language = codes "en";
    use_subdomain = true;
  });
  next_member = 1;
  next_alias = 1;
  next_invite = 1;
  next_denied = 1;
  next_session = 1;
  next_password = 1;
  next_reset = 1;
  next_notice = 7;
}

-- `cleanup`; its statements are numbered from `n`.
unfoldable pub cleanup : Faults → ℕ → ℕ → Action (Unit {0})
cleanup io n now = do
  Sessions.delete_expired_sessions (io n) now
  Invites.delete_consumed_invites (io (n + 1))
  Fallback.delete_consumed_resets (io (n + 2))

pub data Call : Type 0 where
  add_member : FeedRef → Role → Call
  remove_feed : FeedRef → Call
  remove_member : ℕ → Call
  set_role : ℕ → Role → Call
  create_invite : (ℕ → Text) → Creator → ℕ → Call
  consume_invite : Text → FeedRef → Call
  revoke_invite : ℕ → Call
  register_alias : Text → FeedRef → Text → Call
  revoke_alias : Text → Call
  deny : FeedRef → Text → ℕ → Call
  allow_feed : FeedRef → Call
  allow_id : ℕ → Call
  set_privacy_mode : PrivacyMode → Call
  set_default_language : Text → Call
  create_session : (ℕ → Text) → ℕ → ℕ → Call
  check_session : Text → ℕ → Call
  remove_session : Text → Call
  wipe_sessions : ℕ → Call
  set_password : ℕ → Text → Call
  set_password_with_token : Text → Text → Call
  create_reset_token : (ℕ → Text) → ℕ → ℕ → ℕ → Call
  save_notice : Notice → Call
  remove_notice : ℕ → Call
  pin_notice : Text → ℕ → Call
  -- the ticker that `Open` starts
  scrub : ℕ → Call

abbrev forget : {A : Type 0} → Action A → Action (Unit {0})
forget m = m >>= λ _. done tt

-- One call, without the value that it returns.
unfoldable pub perform : Codec → Faults → Call → Action (Unit {0})
perform c io (Call.add_member key role) = forget (Members.add c.parse io key role)
perform c io (remove_feed key) = forget (Members.remove_feed io key)
perform c io (remove_member id) = forget (Members.remove_id io id)
perform c io (set_role id role) = forget (Members.set_role io id role)
perform c io (create_invite random by now) = forget (Invites.create c random io by now)
perform c io (consume_invite token key) = forget (Invites.consume c io token key)
perform c io (revoke_invite id) = forget (Invites.revoke io id)
perform c io (register_alias name key sig) = forget (Aliases.register io name key sig)
perform c io (revoke_alias name) = forget (Aliases.revoke io name)
perform c io (deny key comment now) = forget (Denied.add c.parse io key comment now)
perform c io (allow_feed key) = forget (Denied.remove_feed io key)
perform c io (allow_id id) = forget (Denied.remove_id io id)
perform c io (set_privacy_mode pm) = forget (Config.set_privacy_mode io pm)
perform c io (set_default_language tag) = forget (Config.set_default_language io tag)
perform c io (create_session random id now) = forget (Sessions.create_token random io id now)
perform c io (check_session token now) = forget (Sessions.check_token io token now)
perform c io (remove_session token) = forget (Sessions.remove_token io token)
perform c io (wipe_sessions id) = forget (Sessions.wipe_tokens io id)
perform c io (set_password id password) = forget (Fallback.set_password c io id password)
perform c io (set_password_with_token token password) =
    forget (Fallback.set_password_with_token c io token password)
perform c io (create_reset_token random by for_member now) =
    forget (Fallback.create_reset_token c random io by for_member now)
perform c io (save_notice n) = forget (Notices.save (io 0) n)
perform c io (remove_notice id) = forget (Notices.remove_id io id)
perform c io (pin_notice name id) = forget (Notices.set io name id)
perform c io (scrub now) = forget (transact io (cleanup io 3 now))

-- A history of calls, each with the statements that the engine refuses it.
unfoldable pub run : Codec → List (Faults × Call) → Db → Db
unfolding perform
run c [] db = db
run c ((io, call) ∷ calls) db = run c calls (perform c io call db).1
