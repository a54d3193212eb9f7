-- ===== src/Tests.antt =====
-- A small room on which the tests run, and the tests, by the part of the program.
pub mod Storage
pub mod Accounts
pub mod Live
pub mod SignIn
pub mod Tokens
pub mod Web
pub mod Pages
use go_ssb_room.Base.{
  ℕ, Bool, true, false, Option, none, some, List, [], ◌∷◌, ◌++◌, Text, text_eq, codes, arith,
}
use go_ssb_room.Roomdb.{
  FeedRef, role_member, role_admin, role_moderator, mode_community, check_role, check_mode,
}
use go_ssb_room.Sqlite.Db.{Db}
use go_ssb_room.Sqlite.Rows.{exists}
use go_ssb_room.Sqlite.Tokens.{Codec}
use go_ssb_room.Sqlite.Invariant.{IsWellFormed}

abbrev pub alice : FeedRef
alice = 1 ∷ []

abbrev pub bob : FeedRef
bob = 2 ∷ []

abbrev pub carol : FeedRef
carol = 3 ∷ []

abbrev pub dave : FeedRef
dave = 4 ∷ []

abbrev pub mallory : FeedRef
mallory = 9 ∷ []

abbrev ten : Text
ten = 7 ∷ 7 ∷ 7 ∷ 7 ∷ 7 ∷ 7 ∷ 7 ∷ 7 ∷ 7 ∷ 7 ∷ []

-- A token of the right length.
abbrev pub ticket : Text
ticket = ten ++ ten ++ ten ++ ten ++ ten

-- Everything decodes and hashes to itself.
abbrev pub plain : Codec
plain = record {
  parse = λ t. some t;
  decode = λ t. some t;
  encode = λ t. t;
  sha256 = λ t. t;
  bcrypt = λ t. some t;
  matches = λ hash t. text_eq hash t;
}

abbrev pub world : Db
world = record {
  members =
      record { id = 1; role = role_admin; pub_key = alice }
      ∷ record { id = 2; role = role_member; pub_key = bob }
      ∷ record { id = 3; role = role_admin; pub_key = carol }
      ∷ [];
  aliases = record { id = 1; name = codes "bob"; member_id = 2; signature = 5 ∷ [] } ∷ [];
  invites =
      record { id = 1; hashed_token = ticket; created_by = 1; created_at = 10; active = true } ∷ [];
  denied_keys = record { id = 1; pub_key = mallory; comment = []; created_at = 10 } ∷ [];
  sessions = record { id = 1; token = codes "s"; member_id = 2; created_at = 100000 } ∷ [];
  passwords = record { id = 1; password_hash = codes "old"; member_id = 2 } ∷ [];
  reset_tokens =
      record {
        id = 1;
        hashed_token = ticket;
        created_by = 1;
        created_at = 10;
        for_member = 2;
        active = true;
      }
      ∷ [];
  notices =
      record { id = 1; title = codes "News"; content = codes "x"; language = codes "en-GB" }
      ∷ record { id = 2; title = codes "Draft"; content = codes "y"; language = codes "de-DE" }
      ∷ [];
  pins =
      record { id = 1; name = codes "NoticeNews" }
      ∷ record { id = 2; name = codes "NoticeDescription" }
      ∷ [];
  pin_notices = record { notice_id = 1; pin_id = 1 } ∷ [];
  config = some (record {
    privacy_mode = mode_community;
    default_language = codes "en";
    use_subdomain = true;
  });
  next_member = 4;
  next_alias = 2;
  next_invite = 2;
  next_denied = 2;
  next_session = 2;
  next_password = 2;
  next_reset = 2;
  next_notice = 3;
}

pub world-IsWellFormed : IsWellFormed world
unfolding check_role check_mode exists
world-IsWellFormed = ground arith
