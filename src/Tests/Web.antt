-- ===== src/Tests/Web.antt =====
-- The theorems on the pages of the room, on the small room.
use go_ssb_room.Base.{
  ◌≡◌, ◌≢◌, ap, refl, Bool, true, false, none, some, [], ◌∷◌, length, Text, text_eq, codes, arith,
  if◌then◌else◌,
}
use go_ssb_room.Roomdb.{mode_open, FeedRef, role_admin, Result, ok, err, notice_count}
use go_ssb_room.Sqlite.Db.{ConfigRow, Db, Faults, reliable}
use go_ssb_room.Sqlite.Members.{Member}
use go_ssb_room.Web.Request.{Request, Site}
use go_ssb_room.Web.Admin.{Route, serve}
use go_ssb_room.Web.Admin.Guards as AdminGuards
use go_ssb_room.Web.Admin.Guards.{Permitted}
use go_ssb_room.Web.Admin.Answers as AdminAnswers
use go_ssb_room.Web.Admin.Answers.{is_success}
use go_ssb_room.Web.Admin.Performed.{Performed}
use go_ssb_room.Web.Admin.Denied as AdminDenied
use go_ssb_room.Web.Invites as WebInvites
use go_ssb_room.Web.Invites.Laws as WebInvitesLaws
use go_ssb_room.Web.Invites.Laws.{Submitted, IsAdmitted}
use go_ssb_room.Web.Banning as Banning
use go_ssb_room.Web.Password as Password
use go_ssb_room.Web.Password.Laws as PasswordLaws
use go_ssb_room.Web.Password.Laws.{IsAcceptable}
use go_ssb_room.Tests.{alice, dave, ticket, plain, world}

abbrev pub site : Site
site = record {
  parse_id = λ t. if text_eq t (codes "2") then some 2 else none;
  byte_length = length;
  url_to = λ route param. route;
  itoa = λ n. n ∷ [];
  io = λ k. reliable;
  now = 100;
  random = λ n. n ∷ [];
}

abbrev pub of_alice : Member
of_alice = record { id = 1; role = role_admin; pub_key = alice; aliases = [] }

-- A form that alice sends.
abbrev pub sent : (Text → Text) → Request
sent form = record {
  method = codes "POST";
  form_error = none;
  form = form;
  query = λ name. [];
  header = λ name. codes "/back";
  member = some of_alice;
}

abbrev removal : Request
removal = sent λ name. codes "2"

removed : length (serve plain site Route.members_remove removal world).1.members ≡ 2
unfolding serve go_ssb_room.Web.Admin.Members.remove go_ssb_room.Web.Request.unless text_eq
    go_ssb_room.Web.Request.parsed go_ssb_room.Web.Request.add_writes
    go_ssb_room.Web.Request.if_allowed go_ssb_room.Room.Actions.check_allowed
    go_ssb_room.Sqlite.Config.get_privacy_mode go_ssb_room.Roomdb.scan_mode
    go_ssb_room.Room.Actions.may_remove_member go_ssb_room.Web.Request.with_some
    go_ssb_room.Web.Request.on_call go_ssb_room.Sqlite.Members.remove_id
    go_ssb_room.Sqlite.Rows.select_one go_ssb_room.Sqlite.Schema.delete_member
    go_ssb_room.Sqlite.Rows.delete_all
removed = refl

-- The reply to her tells no error.
told : is_success (serve plain site Route.members_remove removal world).0 ≡ true
unfolding serve go_ssb_room.Web.Admin.Members.remove go_ssb_room.Web.Request.unless text_eq
    go_ssb_room.Web.Request.parsed go_ssb_room.Web.Request.add_writes
    go_ssb_room.Web.Request.if_allowed go_ssb_room.Room.Actions.check_allowed
    go_ssb_room.Sqlite.Config.get_privacy_mode go_ssb_room.Roomdb.scan_mode
    go_ssb_room.Room.Actions.may_remove_member go_ssb_room.Web.Request.with_some
    go_ssb_room.Web.Request.on_call go_ssb_room.Sqlite.Members.remove_id
    go_ssb_room.Sqlite.Rows.select_one go_ssb_room.Sqlite.Schema.delete_member
    go_ssb_room.Sqlite.Rows.delete_all
told = refl

serve-guard_example :
    (m : Member) × (removal.member ≡ some m) × Permitted site Route.members_remove removal world
serve-guard_example =
    AdminGuards.serve-guard plain site Route.members_remove removal world
      (λ e. let same = ap (λ d. length d.members) e in omega (arith, removed))

serve-Answers_example :
    let r = serve plain site Route.members_remove removal world in
    (is_success r.0 ≡ true → Performed plain site Route.members_remove removal world r.1)
    × (is_success r.0 ≡ false → r.1 ≡ world)
serve-Answers_example = AdminAnswers.serve-Answers plain site Route.members_remove removal world

-- A program that submits an invite for dave.
abbrev submission : Request
submission = record {
  method = codes "POST";
  form_error = none;
  form = λ name. [];
  query = λ name. [];
  header = λ name. codes "application/json";
  member = none;
}

abbrev for_dave : Result (FeedRef × Text)
for_dave = ok (dave, ticket)

consumed : length (WebInvites.consume plain site [] for_dave submission world).1.members ≡ 4
unfolding WebInvites.consume text_eq go_ssb_room.Web.Request.unless
    go_ssb_room.Sqlite.Denied.has_feed go_ssb_room.Sqlite.Rows.select_one
    go_ssb_room.Web.Request.on_call go_ssb_room.Sqlite.Invites.consume
    go_ssb_room.Sqlite.Tokens.get_hashed_token go_ssb_room.Sqlite.Db.transact
    go_ssb_room.Sqlite.Invites.admit go_ssb_room.Sqlite.Members.add_member
    go_ssb_room.Roomdb.check_role go_ssb_room.Sqlite.Db.on_unique
    go_ssb_room.Sqlite.Schema.insert_member go_ssb_room.Sqlite.Rows.exists
    go_ssb_room.Sqlite.Schema.close_invite
consumed = refl

consume-guard_example :
    (key : FeedRef) × (token : Text) × Submitted plain for_dave submission key token
    × IsAdmitted plain site key token world
        (WebInvites.consume plain site [] for_dave submission world).1
consume-guard_example =
    WebInvitesLaws.consume-guard plain site [] for_dave submission world
      (λ e. let same = ap (λ d. length d.members) e in omega (arith, consumed))

abbrev open_world : Db
open_world = record world {
  config =
      some
        (record { privacy_mode = mode_open; default_language = codes "en"; use_subdomain = true });
}

create_open_mode-guard_example :
    ((WebInvites.create_open_mode plain site submission open_world).1
      ≡ (WebInvites.create_open_mode plain site
          (record submission { method = codes "PUT" })
          open_world).1)
    × ((WebInvites.create_open_mode plain site submission open_world).1 ≢ open_world
        → (config : ConfigRow) × (open_world.config ≡ some config)
          × (config.privacy_mode ≡ mode_open))
create_open_mode-guard_example =
    WebInvitesLaws.create_open_mode-guard plain site submission (codes "PUT") open_world

abbrev ban : Request
ban = sent λ name. dave

banned : (AdminDenied.add plain site ban world).0 ≡ Banning.added
unfolding AdminDenied.add go_ssb_room.Web.Request.add_writes go_ssb_room.Web.Request.if_allowed
    go_ssb_room.Room.Actions.check_allowed go_ssb_room.Sqlite.Config.get_privacy_mode
    go_ssb_room.Roomdb.scan_mode text_eq go_ssb_room.Room.Actions.may_change_denied_keys
    go_ssb_room.Web.Request.unless go_ssb_room.Web.Request.parsed go_ssb_room.Web.Request.with_some
    go_ssb_room.Web.Request.on_call go_ssb_room.Sqlite.Denied.add go_ssb_room.Sqlite.Db.on_unique
    go_ssb_room.Sqlite.Schema.insert_denied go_ssb_room.Sqlite.Rows.exists
banned = refl

denied_add-consume_example :
    let after = (AdminDenied.add plain site ban world).1 in
    (key : FeedRef) × (plain.parse (ban.form (codes "pub_key")) ≡ some key)
    × ((WebInvites.consume plain site [] for_dave submission after).1 ≢ after
        → (other : FeedRef) × (token : Text) × Submitted plain for_dave submission other token
          × (other ≢ key))
denied_add-consume_example =
    Banning.denied_add-consume plain site site ban submission [] for_dave world refl banned

-- alice's new password.
abbrev renewal : Request
renewal = sent λ name. if text_eq name (codes "reset-token") then [] else codes "long enough"

abbrev unleaked : Text → Result Bool
unleaked t = ok false

renewed : length (Password.change_password plain unleaked site renewal world).1.passwords ≡ 2
unfolding Password.change_password go_ssb_room.Web.Request.unless text_eq
    go_ssb_room.Web.Request.parsed go_ssb_room.Web.Request.with_result
    go_ssb_room.Web.Request.on_call go_ssb_room.Sqlite.Fallback.set_password
    go_ssb_room.Sqlite.Db.transact go_ssb_room.Sqlite.Rows.select_one
    go_ssb_room.Sqlite.Schema.insert_password go_ssb_room.Sqlite.Rows.exists
renewed = refl

change_password-guard_example : IsAcceptable unleaked site renewal
change_password-guard_example =
    PasswordLaws.change_password-guard plain unleaked site renewal world
      (λ e. let same = ap (λ d. length d.passwords) e in omega (arith, renewed))
