-- ===== src/Tests/Pages.antt =====
-- The theorems on sign-in by the pages, on notices, on secrets and on the room as a map.
use go_ssb_room.Web.Admin.Dashboard.{Dashboard, shown, overview}
use go_ssb_room.Web.Admin.Dashboard.Laws as DashboardLaws
use go_ssb_room.Web.Admin.Dashboard.Laws.{key_of, IsTold}
use go_ssb_room.Sqlite.Db.{InviteRow}
use go_ssb_room.Sqlite.Rows.{select_all}
use go_ssb_room.Base.{
  length, ℕ, ◌≡◌, ◌≢◌, ◌↔◌, ◌⊎◌, ◌≤◌, ◌-◌, refl, true, false, Option, none, some, List, [], ◌∷◌,
  ◌++◌, map, All, Text, text_eq, codes, arith, if◌then◌else◌,
}
use go_ssb_room.Roomdb.{FeedRef, role_member, Result, ok, err, driver, notice_count}
use go_ssb_room.Sqlite.Rows.{exists, select_one}
use go_ssb_room.Sqlite.Db.{SessionRow, MemberRow, InviteRow, Db, Faults, reliable}
use go_ssb_room.Sqlite.Schema.{has_id, is_notice}
use go_ssb_room.Sqlite.Members.{Member, get_by_feed}
use go_ssb_room.Sqlite.Members as Members
use go_ssb_room.Sqlite.Sessions.{has_token, session_timeout, check_token, create_token}
use go_ssb_room.Sqlite.Invites.{Creator, create}
use go_ssb_room.Sqlite.Liveness as Liveness
use go_ssb_room.Sqlite.Notices.{Notice, PinnedNotice, get, get_by_id, save}
use go_ssb_room.Sqlite.Notices.Saving as Saving
use go_ssb_room.Room.State.{Event, announced, gone, asked, Broken, has, run, new_manager}
use go_ssb_room.Room.State.Refinement as Refinement
use go_ssb_room.Room.State.Refinement.{promised_all, empty_view}
use go_ssb_room.Room.SignIn.{Library, validate}
use go_ssb_room.Web.Errors.Laws as ErrorsLaws
use go_ssb_room.Web.Request.{Request, Site}
use go_ssb_room.Web.Login.{
  held, Cookie, authenticate_request, passed_as, inject_context, logout, cookie_cleared, Peer,
  payload_of, client_initiated, saved_cookie,
}
use go_ssb_room.Web.Login.Laws as LoginLaws
use go_ssb_room.Web.Notices.Laws as ListLaws
use go_ssb_room.Web.Admin.Notices.{add_translation}
use go_ssb_room.Web.Admin.Translations as Translations
use go_ssb_room.Web.Admin.Translations.{draft}
use go_ssb_room.Web.Secrets.Laws as SecretsLaws
use go_ssb_room.Web.Secrets.Laws.{but_last}
use go_ssb_room.Tests.{alice, bob, carol, plain, world, world-IsWellFormed}
use go_ssb_room.Tests.Web.{site, sent}

-- A few seconds after bob's session was made.
abbrev soon : Site
soon = record site { now = 100010 }

abbrev of_bob : Member
of_bob = record {
  id = 2;
  role = role_member;
  pub_key = bob;
  aliases = record { id = 1; name = codes "bob"; feed = bob; signature = 5 ∷ [] } ∷ [];
}

abbrev cookie : Cookie
cookie = record { is_new = false; member_token = held (codes "s"); user_timeout = held 100020 }

signed_in : (authenticate_request soon (some cookie) world).0 ≡ some of_bob
unfolding authenticate_request go_ssb_room.Web.Request.with_some check_token
    go_ssb_room.Sqlite.Db.transact select_one text_eq Members.get_by_id Members.to_member
    go_ssb_room.Sqlite.Rows.select_all
signed_in = refl

authenticate_request-guard_example :
    (c : Cookie) × (timeout : ℕ) × (token : Text) × (s : SessionRow) × (row : MemberRow) × (◌≡◌
      {A = Option Cookie}
      (some cookie)
      (some c))
    × (c.member_token ≡ held token)
    × (c.user_timeout ≡ held timeout)
    × (100010 ≤ timeout)
    × (select_one (has_token token) world.sessions ≡ some s)
    × (100010 - s.created_at ≤ session_timeout)
    × (select_one (has_id s.member_id) world.members ≡ some row)
    × (role_member ≡ row.role)
    × (bob ≡ row.pub_key)
authenticate_request-guard_example =
    LoginLaws.authenticate_request-guard soon (some cookie) world of_bob signed_in

inject_context_lem_example :
    ((inject_context soon (passed_as 1) (some cookie) world).1 ≡ world)
    × ((m : Member)
        → ((inject_context soon (passed_as 1) (some cookie) world).0 ≡ some m) ↔ (
            (LoginLaws.IsReadable soon (passed_as 1) world
              × ((authenticate_request soon (some cookie) world).0 ≡ some m))
            ⊎ (((authenticate_request soon (some cookie) world).0 ≡ none)
                × LoginLaws.HasPassed soon (passed_as 1) world m)))
inject_context_lem_example = LoginLaws.inject_context_lem soon (passed_as 1) (some cookie) world

signed_out : (logout soon true (some cookie) world).0 ≡ cookie_cleared
unfolding logout go_ssb_room.Web.Request.on_call go_ssb_room.Sqlite.Sessions.remove_token
    go_ssb_room.Sqlite.Schema.delete_sessions
signed_out = refl

logout-authenticate_request_example :
    (authenticate_request soon (some cookie) (logout soon true (some cookie) world).1).0 ≡ none
logout-authenticate_request_example =
    LoginLaws.logout-authenticate_request soon soon true cookie cookie (codes "s") world refl refl
      signed_out

abbrev accepting : Library
accepting = record {
  verify = λ key message signature. true;
  decode = λ t. some t;
  decode_url = λ t. some t;
}

abbrev connected : Peer
connected = record {
  room_id = carol;
  connected = true;
  challenge = codes "sc";
  solution = ok (codes "signed");
}

abbrev visit : Request
visit = record (sent (λ name. [])) { query = λ name. codes "cc" }

client_runs :
    (client_initiated accepting soon true connected visit bob world).0.1
    ≡ some (saved_cookie 100010 (99 ∷ []))
unfolding client_initiated go_ssb_room.Web.Request.on_call get_by_feed select_one text_eq
    go_ssb_room.Web.Request.unless go_ssb_room.Web.Request.with_result
    go_ssb_room.Web.Request.with_some create_token go_ssb_room.Sqlite.Db.transact Members.to_member
    go_ssb_room.Sqlite.Sessions.token_attempts go_ssb_room.Sqlite.Schema.insert_session exists
client_runs = refl

client_initiated_lem_example :
    let after = (client_initiated accepting soon true connected visit bob world).1 in
    (m : Member) × (signature : Text) × (token : Text) × ((get_by_feed reliable bob world).0 ≡ ok m)
    × (true ≡ true)
    × (validate accepting (payload_of connected bob (codes "cc")) signature ≡ true)
    × (saved_cookie 100010 (99 ∷ []) ≡ saved_cookie 100010 token)
    × ((check_token reliable token 110000 after).0 ≡ ok m.id)
client_initiated_lem_example =
    LoginLaws.client_initiated_lem accepting soon true connected visit bob world
      (saved_cookie 100010 (99 ∷ [])) 110000 client_runs (omega arith)

-- alice translates the news into German.
abbrev translation : Request
translation = sent λ name.
    if text_eq name (codes "name")
    then codes "NoticeNews"
    else if text_eq name (codes "language")
    then codes "de-DE"
    else codes "x"

translated : (add_translation site translation world).0 ≡ Translations.pinned site translation
unfolding add_translation go_ssb_room.Web.Request.unless text_eq go_ssb_room.Web.Request.parsed
    go_ssb_room.Web.Request.add_writes go_ssb_room.Web.Request.if_allowed
    go_ssb_room.Room.Actions.check_allowed go_ssb_room.Sqlite.Config.get_privacy_mode
    go_ssb_room.Roomdb.scan_mode go_ssb_room.Room.Actions.may_change_notice
    go_ssb_room.Sqlite.Notices.is_valid go_ssb_room.Web.Request.on_call save
    go_ssb_room.Sqlite.Schema.insert_notice go_ssb_room.Sqlite.Notices.set select_one
    go_ssb_room.Sqlite.Schema.insert_pin_notice exists
translated = refl

add_translation-get_example :
    let after = (add_translation site translation world).1 in
    ((get reliable (codes "NoticeNews") (codes "de-DE") world).0 ≡ err (notice_count 0)
      → (get reliable (codes "NoticeNews") (codes "de-DE") after).0 ≡ ok (draft translation 3))
    × ((n : Notice)
        → (get reliable (codes "NoticeNews") (codes "de-DE") world).0 ≡ ok n
        → (get reliable (codes "NoticeNews") (codes "de-DE") after).0 ≡ err (notice_count 2))
unfolding text_eq
add_translation-get_example =
    Translations.add_translation-get site translation world world-IsWellFormed translated

abbrev news : Notice
news = record { id = 2; title = codes "New"; content = codes "z"; language = codes "en-GB" }

save-get_by_id_example :
    let after = save false news world in
    (news.id ≡ 0
      → (after.0 ≡ ok (record news { id = 3 }))
        × ((get_by_id reliable 3 after.1).0 ≡ ok (record news { id = 3 })))
    × (news.id ≢ 0
        → exists (is_notice 2) world.notices ≡ true
        → (after.0 ≡ ok news) × ((get_by_id reliable 2 after.1).0 ≡ ok news))
    × (news.id ≢ 0 → exists (is_notice 2) world.notices ≡ false → after ≡ (ok news, world))
    × (save true news world ≡ (err driver, world))
save-get_by_id_example = Saving.save-get_by_id news world world-IsWellFormed

abbrev listed : List PinnedNotice
listed =
    record {
      name = codes "NoticeNews";
      notices =
          record { id = 1; title = codes "News"; content = codes "x"; language = codes "en-GB" }
          ∷ [];
    }
    ∷ []

abbrev eight : ℕ → Text
eight n = n ∷ n ∷ n ∷ n ∷ n ∷ n ∷ n ∷ n ∷ []

abbrev key : ℕ → Text
key n = eight n ++ (eight n ++ (eight n ++ eight n))

abbrev whole : Broken
whole = record { endpoint_sinks = λ n. false; attendant_sinks = λ n. false }

abbrev visits : List Event
visits = announced whole alice 7 ∷ asked whole alice 8 ∷ asked whole bob 9 ∷ gone whole alice ∷ []

run-refines_example : has bob (run visits new_manager) ≡ promised_all visits empty_view bob
run-refines_example = Refinement.run-refines visits bob

-- The first draws are taken.
abbrev draws : ℕ → Text
draws n = if text_eq (n ∷ []) (5 ∷ []) then codes "free" else codes "s"

create_tokens_live_example :
    ((token : Text) × ((create_token draws reliable 2 100010 world).0 ≡ ok token))
    × ((token : Text) × ((create plain draws reliable (Creator.member 2) 100010 world).0
          ≡ ok token))
unfolding exists text_eq
create_tokens_live_example =
    Liveness.create_tokens_live plain draws 2 100010 5 6 world refl (omega arith) refl (omega arith)
      refl

abbrev at_home : Option (List FeedRef)
at_home = some (bob ∷ carol ∷ [])

overview_lem_example :
    ((overview soon at_home world).1 ≡ world)
    × ((d : Dashboard)
        → (overview soon at_home world).0 ≡ shown d
        → (map key_of d.online_users ≡ bob ∷ carol ∷ [])
          × All (IsTold world) d.online_users
          × (d.online_count ≡ some 2)
          × (d.member_count ≡ length world.members)
          × (d.invite_count ≡ length (select_all (λ (i : InviteRow). i.active) world.invites))
          × (d.denied_count ≡ length world.denied_keys))
overview_lem_example = DashboardLaws.overview_lem soon at_home world
