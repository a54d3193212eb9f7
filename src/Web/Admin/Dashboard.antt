-- ===== src/Web/Admin/Dashboard.antt =====
-- web/handlers/admin/dashboard.go, and the pages of web/handlers/admin/members.go on one member.
pub mod Laws
use go_ssb_room.Base.{
  ℕ, suc, Bool, true, false, if◌then◌else◌, Option, none, some, List, [], ◌∷◌, ◌++◌, map, length,
  Text, codes,
}
use go_ssb_room.Roomdb.{FeedRef, Error, not_found, Result, ok, err}
use go_ssb_room.Sqlite.Db.{Db}
use go_ssb_room.Sqlite.Members.{Alias, Member, get_by_feed, count_members}
use go_ssb_room.Sqlite.Members as Members
use go_ssb_room.Sqlite.Invites.{count_invites}
use go_ssb_room.Sqlite.Denied.{count_denied}
use go_ssb_room.Web.Errors.{WebError, plain, wrapping, from_db, bad_request, redirect_to}
use go_ssb_room.Web.Request.{
  Request, Site, Serving, PageHandler, page, respond, refuse, with_some, with_result, calling,
}
use go_ssb_room.Web.Admin.Members.{redirect_to_members}
use go_ssb_room.Web.Endpoint.{ServerEndpointDetails, Url, url_for_alias}

-- `connectedUser`: a member, or, with the id -1 and no role, a key that is no member's.
pub data ConnectedUser : Type 0 where
  member_online : Member → ConnectedUser
  stranger_online : FeedRef → ConnectedUser

unfoldable first_alias : FeedRef → List Alias → Text
first_alias key [] = key
first_alias key (a ∷ rest) = a.name

-- `connectedUser.String`
unfoldable pub user_string : ConnectedUser → Text
unfolding first_alias
user_string (member_online m) = first_alias m.pub_key m.aliases
user_string (stranger_online key) = key

unfoldable pub with_user :
    ConnectedUser → Result (List ConnectedUser) × Db → Result (List ConnectedUser) × Db
with_user u (ok users, db) = (ok (u ∷ users), db)
with_user u (err e, db) = (err e, db)

-- `errors.Is(err, roomdb.ErrNotFound)`
unfoldable pub is_missing : Error → Bool
is_missing Error.not_found = true
is_missing _ = false

unfoldable pub for_lookup :
    FeedRef
    → Serving (Result (List ConnectedUser))
    → Result Member × Db
    → Result (List ConnectedUser) × Db
unfolding with_user is_missing
for_lookup who later (ok m, db) = with_user (member_online m) (later db)
for_lookup who later (err e, db) =
    let next = with_user (stranger_online who) (later db) in
    if is_missing e then next else (err e, db)

-- The loop over the peers that are online; the call for the n-th has the faults `io n`.
unfoldable pub online_users : Site → ℕ → List FeedRef → Serving (Result (List ConnectedUser))
unfolding for_lookup
online_users site n [] db = (ok [], db)
online_users site n (who ∷ rest) db =
    let later = online_users site (suc n) rest in
    for_lookup who later (get_by_feed (site.io n) who db)

-- What the dashboard shows. The count is none, for -1, where the room did not answer in time.
pub record Dashboard : Type 0 where
  pub online_users : List ConnectedUser
  pub online_count : Option ℕ
  pub member_count : ℕ
  pub invite_count : ℕ
  pub denied_count : ℕ

abbrev pub refs_of : Option (List FeedRef) → List FeedRef
refs_of none = []
refs_of (some keys) = keys

abbrev pub count_of : Option (List FeedRef) → Option ℕ
count_of none = none
count_of (some keys) = some (length keys)

-- A page with its data, or the error that the renderer answers.
pub data Shown (A : Type 0) : Type 0 where
  shown : A → Shown A
  not_shown : WebError → Shown A

abbrev pub failing : {A : Type 0} → Text → Error → Serving (Shown A)
failing what e = respond (not_shown (wrapping what (from_db e)))

-- `overview`; `online` is what `ListAsRefs` answers within ten seconds, if it does. The counts have
-- the faults after those of the loop.
unfoldable pub overview : Site → Option (List FeedRef) → Serving (Shown Dashboard)
unfolding online_users
overview site online =
    let n = length (refs_of online) in
    calling (online_users site 0 (refs_of online))
      (failing (codes "failed to lookup online member"))
      λ users.
        calling (count_members (site.io n)) (failing (codes "failed to count members")) λ members.
          calling (count_invites (site.io (suc n)) true)
            (failing (codes "failed to count active invites"))
            λ invites.
              calling (count_denied (site.io (suc (suc n))))
                (failing (codes "failed to count denied keys"))
                λ denied. respond (
                  shown (record {
                    online_users = users;
                    online_count = count_of online;
                    member_count = members;
                    invite_count = invites;
                    denied_count = denied;
                  }))

-- `details`: the member, and the address of each of their aliases.
unfoldable pub details :
    ServerEndpointDetails → Site → Request → Serving (Shown (Member × List Url))
details sed site req =
    with_some (site.parse_id (req.query (codes "id")))
      (respond (not_shown (bad_request (codes "ID") (plain []))))
      λ id.
        calling (Members.get_by_id (site.io 0) id)
          (λ e. respond (not_shown (bad_request (codes "ID") (from_db e))))
          λ m.
            respond (shown (m, map (λ (a : Alias). url_for_alias site.itoa sed a.name) m.aliases))

unfoldable pub confirm_error : Error → WebError
confirm_error Error.not_found = redirect_to redirect_to_members (from_db Error.not_found)
confirm_error e = from_db e

-- `removeConfirm`
unfoldable pub remove_member_confirm : Site → Request → PageHandler
unfolding confirm_error
remove_member_confirm site req =
    with_some (site.parse_id (req.query (codes "id")))
      (refuse (bad_request (codes "ID") (plain [])))
      λ id.
        calling (Members.get_by_id (site.io 0) id) (λ e. refuse (confirm_error e))
          λ m. respond (page (site.itoa m.id ∷ m.pub_key ∷ []))
