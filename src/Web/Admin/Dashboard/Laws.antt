-- ===== src/Web/Admin/Dashboard/Laws.antt =====
-- web/handlers/admin/dashboard.go: what the dashboard shows of the room.
use go_ssb_room.Base.{
  ℕ, suc, ◌≡◌, refl, true, Bool-cases, Option, none, some, List, [], ◌∷◌, map, length, ap,
  text_eq_iff, arith, All, Option-cases, inl, inr,
}
use go_ssb_room.Roomdb.{FeedRef, not_found, Error, Result, ok, err, Result-cases}
use go_ssb_room.Sqlite.Rows.{select_one, select_one-passes, select_all}
use go_ssb_room.Sqlite.Db.{Db, MemberRow, InviteRow, Faults}
use go_ssb_room.Sqlite.Schema.{has_key}
use go_ssb_room.Sqlite.Members.{Member, get_by_feed, count_members, to_member}
use go_ssb_room.Sqlite.Invites.{count_invites}
use go_ssb_room.Sqlite.Denied.{count_denied}
use go_ssb_room.Web.Request.{Site, on_call}
use go_ssb_room.Web.Admin.Dashboard.{
  ConnectedUser, member_online, stranger_online, with_user, is_missing, for_lookup, online_users,
  Dashboard, refs_of, count_of, shown, overview,
}

abbrev pub key_of : ConnectedUser → FeedRef
key_of (member_online m) = m.pub_key
key_of (stranger_online key) = key

-- A user who is shown as a member is one, and one who is not is none.
abbrev pub IsTold : Db → ConnectedUser → Type 0
IsTold db (member_online m) =
    (row : MemberRow) × (select_one (has_key m.pub_key) db.members ≡ some row)
    × (m.id ≡ row.id)
    × (m.role ≡ row.role)
IsTold db (stranger_online key) = select_one (has_key key) db.members ≡ none

lookup_found :
    (io : Faults) (who : FeedRef) (db : Db) (m : Member)
    → (get_by_feed io who db).0 ≡ ok m
    → (m.pub_key ≡ who) × IsTold db (member_online m)
unfolding get_by_feed to_member
lookup_found io who db m h = elim (Option-cases (select_one (has_key who) db.members)) [
  | inl e ↦ absurd (ground arith)
  | inr (row, e) ↦
      let named : row.pub_key ≡ who =
        ground
          (arith, select_one-passes (has_key who) db.members row e, text_eq_iff row.pub_key who) in
      let key : m.pub_key ≡ who = ground arith in (key, (row, rw key e, ground arith, ground arith))
]

lookup_missed :
    (io : Faults) (who : FeedRef) (db : Db)
    → (get_by_feed io who db).0 ≡ err not_found
    → select_one (has_key who) db.members ≡ none
unfolding get_by_feed
lookup_missed io who db h = elim (Option-cases (select_one (has_key who) db.members)) [
  | inl e ↦ e
  | inr (row, e) ↦ absurd (ground arith)
]

lookup-same : (io : Faults) (who : FeedRef) (db : Db) → (get_by_feed io who db).1 ≡ db
unfolding get_by_feed
lookup-same io who db = ground arith

abbrev IsTrueTo : Db → List FeedRef → Result (List ConnectedUser) × Db → Type 0
IsTrueTo db keys r =
    (r.1 ≡ db)
    × ((users : List ConnectedUser)
        → r.0 ≡ ok users
        → (map key_of users ≡ keys) × All (IsTold db) users)

with_user-IsTrueTo :
    (u : ConnectedUser) (who : FeedRef) (keys : List FeedRef) (db : Db)
    (r : Result (List ConnectedUser) × Db)
    → key_of u ≡ who
    → IsTold db u
    → IsTrueTo db keys r
    → IsTrueTo db (who ∷ keys) (with_user u r)
unfolding with_user
with_user-IsTrueTo u who keys db (ok users, db') named told (same, rest) = (
  same,
  λ all h.
      let chosen : all ≡ u ∷ users = ground arith in
      let (keys', told') = rest users refl in rw chosen (rw (named, keys') refl, (told, told')),
)
with_user-IsTrueTo u who keys db (err e, db') named told (same, rest) =
    (same, λ all h. absurd (ground arith))

missing_lem : (e : Error) → is_missing e ≡ true → e ≡ not_found
unfolding is_missing
missing_lem e h = ground arith

for_lookup-IsTrueTo :
    (who : FeedRef) (keys : List FeedRef) (db : Db) (later : Db → Result (List ConnectedUser) × Db)
    (found : Result Member × Db)
    → found.1 ≡ db
    → ((m : Member) → found.0 ≡ ok m → (m.pub_key ≡ who) × IsTold db (member_online m))
    → (found.0 ≡ err not_found → select_one (has_key who) db.members ≡ none)
    → IsTrueTo db keys (later db)
    → IsTrueTo db (who ∷ keys) (for_lookup who later found)
unfolding for_lookup
for_lookup-IsTrueTo who keys db later (ok m, db') same hit miss rest =
    let (named, told) = hit m refl in
    rw same (with_user-IsTrueTo (member_online m) who keys db (later db) named told rest)
for_lookup-IsTrueTo who keys db later (err e, db') same hit miss rest =
    rw same (elim (Bool-cases (is_missing e)) [
      | inl missing ↦ rw missing (
          with_user-IsTrueTo (stranger_online who) who keys db (later db) refl
            (miss (ap err (missing_lem e missing))) rest)
      | inr other ↦ rw other (refl, λ all h. absurd (ground arith))
    ])

nothing : (all : List ConnectedUser) → ok [] ≡ ok all → all ≡ []
nothing all h = ground arith

online_users-IsTrueTo :
    (site : Site) (n : ℕ) (keys : List FeedRef) (db : Db)
    → IsTrueTo db keys (online_users site n keys db)
unfolding online_users
online_users-IsTrueTo site n [] db = (refl, λ all h. rw (nothing all h) (refl, tt))
online_users-IsTrueTo site n (who ∷ keys) db =
    for_lookup-IsTrueTo who keys db (online_users site (suc n) keys)
      (get_by_feed (site.io n) who db) (lookup-same (site.io n) who db)
      (lookup_found (site.io n) who db) (lookup_missed (site.io n) who db)
      (online_users-IsTrueTo site (suc n) keys db)

-- A dashboard that is shown lists the peers who were online, in their order: as members those who
-- are members, with the id and the role that they have, and by their keys those who are not. Its
-- counts are those of the members, of the open invites and of the denied keys, and that of the peers
-- where the room answered in time. Showing it changes nothing, whatever the engine refuses.
pub overview_lem :
    (site : Site) (online : Option (List FeedRef)) (db : Db)
    → ((overview site online db).1 ≡ db)
      × ((d : Dashboard)
          → (overview site online db).0 ≡ shown d
          → (map key_of d.online_users ≡ refs_of online)
            × All (IsTold db) d.online_users
            × (d.online_count ≡ count_of online)
            × (d.member_count ≡ length db.members)
            × (d.invite_count ≡ length (select_all (λ (i : InviteRow). i.active) db.invites))
            × (d.denied_count ≡ length db.denied_keys))
unfolding overview on_call count_members count_invites count_denied
overview_lem site online db =
    let users = online_users site 0 (refs_of online) db in
    let (same, true_to) = online_users-IsTrueTo site 0 (refs_of online) db in
    elim (Result-cases users.0) [
      | inr (e, k) ↦ (ground arith, λ d h. absurd (ground arith))
      | inl (all, k) ↦
          let (keys, told) = true_to all k in
          (
            ground arith,
            λ d h.
                let listed : d.online_users ≡ all = ground arith in
                (
                  rw listed keys,
                  rw listed told,
                  ground arith,
                  ground arith,
                  ground arith,
                  ground arith,
                ),
          )
    ]
