-- ===== src/Web/Admin/Performed.antt =====
-- What each form under /admin/ asks for, as the call of a storage service that it stands for.
use go_ssb_room.Base.{ℕ, ◌≡◌, ◌⊎◌, some, Text, codes}
use go_ssb_room.Roomdb.{FeedRef, Role, role_member, unmarshal_role, parse_privacy_mode, ok}
use go_ssb_room.Sqlite.Db.{Db}
use go_ssb_room.Sqlite.Tokens.{Codec}
use go_ssb_room.Sqlite.Config.{get_privacy_mode}
use go_ssb_room.Sqlite.Members.{Member}
use go_ssb_room.Sqlite.Members as MembersDb
use go_ssb_room.Sqlite.Fallback as FallbackDb
use go_ssb_room.Sqlite.Invites as InvitesDb
use go_ssb_room.Sqlite.Aliases as AliasesDb
use go_ssb_room.Sqlite.Denied as DeniedDb
use go_ssb_room.Sqlite.Config as ConfigDb
use go_ssb_room.Sqlite.Notices as NoticesDb
use go_ssb_room.Sqlite.Notices.{Notice}
use go_ssb_room.Web.Request.{Request, Site}
use go_ssb_room.Web.Admin.{Route}
use go_ssb_room.Web.Admin.Notices as Notices

-- The notice that a form holds.
abbrev pub notice_in : ℕ → Request → Notice
notice_in id req = record {
  id = id;
  title = req.form (codes "title");
  content = Notices.fix_newlines (req.form (codes "content"));
  language = req.form (codes "language");
}

-- What a path has done: the one call of a service that its form asks for, which succeeded.
abbrev pub Performed : Codec → Site → Route → Request → Db → Db → Type 0
Performed c site Route.set_privacy req db after =
    ConfigDb.set_privacy_mode (site.io 0) (parse_privacy_mode (req.form (codes "privacy_mode"))) db
    ≡ (ok tt, after)
Performed c site Route.set_language req db after =
    ConfigDb.set_default_language (site.io 0) (req.form (codes "lang")) db ≡ (ok tt, after)
Performed c site Route.aliases_revoke req db after =
    AliasesDb.revoke (site.io 1) (req.form (codes "name")) db ≡ (ok tt, after)
Performed c site Route.denied_add req db after =
    (key : FeedRef) × (c.parse (req.form (codes "pub_key")) ≡ some key)
    × (DeniedDb.add c.parse (site.io 1) key (req.form (codes "comment")) site.now db
        ≡ (ok tt, after))
Performed c site Route.denied_remove req db after =
    (id : ℕ) × (site.parse_id (req.form (codes "id")) ≡ some id)
    × (DeniedDb.remove_id (site.io 1) id db ≡ (ok tt, after))
Performed c site Route.members_add req db after =
    (key : FeedRef) × (c.parse (req.form (codes "pub_key")) ≡ some key)
    × (id : ℕ) × (MembersDb.add c.parse (site.io 0) key role_member db ≡ (ok id, after))
Performed c site Route.members_change_role req db after =
    (id : ℕ) × (site.parse_id (req.query (codes "id")) ≡ some id)
    × (role : Role) × (unmarshal_role (req.form (codes "role")) ≡ ok role)
    × (MembersDb.set_role (site.io 0) id role db ≡ (ok tt, after))
Performed c site Route.members_remove req db after =
    (id : ℕ) × (site.parse_id (req.form (codes "id")) ≡ some id)
    × (MembersDb.remove_id (site.io 1) id db ≡ (ok tt, after))
Performed c site Route.members_reset_link req db after =
    (id : ℕ) × (site.parse_id (req.form (codes "member_id")) ≡ some id)
    × (m : Member) × (req.member ≡ some m)
    × (token : Text) × (FallbackDb.create_reset_token c site.random (site.io 0) m.id id site.now db
        ≡ (ok token, after))
Performed c site Route.invites_create req db after =
    (m : Member) × (req.member ≡ some m)
    × (token : Text) × (InvitesDb.create c site.random (site.io 1) (InvitesDb.Creator.member m.id)
          site.now db
        ≡ (ok token, after))
Performed c site Route.invites_revoke req db after =
    (id : ℕ) × (site.parse_id (req.form (codes "id")) ≡ some id)
    × (InvitesDb.revoke (site.io 1) id db ≡ (ok tt, after))
Performed c site Route.notice_save req db after =
    (id : ℕ) × (site.parse_id (req.form (codes "id")) ≡ some id)
    × (saved : Notice) × (NoticesDb.save (site.io 1 0) (notice_in id req) db ≡ (ok saved, after))
Performed c site Route.notice_add_translation req db after =
    (saved : Notice) × (between : Db) × (NoticesDb.save (site.io 1 0) (notice_in 0 req) db
      ≡ (ok saved, between))
    × (NoticesDb.set (site.io 2) (req.form (codes "name")) saved.id between ≡ (ok tt, after))

-- What a path leaves that tells an error: nothing is done, but for the notice that addTranslation
-- saves before it fails to pin it.
abbrev pub Undone : Site → Route → Request → Db → Db → Type 0
Undone site Route.notice_add_translation req db after =
    (after ≡ db)
    ⊎ ((saved : Notice) × (NoticesDb.save (site.io 1 0) (notice_in 0 req) db ≡ (ok saved, after)))
Undone site _ req db after = after ≡ db
