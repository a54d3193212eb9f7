-- ===== src/Web/Admin/Handling.antt =====
-- The handlers of the forms under /admin/, one by one: what each has done by what it answers.
use go_ssb_room.Base.{
  Option-cases, ℕ, if◌then◌else◌, ◌≡◌, inl, inr, refl, ◌∙◌, true, false, Option, none, some, List,
  [], Text, arith, Bool-cases, ◌==◌, ==_iff,
}
use go_ssb_room.Roomdb.{PrivacyMode, check_mode, mode_unknown, ok, Error, Result-cases}
use go_ssb_room.Sqlite.Db.{Db, Faults, transact, conclude}
use go_ssb_room.Sqlite.Tokens.{Codec}
use go_ssb_room.Web.Admin.Guards.{resolve-IsRead}
use go_ssb_room.Sqlite.Config.{get_privacy_mode}
use go_ssb_room.Room.Actions.{check_allowed, allowed_actions, in_mode, decide, Verdict}
use go_ssb_room.Sqlite.Members.{Member}
use go_ssb_room.Sqlite.Config as ConfigDb
use go_ssb_room.Sqlite.Notices as NoticesDb
use go_ssb_room.Sqlite.Notices.{Notice}
use go_ssb_room.Sqlite.Members.Invariant as MembersInv
use go_ssb_room.Sqlite.Invites.Invariant as InvitesInv
use go_ssb_room.Sqlite.Aliases.Invariant as AliasesInv
use go_ssb_room.Sqlite.Denied.Invariant as DeniedInv
use go_ssb_room.Sqlite.Config.Invariant as ConfigInv
use go_ssb_room.Sqlite.Fallback.Invariant as FallbackInv
use go_ssb_room.Sqlite.Notices.Invariant as NoticesInv
use go_ssb_room.Web.Errors.{Write, WebError, handle}
use go_ssb_room.Web.Request.Guards.{calling-same}
use go_ssb_room.Web.Request.{Request, Site, Handler, respond, calling}
use go_ssb_room.Web.Request.Answers.{
  Answers, is_clean, is_page, answering, tells_then, handle_tells, handle_then_tells,
  Answers-error_page, Answers-done, Answers-unless, Answers-calling, Answers-read, reading_first,
}
use go_ssb_room.Web.Admin.{Route}
use go_ssb_room.Web.Admin.Members as Members
use go_ssb_room.Web.Admin.Notices as Notices
use go_ssb_room.Web.Admin.Aliases as Aliases
use go_ssb_room.Web.Admin.Settings as Settings
use go_ssb_room.Web.Admin.Invites as Invites
use go_ssb_room.Web.Admin.Denied as Denied
use go_ssb_room.Web.Admin.Performed.{notice_in, Performed, Undone}

-- Who the member is that the checks give.
admin_of_member :
    (logged_in : Option Member) (m : Member)
    → Members.admin_of logged_in ≡ some m
    → logged_in ≡ some m
unfolding Members.admin_of
admin_of_member none m h = absurd (ground arith)
admin_of_member (some n) m h = ground arith

allowed_member :
    (io : Faults) (logged_in : Option Member) (action : Text) (db : Db) (m : Member)
    → check_allowed io logged_in action db ≡ Verdict.allowed m
    → logged_in ≡ some m
unfolding check_allowed in_mode decide
allowed_member io none action db m h = absurd (ground arith)
allowed_member io (some n) action db m h = elim (Result-cases (get_privacy_mode io db).0) [
  | inr (e, k) ↦ absurd (ground arith)
  | inl (pm, k) ↦ elim (Option-cases (allowed_actions action)) [
    | inl a ↦ absurd (ground arith)
    | inr (may, a) ↦ ground arith
  ]
]

pub members_remove-Answers :
    (c : Codec) (site : Site) (req : Request) (db : Db)
    → Answers is_clean
        (λ after. after ≡ db)
        (Performed c site Route.members_remove req db)
        db
        (Members.remove site req)
unfolding Members.remove
members_remove-Answers c site req db = search (answering, MembersInv.remove_id-IsAtomic) depth 16

pub members_add-Answers :
    (c : Codec) (site : Site) (req : Request) (db : Db)
    → Answers is_clean
        (λ after. after ≡ db)
        (Performed c site Route.members_add req db)
        db
        (Members.add c site req)
unfolding Members.add
members_add-Answers c site req db = search (answering, MembersInv.add-IsAtomic) depth 16

pub members_change_role-Answers :
    (c : Codec) (site : Site) (req : Request) (db : Db)
    → Answers is_clean
        (λ after. after ≡ db)
        (Performed c site Route.members_change_role req db)
        db
        (Members.change_role site req)
unfolding Members.change_role
members_change_role-Answers c site req db =
    search (answering, MembersInv.set_role-IsAtomic) depth 16

pub members_reset_link-Answers :
    (c : Codec) (site : Site) (req : Request) (db : Db)
    → Answers is_page
        (λ after. after ≡ db)
        (Performed c site Route.members_reset_link req db)
        db
        (Members.create_password_reset_token c site req)
unfolding Members.create_password_reset_token
members_reset_link-Answers c site req db =
    search (answering, FallbackInv.create_reset_token-IsAtomic, admin_of_member) depth 16

pub denied_add-Answers :
    (c : Codec) (site : Site) (req : Request) (db : Db)
    → Answers is_clean
        (λ after. after ≡ db)
        (Performed c site Route.denied_add req db)
        db
        (Denied.add c site req)
unfolding Denied.add
denied_add-Answers c site req db = search (answering, DeniedInv.add-IsAtomic) depth 16

pub denied_remove-Answers :
    (c : Codec) (site : Site) (req : Request) (db : Db)
    → Answers is_clean
        (λ after. after ≡ db)
        (Performed c site Route.denied_remove req db)
        db
        (Denied.remove site req)
unfolding Denied.remove
denied_remove-Answers c site req db = search (answering, DeniedInv.remove_id-IsAtomic) depth 16

pub invites_create-Answers :
    (c : Codec) (site : Site) (req : Request) (db : Db)
    → Answers is_page
        (λ after. after ≡ db)
        (Performed c site Route.invites_create req db)
        db
        (Invites.create c site req)
unfolding Invites.create
invites_create-Answers c site req db =
    search (answering, InvitesInv.create-IsAtomic, allowed_member) depth 16

pub invites_revoke-Answers :
    (c : Codec) (site : Site) (req : Request) (db : Db)
    → Answers is_clean
        (λ after. after ≡ db)
        (Performed c site Route.invites_revoke req db)
        db
        (Invites.revoke site req)
unfolding Invites.revoke
invites_revoke-Answers c site req db = search (answering, InvitesInv.revoke-IsAtomic) depth 16

pub aliases_revoke-Answers :
    (c : Codec) (site : Site) (req : Request) (db : Db)
    → Answers is_clean
        (λ after. after ≡ db)
        (Performed c site Route.aliases_revoke req db)
        db
        (Aliases.revoke site req)
unfolding Aliases.revoke
aliases_revoke-Answers c site req db =
    search (reading_first, AliasesInv.revoke-IsAtomic, resolve-IsRead, Answers-read) depth 16

module _ (Q R : Db → Type 0) (at : Db) where
  get_member-Answers :
      (logged_in : Option Member) (next : Handler)
      → Q at
      → Answers is_clean Q R at next
      → Answers is_clean Q R at (Settings.get_member logged_in next)
  unfolding Settings.get_member
  get_member-Answers none next q k = Answers-error_page Q R at _ _ q
  get_member-Answers (some m) next q k =
      Answers-unless is_clean Q R at _ _ next (Answers-error_page Q R at _ _ q) λ h. k

  with_notice-Answers :
      (id : ℕ) (req : Request) (next : Notice → Handler)
      → Q at
      → Answers is_clean Q R at (next (notice_in id req))
      → Answers is_clean Q R at (Notices.with_notice id req next)
  unfolding Notices.with_notice
  with_notice-Answers id req next q k = search answering depth 8

pub settings_set_language-Answers :
    (c : Codec) (site : Site) (req : Request) (db : Db)
    → Answers is_clean
        (λ after. after ≡ db)
        (Performed c site Route.set_language req db)
        db
        (Settings.set_language site req)
unfolding Settings.set_language Settings.verify_post_requirements
settings_set_language-Answers c site req db =
    search (answering, ConfigInv.set_default_language-IsAtomic, get_member-Answers) depth 16

pub notices_save-Answers :
    (c : Codec) (site : Site) (req : Request) (db : Db)
    → Answers is_clean
        (λ after. after ≡ db)
        (Performed c site Route.notice_save req db)
        db
        (Notices.save site req)
unfolding Notices.save
notices_save-Answers c site req db =
    search (answering, NoticesInv.save-IsAtomic, with_notice-Answers) depth 16

==_to : (a b : ℕ) → (a == b) ≡ true → a ≡ b
==_to a b h = ground (arith, ==_iff a b)

-- An unknown mode is never stored.
unknown_kept : (io : Faults) (db : Db) → (ConfigDb.set_privacy_mode io mode_unknown db).1 ≡ db
unfolding ConfigDb.set_privacy_mode check_mode transact conclude
unknown_kept io db = ground arith

-- The setter of the privacy mode goes on after it has told an error.
privacy_written :
    (io : Faults) (pm : PrivacyMode) (code : ℕ) (e : WebError) (bad : Error → List Write)
    (good : List Write) (db : Db)
    → ((x : Error) → is_clean (bad x) ≡ false)
    → is_clean good ≡ true
    → Answers is_clean
        (λ after. after ≡ db)
        (λ after. ConfigDb.set_privacy_mode io pm db ≡ (ok tt, after))
        db
        (Settings.writing
          (if pm == mode_unknown then handle code e else [])
          (calling (ConfigDb.set_privacy_mode io pm) (λ x. respond (bad x)) (λ done. respond good)))
unfolding Settings.writing
privacy_written io pm code e bad good db tells clean =
    let next =
      calling (ConfigDb.set_privacy_mode io pm) (λ x. respond (bad x)) (λ done. respond good) in
    let R : Db → Type 0 = λ after. ConfigDb.set_privacy_mode io pm db ≡ (ok tt, after) in
    let called : Answers is_clean (λ after. after ≡ db) R db next =
      Answers-calling is_clean (λ after. after ≡ db) R db (ConfigDb.set_privacy_mode io pm) _ _
        (ConfigInv.set_privacy_mode-IsAtomic io pm)
        (λ x. record { good = λ h. absurd (ground (arith, tells x)); bad = λ h. refl })
        (λ a db' h. Answers-done (λ after. after ≡ db) R db' good clean h) in
    elim (Bool-cases (pm == mode_unknown)) [
      | inl k ↦ rw k (record {
        good = λ h.
            absurd (ground (arith, tells_then (handle code e) (next db).0 (handle_tells code e)));
        bad = λ h.
            calling-same (ConfigDb.set_privacy_mode io pm) _ _ db
            ∙ rw (==_to pm mode_unknown k) (unknown_kept io db);
      })
      | inr k ↦ rw k (record { good = called.good; bad = called.bad })
    ]

pub settings_set_privacy-Answers :
    (c : Codec) (site : Site) (req : Request) (db : Db)
    → Answers is_clean
        (λ after. after ≡ db)
        (Performed c site Route.set_privacy req db)
        db
        (Settings.set_privacy site req)
unfolding Settings.set_privacy Settings.verify_post_requirements
settings_set_privacy-Answers c site req db =
    search (answering, handle_then_tells, privacy_written, get_member-Answers) depth 16

untouched :
    (site : Site) (req : Request) (db : Db) → Undone site Route.notice_add_translation req db db
untouched site req db = inl refl

left_saved :
    (site : Site) (req : Request) (db after : Db) (saved : Notice)
    → NoticesDb.save (site.io 1 0) (notice_in 0 req) db ≡ (ok saved, after)
    → Undone site Route.notice_add_translation req db after
left_saved site req db after saved h = inr (saved, h)

pub notices_add_translation-Answers :
    (c : Codec) (site : Site) (req : Request) (db : Db)
    → Answers is_clean
        (Undone site Route.notice_add_translation req db)
        (Performed c site Route.notice_add_translation req db)
        db
        (Notices.add_translation site req)
unfolding Notices.add_translation
notices_add_translation-Answers c site req db =
    search
      (
        answering, NoticesInv.save-IsAtomic, NoticesInv.set-IsAtomic, with_notice-Answers,
        untouched, left_saved,
      )
      depth 18
