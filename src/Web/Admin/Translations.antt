-- ===== src/Web/Admin/Translations.antt =====
-- web/handlers/admin/notices.go: what the form for a translation of a pinned notice leaves behind.
use mathlib.Core.Path.{subst}
use go_ssb_room.Base.{
  ℕ, ◌+◌, ◌<◌, ◌≡◌, ◌∙◌, sym, refl, Bool, true, false, List, [], ◌∷◌, ◌++◌, All, Text, codes, arith,
  Option-cases, inl, inr, ◌==◌,
}
use go_ssb_room.Roomdb.{notice_count, Result-cases, ok, err}
use go_ssb_room.Sqlite.Rows.{select_one, select_all, exists, All-select_one, select_one-passes}
use go_ssb_room.Sqlite.Select.{exists-select_one}
use go_ssb_room.Sqlite.Db.{NoticeRow, PinNoticeRow, Db, reliable}
use go_ssb_room.Sqlite.Schema.{links, insert_notice}
use go_ssb_room.Sqlite.Invariant.{IsWellFormed, LinksTo}
use go_ssb_room.Sqlite.Notices.{
  PinnedNoticeName, Notice, has_pin_name, get, get_by_id, set, save, save_new, save_old,
}
use go_ssb_room.Sqlite.Notices.Invariant.{save-Keeps}
use go_ssb_room.Sqlite.Notices.Saving.{save-get_by_id}
use go_ssb_room.Sqlite.Notices.Laws.{set-get, get_shown, get_nowhere, only_notice_anywhere}
use go_ssb_room.Web.Errors.{Write, add_error, flash_message, see_other, handle, handle_as}
use go_ssb_room.Web.Request.{Request, Site, if_allowed, unless, parsed, on_call, add_writes}
use go_ssb_room.Web.Admin.Notices.{add_translation, with_notice, fix_newlines, redirect_of}

select_all-miss :
    {A : Type 0} (p : A → Bool) (rows : List A) (r : A)
    → p r ≡ false
    → select_all p (rows ++ r ∷ []) ≡ select_all p rows
unfolding select_all
select_all-miss p [] r h = rw h
select_all-miss p (x ∷ rows) r h = ground (arith, select_all-miss p rows r h)

-- Nothing is linked to an id that no notice has.
unlinked_next :
    (next p : ℕ) (rows : List NoticeRow) (pairs : List PinNoticeRow)
    → All (λ (n : NoticeRow). n.id < next) rows
    → LinksTo (λ q n. n.id == q.notice_id) pairs rows
    → exists (links next p) pairs ≡ false
unfolding exists
unlinked_next next p rows [] below h = refl
unlinked_next next p rows (x ∷ pairs) below h =
    let (n, chosen) = exists-select_one (λ (m : NoticeRow). m.id == x.notice_id) rows h.0 in
    let lower : n.id < next =
      All-select_one (λ (m : NoticeRow). m.id < next) (λ m. m.id == x.notice_id) rows n below
        chosen in
    let same = select_one-passes (λ (m : NoticeRow). m.id == x.notice_id) rows n chosen in
    ground (arith, unlinked_next next p rows pairs below h.1)

-- Saving a new notice changes nothing of what the names show.
saved-get :
    (n m : Notice) (name : PinnedNoticeName) (lang : Text) (db : Db)
    → IsWellFormed db
    → n.id ≡ 0
    → (save false n db).0 ≡ ok m
    → (get reliable name lang (save false n db).1).0 ≡ (get reliable name lang db).0
unfolding save save_new insert_notice
saved-get n m name lang db w zero h =
    let row : NoticeRow = record {
      id = db.next_notice;
      title = n.title;
      content = n.content;
      language = n.language;
    } in
    let db' : Db = record db {
      notices = db.notices ++ row ∷ [];
      next_notice = db.next_notice + 1;
    } in
    let effect : (save false n db).1 ≡ db' = ground arith in
    rw effect (elim (Option-cases (select_one (has_pin_name name) db.pins)) [
      | inl e ↦ get_nowhere name lang db' e ∙ sym (get_nowhere name lang db e)
      | inr (p, e) ↦
          let miss =
            unlinked_next db.next_notice p.id db.notices db.pin_notices w.notices.below
              w.pinned_notice in
          let same =
            select_all-miss (λ (n : NoticeRow). exists (links n.id p.id) db.pin_notices) db.notices
              row miss in
          get_shown name lang p db' e
          ∙ (rw same (only_notice_anywhere _ db' db) ∙ sym (get_shown name lang p db e))
    ])

-- What the form writes where it succeeds.
abbrev pub pinned : Site → Request → List Write
pinned site req = flash_message (codes "NoticeUpdated") ∷ see_other (redirect_of site req) ∷ []

-- The notice that the form describes.
abbrev pub draft : Request → ℕ → Notice
draft req id = record {
  id = id;
  title = req.form (codes "title");
  content = fix_newlines (req.form (codes "content"));
  language = req.form (codes "language");
}

add_translation_effect :
    (site : Site) (req : Request) (db : Db)
    → (add_translation site req db).0 ≡ pinned site req
    → let stored = save (site.io 1 0) (draft req 0) db in
      (m : Notice) × (stored.0 ≡ ok m)
      × ((set (site.io 2) (req.form (codes "name")) m.id stored.1).0 ≡ ok tt)
      × ((add_translation site req db).1
          ≡ (set (site.io 2) (req.form (codes "name")) m.id stored.1).1)
unfolding add_translation if_allowed unless parsed with_notice on_call add_writes add_error handle
    handle_as
add_translation_effect site req db h = elim (Result-cases (save (site.io 1 0) (draft req 0) db).0) [
  | inr (x, e) ↦ absurd (ground arith)
  | inl (m, e) ↦
      elim (Result-cases
        (set (site.io 2) (req.form (codes "name")) m.id
          (save (site.io 1 0) (draft req 0) db).1).0) [
            | inr (x, k) ↦ absurd (ground arith)
            | inl (t, k) ↦ (m, e, ground arith, ground arith)
          ]
]

-- A save that succeeds was not refused.
save_runs : (b : Bool) (n m : Notice) (db : Db) → (save b n db).0 ≡ ok m → b ≡ false
unfolding save save_new save_old
save_runs true n m db h = absurd (ground arith)
save_runs false n m db h = refl

-- In a well-formed database, where the form for a translation reports success, the name of the form
-- shows the new notice in the language of the form, if it showed none in it before; if it showed
-- one, it shows an error from then on, since Get expects a single notice. The engine refuses
-- nothing in these reads.
pub add_translation-get :
    (site : Site) (req : Request) (db : Db)
    → IsWellFormed db
    → (add_translation site req db).0 ≡ pinned site req
    → let name = req.form (codes "name") in
      let lang = req.form (codes "language") in
      let after = (add_translation site req db).1 in
      ((get reliable name lang db).0 ≡ err (notice_count 0)
        → (get reliable name lang after).0 ≡ ok (draft req db.next_notice))
      × ((n : Notice)
          → (get reliable name lang db).0 ≡ ok n
          → (get reliable name lang after).0 ≡ err (notice_count 2))
add_translation-get site req db w h =
    let name = req.form (codes "name") in
    let lang = req.form (codes "language") in
    let (m, stored, placed, effect) = add_translation_effect site req db h in
    let up : site.io 1 0 ≡ false = save_runs (site.io 1 0) (draft req 0) m db stored in
    let stored' : (save false (draft req 0) db).0 ≡ ok m = rw up at stored in
    let db1 = (save false (draft req 0) db).1 in
    let after = (set (site.io 2) name m.id db1).1 in
    let effect' : (add_translation site req db).1 ≡ after = rw up at effect in
    let w1 : IsWellFormed db1 = (save-Keeps false (draft req 0)).apply db w in
    let (made, found) = (save-get_by_id (draft req 0) db w).0 refl in
    let numbered : m ≡ record (draft req 0) { id = db.next_notice } = ground arith in
    let read : (get_by_id reliable m.id db1).0 ≡ ok m = rw numbered found in
    let (n, there, first, second) = set-get (site.io 2) name m.id db1 w1 (rw up at placed) in
    let same : n ≡ draft req db.next_notice = ground arith in
    let before = saved-get (draft req 0) m name lang db w refl stored' in
    rw effect' (
      λ none.
          subst
            (λ x.
              (get reliable name x.language db1).0 ≡ err (notice_count 0)
              → (get reliable name x.language after).0 ≡ ok x)
            same first (before ∙ none),
      λ o one.
          subst
            (λ x.
              (k : Notice)
              → (get reliable name x.language db1).0 ≡ ok k
              → (get reliable name x.language after).0 ≡ err (notice_count 2))
            same second o (before ∙ one),
    )
