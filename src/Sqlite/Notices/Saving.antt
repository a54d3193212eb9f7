-- ===== src/Sqlite/Notices/Saving.antt =====
-- roomdb/sqlite/notices.go: what is read back after a notice was saved or removed.
use go_ssb_room.Base.{
  ℕ, ◌<◌, ◌≡◌, ◌≢◌, refl, Bool, true, false, List, [], ◌∷◌, All, sym, ◌∙◌, arith, Option-cases, inl,
  inr, ◌==◌, ==_refl, ==_iff, Text,
}
use go_ssb_room.Roomdb.{not_found, driver, ok, err}
use go_ssb_room.Sqlite.Rows.{
  select_one, select_one-passes, select_all, update_all, delete_all, exists, select_one-append,
  select_one-none, exists-delete_self,
}
use go_ssb_room.Sqlite.Select.{select_one-updated, exists-select_one}
use go_ssb_room.Sqlite.Db.{NoticeRow, PinNoticeRow, Db, Faults, reliable}
use go_ssb_room.Sqlite.Schema.{is_notice, links, insert_notice, update_notice, delete_notice}
use go_ssb_room.Sqlite.Invariant.{IsWellFormed}
use go_ssb_room.Sqlite.Notices.{
  PinnedNoticeName, Notice, has_pin_name, get, get_by_id, remove_id, save, save_new, save_old,
}
use go_ssb_room.Sqlite.Notices.Laws.{get_shown, get_nowhere, only_notice_anywhere}

-- Nothing has the next id, and an update without a row to write writes nothing.
next_unused :
    (next : ℕ) (rows : List NoticeRow)
    → All (λ (r : NoticeRow). r.id < next) rows
    → exists (is_notice next) rows ≡ false
unfolding exists
next_unused next [] h = refl
next_unused next (r ∷ rows) h = ground (arith, next_unused next rows h.1)

update_all-missing :
    {A : Type 0} (p : A → Bool) (f : A → A) (rows : List A)
    → exists p rows ≡ false
    → update_all p f rows ≡ rows
unfolding exists update_all
update_all-missing p f [] h = refl
update_all-missing p f (r ∷ rows) h = ground (arith, update_all-missing p f rows)

-- Save succeeds where the engine does not refuse its statement. A notice without an id is stored
-- under the next one, and one whose id is in the database under its own, and each is read back by
-- it. For an id that is not in the database, Save reports success all the same, and changes
-- nothing. A statement that is refused gives the engine's error and no change. The engine refuses
-- nothing in the reads.
pub save-get_by_id :
    (n : Notice) (db : Db)
    → IsWellFormed db
    → let saved = save false n db in
      (n.id ≡ 0
        → (saved.0 ≡ ok (record n { id = db.next_notice }))
          × ((get_by_id reliable db.next_notice saved.1).0 ≡ ok (record n { id = db.next_notice })))
      × (n.id ≢ 0
          → exists (is_notice n.id) db.notices ≡ true
          → (saved.0 ≡ ok n) × ((get_by_id reliable n.id saved.1).0 ≡ ok n))
      × (n.id ≢ 0 → exists (is_notice n.id) db.notices ≡ false → saved ≡ (ok n, db))
      × (save true n db ≡ (err driver, db))
unfolding save save_new save_old get_by_id insert_notice update_notice
save-get_by_id n db w =
    let write : NoticeRow → NoticeRow =
      λ r. record r { title = n.title; content = n.content; language = n.language } in
    let unused = next_unused db.next_notice db.notices w.notices.below in
    let row : NoticeRow = record {
      id = db.next_notice;
      title = n.title;
      content = n.content;
      language = n.language;
    } in
    (
      λ zero. (
        ground arith,
        ground (
          arith,
          select_one-append (is_notice db.next_notice) db.notices row unused
              (==_refl db.next_notice),
        ),
      ),
      λ old there.
          let (r, chosen) = exists-select_one (is_notice n.id) db.notices there in
          let named : r.id ≡ n.id =
            ground (arith, select_one-passes (is_notice n.id) db.notices r chosen) in
          let written =
            select_one-updated (λ (s : NoticeRow). s.id) (is_notice n.id) write db.notices r
              (λ s. refl) chosen in
          (ground arith, ground (arith, rw named at written)),
      λ old missing. ground (arith, update_all-missing (is_notice n.id) write db.notices missing),
      ground arith,
    )

-- Rows that are deleted were not shown.
select_all-deleted :
    {A : Type 0} (p q : A → Bool) (rows : List A)
    → ((s : A) → q s ≡ true → p s ≡ false)
    → select_all p (delete_all q rows) ≡ select_all p rows
unfolding select_all delete_all
select_all-deleted p q [] k = refl
select_all-deleted p q (x ∷ rows) k = ground (arith, k x, select_all-deleted p q rows k)

-- A notice without any link has none to a given pin.
unlinked :
    (n p : ℕ) (pairs : List PinNoticeRow)
    → exists (λ (r : PinNoticeRow). r.notice_id == n) pairs ≡ false
    → exists (links n p) pairs ≡ false
unfolding exists
unlinked n p [] h = refl
unlinked n p (r ∷ pairs) h = ground (arith, unlinked n p pairs)

-- What a successful RemoveID found and wrote.
remove_id_effect :
    (io : Faults) (id : ℕ) (db : Db)
    → (remove_id io id db).0 ≡ ok tt
    → (exists (λ (p : PinNoticeRow). p.notice_id == id) db.pin_notices ≡ false)
      × ((remove_id io id db).1 ≡ record db { notices = delete_all (is_notice id) db.notices })
unfolding remove_id delete_notice
remove_id_effect io id db h = elim (Option-cases (select_one (is_notice id) db.notices)) [
  | inl e ↦ absurd (ground arith)
  | inr (n, e) ↦
      let named : n.id ≡ id =
        ground (arith, select_one-passes (is_notice id) db.notices n e, ==_iff n.id id) in
      (ground arith, ground arith)
]

-- A notice whose RemoveID succeeds is not found any more, and whatever name and language is asked
-- for, Get answers as before. The engine refuses nothing in these reads.
remove_id-get :
    (io : Faults) (id : ℕ) (name : PinnedNoticeName) (lang : Text) (db : Db)
    → (remove_id io id db).0 ≡ ok tt
    → let after = (remove_id io id db).1 in
      ((get_by_id reliable id after).0 ≡ err not_found)
      × ((get reliable name lang after).0 ≡ (get reliable name lang db).0)
unfolding get_by_id
remove_id-get io id name lang db h =
    let (free, effect) = remove_id_effect io id db h in
    let db' : Db = record db { notices = delete_all (is_notice id) db.notices } in
    rw effect (
      ground (
        arith,
        select_one-none (is_notice id) (delete_all (is_notice id) db.notices)
            (exists-delete_self (is_notice id) db.notices),
      ),
      elim (Option-cases (select_one (has_pin_name name) db.pins)) [
        | inl e ↦ get_nowhere name lang db' e ∙ sym (get_nowhere name lang db e)
        | inr (p, e) ↦
            let same =
              select_all-deleted (λ (n : NoticeRow). exists (links n.id p.id) db.pin_notices)
                (is_notice id) db.notices
                (λ n gone. ground (arith, unlinked id p.id db.pin_notices free, ==_iff n.id id)) in
            get_shown name lang p db' e
            ∙ (rw same (only_notice_anywhere _ db' db) ∙ sym (get_shown name lang p db e))
      ],
    )
