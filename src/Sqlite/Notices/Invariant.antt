-- ===== src/Sqlite/Notices/Invariant.antt =====
-- roomdb/sqlite/notices.go keeps the invariant, and fails without a trace.
use go_ssb_room.Base.{
  ℕ, ◌<◌, ◌≡◌, ◌≢◌, refl, Bool, true, false, Bool-cases, inl, inr, List, [], ◌∷◌, ◌++◌, ◌+◌, ◌==◌,
  ◌&&◌, arith, Text,
}
use go_ssb_room.Sqlite.Rows.{
  exists, update_all, delete_all, All-imp, All-append, exists-append, exists-update, exists-delete,
}
use go_ssb_room.Sqlite.Db.{NoticeRow, PinRow, PinNoticeRow, Faults}
use go_ssb_room.Sqlite.Schema.{
  is_notice, is_pin, links, insert_notice, update_notice, delete_notice, insert_pin_notice,
}
use go_ssb_room.Sqlite.Tables.{IsTable-append, IsTable-delete, IsTable-update}
use go_ssb_room.Sqlite.Keeps.{Keeps, IsAtomic, keeping, atomicity}
use go_ssb_room.Sqlite.Invariant.{IsWellFormed, IsRelation, LinksTo, with_notices, with_pin_notices}
use go_ssb_room.Sqlite.Notices.{Notice, PinnedNoticeName, set, remove_id, save_new, save_old, save}

-- Links stay good where rows are added or rewritten under their ids.
module _ {Row : Type 0} (same : PinNoticeRow → Row → Bool) where
  LinksTo-append :
      (pairs : List PinNoticeRow) (rows : List Row) (r : Row)
      → LinksTo same pairs rows
      → LinksTo same pairs (rows ++ r ∷ [])
  LinksTo-append pairs rows r =
      All-imp (λ p. exists (same p) rows ≡ true) (λ p. exists (same p) (rows ++ r ∷ []) ≡ true)
        pairs (λ p h. ground (arith, exists-append (same p) rows (r ∷ [])))

  LinksTo-update :
      (q : Row → Bool) (f : Row → Row) (pairs : List PinNoticeRow) (rows : List Row)
      → ((p : PinNoticeRow) (r : Row) → same p (f r) ≡ same p r)
      → LinksTo same pairs rows
      → LinksTo same pairs (update_all q f rows)
  LinksTo-update q f pairs rows k =
      All-imp (λ p. exists (same p) rows ≡ true) (λ p. exists (same p) (update_all q f rows) ≡ true)
        pairs (λ p h. rw (exists-update (same p) q f rows (k p)) h)

abbrev of_notice : PinNoticeRow → NoticeRow → Bool
of_notice p n = n.id == p.notice_id

insert_notice-Keeps :
    (title content language : Text) → Keeps IsWellFormed (insert_notice title content language)
unfolding insert_notice
insert_notice-Keeps title content language = record {
  apply = λ db w.
      let row : NoticeRow = record {
        id = db.next_notice;
        title = title;
        content = content;
        language = language;
      } in
      let fresh =
        All-imp (λ (n : NoticeRow). n.id < db.next_notice) (λ n. n.id ≢ db.next_notice) db.notices
          (λ n lt e. omega arith) w.notices.below in
      with_notices db w (db.notices ++ row ∷ []) (db.next_notice + 1)
        (IsTable-append db.next_notice db.notices row refl fresh w.notices)
        (LinksTo-append of_notice db.pin_notices db.notices row w.pinned_notice);
}

update_notice-Keeps :
    (n : ℕ) (title content language : Text)
    → Keeps IsWellFormed (update_notice n title content language)
unfolding update_notice
update_notice-Keeps n title content language = record {
  apply = λ db w.
      let write : NoticeRow → NoticeRow =
        λ r. record r { title = title; content = content; language = language } in
      with_notices db w (update_all (is_notice n) write db.notices) db.next_notice
        (IsTable-update (is_notice n) write db.next_notice db.notices (λ r. refl) (λ r. refl)
          w.notices)
        (LinksTo-update of_notice (is_notice n) write db.pin_notices db.notices (λ p r. refl)
          w.pinned_notice);
}

-- No link is to a notice that may be deleted.
LinksTo-delete :
    (n : ℕ) (pairs : List PinNoticeRow) (rows : List NoticeRow)
    → exists (λ (p : PinNoticeRow). p.notice_id == n) pairs ≡ false
    → LinksTo of_notice pairs rows
    → LinksTo of_notice pairs (delete_all (is_notice n) rows)
unfolding exists
LinksTo-delete n [] rows h k = tt
LinksTo-delete n (p ∷ pairs) rows h k =
    let apart : (r : NoticeRow) → of_notice p r ≡ true → is_notice n r ≡ false =
      λ r same. ground arith in
    (
      rw (exists-delete (of_notice p) (is_notice n) rows apart) k.0,
      LinksTo-delete n pairs rows (ground arith) k.1,
    )

delete_notice-Keeps : (n : ℕ) → Keeps IsWellFormed (delete_notice n)
unfolding delete_notice
delete_notice-Keeps n = record {
  apply = λ db w.
      elim (Bool-cases (exists (λ (p : PinNoticeRow). p.notice_id == n) db.pin_notices)) [
        | inl e ↦ rw e w
        | inr e ↦ rw e (
            with_notices db w (delete_all (is_notice n) db.notices) db.next_notice
              (IsTable-delete (is_notice n) db.next_notice db.notices w.notices)
              (LinksTo-delete n db.pin_notices db.notices e w.pinned_notice))
      ];
}

IsRelation-append :
    (n p : ℕ) (pairs : List PinNoticeRow)
    → exists (links n p) pairs ≡ false
    → IsRelation pairs
    → IsRelation (pairs ++ record { notice_id = n; pin_id = p } ∷ [])
unfolding exists
IsRelation-append n p [] h k = (tt, tt)
IsRelation-append n p (x ∷ pairs) h k = (
  All-append (λ s. links x.notice_id x.pin_id s ≡ false) pairs _ k.0 (ground arith, tt),
  IsRelation-append n p pairs (ground arith) k.1,
)

insert_pin_notice-Keeps : (pin n : ℕ) → Keeps IsWellFormed (insert_pin_notice pin n)
unfolding insert_pin_notice
insert_pin_notice-Keeps pin n = record {
  apply = λ db w.
      let rows = db.pin_notices ++ record { notice_id = n; pin_id = pin } ∷ [] in
      elim (Bool-cases (exists (links n pin) db.pin_notices)) [
        | inl e ↦ rw e w
        | inr e ↦
            elim (Bool-cases (exists (is_notice n) db.notices && exists (is_pin pin) db.pins)) [
              | inr k ↦ rw (e, k) w
              | inl k ↦
                  rw (e, k)
                    (with_pin_notices db w rows
                      (IsRelation-append n pin db.pin_notices e w.pin_pairs)
                      (All-append (λ p. exists (of_notice p) db.notices ≡ true) db.pin_notices _
                        w.pinned_notice (ground arith, tt))
                      (All-append (λ p. exists (λ (r : PinRow). r.id == p.pin_id) db.pins ≡ true)
                        db.pin_notices _ w.linked_pin (ground arith, tt)))
            ]
      ];
}

pub set-Keeps :
    (io : Faults) (name : PinnedNoticeName) (id : ℕ) → Keeps IsWellFormed (set io name id)
unfolding set
set-Keeps io name id = search (keeping, insert_pin_notice-Keeps) depth 12

pub remove_id-Keeps : (io : Faults) (id : ℕ) → Keeps IsWellFormed (remove_id io id)
unfolding remove_id
remove_id-Keeps io id = search (keeping, delete_notice-Keeps) depth 12

save_new-Keeps : (b : Bool) (n : Notice) → Keeps IsWellFormed (save_new b n)
unfolding save_new
save_new-Keeps b n = search (keeping, insert_notice-Keeps) depth 12

save_old-Keeps : (b : Bool) (n : Notice) → Keeps IsWellFormed (save_old b n)
unfolding save_old
save_old-Keeps b n = search (keeping, update_notice-Keeps) depth 12

pub save-Keeps : (b : Bool) (n : Notice) → Keeps IsWellFormed (save b n)
unfolding save
save-Keeps b n = elim (Bool-cases (n.id == 0)) [
  | inl e ↦ rw e (save_new-Keeps b n)
  | inr e ↦ rw e (save_old-Keeps b n)
]

insert_notice-IsAtomic :
    (title content language : Text) → IsAtomic (insert_notice title content language)
unfolding insert_notice
insert_notice-IsAtomic title content language = record { apply = λ db e h. absurd (ground arith) }

update_notice-IsAtomic :
    (n : ℕ) (title content language : Text) → IsAtomic (update_notice n title content language)
unfolding update_notice
update_notice-IsAtomic n title content language = record { apply = λ db e h. absurd (ground arith) }

delete_notice-IsAtomic : (n : ℕ) → IsAtomic (delete_notice n)
unfolding delete_notice
delete_notice-IsAtomic n = record { apply = λ db e h. ground arith }

insert_pin_notice-IsAtomic : (pin n : ℕ) → IsAtomic (insert_pin_notice pin n)
unfolding insert_pin_notice
insert_pin_notice-IsAtomic pin n = record { apply = λ db e h. ground arith }

pub set-IsAtomic : (io : Faults) (name : PinnedNoticeName) (id : ℕ) → IsAtomic (set io name id)
unfolding set
set-IsAtomic io name id = search (atomicity, insert_pin_notice-IsAtomic) depth 12

pub remove_id-IsAtomic : (io : Faults) (id : ℕ) → IsAtomic (remove_id io id)
unfolding remove_id
remove_id-IsAtomic io id = search (atomicity, delete_notice-IsAtomic) depth 12

save_new-IsAtomic : (b : Bool) (n : Notice) → IsAtomic (save_new b n)
unfolding save_new
save_new-IsAtomic b n = search (atomicity, insert_notice-IsAtomic) depth 12

save_old-IsAtomic : (b : Bool) (n : Notice) → IsAtomic (save_old b n)
unfolding save_old
save_old-IsAtomic b n = search (atomicity, update_notice-IsAtomic) depth 12

pub save-IsAtomic : (b : Bool) (n : Notice) → IsAtomic (save b n)
unfolding save
save-IsAtomic b n = elim (Bool-cases (n.id == 0)) [
  | inl e ↦ rw e (save_new-IsAtomic b n)
  | inr e ↦ rw e (save_old-IsAtomic b n)
]
