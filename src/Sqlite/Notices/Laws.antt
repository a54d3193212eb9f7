-- ===== src/Sqlite/Notices/Laws.antt =====
-- roomdb/sqlite/notices.go: which notice a name shows after a notice was pinned.
use go_ssb_room.Base.{
  ℕ, suc, ◌≡◌, ◌≢◌, refl, Bool, true, false, ◌||◌, none, some, List, [], ◌∷◌, ◌++◌, length, All,
  sym, ◌∙◌, arith, Bool-cases, Option-cases, inl, inr, ◌==◌, ==_refl, ==_iff, Text, text_eq_refl,
}
use go_ssb_room.Roomdb.{not_found, notice_count, ok, err}
use go_ssb_room.Sqlite.Rows.{
  Distinct, select_one, select_one-passes, select_all, exists, exists-append, exists_singleton,
}
use go_ssb_room.Sqlite.Db.{NoticeRow, PinRow, PinNoticeRow, Db, Faults, reliable}
use go_ssb_room.Sqlite.Schema.{is_notice, links, insert_pin_notice}
use go_ssb_room.Sqlite.Invariant.{IsWellFormed}
use go_ssb_room.Sqlite.Notices.{
  PinnedNoticeName, Notice, to_notice, pinned_to, has_pin_name, in_language, only_notice, get, set,
  get_by_id,
}

-- One more row passes.
module _ {A : Type 0} (id : A → ℕ) (n : A) (p p' q : A → Bool) where
  select_all-others :
      (rows : List A)
      → ((s : A) → p' s ≡ (p s || (id n == id s)))
      → All (λ s. id s ≢ id n) rows
      → select_all p' rows ≡ select_all p rows
  unfolding select_all
  select_all-others [] k h = refl
  select_all-others (x ∷ rows) k h =
      ground (arith, k x, ==_iff (id n) (id x), select_all-others rows k h.1)

  select_all-grown :
      (rows : List A)
      → ((s : A) → p' s ≡ (p s || (id n == id s)))
      → p n ≡ false
      → q n ≡ true
      → Distinct id rows
      → select_one (λ s. id s == id n) rows ≡ some n
      → (length (select_all q (select_all p' rows))
          ≡ suc (length (select_all q (select_all p rows))))
        × (select_all q (select_all p rows) ≡ [] → select_all q (select_all p' rows) ≡ n ∷ [])
  unfolding select_all select_one
  select_all-grown [] k miss pass d h = absurd (ground arith)
  select_all-grown (x ∷ rows) k miss pass d h = elim (Bool-cases (id x == id n)) [
    | inl e ↦
        let same : x ≡ n = ground arith in
        let rest = select_all-others rows k (rw same at d.0) in
        (ground (arith, k x, ==_refl (id n)), λ none. ground (arith, k x, ==_refl (id n)))
    | inr e ↦
        let (longer, alone) = select_all-grown rows k miss pass d.1 (ground arith) in
        (
          ground (arith, k x, ==_iff (id n) (id x)),
          λ none. ground (arith, k x, ==_iff (id n) (id x)),
        )
  ]

-- What a successful Set found and wrote.
set_effect :
    (io : Faults) (name : PinnedNoticeName) (id : ℕ) (db : Db)
    → (set io name id db).0 ≡ ok tt
    → (n : NoticeRow) × (p : PinRow) × (select_one (is_notice id) db.notices ≡ some n)
      × (select_one (has_pin_name name) db.pins ≡ some p)
      × (exists (links n.id p.id) db.pin_notices ≡ false)
      × ((set io name id db).1 ≡ record db {
        pin_notices = db.pin_notices ++ record { notice_id = n.id; pin_id = p.id } ∷ [];
      })
unfolding set insert_pin_notice
set_effect io name id db h = elim (Option-cases (select_one (is_notice id) db.notices)) [
  | inl e ↦ absurd (ground arith)
  | inr (n, e) ↦ elim (Option-cases (select_one (has_pin_name name) db.pins)) [
    | inl k ↦ absurd (ground arith)
    | inr (p, k) ↦ (n, p, e, k, ground arith, ground arith)
  ]
]

-- One more notice that a name shows in a language, by how many it showed before.
one_more :
    (before after : List NoticeRow) (n : NoticeRow) (db db' : Db)
    → length after ≡ suc (length before)
    → (before ≡ [] → after ≡ n ∷ [])
    → ((only_notice before db).0 ≡ err (notice_count 0)
        → (only_notice after db').0 ≡ ok (to_notice n))
      × ((m : Notice)
          → (only_notice before db).0 ≡ ok m
          → (only_notice after db').0 ≡ err (notice_count 2))
unfolding only_notice
one_more [] after n db db' longer alone = (λ h. rw (alone refl), λ m h. absurd (ground arith))
one_more (a ∷ []) [] n db db' longer alone = absurd (ground arith)
one_more (a ∷ []) (b ∷ []) n db db' longer alone = absurd (ground arith)
one_more (a ∷ []) (b ∷ c ∷ []) n db db' longer alone = (λ h. absurd (ground arith), λ m h. refl)
one_more (a ∷ []) (b ∷ c ∷ d ∷ rest) n db db' longer alone = absurd (ground arith)
one_more (a ∷ b ∷ rest) after n db db' longer alone =
    (λ h. absurd (ground arith), λ m h. absurd (ground arith))

-- What Get reads, at the pin of that name.
pub get_shown :
    (name : PinnedNoticeName) (lang : Text) (p : PinRow) (db : Db)
    → select_one (has_pin_name name) db.pins ≡ some p
    → (get reliable name lang db).0
      ≡ (only_notice (select_all (in_language lang) (pinned_to p db)) db).0
unfolding get
get_shown name lang p db pin = rw pin

pub get_nowhere :
    (name : PinnedNoticeName) (lang : Text) (db : Db)
    → select_one (has_pin_name name) db.pins ≡ none
    → (get reliable name lang db).0 ≡ err not_found
unfolding get
get_nowhere name lang db missing = rw missing

pub only_notice_anywhere :
    (rows : List NoticeRow) (db db' : Db) → (only_notice rows db).0 ≡ (only_notice rows db').0
unfolding only_notice
only_notice_anywhere [] db db' = refl
only_notice_anywhere (n ∷ []) db db' = refl
only_notice_anywhere (n ∷ m ∷ rows) db db' = refl

-- In a well-formed database, a Set that succeeds pins a notice that is there. Where the name had
-- none in the language of that notice, Get gives it from then on; where it had one, Get fails from
-- then on, since there are two. The engine refuses nothing in these reads.
pub set-get :
    (io : Faults) (name : PinnedNoticeName) (id : ℕ) (db : Db)
    → IsWellFormed db
    → (set io name id db).0 ≡ ok tt
    → let after = (set io name id db).1 in
      (n : Notice) × ((get_by_id reliable id db).0 ≡ ok n)
      × ((get reliable name n.language db).0 ≡ err (notice_count 0)
          → (get reliable name n.language after).0 ≡ ok n)
      × ((m : Notice)
          → (get reliable name n.language db).0 ≡ ok m
          → (get reliable name n.language after).0 ≡ err (notice_count 2))
unfolding get get_by_id
set-get io name id db w h =
    let (n, p, chosen, pin, free, effect) = set_effect io name id db h in
    let pair : PinNoticeRow = record { notice_id = n.id; pin_id = p.id } in
    let linked : NoticeRow → Bool = λ s. exists (links s.id p.id) db.pin_notices in
    let linked' : NoticeRow → Bool = λ s. exists (links s.id p.id) (db.pin_notices ++ pair ∷ []) in
    let grows : (s : NoticeRow) → linked' s ≡ (linked s || (n.id == s.id)) = λ s. ground (
      arith,
      exists-append (links s.id p.id) db.pin_notices (pair ∷ []),
      exists_singleton (links s.id p.id) pair,
      ==_refl p.id,
    ) in
    let named : n.id ≡ id =
      ground (arith, select_one-passes (is_notice id) db.notices n chosen, ==_iff n.id id) in
    let (longer, alone) =
      select_all-grown (λ (s : NoticeRow). s.id) n linked linked' (in_language n.language)
        db.notices grows free (text_eq_refl n.language) w.notices.ids (rw (named, chosen)) in
    let before = select_all (in_language n.language) (select_all linked db.notices) in
    let after = select_all (in_language n.language) (select_all linked' db.notices) in
    let db' : Db = record db { pin_notices = db.pin_notices ++ pair ∷ [] } in
    let (first, second) = one_more before after n db db' longer alone in
    let shows = get_shown name n.language p db pin in
    let shows' = get_shown name n.language p db' pin in
    (
      to_notice n,
      ground arith,
      λ none. rw effect (shows' ∙ first (sym shows ∙ none)),
      λ m one. rw effect (shows' ∙ second m (sym shows ∙ one)),
    )
