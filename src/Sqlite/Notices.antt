-- ===== src/Sqlite/Notices.antt =====
-- roomdb/sqlite/notices.go and the notices of roomdb/types.go: texts that the pages of the room
-- show, and the four well known places that they are pinned to, in any number of languages.
-- A join gives its rows by the id of the notice.
pub mod Invariant
pub mod Laws
pub mod Saving
use go_ssb_room.Base.{
  ℕ, Bool, true, false, not, Option, none, some, List, [], ◌∷◌, ◌++◌, map, ◌==◌, ◌&&◌, ◌||◌, Text,
  text_eq, codes, length, if◌then◌else◌,
}
use go_ssb_room.Roomdb.{
  Error, not_found, no_rows, invalid_notice_name, notice_count, Result, ok, err,
}
use go_ssb_room.Sqlite.Rows.{select_one, select_all, exists}
use go_ssb_room.Sqlite.Db.{
  NoticeRow, PinRow, Db, Faults, Action, done, fail, ◌>>=◌, ◌>>◌, require, found, statement, query,
}
use go_ssb_room.Sqlite.Schema.{
  is_notice, links, insert_notice, update_notice, delete_notice, insert_pin_notice,
}

-- `PinnedNoticeName` and its constants.
abbrev pub PinnedNoticeName : Type 0
PinnedNoticeName = Text

abbrev pub notice_description : PinnedNoticeName
notice_description = codes "NoticeDescription"

abbrev pub notice_news : PinnedNoticeName
notice_news = codes "NoticeNews"

abbrev pub notice_privacy_policy : PinnedNoticeName
notice_privacy_policy = codes "NoticePrivacyPolicy"

abbrev pub notice_code_of_conduct : PinnedNoticeName
notice_code_of_conduct = codes "NoticeCodeOfConduct"

-- `PinnedNoticeName.Valid`
unfoldable pub is_valid : PinnedNoticeName → Bool
is_valid n =
    text_eq n notice_news
    || (text_eq n notice_description
        || (text_eq n notice_privacy_policy || text_eq n notice_code_of_conduct))

-- `roomdb.Notice`
pub record Notice : Type 0 where
  pub id : ℕ
  pub title : Text
  pub content : Text
  pub language : Text

-- `roomdb.PinnedNotice`; the map `PinnedNotices` is a list of these, in the order Go walks it.
pub record PinnedNotice : Type 0 where
  pub name : PinnedNoticeName
  pub notices : List Notice

abbrev pub to_notice : NoticeRow → Notice
to_notice n = record { id = n.id; title = n.title; content = n.content; language = n.language }

-- The notices that the join loads for a pin.
abbrev pub pinned_to : PinRow → Db → List NoticeRow
pinned_to p db = select_all (λ (n : NoticeRow). exists (links n.id p.id) db.pin_notices) db.notices

-- `PinnedNotices.List`: a pin without notices has no entry, and pins of one name share theirs.
unfoldable pub add_pinned : PinnedNoticeName → List Notice → List PinnedNotice → List PinnedNotice
add_pinned name notices [] = record { name = name; notices = notices } ∷ []
add_pinned name notices (p ∷ rest) =
    let later = add_pinned name notices rest in
    if text_eq p.name name then record p { notices = p.notices ++ notices } ∷ rest else p ∷ later

unfoldable pub add_pin : PinRow → List NoticeRow → List PinnedNotice → List PinnedNotice
unfolding add_pinned
add_pin p [] pinned = pinned
add_pin p (n ∷ rows) pinned = add_pinned p.name (map to_notice (n ∷ rows)) pinned

unfoldable pub collect : List PinRow → Db → List PinnedNotice → List PinnedNotice
unfolding add_pin
collect [] db pinned = pinned
collect (p ∷ pins) db pinned = collect pins db (add_pin p (pinned_to p db) pinned)

unfoldable pub list : Faults → Action (List PinnedNotice)
unfolding collect
list io = do pins ← query (io 0) (λ db. db.pins); query (io 1) (λ db. collect pins db [])

abbrev pub has_pin_name : PinnedNoticeName → PinRow → Bool
has_pin_name name p = text_eq p.name name

abbrev pub in_language : Text → NoticeRow → Bool
in_language lang n = text_eq n.language lang

unfoldable pub only_notice : List NoticeRow → Action Notice
only_notice [] = fail (notice_count 0)
only_notice (n ∷ []) = done (to_notice n)
only_notice (n ∷ m ∷ rows) = fail (notice_count (length (n ∷ m ∷ rows)))

-- `PinnedNotices.Get`
unfoldable pub get : Faults → PinnedNoticeName → Text → Action Notice
unfolding only_notice
get io name lang = do
  row ← query (io 0) (λ db. select_one (has_pin_name name) db.pins)
  pin ← found row not_found
  rows ← query (io 1) (λ db. select_all (in_language lang) (pinned_to pin db))
  only_notice rows

-- `PinnedNotices.Set`
unfoldable pub set : Faults → PinnedNoticeName → ℕ → Action (Unit {0})
set io name id = do
  require (is_valid name) invalid_notice_name
  row ← query (io 0) (λ db. select_one (is_notice id) db.notices)
  notice ← found row not_found
  place ← query (io 1) (λ db. select_one (has_pin_name name) db.pins)
  pin ← found place no_rows
  statement (io 2) (insert_pin_notice pin.id notice.id)

-- `Notices.GetByID`
unfoldable pub get_by_id : Faults → ℕ → Action Notice
get_by_id io id = do
  row ← query (io 0) (λ db. select_one (is_notice id) db.notices)
  notice ← found row not_found
  done (to_notice notice)

-- `Notices.RemoveID`
unfoldable pub remove_id : Faults → ℕ → Action (Unit {0})
remove_id io id = do
  row ← query (io 0) (λ db. select_one (is_notice id) db.notices)
  notice ← found row not_found
  statement (io 1) (delete_notice notice.id)

unfoldable pub save_new : Bool → Notice → Action Notice
save_new refused n = do
  id ← statement refused (insert_notice n.title n.content n.language)
  done (record n { id = id })

unfoldable pub save_old : Bool → Notice → Action Notice
save_old refused n = do
  _ ← statement refused (update_notice n.id n.title n.content n.language)
  done n

-- `Notices.Save`, with the notice as it leaves it: a new one gets its id.
unfoldable pub save : Bool → Notice → Action Notice
unfolding save_new save_old
save refused n = if n.id == 0 then save_new refused n else save_old refused n
