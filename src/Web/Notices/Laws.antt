-- ===== src/Web/Notices/Laws.antt =====
-- web/handlers/notices.go: the list of the pinned notices.
use go_ssb_room.Base.{◌≢◌, List, [], map, Text, All}
use go_ssb_room.Sqlite.Rows.{Distinct}
use go_ssb_room.Sqlite.Db.{Db}
use go_ssb_room.Sqlite.Notices.{PinnedNotice}

abbrev names : List PinnedNotice → List Text
names = map (λ (p : PinnedNotice). p.name)

-- An entry is well made where it has notices and no other entry has its name.
abbrev IsFilled : PinnedNotice → Type 0
IsFilled p = p.notices ≢ []

-- What holds of the entries as they are collected.
abbrev IsListing : List PinnedNotice → Type 0
IsListing l = Distinct (λ (t : Text). t) (names l) × All IsFilled l
