-- ===== src/Sqlite/Config/Invariant.antt =====
-- roomdb/sqlite/roomconfig.go keeps the invariant, and fails without a trace.
use go_ssb_room.Base.{◌≡◌, refl, Option, none, some, Bool, arith, Text}
use go_ssb_room.Roomdb.{PrivacyMode, check_mode, scan_mode, Result, ok, err}
use go_ssb_room.Sqlite.Db.{ConfigRow, Db, Faults, done}
use go_ssb_room.Sqlite.Keeps.{
  Keeps, IsAtomic, IsRead, Returns, atomicity, Keeps-checked, Keeps-transact, Keeps-returned,
  Keeps-bind, Keeps-read, Keeps-require, Keeps-statement, IsRead-bind, query-IsRead, found-IsRead,
}
use go_ssb_room.Sqlite.Tokens.{lift}
use go_ssb_room.Sqlite.Invariant.{IsWellFormed, with_config}
use go_ssb_room.Sqlite.Config.{
  find_config, update_row, update_config, set_privacy_mode, set_default_language,
}

abbrev IsInRange : ConfigRow → Type 0
IsInRange c = check_mode c.privacy_mode ≡ none

lift-IsRead : {A : Type 0} (r : Result A) → IsRead (lift r)
lift-IsRead (ok a) = record { apply = λ db. refl }
lift-IsRead (err e) = record { apply = λ db. refl }

done-IsRead : (c : ConfigRow) → IsRead (done c)
done-IsRead c = record { apply = λ db. refl }

pub find_config-IsRead : (b : Bool) → IsRead (find_config b)
unfolding find_config
find_config-IsRead b =
    search (IsRead-bind, query-IsRead, found-IsRead, lift-IsRead, done-IsRead) depth 12

find_config-Returns : (b : Bool) → Returns IsInRange (find_config b)
unfolding find_config scan_mode
find_config-Returns b = record { apply = λ db c h. ground arith }

update_row-keeps :
    (row : Option ConfigRow) (c : ConfigRow) (db : Db)
    → IsInRange c
    → IsWellFormed db
    → IsWellFormed (update_row row c db).1
unfolding update_row
update_row-keeps none c db valid w = w
update_row-keeps (some old) c db valid w = with_config db w c valid

update_config-Keeps : (c : ConfigRow) → IsInRange c → Keeps IsWellFormed (update_config c)
unfolding update_config
update_config-Keeps c valid = record { apply = λ db w. update_row-keeps db.config c db valid w }

pub set_privacy_mode-Keeps :
    (io : Faults) (pm : PrivacyMode) → Keeps IsWellFormed (set_privacy_mode io pm)
unfolding set_privacy_mode
set_privacy_mode-Keeps io pm = Keeps-checked _ (check_mode pm) _ λ valid. Keeps-transact _ io _ (
    Keeps-bind _ _ _ (Keeps-read _ _ (find_config-IsRead (io 3))) λ config.
      Keeps-bind _ _ _ (Keeps-statement _ (io 4) _ (update_config-Keeps _ valid))
        λ rows. Keeps-require _ _ _)

pub set_default_language-Keeps :
    (io : Faults) (tag : Text) → Keeps IsWellFormed (set_default_language io tag)
unfolding set_default_language
set_default_language-Keeps io tag = Keeps-bind _ _ _ (Keeps-require _ _ _) λ _.
    Keeps-transact _ io _ (
      Keeps-returned _ IsInRange _ _ (Keeps-read _ _ (find_config-IsRead (io 3)))
        (find_config-Returns (io 3))
        λ config valid.
          Keeps-bind _ _ _ (Keeps-statement _ (io 4) _ (update_config-Keeps _ valid))
            λ rows. Keeps-require _ _ _)

pub set_privacy_mode-IsAtomic : (io : Faults) (pm : PrivacyMode) → IsAtomic (set_privacy_mode io pm)
unfolding set_privacy_mode
set_privacy_mode-IsAtomic io pm = search atomicity

pub set_default_language-IsAtomic :
    (io : Faults) (tag : Text) → IsAtomic (set_default_language io tag)
unfolding set_default_language
set_default_language-IsAtomic io tag = search atomicity
