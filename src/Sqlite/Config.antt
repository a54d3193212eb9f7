-- ===== src/Sqlite/Config.antt =====
-- roomdb/sqlite/roomconfig.go: the one row of settings.
pub mod Invariant
pub mod Laws
use go_ssb_room.Base.{
  ℕ, ◌+◌, Bool, true, false, not, Option, none, some, List, [], ◌∷◌, ◌==◌, Text, length,
}
use go_ssb_room.Roomdb.{
  PrivacyMode, Error, no_rows, empty_language, no_rows_updated, Result, ok, err, check_mode,
  scan_mode,
}
use go_ssb_room.Sqlite.Db.{
  ConfigRow, Db, Faults, Action, done, fail, ◌>>=◌, ◌>>◌, check, require, found, statement, query,
  transact,
}
use go_ssb_room.Sqlite.Tokens.{lift}

-- `FindConfig`, whose scan refuses a stored mode that is out of range.
unfoldable pub find_config : Bool → Action ConfigRow
find_config refused = do
  row ← query refused (λ db. db.config)
  config ← found row no_rows
  _ ← lift (scan_mode config.privacy_mode)
  done config

-- `config.Update`, with the number of rows that it wrote.
unfoldable pub update_row : Option ConfigRow → ConfigRow → Action ℕ
update_row none c db = (ok 0, db)
update_row (some old) c db = (ok 1, record db { config = some c })

unfoldable pub update_config : ConfigRow → Action ℕ
unfolding update_row
update_config c db = update_row db.config c db

-- `GetPrivacyMode`
unfoldable pub get_privacy_mode : Faults → Action PrivacyMode
unfolding find_config
get_privacy_mode io = do config ← find_config (io 0); done config.privacy_mode

-- `SetPrivacyMode`
unfoldable pub set_privacy_mode : Faults → PrivacyMode → Action (Unit {0})
unfolding find_config update_config
set_privacy_mode io pm = do
  check (check_mode pm)
  transact io (do
    config ← find_config (io 3)
    rows ← statement (io 4) (update_config (record config { privacy_mode = pm }))
    require (not (rows == 0)) no_rows_updated)

-- `GetDefaultLanguage`
unfoldable pub get_default_language : Faults → Action Text
unfolding find_config
get_default_language io = do config ← find_config (io 0); done config.default_language

-- `SetDefaultLanguage`
unfoldable pub set_default_language : Faults → Text → Action (Unit {0})
unfolding find_config update_config
set_default_language io tag = do
  require (not (length tag == 0)) empty_language
  transact io (do
    config ← find_config (io 3)
    rows ← statement (io 4) (update_config (record config { default_language = tag }))
    require (not (rows == 0)) no_rows_updated)
