-- ===== src/Sqlite/Config/Laws.antt =====
-- roomdb/sqlite/roomconfig.go: settings that were set are read back, and invalid ones are refused.
use go_ssb_room.Base.{◌≡◌, none, some, arith, Option-cases, inl, inr}
use go_ssb_room.Roomdb.{PrivacyMode, ok, check_mode, scan_mode}
use go_ssb_room.Sqlite.Db.{ConfigRow, Db, Faults, reliable, transact, conclude}
use go_ssb_room.Sqlite.Config.{
  find_config, update_row, update_config, get_privacy_mode, set_privacy_mode, get_default_language,
}

-- What a successful SetPrivacyMode found and wrote.
set_privacy_mode_effect :
    (io : Faults) (pm : PrivacyMode) (db : Db)
    → (set_privacy_mode io pm db).0 ≡ ok tt
    → (c : ConfigRow) × (db.config ≡ some c)
      × (check_mode pm ≡ none)
      × (check_mode c.privacy_mode ≡ none)
      × ((set_privacy_mode io pm db).1.config ≡ some (record c { privacy_mode = pm }))
unfolding set_privacy_mode find_config update_config update_row transact conclude scan_mode
set_privacy_mode_effect io pm db h = elim (Option-cases db.config) [
  | inl e ↦ absurd (ground arith)
  | inr (c, e) ↦ elim (Option-cases (check_mode pm)) [
    | inr (x, k) ↦ absurd (ground arith)
    | inl k ↦ elim (Option-cases (check_mode c.privacy_mode)) [
      | inr (x, s) ↦ absurd (ground arith)
      | inl s ↦ (c, e, k, s, ground arith)
    ]
  ]
]

-- After a SetPrivacyMode that succeeds, GetPrivacyMode gives the mode and GetDefaultLanguage what
-- it gave before, where the engine refuses neither read.
set_privacy_mode-get :
    (io : Faults) (pm : PrivacyMode) (db : Db)
    → (set_privacy_mode io pm db).0 ≡ ok tt
    → let after = (set_privacy_mode io pm db).1 in
      ((get_privacy_mode reliable after).0 ≡ ok pm)
      × ((get_default_language reliable after).0 ≡ (get_default_language reliable db).0)
unfolding get_privacy_mode get_default_language find_config scan_mode
set_privacy_mode-get io pm db h =
    let (c, before, valid, read, row) = set_privacy_mode_effect io pm db h in
    (ground arith, ground arith)
