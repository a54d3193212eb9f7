-- ===== src/Web/Aliases/Laws.antt =====
-- web/handlers/aliases.go: what the public page of an alias tells.
use go_ssb_room.Base.{◌≡◌, ◌≢◌, List, [], Text, text_eq_iff, codes, arith}
use go_ssb_room.Roomdb.{PrivacyMode, mode_restricted, Result, ok, err}
use go_ssb_room.Sqlite.Db.{Db}
use go_ssb_room.Sqlite.Members.{Alias}
use go_ssb_room.Sqlite.Config.{get_privacy_mode, find_config}
use go_ssb_room.Sqlite.Aliases as Aliases
use go_ssb_room.Sqlite.Aliases.{find_one}
use go_ssb_room.Room.Aliases.{is_valid, all_alias_chars}
use go_ssb_room.Web.Errors.{Write, plain, wrapping, from_db}
use go_ssb_room.Web.Request.{Request, Site, unless, on_call}
use go_ssb_room.Web.Aliases.{Room, responder_of, send_confirmation, send_error, resolve}

-- What is sent once the alias was looked up.
unfoldable pub answer : Room → Request → Result Alias → List Write
answer room req (ok a) = send_confirmation (responder_of req) room a
answer room req (err e) =
    send_error (responder_of req) (wrapping (codes "aliases: failed to resolve name") (from_db e))

-- Where the privacy mode can be read and the empty text has no bytes, a restricted room answers
-- every name by an error that tells nothing of it, and any other room answers every name by what
-- Resolve finds, also a name that could never be registered.
pub resolve-answer :
    (site : Site) (room : Room) (req : Request) (name : Text) (pm : PrivacyMode) (db : Db)
    → site.byte_length [] ≡ 0
    → (get_privacy_mode (site.io 0) db).0 ≡ ok pm
    → (pm ≡ mode_restricted
        → (resolve site room req name db).0
          ≡ send_error
              (responder_of req)
              (plain (codes "this room is restricted, alias resolving is turned off")))
      × (pm ≢ mode_restricted
          → (resolve site room req name db).0
            ≡ answer room req (Aliases.resolve (site.io 1) name db).0)
unfolding resolve unless on_call answer get_privacy_mode find_config is_valid all_alias_chars
    Aliases.resolve find_one
resolve-answer site room req name pm db empty h =
    (λ e. ground arith, λ e. ground (arith, text_eq_iff name []))
