-- ===== src/Room/Aliases.antt =====
-- internal/aliases, which says what a name is and what is signed for it, and
-- muxrpc/handlers/alias/handler.go, by which members register, revoke and list names. What
-- `json.Unmarshal` makes of the arguments is an argument.
pub mod Laws
use go_ssb_room.Base.{
  ℕ, ◌+◌, Bool, true, false, not, Option, none, some, List, [], ◌∷◌, ◌++◌, map, ◌==◌, ltb, leb,
  ◌&&◌, ◌||◌, length, if◌then◌else◌, Text, text_eq, codes,
}
use go_ssb_room.Roomdb.{FeedRef, Error, alias_taken, Result, ok, err}
use go_ssb_room.Sqlite.Rows.{select_all}
use go_ssb_room.Sqlite.Db.{Db, Faults, Action}
use go_ssb_room.Sqlite.Members.{Alias}
use go_ssb_room.Sqlite.Aliases as AliasesDb

-- `[a-z0-9]`, on code points.
abbrev pub is_alias_char : ℕ → Bool
is_alias_char char = (leb 48 char && leb char 57) || (leb 97 char && leb char 122)

unfoldable pub all_alias_chars : Text → Bool
all_alias_chars [] = true
all_alias_chars (char ∷ rest) =
    let later = all_alias_chars rest in if is_alias_char char then later else false

-- `IsValid`. `len` counts bytes, which is the number of code points where all are in `[a-z0-9]`, and
-- the other names are refused anyway; `size` is that number of bytes.
unfoldable pub is_valid : (Text → ℕ) → Text → Bool
unfolding all_alias_chars
is_valid size alias = if ltb 63 (size alias) then false else all_alias_chars alias

-- `Registration`
pub record Registration : Type 0 where
  pub alias : Text
  pub user : FeedRef
  pub room : FeedRef

-- `createRegistrationMessage`
unfoldable pub registration_message : Registration → Text
registration_message r =
    codes "=room-alias-registration:" ++ r.room ++ codes ":" ++ r.user ++ codes ":" ++ r.alias

-- The code of other repositories: `ed25519.Verify` under the key of a feed, `base64.StdEncoding`,
-- `ParseFeedRef`, `netInfo.URLForAlias`, and the length of a text in bytes.
pub record Library : Type 0 where
  pub verify : FeedRef → Text → Text → Bool
  pub decode : Text → Option Text
  pub parse : Text → Option FeedRef
  pub url_for : Text → Text
  pub size : Text → ℕ

-- `Confirmation.Verify`
unfoldable pub verify_confirmation : Library → Registration → Text → Bool
verify_confirmation l r signature = l.verify r.user (registration_message r) signature

pub data Refusal : Type 0 where
  bad_arguments bad_suffix bad_encoding invalid_alias bad_address invalid_signature : Refusal
  bad_ref not_yours : Refusal
  argument_count : ℕ → Refusal
  storage : Error → Refusal

pub data Reply (A : Type 0) : Type 0 where
  granted : A → Reply A
  refused : Refusal → Reply A

abbrev pub sig_suffix : Text
sig_suffix = codes ".sig.ed25519"

-- `strings.HasSuffix` with `strings.TrimSuffix`: what stands before the suffix, if it ends the text.
unfoldable pub trim_suffix : Text → Text → Option Text
trim_suffix suffix [] = if text_eq [] suffix then some [] else none
trim_suffix suffix (char ∷ rest) =
    let later = trim_suffix suffix rest in
    if text_eq (char ∷ rest) suffix
    then some []
    else (elim later [ none ↦ none | some before ↦ some (char ∷ before) ])

unfoldable pub stored : Library → Text → Result (Unit {0}) × Db → Reply Text × Db
stored l alias (ok t, db) = (granted (l.url_for alias), db)
stored l alias (err e, db) = (refused (storage e), db)

unfoldable pub confirm : Library → Faults → Registration → Text → Db → Reply Text × Db
unfolding stored verify_confirmation registration_message
confirm l io r signature db =
    if verify_confirmation l r signature
    then stored l r.alias (AliasesDb.register io r.alias r.user signature db)
    else (refused invalid_signature, db)

unfoldable pub register_from :
    Library → Faults → FeedRef → Option FeedRef → Text → Text → Db → Reply Text × Db
unfolding confirm
register_from l io self none alias signature db = (refused bad_address, db)
register_from l io self (some user) alias signature db =
    confirm l io (record { alias = alias; user = user; room = self }) signature db

unfoldable pub register_signed :
    Library → Faults → FeedRef → Option FeedRef → Text → Option Text → Db → Reply Text × Db
unfolding register_from is_valid
register_signed l io self user alias none db = (refused bad_encoding, db)
register_signed l io self user alias (some signature) db =
    if is_valid l.size alias
    then register_from l io self user alias signature db
    else (refused invalid_alias, db)

unfoldable pub register_encoded :
    Library → Faults → FeedRef → Option FeedRef → Text → Option Text → Db → Reply Text × Db
unfolding register_signed
register_encoded l io self user alias none db = (refused bad_suffix, db)
register_encoded l io self user alias (some sig) db =
    register_signed l io self user alias (l.decode sig) db

unfoldable pub register_args :
    Library → Faults → FeedRef → Option FeedRef → List Text → Db → Reply Text × Db
unfolding register_encoded trim_suffix
register_args l io self user (alias ∷ sig ∷ []) db =
    register_encoded l io self user alias (trim_suffix sig_suffix sig) db
register_args l io self user args db = (refused (argument_count (length args)), db)

-- `Register`
unfoldable pub register :
    Library → Faults → FeedRef → Option FeedRef → Option (List Text) → Db → Reply Text × Db
unfolding register_args
register l io self user none db = (refused bad_arguments, db)
register l io self user (some args) db = register_args l io self user args db

unfoldable pub revoked : Result (Unit {0}) × Db → Reply Bool × Db
revoked (ok t, db) = (granted true, db)
revoked (err e, db) = (refused (storage e), db)

unfoldable pub revoke_found : Faults → FeedRef → Result Alias → Db → Reply Bool × Db
unfolding revoked
revoke_found io user (err e) db = (refused (storage e), db)
revoke_found io user (ok alias) db =
    if text_eq alias.feed user
    then revoked (AliasesDb.revoke io alias.name db)
    else (refused not_yours, db)

unfoldable pub revoke_from : Faults → Faults → Option FeedRef → Text → Db → Reply Bool × Db
unfolding revoke_found
revoke_from read io none name db = (refused bad_address, db)
revoke_from read io (some user) name db = revoke_found io user (AliasesDb.resolve read name db).0 db

unfoldable pub revoke_args : Faults → Faults → Option FeedRef → List Text → Db → Reply Bool × Db
unfolding revoke_from
revoke_args read io user (name ∷ []) db = revoke_from read io user name db
revoke_args read io user args db = (refused (argument_count (length args)), db)

-- `Revoke`; `read` and `io` are for its two calls of the database.
unfoldable pub revoke : Faults → Faults → Option FeedRef → Option (List Text) → Db → Reply Bool × Db
unfolding revoke_args
revoke read io user none db = (refused bad_arguments, db)
revoke read io user (some args) db = revoke_args read io user args db

unfoldable names_of : FeedRef → Result (List Alias) → Reply (List Text)
names_of user (err e) = refused (storage e)
names_of user (ok all) =
    granted (map (λ (a : Alias). a.name) (select_all (λ (a : Alias). text_eq a.feed user) all))

unfoldable list_parsed : Faults → Option FeedRef → Db → Reply (List Text)
unfolding names_of
list_parsed io none db = refused bad_ref
list_parsed io (some user) db = names_of user (AliasesDb.list io db).0

-- `List`
unfoldable pub list : Library → Faults → Option (List Text) → Db → Reply (List Text)
unfolding list_parsed
list l io none db = refused bad_arguments
list l io (some (ref ∷ [])) db = list_parsed io (l.parse ref) db
list l io (some args) db = refused (argument_count (length args))
