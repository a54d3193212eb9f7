-- ===== src/Sqlite/Db.antt =====
-- roomdb/sqlite/new.go: the database behind the services, one list of rows for each table of
-- roomdb/sqlite/migrations, and `transact`. A call runs on a database and gives a result and the
-- database after it. The engine may refuse any statement: `Faults` says which ones it refuses,
-- by their number in the call, so every error branch of the services can be taken.
use go_ssb_room.Base.{ℕ, Bool, true, false, Option, none, some, List, Text, if◌then◌else◌}
use go_ssb_room.Roomdb.{
  FeedRef, Role, PrivacyMode, Error, driver, unique_violation, begin_failed, commit_failed,
  rollback_failed, Result, ok, err,
}

pub record MemberRow : Type 0 where
  pub id : ℕ
  pub role : Role
  pub pub_key : FeedRef

pub record AliasRow : Type 0 where
  pub id : ℕ
  pub name : Text
  pub member_id : ℕ
  pub signature : Text

pub record InviteRow : Type 0 where
  pub id : ℕ
  pub hashed_token : Text
  pub created_by : ℕ
  pub created_at : ℕ
  pub active : Bool

pub record DeniedRow : Type 0 where
  pub id : ℕ
  pub pub_key : FeedRef
  pub comment : Text
  pub created_at : ℕ

pub record SessionRow : Type 0 where
  pub id : ℕ
  pub token : Text
  pub member_id : ℕ
  pub created_at : ℕ

pub record PasswordRow : Type 0 where
  pub id : ℕ
  pub password_hash : Text
  pub member_id : ℕ

pub record ResetRow : Type 0 where
  pub id : ℕ
  pub hashed_token : Text
  pub created_by : ℕ
  pub created_at : ℕ
  pub for_member : ℕ
  pub active : Bool

pub record ConfigRow : Type 0 where
  pub privacy_mode : PrivacyMode
  pub default_language : Text
  pub use_subdomain : Bool

pub record NoticeRow : Type 0 where
  pub id : ℕ
  pub title : Text
  pub content : Text
  pub language : Text

pub record PinRow : Type 0 where
  pub id : ℕ
  pub name : Text

pub record PinNoticeRow : Type 0 where
  pub notice_id : ℕ
  pub pin_id : ℕ

-- `config` is the row with id 0. Each table has its own AUTOINCREMENT counter, the next id to give.
pub record Db : Type 0 where
  pub members : List MemberRow
  pub aliases : List AliasRow
  pub invites : List InviteRow
  pub denied_keys : List DeniedRow
  pub sessions : List SessionRow
  pub passwords : List PasswordRow
  pub reset_tokens : List ResetRow
  pub notices : List NoticeRow
  pub pins : List PinRow
  pub pin_notices : List PinNoticeRow
  pub config : Option ConfigRow
  pub next_member : ℕ
  pub next_alias : ℕ
  pub next_invite : ℕ
  pub next_denied : ℕ
  pub next_session : ℕ
  pub next_password : ℕ
  pub next_reset : ℕ
  pub next_notice : ℕ

abbrev pub Faults : Type 0
Faults = ℕ → Bool

-- An engine that refuses nothing.
abbrev pub reliable : Faults
reliable n = false

abbrev pub Action : Type 0 → Type 0
Action A = Db → Result A × Db

abbrev pub done : {A : Type 0} → A → Action A
done a db = (ok a, db)

abbrev pub fail : {A : Type 0} → Error → Action A
fail e db = (err e, db)

-- What follows a call: its result goes on, its error ends the chain.
abbrev pub next : {A B : Type 0} → (A → Action B) → Result A × Db → Result B × Db
next f (ok a, db) = f a db
next f (err e, db) = (err e, db)

infixl 5 ◌>>=◌ ◌>>◌
abbrev pub ◌>>=◌ : {A B : Type 0} → Action A → (A → Action B) → Action B
◌>>=◌ m f db = next f (m db)

abbrev pub ◌>>◌ : {A B : Type 0} → Action A → Action B → Action B
m >> k = m >>= λ _. k

-- `if err := ...; err != nil { return err }` on a check that has no other result.
abbrev pub check : Option Error → Action (Unit {0})
check none = done tt
check (some e) = fail e

abbrev pub require : Bool → Error → Action (Unit {0})
require true e = done tt
require false e = fail e

-- A row that must be there: `One` gives `sql.ErrNoRows` otherwise, which the caller turns into `e`.
abbrev pub found : {A : Type 0} → Option A → Error → Action A
found none e = fail e
found (some a) e = done a

-- One statement, which the engine runs or refuses.
abbrev pub statement : {A : Type 0} → Bool → Action A → Action A
statement true m db = (err driver, db)
statement false m db = m db

-- A SELECT.
abbrev pub query : {A : Type 0} → Bool → (Db → A) → Action A
query refused f = statement refused (λ db. (ok (f db), db))

-- `errors.As(err, &sqlErr) && sqlErr.Code() == SQLITE_CONSTRAINT_UNIQUE`, answered by another error.
unfoldable pub on_unique : {A : Type 0} → Error → Result A × Db → Result A × Db
on_unique e (err unique_violation, db) = (err e, db)
on_unique e r = r

abbrev pub renaming : {A : Type 0} → Error → Action A → Action A
renaming e m db = on_unique e (m db)

-- How a transaction begun at `db` ends. A transaction that is not committed leaves no trace.
unfoldable pub conclude : {A : Type 0} → Faults → Db → Result A × Db → Result A × Db
conclude io db (ok a, db') = if io 1 then (err commit_failed, db) else (ok a, db')
conclude io db (err e, db') = (if io 2 then err rollback_failed else err e, db)

-- `transact`: statement 0 begins the transaction, 1 commits it and 2 rolls it back.
unfoldable pub transact : {A : Type 0} → Faults → Action A → Action A
unfolding conclude
transact io m db = if io 0 then (err begin_failed, db) else conclude io db (m db)
