-- ===== src/Sqlite/Invariant.antt =====
-- The invariant of the database: what the schema of roomdb/sqlite/migrations enforces, with the
-- roles and the privacy mode in range, and that each INSERT, UPDATE and DELETE keeps it.
pub mod Members
pub mod Writes
use go_ssb_room.Base.{
  not, ◌||◌, ℕ, ◌<◌, ◌≡◌, ◌≢◌, refl, Bool, true, false, Option, none, some, All, arith, Bool-cases,
  inl, inr, Text, text_eq, ◌==◌, List, [], ◌∷◌, ◌++◌, ◌+◌,
}
use go_ssb_room.Roomdb.{FeedRef, Role, check_role, check_mode}
use go_ssb_room.Sqlite.Rows.{
  Distinct, exists, All-append, All-deleted, All-update, update_all, delete_all,
}
use go_ssb_room.Sqlite.Db.{
  MemberRow, AliasRow, InviteRow, DeniedRow, SessionRow, PasswordRow, ResetRow, ConfigRow,
  NoticeRow, PinRow, PinNoticeRow, Db,
}
use go_ssb_room.Sqlite.Schema.{
  has_id, has_key, is_member, links, insert_member, insert_alias, insert_invite, insert_denied,
  insert_session, insert_password, insert_reset, delete_member, update_member_role, delete_alias,
  close_invite, delete_invites, delete_denied, delete_sessions, update_password, close_reset,
  delete_resets,
}
use go_ssb_room.Sqlite.Tables.{
  IsTable, IsTable-append, IsTable-delete, IsTable-update, fresh_text, fresh_number, Refers,
  Refers-new_member, Refers-update_member, Refers-delete_member,
}
use go_ssb_room.Sqlite.Keeps.{Keeps}

abbrev pub HasMode : Option ConfigRow → Type 0
HasMode none = Unit {0}
HasMode (some c) = check_mode c.privacy_mode ≡ none

-- The primary key of the join table is the pair.
abbrev pub IsRelation : List PinNoticeRow → Type 0
IsRelation [] = Unit
IsRelation (p ∷ rows) = All (λ s. links p.notice_id p.pin_id s ≡ false) rows × IsRelation rows

-- A foreign key of the join table.
abbrev pub LinksTo :
    {Row : Type 0} → (PinNoticeRow → Row → Bool) → List PinNoticeRow → List Row → Type 0
LinksTo same links rows = All (λ p. exists (same p) rows ≡ true) links

pub record IsWellFormed (db : Db) : Type 0 where
  pub members : IsTable (λ (m : MemberRow). m.id) (λ m. m.pub_key) db.next_member db.members
  pub roles : All (λ (m : MemberRow). check_role m.role ≡ none) db.members
  pub aliases : IsTable (λ (a : AliasRow). a.id) (λ a. a.name) db.next_alias db.aliases
  pub alias_member : Refers (λ (a : AliasRow). a.member_id) db.members db.aliases
  pub invites : IsTable (λ (i : InviteRow). i.id) (λ i. i.hashed_token) db.next_invite db.invites
  pub invite_creator : Refers (λ (i : InviteRow). i.created_by) db.members db.invites
  pub denied : IsTable (λ (d : DeniedRow). d.id) (λ d. d.pub_key) db.next_denied db.denied_keys
  pub sessions : IsTable (λ (s : SessionRow). s.id) (λ s. s.token) db.next_session db.sessions
  pub session_member : Refers (λ (s : SessionRow). s.member_id) db.members db.sessions
  pub passwords :
      IsTable (λ (p : PasswordRow). p.id) (λ p. p.member_id) db.next_password db.passwords
  pub password_member : Refers (λ (p : PasswordRow). p.member_id) db.members db.passwords
  pub resets : IsTable (λ (t : ResetRow). t.id) (λ t. t.hashed_token) db.next_reset db.reset_tokens
  pub reset_creator : Refers (λ (t : ResetRow). t.created_by) db.members db.reset_tokens
  pub reset_member : Refers (λ (t : ResetRow). t.for_member) db.members db.reset_tokens
  pub notices : IsTable (λ (n : NoticeRow). n.id) (λ n. n.id) db.next_notice db.notices
  pub pin_names : Distinct (λ (p : PinRow). p.name) db.pins
  pub pin_pairs : IsRelation db.pin_notices
  pub pinned_notice : LinksTo (λ p n. n.id == p.notice_id) db.pin_notices db.notices
  pub linked_pin : LinksTo (λ p r. r.id == p.pin_id) db.pin_notices db.pins
  pub mode : HasMode db.config

-- New rows of one table that keep its promises keep the invariant.
module _ (db : Db) (w : IsWellFormed db) where
  pub with_aliases :
      (rows : List AliasRow) (next : ℕ)
      → IsTable (λ (r : AliasRow). r.id) (λ r. r.name) next rows
      → Refers (λ (r : AliasRow). r.member_id) db.members rows
      → IsWellFormed (record db { aliases = rows; next_alias = next })
  with_aliases rows next t r0 = assumption

  pub with_invites :
      (rows : List InviteRow) (next : ℕ)
      → IsTable (λ (r : InviteRow). r.id) (λ r. r.hashed_token) next rows
      → Refers (λ (r : InviteRow). r.created_by) db.members rows
      → IsWellFormed (record db { invites = rows; next_invite = next })
  with_invites rows next t r0 = assumption

  pub with_denied_keys :
      (rows : List DeniedRow) (next : ℕ)
      → IsTable (λ (r : DeniedRow). r.id) (λ r. r.pub_key) next rows
      → IsWellFormed (record db { denied_keys = rows; next_denied = next })
  with_denied_keys rows next t = assumption

  pub with_sessions :
      (rows : List SessionRow) (next : ℕ)
      → IsTable (λ (r : SessionRow). r.id) (λ r. r.token) next rows
      → Refers (λ (r : SessionRow). r.member_id) db.members rows
      → IsWellFormed (record db { sessions = rows; next_session = next })
  with_sessions rows next t r0 = assumption

  pub with_passwords :
      (rows : List PasswordRow) (next : ℕ)
      → IsTable (λ (r : PasswordRow). r.id) (λ r. r.member_id) next rows
      → Refers (λ (r : PasswordRow). r.member_id) db.members rows
      → IsWellFormed (record db { passwords = rows; next_password = next })
  with_passwords rows next t r0 = assumption

  pub with_reset_tokens :
      (rows : List ResetRow) (next : ℕ)
      → IsTable (λ (r : ResetRow). r.id) (λ r. r.hashed_token) next rows
      → Refers (λ (r : ResetRow). r.created_by) db.members rows
      → Refers (λ (r : ResetRow). r.for_member) db.members rows
      → IsWellFormed (record db { reset_tokens = rows; next_reset = next })
  with_reset_tokens rows next t r0 r1 = assumption

  pub with_config :
      (c : ConfigRow)
      → check_mode c.privacy_mode ≡ none
      → IsWellFormed (record db { config = some c })
  with_config c valid = assumption

  pub with_notices :
      (rows : List NoticeRow) (next : ℕ)
      → IsTable (λ (r : NoticeRow). r.id) (λ r. r.id) next rows
      → LinksTo (λ p n. n.id == p.notice_id) db.pin_notices rows
      → IsWellFormed (record db { notices = rows; next_notice = next })
  with_notices rows next t r0 = assumption

  pub with_pin_notices :
      (rows : List PinNoticeRow)
      → IsRelation rows
      → LinksTo (λ p n. n.id == p.notice_id) rows db.notices
      → LinksTo (λ p r. r.id == p.pin_id) rows db.pins
      → IsWellFormed (record db { pin_notices = rows })
  with_pin_notices rows t r0 r1 = assumption
