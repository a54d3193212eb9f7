-- ===== src/Room/Aliases/Laws.antt =====
-- muxrpc/handlers/alias/handler.go: what a name that was registered or revoked over muxrpc says.
use go_ssb_room.Base.{
  ℕ, ◌≡◌, ◌≤◌, ◌↔◌, refl, true, Option, none, some, List, [], ◌∷◌, Text, text_eq, text_eq_iff,
  arith, All, Option-cases, inl, inr,
}
use go_ssb_room.Roomdb.{FeedRef, not_found, Result, ok, err, Result-cases}
use go_ssb_room.Sqlite.Db.{Db, Faults, reliable}
use go_ssb_room.Sqlite.Invariant.{IsWellFormed}
use go_ssb_room.Sqlite.Members.{Alias}
use go_ssb_room.Sqlite.Aliases as AliasesDb
use go_ssb_room.Sqlite.Aliases.Laws as AliasesLaws
use go_ssb_room.Room.Aliases.{
  is_alias_char, all_alias_chars, is_valid, registration_message, Library, verify_confirmation,
  granted, trim_suffix, sig_suffix, stored, confirm, register_from, register_signed,
  register_encoded, register_args, register, revoked, revoke_found, revoke_from, revoke_args,
  revoke,
}

all_alias_chars_iff :
    (t : Text) → (all_alias_chars t ≡ true) ↔ All (λ char. is_alias_char char ≡ true) t
unfolding all_alias_chars
all_alias_chars_iff [] = (λ h. tt, λ h. refl)
all_alias_chars_iff (char ∷ rest) =
    let (there, back) = all_alias_chars_iff rest in
    (λ h. (ground arith, there (ground arith)), λ h. ground (arith, h.0, back h.1))

-- A name is valid exactly where it has at most 63 bytes and each of its characters is in [a-z0-9].
is_valid_iff :
    (size : Text → ℕ) (t : Text)
    → (is_valid size t ≡ true) ↔ ((size t ≤ 63) × All (λ char. is_alias_char char ≡ true) t)
unfolding is_valid
is_valid_iff size t =
    let (there, back) = all_alias_chars_iff t in
    (λ h. (ground arith, there (ground arith)), λ h. ground (arith, h.0, back h.1))

stored_effect :
    (l : Library) (alias url : Text) (r : Result (Unit {0}) × Db)
    → (stored l alias r).0 ≡ granted url
    → (r.0 ≡ ok tt) × (url ≡ l.url_for alias) × ((stored l alias r).1 ≡ r.1)
unfolding stored
stored_effect l alias url (ok t, db) h = (refl, ground arith, refl)
stored_effect l alias url (err e, db) h = absurd (ground arith)

-- What a registration that was granted went through.
register_effect :
    (l : Library) (io : Faults) (self : FeedRef) (user : Option FeedRef) (args : Option (List Text))
    (db : Db) (url : Text)
    → (register l io self user args db).0 ≡ granted url
    → (name : Text) × (key : FeedRef) × (signature : Text) × (user ≡ some key)
      × (is_valid l.size name ≡ true)
      × (verify_confirmation l (record { alias = name; user = key; room = self }) signature ≡ true)
      × (url ≡ l.url_for name)
      × ((AliasesDb.register io name key signature db).0 ≡ ok tt)
      × ((register l io self user args db).1 ≡ (AliasesDb.register io name key signature db).1)
unfolding register register_args register_encoded register_signed register_from confirm
register_effect l io self user none db url h = absurd (ground arith)
register_effect l io self user (some []) db url h = absurd (ground arith)
register_effect l io self user (some (a ∷ [])) db url h = absurd (ground arith)
register_effect l io self user (some (a ∷ b ∷ c ∷ rest)) db url h = absurd (ground arith)
register_effect l io self none (some (a ∷ b ∷ [])) db url h =
    elim (Option-cases (trim_suffix sig_suffix b)) [
      | inl e ↦ absurd (ground arith)
      | inr (enc, e) ↦ elim (Option-cases (l.decode enc)) [
        | inl d ↦ absurd (ground arith)
        | inr (sig, d) ↦ absurd (ground arith)
      ]
    ]
register_effect l io self (some key) (some (a ∷ b ∷ [])) db url h =
    elim (Option-cases (trim_suffix sig_suffix b)) [
      | inl e ↦ absurd (ground arith)
      | inr (enc, e) ↦ elim (Option-cases (l.decode enc)) [
        | inl d ↦ absurd (ground arith)
        | inr (sig, d) ↦
            let valid : is_valid l.size a ≡ true = ground arith in
            let verified : verify_confirmation l (record { alias = a; user = key; room = self }) sig
                ≡ true =
              ground arith in
            let kept : (stored l a (AliasesDb.register io a key sig db)).0 ≡ granted url =
              ground arith in
            let (wrote, named, same) =
              stored_effect l a url (AliasesDb.register io a key sig db) kept in
            (a, key, sig, refl, valid, verified, named, wrote, ground (arith, same))
      ]
    ]

-- In a well-formed database, a registration that is granted is for a valid name that the caller
-- signed for this room; the name then resolves to the caller's key with that signature, where the
-- engine refuses nothing in that read, and the caller gets its address.
pub register-resolve_name :
    (l : Library) (io : Faults) (self : FeedRef) (user : Option FeedRef) (args : Option (List Text))
    (db : Db) (url : Text)
    → IsWellFormed db
    → (register l io self user args db).0 ≡ granted url
    → (name : Text) × (key : FeedRef) × (signature : Text) × (user ≡ some key)
      × (is_valid l.size name ≡ true)
      × (l.verify key
            (registration_message (record { alias = name; user = key; room = self }))
            signature
          ≡ true)
      × (url ≡ l.url_for name)
      × ((AliasesDb.resolve reliable name (register l io self user args db).1).0
          ≡ ok (record { id = db.next_alias; name = name; feed = key; signature = signature }))
unfolding verify_confirmation
register-resolve_name l io self user args db url w h =
    let (name, key, signature, from, valid, verified, named, wrote, same) =
      register_effect l io self user args db url h in
    (
      name,
      key,
      signature,
      from,
      valid,
      verified,
      named,
      rw same (AliasesLaws.register-resolve io name key signature db w wrote),
    )

revoked_effect :
    (r : Result (Unit {0}) × Db)
    → (revoked r).0 ≡ granted true
    → (r.0 ≡ ok tt) × ((revoked r).1 ≡ r.1)
unfolding revoked
revoked_effect (ok t, db) h = (refl, refl)
revoked_effect (err e, db) h = absurd (ground arith)

-- In a well-formed database, a revocation that is granted was of an alias of the caller, whose name
-- is then not found by Resolve, where the engine refuses nothing in that read.
pub revoke-resolve_name :
    (read io : Faults) (user : Option FeedRef) (name : Text) (db : Db)
    → IsWellFormed db
    → (revoke read io user (some (name ∷ [])) db).0 ≡ granted true
    → (a : Alias) × ((AliasesDb.resolve read name db).0 ≡ ok a)
      × (user ≡ some a.feed)
      × ((AliasesDb.resolve reliable a.name (revoke read io user (some (name ∷ [])) db).1).0
          ≡ err not_found)
unfolding revoke revoke_args revoke_from revoke_found
revoke-resolve_name read io none name db w h = absurd (ground arith)
revoke-resolve_name read io (some key) name db w h =
    elim (Result-cases (AliasesDb.resolve read name db).0) [
      | inr (x, e) ↦ absurd (ground arith)
      | inl (a, e) ↦
          let mine : text_eq a.feed key ≡ true = ground arith in
          let went : (revoked (AliasesDb.revoke io a.name db)).0 ≡ granted true = ground arith in
          let (wrote, same) = revoked_effect (AliasesDb.revoke io a.name db) went in
          let theirs : a.feed ≡ key = (text_eq_iff a.feed key).0 mine in
          (
            a,
            e,
            ground arith,
            ground (arith, same, AliasesLaws.revoke-resolve io a.name db w wrote),
          )
    ]
