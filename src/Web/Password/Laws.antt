-- ===== src/Web/Password/Laws.antt =====
-- web/handlers/members_password.go: which passwords are set, and for whom.
use go_ssb_room.Base.{
  ◌∙◌, ◌≤◌, ◌≡◌, ◌≢◌, ◌⊎◌, refl, Bool, true, false, not, Option, none, some, [], Text, text_eq,
  text_eq_iff, codes, ltb, arith, Bool-cases, inl, inr,
}
use go_ssb_room.Roomdb.{Result, Error, ok}
use go_ssb_room.Sqlite.Db.{Db, Faults, transact, conclude}
use go_ssb_room.Sqlite.Tokens.{Codec}
use go_ssb_room.Sqlite.Members.{Member}
use go_ssb_room.Web.Request.{Request, Site, respond, calling}
use go_ssb_room.Web.Request.Guards.{Guards, guarding, calling-same}
use go_ssb_room.Web.Password.{
  change_password, both_present, set_password_of_nobody, update_password, min_password_length,
}

-- A member without a token, or a token without a member.
abbrev pub HasCredentials : Option Member → Text → Type 0
HasCredentials logged_in token =
    ((m : Member) × (logged_in ≡ some m) × (token ≡ [])) ⊎ ((logged_in ≡ none) × (token ≢ []))

set_password_of_nobody-same :
    (c : Codec) (io : Faults) (new : Text) (db : Db) → (set_password_of_nobody c io new db).1 ≡ db
unfolding set_password_of_nobody transact conclude
set_password_of_nobody-same c io new db = ground arith

update_password-credentials :
    (c : Codec) (io : Faults) (logged_in : Option Member) (token new : Text) (db : Db)
    → not (both_present logged_in token) ≡ true
    → (update_password c io logged_in token new db).1 ≢ db
    → HasCredentials logged_in token
unfolding update_password both_present
update_password-credentials c io none token new db apart other =
    elim (Bool-cases (text_eq token [])) [
      | inl e ↦ absurd (other (rw e (set_password_of_nobody-same c io new db)))
      | inr e ↦ inr (refl, λ same. ground (arith, text_eq_iff token []))
    ]
update_password-credentials c io (some m) token new db apart other =
    inl (m, refl, ground (arith, text_eq_iff token []))

-- What a password was checked for.
abbrev pub IsAcceptable : (Text → Result Bool) → Site → Request → Type 0
IsAcceptable leaked site req =
    let new = req.form (codes "new-password") in
    (min_password_length ≤ site.byte_length new)
    × (new ≡ req.form (codes "repeat-password"))
    × (leaked new ≡ ok false)
    × HasCredentials req.member (req.form (codes "reset-token"))

setting-Guards :
    {O : Type 0} (c : Codec) (leaked : Text → Result Bool) (site : Site) (req : Request) (db : Db)
    (pwned : Bool) (bad : Error → O) (good : Unit {0} → O)
    → not (both_present req.member (req.form (codes "reset-token"))) ≡ true
    → text_eq (req.form (codes "new-password")) (req.form (codes "repeat-password")) ≡ true
    → not (ltb (site.byte_length (req.form (codes "new-password"))) min_password_length) ≡ true
    → leaked (req.form (codes "new-password")) ≡ ok pwned
    → not pwned ≡ true
    → Guards (IsAcceptable leaked site req) db (
        calling
          (update_password c
            (site.io 0)
            req.member
            (req.form (codes "reset-token"))
            (req.form (codes "new-password")))
          (λ e. respond (bad e))
          λ done. respond (good done))
setting-Guards c leaked site req db pwned bad good apart same long looked free = record {
  apply = λ other. (
    ground arith,
    ground
        (arith, text_eq_iff (req.form (codes "new-password")) (req.form (codes "repeat-password"))),
    ground arith,
    update_password-credentials c (site.io 0) req.member (req.form (codes "reset-token"))
        (req.form (codes "new-password")) db apart
        (λ kept. other (
          calling-same
            (update_password c (site.io 0) req.member (req.form (codes "reset-token"))
              (req.form (codes "new-password")))
            bad good db
          ∙ kept)),
  );
}

change_password-Guards :
    (c : Codec) (leaked : Text → Result Bool) (site : Site) (req : Request) (db : Db)
    → Guards (IsAcceptable leaked site req) db (change_password c leaked site req)
unfolding change_password
change_password-Guards c leaked site req db = search (guarding, setting-Guards) depth 16

-- A submitted form changes the database only where the password has at least ten bytes, was
-- repeated in the same way, and was looked up and is not leaked, and where either a member is
-- logged in and sends no token, or nobody is logged in and a token is sent.
pub change_password-guard :
    (c : Codec) (leaked : Text → Result Bool) (site : Site) (req : Request) (db : Db)
    → (change_password c leaked site req db).1 ≢ db
    → IsAcceptable leaked site req
change_password-guard c leaked site req db = (change_password-Guards c leaked site req db).apply
