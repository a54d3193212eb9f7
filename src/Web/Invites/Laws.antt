-- ===== src/Web/Invites/Laws.antt =====
-- web/handlers/invites.go: who is let in by an invite, and who may make one without an account.
use go_ssb_room.Base.{
  ap, sym, ℕ, ◌==◌, ==_iff, Option-cases, ◌∙◌, ◌≡◌, ◌≢◌, ◌⊎◌, refl, true, false, some, text_eq_iff,
  Text, text_eq, codes, arith, Bool-cases, inl, inr,
}
use go_ssb_room.Roomdb.{mode_open, FeedRef, Result, ok, err, Result-cases}
use go_ssb_room.Sqlite.Db.{ConfigRow, Db, Faults, transact, conclude}
use go_ssb_room.Sqlite.Tokens.{Codec}
use go_ssb_room.Sqlite.Denied.{has_feed}
use go_ssb_room.Sqlite.Invites as Invites
use go_ssb_room.Sqlite.Invites.Invariant.{consume-IsAtomic}
use go_ssb_room.Web.Request.{Request, Site, parsed, unless, with_some}
use go_ssb_room.Web.Request.Guards.{calling-same}
use go_ssb_room.Web.Admin.Settings.{writing}
use go_ssb_room.Web.Invites.{
  Responder, consume, consume_json, consume_form, consume_for, create_open_mode, create_open_json,
  create_open_html,
}

-- The invitee and the token that the handler read from the request.
abbrev pub Submitted : Codec → Result (FeedRef × Text) → Request → FeedRef → Text → Type 0
Submitted c body req key token =
    ((req.header (codes "Content-Type") ≡ codes "application/json") × (body ≡ ok (key, token)))
    ⊎ ((req.header (codes "Content-Type") ≡ codes "application/x-www-form-urlencoded")
        × (c.parse (req.form (codes "id")) ≡ some key)
        × (req.form (codes "invite") ≡ token))

is_text : (t u : Text) → text_eq t u ≡ true → t ≡ u
is_text t u e = ground (arith, text_eq_iff t u)

-- What a consumption that wrote has checked, and that what it leaves is what Consume leaves.
abbrev pub IsAdmitted : Codec → Site → FeedRef → Text → Db → Db → Type 0
IsAdmitted c site key token db after =
    (has_feed (site.io 0) key db ≡ false)
    × ((inv : Invites.Invite) × ((Invites.consume c (site.io 1) token key db).0 ≡ ok inv))
    × (after ≡ (Invites.consume c (site.io 1) token key db).1)

consume_changes :
    (c : Codec) (io : Faults) (token : Text) (key : FeedRef) (db : Db)
    → (Invites.consume c io token key db).1 ≢ db
    → (inv : Invites.Invite) × ((Invites.consume c io token key db).0 ≡ ok inv)
consume_changes c io token key db other =
    elim (Result-cases (Invites.consume c io token key db).0) [
      | inl (inv, e) ↦ (inv, e)
      | inr (x, e) ↦ absurd (other ((consume-IsAtomic c io token key).apply db x e))
    ]

consume_for-IsAdmitted :
    (c : Codec) (site : Site) (address : Text) (resp : Responder) (key : FeedRef) (token : Text)
    (db : Db)
    → (consume_for c site address resp key token db).1 ≢ db
    → IsAdmitted c site key token db (consume_for c site address resp key token db).1
unfolding consume_for unless
consume_for-IsAdmitted c site address resp key token db other =
    elim (Bool-cases (has_feed (site.io 0) key db)) [
      | inl e ↦ absurd (other (rw e refl))
      | inr e ↦
          let kept : (consume_for c site address resp key token db).1
              ≡ (Invites.consume c (site.io 1) token key db).1 =
            rw e (calling-same (Invites.consume c (site.io 1) token key) _ _ db) in
          (e, consume_changes c (site.io 1) token key db (λ same. other (kept ∙ same)), kept)
    ]

-- The two branches, by the content type of the request.
consume_json-IsAdmitted :
    (c : Codec) (site : Site) (address : Text) (body : Result (FeedRef × Text)) (db : Db)
    → (consume_json c site address body db).1 ≢ db
    → (key : FeedRef) × (token : Text) × (body ≡ ok (key, token))
      × IsAdmitted c site key token db (consume_json c site address body db).1
unfolding consume_json
consume_json-IsAdmitted c site address (err e) db other = absurd (other refl)
consume_json-IsAdmitted c site address (ok (key, token)) db other = (
  key,
  token,
  refl,
  consume_for-IsAdmitted c site address Responder.json_responder key token db other,
)

consume_form-IsAdmitted :
    (c : Codec) (site : Site) (address : Text) (req : Request) (db : Db)
    → (consume_form c site address req db).1 ≢ db
    → (key : FeedRef) × (token : Text) × (c.parse (req.form (codes "id")) ≡ some key)
      × (req.form (codes "invite") ≡ token)
      × IsAdmitted c site key token db (consume_form c site address req db).1
unfolding consume_form parsed with_some
consume_form-IsAdmitted c site address req db other = elim (Option-cases req.form_error) [
  | inr (t, e) ↦ absurd (other (rw e refl))
  | inl e ↦ elim (Option-cases (c.parse (req.form (codes "id")))) [
    | inl k ↦ absurd (other (rw (e, k) refl))
    | inr (key, k) ↦ (
      key,
      req.form (codes "invite"),
      k,
      refl,
      rw (e, k)
          (consume_for-IsAdmitted c site address Responder.html_responder key
            (req.form (codes "invite")) db (λ same. other (rw (e, k) same))),
    )
  ]
]

-- Where the endpoint changes the database, the request holds a key and a token, as JSON or in the
-- form by its content type, the key is not found to be denied, Consume accepts that token for that
-- key, and the database is left exactly as this Consume leaves it.
pub consume-guard :
    (c : Codec) (site : Site) (address : Text) (body : Result (FeedRef × Text)) (req : Request)
    (db : Db)
    → (consume c site address body req db).1 ≢ db
    → (key : FeedRef) × (token : Text) × Submitted c body req key token
      × IsAdmitted c site key token db (consume c site address body req db).1
unfolding consume
consume-guard c site address body req db other =
    elim (Bool-cases (text_eq (req.header (codes "Content-Type")) (codes "application/json"))) [
      | inl e ↦
          let taken : consume c site address body req db ≡ consume_json c site address body db =
            rw e refl in
          let (key, token, sent, (free, accepted, left)) =
            consume_json-IsAdmitted c site address body db
              (λ same. other (ap (λ r. r.1) taken ∙ same)) in
          (key, token, inl (is_text _ _ e, sent), (free, accepted, ap (λ r. r.1) taken ∙ left))
      | inr e ↦
          elim (Bool-cases (
            text_eq (req.header (codes "Content-Type"))
              (codes "application/x-www-form-urlencoded"))) [
                | inl k ↦
                    let taken : consume c site address body req db
                        ≡ consume_form c site address req db =
                      rw (e, k) refl in
                    let (key, token, sent, invite, (free, accepted, left)) =
                      consume_form-IsAdmitted c site address req db
                        (λ same. other (ap (λ r. r.1) taken ∙ same)) in
                    (
                      key,
                      token,
                      inr (is_text _ _ k, sent, invite),
                      (free, accepted, ap (λ r. r.1) taken ∙ left),
                    )
                | inr k ↦ absurd (other (rw (e, k) refl))
              ]
    ]

visitor-same :
    (c : Codec) (random : ℕ → Text) (io : Faults) (now : ℕ) (db : Db)
    → (Invites.create c random io Invites.Creator.visitor now db).1 ≢ db
    → (config : ConfigRow) × (db.config ≡ some config) × (config.privacy_mode ≡ mode_open)
unfolding Invites.create Invites.resolve_creator transact conclude
visitor-same c random io now db other = elim (Option-cases db.config) [
  | inl e ↦ absurd (other (ground arith))
  | inr (config, e) ↦ elim (Bool-cases (config.privacy_mode == mode_open)) [
    | inl k ↦ (config, e, ground (arith, ==_iff config.privacy_mode mode_open))
    | inr k ↦ absurd (other (ground arith))
  ]
]

-- Both answers follow the same call.
create_open_mode-same :
    (c : Codec) (site : Site) (req : Request) (db : Db)
    → (create_open_mode c site req db).1
      ≡ (Invites.create c site.random (site.io 0) Invites.Creator.visitor site.now db).1
unfolding create_open_mode writing create_open_json create_open_html
create_open_mode-same c site req db =
    let make = Invites.create c site.random (site.io 0) Invites.Creator.visitor site.now in
    elim (Bool-cases (text_eq (req.header (codes "Accept")) (codes "application/json"))) [
      | inl e ↦ rw e (calling-same make _ _ db)
      | inr e ↦ rw e (calling-same make _ _ db)
    ]

-- An invite that a visitor makes is the same whatever method the request has, also one that the
-- endpoint answers with an error: only the answer differs. And no invite is made where the room is
-- not open: where the configuration that is stored has another mode, the database stays as it is.
pub create_open_mode-guard :
    (c : Codec) (site : Site) (req : Request) (method : Text) (db : Db)
    → ((create_open_mode c site req db).1
        ≡ (create_open_mode c site (record req { method = method }) db).1)
      × ((create_open_mode c site req db).1 ≢ db
          → (config : ConfigRow) × (db.config ≡ some config) × (config.privacy_mode ≡ mode_open))
create_open_mode-guard c site req method db = (
  create_open_mode-same c site req db
      ∙ sym (create_open_mode-same c site (record req { method = method }) db),
  λ other.
      visitor-same c site.random (site.io 0) site.now db
        (λ same. other (create_open_mode-same c site req db ∙ same)),
)
