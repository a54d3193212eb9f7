-- ===== src/Web/Login/Laws.antt =====
-- web/handlers/auth/withssb.go and web/members/helper.go: who a request is taken for.
use go_ssb_room.Base.{
  ◌∙◌, sym, ap, ℕ, ◌≤◌, ◌-◌, ◌+◌, ◌≡◌, ◌⊎◌, ◌↔◌, refl, Bool, true, false, Option, none, some, Text,
  codes, arith, Bool-cases, Option-cases, inl, inr,
}
use go_ssb_room.Roomdb.{FeedRef, Result-cases, ok}
use go_ssb_room.Sqlite.Rows.{exists, select_one, exists-delete_self, select_one-none}
use go_ssb_room.Sqlite.Db.{SessionRow, MemberRow, Db, Faults, reliable}
use go_ssb_room.Sqlite.Schema.{has_id, delete_sessions}
use go_ssb_room.Sqlite.Members.{Member, to_member, get_by_id, get_by_feed}
use go_ssb_room.Sqlite.Sessions.{
  session_timeout, has_token, check_token, remove_token, create_token,
}
use go_ssb_room.Sqlite.Sessions.Laws.{
  check_token_lem, check_token_unchanged, create_token-check_token,
}
use go_ssb_room.Room.SignIn.{Library, validate, trimmed}
use go_ssb_room.Room.Aliases.{trim_suffix, sig_suffix}
use go_ssb_room.Web.Request.{Request, Site, with_some, with_result, unless, on_call}
use go_ssb_room.Web.Login.{
  Value, held, Cookie, of_result, load_member, check_member, token_in_time, live_token,
  authenticate_request, Passed, passed_as, latest, inject_context, logout, logout_token,
  cookie_cleared, Peer, payload_of, client_initiated, set_cookie, saved_cookie,
}

-- A cookie whose token may be used.
token_in_time_effect :
    (now : ℕ) (v : Value Text) (t : Value ℕ) (token : Text)
    → token_in_time now v t ≡ some token
    → (timeout : ℕ) × (v ≡ held token) × (t ≡ held timeout) × (now ≤ timeout)
unfolding token_in_time
token_in_time_effect now (held x) (held timeout) token h =
    (timeout, ground arith, refl, ground arith)
token_in_time_effect now (held x) Value.absent token h = absurd (ground arith)
token_in_time_effect now (held x) Value.other_type token h = absurd (ground arith)
token_in_time_effect now Value.absent t token h = absurd (ground arith)
token_in_time_effect now Value.other_type t token h = absurd (ground arith)

live_token_effect :
    (now : ℕ) (cookie : Option Cookie) (token : Text)
    → live_token now cookie ≡ some token
    → (c : Cookie) × (timeout : ℕ) × (cookie ≡ some c)
      × (c.member_token ≡ held token)
      × (c.user_timeout ≡ held timeout)
      × (now ≤ timeout)
unfolding live_token
live_token_effect now none token h = absurd (ground arith)
live_token_effect now (some c) token h =
    let (timeout, same, until, early) =
      token_in_time_effect now c.member_token c.user_timeout token (ground arith) in
    (c, timeout, refl, same, until, early)

-- What a successful GetByID found.
get_by_id_effect :
    (io : Faults) (id : ℕ) (db : Db) (m : Member)
    → (get_by_id io id db).0 ≡ ok m
    → (row : MemberRow) × (select_one (has_id id) db.members ≡ some row)
      × (m.id ≡ row.id)
      × (m.role ≡ row.role)
      × (m.pub_key ≡ row.pub_key)
unfolding get_by_id to_member
get_by_id_effect io id db m h = elim (Option-cases (select_one (has_id id) db.members)) [
  | inl e ↦ absurd (ground arith)
  | inr (row, e) ↦ (row, e, ground arith, ground arith, ground arith)
]

-- What a successful token check went through.
check_member_effect :
    (site : Site) (token : Text) (db : Db) (m : Member)
    → (check_member site token db).0 ≡ some m
    → (id : ℕ) × ((check_token (site.io 0) token site.now db).0 ≡ ok id)
      × ((get_by_id (site.io 1) id db).0 ≡ ok m)
unfolding check_member load_member of_result
check_member_effect site token db m h =
    elim (Result-cases (check_token (site.io 0) token site.now db).0) [
      | inr (e, k) ↦ absurd (ground arith)
      | inl (id, k) ↦
          let kept = check_token_unchanged (site.io 0) token site.now db in
          elim (Result-cases (get_by_id (site.io 1) id db).0) [
            | inr (e, l) ↦ absurd (ground arith)
            | inl (n, l) ↦ (id, k, ground arith)
          ]
    ]

-- A member whom a cookie signs in has a token in it that is not over, a session under that token
-- which is at most a day old, and a row, whose key and role they have.
pub authenticate_request-guard :
    (site : Site) (cookie : Option Cookie) (db : Db) (m : Member)
    → (authenticate_request site cookie db).0 ≡ some m
    → (c : Cookie) × (timeout : ℕ) × (token : Text) × (s : SessionRow) × (row : MemberRow) × (cookie
        ≡ some c)
      × (c.member_token ≡ held token)
      × (c.user_timeout ≡ held timeout)
      × (site.now ≤ timeout)
      × (select_one (has_token token) db.sessions ≡ some s)
      × (site.now - s.created_at ≤ session_timeout)
      × (select_one (has_id s.member_id) db.members ≡ some row)
      × (m.role ≡ row.role)
      × (m.pub_key ≡ row.pub_key)
unfolding authenticate_request with_some
authenticate_request-guard site cookie db m h = elim (Option-cases (live_token site.now cookie)) [
  | inl e ↦ absurd (ground arith)
  | inr (token, e) ↦
      let (c, timeout, loaded, kept, until, early) = live_token_effect site.now cookie token e in
      let (id, checked, read) = check_member_effect site token db m (ground arith) in
      let (s, chosen, owner, young) = check_token_lem (site.io 0) token site.now id db checked in
      let (row, there, same_id, role, key) = get_by_id_effect (site.io 1) id db m read in
      (
        c,
        timeout,
        token,
        s,
        row,
        loaded,
        kept,
        until,
        early,
        chosen,
        young,
        rw owner there,
        role,
        key,
      )
]

-- A GetByID only reads, and so does a request that is looked up.
get_by_id-same : (io : Faults) (id : ℕ) (db : Db) → (get_by_id io id db).1 ≡ db
unfolding get_by_id
get_by_id-same io id db = ground arith

authenticate_request-same :
    (site : Site) (cookie : Option Cookie) (db : Db) → (authenticate_request site cookie db).1 ≡ db
unfolding authenticate_request with_some check_member load_member
authenticate_request-same site cookie db = elim (Option-cases (live_token site.now cookie)) [
  | inl e ↦ rw e refl
  | inr (token, e) ↦
      let kept = check_token_unchanged (site.io 0) token site.now db in
      elim (Result-cases (check_token (site.io 0) token site.now db).0) [
        | inr (x, k) ↦ ground arith
        | inl (id, k) ↦ ground (arith, get_by_id-same (site.io 1) id db)
      ]
]

latest-same :
    (by_password : Option Member) (r : Option Member × Db) → (latest by_password r).1 ≡ r.1
unfolding latest
latest-same by_password (some n, db) = refl
latest-same by_password (none, db) = refl

-- The password signs the member in, and they can be loaded.
abbrev pub HasPassed : Site → Passed → Db → Member → Type 0
HasPassed site passed db m =
    (id : ℕ) × (passed ≡ passed_as id) × ((get_by_id (site.io 2) id db).0 ≡ ok m)

-- The password signs nobody in, or a member who can be loaded.
abbrev pub IsReadable : Site → Passed → Db → Type 0
IsReadable site passed db =
    (passed ≡ Passed.not_passed) ⊎ ((n : Member) × HasPassed site passed db n)

latest_iff :
    (by_password : Option Member) (r : Option Member × Db) (m : Member)
    → ((latest by_password r).0 ≡ some m)
      ↔ ((r.0 ≡ some m) ⊎ ((r.0 ≡ none) × (by_password ≡ some m)))
unfolding latest
latest_iff by_password (some n, db) m =
    (λ h. inl h, λ h. elim h [ inl e ↦ e | inr (e, k) ↦ absurd (ground arith) ])
latest_iff by_password (none, db) m =
    (λ h. inr (refl, h), λ h. elim h [ inl e ↦ absurd (ground arith) | inr (e, k) ↦ k ])

-- A request gets a member into its context exactly in two ways. It is the member of the token, where
-- the token signs one in, and the password signs nobody in or a member who can be loaded. Or it is
-- the member of the password, who can be loaded, where the token signs nobody in. So a password
-- sign-in without an id, or whose member cannot be loaded, leaves the context empty whatever the
-- token is. Looking a request up changes nothing.
pub inject_context_lem :
    (site : Site) (passed : Passed) (cookie : Option Cookie) (db : Db)
    → ((inject_context site passed cookie db).1 ≡ db)
      × ((m : Member)
          → ((inject_context site passed cookie db).0 ≡ some m) ↔ (
              (IsReadable site passed db × ((authenticate_request site cookie db).0 ≡ some m))
              ⊎ (((authenticate_request site cookie db).0 ≡ none) × HasPassed site passed db m)))
unfolding inject_context on_call
inject_context_lem site Passed.without_id cookie db = (
  refl,
  λ m. (
    λ h. absurd (ground arith),
    λ h. elim h [
      | inl (inl e, k) ↦ absurd (ground arith)
      | inl (inr (n, (id, e, l)), k) ↦ absurd (ground arith)
      | inr (k, (id, e, l)) ↦ absurd (ground arith)
    ],
  ),
)
inject_context_lem site Passed.not_passed cookie db = (
  latest-same none (authenticate_request site cookie db) ∙ authenticate_request-same site cookie db,
  λ m.
      let (there, back) = latest_iff none (authenticate_request site cookie db) m in
      (
        λ h. elim (there h) [ inl e ↦ inl (inl refl, e) | inr (e, k) ↦ absurd (ground arith) ],
        λ h. elim h [
          | inl (readable, e) ↦ back (inl e)
          | inr (k, (id, e, l)) ↦ absurd (ground arith)
        ],
      ),
)
inject_context_lem site (passed_as id) cookie db =
    let kept = get_by_id-same (site.io 2) id db in
    elim (Result-cases (get_by_id (site.io 2) id db).0) [
      | inr (x, k) ↦ (
        ground arith,
        λ m. (
          λ h. absurd (ground arith),
          λ h. elim h [
            | inl (inl e, l) ↦ absurd (ground arith)
            | inl (inr (n, (other, e, found)), l) ↦ absurd (ground arith)
            | inr (l, (other, e, found)) ↦ absurd (ground arith)
          ],
        ),
      )
      | inl (n, k) ↦
          let found : inject_context site (passed_as id) cookie db
              ≡ latest (some n) (authenticate_request site cookie db) =
            ground arith in
          (
            ap (λ r. r.1) found
                ∙ (latest-same (some n) (authenticate_request site cookie db)
                    ∙ authenticate_request-same site cookie db),
            λ m.
                let (there, back) = latest_iff (some n) (authenticate_request site cookie db) m in
                let first = ap (λ r. r.0) found in
                (
                  λ h. elim (there (sym first ∙ h)) [
                    | inl e ↦ inl (inr (n, (id, refl, k)), e)
                    | inr (e, l) ↦ inr (e, (id, refl, ground arith))
                  ],
                  λ h. elim h [
                    | inl (readable, e) ↦ first ∙ back (inl e)
                    | inr (e, (other, same, loaded)) ↦ first ∙ back (inr (e, ground arith))
                  ],
                ),
          )
    ]

logout_effect :
    (site : Site) (saved : Bool) (c : Cookie) (token : Text) (db : Db)
    → c.member_token ≡ held token
    → (logout site saved (some c) db).0 ≡ cookie_cleared
    → exists (has_token token) (logout site saved (some c) db).1.sessions ≡ false
unfolding logout logout_token on_call remove_token delete_sessions
logout_effect site saved c token db mine h = elim (Bool-cases (site.io 0 0)) [
  | inl e ↦ absurd (ground arith)
  | inr e ↦ rw (mine, e) (exists-delete_self (has_token token) db.sessions)
]

get_by_feed-same : (io : Faults) (key : FeedRef) (db : Db) → (get_by_feed io key db).1 ≡ db
unfolding get_by_feed
get_by_feed-same io key db = ground arith

-- After a Logout that cleared the cookie, the token of that cookie signs nobody in any more, from
-- this or any other browser, whatever the engine refuses.
pub logout-authenticate_request :
    (site later : Site) (saved : Bool) (c other : Cookie) (token : Text) (db : Db)
    → c.member_token ≡ held token
    → other.member_token ≡ held token
    → (logout site saved (some c) db).0 ≡ cookie_cleared
    → (authenticate_request later (some other) (logout site saved (some c) db).1).0 ≡ none
logout-authenticate_request site later saved c other token db mine theirs h =
    let after = (logout site saved (some c) db).1 in
    let gone = logout_effect site saved c token db mine h in
    elim (Option-cases (authenticate_request later (some other) after).0) [
      | inl e ↦ e
      | inr (m, e) ↦
          let (
            d, timeout, token', s, row, loaded, inside, until, early, chosen, young, there, role,
            key,
          ) =
            authenticate_request-guard later (some other) after m e in
          let same : token' ≡ token = ground arith in
          absurd (
            ground
              (arith, rw same at chosen, select_one-none (has_token token) after.sessions gone))
    ]

-- What a sign-in that set a cookie went through.
client_initiated_effect :
    (l : Library) (site : Site) (saved : Bool) (peer : Peer) (req : Request) (client : FeedRef)
    (db : Db) (cookie : Cookie)
    → (client_initiated l site saved peer req client db).0.1 ≡ some cookie
    → (m : Member) × (signature : Text) × (token : Text) × ((get_by_feed (site.io 0) client db).0
        ≡ ok m)
      × (peer.connected ≡ true)
      × (validate l (payload_of peer client (req.query (codes "cc"))) signature ≡ true)
      × (cookie ≡ saved_cookie site.now token)
      × ((create_token site.random (site.io 1) m.id site.now db).0 ≡ ok token)
      × ((client_initiated l site saved peer req client db).1
          ≡ (create_token site.random (site.io 1) m.id site.now db).1)
unfolding client_initiated unless with_some with_result on_call set_cookie
client_initiated_effect l site saved peer req client db cookie h =
    let kept = get_by_feed-same (site.io 0) client db in
    elim (Result-cases (get_by_feed (site.io 0) client db).0) [
      | inr (e, k) ↦ absurd (ground arith)
      | inl (m, k) ↦ elim (Result-cases peer.solution) [
        | inr (e, a) ↦ absurd (ground arith)
        | inl (text, a) ↦
            elim (Option-cases (l.decode (trimmed (trim_suffix sig_suffix text) text))) [
              | inl b ↦ absurd (ground arith)
              | inr (signature, b) ↦
                  elim (Result-cases (create_token site.random (site.io 1) m.id site.now db).0) [
                    | inr (e, t) ↦ absurd (ground arith)
                    | inl (token, t) ↦ (
                      m,
                      signature,
                      token,
                      k,
                      ground arith,
                      ground arith,
                      ground arith,
                      t,
                      ground arith,
                    )
                  ]
            ]
      ]
    ]

-- A cookie that is set by a sign-in which the client started holds a token for a member with that
-- client's key, who is connected and has signed the challenges of both sides for this room; and
-- CheckToken accepts it for that member until a day later, where the engine refuses nothing then.
pub client_initiated_lem :
    (l : Library) (site : Site) (saved : Bool) (peer : Peer) (req : Request) (client : FeedRef)
    (db : Db) (cookie : Cookie) (later : ℕ)
    → (client_initiated l site saved peer req client db).0.1 ≡ some cookie
    → later ≤ site.now + session_timeout
    → let after = (client_initiated l site saved peer req client db).1 in
      (m : Member) × (signature : Text) × (token : Text) × ((get_by_feed (site.io 0) client db).0
        ≡ ok m)
      × (peer.connected ≡ true)
      × (validate l (payload_of peer client (req.query (codes "cc"))) signature ≡ true)
      × (cookie ≡ saved_cookie site.now token)
      × ((check_token reliable token later after).0 ≡ ok m.id)
client_initiated_lem l site saved peer req client db cookie later h early =
    let (m, signature, token, known, there, signed, kept, made, effect) =
      client_initiated_effect l site saved peer req client db cookie h in
    (
      m,
      signature,
      token,
      known,
      there,
      signed,
      kept,
      rw effect (
          create_token-check_token site.random (site.io 1) m.id site.now later db token made early),
    )
