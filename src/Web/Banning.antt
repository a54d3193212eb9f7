-- ===== src/Web/Banning.antt =====
-- web/handlers/admin/denied_keys.go with web/handlers/invites.go: a key that was banned on one page
-- does not get in by an invite on the other.
use go_ssb_room.Base.{
  ◌≡◌, ◌∙◌, ◌≢◌, refl, true, false, some, List, [], ◌∷◌, Text, codes, arith, Option-cases, inl, inr,
}
use go_ssb_room.Roomdb.{FeedRef, Result, Result-cases, ok}
use go_ssb_room.Sqlite.Db.{Db, Faults, reliable}
use go_ssb_room.Sqlite.Tokens.{Codec}
use go_ssb_room.Sqlite.Denied as Denied
use go_ssb_room.Sqlite.Denied.{has_feed, was_found}
use go_ssb_room.Sqlite.Denied.Laws.{add-has_feed}
use go_ssb_room.Web.Errors.{add_error, Write, flash_message, see_other}
use go_ssb_room.Web.Request.{
  Request, Site, if_allowed, unless, parsed, with_some, on_call, add_writes,
}
use go_ssb_room.Web.Admin.Denied.{add, redirect_to_denied_keys}
use go_ssb_room.Web.Invites.{consume}
use go_ssb_room.Web.Invites.Laws.{Submitted, consume-guard}

-- What the page writes where it has added the key.
abbrev pub added : List Write
added = flash_message (codes "AdminDeniedKeysAdded") ∷ see_other redirect_to_denied_keys ∷ []

add_effect :
    (c : Codec) (site : Site) (req : Request) (db : Db)
    → (add c site req db).0 ≡ added
    → (key : FeedRef) × (c.parse (req.form (codes "pub_key")) ≡ some key)
      × ((Denied.add c.parse (site.io 1) key (req.form (codes "comment")) site.now db).0 ≡ ok tt)
      × ((add c site req db).1
          ≡ (Denied.add c.parse (site.io 1) key (req.form (codes "comment")) site.now db).1)
unfolding add if_allowed unless parsed with_some on_call add_writes add_error
add_effect c site req db h = elim (Option-cases (c.parse (req.form (codes "pub_key")))) [
  | inl e ↦ absurd (ground arith)
  | inr (key, e) ↦
      elim (Result-cases
        (Denied.add c.parse (site.io 1) key (req.form (codes "comment")) site.now db).0) [
          | inr (x, k) ↦ absurd (ground arith)
          | inl (t, k) ↦ (key, e, ground arith, ground arith)
        ]
]

has_feed_read :
    (io : Faults) (key : FeedRef) (db : Db)
    → io 0 ≡ false
    → has_feed io key db ≡ has_feed reliable key db
unfolding has_feed
has_feed_read io key db h = rw h refl

-- Where the page for denied keys has answered that it added the key of its form, an invite that is
-- used next changes nothing for that key, whoever sends it and however it is encoded: if the
-- database changes, another key was submitted. The engine must not refuse to read the denied keys.
pub denied_add-consume :
    (c : Codec) (site later : Site) (req req' : Request) (address : Text)
    (body : Result (FeedRef × Text)) (db : Db)
    → later.io 0 0 ≡ false
    → (add c site req db).0 ≡ added
    → let after = (add c site req db).1 in
      (banned : FeedRef) × (c.parse (req.form (codes "pub_key")) ≡ some banned)
      × ((consume c later address body req' after).1 ≢ after
          → (key : FeedRef) × (token : Text) × Submitted c body req' key token × (key ≢ banned))
denied_add-consume c site later req req' address body db up h =
    let (banned, parsed, success, effect) = add_effect c site req db h in
    let found =
      (add-has_feed c.parse (site.io 1) banned (req.form (codes "comment")) [] site.now db
        success).0 in
    (
      banned,
      parsed,
      λ other.
          let (key, token, sent, checked) =
            consume-guard c later address body req' (add c site req db).1 other in
          (
            key,
            token,
            sent,
            λ same.
                let open_door : has_feed (later.io 0) banned (add c site req db).1 ≡ false =
                  rw same at checked.0 in
                let shut : has_feed (later.io 0) banned (add c site req db).1 ≡ true =
                  rw effect (has_feed_read (later.io 0) banned _ up ∙ found) in
                ground arith,
          ),
    )
