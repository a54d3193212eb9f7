-- ===== src/Web/Request/Guards.antt =====
-- What was checked where a handler changed the database.
use go_ssb_room.Base.{◌≡◌, ◌≢◌, refl, Bool, true, false, Option, none, some, Text, List}
use go_ssb_room.Roomdb.{Error, Result, ok, err}
use go_ssb_room.Sqlite.Db.{Db, Action}
use go_ssb_room.Sqlite.Members.{Member}
use go_ssb_room.Sqlite.Keeps.{IsRead}
use go_ssb_room.Room.Actions.{Verdict}
use go_ssb_room.Web.Errors.{WebError, plain, Write}
use go_ssb_room.Web.Request.{
  Serving, Handler, respond, add_writes, deferring, unless, with_some, with_result, on_call,
  calling, reading, parsed, if_allowed,
}

-- At the database `db`, the handler writes only where `Q` holds.
pub record Guards (Q : Type 0) (db : Db) {O : Type 0} (h : Serving O) : Type 0 where
  pub apply : (h db).1 ≢ db → Q

module _ (Q : Type 0) (db : Db) where
  pub Guards-deferring :
      (ws : List Write) (h : Handler) → Guards Q db h → Guards Q db (deferring ws h)
  unfolding add_writes
  Guards-deferring ws h k = record { apply = λ other. k.apply other }

module _ (Q : Type 0) (db : Db) {O : Type 0} where
  pub Guards-always : (h : Serving O) → Q → Guards Q db h
  Guards-always h q = record { apply = λ other. q }

  pub Guards-respond : (o : O) → Guards Q db (respond o)
  Guards-respond o = record { apply = λ other. absurd (other refl) }

  pub Guards-unless :
      (b : Bool) (bad good : Serving O)
      → Guards Q db bad
      → (b ≡ true → Guards Q db good)
      → Guards Q db (unless b bad good)
  unfolding unless
  Guards-unless true bad good k l = l refl
  Guards-unless false bad good k l = k

  pub Guards-with_some :
      {A : Type 0} (o : Option A) (bad : Serving O) (good : A → Serving O)
      → Guards Q db bad
      → ((a : A) → o ≡ some a → Guards Q db (good a))
      → Guards Q db (with_some o bad good)
  unfolding with_some
  Guards-with_some none bad good k l = k
  Guards-with_some (some a) bad good k l = l a refl

  pub Guards-with_result :
      {A : Type 0} (r : Result A) (bad : Error → Serving O) (good : A → Serving O)
      → ((e : Error) → Guards Q db (bad e))
      → ((a : A) → r ≡ ok a → Guards Q db (good a))
      → Guards Q db (with_result r bad good)
  unfolding with_result
  Guards-with_result (ok a) bad good k l = l a refl
  Guards-with_result (err e) bad good k l = k e

  pub Guards-reading :
      {A : Type 0} (f : Db → A) (k : A → Serving O)
      → Guards Q db (k (f db))
      → Guards Q db (reading f k)
  Guards-reading f k l = record { apply = λ other. l.apply other }

  pub Guards-parsed :
      (o : Option Text) (bad : WebError → Serving O) (good : Serving O)
      → ((e : WebError) → Guards Q db (bad e))
      → Guards Q db good
      → Guards Q db (parsed o bad good)
  unfolding parsed
  Guards-parsed none bad good k l = l
  Guards-parsed (some t) bad good k l = k (plain t)

  pub Guards-if_allowed :
      (v : Verdict) (bad : WebError → Serving O) (good : Member → Serving O)
      → ((e : WebError) → Guards Q db (bad e))
      → ((m : Member) → v ≡ Verdict.allowed m → Guards Q db (good m))
      → Guards Q db (if_allowed v bad good)
  unfolding if_allowed
  Guards-if_allowed (Verdict.allowed m) bad good k l = l m refl
  Guards-if_allowed Verdict.not_authorized bad good k l = k _
  Guards-if_allowed Verdict.unknown_action bad good k l = k _
  Guards-if_allowed (Verdict.config_failed e) bad good k l = k _

  -- A call that reads.
  on_read :
      {A : Type 0} (bad : Error → Serving O) (good : A → Serving O) (r : Result A × Db)
      → r.1 ≡ db
      → ((e : Error) → Guards Q db (bad e))
      → ((a : A) → r.0 ≡ ok a → Guards Q db (good a))
      → (on_call bad good r).1 ≢ db
      → Q
  unfolding on_call
  on_read bad good (ok a, db') same k l other = (l a refl).apply (rw same at other)
  on_read bad good (err e, db') same k l other = (k e).apply (rw same at other)

  pub Guards-read :
      {A : Type 0} (m : Action A) (bad : Error → Serving O) (good : A → Serving O)
      → IsRead m
      → ((e : Error) → Guards Q db (bad e))
      → ((a : A) → (m db).0 ≡ ok a → Guards Q db (good a))
      → Guards Q db (calling m bad good)
  Guards-read m bad good r k l = record { apply = on_read bad good (m db) (r.apply db) k l }

on_call-same :
    {O A : Type 0} (bad : Error → O) (good : A → O) (r : Result A × Db)
    → (on_call (λ e. respond (bad e)) (λ a. respond (good a)) r).1 ≡ r.1
unfolding on_call
on_call-same bad good (ok a, db') = refl
on_call-same bad good (err e, db') = refl

-- A handler that only answers after a call leaves what the call leaves.
pub calling-same :
    {O A : Type 0} (m : Action A) (bad : Error → O) (good : A → O) (db : Db)
    → (calling m (λ e. respond (bad e)) (λ a. respond (good a)) db).1 ≡ (m db).1
calling-same m bad good db = on_call-same bad good (m db)

-- The rules by which a handler is guarded, for `search`.
pub ruleset guarding = (
  Guards-deferring, Guards-unless, Guards-with_some, Guards-with_result, Guards-reading,
  Guards-parsed, Guards-if_allowed, Guards-respond,
)
