-- ===== src/Web/Request/Answers.antt =====
-- What the answer of a handler says of the database: whether an error is told to the browser, and
-- what the database is in either case.
use go_ssb_room.Base.{
  ◌≡◌, refl, Bool, true, false, not, ◌&&◌, Option, none, some, List, [], ◌∷◌, ◌++◌, Text, arith,
  Option-cases, inl, inr, ℕ,
}
use go_ssb_room.Roomdb.{Error, Result, ok, err}
use go_ssb_room.Sqlite.Db.{Db, Action}
use go_ssb_room.Sqlite.Members.{Member}
use go_ssb_room.Sqlite.Keeps.{IsAtomic, IsRead}
use go_ssb_room.Room.Actions.{Verdict}
use go_ssb_room.Web.Errors.{
  WebError, plain, Write, error_page, plain_error, flash_error, json_error, handle, handle_as,
  as_redirect, add_error,
}
use go_ssb_room.Web.Request.{
  Serving, Handler, Outcome, page, failed, respond, add_writes, deferring, unless, with_some,
  with_result, on_call, calling, reading, parsed, if_allowed,
}

abbrev pub tells_error : Write → Bool
tells_error (error_page l) = true
tells_error (plain_error n) = true
tells_error (flash_error m) = true
tells_error (json_error t e) = true
tells_error _ = false

-- No error is among the writes.
abbrev pub is_clean : List Write → Bool
is_clean [] = true
is_clean (w ∷ ws) = not (tells_error w) && is_clean ws

abbrev pub is_page : Outcome → Bool
is_page (page shown) = true
is_page (failed e) = false

is_clean-append : (ws vs : List Write) → is_clean (ws ++ vs) ≡ (is_clean ws && is_clean vs)
is_clean-append [] vs = refl
is_clean-append (w ∷ ws) vs = ground (arith, is_clean-append ws vs)

-- The renderer of errors always tells one.
pub handle_tells : (code : ℕ) (e : WebError) → is_clean (handle code e) ≡ false
unfolding handle handle_as add_error
handle_tells code e = elim (Option-cases (as_redirect e)) [
  | inl k ↦ rw k refl
  | inr ((path, reason), k) ↦ rw k refl
]

pub handle_then_tells :
    (code : ℕ) (e : WebError) (ws : List Write) → is_clean (handle code e ++ ws) ≡ false
handle_then_tells code e ws =
    ground (arith, handle_tells code e, is_clean-append (handle code e) ws)

pub tells_then : (ws vs : List Write) → is_clean ws ≡ false → is_clean (ws ++ vs) ≡ false
tells_then ws vs h = ground (arith, is_clean-append ws vs)

-- From the database `at`, the handler ends with `R` where its answer is clean, and with `Q` where it
-- tells an error.
pub record Answers {O : Type 0} (clean : O → Bool) (Q R : Db → Type 0) (at : Db) (h : Serving O)
    : Type 0 where
  pub good : clean (h at).0 ≡ true → R (h at).1
  pub bad : clean (h at).0 ≡ false → Q (h at).1

module _ (Q R : Db → Type 0) (at : Db) where
  pub Answers-error_page :
      (code : ℕ) (e : WebError) → Q at → Answers is_clean Q R at (respond (handle code e))
  Answers-error_page code e q = record {
    good = λ h. absurd (ground (arith, handle_tells code e));
    bad = λ h. q;
  }

  pub Answers-error_then :
      (code : ℕ) (e : WebError) (ws : List Write)
      → Q at
      → Answers is_clean Q R at (respond (handle code e ++ ws))
  Answers-error_then code e ws q = record {
    good = λ h. absurd (ground (arith, handle_then_tells code e ws));
    bad = λ h. q;
  }

  pub Answers-flash : (e : WebError) → Q at → Answers is_clean Q R at (respond (add_error e ∷ []))
  unfolding add_error
  Answers-flash e q = record { good = λ h. absurd (ground arith); bad = λ h. q }

  pub Answers-refuse : (e : WebError) → Q at → Answers is_page Q R at (respond (failed e))
  Answers-refuse e q = record { good = λ h. absurd (ground arith); bad = λ h. q }

  pub Answers-page : (shown : List Text) → R at → Answers is_page Q R at (respond (page shown))
  Answers-page shown r = record { good = λ h. r; bad = λ h. absurd (ground arith) }

  pub Answers-done :
      (ws : List Write) → is_clean ws ≡ true → R at → Answers is_clean Q R at (respond ws)
  Answers-done ws k r = record { good = λ h. r; bad = λ h. absurd (ground arith) }

  pub Answers-deferring :
      (ws : List Write) (h : Handler)
      → is_clean ws ≡ true
      → Answers is_clean Q R at h
      → Answers is_clean Q R at (deferring ws h)
  unfolding add_writes
  Answers-deferring ws h k l = record {
    good = λ e. l.good (ground (arith, is_clean-append (h at).0 ws));
    bad = λ e. l.bad (ground (arith, is_clean-append (h at).0 ws));
  }

module _ {O : Type 0} (clean : O → Bool) (Q R : Db → Type 0) (at : Db) where
  pub Answers-unless :
      (b : Bool) (bad good : Serving O)
      → Answers clean Q R at bad
      → (b ≡ true → Answers clean Q R at good)
      → Answers clean Q R at (unless b bad good)
  unfolding unless
  Answers-unless true bad good k l = l refl
  Answers-unless false bad good k l = k

  pub Answers-with_some :
      {A : Type 0} (o : Option A) (bad : Serving O) (good : A → Serving O)
      → Answers clean Q R at bad
      → ((a : A) → o ≡ some a → Answers clean Q R at (good a))
      → Answers clean Q R at (with_some o bad good)
  unfolding with_some
  Answers-with_some none bad good k l = k
  Answers-with_some (some a) bad good k l = l a refl

  pub Answers-with_result :
      {A : Type 0} (r : Result A) (bad : Error → Serving O) (good : A → Serving O)
      → ((e : Error) → Answers clean Q R at (bad e))
      → ((a : A) → r ≡ ok a → Answers clean Q R at (good a))
      → Answers clean Q R at (with_result r bad good)
  unfolding with_result
  Answers-with_result (ok a) bad good k l = l a refl
  Answers-with_result (err e) bad good k l = k e

  pub Answers-reading :
      {A : Type 0} (f : Db → A) (k : A → Serving O)
      → Answers clean Q R at (k (f at))
      → Answers clean Q R at (reading f k)
  Answers-reading f k l = record { good = λ h. l.good h; bad = λ h. l.bad h }

  pub Answers-parsed :
      (o : Option Text) (bad : WebError → Serving O) (good : Serving O)
      → ((e : WebError) → Answers clean Q R at (bad e))
      → Answers clean Q R at good
      → Answers clean Q R at (parsed o bad good)
  unfolding parsed
  Answers-parsed none bad good k l = l
  Answers-parsed (some t) bad good k l = k (plain t)

  pub Answers-if_allowed :
      (v : Verdict) (bad : WebError → Serving O) (good : Member → Serving O)
      → ((e : WebError) → Answers clean Q R at (bad e))
      → ((m : Member) → v ≡ Verdict.allowed m → Answers clean Q R at (good m))
      → Answers clean Q R at (if_allowed v bad good)
  unfolding if_allowed
  Answers-if_allowed (Verdict.allowed m) bad good k l = l m refl
  Answers-if_allowed Verdict.not_authorized bad good k l = k _
  Answers-if_allowed Verdict.unknown_action bad good k l = k _
  Answers-if_allowed (Verdict.config_failed e) bad good k l = k _

  on_end :
      {A : Type 0} (bad : Error → Serving O) (good : A → Serving O) (r : Result A × Db)
      → ((e : Error) → r.0 ≡ err e → r.1 ≡ at)
      → ((e : Error) → Answers clean Q R at (bad e))
      → ((a : A) (db' : Db) → r ≡ (ok a, db') → Answers clean Q R db' (good a))
      → (clean (on_call bad good r).0 ≡ true → R (on_call bad good r).1)
        × (clean (on_call bad good r).0 ≡ false → Q (on_call bad good r).1)
  unfolding on_call
  on_end bad good (ok a, db') same k l = ((l a db' refl).good, (l a db' refl).bad)
  on_end bad good (err e, db') same k l = rw (same e refl) ((k e).good, (k e).bad)

  -- A call that leaves no trace where it fails.
  pub Answers-calling :
      {A : Type 0} (m : Action A) (bad : Error → Serving O) (good : A → Serving O)
      → IsAtomic m
      → ((e : Error) → Answers clean Q R at (bad e))
      → ((a : A) (db' : Db) → m at ≡ (ok a, db') → Answers clean Q R db' (good a))
      → Answers clean Q R at (calling m bad good)
  Answers-calling m bad good atomic k l =
      let (g, b) = on_end bad good (m at) (atomic.apply at) k l in record { good = g; bad = b }

  on_read :
      {A : Type 0} (bad : Error → Serving O) (good : A → Serving O) (r : Result A × Db)
      → r.1 ≡ at
      → ((e : Error) → Answers clean Q R at (bad e))
      → ((a : A) → r.0 ≡ ok a → Answers clean Q R at (good a))
      → (clean (on_call bad good r).0 ≡ true → R (on_call bad good r).1)
        × (clean (on_call bad good r).0 ≡ false → Q (on_call bad good r).1)
  unfolding on_call
  on_read bad good (ok a, db') same k l = rw same ((l a refl).good, (l a refl).bad)
  on_read bad good (err e, db') same k l = rw same ((k e).good, (k e).bad)

  -- A call that reads.
  pub Answers-read :
      {A : Type 0} (m : Action A) (bad : Error → Serving O) (good : A → Serving O)
      → IsRead m
      → ((e : Error) → Answers clean Q R at (bad e))
      → ((a : A) → (m at).0 ≡ ok a → Answers clean Q R at (good a))
      → Answers clean Q R at (calling m bad good)
  Answers-read m bad good read k l =
      let (g, b) = on_read bad good (m at) (read.apply at) k l in record { good = g; bad = b }

-- The rules on answers, for `search`.
pub ruleset answering = (
  Answers-deferring, Answers-unless, Answers-with_some, Answers-with_result, Answers-reading,
  Answers-parsed, Answers-if_allowed, Answers-calling, Answers-error_page, Answers-error_then,
  Answers-flash, Answers-refuse, Answers-page, Answers-done,
)

-- The same, for handlers that read before they write.
pub ruleset reading_first = (
  Answers-deferring, Answers-unless, Answers-with_some, Answers-parsed, Answers-read,
  Answers-calling, Answers-error_page, Answers-flash, Answers-done,
)
