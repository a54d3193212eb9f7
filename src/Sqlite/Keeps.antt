-- ===== src/Sqlite/Keeps.antt =====
-- What a call does to the database, by the ways in which calls are put together: properties that
-- it keeps, calls that fail without a trace, and calls that only read.
use go_ssb_room.Base.{
  ◌≡◌, refl, ◌∙◌, Bool, true, false, Option, none, some, arith, Bool-cases, inl, inr,
}
use go_ssb_room.Roomdb.{Error, unique_violation, Result, ok, err}
use go_ssb_room.Sqlite.Db.{
  Db, Faults, Action, done, fail, next, ◌>>=◌, ◌>>◌, renaming, on_unique, check, require, found,
  statement, query, conclude, transact,
}

-- Whatever the result, the database afterwards has the property if it had it before.
pub record Keeps {A : Type 0} (P : Db → Type 0) (m : Action A) : Type 0 where
  pub apply : (db : Db) → P db → P (m db).1

-- A call that fails leaves the database as it was.
pub record IsAtomic {A : Type 0} (m : Action A) : Type 0 where
  pub apply : (db : Db) (e : Error) → (m db).0 ≡ err e → (m db).1 ≡ db

-- A call that only reads.
pub record IsRead {A : Type 0} (m : Action A) : Type 0 where
  pub apply : (db : Db) → (m db).1 ≡ db

module _ {A : Type 0} where
  -- Case splits on how a call ended, one for each way to go on.
  conclude-atomic :
      (io : Faults) (db : Db) (r : Result A × Db) (e : Error)
      → (conclude io db r).0 ≡ err e
      → (conclude io db r).1 ≡ db
  unfolding conclude
  conclude-atomic io db (ok a, db') e k = ground arith
  conclude-atomic io db (err x, db') e k = refl

  conclude-keeps :
      (P : Db → Type 0) (io : Faults) (db : Db) (r : Result A × Db)
      → P db
      → P r.1
      → P (conclude io db r).1
  unfolding conclude
  conclude-keeps P io db (ok a, db') h k = elim (Bool-cases (io 1)) [
    | inl t ↦ rw t h
    | inr t ↦ rw t k
  ]
  conclude-keeps P io db (err x, db') h k = h

  conclude-ok :
      (io : Faults) (db : Db) (r : Result A × Db) (a : A)
      → (conclude io db r).0 ≡ ok a
      → (r.0 ≡ ok a) × ((conclude io db r).1 ≡ r.1)
  unfolding conclude
  conclude-ok io db (ok b, db') a k = ground arith
  conclude-ok io db (err x, db') a k = absurd (ground arith)

  renaming-atomic :
      (x : Error) (db : Db) (r : Result A × Db)
      → ((y : Error) → r.0 ≡ err y → r.1 ≡ db)
      → (e : Error) → (on_unique x r).0 ≡ err e
      → (on_unique x r).1 ≡ db
  unfolding on_unique
  renaming-atomic x db (ok b, db') k e h = absurd (ground arith)
  renaming-atomic x db (err unique_violation, db') k e h = k unique_violation refl
  renaming-atomic x db (err y, db') k e h = k y refl

  renaming-same : (x : Error) (r : Result A × Db) → (on_unique x r).1 ≡ r.1
  unfolding on_unique
  renaming-same x (ok b, db') = refl
  renaming-same x (err unique_violation, db') = refl
  renaming-same x (err y, db') = refl

module _ {A B : Type 0} where
  next-keeps :
      (P : Db → Type 0) (f : B → Action A) (r : Result B × Db)
      → ((b : B) → Keeps P (f b))
      → P r.1
      → P (next f r).1
  next-keeps P f (ok b, db') k h = (k b).apply db' h
  next-keeps P f (err e, db') k h = h

  next-read :
      (f : B → Action A) (db : Db) (r : Result B × Db)
      → ((b : B) → IsRead (f b))
      → r.1 ≡ db
      → (next f r).1 ≡ db
  next-read f db (ok b, db') k e = (k b).apply db' ∙ e
  next-read f db (err x, db') k e = e

  next-atomic :
      (f : B → Action A) (db : Db) (r : Result B × Db) (e : Error)
      → ((b : B) → IsAtomic (f b))
      → r.1 ≡ db
      → (next f r).0 ≡ err e
      → (next f r).1 ≡ db
  next-atomic f db (ok b, db') e k same h = (k b).apply db' e h ∙ same
  next-atomic f db (err x, db') e k same h = same

  map-atomic :
      (g : B → A) (db : Db) (r : Result B × Db) (e : Error)
      → ((y : Error) → r.0 ≡ err y → r.1 ≡ db)
      → (next (λ b. done (g b)) r).0 ≡ err e
      → (next (λ b. done (g b)) r).1 ≡ db
  map-atomic g db (ok b, db') e k h = absurd (ground arith)
  map-atomic g db (err y, db') e k h = k y refl

module _ {A : Type 0} where
  pub transact-IsAtomic : (io : Faults) (m : Action A) → IsAtomic (transact io m)
  unfolding transact
  transact-IsAtomic io m = record {
    apply = λ db e h. elim (Bool-cases (io 0)) [
      | inl t ↦ rw t
      | inr t ↦ rw t (conclude-atomic io db (m db) e (rw t at h))
    ];
  }

  -- A call that succeeds in a transaction has run to its end, and its writes stay.
  pub transact-ok :
      (io : Faults) (m : Action A) (db : Db) (a : A)
      → (transact io m db).0 ≡ ok a
      → ((m db).0 ≡ ok a) × ((transact io m db).1 ≡ (m db).1)
  unfolding transact
  transact-ok io m db a h = elim (Bool-cases (io 0)) [
    | inl t ↦ absurd (ground arith)
    | inr t ↦ rw t (conclude-ok io db (m db) a (rw t at h))
  ]

  statement-atomic :
      (b : Bool) (m : Action A)
      → IsAtomic m
      → (db : Db) (e : Error) → (statement b m db).0 ≡ err e
      → (statement b m db).1 ≡ db
  statement-atomic true m h db e k = refl
  statement-atomic false m h db e k = h.apply db e k

  pub statement-IsAtomic : (b : Bool) (m : Action A) → IsAtomic m → IsAtomic (statement b m)
  statement-IsAtomic b m h = record { apply = statement-atomic b m h }

  pub renaming-IsAtomic : (x : Error) (m : Action A) → IsAtomic m → IsAtomic (renaming x m)
  renaming-IsAtomic x m a = record {
    apply = λ db e h. renaming-atomic x db (m db) (a.apply db) e h;
  }

  -- What reads first and then runs an atomic call is atomic.
  pub IsAtomic-bind :
      {B : Type 0} (m : Action B) (f : B → Action A)
      → IsRead m
      → ((b : B) → IsAtomic (f b))
      → IsAtomic (m >>= f)
  IsAtomic-bind m f r s = record { apply = λ db e h. next-atomic f db (m db) e s (r.apply db) h }

  -- A last step that cannot fail keeps a call atomic.
  pub IsAtomic-map :
      {B : Type 0} (m : Action B) (g : B → A) → IsAtomic m → IsAtomic (m >>= λ b. done (g b))
  IsAtomic-map m g a = record { apply = λ db e h. map-atomic g db (m db) e (a.apply db) h }

  query-read : (b : Bool) (f : Db → A) (db : Db) → (query b f db).1 ≡ db
  query-read true f db = refl
  query-read false f db = refl

  pub query-IsRead : (b : Bool) (f : Db → A) → IsRead (query b f)
  query-IsRead b f = record { apply = query-read b f }

  pub found-IsRead : (o : Option A) (e : Error) → IsRead (found o e)
  found-IsRead none e = record { apply = λ db. refl }
  found-IsRead (some a) e = record { apply = λ db. refl }

  pub IsRead-bind :
      {B : Type 0} (m : Action B) (f : B → Action A)
      → IsRead m
      → ((b : B) → IsRead (f b))
      → IsRead (m >>= f)
  IsRead-bind m f r s = record { apply = λ db. next-read f db (m db) s (r.apply db) }

  pub IsRead-IsAtomic : (m : Action A) → IsRead m → IsAtomic m
  IsRead-IsAtomic m r = record { apply = λ db e h. r.apply db }

pub check-IsRead : (o : Option Error) → IsRead (check o)
check-IsRead none = record { apply = λ db. refl }
check-IsRead (some e) = record { apply = λ db. refl }

pub require-IsRead : (b : Bool) (e : Error) → IsRead (require b e)
require-IsRead true e = record { apply = λ db. refl }
require-IsRead false e = record { apply = λ db. refl }

module _ (P : Db → Type 0) {A : Type 0} where
  pub Keeps-transact : (io : Faults) (m : Action A) → Keeps P m → Keeps P (transact io m)
  unfolding transact
  Keeps-transact io m k = record {
    apply = λ db h. elim (Bool-cases (io 0)) [
      | inl t ↦ rw t h
      | inr t ↦ rw t (conclude-keeps P io db (m db) h (k.apply db h))
    ];
  }

  pub Keeps-statement : (b : Bool) (m : Action A) → Keeps P m → Keeps P (statement b m)
  Keeps-statement true m k = record { apply = λ db h. h }
  Keeps-statement false m k = record { apply = λ db h. k.apply db h }

  pub Keeps-bind :
      {B : Type 0} (m : Action B) (f : B → Action A)
      → Keeps P m
      → ((b : B) → Keeps P (f b))
      → Keeps P (m >>= f)
  Keeps-bind m f k l = record { apply = λ db h. next-keeps P f (m db) l (k.apply db h) }

  pub Keeps-renaming : (x : Error) (m : Action A) → Keeps P m → Keeps P (renaming x m)
  Keeps-renaming x m k = record { apply = λ db h. rw (renaming-same x (m db)) (k.apply db h) }

  pub Keeps-read : (m : Action A) → IsRead m → Keeps P m
  Keeps-read m r = record { apply = λ db h. rw (r.apply db) h }

  pub Keeps-found : (o : Option A) (e : Error) → Keeps P (found o e)
  Keeps-found o e = Keeps-read (found o e) (found-IsRead o e)

  pub Keeps-query : (b : Bool) (f : Db → A) → Keeps P (query b f)
  Keeps-query b f = Keeps-read (query b f) (query-IsRead b f)

  pub Keeps-done : (a : A) → Keeps P (done a)
  Keeps-done a = record { apply = λ db h. h }

  pub Keeps-fail : (e : Error) → Keeps P (fail {A = A} e)
  Keeps-fail e = record { apply = λ db h. h }

  -- What follows a check may use that it passed.
  pub Keeps-checked :
      (o : Option Error) (m : Action A) → (o ≡ none → Keeps P m) → Keeps P (check o >> m)
  Keeps-checked none m k = k refl
  Keeps-checked (some e) m k = record { apply = λ db h. h }

pub Keeps-require : (P : Db → Type 0) (b : Bool) (e : Error) → Keeps P (require b e)
Keeps-require P b e = Keeps-read P (require b e) (require-IsRead b e)

-- One round of a loop that tries fresh tokens, by how its INSERT ended.
pub attempts_round :
    (P : Db → Type 0) {A B : Type 0} (r : Result B × Db) (db : Db) (a : A) (again : Result A × Db)
    → P db
    → P r.1
    → P again.1
    → P
        (let out : Result A × Db = elim r.0 [
          | ok id ↦ (ok a, r.1)
          | err unique_violation ↦ again
          | err e ↦ (err e, db)
        ] in
          out).1
attempts_round P (ok b, db') db a again h k l = k
attempts_round P (err unique_violation, db') db a again h k l = l
attempts_round P (err e, db') db a again h k l = h

-- Every value that a call returns passes.
pub record Returns {A : Type 0} (Q : A → Type 0) (m : Action A) : Type 0 where
  pub apply : (db : Db) (a : A) → (m db).0 ≡ ok a → Q a

next-returns-keeps :
    {A B : Type 0} (P : Db → Type 0) (Q : B → Type 0) (f : B → Action A) (r : Result B × Db)
    → ((b : B) → r.0 ≡ ok b → Q b)
    → ((b : B) → Q b → Keeps P (f b))
    → P r.1
    → P (next f r).1
next-returns-keeps P Q f (ok b, db') q k h = (k b (q b refl)).apply db' h
next-returns-keeps P Q f (err e, db') q k h = h

-- What follows a call may use what the call promises of its result.
pub Keeps-returned :
    (P : Db → Type 0) {A B : Type 0} (Q : B → Type 0) (m : Action B) (f : B → Action A)
    → Keeps P m
    → Returns Q m
    → ((b : B) → Q b → Keeps P (f b))
    → Keeps P (m >>= f)
Keeps-returned P Q m f k q l = record {
  apply = λ db h. next-returns-keeps P Q f (m db) (q.apply db) l (k.apply db h);
}

-- The rules by which a call keeps a property, and by which it is atomic, for `search`.
pub ruleset keeping = (
  Keeps-bind, Keeps-transact, Keeps-query, Keeps-found, Keeps-statement, Keeps-renaming,
  Keeps-require, Keeps-done, Keeps-fail,
)

pub ruleset atomicity = (
  transact-IsAtomic, IsAtomic-bind, IsAtomic-map, query-IsRead, found-IsRead, check-IsRead,
  require-IsRead, statement-IsAtomic, renaming-IsAtomic,
)
