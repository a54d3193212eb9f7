-- ===== src/Sqlite/Rows.antt =====
-- The rows of one table and the SQL that the queries of roomdb/sqlite/*.go run on them: SELECT,
-- DELETE and UPDATE with a WHERE test, and INSERT, which appends. Rows are listed by row id.
use mathlib.Core.Path.{subst}
use go_ssb_room.Base.{
  ◌≡◌, ◌≢◌, refl, Bool, true, false, not, ◌||◌, Option, none, some, List, [], ◌∷◌, ◌++◌, arith,
  if◌then◌else◌, All, inl, inr, Bool-cases, length, sym, ltb,
}

module _ {ℓ} {A : Type ℓ} where
  -- The first row that passes, as `One` reads it.
  unfoldable pub select_one : (A → Bool) → List A → Option A
  select_one p [] = none
  select_one p (r ∷ rows) = if p r then some r else select_one p rows

  -- Every row that passes, as `All` reads them.
  unfoldable pub select_all : (A → Bool) → List A → List A
  select_all p [] = []
  select_all p (r ∷ rows) = let rest = select_all p rows in if p r then r ∷ rest else rest

  unfoldable pub delete_all : (A → Bool) → List A → List A
  unfolding select_all
  delete_all p = select_all (λ r. not (p r))

  unfoldable pub update_all : (A → Bool) → (A → A) → List A → List A
  update_all p f [] = []
  update_all p f (r ∷ rows) = (if p r then f r else r) ∷ update_all p f rows

  unfoldable pub exists : (A → Bool) → List A → Bool
  exists p [] = false
  exists p (r ∷ rows) = p r || exists p rows

  -- No row has the key of another, as a UNIQUE column promises.
  abbrev pub Distinct {κ} : {K : Type κ} → (A → K) → List A → Type κ
  Distinct key [] = Unit
  Distinct key (r ∷ rows) = All (λ s. key s ≢ key r) rows × Distinct key rows

module _ {ℓ} {A : Type ℓ} where
  pub select_one-passes :
      (p : A → Bool) (rows : List A) (r : A) → select_one p rows ≡ some r → p r ≡ true
  unfolding select_one
  select_one-passes p [] r h = cc
  select_one-passes p (x ∷ rows) r h = ground (arith, select_one-passes p rows r)

  pub select_one-exists :
      (p : A → Bool) (rows : List A) (r : A) → select_one p rows ≡ some r → exists p rows ≡ true
  unfolding select_one exists
  select_one-exists p [] r h = cc
  select_one-exists p (x ∷ rows) r h = ground (arith, select_one-exists p rows r)

  pub select_one-none :
      (p : A → Bool) (rows : List A) → exists p rows ≡ false → select_one p rows ≡ none
  unfolding select_one exists
  select_one-none p [] h = refl
  select_one-none p (x ∷ rows) h = ground (arith, select_one-none p rows)

  pub select_all-exists :
      (p : A → Bool) (rows : List A) → ltb (length (select_all p rows)) 1 ≡ not (exists p rows)
  unfolding select_all exists
  select_all-exists p [] = refl
  select_all-exists p (r ∷ rows) = ground (arith, select_all-exists p rows)

  pub All-append {κ} : (P : A → Type κ) (xs ys : List A) → All P xs → All P ys → All P (xs ++ ys)
  All-append P [] ys h k = k
  All-append P (x ∷ xs) ys h k = (h.0, All-append P xs ys h.1 k)

  pub All-imp {κ κ'} :
      (P : A → Type κ) (Q : A → Type κ') (xs : List A) → ((a : A) → P a → Q a) → All P xs → All Q xs
  All-imp P Q [] f h = tt
  All-imp P Q (x ∷ xs) f h = (f x h.0, All-imp P Q xs f h.1)

  pub All-select {κ} :
      (P : A → Type κ) (p : A → Bool) (rows : List A) → All P rows → All P (select_all p rows)
  unfolding select_all
  All-select P p [] h = tt
  All-select P p (r ∷ rows) h = elim (Bool-cases (p r)) [
    | inl e ↦ rw e (h.0, All-select P p rows h.1)
    | inr e ↦ rw e (All-select P p rows h.1)
  ]

  pub All-update {κ} :
      (P : A → Type κ) (p : A → Bool) (f : A → A) (rows : List A)
      → ((r : A) → P r → P (f r))
      → All P rows
      → All P (update_all p f rows)
  unfolding update_all
  All-update P p f [] k h = tt
  All-update P p f (r ∷ rows) k h = elim (Bool-cases (p r)) [
    | inl e ↦ rw e (k r h.0, All-update P p f rows k h.1)
    | inr e ↦ rw e (h.0, All-update P p f rows k h.1)
  ]

  pub All-of_exists {κ} :
      (P : A → Type κ) (p : A → Bool) (rows : List A)
      → ((r : A) → p r ≡ false → P r)
      → exists p rows ≡ false
      → All P rows
  unfolding exists
  All-of_exists P p [] k h = tt
  All-of_exists P p (r ∷ rows) k h = elim (Bool-cases (p r)) [
    | inl e ↦ absurd (ground arith)
    | inr e ↦ (k r e, All-of_exists P p rows k (ground arith))
  ]

  pub exists-append :
      (p : A → Bool) (xs ys : List A) → exists p (xs ++ ys) ≡ (exists p xs || exists p ys)
  unfolding exists
  exists-append p [] ys = refl
  exists-append p (x ∷ xs) ys = ground (arith, exists-append p xs ys)

  pub exists_singleton : (p : A → Bool) (r : A) → exists p (r ∷ []) ≡ p r
  unfolding exists
  exists_singleton p r = ground arith

  -- What an update keeps true of a row, it keeps of the table.
  pub exists-update :
      (q p : A → Bool) (f : A → A) (rows : List A)
      → ((r : A) → q (f r) ≡ q r)
      → exists q (update_all p f rows) ≡ exists q rows
  unfolding exists update_all
  exists-update q p f [] k = refl
  exists-update q p f (r ∷ rows) k = ground (arith, k r, exists-update q p f rows k)

  -- A row that a deletion does not meet is still there.
  pub exists-delete :
      (q p : A → Bool) (rows : List A)
      → ((r : A) → q r ≡ true → p r ≡ false)
      → exists q (delete_all p rows) ≡ exists q rows
  unfolding exists delete_all select_all
  exists-delete q p [] k = refl
  exists-delete q p (r ∷ rows) k = ground (arith, k r, exists-delete q p rows k)

  pub exists-delete_self : (p : A → Bool) (rows : List A) → exists p (delete_all p rows) ≡ false
  unfolding exists delete_all select_all
  exists-delete_self p [] = refl
  exists-delete_self p (r ∷ rows) = ground (arith, exists-delete_self p rows)

  -- A deletion makes no row appear.
  pub exists-delete_false :
      (q p : A → Bool) (rows : List A)
      → exists q rows ≡ false
      → exists q (delete_all p rows) ≡ false
  unfolding exists delete_all select_all
  exists-delete_false q p [] h = refl
  exists-delete_false q p (r ∷ rows) h = ground (arith, exists-delete_false q p rows)

  pub All-delete : (p : A → Bool) (rows : List A) → All (λ r. p r ≡ false) (delete_all p rows)
  unfolding delete_all select_all
  All-delete p [] = tt
  All-delete p (r ∷ rows) = elim (Bool-cases (p r)) [
    | inl e ↦ rw e (All-delete p rows)
    | inr e ↦ rw e (e, All-delete p rows)
  ]

  pub All-deleted {κ} :
      (P : A → Type κ) (p : A → Bool) (rows : List A) → All P rows → All P (delete_all p rows)
  unfolding delete_all
  All-deleted P p rows = All-select P (λ r. not (p r)) rows

  pub All-both {κ κ' κ''} :
      (P : A → Type κ) (Q : A → Type κ') (R : A → Type κ'') (xs : List A)
      → ((a : A) → P a → Q a → R a)
      → All P xs
      → All Q xs
      → All R xs
  All-both P Q R [] f h k = tt
  All-both P Q R (x ∷ xs) f h k = (f x h.0 k.0, All-both P Q R xs f h.1 k.1)

  pub All-select_one {κ} :
      (P : A → Type κ) (p : A → Bool) (rows : List A) (r : A)
      → All P rows
      → select_one p rows ≡ some r
      → P r
  unfolding select_one
  All-select_one P p [] r h e = absurd (ground arith)
  All-select_one P p (x ∷ rows) r h e = elim (Bool-cases (p x)) [
    | inl t ↦ let same : x ≡ r = ground arith in subst P same h.0
    | inr t ↦ All-select_one P p rows r h.1 (ground arith)
  ]

  pub select_one-append :
      (p : A → Bool) (xs : List A) (y : A)
      → exists p xs ≡ false
      → p y ≡ true
      → select_one p (xs ++ y ∷ []) ≡ some y
  unfolding select_one exists
  select_one-append p [] y h k = rw k
  select_one-append p (x ∷ xs) y h k = ground (arith, select_one-append p xs y)

  pub select_one-append_old :
      (p : A → Bool) (xs ys : List A) (r : A)
      → select_one p xs ≡ some r
      → select_one p (xs ++ ys) ≡ some r
  unfolding select_one
  select_one-append_old p [] ys r h = cc
  select_one-append_old p (x ∷ xs) ys r h = ground (arith, select_one-append_old p xs ys r)

module _ {ℓ κ} {A : Type ℓ} {K : Type κ} (key : A → K) where
  pub Distinct-append :
      (rows : List A) (r : A)
      → Distinct key rows
      → All (λ s. key s ≢ key r) rows
      → Distinct key (rows ++ r ∷ [])
  Distinct-append [] r d h = (tt, tt)
  Distinct-append (x ∷ rows) r d h = (
    All-append (λ s. key s ≢ key x) rows (r ∷ []) d.0 ((λ e. h.0 (sym e)), tt),
    Distinct-append rows r d.1 h.1,
  )

  pub Distinct-select :
      (p : A → Bool) (rows : List A) → Distinct key rows → Distinct key (select_all p rows)
  unfolding select_all
  Distinct-select p [] d = tt
  Distinct-select p (r ∷ rows) d = elim (Bool-cases (p r)) [
    | inl e ↦ rw e (All-select (λ s. key s ≢ key r) p rows d.0, Distinct-select p rows d.1)
    | inr e ↦ rw e (Distinct-select p rows d.1)
  ]

  pub Distinct-update :
      (p : A → Bool) (f : A → A) (rows : List A)
      → ((r : A) → key (f r) ≡ key r)
      → Distinct key rows
      → Distinct key (update_all p f rows)
  unfolding update_all
  Distinct-update p f [] k d = tt
  Distinct-update p f (r ∷ rows) k d =
      let rest = Distinct-update p f rows k d.1 in
      let fresh =
        All-update (λ s. key s ≢ key r) p f rows (λ s h. subst (λ a. a ≢ key r) (sym (k s)) h)
          d.0 in
      elim (Bool-cases (p r)) [ inl e ↦ rw e (rw (k r) fresh, rest) | inr e ↦ rw e (fresh, rest) ]
