-- ===== src/Sqlite/Select.antt =====
-- The row that a SELECT finds, before and after the writes that follow it.
use go_ssb_room.Base.{
  ℕ, ◌≡◌, ◌≢◌, refl, Bool, true, false, some, List, [], ◌∷◌, ◌==◌, arith, All, ==_iff, ==_refl,
  Bool-cases, inl, inr,
}
use go_ssb_room.Sqlite.Rows.{
  select_one, select_all, delete_all, update_all, exists, Distinct, All-select_one,
}

module _ {A : Type 0} where
  -- Deleting other rows leaves the row that is found.
  pub select_one-delete_kept :
      (p q : A → Bool) (rows : List A) (r : A)
      → select_one p rows ≡ some r
      → q r ≡ false
      → select_one p (delete_all q rows) ≡ some r
  unfolding select_one delete_all select_all
  select_one-delete_kept p q [] r h k = h
  select_one-delete_kept p q (x ∷ rows) r h k = ground (arith, select_one-delete_kept p q rows r)

  pub exists-select_one :
      (p : A → Bool) (rows : List A) → exists p rows ≡ true → (r : A) × (select_one p rows ≡ some r)
  unfolding select_one exists
  exists-select_one p [] h = absurd (ground arith)
  exists-select_one p (x ∷ rows) h = elim (Bool-cases (p x)) [
    | inl e ↦ (x, rw e)
    | inr e ↦ let (r, k) = exists-select_one p rows (ground arith) in (r, ground arith)
  ]

module _ {A : Type 0} (id : A → ℕ) where
  -- A row that was found by any test is the one with its id.
  pub select_one-by_id :
      (p : A → Bool) (rows : List A) (r : A)
      → Distinct id rows
      → select_one p rows ≡ some r
      → select_one (λ s. id s == id r) rows ≡ some r
  unfolding select_one
  select_one-by_id p [] r d h = h
  select_one-by_id p (x ∷ rows) r d h = elim (Bool-cases (p x)) [
    | inl e ↦ let same : x ≡ r = ground arith in rw same (rw (==_refl (id r)))
    | inr e ↦
        let later : select_one p rows ≡ some r = ground arith in
        let other : id r ≢ id x = All-select_one (λ s. id s ≢ id x) p rows r d.0 later in
        ground (arith, select_one-by_id p rows r d.1 later, ==_iff (id x) (id r))
  ]

  -- Updating the row that was found, by its id, is seen by the same test.
  pub select_one-updated :
      (p : A → Bool) (f : A → A) (rows : List A) (r : A)
      → ((s : A) → p (f s) ≡ p s)
      → select_one p rows ≡ some r
      → select_one p (update_all (λ s. id s == id r) f rows) ≡ some (f r)
  unfolding select_one update_all
  select_one-updated p f [] r k h = absurd (ground arith)
  select_one-updated p f (x ∷ rows) r k h = elim (Bool-cases (p x)) [
    | inl e ↦
        let same : x ≡ r = ground arith in
        let passes : p r ≡ true = rw same at e in rw same (rw (==_refl (id r), k r, passes))
    | inr e ↦ ground (arith, k x, select_one-updated p f rows r k)
  ]

-- No row matches where the one with the key was deleted by its id.
module _ {A K : Type 0} (id : A → ℕ) (key : A → K) (p : A → Bool) where
  gone_others :
      (k : K) (n : ℕ) (rows : List A)
      → ((s : A) → p s ≡ true → key s ≡ k)
      → All (λ s. key s ≢ k) rows
      → exists p (delete_all (λ s. id s == n) rows) ≡ false
  unfolding exists delete_all select_all
  gone_others k n [] m h = refl
  gone_others k n (x ∷ rows) m h = ground (arith, m x, h.0, gone_others k n rows m h.1)

  pub exists-deleted_by_id :
      (k : K) (rows : List A) (r : A)
      → ((s : A) → p s ≡ true → key s ≡ k)
      → Distinct key rows
      → select_one p rows ≡ some r
      → exists p (delete_all (λ s. id s == id r) rows) ≡ false
  unfolding select_one exists delete_all select_all
  exists-deleted_by_id k [] r m d h = refl
  exists-deleted_by_id k (x ∷ rows) r m d h = elim (Bool-cases (p x)) [
    | inl e ↦
        let same : x ≡ r = ground arith in
        let named : key x ≡ k = m x e in
        ground (arith, ==_refl (id r), gone_others k (id r) rows m (rw named at d.0))
    | inr e ↦ ground (arith, exists-deleted_by_id k rows r m d.1)
  ]

-- No row matches once the one with the key was changed, by its id, into one that does not.
module _ {A K : Type 0} (id : A → ℕ) (key : A → K) (p : A → Bool) (f : A → A) where
  closed_others :
      (k : K) (n : ℕ) (rows : List A)
      → ((s : A) → p s ≡ true → key s ≡ k)
      → ((s : A) → p (f s) ≡ false)
      → All (λ s. key s ≢ k) rows
      → exists p (update_all (λ s. id s == n) f rows) ≡ false
  unfolding exists update_all
  closed_others k n [] m c h = refl
  closed_others k n (x ∷ rows) m c h = ground (arith, m x, c x, h.0, closed_others k n rows m c h.1)

  pub exists-closed_by_id :
      (k : K) (rows : List A) (r : A)
      → ((s : A) → p s ≡ true → key s ≡ k)
      → ((s : A) → p (f s) ≡ false)
      → Distinct key rows
      → select_one p rows ≡ some r
      → exists p (update_all (λ s. id s == id r) f rows) ≡ false
  unfolding select_one exists update_all
  exists-closed_by_id k [] r m c d h = refl
  exists-closed_by_id k (x ∷ rows) r m c d h = elim (Bool-cases (p x)) [
    | inl e ↦
        let same : x ≡ r = ground arith in
        let named : key x ≡ k = m x e in
        ground (arith, ==_refl (id r), c x, closed_others k (id r) rows m c (rw named at d.0))
    | inr e ↦ ground (arith, c x, exists-closed_by_id k rows r m c d.1)
  ]
