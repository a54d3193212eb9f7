-- ===== src/Sqlite/Tables.antt =====
-- What the schema promises of one table, and that each kind of statement keeps the promise.
use mathlib.Core.Path.{subst, sym}
use go_ssb_room.Base.{
  ℕ, ◌+◌, ◌<◌, ◌≡◌, ◌≢◌, Bool, true, false, List, [], ◌∷◌, ◌++◌, All, arith, ◌==◌, Text, text_eq,
  text_eq_iff, not,
}
use go_ssb_room.Sqlite.Rows.{
  Distinct, delete_all, update_all, exists, All-append, All-imp, All-update, All-of_exists,
  Distinct-append, Distinct-select, Distinct-update, exists-append, exists-delete, exists-update,
  All-delete, All-deleted, All-both,
}
use go_ssb_room.Sqlite.Db.{MemberRow}
use go_ssb_room.Sqlite.Schema.{has_id}

-- Ids are distinct and below the counter, and so are the values of the UNIQUE column `key`.
pub record IsTable {Row K : Type 0} (id : Row → ℕ) (key : Row → K) (next : ℕ) (rows : List Row)
    : Type 0 where
  pub ids : Distinct id rows
  pub below : All (λ r. id r < next) rows
  pub keys : Distinct key rows

module _ {Row K : Type 0} {id : Row → ℕ} {key : Row → K} where
  pub IsTable-append :
      (next : ℕ) (rows : List Row) (r : Row)
      → id r ≡ next
      → All (λ s. key s ≢ key r) rows
      → IsTable id key next rows
      → IsTable id key (next + 1) (rows ++ r ∷ [])
  IsTable-append next rows r e fresh t = record {
    ids =
        Distinct-append id rows r t.ids
          (All-imp (λ s. id s < next) (λ s. id s ≢ id r) rows (λ s lt same. omega arith) t.below);
    below =
        All-append (λ s. id s < next + 1) rows (r ∷ [])
          (All-imp (λ s. id s < next) (λ s. id s < next + 1) rows (λ s lt. omega arith) t.below)
          (omega arith, tt);
    keys = Distinct-append key rows r t.keys fresh;
  }

  pub IsTable-delete :
      (p : Row → Bool) (next : ℕ) (rows : List Row)
      → IsTable id key next rows
      → IsTable id key next (delete_all p rows)
  unfolding delete_all
  IsTable-delete p next rows t = record {
    ids = Distinct-select id (λ r. not (p r)) rows t.ids;
    below = All-deleted (λ r. id r < next) p rows t.below;
    keys = Distinct-select key (λ r. not (p r)) rows t.keys;
  }

  pub IsTable-update :
      (p : Row → Bool) (f : Row → Row) (next : ℕ) (rows : List Row)
      → ((r : Row) → id (f r) ≡ id r)
      → ((r : Row) → key (f r) ≡ key r)
      → IsTable id key next rows
      → IsTable id key next (update_all p f rows)
  IsTable-update p f next rows same_id same_key t = record {
    ids = Distinct-update id p f rows same_id t.ids;
    below =
        All-update (λ r. id r < next) p f rows (λ r lt. subst (λ n. n < next) (sym (same_id r)) lt)
          t.below;
    keys = Distinct-update key p f rows same_key t.keys;
  }

-- A UNIQUE check that passed: no row holds the new key.
pub fresh_text :
    {Row : Type 0} (key : Row → Text) (k : Text) (rows : List Row)
    → exists (λ r. text_eq (key r) k) rows ≡ false
    → All (λ r. key r ≢ k) rows
fresh_text key k rows h =
    All-of_exists (λ r. key r ≢ k) (λ r. text_eq (key r) k) rows
      (λ r miss e. ground (arith, text_eq_iff (key r) k)) h

pub fresh_number :
    {Row : Type 0} (key : Row → ℕ) (k : ℕ) (rows : List Row)
    → exists (λ r. key r == k) rows ≡ false
    → All (λ r. key r ≢ k) rows
fresh_number key k rows h =
    All-of_exists (λ r. key r ≢ k) (λ r. key r == k) rows (λ r miss e. ground arith) h

-- A foreign key into the members: every row refers to a member that is there.
abbrev pub Refers : {Row : Type 0} → (Row → ℕ) → List MemberRow → List Row → Type 0
Refers fk members = All (λ r. exists (has_id (fk r)) members ≡ true)

module _ {Row : Type 0} (fk : Row → ℕ) where
  pub Refers-new_member :
      (members : List MemberRow) (m : MemberRow) (rows : List Row)
      → Refers fk members rows
      → Refers fk (members ++ m ∷ []) rows
  Refers-new_member members m rows =
      All-imp (λ r. exists (has_id (fk r)) members ≡ true)
        (λ r. exists (has_id (fk r)) (members ++ m ∷ []) ≡ true) rows
        (λ r h. ground (arith, exists-append (has_id (fk r)) members (m ∷ [])))

  pub Refers-update_member :
      (p : MemberRow → Bool) (f : MemberRow → MemberRow) (members : List MemberRow)
      (rows : List Row)
      → ((m : MemberRow) → (f m).id ≡ m.id)
      → Refers fk members rows
      → Refers fk (update_all p f members) rows
  Refers-update_member p f members rows same =
      All-imp (λ r. exists (has_id (fk r)) members ≡ true)
        (λ r. exists (has_id (fk r)) (update_all p f members) ≡ true) rows
        (λ r h. rw (exists-update (has_id (fk r)) p f members (λ m. rw (same m))) h)

  -- A cascade: the rows that stay refer to members that stay.
  pub Refers-delete_member :
      (n : ℕ) (p : Row → Bool) (members : List MemberRow) (rows : List Row)
      → ((r : Row) → p r ≡ false → fk r ≢ n)
      → Refers fk members rows
      → Refers fk (delete_all (has_id n) members) (delete_all p rows)
  Refers-delete_member n p members rows other h =
      All-both (λ r. p r ≡ false) (λ r. exists (has_id (fk r)) members ≡ true)
        (λ r. exists (has_id (fk r)) (delete_all (has_id n) members) ≡ true) (delete_all p rows)
        (λ r stays refers.
          let apart : (m : MemberRow) → has_id (fk r) m ≡ true → has_id n m ≡ false =
            λ m same. ground (arith, other r stays) in
          rw (exists-delete (has_id (fk r)) (has_id n) members apart) refers)
        (All-delete p rows) (All-deleted (λ r. exists (has_id (fk r)) members ≡ true) p rows h)
