-- ===== src/Room/State/Order.antt =====
-- roomstate/roomstate.go: the order in which `AsList` sorts feed references.
use go_ssb_room.Base.{
  ◌≡◌, ◌≢◌, refl, Bool, true, false, ◌||◌, List, [], ◌∷◌, Text, text_eq_iff, arith, All, Bool-cases,
  inl, inr,
}
use go_ssb_room.Sqlite.Rows.{exists, Distinct, All-imp}
use go_ssb_room.Room.State.{before, insert, sort}

before_trans : (r s t : Text) → before r s ≡ true → before s t ≡ true → before r t ≡ true
unfolding before
before_trans [] [] t h k = absurd (ground arith)
before_trans [] (b ∷ s) [] h k = absurd (ground arith)
before_trans [] (b ∷ s) (c ∷ t) h k = refl
before_trans (a ∷ r) [] t h k = absurd (ground arith)
before_trans (a ∷ r) (b ∷ s) [] h k = absurd (ground arith)
before_trans (a ∷ r) (b ∷ s) (c ∷ t) h k = ground (arith, before_trans r s t)

before_total : (s t : Text) → before s t ≡ false → s ≢ t → before t s ≡ true
unfolding before
before_total [] [] h k = absurd (k refl)
before_total [] (b ∷ t) h k = absurd (ground arith)
before_total (a ∷ s) [] h k = refl
before_total (a ∷ s) (b ∷ t) h k =
    ground (arith, before_total s t, text_eq_iff s t, text_eq_iff (a ∷ s) (b ∷ t))

-- Each text stands before every later one; so there are no duplicates either.
abbrev pub IsSorted : List Text → Type 0
IsSorted [] = Unit
IsSorted (t ∷ rest) = All (λ s. before t s ≡ true) rest × IsSorted rest

All-insert : (P : Text → Type 0) (t : Text) (xs : List Text) → P t → All P xs → All P (insert t xs)
unfolding insert
All-insert P t [] h k = (h, tt)
All-insert P t (x ∷ xs) h k = elim (Bool-cases (before x t)) [
  | inl e ↦ rw e (k.0, All-insert P t xs h k.1)
  | inr e ↦ rw e (h, k)
]

insert-IsSorted :
    (t : Text) (xs : List Text) → All (λ s. s ≢ t) xs → IsSorted xs → IsSorted (insert t xs)
unfolding insert
insert-IsSorted t [] h k = (tt, tt)
insert-IsSorted t (x ∷ xs) h k = elim (Bool-cases (before x t)) [
  | inl e ↦ rw e (All-insert (λ s. before x s ≡ true) t xs e k.0, insert-IsSorted t xs h.1 k.1)
  | inr e ↦
      let first : before t x ≡ true = before_total x t e h.0 in
      rw e (
        (
          first,
          All-imp (λ s. before x s ≡ true) (λ s. before t s ≡ true) xs
              (λ s b. before_trans t x s first b) k.0,
        ),
        k,
      )
]

All-sort : (P : Text → Type 0) (xs : List Text) → All P xs → All P (sort xs)
unfolding sort
All-sort P [] h = tt
All-sort P (x ∷ xs) h = All-insert P x (sort xs) h.0 (All-sort P xs h.1)

pub sort-IsSorted : (xs : List Text) → Distinct (λ t. t) xs → IsSorted (sort xs)
unfolding sort
sort-IsSorted [] d = tt
sort-IsSorted (x ∷ xs) d =
    insert-IsSorted x (sort xs) (All-sort (λ s. s ≢ x) xs d.0) (sort-IsSorted xs d.1)

exists-insert :
    (p : Text → Bool) (t : Text) (xs : List Text) → exists p (insert t xs) ≡ (p t || exists p xs)
unfolding insert exists
exists-insert p t [] = refl
exists-insert p t (x ∷ xs) = ground (arith, exists-insert p t xs)

pub exists-sort : (p : Text → Bool) (xs : List Text) → exists p (sort xs) ≡ exists p xs
unfolding sort exists
exists-sort p [] = refl
exists-sort p (x ∷ xs) = ground (arith, exists-insert p x (sort xs), exists-sort p xs)
