-- ===== src/Web/Secrets/Laws.antt =====
-- web/utils.go: which keys are read back from the files.
use mathlib.Core.Path.{subst}
use go_ssb_room.Base.{
  sym, ◌∙◌, ◌-◌, ℕ, zero, suc, ◌*◌, ◌≤◌, ◌≡◌, refl, Bool, true, false, List, [], ◌∷◌, ◌++◌, map,
  length, length-append, take, drop, take-append, drop-append, All, Text, arith, ltb,
}
use go_ssb_room.Web.Secrets.{
  bytes, missing, loaded, split_pair, chunk_pairs, is_multiple, load_cookie_secrets,
  load_csrf_secret,
}

abbrev pub concat : List Text → Text
concat [] = []
concat (c ∷ cs) = c ++ concat cs

-- All chunks but the last.
abbrev pub but_last : List Text → List Text
but_last [] = []
but_last (c ∷ []) = []
but_last (c ∷ d ∷ cs) = c ∷ but_last (d ∷ cs)

abbrev pub IsChunk : Text → Type 0
IsChunk c = length c ≡ 64

length-concat : (cs : List Text) → All IsChunk cs → length (concat cs) ≡ 64 * length cs
length-concat [] h = refl
length-concat (c ∷ cs) h = omega (arith, length-append c (concat cs), length-concat cs h.1, h.0)

not_below : (n m : ℕ) → m ≤ n → ltb n m ≡ false
not_below n m h = ground arith

chunk_pairs_lag :
    (fuel : ℕ) (chunk : Text) (cs : List Text)
    → All IsChunk cs
    → length cs ≤ fuel
    → chunk_pairs fuel chunk (concat cs) ≡ map split_pair (but_last (chunk ∷ cs))
unfolding chunk_pairs
chunk_pairs_lag zero chunk [] h enough = refl
chunk_pairs_lag zero chunk (c ∷ cs) h enough = absurd (omega arith)
chunk_pairs_lag (suc fuel) chunk [] h enough = refl
chunk_pairs_lag (suc fuel) chunk (c ∷ cs) h enough =
    let first : take 64 (c ++ concat cs) ≡ c =
      subst (λ n. take n (c ++ concat cs) ≡ c) h.0 (take-append c (concat cs)) in
    let rest : drop 64 (c ++ concat cs) ≡ concat cs =
      subst (λ n. drop n (c ++ concat cs) ≡ concat cs) h.0 (drop-append c (concat cs)) in
    let long : ltb (length (c ++ concat cs)) 64 ≡ false =
      not_below (length (c ++ concat cs)) 64 (omega (arith, length-append c (concat cs), h.0)) in
    rw (long, first, rest, chunk_pairs_lag fuel c cs h.1 (omega arith)) refl

is_multiple_lem : (fuel k : ℕ) → k ≤ fuel → is_multiple fuel (64 * k) ≡ true
unfolding is_multiple
is_multiple_lem zero zero h = refl
is_multiple_lem zero (suc k) h = absurd (omega arith)
is_multiple_lem (suc fuel) zero h = refl
is_multiple_lem (suc fuel) (suc k) h =
    let long = not_below (64 * suc k) 64 (omega arith) in
    let rest : 64 * suc k - 64 ≡ 64 * k = omega arith in ground (arith, is_multiple_lem fuel k)

pub load_cookie_secrets-pairs :
    (hash_key block_key : Text) (writable : Bool) (c : Text) (cs : List Text)
    → All IsChunk (c ∷ cs)
    → load_cookie_secrets hash_key block_key writable (bytes (concat (c ∷ cs)))
      ≡ loaded (split_pair c ∷ map split_pair (but_last (c ∷ cs))) (bytes (concat (c ∷ cs)))
unfolding load_cookie_secrets
load_cookie_secrets-pairs hash_key block_key writable c cs h =
    let size = length-concat (c ∷ cs) h in
    let few : length (c ∷ cs) ≤ length (concat (c ∷ cs)) = omega (arith, size) in
    let whole : is_multiple (length (concat (c ∷ cs))) (length (concat (c ∷ cs))) ≡ true =
      subst (λ n. is_multiple (length (concat (c ∷ cs))) n ≡ true) (sym size)
        (is_multiple_lem _ (length (c ∷ cs)) few) in
    let first : take 64 (concat (c ∷ cs)) ≡ c =
      subst (λ n. take n (concat (c ∷ cs)) ≡ c) h.0 (take-append c (concat cs)) in
    rw (whole, first, chunk_pairs_lag _ c (c ∷ cs) h few) refl

append_nil : (xs : Text) → xs ++ [] ≡ xs
append_nil [] = refl
append_nil (x ∷ xs) = rw (append_nil xs) refl

take_all : (n : ℕ) (xs : Text) → length xs ≡ n → take n xs ≡ xs
take_all n xs h =
    subst (λ k. take k xs ≡ xs) h
      (subst (λ ys. take (length xs) ys ≡ xs) (append_nil xs) (take-append xs []))

split_pair-append :
    (hash_key block_key : Text)
    → length hash_key ≡ 32
    → length block_key ≡ 32
    → split_pair (hash_key ++ block_key) ≡ (hash_key, block_key)
split_pair-append hash_key block_key h b =
    let first : take 32 (hash_key ++ block_key) ≡ hash_key =
      subst (λ n. take n (hash_key ++ block_key) ≡ hash_key) h (take-append hash_key block_key) in
    let rest : drop 32 (hash_key ++ block_key) ≡ block_key =
      subst (λ n. drop n (hash_key ++ block_key) ≡ block_key) h (drop-append hash_key block_key) in
    rw (first, rest, take_all 32 block_key b) refl

-- The keys that are made where there is no file yet are the keys that the file gives back from then
-- on, for the cookies and against forged requests.
load_secrets_again :
    (hash_key block_key hash' block' fresh fresh' : Text) (again : Bool)
    → length hash_key ≡ 32
    → length block_key ≡ 32
    → length fresh ≡ 32
    → (load_cookie_secrets hash' block' again (bytes (hash_key ++ block_key))
        ≡ load_cookie_secrets hash_key block_key true missing)
      × (load_csrf_secret fresh' again (bytes fresh) ≡ load_csrf_secret fresh true missing)
unfolding load_cookie_secrets load_csrf_secret
load_secrets_again hash_key block_key hash' block' fresh fresh' again h b f =
    let c = hash_key ++ block_key in
    let size : IsChunk c = omega (arith, length-append hash_key block_key, h, b) in
    (
      subst
            (λ t.
              load_cookie_secrets hash' block' again (bytes t)
              ≡ loaded (split_pair c ∷ []) (bytes t))
            (append_nil c) (load_cookie_secrets-pairs hash' block' again c [] (size, tt))
          ∙ rw (split_pair-append hash_key block_key h b) refl,
      rw f refl,
    )
