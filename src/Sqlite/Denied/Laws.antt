-- ===== src/Sqlite/Denied/Laws.antt =====
-- roomdb/sqlite/denied.go: a key is banned from when it is added to when it is removed.
use go_ssb_room.Base.{
  ℕ, ◌≡◌, true, false, Option, some, [], ◌∷◌, Text, text_eq_iff, text_eq_refl, arith, Option-cases,
  inl, inr,
}
use go_ssb_room.Roomdb.{FeedRef, already_added, ok, err}
use go_ssb_room.Sqlite.Rows.{select_one, exists, exists-append, select_one-append, select_one-none}
use go_ssb_room.Sqlite.Select.{exists-deleted_by_id}
use go_ssb_room.Sqlite.Db.{DeniedRow, Db, Faults, reliable, on_unique}
use go_ssb_room.Sqlite.Schema.{insert_denied, delete_denied}
use go_ssb_room.Sqlite.Invariant.{IsWellFormed}
use go_ssb_room.Sqlite.Denied.{is_key, add, was_found, has_feed, remove_feed}

-- After an Add that succeeds, HasFeed holds of the key and another Add of it is refused by an error
-- that names it, changing nothing, where the engine refuses neither of these two.
pub add-has_feed :
    (parse : Text → Option FeedRef) (io : Faults) (key : FeedRef) (comment again : Text) (now : ℕ)
    (db : Db)
    → (add parse io key comment now db).0 ≡ ok tt
    → let after = (add parse io key comment now db).1 in
      (has_feed reliable key after ≡ true)
      × (add parse reliable key again now after ≡ (err (already_added key), after))
unfolding add has_feed was_found on_unique insert_denied exists
add-has_feed parse io key comment again now db h = elim (Option-cases (parse key)) [
  | inl e ↦ absurd (ground arith)
  | inr (k, e) ↦
      let row : DeniedRow = record {
        id = db.next_denied;
        pub_key = key;
        comment = comment;
        created_at = now;
      } in
      let free : exists (is_key key) db.denied_keys ≡ false = ground arith in
      let there = select_one-append (is_key key) db.denied_keys row free (text_eq_refl key) in
      (
        ground arith,
        ground (arith, exists-append (is_key key) db.denied_keys (row ∷ []), text_eq_refl key),
      )
]

-- What a successful RemoveFeed found and wrote.
remove_feed_effect :
    (io : Faults) (key : FeedRef) (db : Db)
    → (remove_feed io key db).0 ≡ ok tt
    → (d : DeniedRow) × (select_one (is_key key) db.denied_keys ≡ some d)
      × ((remove_feed io key db).1 ≡ (delete_denied d.id db).1)
unfolding remove_feed delete_denied
remove_feed_effect io key db h = elim (Option-cases (select_one (is_key key) db.denied_keys)) [
  | inl e ↦ absurd (ground arith)
  | inr (d, e) ↦ (d, e, ground arith)
]

-- In a well-formed database, after a RemoveFeed that succeeds HasFeed does not hold of the key,
-- where the engine refuses nothing in that read.
remove_feed-has_feed :
    (io : Faults) (key : FeedRef) (db : Db)
    → IsWellFormed db
    → (remove_feed io key db).0 ≡ ok tt
    → has_feed reliable key (remove_feed io key db).1 ≡ false
unfolding has_feed was_found delete_denied
remove_feed-has_feed io key db w h =
    let (d, chosen, effect) = remove_feed_effect io key db h in
    let gone =
      exists-deleted_by_id (λ (x : DeniedRow). x.id) (λ x. x.pub_key) (is_key key) key
        db.denied_keys d (λ x k. (text_eq_iff x.pub_key key).0 k) w.denied.keys chosen in
    rw effect (ground (arith, select_one-none (is_key key) _ gone))
