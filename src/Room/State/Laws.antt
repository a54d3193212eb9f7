-- ===== src/Room/State/Laws.antt =====
-- roomstate/roomstate.go: who is in the room after each call, and what the room lists.
use go_ssb_room.Base.{
  ◌≡◌, ◌≢◌, refl, Bool, true, false, not, none, some, List, [], ◌∷◌, ◌++◌, map, Text, text_eq,
  text_eq_iff, text_eq_refl, arith, All, Bool-cases, inl, inr,
}
use go_ssb_room.Roomdb.{FeedRef}
use go_ssb_room.Sqlite.Rows.{
  Distinct, select_one, select_all, delete_all, exists, All-delete, All-imp, Distinct-append,
  Distinct-select, exists-delete_self, select_one-append, select_one-none,
}
use go_ssb_room.Room.State.{
  Peer, Endpoint, RoomStateMap, Manager, new_manager, as_list, is_who, put, remove_key, list,
  Broken, notify, add_endpoint, remove, has, already_added, Event, announced, gone, asked,
  watch_endpoints, watch_attendants, step, run, register_legacy_endpoints,
  register_attendants_updates,
}
use go_ssb_room.Room.State.Order.{IsSorted, sort-IsSorted, exists-sort}

-- A Go map has each key once.
abbrev pub HasKeys : Manager → Type 0
HasKeys m = Distinct (λ (p : Peer). p.who) m.room

remove_key-Distinct :
    (who : FeedRef) (room : RoomStateMap)
    → Distinct (λ (p : Peer). p.who) room
    → Distinct (λ (p : Peer). p.who) (remove_key who room)
unfolding remove_key delete_all
remove_key-Distinct who room d =
    Distinct-select (λ (p : Peer). p.who) (λ r. not (is_who who r)) room d

put-Distinct :
    (who : FeedRef) (edp : Endpoint) (room : RoomStateMap)
    → Distinct (λ (p : Peer). p.who) room
    → Distinct (λ (p : Peer). p.who) (put who edp room)
unfolding put remove_key
put-Distinct who edp room d =
    Distinct-append (λ (p : Peer). p.who) (delete_all (is_who who) room)
      (record { who = who; endpoint = edp }) (remove_key-Distinct who room d)
      (All-imp (λ p. is_who who p ≡ false) (λ p. p.who ≢ who) _
        (λ p miss same. ground (arith, text_eq_iff p.who who)) (All-delete (is_who who) room))

step-HasKeys : (e : Event) (m : Manager) → HasKeys m → HasKeys (step e m)
unfolding step add_endpoint remove notify register_legacy_endpoints register_attendants_updates
    already_added
step-HasKeys (announced broken who edp) m d = put-Distinct who edp m.room d
step-HasKeys (gone broken who) m d = remove_key-Distinct who m.room d
step-HasKeys (asked broken who edp) m d = elim (Bool-cases (exists (is_who who) m.room)) [
  | inl e ↦ rw (step, e) d
  | inr e ↦ rw (step, e) (put-Distinct who edp m.room d)
]
step-HasKeys (watch_endpoints sent) m d = d
step-HasKeys (watch_attendants sent) m d = d

run-HasKeys : (events : List Event) (m : Manager) → HasKeys m → HasKeys (run events m)
unfolding run
run-HasKeys [] m d = d
run-HasKeys (e ∷ events) m d = run-HasKeys events (step e m) (step-HasKeys e m d)

map-Distinct :
    (room : RoomStateMap)
    → Distinct (λ (p : Peer). p.who) room
    → Distinct (λ (t : Text). t) (map (λ (p : Peer). p.who) room)
map-Distinct [] d = tt
map-Distinct (p ∷ room) d = (others room d.0, map-Distinct room d.1)
  where
    others :
        (rows : RoomStateMap)
        → All (λ (q : Peer). q.who ≢ p.who) rows
        → All (λ t. t ≢ p.who) (map (λ (q : Peer). q.who) rows)
    others [] h = tt
    others (q ∷ rows) h = (h.0, others rows h.1)

-- Whatever calls were made since the room was opened, its list is in strict order, so it names
-- nobody twice.
pub run-list-IsSorted : (events : List Event) → IsSorted (list (run events new_manager))
unfolding list as_list
run-list-IsSorted events =
    let room = (run events new_manager).room in
    sort-IsSorted (map (λ (p : Peer). p.who) room)
      (map-Distinct room (run-HasKeys events new_manager tt))

exists-map :
    (p : Text → Bool) (room : RoomStateMap)
    → exists p (map (λ (q : Peer). q.who) room) ≡ exists (λ (q : Peer). p q.who) room
unfolding exists
exists-map p [] = refl
exists-map p (q ∷ room) = ground (arith, exists-map p room)

pub select_one-exists_iff :
    (p : Peer → Bool) (room : RoomStateMap)
    → exists p room ≡ (elim (select_one p room) [ none ↦ false | some q ↦ true ])
unfolding select_one exists
select_one-exists_iff p [] = refl
select_one-exists_iff p (q ∷ room) = ground (arith, select_one-exists_iff p room)

-- A peer is in the list of the room exactly where the room has an endpoint for it.
list-has :
    (who : FeedRef) (m : Manager)
    → exists (λ t. text_eq t who) (list m) ≡ (elim (has who m) [ none ↦ false | some edp ↦ true ])
unfolding list as_list has
list-has who m = ground (
  arith,
  exists-sort (λ t. text_eq t who) (map (λ (q : Peer). q.who) m.room),
  exists-map (λ t. text_eq t who) m.room,
  select_one-exists_iff (is_who who) m.room,
)

select_one-other :
    (who other : FeedRef) (rows : RoomStateMap)
    → other ≢ who
    → select_one (is_who other) (delete_all (is_who who) rows) ≡ select_one (is_who other) rows
unfolding select_one delete_all select_all
select_one-other who other [] k = refl
select_one-other who other (p ∷ rows) k =
    ground
      (arith, select_one-other who other rows k, text_eq_iff p.who who, text_eq_iff p.who other)

select_one-put_other :
    (who other : FeedRef) (edp : Endpoint) (rows : RoomStateMap)
    → other ≢ who
    → select_one (is_who other) (rows ++ record { who = who; endpoint = edp } ∷ [])
      ≡ select_one (is_who other) rows
unfolding select_one
select_one-put_other who other edp [] k = ground (arith, text_eq_iff who other)
select_one-put_other who other edp (p ∷ rows) k =
    ground (arith, select_one-put_other who other edp rows k)

-- After AddEndpoint the peer has the endpoint that was given, also where it had another before, and
-- after Remove it has none; both leave the endpoint of anybody else.
pub add_endpoint-remove-has :
    (broken : Broken) (who other : FeedRef) (edp : Endpoint) (m : Manager)
    → other ≢ who
    → (has who (add_endpoint broken who edp m) ≡ some edp)
      × (has other (add_endpoint broken who edp m) ≡ has other m)
      × (has who (remove broken who m) ≡ none)
      × (has other (remove broken who m) ≡ has other m)
unfolding add_endpoint remove notify has put remove_key
add_endpoint-remove-has broken who other edp m k =
    let row : Peer = record { who = who; endpoint = edp } in
    let free = exists-delete_self (is_who who) m.room in
    (
      ground (
        arith,
        select_one-append (is_who who) (delete_all (is_who who) m.room) row free (text_eq_refl who),
      ),
      ground (
        arith,
        select_one-put_other who other edp (delete_all (is_who who) m.room) k,
        select_one-other who other m.room k,
      ),
      ground (arith, select_one-none (is_who who) (delete_all (is_who who) m.room) free),
      ground (arith, select_one-other who other m.room k),
    )
