-- ===== src/Room/State/Refinement.antt =====
-- roomstate/roomstate.go: what the room promises of the peers that are in it, as a map from their
-- references to their endpoints, which forgets the order of the peers and all the watchers.
use go_ssb_room.Base.{
  ◌≡◌, ◌≢◌, ◌∙◌, ap, length, refl, true, false, Option, none, some, List, [], ◌∷◌, Text, text_eq,
  text_eq_iff, arith, Bool-cases, Option-cases, inl, inr, if◌then◌else◌,
}
use go_ssb_room.Roomdb.{FeedRef}
use go_ssb_room.Sqlite.Rows.{exists, select_one}
use go_ssb_room.Room.State.{
  Endpoint, Manager, new_manager, is_who, Broken, add_endpoint, remove, has, already_added, Event,
  announced, gone, asked, watch_endpoints, watch_attendants, step, run, register_legacy_endpoints,
  register_attendants_updates,
}
use go_ssb_room.Room.State.Laws.{add_endpoint-remove-has, select_one-exists_iff}

-- Who is in the room, and where.
abbrev pub View : Type 0
View = FeedRef → Option Endpoint

abbrev pub empty_view : View
empty_view who = none

abbrev pub assign : FeedRef → Option Endpoint → View → View
assign who value v other = if text_eq other who then value else v other

abbrev pub or_else : {A : Type 0} → Option A → A → A
or_else none a = a
or_else (some b) a = b

-- What each call promises.
abbrev pub promised : Event → View → View
promised (announced broken who edp) v = assign who (some edp) v
promised (gone broken who) v = assign who none v
promised (asked broken who edp) v = assign who (some (or_else (v who) edp)) v
promised (watch_endpoints sent) v = v
promised (watch_attendants sent) v = v

abbrev pub promised_all : List Event → View → View
promised_all [] v = v
promised_all (e ∷ events) v = promised_all events (promised e v)

abbrev pub view : Manager → View
view m who = has who m

-- The promises read a view at its points only.
promised-same :
    (e : Event) (v v' : View)
    → ((other : FeedRef) → v other ≡ v' other)
    → (who : FeedRef) → promised e v who ≡ promised e v' who
promised-same (announced broken who edp) v v' same other = rw (same other) refl
promised-same (gone broken who) v v' same other = rw (same other) refl
promised-same (asked broken who edp) v v' same other = rw (same other, same who) refl
promised-same (watch_endpoints sent) v v' same other = same other
promised-same (watch_attendants sent) v v' same other = same other

assigned :
    (who other : FeedRef) (value : Option Endpoint) (v : View) (found : Option Endpoint)
    → (other ≡ who → found ≡ value)
    → (other ≢ who → found ≡ v other)
    → found ≡ assign who value v other
assigned who other value v found k l = elim (Bool-cases (text_eq other who)) [
  | inl e ↦ rw e (k ((text_eq_iff other who).0 e))
  | inr e ↦ rw e (l (λ same. ground (arith, text_eq_iff other who)))
]

-- Some reference is another one.
longer : (t : Text) → 0 ∷ t ≢ t
longer t e = let same = ap length e in omega arith

add_endpoint-view :
    (broken : Broken) (who other : FeedRef) (edp : Endpoint) (m : Manager)
    → view (add_endpoint broken who edp m) other ≡ assign who (some edp) (view m) other
add_endpoint-view broken who other edp m =
    assigned who other (some edp) (view m) (has other (add_endpoint broken who edp m))
      (λ same. rw same ((add_endpoint-remove-has broken who (0 ∷ who) edp m (longer who)).0))
      (λ apart. (add_endpoint-remove-has broken who other edp m apart).1)

remove-view :
    (broken : Broken) (who other : FeedRef) (m : Manager)
    → view (remove broken who m) other ≡ assign who none (view m) other
remove-view broken who other m =
    assigned who other none (view m) (has other (remove broken who m))
      (λ same. rw same ((add_endpoint-remove-has broken who (0 ∷ who) 0 m (longer who)).2))
      (λ apart. (add_endpoint-remove-has broken who other 0 m apart).3)

-- A peer is known exactly where it has an endpoint.
known :
    (who : FeedRef) (m : Manager)
    → exists (is_who who) m.room ≡ (elim (has who m) [ none ↦ false | some edp ↦ true ])
unfolding has
known who m = ground (arith, select_one-exists_iff (is_who who) m.room)

already_added-view :
    (broken : Broken) (who other : FeedRef) (edp : Endpoint) (m : Manager)
    → view (already_added broken who edp m).1 other
      ≡ assign who (some (or_else (view m who) edp)) (view m) other
unfolding already_added
already_added-view broken who other edp m = elim (Option-cases (has who m)) [
  | inl e ↦
      let free : exists (is_who who) m.room ≡ false = ground (arith, known who m) in
      rw (free, e) (add_endpoint-view broken who other edp m)
  | inr (old, e) ↦
      let there : exists (is_who who) m.room ≡ true = ground (arith, known who m) in
      rw (there, e)
        (assigned who other (some old) (view m) (has other m) (λ same. rw same e) (λ apart. refl))
]

step-promised :
    (e : Event) (m : Manager) (other : FeedRef) → view (step e m) other ≡ promised e (view m) other
unfolding step has register_legacy_endpoints register_attendants_updates
step-promised (announced broken who edp) m other = add_endpoint-view broken who other edp m
step-promised (gone broken who) m other = remove-view broken who other m
step-promised (asked broken who edp) m other = already_added-view broken who other edp m
step-promised (watch_endpoints sent) m other = refl
step-promised (watch_attendants sent) m other = refl

run-promised :
    (events : List Event) (m : Manager) (v : View)
    → ((other : FeedRef) → view m other ≡ v other)
    → (other : FeedRef) → view (run events m) other ≡ promised_all events v other
unfolding run
run-promised [] m v same other = same other
run-promised (e ∷ events) m v same other =
    run-promised events (step e m) (promised e v)
      (λ who. step-promised e m who ∙ promised-same e (view m) v same who) other

-- Whatever calls were made since the room was opened, and whichever watchers failed, the room has
-- for every peer the endpoint that the calls promise, read as updates of a map that starts empty.
pub run-refines :
    (events : List Event) (who : FeedRef)
    → has who (run events new_manager) ≡ promised_all events empty_view who
unfolding has select_one
run-refines events who = run-promised events new_manager empty_view nobody who
  where
    nobody : (other : FeedRef) → has other new_manager ≡ none
    nobody other = refl
