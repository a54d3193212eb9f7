-- ===== src/Room/State.antt =====
-- roomstate/roomstate.go: the peers that are in the room, by the text of their feed reference. The
-- endpoint of a peer is a number, the connection that calls go to.
pub mod Order
pub mod Laws
pub mod Refinement
use go_ssb_room.Base.{
  ℕ, ◌+◌, Bool, true, false, not, Option, none, some, List, [], ◌∷◌, ◌++◌, map, ltb, ◌==◌, ◌||◌,
  ◌&&◌, if◌then◌else◌, Text, text_eq,
}
use go_ssb_room.Roomdb.{FeedRef}
use go_ssb_room.Sqlite.Rows.{delete_all, select_all, select_one, exists}
use go_ssb_room.Room.Broadcasts.{Broadcast, Attendance, joined, left, new_broadcast, register, emit}

abbrev pub Endpoint : Type 0
Endpoint = ℕ

pub record Peer : Type 0 where
  pub who : FeedRef
  pub endpoint : Endpoint

-- `roomStateMap`; the order of the list stands for that in which Go walks the map.
abbrev pub RoomStateMap : Type 0
RoomStateMap = List Peer

-- The `Manager`, without its logger. No two goroutines are between its lock and unlock at a time.
pub record Manager : Type 0 where
  pub endpoints : Broadcast (List FeedRef)
  pub attendants : Broadcast Attendance
  pub room : RoomStateMap

-- `NewManager`
abbrev pub new_manager : Manager
new_manager = record { endpoints = new_broadcast; attendants = new_broadcast; room = [] }

-- `<` on strings, which compares byte by byte.
unfoldable pub before : Text → Text → Bool
before [] [] = false
before [] (b ∷ t) = true
before (a ∷ s) [] = false
before (a ∷ s) (b ∷ t) = ltb a b || ((a == b) && before s t)

-- `sort.Strings`, by insertion.
unfoldable pub insert : Text → List Text → List Text
insert t [] = t ∷ []
insert t (s ∷ rest) = let later = insert t rest in if before s t then s ∷ later else t ∷ s ∷ rest

unfoldable pub sort : List Text → List Text
unfolding insert
sort [] = []
sort (t ∷ rest) = insert t (sort rest)

-- `AsList`
unfoldable pub as_list : RoomStateMap → List FeedRef
unfolding sort
as_list room = sort (map (λ (p : Peer). p.who) room)

abbrev pub is_who : FeedRef → Peer → Bool
is_who who p = text_eq p.who who

-- `m.room[who.String()] = edp`
unfoldable pub put : FeedRef → Endpoint → RoomStateMap → RoomStateMap
put who edp room = delete_all (is_who who) room ++ record { who = who; endpoint = edp } ∷ []

-- `delete(m.room, who.String())`
unfoldable pub remove_key : FeedRef → RoomStateMap → RoomStateMap
remove_key who = delete_all (is_who who)

-- `RegisterLegacyEndpoints` and `RegisterAttendantsUpdates`; `sent` was written to the sink before.
unfoldable pub register_legacy_endpoints : List (List FeedRef) → Manager → Manager
register_legacy_endpoints sent m = record m { endpoints = (register sent m.endpoints).1 }

unfoldable pub register_attendants_updates : List Attendance → Manager → Manager
register_attendants_updates sent m = record m { attendants = (register sent m.attendants).1 }

-- `List`
unfoldable pub list : Manager → List FeedRef
unfolding as_list
list m = as_list m.room

-- `ListAsRefs`, which panics on a key that does not parse; `parse` is `refs.ParseFeedRef`.
unfoldable cons_parsed : Option FeedRef → Option (List FeedRef) → Option (List FeedRef)
cons_parsed (some r) (some rs) = some (r ∷ rs)
cons_parsed _ _ = none

unfoldable pub parse_all : (Text → Option FeedRef) → List Text → Option (List FeedRef)
unfolding cons_parsed
parse_all parse [] = some []
parse_all parse (t ∷ rest) = cons_parsed (parse t) (parse_all parse rest)

unfoldable pub list_as_refs : (Text → Option FeedRef) → Manager → Option (List FeedRef)
unfolding parse_all list
list_as_refs parse m = parse_all parse (list m)

-- The streams that fail during one call.
pub record Broken : Type 0 where
  pub endpoint_sinks : ℕ → Bool
  pub attendant_sinks : ℕ → Bool

-- The two updates that follow a change of the map.
unfoldable pub notify : Broken → (FeedRef → Attendance) → FeedRef → Manager → Manager
unfolding as_list emit
notify broken change who m = record m {
  endpoints = emit broken.endpoint_sinks (as_list m.room) m.endpoints;
  attendants = emit broken.attendant_sinks (change who) m.attendants;
}

-- `AddEndpoint`
unfoldable pub add_endpoint : Broken → FeedRef → Endpoint → Manager → Manager
unfolding put notify
add_endpoint broken who edp m = notify broken joined who (record m { room = put who edp m.room })

-- `Remove`
unfoldable pub remove : Broken → FeedRef → Manager → Manager
unfolding remove_key notify
remove broken who m = notify broken left who (record m { room = remove_key who m.room })

-- `Has`
unfoldable pub has : FeedRef → Manager → Option Endpoint
has who m = elim (select_one (is_who who) m.room) [ none ↦ none | some p ↦ some p.endpoint ]

-- `AlreadyAdded`
unfoldable pub already_added : Broken → FeedRef → Endpoint → Manager → Bool × Manager
unfolding add_endpoint
already_added broken who edp m =
    if exists (is_who who) m.room then (true, m) else (false, add_endpoint broken who edp m)

-- The calls that change the state, and a history of them.
pub data Event : Type 0 where
  announced : Broken → FeedRef → Endpoint → Event
  gone : Broken → FeedRef → Event
  asked : Broken → FeedRef → Endpoint → Event
  watch_endpoints : List (List FeedRef) → Event
  watch_attendants : List Attendance → Event

unfoldable pub step : Event → Manager → Manager
step (announced broken who edp) m = add_endpoint broken who edp m
step (gone broken who) m = remove broken who m
step (asked broken who edp) m = (already_added broken who edp m).1
step (watch_endpoints sent) m = register_legacy_endpoints sent m
step (watch_attendants sent) m = register_attendants_updates sent m

unfoldable pub run : List Event → Manager → Manager
unfolding step
run [] m = m
run (e ∷ events) m = run events (step e m)
