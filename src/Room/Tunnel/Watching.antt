-- ===== src/Room/Tunnel/Watching.antt =====
-- muxrpc/handlers/tunnel/server/state.go: what a peer that asks for endpoints is told.
use go_ssb_room.Base.{
  ◌≡◌, refl, true, false, some, List, [], ◌∷◌, ◌++◌, ==_refl, text_eq_refl, arith, Bool-cases,
  Option-cases, inl, inr,
}
use go_ssb_room.Roomdb.{FeedRef}
use go_ssb_room.Sqlite.Rows.{
  select_one, delete_all, exists, select_one-append, exists-append, exists_singleton,
}
use go_ssb_room.Sqlite.Db.{Db}
use go_ssb_room.Room.Broadcasts.{Sink, register, deliver, write}
use go_ssb_room.Room.Broadcasts.Laws.{at_address, IsFresh, emit_lem, deliver_lem}
use go_ssb_room.Room.State.{
  Endpoint, Manager, Broken, is_who, list, as_list, notify, add_endpoint, already_added, put, Peer,
}
use go_ssb_room.Room.Tunnel.{granted, Reads, may_enumerate, enumerate_endpoints, answer, endpoints}

-- The sink of the caller, once the peer was added if need be.
watched_sink :
    (broken : Broken) (peer : FeedRef) (edp : Endpoint) (m : Manager)
    → IsFresh m.endpoints
    → broken.endpoint_sinks m.endpoints.next_address ≡ false
    → (s : Sink (List FeedRef)) × (select_one
          (at_address m.endpoints.next_address)
          (already_added broken peer edp
            (record m { endpoints = (register [] m.endpoints).1 })).1.endpoints.sinks
        ≡ some s)
unfolding already_added add_endpoint notify register
watched_sink broken peer edp m fresh works =
    let row : Sink (List FeedRef) = record { address = m.endpoints.next_address; received = [] } in
    let n = m.endpoints.next_address in
    let there : select_one (at_address n) (m.endpoints.sinks ++ row ∷ []) ≡ some row =
      select_one-append (at_address n) m.endpoints.sinks row fresh (==_refl n) in
    elim (Bool-cases (exists (is_who peer) m.room)) [
      | inl e ↦ (row, rw (already_added, e) there)
      | inr e ↦ (
        write (as_list (put peer edp m.room)) row,
        rw (already_added, e)
            (ground (
              arith,
              emit_lem broken.endpoint_sinks (as_list (put peer edp m.room)) n
                  (register [] m.endpoints).1,
              there,
            )),
      )
    ]

-- The peer is in the room once it was added if need be.
peer_is_in :
    (broken : Broken) (peer : FeedRef) (edp : Endpoint) (m : Manager)
    → exists (is_who peer) (already_added broken peer edp m).1.room ≡ true
unfolding already_added add_endpoint notify put
peer_is_in broken peer edp m =
    let row : Peer = record { who = peer; endpoint = edp } in
    elim (Bool-cases (exists (is_who peer) m.room)) [
      | inl e ↦ rw (already_added, e) e
      | inr e ↦
          rw (already_added, e)
            (ground (
              arith,
              exists-append (is_who peer) (delete_all (is_who peer) m.room) (row ∷ []),
              exists_singleton (is_who peer) row,
              text_eq_refl peer,
            ))
    ]

-- A peer whose call of endpoints is granted, on a stream that takes what is written to it and whose
-- address is fresh, is in the room afterwards, and its stream is registered for updates, with the
-- list of the room as its last message.
pub endpoints_lem :
    (io : Reads) (broken : Broken) (peer : FeedRef) (edp : Endpoint) (db : Db) (m : Manager)
    → IsFresh m.endpoints
    → broken.endpoint_sinks m.endpoints.next_address ≡ false
    → (endpoints io broken (some peer) edp db m).0 ≡ granted tt
    → let after = (endpoints io broken (some peer) edp db m).1 in
      (s : Sink (List FeedRef)) × (earlier : List (List FeedRef)) × (select_one
          (at_address m.endpoints.next_address)
          after.endpoints.sinks
        ≡ some s)
      × (s.received ≡ earlier ++ list after ∷ [])
      × (exists (is_who peer) after.room ≡ true)
unfolding endpoints answer enumerate_endpoints list register deliver
endpoints_lem io broken peer edp db m fresh works h =
    elim (Option-cases (may_enumerate io peer db)) [
      | inr (x, e) ↦ absurd (ground arith)
      | inl e ↦
          let n = m.endpoints.next_address in
          let before : Manager =
            (already_added broken peer edp
              (record m { endpoints = (register [] m.endpoints).1 })).1 in
          let (s, found) = watched_sink broken peer edp m fresh works in
          let told = deliver_lem broken.endpoint_sinks (list before) n before.endpoints works in
          rw (endpoints, e)
            (
              write (list before) s,
              s.received,
              ground (arith, told, found),
              refl,
              peer_is_in broken peer edp (record m { endpoints = (register [] m.endpoints).1 }),
            )
    ]
