-- ===== src/Room/Network/Laws.antt =====
-- roomsrv/init_network.go and internal/network/conntracker.go: who is let in, and how often at once.
use go_ssb_room.Base.{
  ℕ, ◌≡◌, ◌≢◌, ◌↔◌, true, false, not, Option, none, some, List, [], ◌∷◌, ◌++◌, Text, text_eq,
  text_eq_iff, text_eq_refl, arith, Bool-cases, inl, inr,
}
use go_ssb_room.Roomdb.{FeedRef, PrivacyMode, mode_restricted, ok, Result-cases}
use go_ssb_room.Sqlite.Rows.{
  Distinct, delete_all, exists, Distinct-append, Distinct-select, All-of_exists, exists-append,
  exists_singleton, exists-delete_self,
}
use go_ssb_room.Sqlite.Select.{exists-select_one}
use go_ssb_room.Sqlite.Db.{Db, Faults, reliable}
use go_ssb_room.Sqlite.Members.{get_by_feed}
use go_ssb_room.Sqlite.Config.{get_privacy_mode}
use go_ssb_room.Sqlite.Denied.{has_feed, add}
use go_ssb_room.Sqlite.Denied.Laws.{add-has_feed}
use go_ssb_room.Room.Tunnel.{is_found}
use go_ssb_room.Room.Network.{
  public, Lookups, unless_denied, for_remote, make_handler, ConnEntry, ConnTracker, is_peer,
  on_accept, close_entry, on_close,
}

-- A remote peer gets the public handler exactly where it is not the room itself, the privacy mode
-- can be read, HasFeed does not hold of it, and GetByFeed finds it if the mode is restricted.
pub make_handler_iff :
    (io : Lookups) (self remote : FeedRef) (db : Db)
    → (make_handler io self (some remote) db ≡ public) ↔ (
        (text_eq self remote ≡ false)
        × (has_feed io.of_denied remote db ≡ false)
        × (pm : PrivacyMode) × ((get_privacy_mode io.of_config db).0 ≡ ok pm)
        × (pm ≡ mode_restricted → is_found (get_by_feed io.of_member remote db).0 ≡ true))
unfolding make_handler for_remote unless_denied
make_handler_iff io self remote db = elim (Result-cases (get_privacy_mode io.of_config db).0) [
  | inr (x, e) ↦ ((λ h. absurd (ground arith)), λ h. absurd (ground arith))
  | inl (pm, e) ↦ ((λ h. (ground arith, ground arith, pm, e, ground arith)), λ h. ground arith)
]

-- After an Add to the denied keys that succeeds, the key does not get the public handler, unless it
-- is the room's own, as long as the engine refuses nothing to HasFeed, whatever happens to the
-- other lookups.
pub add-make_handler :
    (parse : Text → Option FeedRef) (io : Faults) (look : Lookups) (self key : FeedRef)
    (comment : Text) (now : ℕ) (db : Db)
    → text_eq self key ≡ false
    → look.of_denied ≡ reliable
    → (add parse io key comment now db).0 ≡ ok tt
    → make_handler look self (some key) (add parse io key comment now db).1 ≢ public
add-make_handler parse io look self key comment now db other works h let_in =
    let after = (add parse io key comment now db).1 in
    let denied = (add-has_feed parse io key comment [] now db h).0 in
    let passed = ((make_handler_iff look self key after).0 let_in).1 in
    absurd (ground (arith, rw works at passed))

-- What happens at the listener: a connection comes, or one is closed.
pub data ConnEvent : Type 0 where
  accepted : ℕ → Text → ℕ → ConnEvent
  closed : ℕ → Text → ConnEvent

abbrev pub run : List ConnEvent → ConnTracker → ConnTracker
run [] active = active
run (accepted now peer conn ∷ events) active = run events (on_accept now peer conn active).1
run (closed now peer ∷ events) active = run events (on_close now peer active).1

on_accept-Distinct :
    (now : ℕ) (peer : Text) (conn : ℕ) (active : ConnTracker)
    → Distinct (λ (e : ConnEntry). e.peer) active
    → Distinct (λ (e : ConnEntry). e.peer) (on_accept now peer conn active).1
unfolding on_accept
on_accept-Distinct now peer conn active d = elim (Bool-cases (exists (is_peer peer) active)) [
  | inl e ↦ rw e d
  | inr e ↦ rw e (
      Distinct-append (λ (c : ConnEntry). c.peer) active
        (record { peer = peer; conn = conn; started = now; cancelled = false }) d
        (All-of_exists (λ (c : ConnEntry). c.peer ≢ peer) (is_peer peer) active
          (λ c miss same. ground (arith, text_eq_iff c.peer peer)) e))
]

close_entry-Distinct :
    (now : ℕ) (peer : Text) (found : Option ConnEntry) (active : ConnTracker)
    → Distinct (λ (e : ConnEntry). e.peer) active
    → Distinct (λ (e : ConnEntry). e.peer) (close_entry now peer found active).1
unfolding close_entry delete_all
close_entry-Distinct now peer none active d = d
close_entry-Distinct now peer (some c) active d =
    Distinct-select (λ (x : ConnEntry). x.peer) (λ r. not (is_peer peer r)) active d

on_close-Distinct :
    (now : ℕ) (peer : Text) (active : ConnTracker)
    → Distinct (λ (e : ConnEntry). e.peer) active
    → Distinct (λ (e : ConnEntry). e.peer) (on_close now peer active).1
unfolding on_close
on_close-Distinct now peer active d = close_entry-Distinct now peer _ active d

run-keeps :
    (events : List ConnEvent) (active : ConnTracker)
    → Distinct (λ (e : ConnEntry). e.peer) active
    → Distinct (λ (e : ConnEntry). e.peer) (run events active)
run-keeps [] active d = d
run-keeps (accepted now peer conn ∷ events) active d =
    run-keeps events _ (on_accept-Distinct now peer conn active d)
run-keeps (closed now peer ∷ events) active d =
    run-keeps events _ (on_close-Distinct now peer active d)

-- However connections come and go, the tracker never holds two of one public key.
run-Distinct : (events : List ConnEvent) → Distinct (λ (e : ConnEntry). e.peer) (run events [])
run-Distinct events = run-keeps events [] tt

-- A peer whose connection was accepted is refused another, which changes nothing, and is accepted
-- again after OnClose.
on_accept-on_close :
    (now later : ℕ) (peer : Text) (conn next : ℕ) (active : ConnTracker)
    → (on_accept now peer conn active).0 ≡ true
    → let during = (on_accept now peer conn active).1 in
      (on_accept later peer next during ≡ (false, during))
      × ((on_accept later peer next (on_close later peer during).1).0 ≡ true)
unfolding on_accept on_close close_entry
on_accept-on_close now later peer conn next active h =
    let row : ConnEntry = record { peer = peer; conn = conn; started = now; cancelled = false } in
    let there : exists (is_peer peer) (active ++ row ∷ []) ≡ true = ground (
      arith,
      exists-append (is_peer peer) active (row ∷ []),
      exists_singleton (is_peer peer) row,
      text_eq_refl peer,
    ) in
    let (entry, chosen) = exists-select_one (is_peer peer) (active ++ row ∷ []) there in
    (ground arith, ground (arith, exists-delete_self (is_peer peer) (active ++ row ∷ [])))
