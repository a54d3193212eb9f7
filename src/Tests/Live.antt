-- ===== src/Tests/Live.antt =====
-- The theorems on the live side of the room, on the small room.
use go_ssb_room.Room.Trackers.{entry_of, cancel_entry, on_accept_last}
use go_ssb_room.Room.Trackers.Laws as TrackersLaws
use go_ssb_room.Sqlite.Rows.{Distinct}
use go_ssb_room.Room.Network.{ConnEntry, ConnTracker, is_peer}
use go_ssb_room.Base.{
  ℕ, ◌==◌, ◌⊎◌, arith, Bool, ◌≡◌, ◌≢◌, ◌↔◌, refl, true, false, Option, some, List, [], ◌∷◌, ◌++◌,
  Text, text_eq, codes, length,
}
use go_ssb_room.Roomdb.{
  FeedRef, PrivacyMode, Error, mode_community, role_admin, mode_restricted, check_mode, scan_mode,
  not_found, ok, err,
}
use go_ssb_room.Sqlite.Rows.{select_all, exists, select_one}
use go_ssb_room.Sqlite.Db.{Db, reliable, transact, conclude, on_unique}
use go_ssb_room.Sqlite.Schema.{insert_alias, delete_alias, insert_denied}
use go_ssb_room.Sqlite.Members.{to_member, get_aliases, Alias, Member, get_by_feed}
use go_ssb_room.Sqlite.Members as Members
use go_ssb_room.Sqlite.Config.{find_config, get_privacy_mode}
use go_ssb_room.Sqlite.Denied.{add, has_feed}
use go_ssb_room.Sqlite.Aliases as AliasesDb
use go_ssb_room.Room.Broadcasts.{
  Sink, new_broadcast, runs_through, attendants_close, endpoints_close,
}
use go_ssb_room.Room.Broadcasts.Laws.{at_address}
use go_ssb_room.Room.State.{is_who, Manager, Event, Broken, new_manager, list, has, run}
use go_ssb_room.Room.State.Laws as StateLaws
use go_ssb_room.Room.State.Order.{IsSorted}
use go_ssb_room.Room.Tunnel.{
  answer, enumerate_endpoints, outsider, unknown_mode, keys_of, granted, Reads, is_found,
  members_only, for_mode, may_enumerate, endpoints, members, ConnectArg, handle_duplex,
}
use go_ssb_room.Room.Tunnel.Laws as TunnelLaws
use go_ssb_room.Room.Tunnel.Watching as WatchingLaws
use go_ssb_room.Room.Network.{Lookups, public, make_handler}
use go_ssb_room.Room.Network.Laws as NetworkLaws
use go_ssb_room.Room.Network.Laws.{accepted, closed}
use go_ssb_room.Room.Aliases.{
  is_alias_char, all_alias_chars, is_valid, registration_message, Library, sig_suffix,
}
use go_ssb_room.Room.Aliases
use go_ssb_room.Room.Aliases.Laws as HandlerLaws
use go_ssb_room.Tests.{alice, bob, carol, dave, mallory, plain, world, world-IsWellFormed}

abbrev all_well : Broken
all_well = record { endpoint_sinks = λ n. false; attendant_sinks = λ n. false }

abbrev day : List Event
day =
    Event.watch_endpoints []
    ∷ Event.announced all_well bob 20
    ∷ Event.asked all_well alice 10
    ∷ Event.gone all_well bob
    ∷ Event.announced all_well carol 30
    ∷ []

run-list-IsSorted_example : IsSorted (list (run day new_manager))
run-list-IsSorted_example = StateLaws.run-list-IsSorted day

abbrev evening : Manager
evening = record {
  endpoints = new_broadcast;
  attendants = new_broadcast;
  room = record { who = carol; endpoint = 30 } ∷ record { who = alice; endpoint = 10 } ∷ [];
}

-- `Close` of the endpoints runs to its end, whereas that of the attendants waits for itself.
close_deadlock :
    (runs_through false endpoints_close ≡ true) × (runs_through false attendants_close ≡ false)
unfolding runs_through
close_deadlock = (refl, refl)

abbrev lookups : Lookups
lookups = record { of_config = reliable; of_member = reliable; of_denied = reliable }

make_handler_iff_example : (make_handler lookups alice (some bob) world ≡ public) ↔ (
    (text_eq alice bob ≡ false)
    × (has_feed reliable bob world ≡ false)
    × (pm : PrivacyMode) × ((get_privacy_mode reliable world).0 ≡ ok pm)
    × (pm ≡ mode_restricted → is_found (get_by_feed reliable bob world).0 ≡ true))
make_handler_iff_example = NetworkLaws.make_handler_iff lookups alice bob world

deny_runs : (add plain.parse reliable dave [] 20 world).0 ≡ ok tt
unfolding add on_unique insert_denied exists text_eq
deny_runs = refl

not_the_room : text_eq alice dave ≡ false
unfolding text_eq
not_the_room = refl

add-make_handler_example :
    make_handler lookups alice (some dave) (add plain.parse reliable dave [] 20 world).1 ≢ public
add-make_handler_example =
    NetworkLaws.add-make_handler plain.parse reliable lookups alice dave [] 20 world not_the_room
      refl deny_runs

abbrev to_carol : ConnectArg
to_carol = record { portal = mallory; target = carol }

handle_duplex_iff_example :
    (handle_duplex false mallory evening (some alice) (some (to_carol ∷ []))
      ≡ granted (30, record { arg = to_carol; origin = alice }))
    ↔ ((false ≡ false)
        × (◌≡◌ {A = Option (List ConnectArg)} (some (to_carol ∷ [])) (some (to_carol ∷ [])))
        × (◌≡◌ {A = Option FeedRef} (some alice) (some alice))
        × (text_eq mallory mallory ≡ true)
        × (text_eq alice carol ≡ false)
        × (has carol evening ≡ some 30))
handle_duplex_iff_example =
    TunnelLaws.handle_duplex_iff false mallory evening (some alice) (some (to_carol ∷ [])) 30
      to_carol alice

abbrev reads : Reads
reads = record { of_config = reliable; of_member = reliable; of_list = reliable }

outsider_refused_example :
    ((x : Error)
      → (get_privacy_mode reads.of_config world).0 ≡ err x
      → TunnelLaws.AllRefuse plain.parse reads false all_well dave 40 world evening unknown_mode)
    × ((pm : PrivacyMode)
        → (get_privacy_mode reads.of_config world).0 ≡ ok pm
        → ((pm ≡ mode_community) ⊎ (pm ≡ mode_restricted)
            → (x : Error) → (get_by_feed reads.of_member dave world).0 ≡ err x
            → TunnelLaws.AllRefuse plain.parse reads false all_well dave 40 world evening outsider)
          × (((pm ≢ mode_community) × (pm ≢ mode_restricted))
                ⊎ ((who : Member) × ((get_by_feed reads.of_member dave world).0 ≡ ok who))
              → ((endpoints reads all_well (some dave) 40 world evening).0 ≡ granted tt)
                × (members reads (some dave) world ≡ keys_of (Members.list reads.of_list world).0)))
outsider_refused_example =
    TunnelLaws.outsider_refused plain.parse reads false all_well dave 40 world evening

bob_is_granted : (endpoints reads all_well (some bob) 40 world evening).0 ≡ granted tt
unfolding endpoints answer enumerate_endpoints may_enumerate for_mode is_found members_only
    get_privacy_mode find_config scan_mode check_mode get_by_feed to_member get_aliases select_one
    select_all text_eq
bob_is_granted = refl

nobody_watches : exists (λ (s : Sink (List FeedRef)). at_address 0 s) [] ≡ false
unfolding exists
nobody_watches = refl

endpoints_lem_example :
    let after = (endpoints reads all_well (some bob) 40 world evening).1 in
    (s : Sink (List FeedRef)) × (earlier : List (List FeedRef)) × (select_one
        (at_address 0)
        after.endpoints.sinks
      ≡ some s)
    × (s.received ≡ earlier ++ list after ∷ [])
    × (exists (is_who bob) after.room ≡ true)
endpoints_lem_example =
    WatchingLaws.endpoints_lem reads all_well bob 40 world evening nobody_watches refl
      bob_is_granted

-- Every signature is accepted that is the one character 6.
abbrev library : Library
library = record {
  verify = λ key message signature. text_eq signature (6 ∷ []);
  decode = λ t. some t;
  parse = λ t. some t;
  url_for = λ t. t;
  size = length;
}

abbrev request : Option (List Text)
request = some (codes "al" ∷ ((6 ∷ []) ++ sig_suffix) ∷ [])

registration_runs :
    (Aliases.register library reliable mallory (some alice) request world).0
    ≡ Aliases.granted (codes "al")
unfolding Aliases.register Aliases.register_args Aliases.register_encoded Aliases.register_signed
    Aliases.register_from Aliases.confirm Aliases.stored Aliases.trim_suffix is_valid
    all_alias_chars Aliases.verify_confirmation registration_message AliasesDb.register transact
    conclude on_unique insert_alias select_one exists text_eq
registration_runs = refl

register-resolve_name_example :
    (name : Text) × (key : FeedRef) × (signature : Text) × (◌≡◌ {A = Option FeedRef}
      (some alice)
      (some key))
    × (is_valid library.size name ≡ true)
    × (library.verify key
          (registration_message (record { alias = name; user = key; room = mallory }))
          signature
        ≡ true)
    × (codes "al" ≡ library.url_for name)
    × ((AliasesDb.resolve reliable name
          (Aliases.register library reliable mallory (some alice) request world).1).0
        ≡ ok (record { id = 2; name = name; feed = key; signature = signature }))
register-resolve_name_example =
    HandlerLaws.register-resolve_name library reliable mallory (some alice) request world
      (codes "al") world-IsWellFormed registration_runs

revocation_runs :
    (Aliases.revoke reliable reliable (some bob) (some (codes "bob" ∷ [])) world).0
    ≡ Aliases.granted true
unfolding Aliases.revoke Aliases.revoke_args Aliases.revoke_from Aliases.revoke_found
    Aliases.revoked AliasesDb.resolve AliasesDb.find_one AliasesDb.revoke transact conclude
    delete_alias select_one text_eq
revocation_runs = refl

revoke-resolve_name_example :
    (a : Alias) × ((AliasesDb.resolve reliable (codes "bob") world).0 ≡ ok a)
    × (◌≡◌ {A = Option FeedRef} (some bob) (some a.feed))
    × ((AliasesDb.resolve reliable a.name
          (Aliases.revoke reliable reliable (some bob) (some (codes "bob" ∷ [])) world).1).0
        ≡ err not_found)
revoke-resolve_name_example =
    HandlerLaws.revoke-resolve_name reliable reliable (some bob) (codes "bob") world
      world-IsWellFormed revocation_runs

abbrev restricted : Db
restricted = record world {
  config = some (record {
    privacy_mode = mode_restricted;
    default_language = codes "en";
    use_subdomain = true;
  });
}

abbrev admin : Member
admin = record { id = 1; role = role_admin; pub_key = alice; aliases = [] }

abbrev of_alice_at : ConnTracker
of_alice_at = entry_of 3 alice 1 ∷ []

on_accept_last_lem_example :
    let r = on_accept_last (λ t. t) true 5 alice 2 of_alice_at in
    Distinct (λ (e : ConnEntry). e.peer) r.tracker
    × (r.let_in ≡ true → select_one (is_peer alice) r.tracker ≡ some (entry_of 5 alice 2))
    × (r.let_in ≡ false
        → (exists (is_peer alice) of_alice_at ≡ true)
          × (◌≡◌ {A = Bool} true false)
          × (r.tracker ≡ cancel_entry alice of_alice_at))
    × (exists (is_peer alice) of_alice_at ≡ false → r.closed ≡ [])
    × ((e : ConnEntry) → select_one (is_peer alice) of_alice_at ≡ some e → r.closed ≡ e.conn ∷ [])
on_accept_last_lem_example =
    TrackersLaws.on_accept_last_lem (λ t. t) true 5 alice 2 of_alice_at (λ t d. d) (tt, tt)

two_is_not_one : ◌≢◌ {A = ℕ} 2 1
two_is_not_one h = omega (arith, h)

overlapping_accepts_example :
    let inner = on_accept_last (λ t. t) true 6 alice 2 [] in
    let inside : ConnTracker → ConnTracker =
      λ t. (on_accept_last (λ u. u) true 6 alice 2 t).tracker in
    let outer = on_accept_last inside true 5 alice 1 [] in
    (inner.let_in ≡ true)
    × (inner.closed ≡ [])
    × (outer.let_in ≡ true)
    × (outer.closed ≡ [])
    × (outer ≡ on_accept_last (λ t. t) true 5 alice 1 [])
    × (exists (λ (e : ConnEntry). e.conn == 2) outer.tracker
        ≡ exists (λ (e : ConnEntry). e.conn == 2) [])
unfolding exists
overlapping_accepts_example = TrackersLaws.overlapping_accepts 5 6 alice 1 2 [] refl two_is_not_one
