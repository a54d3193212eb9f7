-- ===== src/Room/Trackers/Laws.antt =====
-- internal/network/conntracker.go and conntracker_acceptAll.go: who is tracked after a connection
-- came or went.
use go_ssb_room.Base.{
  ℕ, ◌+◌, ◌≡◌, ◌≢◌, refl, Bool, true, false, not, some, List, [], ◌∷◌, ◌++◌, length, Text,
  text_eq_iff, text_eq_refl, ◌==◌, ==_iff, if◌then◌else◌, arith, Bool-cases, inl, inr,
}
use go_ssb_room.Sqlite.Rows.{
  Distinct, Distinct-append, Distinct-select, Distinct-update, select_one, select_one-none,
  exists-append, exists_singleton, select_one-append, select_all, delete_all, exists,
  exists-delete_self, All-of_exists,
}
use go_ssb_room.Room.Network.{ConnEntry, ConnTracker, is_peer}
use go_ssb_room.Room.Trackers.{
  entry_of, assign_entry, cancel_entry, old_conns, on_accept_last, Conn, AcceptAll, same_by_remote,
  last_of, all_but_last, replace_by_last, on_close_all,
}

-- The entry that was assigned is the one of its peer.
assign_entry-found :
    (now : ℕ) (peer : Text) (conn : ℕ) (active : ConnTracker)
    → select_one (is_peer peer) (assign_entry now peer conn active) ≡ some (entry_of now peer conn)
unfolding assign_entry
assign_entry-found now peer conn active =
    select_one-append (is_peer peer) (delete_all (is_peer peer) active) (entry_of now peer conn)
      (exists-delete_self (is_peer peer) active) (text_eq_refl peer)

assign_entry-Distinct :
    (now : ℕ) (peer : Text) (conn : ℕ) (active : ConnTracker)
    → Distinct (λ (e : ConnEntry). e.peer) active
    → Distinct (λ (e : ConnEntry). e.peer) (assign_entry now peer conn active)
unfolding assign_entry delete_all
assign_entry-Distinct now peer conn active d =
    Distinct-append (λ (c : ConnEntry). c.peer) (delete_all (is_peer peer) active)
      (entry_of now peer conn)
      (Distinct-select (λ (x : ConnEntry). x.peer) (λ r. not (is_peer peer r)) active d)
      (All-of_exists (λ (c : ConnEntry). c.peer ≢ peer) (is_peer peer)
        (delete_all (is_peer peer) active) (λ c miss same. ground (arith, text_eq_iff c.peer peer))
        (exists-delete_self (is_peer peer) active))

cancel_entry-Distinct :
    (peer : Text) (active : ConnTracker)
    → Distinct (λ (e : ConnEntry). e.peer) active
    → Distinct (λ (e : ConnEntry). e.peer) (cancel_entry peer active)
unfolding cancel_entry
cancel_entry-Distinct peer active d =
    Distinct-update (λ (e : ConnEntry). e.peer) (is_peer peer) (λ e. record e { cancelled = true })
      active (λ r. refl) d

closed_none :
    (peer : Text) (active : ConnTracker)
    → exists (is_peer peer) active ≡ false
    → old_conns (select_one (is_peer peer) active) ≡ []
unfolding old_conns
closed_none peer active h = rw (select_one-none (is_peer peer) active h) refl

closed_one :
    (peer : Text) (active : ConnTracker) (e : ConnEntry)
    → select_one (is_peer peer) active ≡ some e
    → old_conns (select_one (is_peer peer) active) ≡ e.conn ∷ []
unfolding old_conns
closed_one peer active e h = rw h refl

-- Where the last connection wins, a connection that is accepted is the one its peer is tracked by,
-- and the only one, provided that the other calls in between kept one for each peer. One is refused
-- only where the peer had another connection, which was cancelled and did not finish in time. The
-- connection that was tracked for the peer before is closed, and no other.
pub on_accept_last_lem :
    (meanwhile : ConnTracker → ConnTracker) (finished : Bool) (now : ℕ) (peer : Text) (conn : ℕ)
    (active : ConnTracker)
    → ((t : ConnTracker)
        → Distinct (λ (e : ConnEntry). e.peer) t
        → Distinct (λ (e : ConnEntry). e.peer) (meanwhile t))
    → Distinct (λ (e : ConnEntry). e.peer) active
    → let r = on_accept_last meanwhile finished now peer conn active in
      Distinct (λ (e : ConnEntry). e.peer) r.tracker
      × (r.let_in ≡ true → select_one (is_peer peer) r.tracker ≡ some (entry_of now peer conn))
      × (r.let_in ≡ false
          → (exists (is_peer peer) active ≡ true)
            × (finished ≡ false)
            × (r.tracker ≡ meanwhile (cancel_entry peer active)))
      × (exists (is_peer peer) active ≡ false → r.closed ≡ [])
      × ((e : ConnEntry) → select_one (is_peer peer) active ≡ some e → r.closed ≡ e.conn ∷ [])
unfolding on_accept_last
on_accept_last_lem meanwhile finished now peer conn active keeps d =
    let key : ConnEntry → Text = λ e. e.peer in
    let cancelled : Distinct key (cancel_entry peer active) = cancel_entry-Distinct peer active d in
    elim (Bool-cases (exists (is_peer peer) active)) [
      | inr e ↦ rw e (
        assign_entry-Distinct now peer conn (meanwhile active) (keeps active d),
        λ one. assign_entry-found now peer conn (meanwhile active),
        λ zero. absurd (ground arith),
        λ new. closed_none peer active e,
        λ old chosen. closed_one peer active old chosen,
      )
      | inl e ↦ elim (Bool-cases finished) [
        | inl f ↦
            rw (e, f)
              (
                assign_entry-Distinct now peer conn (meanwhile (cancel_entry peer active))
                    (keeps (cancel_entry peer active) cancelled),
                λ one. assign_entry-found now peer conn (meanwhile (cancel_entry peer active)),
                λ zero. absurd (ground arith),
                λ new. absurd (ground arith),
                λ old chosen. closed_one peer active old chosen,
              )
        | inr f ↦
            rw (e, f)
              (
                keeps (cancel_entry peer active) cancelled,
                λ one. absurd (ground arith),
                λ zero. (refl, refl, refl),
                λ new. absurd (ground arith),
                λ old chosen. closed_one peer active old chosen,
              )
      ]
    ]

delete_all-again :
    {A : Type 0} (p : A → Bool) (rows : List A) (r : A)
    → p r ≡ true
    → delete_all p (delete_all p rows ++ r ∷ []) ≡ delete_all p rows
unfolding delete_all select_all
delete_all-again p [] r h = ground arith
delete_all-again p (x ∷ rows) r h = ground (arith, delete_all-again p rows r h)

-- The entry that is assigned last is the only one to have been.
assign_entry-again :
    (now later : ℕ) (peer : Text) (first second : ℕ) (active : ConnTracker)
    → assign_entry now peer first (assign_entry later peer second active)
      ≡ assign_entry now peer first active
unfolding assign_entry
assign_entry-again now later peer first second active =
    rw (delete_all-again (is_peer peer) active (entry_of later peer second) (text_eq_refl peer))
      refl

delete_all-none :
    {A : Type 0} (p : A → Bool) (rows : List A) → exists p rows ≡ false → delete_all p rows ≡ rows
unfolding delete_all select_all exists
delete_all-none p [] h = refl
delete_all-none p (x ∷ rows) h = ground (arith, delete_all-none p rows)

assign_entry-tracks :
    (now : ℕ) (peer : Text) (conn other : ℕ) (active : ConnTracker)
    → exists (is_peer peer) active ≡ false
    → other ≢ conn
    → exists (λ (e : ConnEntry). e.conn == other) (assign_entry now peer conn active)
      ≡ exists (λ (e : ConnEntry). e.conn == other) active
unfolding assign_entry
assign_entry-tracks now peer conn other active none_before apart =
    rw (delete_all-none (is_peer peer) active none_before) (
      ground (
        arith,
        exists-append (λ (e : ConnEntry). e.conn == other) active (entry_of now peer conn ∷ []),
        exists_singleton (λ (e : ConnEntry). e.conn == other) (entry_of now peer conn),
        ==_iff conn other,
      ))

-- Two connections of a peer that is not tracked, the second accepted while OnAccept of the first is
-- between its two locks. Both are let in, neither call closes or cancels any connection, and the
-- tracker ends as if the second had never come, so that it has an entry with the number of the
-- second, which is not the first's, only if it had one before.
pub overlapping_accepts :
    (now later : ℕ) (peer : Text) (first second : ℕ) (active : ConnTracker)
    → exists (is_peer peer) active ≡ false
    → second ≢ first
    → let inner = on_accept_last (λ t. t) true later peer second active in
      let inside : ConnTracker → ConnTracker =
        λ t. (on_accept_last (λ u. u) true later peer second t).tracker in
      let outer = on_accept_last inside true now peer first active in
      (inner.let_in ≡ true)
      × (inner.closed ≡ [])
      × (outer.let_in ≡ true)
      × (outer.closed ≡ [])
      × (outer ≡ on_accept_last (λ t. t) true now peer first active)
      × (exists (λ (e : ConnEntry). e.conn == second) outer.tracker
          ≡ exists (λ (e : ConnEntry). e.conn == second) active)
unfolding on_accept_last
overlapping_accepts now later peer first second active h apart =
    let none_closed = closed_none peer active h in
    let again = assign_entry-again now later peer first second active in
    (
      rw h refl,
      rw h none_closed,
      rw h refl,
      rw h none_closed,
      rw (h, again) refl,
      rw (h, again) (assign_entry-tracks now peer first second active h apart),
    )

-- How many connections there are of one kind.
abbrev of_kind : (Conn → Bool) → AcceptAll → ℕ
of_kind q conns = length (select_all q conns)

abbrev one_if : Bool → ℕ
one_if b = if b then 1 else 0

all_but_last-of_kind :
    (q : Conn → Bool) (c : Conn) (rest : AcceptAll)
    → of_kind q (c ∷ rest) ≡ of_kind q (last_of c rest ∷ all_but_last c rest)
unfolding last_of all_but_last select_all
all_but_last-of_kind q c [] = refl
all_but_last-of_kind q c (d ∷ rest) = ground (arith, all_but_last-of_kind q d rest)

replace_by_last-of_kind :
    (q : Conn → Bool) (conns : AcceptAll) → of_kind q (replace_by_last conns) ≡ of_kind q conns
unfolding replace_by_last select_all
replace_by_last-of_kind q [] = refl
replace_by_last-of_kind q (c ∷ rest) = ground (arith, all_but_last-of_kind q c rest)

-- Where all connections are accepted, OnClose drops the first one with the address, if there is any,
-- and keeps as many of every other kind, although it changes their order.
on_close_all_lem :
    (addr : Text) (conns : AcceptAll)
    → (exists (same_by_remote addr) conns ≡ false → on_close_all addr conns ≡ (0, conns))
      × ((c : Conn)
          → select_one (same_by_remote addr) conns ≡ some c
          → ((on_close_all addr conns).0 ≡ 1)
            × ((q : Conn → Bool)
                → of_kind q conns ≡ of_kind q (on_close_all addr conns).1 + one_if (q c)))
unfolding on_close_all exists select_one select_all
on_close_all_lem addr [] = (λ h. refl, λ c h. absurd (ground arith))
on_close_all_lem addr (d ∷ rest) = elim (Bool-cases (same_by_remote addr d)) [
  | inl e ↦ (
    λ h. absurd (ground arith),
    λ c h. (ground arith, λ q. ground (arith, replace_by_last-of_kind q rest)),
  )
  | inr e ↦
      let (gone, found) = on_close_all_lem addr rest in
      (
        λ h. ground (arith, gone (ground arith)),
        λ c h.
            let (one, kinds) = found c (ground arith) in
            (ground arith, λ q. ground (arith, kinds q)),
      )
]
