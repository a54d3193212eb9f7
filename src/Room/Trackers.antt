-- ===== src/Room/Trackers.antt =====
-- The other two trackers of internal/network: the one by which the last connection of a peer wins
-- (conntracker.go) and the one that accepts all (conntracker_acceptAll.go).
pub mod Laws
use go_ssb_room.Base.{
  ℕ, Bool, true, false, Option, none, some, List, [], ◌∷◌, ◌++◌, length, if◌then◌else◌, Text,
  text_eq,
}
use go_ssb_room.Sqlite.Rows.{delete_all, update_all, exists, select_one}
use go_ssb_room.Room.Network.{ConnEntry, ConnTracker, is_peer}

abbrev pub entry_of : ℕ → Text → ℕ → ConnEntry
entry_of now peer conn = record { peer = peer; conn = conn; started = now; cancelled = false }

-- `ct.active[k] = connEntry{...}`
unfoldable pub assign_entry : ℕ → Text → ℕ → ConnTracker → ConnTracker
assign_entry now peer conn active = delete_all (is_peer peer) active ++ entry_of now peer conn ∷ []

-- `oldConn.cancel()`
unfoldable pub cancel_entry : Text → ConnTracker → ConnTracker
cancel_entry peer active = update_all (is_peer peer) (λ e. record e { cancelled = true }) active

-- What OnAccept did: whether the connection is accepted, the connections that it closed and whose
-- contexts it cancelled, and the tracker afterwards.
pub record Accepted : Type 0 where
  pub let_in : Bool
  pub closed : List ℕ
  pub tracker : ConnTracker

-- `oldConn, ok := ct.active[k]`, and the connection that is closed if there is one.
unfoldable pub old_conns : Option ConnEntry → List ℕ
old_conns none = []
old_conns (some e) = e.conn ∷ []

-- `trackerLastWins.OnAccept`. It locks twice: `meanwhile` is what other calls do to the tracker in
-- between, and `finished` says whether the old connection was done before the ten seconds were over.
unfoldable pub on_accept_last :
    (ConnTracker → ConnTracker) → Bool → ℕ → Text → ℕ → ConnTracker → Accepted
unfolding assign_entry cancel_entry old_conns
on_accept_last meanwhile finished now peer conn active =
    let old = old_conns (select_one (is_peer peer) active) in
    let waited = meanwhile (cancel_entry peer active) in
    let alone = meanwhile active in
    if exists (is_peer peer) active
    then if finished
      then record { let_in = true; closed = old; tracker = assign_entry now peer conn waited }
      else record { let_in = false; closed = old; tracker = waited }
    else record { let_in = true; closed = old; tracker = assign_entry now peer conn alone }

-- A connection by what `RemoteAddr().String()` gives for it.
pub record Conn : Type 0 where
  pub conn : ℕ
  pub remote : Text

-- `acceptAllTracker`
abbrev pub AcceptAll : Type 0
AcceptAll = List Conn

-- `sameByRemote`
abbrev pub same_by_remote : Text → Conn → Bool
same_by_remote addr c = text_eq c.remote addr

-- `acceptAllTracker.OnAccept`
unfoldable pub on_accept_all : Conn → AcceptAll → Bool × AcceptAll
on_accept_all c conns = (true, conns ++ c ∷ [])

-- `acceptAllTracker.Count`
unfoldable pub count_all : AcceptAll → ℕ
count_all conns = length conns

-- `acceptAllTracker.CloseAll`, with the connections that it closes.
unfoldable pub close_all_accepted : AcceptAll → AcceptAll × AcceptAll
close_all_accepted conns = (conns, [])

-- `acceptAllTracker.Active`
unfoldable pub active_all : Text → AcceptAll → Bool
active_all addr conns = exists (same_by_remote addr) conns

-- `ct.conns[i] = ct.conns[len(ct.conns)-1]`, and the list without its last entry, from `i` on.
unfoldable pub last_of : Conn → AcceptAll → Conn
last_of c [] = c
last_of c (d ∷ rest) = last_of d rest

unfoldable pub all_but_last : Conn → AcceptAll → AcceptAll
all_but_last c [] = []
all_but_last c (d ∷ rest) = c ∷ all_but_last d rest

unfoldable pub replace_by_last : AcceptAll → AcceptAll
unfolding last_of all_but_last
replace_by_last [] = []
replace_by_last (c ∷ rest) = last_of c rest ∷ all_but_last c rest

-- `acceptAllTracker.OnClose`, which returns 1 where it has found the connection.
unfoldable pub on_close_all : Text → AcceptAll → ℕ × AcceptAll
unfolding replace_by_last
on_close_all addr [] = (0, [])
on_close_all addr (c ∷ rest) =
    let later = on_close_all addr rest in
    if same_by_remote addr c then (1, replace_by_last rest) else (later.0, c ∷ later.1)
