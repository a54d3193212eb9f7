-- ===== src/Room/Network.antt =====
-- roomsrv/init_network.go, which decides what a connection may call, and
-- internal/network/conntracker.go, which holds the connections that are open.
pub mod Laws
use go_ssb_room.Base.{
  ℕ, suc, ◌+◌, ◌-◌, Bool, true, false, not, Option, none, some, List, [], ◌∷◌, ◌++◌, ◌==◌, length,
  if◌then◌else◌, Text, text_eq,
}
use go_ssb_room.Roomdb.{FeedRef, PrivacyMode, mode_restricted, Error, Result, ok, err}
use go_ssb_room.Sqlite.Rows.{select_one, delete_all, exists}
use go_ssb_room.Sqlite.Db.{Db, Faults}
use go_ssb_room.Sqlite.Members.{Member, get_by_feed}
use go_ssb_room.Sqlite.Config.{get_privacy_mode}
use go_ssb_room.Sqlite.Denied.{has_feed}
use go_ssb_room.Room.Tunnel.{is_found}

-- What `mkHandler` answers: the handler of the room's own key, that of everybody, or an error.
pub data Admission : Type 0 where
  master public : Admission
  no_address unknown_mode members_only banned : Admission

pub record Lookups : Type 0 where
  pub of_config : Faults
  pub of_member : Faults
  pub of_denied : Faults

unfoldable unless_denied : Bool → Admission
unless_denied true = banned
unless_denied false = public

unfoldable for_remote : Result PrivacyMode → Bool → Bool → Admission
unfolding unless_denied
for_remote (err e) known denied = unknown_mode
for_remote (ok pm) known denied =
    if pm == mode_restricted
    then (if known then unless_denied denied else members_only)
    else unless_denied denied

-- `mkHandler` in `initNetwork`
unfoldable pub make_handler : Lookups → FeedRef → Option FeedRef → Db → Admission
unfolding for_remote is_found
make_handler io self none db = no_address
make_handler io self (some remote) db =
    if text_eq self remote
    then master
    else for_remote (get_privacy_mode io.of_config db).0
        (is_found (get_by_feed io.of_member remote db).0) (has_feed io.of_denied remote db)

-- `connEntry`: the connection, when it started, and whether its context was cancelled.
pub record ConnEntry : Type 0 where
  pub peer : Text
  pub conn : ℕ
  pub started : ℕ
  pub cancelled : Bool

-- `connTracker`, by the public keys that `toActive` reads.
abbrev pub ConnTracker : Type 0
ConnTracker = List ConnEntry

abbrev pub is_peer : Text → ConnEntry → Bool
is_peer peer e = text_eq e.peer peer

unfoldable cancel_all : ConnTracker → ConnTracker
cancel_all [] = []
cancel_all (e ∷ rest) = record e { cancelled = true } ∷ cancel_all rest

-- `CloseAll`, which leaves the removal of the entries to `OnClose`.
unfoldable pub close_all : ConnTracker → ConnTracker
unfolding cancel_all
close_all = cancel_all

-- `Count`
unfoldable pub count_active : ConnTracker → ℕ
count_active active = length active

-- `Active`, with how long the connection has been open.
unfoldable pub active_since : ℕ → Text → ConnTracker → Bool × ℕ
active_since now peer active = elim (select_one (is_peer peer) active) [
  | none ↦ (false, 0)
  | some e ↦ (true, now - e.started)
]

-- `connTracker.OnAccept`
unfoldable pub on_accept : ℕ → Text → ℕ → ConnTracker → Bool × ConnTracker
on_accept now peer conn active = if exists (is_peer peer) active then (false, active) else (
  true,
  active ++ record { peer = peer; conn = conn; started = now; cancelled = false } ∷ [],
)

unfoldable pub close_entry : ℕ → Text → Option ConnEntry → ConnTracker → ℕ × ConnTracker
close_entry now peer none active = (0, active)
close_entry now peer (some e) active = (now - e.started, delete_all (is_peer peer) active)

-- `OnClose`, with how long the connection was open.
unfoldable pub on_close : ℕ → Text → ConnTracker → ℕ × ConnTracker
unfolding close_entry
on_close now peer active = close_entry now peer (select_one (is_peer peer) active) active
