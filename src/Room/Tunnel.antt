-- ===== src/Room/Tunnel.antt =====
-- muxrpc/handlers/tunnel/server: the calls by which peers enter and leave the room, see who is
-- there, and connect to each other. A handler runs on the database and the room state. The peer is
-- what `network.GetFeedRefFromAddr` makes of the connection's address, `none` where it fails.
pub mod Laws
pub mod Watching
use go_ssb_room.Base.{
  ℕ, ◌+◌, Bool, true, false, not, Option, none, some, List, [], ◌∷◌, ◌++◌, map, ◌==◌, ◌||◌, length,
  if◌then◌else◌, Text, text_eq, codes,
}
use go_ssb_room.Roomdb.{
  FeedRef, PrivacyMode, mode_open, mode_community, mode_restricted, Error, not_found, Result, ok,
  err,
}
use go_ssb_room.Sqlite.Db.{Db, Faults}
use go_ssb_room.Sqlite.Members.{Member, get_by_feed}
use go_ssb_room.Sqlite.Members
use go_ssb_room.Sqlite.Config.{get_privacy_mode}
use go_ssb_room.Room.Broadcasts.{Attendance, deliver, register}
use go_ssb_room.Room.State.{
  Endpoint, Manager, Broken, list, list_as_refs, has, add_endpoint, remove, already_added,
  register_attendants_updates,
}

-- Why a call is refused.
pub data Refusal : Type 0 where
  bad_address unknown_mode outsider write_failed : Refusal
  bad_arguments wrong_room to_self : Refusal
  argument_count : ℕ → Refusal
  unreachable : FeedRef → Refusal
  storage : Error → Refusal

pub data Reply (A : Type 0) : Type 0 where
  granted : A → Reply A
  refused : Refusal → Reply A

-- The engine's refusals in the two reads that a handler makes.
pub record Reads : Type 0 where
  pub of_config : Faults
  pub of_member : Faults
  pub of_list : Faults

-- Whether the caller counts as a member; an error of any kind counts as no.
unfoldable pub is_found : Result Member → Bool
is_found (ok m) = true
is_found (err e) = false

unfoldable pub members_only : Bool → Option Refusal
members_only true = none
members_only false = some outsider

unfoldable pub for_mode : Result PrivacyMode → Bool → Option Refusal
unfolding members_only
for_mode (err e) known = some unknown_mode
for_mode (ok pm) known =
    if (pm == mode_community) || (pm == mode_restricted) then members_only known else none

-- The guard of `endpoints`, `attendants` and `members`: only members may enumerate, unless the room
-- is open.
unfoldable pub may_enumerate : Reads → FeedRef → Db → Option Refusal
unfolding for_mode is_found
may_enumerate io peer db =
    for_mode (get_privacy_mode io.of_config db).0 (is_found (get_by_feed io.of_member peer db).0)

-- `announce`
unfoldable pub announce : Broken → Option FeedRef → Endpoint → Manager → Reply Bool × Manager
announce broken none edp m = (refused bad_address, m)
announce broken (some peer) edp m = (granted true, add_endpoint broken peer edp m)

-- `leave`
unfoldable pub leave : Broken → Option FeedRef → Manager → Reply Bool × Manager
leave broken none m = (refused bad_address, m)
leave broken (some peer) m = (granted true, remove broken peer m)

-- The rest of `endpoints`: register the stream, add the peer, and write the list to the stream,
-- whose own failure is ignored.
unfoldable pub enumerate_endpoints : Broken → FeedRef → Endpoint → Manager → Manager
enumerate_endpoints broken peer edp m =
    let (address, watched) = register [] m.endpoints in
    let after = (already_added broken peer edp (record m { endpoints = watched })).1 in
    record after { endpoints = deliver broken.endpoint_sinks address (list after) after.endpoints }

unfoldable pub answer :
    {A : Type 0} → Option Refusal → (Manager → Reply A × Manager) → Manager → Reply A × Manager
answer none k m = k m
answer (some e) k m = (refused e, m)

-- `endpoints`
unfoldable pub endpoints :
    Reads → Broken → Option FeedRef → Endpoint → Db → Manager → Reply (Unit {0}) × Manager
unfolding answer may_enumerate enumerate_endpoints
endpoints io broken none edp db m = (refused bad_address, m)
endpoints io broken (some peer) edp db m =
    answer (may_enumerate io peer db) (λ n. (granted tt, enumerate_endpoints broken peer edp n)) m

-- The rest of `attendants`: add the peer, send the state, and then register. A key in the room that
-- does not parse makes the source panic, and the model refuse the call by `write_failed`.
unfoldable send_state : Bool → Option (List FeedRef) → Manager → Reply (List FeedRef) × Manager
send_state fails none m = (refused write_failed, m)
send_state true (some ids) m = (refused write_failed, m)
send_state false (some ids) m = (granted ids, register_attendants_updates [] m)

unfoldable enumerate_attendants :
    (Text → Option FeedRef)
    → Bool
    → Broken
    → FeedRef
    → Endpoint
    → Manager
    → Reply (List FeedRef) × Manager
unfolding send_state
enumerate_attendants parse fails broken peer edp m =
    let after = add_endpoint broken peer edp m in send_state fails (list_as_refs parse after) after

-- `attendants`, with the ids of the state that it sent; `fails` says whether that write failed.
unfoldable pub attendants :
    (Text → Option FeedRef)
    → Reads
    → Bool
    → Broken
    → Option FeedRef
    → Endpoint
    → Db
    → Manager
    → Reply (List FeedRef) × Manager
unfolding answer may_enumerate enumerate_attendants
attendants parse io fails broken none edp db m = (refused bad_address, m)
attendants parse io fails broken (some peer) edp db m =
    answer (may_enumerate io peer db) (enumerate_attendants parse fails broken peer edp) m

unfoldable pub keys_of : Result (List Member) → Reply (List FeedRef)
keys_of (ok all) = granted (map (λ (m : Member). m.pub_key) all)
keys_of (err e) = refused (storage e)

unfoldable enumerate_members : Option Refusal → Reply (List FeedRef) → Reply (List FeedRef)
enumerate_members none r = r
enumerate_members (some e) r = refused e

-- `members`, with the keys that it writes; a write that fails ends it earlier.
unfoldable pub members : Reads → Option FeedRef → Db → Reply (List FeedRef)
unfolding keys_of enumerate_members may_enumerate
members io none db = refused bad_address
members io (some peer) db =
    enumerate_members (may_enumerate io peer db) (keys_of (Members.list io.of_list db).0)

-- `MetadataReply`
pub record MetadataReply : Type 0 where
  pub name : Text
  pub membership : Bool
  pub features : List Text

unfoldable pub features_of : PrivacyMode → List Text
features_of pm =
    (codes "tunnel" ∷ codes "httpAuth" ∷ codes "httpInvite" ∷ [])
    ++ (if pm == mode_open then codes "room1" ∷ [] else [])
    ++ (if (pm == mode_open) || (pm == mode_community) then codes "alias" ∷ [] else [])

unfoldable pub reply_for : Text → PrivacyMode → Result Member → Reply MetadataReply
unfolding features_of
reply_for domain pm (ok m) =
    granted (record { name = domain; membership = true; features = features_of pm })
reply_for domain pm (err not_found) =
    granted (record { name = domain; membership = false; features = features_of pm })
reply_for domain pm (err e) = refused (storage e)

unfoldable with_mode :
    Result PrivacyMode → (PrivacyMode → Reply MetadataReply) → Reply MetadataReply
with_mode (ok pm) k = k pm
with_mode (err e) k = refused (storage e)

-- `metadata`
unfoldable pub metadata : Text → Reads → Option FeedRef → Db → Reply MetadataReply
unfolding reply_for with_mode
metadata domain io none db = refused bad_address
metadata domain io (some peer) db =
    with_mode (get_privacy_mode io.of_config db).0
      (λ pm. reply_for domain pm (get_by_feed io.of_member peer db).0)

-- `ConnectArg`, and `connectWithOriginArg` with who calls.
pub record ConnectArg : Type 0 where
  pub portal : FeedRef
  pub target : FeedRef

pub record ConnectWithOrigin : Type 0 where
  pub arg : ConnectArg
  pub origin : FeedRef

-- The call that goes out to the target, if it opens.
unfoldable pub open_duplex :
    Bool → FeedRef → ConnectArg → Option Endpoint → Reply (Endpoint × ConnectWithOrigin)
open_duplex fails caller arg none = refused (unreachable arg.target)
open_duplex true caller arg (some edp) = refused (unreachable arg.target)
open_duplex false caller arg (some edp) = granted (edp, record { arg = arg; origin = caller })

unfoldable pub connect_from :
    Bool → ConnectArg → Manager → Option FeedRef → Reply (Endpoint × ConnectWithOrigin)
unfolding open_duplex
connect_from fails arg m none = refused bad_address
connect_from fails arg m (some caller) =
    if text_eq caller arg.target
    then refused to_self
    else open_duplex fails caller arg (has arg.target m)

unfoldable pub connect_one :
    Bool
    → FeedRef
    → Manager
    → Option FeedRef
    → List ConnectArg
    → Reply (Endpoint × ConnectWithOrigin)
unfolding connect_from
connect_one fails self m caller (arg ∷ []) =
    if text_eq arg.portal self then connect_from fails arg m caller else refused wrong_room
connect_one fails self m caller args = refused (argument_count (length args))

-- `HandleDuplex`: the arguments are what `json.Unmarshal` makes of them, and `fails` says whether the
-- call to the target fails to open. The two copying goroutines that follow are not modelled.
unfoldable pub handle_duplex :
    Bool
    → FeedRef
    → Manager
    → Option FeedRef
    → Option (List ConnectArg)
    → Reply (Endpoint × ConnectWithOrigin)
unfolding connect_one
handle_duplex fails self m caller none = refused bad_arguments
handle_duplex fails self m caller (some args) = connect_one fails self m caller args

-- `HandleConnect`, once the session has ended.
unfoldable pub handle_connect : Broken → Option FeedRef → Manager → Manager
handle_connect broken none m = m
handle_connect broken (some peer) m = remove broken peer m
