-- ===== src/Web/Endpoint.antt =====
-- `ServerEndpointDetails` of internal/network/interface.go: where the room and its aliases are found.
use go_ssb_room.Base.{ℕ, Bool, Option, none, some, [], ◌++◌, Text, codes, if◌then◌else◌}
use go_ssb_room.Roomdb.{FeedRef}

-- `listen_port` is the port that `net.ResolveTCPAddr` finds in `ListenAddressMUXRPC`, where it does.
pub record ServerEndpointDetails : Type 0 where
  pub room_id : FeedRef
  pub listen_port : Option ℕ
  pub domain : Text
  pub port_https : ℕ
  pub use_subdomain_for_aliases : Bool
  pub development : Bool

-- The parts of a `url.URL` that are filled in; its `String` escapes them.
pub record Url : Type 0 where
  pub scheme : Text
  pub host : Text
  pub path : Text

-- `URLForAlias`; `itoa` prints a port.
unfoldable pub url_for_alias : (ℕ → Text) → ServerEndpointDetails → Text → Url
url_for_alias itoa sed a =
    if sed.development
    then record {
      scheme = codes "http";
      host = codes "localhost:" ++ itoa sed.port_https;
      path = codes "/alias/" ++ a;
    }
    else if sed.use_subdomain_for_aliases
    then record { scheme = codes "https"; host = a ++ (codes "." ++ sed.domain); path = [] }
    else record { scheme = codes "https"; host = sed.domain; path = codes "/alias/" ++ a }

-- `MultiserverAddress`, which panics where the address does not resolve; `encode` is base64 of the
-- public key.
unfoldable pub multiserver_address :
    (ℕ → Text) → (FeedRef → Text) → ServerEndpointDetails → Option Text
multiserver_address itoa encode sed = elim sed.listen_port [
  | none ↦ none
  | some port ↦ some (
      codes "net:"
      ++ (sed.domain ++ (codes ":" ++ (itoa port ++ (codes "~shs:" ++ encode sed.room_id)))))
]
