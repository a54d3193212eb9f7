-- ===== src/Room/Tunnel/Laws.antt =====
-- muxrpc/handlers/tunnel/server: what a call that is granted says of its caller, and what watchers
-- are told.
use go_ssb_room.Base.{
  ◌≡◌, ◌≢◌, ◌↔◌, ◌⊎◌, ==_iff, refl, Bool, true, false, Option, none, some, List, [], ◌∷◌, ◌==◌,
  ◌||◌, Text, text_eq, arith, Bool-cases, Option-cases, inl, inr,
}
use go_ssb_room.Roomdb.{
  FeedRef, PrivacyMode, mode_community, mode_restricted, Error, ok, err, Result-cases,
}
use go_ssb_room.Sqlite.Db.{Db}
use go_ssb_room.Sqlite.Members.{Member, get_by_feed}
use go_ssb_room.Sqlite.Members as Members
use go_ssb_room.Sqlite.Config.{get_privacy_mode}
use go_ssb_room.Room.State.{Endpoint, Manager, Broken, has}
use go_ssb_room.Room.Tunnel.{
  Refusal, unknown_mode, outsider, keys_of, granted, refused, Reads, is_found, members_only,
  for_mode, may_enumerate, answer, endpoints, attendants, members, enumerate_members, ConnectArg,
  open_duplex, connect_from, connect_one, handle_duplex,
}

-- A connection is opened to an endpoint, with some arguments and an origin, exactly where the call
-- has these arguments alone, they name this room, the origin is the key of the caller and not the
-- target, and the endpoint is that of the target, which answers.
pub handle_duplex_iff :
    (fails : Bool) (self : FeedRef) (m : Manager) (from : Option FeedRef)
    (args : Option (List ConnectArg)) (edp : Endpoint) (arg : ConnectArg) (caller : FeedRef)
    → (handle_duplex fails self m from args ≡ granted (edp, record { arg = arg; origin = caller }))
      ↔ ((fails ≡ false)
          × (args ≡ some (arg ∷ []))
          × (from ≡ some caller)
          × (text_eq arg.portal self ≡ true)
          × (text_eq caller arg.target ≡ false)
          × (has arg.target m ≡ some edp))
unfolding handle_duplex connect_one connect_from open_duplex
handle_duplex_iff fails self m from none edp out k =
    (λ h. absurd (ground arith), λ h. absurd (ground arith))
handle_duplex_iff fails self m from (some []) edp out k =
    (λ h. absurd (ground arith), λ h. absurd (ground arith))
handle_duplex_iff fails self m from (some (a ∷ b ∷ args)) edp out k =
    (λ h. absurd (ground arith), λ h. absurd (ground arith))
handle_duplex_iff fails self m none (some (arg ∷ [])) edp out k =
    (λ h. absurd (ground arith), λ h. absurd (ground arith))
handle_duplex_iff true self m (some caller) (some (arg ∷ [])) edp out k =
    elim (Option-cases (has arg.target m)) [
      | inl e ↦ (λ h. absurd (ground arith), λ h. absurd (ground arith))
      | inr (x, e) ↦ (λ h. absurd (ground arith), λ h. absurd (ground arith))
    ]
handle_duplex_iff false self m (some caller) (some (arg ∷ [])) edp out k =
    elim (Option-cases (has arg.target m)) [
      | inl e ↦ (λ h. absurd (ground arith), λ h. absurd (ground arith))
      | inr (x, e) ↦ (
        λ h.
            let same : arg ≡ out = ground arith in
            (refl, ground arith, ground arith, ground arith, ground arith, ground arith),
        λ h. ground arith,
      )
    ]

-- The guard passes exactly where the privacy mode can be read, and GetByFeed finds the caller if
-- the mode is community or restricted.
may_enumerate_iff :
    (io : Reads) (peer : FeedRef) (db : Db)
    → (may_enumerate io peer db ≡ none) ↔ (
        (pm : PrivacyMode) × ((get_privacy_mode io.of_config db).0 ≡ ok pm)
        × (((pm == mode_community) || (pm == mode_restricted)) ≡ true
            → is_found (get_by_feed io.of_member peer db).0 ≡ true))
unfolding may_enumerate for_mode members_only
may_enumerate_iff io peer db = elim (Result-cases (get_privacy_mode io.of_config db).0) [
  | inr (x, e) ↦ (λ h. absurd (ground arith), λ h. absurd (ground arith))
  | inl (pm, e) ↦ elim (Bool-cases (is_found (get_by_feed io.of_member peer db).0)) [
    | inl f ↦ (λ h. (pm, e, λ k. f), λ h. ground arith)
    | inr f ↦ (λ h. (pm, e, ground arith), λ h. ground arith)
  ]
]

-- All three calls that enumerate answer with this error, and the room state stays as it was.
abbrev pub AllRefuse :
    (Text → Option FeedRef)
    → Reads
    → Bool
    → Broken
    → FeedRef
    → Endpoint
    → Db
    → Manager
    → Refusal
    → Type 0
AllRefuse parse io fails broken peer edp db m e =
    (endpoints io broken (some peer) edp db m ≡ (refused e, m))
    × (attendants parse io fails broken (some peer) edp db m ≡ (refused e, m))
    × (members io (some peer) db ≡ refused e)

guard_refuses :
    (parse : Text → Option FeedRef) (io : Reads) (fails : Bool) (broken : Broken) (peer : FeedRef)
    (edp : Endpoint) (db : Db) (m : Manager) (e : Refusal)
    → may_enumerate io peer db ≡ some e
    → AllRefuse parse io fails broken peer edp db m e
unfolding endpoints attendants members answer enumerate_members
guard_refuses parse io fails broken peer edp db m e h = (rw h, rw h, rw h)

guard_passes :
    (io : Reads) (broken : Broken) (peer : FeedRef) (edp : Endpoint) (db : Db) (m : Manager)
    → may_enumerate io peer db ≡ none
    → ((endpoints io broken (some peer) edp db m).0 ≡ granted tt)
      × (members io (some peer) db ≡ keys_of (Members.list io.of_list db).0)
unfolding endpoints members answer enumerate_members
guard_passes io broken peer edp db m h = (rw h refl, rw h refl)

-- Where the privacy mode cannot be read, endpoints, attendants and members all refuse for this
-- reason; in a community and in a restricted room they refuse everybody whom GetByFeed does not find
-- as a member, for any reason; and the room state stays as it was. In every other case the guard
-- lets the caller through: endpoints is granted, and members answers with the list of the members.
pub outsider_refused :
    (parse : Text → Option FeedRef) (io : Reads) (fails : Bool) (broken : Broken) (peer : FeedRef)
    (edp : Endpoint) (db : Db) (m : Manager)
    → ((x : Error)
        → (get_privacy_mode io.of_config db).0 ≡ err x
        → AllRefuse parse io fails broken peer edp db m unknown_mode)
      × ((pm : PrivacyMode)
          → (get_privacy_mode io.of_config db).0 ≡ ok pm
          → ((pm ≡ mode_community) ⊎ (pm ≡ mode_restricted)
              → (x : Error) → (get_by_feed io.of_member peer db).0 ≡ err x
              → AllRefuse parse io fails broken peer edp db m outsider)
            × (((pm ≢ mode_community) × (pm ≢ mode_restricted))
                  ⊎ ((who : Member) × ((get_by_feed io.of_member peer db).0 ≡ ok who))
                → ((endpoints io broken (some peer) edp db m).0 ≡ granted tt)
                  × (members io (some peer) db ≡ keys_of (Members.list io.of_list db).0)))
unfolding may_enumerate for_mode members_only is_found
outsider_refused parse io fails broken peer edp db m = (
  λ x h. guard_refuses parse io fails broken peer edp db m unknown_mode (ground arith),
  λ pm h. (
    λ closed x missing. guard_refuses parse io fails broken peer edp db m outsider (elim closed [
      | inl e ↦ ground (arith, ==_iff pm mode_community)
      | inr e ↦ ground (arith, ==_iff pm mode_restricted)
    ]),
    λ free. guard_passes io broken peer edp db m (elim free [
      | inl (c, r) ↦ ground (arith, ==_iff pm mode_community, ==_iff pm mode_restricted)
      | inr (who, found) ↦ ground arith
    ]),
  ),
)
