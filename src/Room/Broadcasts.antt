-- ===== src/Room/Broadcasts.antt =====
-- internal/broadcasts: the sinks that are told of every update, as `EndpointsBroadcast` and
-- `AttendantsBroadcast` keep them. A sink is a stream to a peer; it has an address, so that two
-- registrations never share one, and remembers what was written to it. The sinks of a Go map are
-- visited in some order, which the order of the list stands for. `broken` says which writes fail:
-- that is the stream's, so it is a parameter.
pub mod Laws
use go_ssb_room.Base.{
  ℕ, suc, ◌+◌, Bool, true, false, not, Option, none, some, List, [], ◌∷◌, ◌++◌, map, ◌==◌, ◌&&◌,
  if◌then◌else◌, Text,
}
use go_ssb_room.Sqlite.Rows.{select_all, delete_all, update_all}

-- What is written to a sink: `M` is `[]string` for endpoints, and a joined or left for attendants.
pub record Sink (M : Type 0) : Type 0 where
  pub address : ℕ
  pub received : List M

pub record Broadcast (M : Type 0) : Type 0 where
  pub sinks : List (Sink M)
  pub next_address : ℕ

-- The `joined` and `left` calls of `AttendantsEmitter`.
pub data Attendance : Type 0 where
  joined left : Text → Attendance

module _ {M : Type 0} where
  -- `NewEndpointsEmitter` and `NewAttendantsEmitter`
  abbrev pub new_broadcast : Broadcast M
  new_broadcast = record { sinks = []; next_address = 0 }

  -- `Register`: the address of the new sink is what its closing function knows it by.
  unfoldable pub register : List M → Broadcast M → ℕ × Broadcast M
  register sent b = (
    b.next_address,
    record {
      sinks = b.sinks ++ record { address = b.next_address; received = sent } ∷ [];
      next_address = b.next_address + 1;
    },
  )

  -- The function that `Register` returns, without the closing of the stream.
  unfoldable pub unregister : ℕ → Broadcast M → Broadcast M
  unregister address b = record b {
    sinks = delete_all (λ (s : Sink M). s.address == address) b.sinks;
  }

  abbrev pub write : M → Sink M → Sink M
  write m s = record s { received = s.received ++ m ∷ [] }

  unfoldable pub send : (ℕ → Bool) → M → List (Sink M) → List (Sink M)
  send broken m [] = []
  send broken m (s ∷ rest) =
      let sent = send broken m rest in if broken s.address then sent else write m s ∷ sent

  -- `Update`, `Joined` and `Left`: a sink that fails is dropped, and the others get the message.
  unfoldable pub emit : (ℕ → Bool) → M → Broadcast M → Broadcast M
  unfolding send
  emit broken m b = record b { sinks = send broken m b.sinks }

  -- A write to one stream by who opened it, whose failure they ignore.
  unfoldable pub deliver : (ℕ → Bool) → ℕ → M → Broadcast M → Broadcast M
  unfolding update_all
  deliver broken address m b = record b {
    sinks =
        update_all (λ (s : Sink M). (s.address == address) && not (broken address)) (write m)
          b.sinks;
  }

  -- `endpointsSink.Close`: the addresses whose stream failed to close, which make up the error.
  unfoldable pub close_errors : (ℕ → Bool) → Broadcast M → List ℕ
  unfolding select_all
  close_errors broken b = select_all broken (map (λ (s : Sink M). s.address) b.sinks)

-- `attendantsSink.Close` locks its mutex, and locks it again before it is unlocked.
pub data LockStep : Type 0 where
  lock unlock : LockStep

abbrev pub attendants_close : List LockStep
attendants_close = lock ∷ lock ∷ unlock ∷ unlock ∷ []

abbrev pub endpoints_close : List LockStep
endpoints_close = lock ∷ unlock ∷ []

-- A `sync.Mutex` that one goroutine uses: from the state `held`, whether the steps run to the end.
-- A lock of a held mutex blocks, and an unlock of a free one panics.
unfoldable pub runs_through : Bool → List LockStep → Bool
runs_through held [] = true
runs_through false (lock ∷ steps) = runs_through true steps
runs_through true (lock ∷ steps) = false
runs_through true (unlock ∷ steps) = runs_through false steps
runs_through false (unlock ∷ steps) = false
