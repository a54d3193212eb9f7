-- ===== src/Room/SignIn.antt =====
-- Sign-in with ssb: internal/signinwithssb/challenges.go, which says what is signed,
-- internal/signinwithssb/bridge.go, which hands a result to the browser that waits for it, and
-- muxrpc/handlers/signinwithssb/withssb.go, the calls of the peer who signs in.
pub mod Laws
use go_ssb_room.Base.{
  ℕ, zero, suc, ◌+◌, Bool, true, false, not, Option, none, some, List, [], ◌∷◌, ◌++◌, ◌==◌, length,
  if◌then◌else◌, Text, text_eq, codes,
}
use go_ssb_room.Roomdb.{FeedRef, Error, Result, ok, err}
use go_ssb_room.Sqlite.Rows.{delete_all, exists}
use go_ssb_room.Sqlite.Db.{Db, Faults}
use go_ssb_room.Sqlite.Members.{Member, get_by_feed}
use go_ssb_room.Sqlite.Sessions.{create_token, remove_token, wipe_tokens}
use go_ssb_room.Room.Aliases.{trim_suffix, sig_suffix}

-- `ClientPayload`
pub record ClientPayload : Type 0 where
  pub client : FeedRef
  pub server : FeedRef
  pub client_challenge : Text
  pub server_challenge : Text

-- `createMessage`
unfoldable pub create_message : ClientPayload → Text
create_message p =
    codes "=http-auth-sign-in:"
    ++ p.server
    ++ codes ":"
    ++ p.client
    ++ codes ":"
    ++ p.server_challenge
    ++ codes ":"
    ++ p.client_challenge

-- The code of other repositories: `ed25519.Verify` under the key of a feed, and two base64 alphabets.
pub record Library : Type 0 where
  pub verify : FeedRef → Text → Text → Bool
  pub decode : Text → Option Text
  pub decode_url : Text → Option Text

-- `Validate`
unfoldable pub validate : Library → ClientPayload → Text → Bool
unfolding create_message
validate l p signature = l.verify p.client (create_message p) signature

unfoldable of_challenge_length : Option Text → Option Text
of_challenge_length none = none
of_challenge_length (some bytes) = if length bytes == 32 then some bytes else none

-- `DecodeChallengeString`
unfoldable pub decode_challenge : Library → Text → Option Text
unfolding of_challenge_length
decode_challenge l c = of_challenge_length (l.decode_url c)

-- `Event`, without the reason of a failure.
pub data Event : Type 0 where
  worked : Text → Event
  failed : Event

-- `SignalBridge`: the challenges that wait, and what was handed over, newest last.
pub record Bridge : Type 0 where
  pub sessions : List Text
  pub received : List (Text × Event)

-- The loop of `RegisterSession`, which draws until a challenge is unused. It has no bound in the
-- source; here it has `fuel` rounds, the `k`th of which draws `random k`.
unfoldable pub draw_challenge : (ℕ → Text) → ℕ → Bridge → Option Text
draw_challenge random zero b = none
draw_challenge random (suc fuel) b =
    let rest = draw_challenge (λ k. random (suc k)) fuel b in
    if exists (text_eq (random 0)) b.sessions then rest else some (random 0)

unfoldable add_session : Option Text → Bridge → Option Text × Bridge
add_session none b = (none, b)
add_session (some c) b = (some c, record b { sessions = b.sessions ++ c ∷ [] })

-- `RegisterSession`
unfoldable pub register_session : (ℕ → Text) → ℕ → Bridge → Option Text × Bridge
unfolding draw_challenge add_session
register_session random fuel b = add_session (draw_challenge random fuel b) b

-- The goroutine that drops a session after ten minutes.
unfoldable pub expire_session : Text → Bridge → Bridge
expire_session c b = record b { sessions = delete_all (text_eq c) b.sessions }

-- `sendAndClose`: `listens` says whether a reader takes the event before the timer of two minutes.
unfoldable pub send_and_close : Bool → Text → Event → Bridge → Bool × Bridge
unfolding expire_session
send_and_close listens c event b =
    if exists (text_eq c) b.sessions
    then (
      listens,
      record (expire_session c b) {
        received = if listens then b.received ++ (c, event) ∷ [] else b.received;
      },
    )
    else (false, b)

pub data Refusal : Type 0 where
  bad_address not_a_member bad_arguments bad_encoding bad_solution no_listener : Refusal
  argument_count : ℕ → Refusal
  storage : Error → Refusal

pub data Reply : Type 0 where
  granted : Reply
  refused : Refusal → Reply

-- What the handlers run on.
pub record World : Type 0 where
  pub db : Db
  pub bridge : Bridge

-- What the world adds to one call.
pub record Luck : Type 0 where
  pub of_member : Faults
  pub of_create : Faults
  pub of_remove : Faults
  pub random : ℕ → Text
  pub now : ℕ
  pub listens : Bool

-- A token that nobody waits for is removed again.
unfoldable pub deliver : Luck → Text → Db → Bool × Bridge → Reply × World
deliver luck token db (true, b) = (granted, record { db = db; bridge = b })
deliver luck token db (false, b) =
    (refused no_listener, record { db = (remove_token luck.of_remove token db).1; bridge = b })

unfoldable pub signal : Luck → Text → Bridge → Result Text × Db → Reply × World
unfolding deliver send_and_close
signal luck sc b (ok token, db) =
    deliver luck token db (send_and_close luck.listens sc (worked token) b)
signal luck sc b (err e, db) =
    (refused (storage e), record { db = db; bridge = (send_and_close luck.listens sc failed b).1 })

unfoldable pub check_solution :
    Library → Luck → ClientPayload → ℕ → Option Text → World → Reply × World
unfolding signal send_and_close validate
check_solution l luck p member none w = (
  refused bad_encoding,
  record w { bridge = (send_and_close luck.listens p.server_challenge failed w.bridge).1 },
)
check_solution l luck p member (some signature) w =
    if validate l p signature
    then signal luck p.server_challenge w.bridge
        (create_token luck.random luck.of_create member luck.now w.db)
    else (
      refused bad_solution,
      record w { bridge = (send_and_close luck.listens p.server_challenge failed w.bridge).1 },
    )

-- `strings.TrimSuffix`, which leaves a text without the suffix as it is.
unfoldable pub trimmed : Option Text → Text → Text
trimmed none t = t
trimmed (some before) t = before

unfoldable pub solve_params :
    Library → Luck → FeedRef → FeedRef → ℕ → List Text → World → Reply × World
unfolding check_solution trimmed trim_suffix
solve_params l luck self client member (sc ∷ cc ∷ sol ∷ []) w =
    check_solution l luck
      (record { client = client; server = self; client_challenge = cc; server_challenge = sc })
      member (l.decode (trimmed (trim_suffix sig_suffix sol) sol)) w
solve_params l luck self client member params w = (refused (argument_count (length params)), w)

unfoldable pub solve_decoded :
    Library → Luck → FeedRef → FeedRef → ℕ → Option (List Text) → World → Reply × World
unfolding solve_params
solve_decoded l luck self client member none w = (refused bad_arguments, w)
solve_decoded l luck self client member (some params) w =
    solve_params l luck self client member params w

unfoldable pub solve_member :
    Library → Luck → FeedRef → FeedRef → Result Member → Option (List Text) → World → Reply × World
unfolding solve_decoded
solve_member l luck self client (err e) params w = (refused not_a_member, w)
solve_member l luck self client (ok m) params w = solve_decoded l luck self client m.id params w

-- `SendSolution`
unfoldable pub send_solution :
    Library → Luck → FeedRef → Option FeedRef → Option (List Text) → World → Reply × World
unfolding solve_member
send_solution l luck self none params w = (refused bad_address, w)
send_solution l luck self (some client) params w =
    solve_member l luck self client (get_by_feed luck.of_member client w.db).0 params w

unfoldable wiped : Result (Unit {0}) × Db → World → Reply × World
wiped (ok t, db) w = (granted, record w { db = db })
wiped (err e, db) w = (refused (storage e), record w { db = db })

unfoldable wipe_member : Faults → Result Member → World → Reply × World
unfolding wiped
wipe_member io (err e) w = (refused (storage e), w)
wipe_member io (ok m) w = wiped (wipe_tokens io m.id w.db) w

-- `InvalidateAllSolutions`
unfoldable pub invalidate_all_solutions : Faults → Faults → Option FeedRef → World → Reply × World
unfolding wipe_member
invalidate_all_solutions of_member of_wipe none w = (refused bad_address, w)
invalidate_all_solutions of_member of_wipe (some client) w =
    wipe_member of_wipe (get_by_feed of_member client w.db).0 w
