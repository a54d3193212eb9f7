-- ===== src/Tests/SignIn.antt =====
-- The theorems on sign-in with ssb, on the small room.
use go_ssb_room.Base.{
  ℕ, ◌≡◌, refl, true, false, Option, some, List, [], ◌∷◌, ◌++◌, ◌==◌, if◌then◌else◌, Text, text_eq,
  codes, arith,
}
use go_ssb_room.Roomdb.{FeedRef, ok}
use go_ssb_room.Sqlite.Rows.{exists, select_one, select_all}
use go_ssb_room.Sqlite.Db.{reliable, transact, conclude}
use go_ssb_room.Sqlite.Schema.{insert_session}
use go_ssb_room.Sqlite.Members.{Member, get_by_feed, to_member, get_aliases}
use go_ssb_room.Sqlite.Sessions.{create_token, token_attempts, check_token}
use go_ssb_room.Room.Aliases.{trim_suffix, sig_suffix}
use go_ssb_room.Room.SignIn.{
  ClientPayload, create_message, Library, validate, worked, draw_challenge, expire_session,
  send_and_close, granted, World, Luck, deliver, signal, check_solution, trimmed, solve_params,
  solve_decoded, solve_member, send_solution,
}
use go_ssb_room.Room.SignIn.Laws as SignInLaws
use go_ssb_room.Tests.{bob, mallory, world}

-- Every signature is accepted that is the one character 6.
abbrev library : Library
library = record {
  verify = λ key message signature. text_eq signature (6 ∷ []);
  decode = λ t. some t;
  decode_url = λ t. some t;
}

abbrev luck : Luck
luck = record {
  of_member = reliable;
  of_create = reliable;
  of_remove = reliable;
  random = λ n. n ∷ [];
  now = 200000;
  listens = true;
}

abbrev waiting : World
waiting = record { db = world; bridge = record { sessions = codes "sc" ∷ []; received = [] } }

abbrev params : Option (List Text)
params = some (codes "sc" ∷ codes "cc" ∷ ((6 ∷ []) ++ sig_suffix) ∷ [])

solution_runs : (send_solution library luck mallory (some bob) params waiting).0 ≡ granted
unfolding send_solution solve_member solve_decoded solve_params check_solution trimmed trim_suffix
    validate create_message signal deliver send_and_close expire_session get_by_feed to_member
    get_aliases create_token token_attempts transact conclude insert_session select_one select_all
    exists text_eq
solution_runs = refl

send_solution_lem_example :
    let after = (send_solution library luck mallory (some bob) params waiting).1 in
    (p : ClientPayload) × (signature : Text) × (m : Member) × (token : Text) × (p.server ≡ mallory)
    × (◌≡◌ {A = Option FeedRef} (some bob) (some p.client))
    × (library.verify p.client (create_message p) signature ≡ true)
    × ((get_by_feed reliable p.client world).0 ≡ ok m)
    × (exists (text_eq p.server_challenge) waiting.bridge.sessions ≡ true)
    × (after.bridge.received ≡ waiting.bridge.received ++ (p.server_challenge, worked token) ∷ [])
    × (exists (text_eq p.server_challenge) after.bridge.sessions ≡ false)
    × ((check_token reliable token 250000 after.db).0 ≡ ok m.id)
send_solution_lem_example =
    SignInLaws.send_solution_lem library luck mallory (some bob) params waiting 250000 solution_runs
      (omega arith)

-- The first draw is taken, the second is not.
abbrev draws : ℕ → Text
draws n = if n == 0 then codes "sc" else n ∷ []

second_is_free : exists (text_eq (draws 1)) waiting.bridge.sessions ≡ false
unfolding exists text_eq
second_is_free = refl

draw_challenge_lem_example :
    (c : Text) × (draw_challenge draws 5 waiting.bridge ≡ some c)
    × (exists (text_eq c) waiting.bridge.sessions ≡ false)
draw_challenge_lem_example =
    SignInLaws.draw_challenge_lem draws 5 1 waiting.bridge (omega arith) second_is_free
