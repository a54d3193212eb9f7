-- ===== src/Room/SignIn/Laws.antt =====
-- internal/signinwithssb and muxrpc/handlers/signinwithssb: what a solution that is accepted says,
-- and who is signed in by it.
use go_ssb_room.Base.{
  ℕ, zero, suc, ◌+◌, ◌<◌, ◌≤◌, ◌≡◌, refl, Bool, true, false, Option, none, some, List, [], ◌∷◌,
  ◌++◌, Text, text_eq, arith, Bool-cases, Option-cases, inl, inr, ◌⊎◌,
}
use go_ssb_room.Roomdb.{FeedRef, Result, ok, err, Result-cases}
use go_ssb_room.Sqlite.Rows.{exists, exists-delete_self}
use go_ssb_room.Sqlite.Db.{Db, reliable}
use go_ssb_room.Sqlite.Members.{Member, get_by_feed}
use go_ssb_room.Sqlite.Sessions.{session_timeout, create_token, check_token}
use go_ssb_room.Sqlite.Sessions.Laws.{create_token-check_token}
use go_ssb_room.Room.Aliases.{trim_suffix, sig_suffix}
use go_ssb_room.Room.SignIn.{
  ClientPayload, create_message, Library, validate, Event, worked, Bridge, draw_challenge,
  expire_session, send_and_close, granted, World, Luck, deliver, signal, check_solution, trimmed,
  solve_params, solve_decoded, solve_member, send_solution,
}

deliver_effect :
    (luck : Luck) (token : Text) (db : Db) (r : Bool × Bridge)
    → (deliver luck token db r).0 ≡ granted
    → (r.0 ≡ true) × ((deliver luck token db r).1 ≡ record { db = db; bridge = r.1 })
unfolding deliver
deliver_effect luck token db (true, b) h = (refl, refl)
deliver_effect luck token db (false, b) h = absurd (ground arith)

signal_effect :
    (luck : Luck) (sc : Text) (b : Bridge) (r : Result Text × Db)
    → (signal luck sc b r).0 ≡ granted
    → (token : Text) × (r.0 ≡ ok token)
      × ((send_and_close luck.listens sc (worked token) b).0 ≡ true)
      × ((signal luck sc b r).1
          ≡ record { db = r.1; bridge = (send_and_close luck.listens sc (worked token) b).1 })
unfolding signal
signal_effect luck sc b (ok token, db) h =
    let (took, same) =
      deliver_effect luck token db (send_and_close luck.listens sc (worked token) b) h in
    (token, refl, took, same)
signal_effect luck sc b (err e, db) h = absurd (ground arith)

-- What a solution that was accepted went through.
solve_effect :
    (l : Library) (luck : Luck) (self client : FeedRef) (member : ℕ) (params : Option (List Text))
    (w : World)
    → (solve_decoded l luck self client member params w).0 ≡ granted
    → (p : ClientPayload) × (signature : Text) × (p.server ≡ self)
      × (p.client ≡ client)
      × (validate l p signature ≡ true)
      × ((signal luck p.server_challenge w.bridge
            (create_token luck.random luck.of_create member luck.now w.db)).0
          ≡ granted)
      × ((solve_decoded l luck self client member params w).1
          ≡ (signal luck p.server_challenge w.bridge
              (create_token luck.random luck.of_create member luck.now w.db)).1)
unfolding solve_decoded solve_params check_solution
solve_effect l luck self client member none w h = absurd (ground arith)
solve_effect l luck self client member (some []) w h = absurd (ground arith)
solve_effect l luck self client member (some (a ∷ [])) w h = absurd (ground arith)
solve_effect l luck self client member (some (a ∷ b ∷ [])) w h = absurd (ground arith)
solve_effect l luck self client member (some (a ∷ b ∷ c ∷ d ∷ rest)) w h = absurd (ground arith)
solve_effect l luck self client member (some (sc ∷ cc ∷ sol ∷ [])) w h =
    elim (Option-cases (l.decode (trimmed (trim_suffix sig_suffix sol) sol))) [
      | inl e ↦ absurd (ground arith)
      | inr (signature, e) ↦
          let p : ClientPayload = record {
            client = client;
            server = self;
            client_challenge = cc;
            server_challenge = sc;
          } in
          elim (Bool-cases (validate l p signature)) [
            | inl v ↦ (p, signature, refl, refl, v, ground arith, ground arith)
            | inr v ↦ absurd (ground arith)
          ]
    ]

send_effect :
    (listens : Bool) (c : Text) (event : Event) (b : Bridge)
    → (send_and_close listens c event b).0 ≡ true
    → (exists (text_eq c) b.sessions ≡ true)
      × ((send_and_close listens c event b).1.received ≡ b.received ++ (c, event) ∷ [])
      × (exists (text_eq c) (send_and_close listens c event b).1.sessions ≡ false)
unfolding send_and_close expire_session
send_effect listens c event b h =
    let gone = exists-delete_self (text_eq c) b.sessions in
    (ground arith, ground arith, ground (arith, gone))

-- A solution that is accepted was signed, for this room, by the key of the connection, which is a
-- member's; a browser waited on its challenge and got a token, which CheckToken accepts for that
-- member until a day later, where the engine refuses nothing in that check; and the challenge is
-- spent.
pub send_solution_lem :
    (l : Library) (luck : Luck) (self : FeedRef) (user : Option FeedRef)
    (params : Option (List Text)) (w : World) (later : ℕ)
    → (send_solution l luck self user params w).0 ≡ granted
    → later ≤ luck.now + session_timeout
    → let after = (send_solution l luck self user params w).1 in
      (p : ClientPayload) × (signature : Text) × (m : Member) × (token : Text) × (p.server ≡ self)
      × (user ≡ some p.client)
      × (l.verify p.client (create_message p) signature ≡ true)
      × ((get_by_feed luck.of_member p.client w.db).0 ≡ ok m)
      × (exists (text_eq p.server_challenge) w.bridge.sessions ≡ true)
      × (after.bridge.received ≡ w.bridge.received ++ (p.server_challenge, worked token) ∷ [])
      × (exists (text_eq p.server_challenge) after.bridge.sessions ≡ false)
      × ((check_token reliable token later after.db).0 ≡ ok m.id)
unfolding send_solution solve_member validate
send_solution_lem l luck self none params w later h soon = absurd (ground arith)
send_solution_lem l luck self (some client) params w later h soon =
    elim (Result-cases (get_by_feed luck.of_member client w.db).0) [
      | inr (x, e) ↦ absurd (ground arith)
      | inl (m, e) ↦
          let went : (solve_decoded l luck self client m.id params w).0 ≡ granted = ground arith in
          let (p, signature, room, mine, valid, signalled, same) =
            solve_effect l luck self client m.id params w went in
          let made = create_token luck.random luck.of_create m.id luck.now w.db in
          let (token, created, took, result) =
            signal_effect luck p.server_challenge w.bridge made signalled in
          let (waited, told, spent) =
            send_effect luck.listens p.server_challenge (worked token) w.bridge took in
          let signed_in =
            create_token-check_token luck.random luck.of_create m.id luck.now later w.db token
              created soon in
          let outcome : (send_solution l luck self (some client) params w).1 ≡ record {
            db = made.1;
            bridge = (send_and_close luck.listens p.server_challenge (worked token) w.bridge).1;
          } =
            ground (arith, same, result) in
          rw outcome (
            p,
            signature,
            m,
            token,
            room,
            ground arith,
            valid,
            ground arith,
            waited,
            told,
            spent,
            signed_in,
          )
    ]

-- Where one of the draws within the fuel is an unused challenge, the loop of RegisterSession gives
-- a challenge, and that is unused.
pub draw_challenge_lem :
    (random : ℕ → Text) (fuel k : ℕ) (b : Bridge)
    → k < fuel
    → exists (text_eq (random k)) b.sessions ≡ false
    → (c : Text) × (draw_challenge random fuel b ≡ some c) × (exists (text_eq c) b.sessions ≡ false)
unfolding draw_challenge
draw_challenge_lem random zero k b lt free = absurd (omega arith)
draw_challenge_lem random (suc fuel) k b lt free =
    elim (Bool-cases (exists (text_eq (random 0)) b.sessions)) [
      | inr e ↦ (random 0, ground arith, e)
      | inl e ↦ elim (pred_of k) [
        | inl z ↦ absurd (ground (arith, rw z at free))
        | inr (j, z) ↦
            let (c, drawn, unused) =
              draw_challenge_lem (λ i. random (suc i)) fuel j b (omega arith) (rw z at free) in
            (c, ground arith, unused)
      ]
    ]
  where
    pred_of : (n : ℕ) → (n ≡ 0) ⊎ ((j : ℕ) × (n ≡ suc j))
    pred_of zero = inl refl
    pred_of (suc j) = inr (j, refl)
