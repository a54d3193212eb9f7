-- ===== src/Room/Broadcasts/Laws.antt =====
-- internal/broadcasts: who gets an update, and who is dropped.
use go_ssb_room.Base.{
  ℕ, ◌≡◌, Bool, false, none, some, List, [], ◌∷◌, ◌++◌, ◌==◌, not, ◌&&◌, refl, ==_refl, arith,
  if◌then◌else◌,
}
use go_ssb_room.Sqlite.Rows.{select_one, update_all, exists, select_one-append, exists-delete_self}
use go_ssb_room.Room.Broadcasts.{Sink, deliver, Broadcast, register, unregister, write, send, emit}

module _ {M : Type 0} where
  abbrev pub at_address : ℕ → Sink M → Bool
  at_address n s = s.address == n

  send-select :
      (broken : ℕ → Bool) (msg : M) (n : ℕ) (sinks : List (Sink M))
      → select_one (at_address n) (send broken msg sinks) ≡ (
          if broken n then none else (elim (select_one (at_address n) sinks) [
            | none ↦ none
            | some s ↦ some (write msg s)
          ]))
  unfolding send select_one
  send-select broken msg n [] = ground arith
  send-select broken msg n (s ∷ sinks) = ground (arith, send-select broken msg n sinks)

  -- After an update, the sink registered under an address is the one before it with the message
  -- added, if its stream takes the write, and is gone otherwise.
  pub emit_lem :
      (broken : ℕ → Bool) (msg : M) (n : ℕ) (b : Broadcast M)
      → select_one (at_address n) (emit broken msg b).sinks ≡ (
          if broken n then none else (elim (select_one (at_address n) b.sinks) [
            | none ↦ none
            | some s ↦ some (write msg s)
          ]))
  unfolding emit
  emit_lem broken msg n b = send-select broken msg n b.sinks

  deliver-select :
      (broken : ℕ → Bool) (msg : M) (n : ℕ) (sinks : List (Sink M))
      → broken n ≡ false
      → select_one
          (at_address n)
          (update_all (λ (s : Sink M). (s.address == n) && not (broken n)) (write msg) sinks)
        ≡ (elim (select_one (at_address n) sinks) [ none ↦ none | some s ↦ some (write msg s) ])
  unfolding select_one update_all
  deliver-select broken msg n [] works = refl
  deliver-select broken msg n (s ∷ sinks) works =
      ground (arith, deliver-select broken msg n sinks works)

  -- A write of its own reaches the sink of that address.
  pub deliver_lem :
      (broken : ℕ → Bool) (msg : M) (n : ℕ) (b : Broadcast M)
      → broken n ≡ false
      → select_one (at_address n) (deliver broken n msg b).sinks
        ≡ (elim (select_one (at_address n) b.sinks) [ none ↦ none | some s ↦ some (write msg s) ])
  unfolding deliver
  deliver_lem broken msg n b works = deliver-select broken msg n b.sinks works

  -- Addresses are given in order, so no two registrations share one.
  abbrev pub IsFresh : Broadcast M → Type 0
  IsFresh b = exists (λ (s : Sink M). at_address b.next_address s) b.sinks ≡ false

  -- Where the next address is fresh and its stream takes the write, a sink that is registered has
  -- the next update as its last message; and it is gone once the function that Register returned
  -- has run.
  register-emit :
      (broken : ℕ → Bool) (sent : List M) (msg : M) (b : Broadcast M)
      → IsFresh b
      → broken b.next_address ≡ false
      → let (n, watched) = register sent b in
        (select_one (at_address n) (emit broken msg watched).sinks
          ≡ some (record { address = n; received = sent ++ msg ∷ [] }))
        × (exists (at_address n) (unregister n watched).sinks ≡ false)
  unfolding register unregister
  register-emit broken sent msg b fresh works =
      let row : Sink M = record { address = b.next_address; received = sent } in
      (
        ground (
          arith,
          emit_lem broken msg b.next_address (register sent b).1,
          select_one-append (at_address b.next_address) b.sinks row fresh (==_refl b.next_address),
        ),
        exists-delete_self (at_address b.next_address) (b.sinks ++ row ∷ []),
      )
