-- ===== src/Clients/Leak.antt =====
-- The first connection stays in the map.
use solo_dual_mode.Prelude.{
  ℕ, ◌+◌, ◌^◌, ◌≤◌, ◌<◌, ◌≡◌, refl, ◌∙◌, List, [], ◌∷◌, some, length, arith, nat_key, Option-cases,
  inl, inr,
}
use solo_dual_mode.Prelude.Dict.{Dict, get, insert, remove, get-insert_self, get-insert, get-remove}
use solo_dual_mode.Session.{StratumContext, id}
use solo_dual_mode.Clients.{
  ClientHandler, no_clients, on_connect, on_disconnect, Event, connects, disconnects, step, run,
}

-- A number is positive.
id_positive : (ctx : StratumContext) (n : ℕ) → id ctx ≡ some n → 0 < n
unfolding id
id_positive ctx n known = ground (arith, known)

remove_other : (n : ℕ) (d : Dict ℕ ℕ) → 0 < n → get 0 (remove n d) ≡ get 0 d
remove_other n d positive = ground (arith, positive, get-remove n 0 d)

insert_other : (n uid : ℕ) (d : Dict ℕ ℕ) → 0 < n → get 0 (insert n uid d) ≡ get 0 d
insert_other n uid d positive = ground (arith, positive, get-insert n 0 uid d)

step_keeps :
    (event : Event) (h : ClientHandler)
    → 0 < h.client_counter
    → h.client_counter + 1 < 2 ^ 32
    → (get 0 (step event h).clients ≡ get 0 h.clients)
      × (h.client_counter ≤ (step event h).client_counter)
      × ((step event h).client_counter ≤ h.client_counter + 1)
unfolding step on_connect on_disconnect
step_keeps (connects ctx) h positive room = (
  insert_other h.client_counter ctx.session_uid h.clients positive,
  omega (arith, room),
  omega (arith, room),
)
step_keeps (disconnects ctx) h positive room = elim (Option-cases (id ctx)) [
  | inl unnumbered ↦ rw (unnumbered, on_disconnect, step) (refl, omega arith, omega arith)
  | inr (n, known) ↦
      rw (known, on_disconnect, step)
        (remove_other n h.clients (id_positive ctx n known), omega arith, omega arith)
]

run_keeps :
    (events : List Event) (h : ClientHandler)
    → 0 < h.client_counter
    → h.client_counter + length events + 1 < 2 ^ 32
    → get 0 (run events h).clients ≡ get 0 h.clients
unfolding run
run_keeps [] h positive room = refl
run_keeps (event ∷ events) h positive room =
    let (kept, grows, slowly) = step_keeps event h positive (omega (arith, room)) in
    run_keeps events (step event h) (omega (arith, positive, grows)) (omega (arith, room, slowly))
    ∙ kept

-- The first connection of a handler stays in the map under the number 0 whatever connects and
-- disconnects after it, its own disconnection included, for fewer than 2 ^ 32 - 2 events.
pub first_stays :
    (first : StratumContext) (events : List Event)
    → length events + 2 < 2 ^ 32
    → get 0 (run (connects first ∷ events) no_clients).clients ≡ some first.session_uid
unfolding run step on_connect
first_stays first events few =
    run_keeps events (step (connects first) no_clients) (omega arith) (omega (arith, few))
    ∙ get-insert_self 0 first.session_uid []
