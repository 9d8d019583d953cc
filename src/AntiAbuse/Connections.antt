-- ===== src/AntiAbuse/Connections.antt =====
-- The connections of the listener, with the tickets that they hold.
use solo_dual_mode.Prelude.{ℕ, suc, ◌-◌, ◌≡◌, true, false, List, [], ◌∷◌, arith, leb, Key, ite}
use solo_dual_mode.AntiAbuse.{
  AntiAbuseGuard, Bucket, Accept, ticket, refused, try_accept_connection, try_consume_frame,
  release,
}

-- The tickets that the connections hold, each with its address.
module _ {K : Type 0} ⦃key : Key K⦄ where
  unfoldable pub held : K → List K → ℕ
  held ip [] = 0
  held ip (t ∷ tickets) = ite (key.dec t ip) (suc (held ip tickets)) (held ip tickets)

  unfoldable pub drop_one : K → List K → List K
  drop_one ip [] = []
  drop_one ip (t ∷ tickets) = ite (key.dec t ip) tickets (t ∷ drop_one ip tickets)

  pub held-drop_one :
      (ip j : K) (tickets : List K)
      → held j (drop_one ip tickets) ≡ ite (key.dec ip j) (held j tickets - 1) (held j tickets)
  unfolding held drop_one
  held-drop_one ip j [] = ground arith
  held-drop_one ip j (t ∷ tickets) = ground (arith, held-drop_one ip j tickets)

-- What the listener does. A connection that ends drops its ticket.
pub data Event (K : Type 0) : Type 0 where
  connects : K → ℕ → Event K
  sends_frame : K → ℕ → Event K
  disconnects : K → Event K

-- The tickets after an accept.
abbrev pub keep : {K : Type 0} → Accept K → List K → List K
keep (ticket ip) tickets = ip ∷ tickets
keep (refused reason) tickets = tickets

module _ {K F : Type 0} ⦃key : Key K⦄ (ops : Bucket F) where
  unfoldable pub step : Event K → AntiAbuseGuard K F × List K → AntiAbuseGuard K F × List K
  step (connects ip now) (g, tickets) =
      let (g', answer) = try_accept_connection g ip now in (g', keep answer tickets)
  step (sends_frame ip now) (g, tickets) = ((try_consume_frame ops g ip now).0, tickets)
  step (disconnects ip) (g, tickets) = elim (leb (held ip tickets) 0) [
    | true ↦ (g, tickets)
    | false ↦ (release g ip, drop_one ip tickets)
  ]

  unfoldable pub run : List (Event K) → AntiAbuseGuard K F × List K → AntiAbuseGuard K F × List K
  run [] w = w
  run (e ∷ events) w = run events (step e w)
