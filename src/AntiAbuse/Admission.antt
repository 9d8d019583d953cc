-- ===== src/AntiAbuse/Admission.antt =====
-- What the guard decides, told by the tickets that are held.
use solo_dual_mode.Prelude.{
  ℕ, ◌≤◌, ◌<◌, ◌≡◌, refl, ap, sym, subst, ◌∙◌, ◌&&◌, not, List, [], arith, leb, if◌then◌else◌, Key,
  Option-cases, Bool-cases, inl, inr,
}
use solo_dual_mode.Prelude.Dict.{get, contains, size}
use solo_dual_mode.AntiAbuse.{
  AntiAbuseConfig, AntiAbuseGuard, Bucket, IpEntry, Accept, ticket, refused, conn_cap_per_ip,
  ip_cap_reached, new, new_entry, conn_count, tracked_ip_count, admit, try_accept_connection,
}
use solo_dual_mode.AntiAbuse.Connections.{held, Event, run}
use solo_dual_mode.AntiAbuse.Branches.{
  absent_lem, present_lem, accept_full, accept_new, accept_known,
}
use solo_dual_mode.AntiAbuse.Tickets.{run-Counted}
use solo_dual_mode.AntiAbuse.Entries.{Tells, Counted}

module _ {K F : Type 0} ⦃key : Key K⦄ (ops : Bucket F) (config : AntiAbuseConfig F) where
  -- The guard and the tickets after some events.
  abbrev pub after : List (Event K) → AntiAbuseGuard K F × List K
  after events = run ops events (new config, [])

  after-Counted :
      (events : List (Event K)) → 0 < config.max_conn_per_ip → Counted config (after events)
  unfolding new get held
  after-Counted events positive =
      run-Counted ops config events (new config, []) positive (refl, tt, omega arith, λ j. refl)

  tracked_held :
      (g : AntiAbuseGuard K F) (tickets : List K) (ip : K)
      → Counted config (g, tickets)
      → contains ip g.state ≡ not (leb (held ip tickets) 0)
  tracked_held g tickets ip counted = elim (Option-cases (get ip g.state)) [
    | inl missing ↦
        let none_held =
          subst (λ o. Tells config.max_conn_per_ip o (held ip tickets)) missing (counted.3 ip) in
        absent_lem g ip 0 missing ∙ ground (arith, none_held)
    | inr (e, known) ↦
        let told =
          subst (λ o. Tells config.max_conn_per_ip o (held ip tickets)) known (counted.3 ip) in
        present_lem g ip 0 e known ∙ ground (arith, told)
  ]

  -- After any events, the guard's count of an address is the number of tickets that the connections
  -- from it hold, which is within the limit; the guard tracks exactly the addresses with a ticket,
  -- and no more than its configuration allows. The limit of connections is positive, as
  -- `AntiAbuseConfig::new` demands.
  pub tickets_counted :
      (events : List (Event K)) (ip : K)
      → 0 < config.max_conn_per_ip
      → (conn_count (after events).0 ip ≡ held ip (after events).1)
        × (held ip (after events).1 ≤ config.max_conn_per_ip)
        × (contains ip (after events).0.state ≡ not (leb (held ip (after events).1) 0))
        × (tracked_ip_count (after events).0 ≤ config.max_tracked_ips)
  unfolding conn_count tracked_ip_count
  tickets_counted events ip positive =
      let counted = after-Counted events positive in
      elim (Option-cases (get ip (after events).0.state)) [
        | inl missing ↦
            let none_held =
              subst (λ o. Tells config.max_conn_per_ip o (held ip (after events).1)) missing
                (counted.3 ip) in
            (
              rw (missing, conn_count) (sym none_held),
              omega (arith, none_held),
              tracked_held _ _ ip counted,
              counted.2,
            )
        | inr (e, known) ↦
            let (count, some_held, within) =
              subst (λ o. Tells config.max_conn_per_ip o (held ip (after events).1)) known
                (counted.3 ip) in
            (rw (known, conn_count) count, within, tracked_held _ _ ip counted, counted.2)
      ]

  -- The decision, of the number of tickets of the address and the number of tracked addresses.
  abbrev pub decision : K → ℕ → ℕ → Accept K
  decision ip tickets tracked =
      if leb tickets 0 && leb config.max_tracked_ips tracked
      then refused ip_cap_reached
      else (if leb config.max_conn_per_ip tickets
          then refused (conn_cap_per_ip tickets config.max_conn_per_ip)
          else ticket ip)

  admit_answer :
      (g : AntiAbuseGuard K F) (ip : K) (e : IpEntry F)
      → (admit g ip e).1 ≡ (
          if leb g.config.max_conn_per_ip e.conn_count
          then refused (conn_cap_per_ip e.conn_count g.config.max_conn_per_ip)
          else ticket ip)
  unfolding admit
  admit_answer g ip e = ground arith

  -- After any events, an accept is decided by the tickets alone: a new address is refused when the
  -- tracked addresses are at their limit, and an address whose tickets are at theirs is refused with
  -- that number; every other connection gets a ticket. The limit of connections is positive.
  pub accept_decided :
      (events : List (Event K)) (ip : K) (now : ℕ)
      → 0 < config.max_conn_per_ip
      → (try_accept_connection (after events).0 ip now).1
        ≡ decision ip (held ip (after events).1) (tracked_ip_count (after events).0)
  unfolding tracked_ip_count new_entry
  accept_decided events ip now positive =
      let counted = after-Counted events positive in
      let g = (after events).0 in
      let tracked_limit = ap AntiAbuseConfig.max_tracked_ips counted.0 in
      let conn_limit = ap AntiAbuseConfig.max_conn_per_ip counted.0 in
      elim (Option-cases (get ip g.state)) [
        | inl missing ↦
            let none_held =
              subst (λ o. Tells config.max_conn_per_ip o (held ip (after events).1)) missing
                (counted.3 ip) in
            elim (Bool-cases (leb g.config.max_tracked_ips (size g.state))) [
              | inl full ↦
                  ap (λ r. r.1) (accept_full g ip now missing full)
                  ∙ ground (arith, none_held, full, tracked_limit)
              | inr free ↦
                  ap (λ r. r.1) (accept_new g ip now missing free)
                  ∙ admit_answer g ip _
                  ∙ ground (arith, none_held, free, tracked_limit, conn_limit)
            ]
        | inr (e, known) ↦
            let told =
              subst (λ o. Tells config.max_conn_per_ip o (held ip (after events).1)) known
                (counted.3 ip) in
            ap (λ r. r.1) (accept_known g ip now e known)
            ∙ admit_answer g ip e
            ∙ ground (arith, told, conn_limit)
      ]
