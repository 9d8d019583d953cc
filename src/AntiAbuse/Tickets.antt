-- ===== src/AntiAbuse/Tickets.antt =====
-- The connection count of an address is the number of its tickets that are held.
use solo_dual_mode.Prelude.{
  ℕ, suc, ◌-◌, ◌≤◌, ◌<◌, ◌≡◌, ap, sym, subst, ◌∙◌, List, [], ◌∷◌, some, arith, leb, Key, ite,
  Option-cases, Bool-cases, inl, inr,
}
use solo_dual_mode.Prelude.Dict.{get, insert, size, insert-IsDict, remove-IsDict, size-remove-le}
use solo_dual_mode.AntiAbuse.{
  AntiAbuseConfig, AntiAbuseGuard, Bucket, IpEntry, new_entry, admit, try_consume_frame, put_back,
  release,
}
use solo_dual_mode.AntiAbuse.Connections.{
  held, drop_one, Event, connects, sends_frame, disconnects, keep, step, run,
}
use solo_dual_mode.AntiAbuse.Branches.{accept_full, accept_new, accept_known}
use solo_dual_mode.AntiAbuse.Entries.{
  Tells, Counted, insert-Tells, remove-Tells, held_self, held_more, held_less, size_replaced,
  size_added, try_consume_count,
}

module _ {K F : Type 0} ⦃key : Key K⦄ (config : AntiAbuseConfig F) (g : AntiAbuseGuard K F)
    (tickets : List K) (counted : Counted config (g, tickets)) (ip : K) where
  replace-Counted :
      (e : IpEntry F) (n : ℕ) (tickets' : List K)
      → size (insert ip e g.state) ≤ config.max_tracked_ips
      → Tells config.max_conn_per_ip (some e) n
      → ((j : K) → held j tickets' ≡ ite (key.dec ip j) n (held j tickets))
      → Counted config (record g { state = insert ip e g.state }, tickets')
  replace-Counted e n tickets' room told at =
      let (same, dict, small, tells) = counted in
      (
        same,
        insert-IsDict ip e g.state dict,
        room,
        insert-Tells config.max_conn_per_ip g.state ip n (λ j. held j tickets)
            (λ j. held j tickets') tells at e told,
      )

  admit-Counted :
      (e : IpEntry F)
      → 0 < config.max_conn_per_ip
      → e.conn_count ≡ held ip tickets
      → e.conn_count ≤ config.max_conn_per_ip
      → ((e' : IpEntry F) → size (insert ip e' g.state) ≤ config.max_tracked_ips)
      → Counted config ((admit g ip e).0, keep (admit g ip e).1 tickets)
  unfolding admit
  admit-Counted e positive count within room =
      let limit = ap AntiAbuseConfig.max_conn_per_ip counted.0 in
      elim (Bool-cases (leb g.config.max_conn_per_ip e.conn_count)) [
        | inl full ↦
            rw (full, admit)
              (replace-Counted e (held ip tickets) tickets (room e)
                (count, ground (arith, full, count, limit, positive), ground (arith, count, within))
                (λ j. held_self ip j tickets))
        | inr free ↦
            rw (free, admit)
              (replace-Counted _ (suc (held ip tickets)) (ip ∷ tickets) (room _)
                (ground (arith, count), omega arith, ground (arith, free, count, limit))
                (λ j. held_more ip j tickets))
      ]

  put_back-Counted :
      (e : IpEntry F)
      → e.conn_count ≡ held ip tickets - 1
      → e.conn_count ≤ config.max_conn_per_ip
      → size (insert ip e g.state) ≤ config.max_tracked_ips
      → Counted config (put_back g ip e, drop_one ip tickets)
  unfolding put_back
  put_back-Counted e count within room = elim (Bool-cases (leb e.conn_count 0)) [
    | inl last ↦
        let (same, dict, small, tells) = counted in
        rw (last, put_back)
          (
            same,
            remove-IsDict ip g.state dict,
            omega (arith, small, size-remove-le ip g.state),
            remove-Tells config.max_conn_per_ip g.state ip (held ip tickets - 1)
                (λ j. held j tickets) (λ j. held j (drop_one ip tickets)) tells
                (λ j. held_less ip j tickets) (ground (arith, last, count)),
          )
    | inr more ↦
        rw (more, put_back)
          (replace-Counted e (held ip tickets - 1) (drop_one ip tickets) room
            (count, ground (arith, more, count), omega (arith, count, within))
            (λ j. held_less ip j tickets))
  ]

module _ {K F : Type 0} ⦃key : Key K⦄ (ops : Bucket F) (config : AntiAbuseConfig F) where
  accept-Counted :
      (ip : K) (now : ℕ) (w : AntiAbuseGuard K F × List K)
      → 0 < config.max_conn_per_ip
      → Counted config w
      → Counted config (step ops (connects ip now) w)
  unfolding step new_entry
  accept-Counted ip now (g, tickets) positive counted =
      let limit = ap AntiAbuseConfig.max_tracked_ips counted.0 in
      let told = counted.3 ip in
      elim (Option-cases (get ip g.state)) [
        | inl missing ↦ elim (Bool-cases (leb g.config.max_tracked_ips (size g.state))) [
          | inl full ↦ rw (accept_full g ip now missing full, step) counted
          | inr free ↦
              let none_held : held ip tickets ≡ 0 =
                subst (λ o. Tells config.max_conn_per_ip o (held ip tickets)) missing told in
              rw (accept_new g ip now missing free, step)
                (admit-Counted config g tickets counted ip _ positive (sym none_held) (omega arith)
                  (λ e'. ground (arith, size_added g.state ip e' missing, free, limit)))
        ]
        | inr (e, known) ↦
            let (count, some_held, within) =
              subst (λ o. Tells config.max_conn_per_ip o (held ip tickets)) known told in
            rw (accept_known g ip now e known, step)
              (admit-Counted config g tickets counted ip e positive count
                (omega (arith, count, within))
                (λ e'. omega (arith, size_replaced g.state ip e e' known, counted.2)))
      ]

  frame-Counted :
      (ip : K) (now : ℕ) (w : AntiAbuseGuard K F × List K)
      → Counted config w
      → Counted config (step ops (sends_frame ip now) w)
  unfolding step try_consume_frame
  frame-Counted ip now (g, tickets) counted = elim (Option-cases (get ip g.state)) [
    | inl missing ↦ rw (missing, try_consume_frame) counted
    | inr (e, known) ↦
        let (count, some_held, within) =
          subst (λ o. Tells config.max_conn_per_ip o (held ip tickets)) known (counted.3 ip) in
        rw (known, try_consume_frame)
          (replace-Counted config g tickets counted ip _ (held ip tickets) tickets
            (omega (arith, size_replaced g.state ip e _ known, counted.2))
            (try_consume_count ops e now _ _ ∙ count, some_held, within)
            (λ j. held_self ip j tickets))
  ]

  release-Counted :
      (ip : K) (w : AntiAbuseGuard K F × List K)
      → Counted config w
      → Counted config (step ops (disconnects ip) w)
  unfolding step release
  release-Counted ip (g, tickets) counted = elim (Bool-cases (leb (held ip tickets) 0)) [
    | inl nothing ↦ rw (nothing, step) counted
    | inr owned ↦ elim (Option-cases (get ip g.state)) [
      | inl missing ↦
          let none_held =
            subst (λ o. Tells config.max_conn_per_ip o (held ip tickets)) missing (counted.3 ip) in
          absurd (ground (arith, owned, none_held))
      | inr (e, known) ↦
          let (count, some_held, within) =
            subst (λ o. Tells config.max_conn_per_ip o (held ip tickets)) known (counted.3 ip) in
          rw (owned, known, step, release)
            (put_back-Counted config g tickets counted ip _ (ap (λ n. n - 1) count)
              (omega (arith, count, within))
              (omega (arith, size_replaced g.state ip e _ known, counted.2)))
    ]
  ]

  step-Counted :
      (event : Event K) (w : AntiAbuseGuard K F × List K)
      → 0 < config.max_conn_per_ip
      → Counted config w
      → Counted config (step ops event w)
  step-Counted (connects ip now) w positive counted = accept-Counted ip now w positive counted
  step-Counted (sends_frame ip now) w positive counted = frame-Counted ip now w counted
  step-Counted (disconnects ip) w positive counted = release-Counted ip w counted

  pub run-Counted :
      (events : List (Event K)) (w : AntiAbuseGuard K F × List K)
      → 0 < config.max_conn_per_ip
      → Counted config w
      → Counted config (run ops events w)
  unfolding run
  run-Counted [] w positive counted = counted
  run-Counted (event ∷ events) w positive counted =
      run-Counted events (step ops event w) positive (step-Counted event w positive counted)
