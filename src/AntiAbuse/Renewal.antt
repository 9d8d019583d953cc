-- ===== src/AntiAbuse/Renewal.antt =====
-- The token bucket of an address whose last connection ends and which connects again.
use solo_dual_mode.Prelude.{
  ℕ, ◌-◌, ◌≤◌, ◌<◌, ◌≡◌, refl, ap, ◌∙◌, true, false, none, some, arith, leb, Key,
}
use solo_dual_mode.Prelude.Dict
use solo_dual_mode.Prelude.Dict.{
  get, insert, remove, size, IsDict, get-remove, get-insert_self, size-remove,
}
use solo_dual_mode.AntiAbuse.{
  AntiAbuseGuard, IpEntry, new_entry, admit, try_accept_connection, put_back, release,
}
use solo_dual_mode.AntiAbuse.Branches.{accept_new}

module _ {K F : Type 0} ⦃key : Key K⦄ (g : AntiAbuseGuard K F) (ip : K) (e : IpEntry F) where
  release_last :
      get ip g.state ≡ some e
      → e.conn_count ≡ 1
      → release g ip ≡ record g { state = Dict.remove ip g.state }
  unfolding release put_back
  release_last known one =
      let last : leb (e.conn_count - 1) 0 ≡ true = ground (arith, one) in
      rw (known, last, release, put_back) refl

  admit_first :
      (now : ℕ) (burst : F)
      → 0 < g.config.max_conn_per_ip
      → get ip (admit g ip (new_entry burst now)).0.state
        ≡ some (record (new_entry burst now) { conn_count = 1 })
  unfolding admit new_entry
  admit_first now burst positive =
      let free : leb g.config.max_conn_per_ip 0 ≡ false = ground (arith, positive) in
      rw (free, admit) (get-insert_self ip _ g.state)

module _ {K F : Type 0} ⦃key : Key K⦄ (g : AntiAbuseGuard K F) (ip : K) (e : IpEntry F) where
  -- When the only connection of an address ends and the address connects again, it is tracked with
  -- a full token bucket, whatever was left in the bucket and however little time has passed.
  pub burst_renewed :
      (now : ℕ)
      → 0 < g.config.max_conn_per_ip
      → IsDict g.state
      → size g.state ≤ g.config.max_tracked_ips
      → get ip g.state ≡ some e
      → e.conn_count ≡ 1
      → get ip (try_accept_connection (release g ip) ip now).0.state
        ≡ some (record { conn_count = 1; tokens = g.config.frame_burst; last_refill = now })
  unfolding new_entry
  burst_renewed now positive dict small known one =
      let g' = record g { state = Dict.remove ip g.state } in
      let absent : get ip g'.state ≡ none = ground (arith, get-remove ip ip g.state) in
      let free : leb g.config.max_tracked_ips (size g'.state) ≡ false =
        ground (arith, size-remove ip e g.state dict known, small) in
      ap (λ h. get ip (try_accept_connection h ip now).0.state) (release_last g ip e known one)
      ∙ ap (λ r. get ip r.0.state) (accept_new g' ip now absent free)
      ∙ admit_first g' ip e now g.config.frame_burst positive
