-- ===== src/AntiAbuse/Branches.antt =====
-- The branches of `try_accept_connection`.
use solo_dual_mode.Prelude.{ℕ, ◌≡◌, refl, true, false, none, some, leb, Key}
use solo_dual_mode.Prelude.Dict.{get, contains, size}
use solo_dual_mode.AntiAbuse.{
  AntiAbuseGuard, IpEntry, refused, ip_cap_reached, new_entry, entry_of, admit,
  try_accept_connection,
}

-- The branches of an accept.
module _ {K F : Type 0} ⦃key : Key K⦄ (g : AntiAbuseGuard K F) (ip : K) (now : ℕ) where
  pub absent_lem : get ip g.state ≡ none → contains ip g.state ≡ false
  unfolding contains
  absent_lem missing = rw (missing, contains) refl

  pub present_lem : (e : IpEntry F) → get ip g.state ≡ some e → contains ip g.state ≡ true
  unfolding contains
  present_lem e known = rw (known, contains) refl

  pub accept_full :
      get ip g.state ≡ none
      → leb g.config.max_tracked_ips (size g.state) ≡ true
      → try_accept_connection g ip now ≡ (g, refused ip_cap_reached)
  unfolding try_accept_connection
  accept_full missing full = rw (absent_lem missing, full, try_accept_connection) refl

  pub accept_new :
      get ip g.state ≡ none
      → leb g.config.max_tracked_ips (size g.state) ≡ false
      → try_accept_connection g ip now ≡ admit g ip (new_entry g.config.frame_burst now)
  unfolding try_accept_connection entry_of
  accept_new missing free =
      rw (absent_lem missing, free, missing, try_accept_connection, entry_of) refl

  pub accept_known :
      (e : IpEntry F) → get ip g.state ≡ some e → try_accept_connection g ip now ≡ admit g ip e
  unfolding try_accept_connection entry_of
  accept_known e known = rw (present_lem e known, known, try_accept_connection, entry_of) refl
