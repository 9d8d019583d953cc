-- ===== src/AntiAbuse.antt =====
-- bridge-src/bridge/src/anti_abuse.rs, `AntiAbuseGuard`: connections and frames per source address.
-- The listener asks it before it serves a socket and before it handles a frame.
pub mod Connections
pub mod Branches
pub mod Entries
pub mod Tickets
pub mod Admission
pub mod Renewal
mod Tests
use solo_dual_mode.Prelude.{
  ℕ, ◌+◌, ◌-◌, Bool, true, false, ◌&&◌, not, [], Option, none, some, leb, if◌then◌else◌, Key,
}
use solo_dual_mode.Prelude.Dict
use solo_dual_mode.Prelude.Dict.{Dict, get, insert, contains, size}

-- The arithmetic of `f64` that the token bucket uses: `as_secs_f64`, product, sum, minimum, and
-- whether one token is there and what is left without it.
pub record Bucket (F : Type 0) : Type 0 where
  pub as_secs : ℕ → F
  pub times : F → F → F
  pub plus : F → F → F
  pub min : F → F → F
  pub has_one : F → Bool
  pub minus_one : F → F

pub record AntiAbuseConfig (F : Type 0) : Type 0 where
  pub max_conn_per_ip : ℕ
  pub max_tracked_ips : ℕ
  pub frame_rate_per_sec : F
  pub frame_burst : F

pub record IpEntry (F : Type 0) : Type 0 where
  pub conn_count : ℕ
  pub tokens : F
  pub last_refill : ℕ

pub record AntiAbuseGuard (K F : Type 0) : Type 0 where
  pub config : AntiAbuseConfig F
  pub state : Dict K (IpEntry F)

pub data AntiAbuseRejection : Type 0 where
  conn_cap_per_ip : ℕ → ℕ → AntiAbuseRejection
  ip_cap_reached : AntiAbuseRejection

-- The result of an accept: a ticket of the address, or the reason.
pub data Accept (K : Type 0) : Type 0 where
  ticket : K → Accept K
  refused : AntiAbuseRejection → Accept K

module _ {F : Type 0} where
  unfoldable pub new_entry : F → ℕ → IpEntry F
  new_entry burst now = record { conn_count = 0; tokens = burst; last_refill = now }

  unfoldable pub try_consume : Bucket F → IpEntry F → ℕ → F → F → IpEntry F × Bool
  try_consume ops entry now rate burst =
      let elapsed = ops.as_secs (now - entry.last_refill) in
      let refill = ops.times elapsed rate in
      let tokens = ops.min (ops.plus entry.tokens refill) burst in
      if ops.has_one tokens
      then (record entry { tokens = ops.minus_one tokens; last_refill = now }, true)
      else (record entry { tokens = tokens; last_refill = now }, false)

module _ {K F : Type 0} where
  unfoldable pub new : AntiAbuseConfig F → AntiAbuseGuard K F
  new config = record { config = config; state = [] }

module _ {K F : Type 0} ⦃key : Key K⦄ where
  unfoldable pub conn_count : AntiAbuseGuard K F → K → ℕ
  conn_count g ip = elim (get ip g.state) [ none ↦ 0 | some e ↦ e.conn_count ]

  unfoldable pub tracked_ip_count : AntiAbuseGuard K F → ℕ
  tracked_ip_count g = size g.state

  -- `entry(ip).or_insert_with(...)`.
  unfoldable pub entry_of : AntiAbuseGuard K F → K → ℕ → IpEntry F
  entry_of g ip now = elim (get ip g.state) [
    | none ↦ new_entry g.config.frame_burst now
    | some e ↦ e
  ]

  -- The accept once the address may be tracked.
  unfoldable pub admit : AntiAbuseGuard K F → K → IpEntry F → AntiAbuseGuard K F × Accept K
  admit g ip entry =
      if leb g.config.max_conn_per_ip entry.conn_count
      then (
        record g { state = insert ip entry g.state },
        refused (conn_cap_per_ip entry.conn_count g.config.max_conn_per_ip),
      )
      else (
        record g { state = insert ip (record entry { conn_count = entry.conn_count + 1 }) g.state },
        ticket ip,
      )

  unfoldable pub try_accept_connection : AntiAbuseGuard K F → K → ℕ → AntiAbuseGuard K F × Accept K
  try_accept_connection g ip now =
      if not (contains ip g.state) && leb g.config.max_tracked_ips (size g.state)
      then (g, refused ip_cap_reached)
      else admit g ip (entry_of g ip now)

  unfoldable pub try_consume_frame :
      Bucket F → AntiAbuseGuard K F → K → ℕ → AntiAbuseGuard K F × Bool
  try_consume_frame ops g ip now = elim (get ip g.state) [
    | none ↦ (g, false)
    | some entry ↦
        let (entry', allowed) =
          try_consume ops entry now g.config.frame_rate_per_sec g.config.frame_burst in
        (record g { state = insert ip entry' g.state }, allowed)
  ]

  -- The entry without one connection, removed when it was the last one.
  unfoldable pub put_back : AntiAbuseGuard K F → K → IpEntry F → AntiAbuseGuard K F
  put_back g ip entry =
      if leb entry.conn_count 0
      then record g { state = Dict.remove ip g.state }
      else record g { state = insert ip entry g.state }

  -- The drop of a ticket.
  unfoldable pub release : AntiAbuseGuard K F → K → AntiAbuseGuard K F
  release g ip = elim (get ip g.state) [
    | none ↦ g
    | some entry ↦ put_back g ip (record entry { conn_count = entry.conn_count - 1 })
  ]
