-- ===== src/AntiAbuse/Tests.antt =====
-- A guard of two connections for an address and two addresses, with natural numbers for tokens.
use solo_dual_mode.Prelude.{
  ℕ, ◌+◌, ◌-◌, ◌*◌, ◌≡◌, ◌≤◌, refl, Bool, true, false, not, List, [], ◌∷◌, leb, arith, nat_key,
  some,
}
use Prim.Native.Nat.{min}
use solo_dual_mode.Prelude.Dict.{get, insert, remove, contains}
use solo_dual_mode.AntiAbuse.{
  AntiAbuseConfig, AntiAbuseGuard, IpEntry, Bucket, new, new_entry, try_consume, conn_count,
  tracked_ip_count, entry_of, admit, try_accept_connection, try_consume_frame, put_back, release,
}
use solo_dual_mode.AntiAbuse.Connections.{
  Event, connects, sends_frame, disconnects, held, step, run, drop_one,
}
use solo_dual_mode.AntiAbuse.Renewal.{burst_renewed}
use solo_dual_mode.AntiAbuse.Admission.{after, decision, tickets_counted, accept_decided}

abbrev ops : Bucket ℕ
ops = record {
  as_secs = λ t. t;
  times = λ a b. a * b;
  plus = λ a b. a + b;
  min = λ a b. min a b;
  has_one = λ t. leb 1 t;
  minus_one = λ t. t - 1;
}

abbrev config : AntiAbuseConfig ℕ
config = record {
  max_conn_per_ip = 2;
  max_tracked_ips = 2;
  frame_rate_per_sec = 1;
  frame_burst = 2;
}

abbrev events : List (Event ℕ)
events =
    connects 7 0 ∷ connects 7 1 ∷ connects 7 2 ∷ connects 8 3 ∷ sends_frame 7 4 ∷ connects 9 4 ∷ []

-- The third connection and the third address are refused.
two_addresses : (after ops config events).1 ≡ 8 ∷ 7 ∷ 7 ∷ []
unfolding run step new get insert contains try_accept_connection admit entry_of new_entry
    try_consume_frame try_consume solo_dual_mode.Prelude.ℕ_discrete
two_addresses = refl

all_gone :
    tracked_ip_count
      (run ops (disconnects 7 ∷ disconnects 8 ∷ disconnects 7 ∷ []) (after ops config events)).0
    ≡ 0
unfolding run step new get insert remove contains try_accept_connection admit entry_of new_entry
    try_consume_frame try_consume release put_back held drop_one tracked_ip_count
    solo_dual_mode.Prelude.ℕ_discrete
all_gone = refl

tickets_counted_example :
    (conn_count (after ops config events).0 7 ≡ held 7 (after ops config events).1)
    × (held 7 (after ops config events).1 ≤ 2)
    × (contains 7 (after ops config events).0.state
        ≡ not (leb (held 7 (after ops config events).1) 0))
    × (tracked_ip_count (after ops config events).0 ≤ 2)
tickets_counted_example = tickets_counted ops config events 7 (omega arith)

accept_decided_example :
    (try_accept_connection (after ops config events).0 9 5).1
    ≡ decision ops config 9
        (held 9 (after ops config events).1)
        (tracked_ip_count (after ops config events).0)
accept_decided_example = accept_decided ops config events 9 5 (omega arith)

-- One connection, whose bucket is empty.
abbrev spent : IpEntry ℕ
spent = record { conn_count = 1; tokens = 0; last_refill = 5 }

abbrev one_address : AntiAbuseGuard ℕ ℕ
one_address = record { config = config; state = (7, spent) ∷ [] }

burst_renewed_example :
    get 7 (try_accept_connection (release one_address 7) 7 6).0.state
    ≡ some (record { conn_count = 1; tokens = 2; last_refill = 6 })
unfolding get solo_dual_mode.Prelude.ℕ_discrete
burst_renewed_example =
    burst_renewed one_address 7 spent 6 (omega arith) (refl, tt) (omega arith) refl refl
