-- ===== src/Session.antt =====
-- bridge-src/bridge/src/stratum_context.rs, `StratumContext`: the state of one connection besides its
-- jobs. Its flags and texts are shared cells, of which each is read or written once in a call.
use solo_dual_mode.Prelude.{
  ℕ, ◌+◌, ◌-◌, ◌%◌, ◌^◌, Bool, true, false, ◌&&◌, not, List, [], ◌∷◌, ◌++◌, Option, none, some, ltb,
  leb, if◌then◌else◌,
}
use solo_dual_mode.Text.{codes, trim, is_empty, decimal, to_ascii_lowercase}

-- `id` is the 32 bits of an `i32`. A time is a number.
pub record StratumContext : Type 0 where
  pub remote_port : ℕ
  pub wallet_addr : List ℕ
  pub worker_name : List ℕ
  pub worker_name_supplied : Bool
  pub remote_app : List ℕ
  pub id_bits : ℕ
  pub extranonce : List ℕ
  pub session_uid : ℕ
  pub template_generation : ℕ
  pub last_parent_job_at : Option ℕ
  pub authorized_at : Option ℕ
  pub last_job_sent_at : Option ℕ
  pub session_opened : Bool
  pub vardiff_registered : Bool
  pub disconnecting : Bool

unfoldable pub new : ℕ → ℕ → StratumContext
new remote_port session_uid = record {
  remote_port = remote_port;
  wallet_addr = [];
  worker_name = [];
  worker_name_supplied = false;
  remote_app = [];
  id_bits = 0;
  extranonce = [];
  session_uid = session_uid;
  template_generation = 0;
  last_parent_job_at = none;
  authorized_at = none;
  last_job_sent_at = none;
  session_opened = false;
  vardiff_registered = false;
  disconnecting = false;
}

unfoldable pub connected : StratumContext → Bool
connected ctx = not ctx.disconnecting

-- A positive `i32`, or none.
unfoldable pub id : StratumContext → Option ℕ
id ctx = if ltb 0 ctx.id_bits && ltb ctx.id_bits (2 ^ 31) then some ctx.id_bits else none

unfoldable pub set_id : ℕ → StratumContext → StratumContext
set_id bits ctx = record ctx { id_bits = bits }

unfoldable pub next_template_generation : StratumContext → StratumContext × ℕ
next_template_generation ctx =
    let next = (ctx.template_generation + 1) % 2 ^ 64 in
    (record ctx { template_generation = next }, next)

-- `at.elapsed() < minimum_interval`, where a job was sent.
abbrev pub is_recent : Option ℕ → ℕ → ℕ → Bool
is_recent none minimum_interval now = false
is_recent (some at) minimum_interval now = ltb (now - at) minimum_interval

unfoldable pub mark_parent_job_sent : ℕ → StratumContext → StratumContext
mark_parent_job_sent now ctx = record ctx { last_parent_job_at = some now }

unfoldable pub mark_authorized : ℕ → StratumContext → StratumContext
mark_authorized now ctx = record ctx { authorized_at = some now; last_job_sent_at = none }

unfoldable pub mark_job_sent : ℕ → StratumContext → StratumContext
mark_job_sent now ctx = record ctx { last_job_sent_at = some now }

abbrev pub is_later : Option ℕ → Option ℕ → Bool
is_later (some a) (some j) = leb a j
is_later a j = false

unfoldable pub received_job_since_authorization : StratumContext → Bool
received_job_since_authorization ctx = is_later ctx.authorized_at ctx.last_job_sent_at

unfoldable pub claim_session_open : StratumContext → StratumContext × Bool
claim_session_open ctx = (record ctx { session_opened = true }, not ctx.session_opened)

unfoldable pub claim_vardiff_registration : StratumContext → StratumContext × Bool
claim_vardiff_registration ctx =
    (record ctx { vardiff_registered = true }, not ctx.vardiff_registered)

unfoldable pub release_vardiff_registration : StratumContext → StratumContext × Bool
release_vardiff_registration ctx =
    (record ctx { vardiff_registered = false }, ctx.vardiff_registered)

-- `asic-3`, by the number of the connection or by its port.
unfoldable pub default_name : StratumContext → List ℕ
default_name ctx = elim (id ctx) [
  | some n ↦ codes "asic-" ++ decimal n
  | none ↦ codes "asic-" ++ decimal ctx.remote_port
]

unfoldable pub ensure_default_worker_name : StratumContext → StratumContext
ensure_default_worker_name ctx =
    if is_empty (trim ctx.worker_name) then record ctx { worker_name = default_name ctx } else ctx

unfoldable pub set_authorized_worker_name : List ℕ → StratumContext → StratumContext
set_authorized_worker_name name ctx =
    ensure_default_worker_name
      (record ctx { worker_name_supplied = not (is_empty (trim name)); worker_name = name })

unfoldable pub vardiff_worker_identity : StratumContext → List ℕ
vardiff_worker_identity ctx = if ctx.worker_name_supplied then ctx.worker_name else []

-- `ShareHandler::stats_key`.
unfoldable pub stats_key : StratumContext → List ℕ
stats_key ctx = to_ascii_lowercase (trim ctx.wallet_addr) ++ 0 ∷ vardiff_worker_identity ctx

unfoldable pub disconnect : StratumContext → StratumContext
disconnect ctx = record ctx { disconnecting = true }
