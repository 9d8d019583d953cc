-- ===== src/Jobs/Tests.antt =====
-- A rig that gets its first job, and one whose difficulty has moved.
use solo_dual_mode.Prelude.{
  ℕ, ◌+◌, ◌^◌, ◌≡◌, refl, Bool, true, false, List, [], ◌∷◌, Option, none, some, arith, length,
  replicate,
}
use solo_dual_mode.Text.{codes, is_empty}
use solo_dual_mode.Miner.{is_iceriver, names_iceriver}
use solo_dual_mode.Chain.{Header, Block}
use solo_dual_mode.Hasher.{hex}
use solo_dual_mode.Session.{StratumContext, new, connected, stats_key}
use solo_dual_mode.Vardiff.{SessionStats}
use solo_dual_mode.Vardiff.Thousandths.{ops}
use solo_dual_mode.Jobs.{KaspaDiff, fetched, Sender, Lane, kaspa_diff, fetch_template, restore_diff}
use solo_dual_mode.Jobs.Handlers.{send_immediate_job_to_client, new_block}
use solo_dual_mode.Jobs.Steps.{IsOffered}
use solo_dual_mode.Jobs.Immediate.{immediate-IsOffered}
use solo_dual_mode.Jobs.Parent.{Parents, Event, begins, ends, announces, authorizes}
use solo_dual_mode.Jobs.NewBlock.{moved_diff, block-IsOffered}

abbrev header : Header ℕ
header = record { nonce = 0; bits = 2 ^ 29; timestamp = 1000; daa_score = 5; rest = 0 }

abbrev block : Block ℕ ℕ
block = record { header = header; transactions = 1 ∷ [] }

abbrev hash : List ℕ
hash = replicate 32 7

abbrev sender : Sender ℕ ℕ ℕ
sender = record {
  ops = ops;
  fract = λ x. 0;
  as_u64 = λ x. x;
  diff_to_target = λ x. 2 ^ 224;
  min_share_diff = 8_192_000;
  port_seeds = [];
  fetch = λ wallet app canxium uid generation payout. fetched block;
  serialize = λ b. some hash;
  to_string = hex;
  encode = hex;
  accepts = λ n. true;
}

abbrev rig : StratumContext
rig = record (new 5555 1) { wallet_addr = codes "zkas:q"; remote_app = codes "IceRiver" }

abbrev lane : Lane ℕ ℕ ℕ
lane = record {
  ctx = rig;
  local_port = 5555;
  canxium_addr = [];
  kas_payout = none;
  mining = solo_dual_mode.MiningState.new 0;
  stats = [];
  wire = [];
}

rig_connected : connected lane.ctx ≡ true
unfolding connected new
rig_connected = refl

rig_fetched : (fetch_template sender lane).1 ≡ fetched block
unfolding fetch_template
rig_fetched = refl

immediate-IsOffered_example :
    let told = (restore_diff sender 10 lane).1 in
    IsOffered sender
      (is_iceriver lane.ctx.remote_app)
      told
      (kaspa_diff sender told)
      block
      hash
      10
      lane
      (send_immediate_job_to_client sender 10 lane)
unfolding solo_dual_mode.MiningState.new
immediate-IsOffered_example =
    immediate-IsOffered sender (λ n. refl) 10 lane block hash refl rig_connected rig_fetched refl
      refl (omega arith)

abbrev entry : SessionStats ℕ
entry = record {
  var_diff_start_time = some 5;
  var_diff_shares_found = 0;
  var_diff_window = 0;
  min_diff = 16_384_000;
  active_connections = 1;
  last_session_activity = 5;
}

-- The difficulty in force is half of the one in the statistics.
abbrev old_diff : KaspaDiff ℕ
old_diff = record { hash_value = 0; diff_value = 8_192_000; target_value = 2 ^ 211 }

abbrev moved : Lane ℕ ℕ ℕ
moved = record lane {
  mining = record (solo_dual_mode.MiningState.new 0) {
    initialized = true;
    stratum_diff = some old_diff;
  };
  stats = (stats_key rig, entry) ∷ [];
}

moved_fetched : (fetch_template sender moved).1 ≡ fetched block
unfolding fetch_template
moved_fetched = refl

has_moved :
    ops.eq (moved_diff sender 10 8_192_000 (fetch_template sender moved).0) 8_192_000 ≡ false
unfolding solo_dual_mode.Jobs.Handlers.recover_diff solo_dual_mode.Vardiff.get_client_vardiff
    solo_dual_mode.Prelude.Dict.get restore_diff solo_dual_mode.Vardiff.register_client_vardiff
    solo_dual_mode.Prelude.Dict.insert solo_dual_mode.Vardiff.get_create_stats fetch_template
    solo_dual_mode.Text.text_dec stats_key solo_dual_mode.Text.to_ascii_lowercase
    solo_dual_mode.Text.trim solo_dual_mode.Text.trim_end solo_dual_mode.Text.trim_start
    solo_dual_mode.Session.next_template_generation solo_dual_mode.Prelude.ℕ_discrete
    solo_dual_mode.Session.vardiff_worker_identity solo_dual_mode.Jobs.seed_for_port
    solo_dual_mode.Vardiff.new_stats solo_dual_mode.Vardiff.set_client_vardiff
    solo_dual_mode.Vardiff.start_client_vardiff new
has_moved = refl

block-IsOffered_example :
    let told = moved_diff sender 10 8_192_000 (fetch_template sender moved).0 in
    IsOffered sender
      (names_iceriver moved.ctx.remote_app)
      told
      old_diff
      block
      hash
      10
      moved
      (new_block sender 10 moved)
unfolding solo_dual_mode.MiningState.new
block-IsOffered_example =
    block-IsOffered sender (λ n. refl) 10 moved block hash old_diff refl rig_connected moved_fetched
      refl refl (omega arith) refl refl has_moved

abbrev parents : Parents ℕ ℕ ℕ
parents = record {
  consensus = record {
    check_pow = λ h n. (true, n);
    header_hash = λ h. h.nonce;
    tx_hash = λ t. t;
    merkle_hash = λ a b. a + b;
    zero_hash = 0;
    committed_hash = λ a. some 9;
    with_aux_pow = λ h a. h;
  };
  same = λ a b. true;
  paid_pool = λ b. false;
  refresh = λ b payee. some (some b);
  legacy_ms = 1000;
  common_ms = 500;
}

-- A refresh that comes too early is refused.
abbrev schedule : List Event
schedule =
    authorizes 1000
    ∷ begins 2000
    ∷ announces 2100
    ∷ ends 2200 true
    ∷ begins 2300
    ∷ ends 2400 true
    ∷ begins 2900
    ∷ ends 3000 true
    ∷ []
