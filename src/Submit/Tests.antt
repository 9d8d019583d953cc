-- ===== src/Submit/Tests.antt =====
-- A small pool at concrete inputs: the loop, whole submissions, and the instances of the theorems.
use solo_dual_mode.Submit.Accounts.{counts}
use solo_dual_mode.Submit.Handle.Outcome.{tally}
use solo_dual_mode.Submit.Handle.Total.{handle_total}
use solo_dual_mode.Prelude.{
  ◌⊎◌, ℕ, ◌+◌, ◌-◌, ◌*◌, ◌%◌, ◌≡◌, refl, true, false, List, [], ◌∷◌, ◌++◌, Option, some, none,
  arith, leb, nat_key, ℕ_discrete,
}
use solo_dual_mode.Prelude.Dict
use solo_dual_mode.Prelude.Fifo.{behind}
use solo_dual_mode.MiningState
use solo_dual_mode.MiningState.{MiningState, Job}
use solo_dual_mode.Guard.{drop_stale, drop_excess}
use solo_dual_mode.Guard.DuplicateSubmit
use solo_dual_mode.Guard.DuplicateSubmit.Invariant.{checks}
use solo_dual_mode.Guard.BlockSubmit
use solo_dual_mode.Merged.Pending
use solo_dual_mode.Merged.Pending.Invariant.{inserts}
use solo_dual_mode.Merged.Branch
use solo_dual_mode.Chain.{
  Header, Block, Consensus, calculate_target, committed_h_fc, assemble_aux_block, with_nonce,
}
use solo_dual_mode.Api
use solo_dual_mode.Api.{Node, KaspaApi, claim_network_solution}
use solo_dual_mode.Api.Settlement.{parent_leg}
use solo_dual_mode.Submit.{Shares, WorkStats, Difficulty}
use solo_dual_mode.Submit.Text.{
  Value, string, number, parse_job_id, from_str_radix, to_digit, digits, remove_0x, final_nonce,
}
use solo_dual_mode.Submit.Settle
use solo_dual_mode.Submit.Settle.{Float, Context, Verdict, valid_share, settle}
use solo_dual_mode.Submit.Walk
use solo_dual_mode.Submit.Walk.Search.{candidates, first_verdict, walk_search}
use solo_dual_mode.Submit.Legs.{Legs, parent_first}
use solo_dual_mode.Submit.Once.{zkas_once}
use solo_dual_mode.Submit.Handle
use solo_dual_mode.Submit.Handle.{Reply, success, judge, submit_once, handle_submit}
use solo_dual_mode.Submit.Handle.Outcome.{Judged, judge_once}
use solo_dual_mode.Submit.Handle.Again.{submit_again}

program : Unit {0}
unfolding Dict.get Dict.insert Dict.remove Dict.contains behind MiningState.new
    MiningState.store_job MiningState.set_stratum_diff MiningState.get_job MiningState.get_job_diff
    MiningState.latest_job MiningState.max_of MiningState.get_stored_job_ids drop_stale drop_excess
    DuplicateSubmit.new DuplicateSubmit.prune DuplicateSubmit.lookup DuplicateSubmit.push_inflight
    DuplicateSubmit.insert_inflight DuplicateSubmit.overwrite DuplicateSubmit.set_outcome
    DuplicateSubmit.check BlockSubmit.new BlockSubmit.prune BlockSubmit.mark BlockSubmit.try_mark
    BlockSubmit.remove Pending.new Pending.evict Pending.store Pending.flag
    Pending.insert_with_payee Pending.get_block Pending.claim_solution Branch.grow
    Branch.next_power_of_two Branch.leaves Branch.next_level Branch.branch_loop
    Branch.coinbase_merkle_branch calculate_target committed_h_fc assemble_aux_block
    Api.merged_fc_target Api.claim_network_solution Api.submit_merged_parent_if_solved
    Api.submit_parent_then_claim_zkas Api.block_to_send Api.send_marked Api.send_once
    Api.submit_block to_digit digits from_str_radix parse_job_id remove_0x final_nonce
    Settle.new_stats Settle.seed_diff Settle.get_create_stats Settle.count_in Settle.reject_share
    Settle.conclude Settle.block_hash Settle.report Settle.announce Settle.mint Settle.settle
    Walk.job_diff Walk.pool_target Walk.is_exhausted Walk.previous Walk.network_target Walk.weigh
    Walk.attempt Walk.walk Handle.reply_again Handle.nonce_param Handle.find_job Handle.refuse_weak
    Handle.credit Handle.finish Handle.judge Handle.submit_once Handle.submit_nonce
    Handle.handle_submit ℕ_discrete candidates first_verdict
program = tt

-- A transaction is a number and commits to itself. The value of a nonce is its distance from the
-- header's rest, and the target of a header is the low part of its bits.
abbrev block : ℕ → ℕ → ℕ → Block ℕ ℕ
block rest target tx = record {
  header = record {
    nonce = 0;
    bits = 50331648 + target;
    timestamp = 0;
    daa_score = 0;
    rest = rest;
  };
  transactions = tx ∷ [];
}

abbrev distance : Header ℕ → ℕ → ℕ
distance h nonce = (nonce - h.rest) + (h.rest - nonce)

abbrev consensus : Consensus ℕ ℕ ℕ
consensus = record {
  check_pow = λ h nonce. (leb (distance h nonce) (h.bits % 16777216), distance h nonce);
  header_hash = λ h. h.rest;
  tx_hash = λ tx. tx;
  merkle_hash = λ l r. 10 * l + r;
  zero_hash = 0;
  committed_hash = λ a. some a.parent_coinbase;
  with_aux_pow = λ h a. h;
}

abbrev node : Node ℕ ℕ
node = record { kaspa_client = some (λ b. Api.success); client = λ b. Api.success }

abbrev job : ℕ → ℕ → Job (Block ℕ ℕ) ℕ
job rest tx = record { block = block rest 2 tx; pre_pow_hash = rest }

-- Job 1 commits to 7 and job 2 to 8.
abbrev mining : MiningState (Job (Block ℕ ℕ) ℕ) (Difficulty ℕ) (Header ℕ)
unfolding program
mining =
    MiningState.store_job
      (MiningState.store_job
        (MiningState.set_stratum_diff (MiningState.new 0)
          (record { target_value = 20; diff_value = 4; hash_value = 3 }))
        1 (job 100 7))
      2 (job 200 8)

-- The ZKas blocks are easier than the parents.
abbrev api : KaspaApi ℕ ℕ ℕ
unfolding program
api = record {
  merged_mining = true;
  pending_fc =
      Pending.insert_with_payee (Pending.insert_with_payee (Pending.new 4) 7 (block 70 5 1) false) 8
        (block 80 5 2) true;
  submit_guard = BlockSubmit.new 600 10;
  sent = [];
}

abbrev stats : WorkStats ℕ
stats = record {
  shares_found = 0;
  shares_diff = 0;
  stale_shares = 0;
  invalid_shares = 0;
  last_share = 0;
  var_diff_shares_found = 0;
  min_diff = 0;
}

abbrev start : Shares ℕ ℕ ℕ ℕ ℕ ℕ
unfolding program
start = record {
  api = api;
  guard = DuplicateSubmit.new 180 50;
  stats = [];
  overall = stats;
  effects = [];
}

abbrev context : ℕ → Context ℕ ℕ ℕ ℕ ℕ ℕ
unfolding program
context now = record {
  float = record { zero_value = 0; add = λ a b. a + b; is_positive = λ a. leb 1 a };
  consensus = consensus;
  node = node;
  stats_key = 5;
  submit_key = λ id nonce. 1000 * id;
  extranonce = [];
  mining = mining;
  identity_ok = true;
  difficulty_ok = λ d. true;
  current_time_ms = 0;
  checked_at = now;
  sent_at = now;
  failed_at = now;
  done_at = now + 1;
}

-- A nonce for job 1 that was submitted for job 2 mints the ZKas block of job 1.
told : Option (Shares ℕ ℕ ℕ ℕ ℕ ℕ × Reply) → Option Reply
told none = none
told (some (s, reply)) = some reply

sent_by : Option (Shares ℕ ℕ ℕ ℕ ℕ ℕ × Reply) → List (Api.Sent ℕ ℕ)
sent_by none = []
sent_by (some (s, reply)) = s.api.sent

request : List Value
request = string (b'a' ∷ []) ∷ number (some 2) ∷ string (b'6' ∷ b'7' ∷ []) ∷ []

mints_job_1 : told (handle_submit (context 10) request start) ≡ some success
unfolding program told request
mints_job_1 = refl

walk_search_example :
    Walk.walk (context 10) 2000 103 8 start 2 0 2 (job 200 8) false
    ≡ first_verdict (context 10) 2000 103 start (2, job 200 8) (candidates mining 8 2 (job 200 8))
unfolding program
walk_search_example = walk_search (context 10) 2000 103 start 2 (job 200 8) refl refl

judge_once_example :
    (s' : Shares ℕ ℕ ℕ ℕ ℕ ℕ) × (reply : Reply) × (judge (context 10) 2000 103 2 (job 200 8) start
      ≡ some (s', reply))
    × Judged (context 10) 2000 start s' reply
unfolding program
judge_once_example = judge_once (context 10) 2000 103 2 (job 200 8) start refl refl

-- A weak nonce for job 2, repeated after another submission.
submit_again_example :
    (s' : Shares ℕ ℕ ℕ ℕ ℕ ℕ) × (reply : Reply) × (submit_once
        (context 10)
        2000
        150
        2
        (job 200 8)
        start
      ≡ some (s', reply))
    × ((t : Shares ℕ ℕ ℕ ℕ ℕ ℕ)
        → t.guard ≡ DuplicateSubmit.Invariant.run ((20, checks 9) ∷ []) s'.guard
        → submit_once (context 100) 2000 150 2 (job 200 8) t
          ≡ some (record t { guard = (DuplicateSubmit.check t.guard 2000 100).0 }, reply))
unfolding program DuplicateSubmit.Once.checks_in DuplicateSubmit.Once.settled_all
submit_again_example =
    submit_again (context 10) (context 100) 2000 150 2 (job 200 8) start ((20, checks 9) ∷ [])
      (record { sound = record { distinct = tt; covered = refl }; synced = refl }) refl refl refl
      (omega arith) (omega arith) (omega arith) ((omega arith, omega arith), tt) (omega arith)
      (λ o. refl)

parent_first_example :
    (s' : Shares ℕ ℕ ℕ ℕ ℕ ℕ) × (verdict : Verdict) × (settle
        (context 10)
        2000
        (block 100 2 7)
        101
        true
        start
      ≡ some (s', verdict))
    × Legs (context 10) 2000 (block 100 2 7) 101 true start (some (s', verdict))
unfolding program
parent_first_example = parent_first (context 10) 2000 (block 100 2 7) 101 true start

zkas_once_example :
    (s' : Shares ℕ ℕ ℕ ℕ ℕ ℕ) × (verdict : Verdict) × (settle
        (context 10)
        2000
        (block 100 2 7)
        101
        true
        start
      ≡ some (s', verdict))
    × ((t : Shares ℕ ℕ ℕ ℕ ℕ ℕ)
        → t.api.merged_mining ≡ true
        → t.api.pending_fc
          ≡ Pending.Invariant.run (inserts 9 (block 90 5 3) false ∷ []) s'.api.pending_fc
        → (api : KaspaApi ℕ ℕ ℕ) × (settle (context 20) 2001 (block 100 2 7) 99 true t
            ≡ some (record t { api = api }, valid_share))
          × (api.sent
              ≡ t.api.sent
                ++ parent_leg consensus node t.api.merged_mining (with_nonce 99 (block 100 2 7))))
unfolding program Pending.Lanes.inserts_in
zkas_once_example =
    zkas_once (context 10) (context 20) 2000 2001 (block 100 2 7) (block 100 2 7) 7 101 99 start
      (inserts 9 (block 90 5 3) false ∷ []) 1 refl refl refl refl (omega arith) refl

handle_total_example :
    (s' : Shares ℕ ℕ ℕ ℕ ℕ ℕ) × (reply : Reply) × (handle_submit (context 10) request start
      ≡ some (s', reply))
    × ((counts s'.overall ≡ counts start.overall)
        ⊎ (counts s'.overall ≡ tally reply (counts start.overall)))
unfolding program
handle_total_example = handle_total (context 10) request start (omega arith) refl
