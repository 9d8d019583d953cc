-- ===== src/Submit.antt =====
-- bridge-src/bridge/src/share_handler.rs, `handle_submit`: one submission of a miner, from the
-- request to the reply. `Text` reads the job number and the nonce, `Settle` is what a solved block
-- sets in motion, `Walk` the loop over the jobs that the miner may have meant, and `Handle` the
-- whole handler. The state that a submission can change is the record `Shares`; each mutex of the
-- source is taken one call at a time, and a submission is modelled as running alone. Floating-point
-- numbers are a type `F` with an addition.
pub mod Text
pub mod Settle
pub mod Walk
pub mod Accounts
pub mod Legs
pub mod Once
pub mod Handle
mod Tests
use solo_dual_mode.Prelude.{
  ℕ, zero, suc, ◌+◌, Bool, true, false, List, [], ◌∷◌, ◌++◌, Option, none, some, Key,
}
use solo_dual_mode.Prelude.Dict.{Dict, get, insert}
use solo_dual_mode.Guard.DuplicateSubmit.{DuplicateSubmitGuard}
use solo_dual_mode.Chain.{Block}
use solo_dual_mode.Api.{KaspaApi}

-- The difficulty that a job was published with.
pub record Difficulty (F : Type 0) : Type 0 where
  pub target_value : ℕ
  pub diff_value : F
  pub hash_value : F

-- The counters of `WorkStats` that a submission changes. `last_share` is a time.
pub record WorkStats (F : Type 0) : Type 0 where
  pub shares_found : ℕ
  pub shares_diff : F
  pub stale_shares : ℕ
  pub invalid_shares : ℕ
  pub last_share : ℕ
  pub var_diff_shares_found : ℕ
  pub min_diff : F

pub data ShareRejectReason : Type 0 where
  malformed_frame missing_job stale low_difficulty bad_pow : ShareRejectReason

-- What a submission leaves behind besides the state: the events of the bus, the request for a new
-- job, the disconnection of a rig and the poll for a block's colour.
pub data Effect (F Hash : Type 0) : Type 0 where
  refresh_job disconnect : Effect F Hash
  block_found block_accepted confirm_blue : Hash → Effect F Hash
  share_rejected : ShareRejectReason → Effect F Hash
  share_credited : F → Effect F Hash

pub record Shares (F N K R T Hash : Type 0) : Type 0 where
  pub api : KaspaApi R T Hash
  pub guard : DuplicateSubmitGuard K
  pub stats : Dict N (WorkStats F)
  pub overall : WorkStats F
  pub effects : List (Effect F Hash)

module _ {F N K R T Hash : Type 0} where
  abbrev pub emit : Effect F Hash → Shares F N K R T Hash → Shares F N K R T Hash
  emit e s = record s { effects = s.effects ++ e ∷ [] }

  abbrev pub emit_if : Bool → Effect F Hash → Shares F N K R T Hash → Shares F N K R T Hash
  emit_if true e s = emit e s
  emit_if false e s = s
