-- ===== src/Chain.antt =====
-- The chain's data as the bridge reads it, and the two pure readings of it: `calculate_target` of
-- bridge-src/bridge/src/hasher.rs and, of bridge-src/bridge/src/merged.rs, `committed_h_fc` and
-- `assemble_aux_block`. The consensus library is the record `Consensus` of functions. A header has
-- the fields that the bridge reads or writes, and `rest` stands for the others.
use solo_dual_mode.Prelude.{
  ℕ, ◌-◌, ◌*◌, ◌/◌, ◌%◌, ◌^◌, Bool, List, [], ◌∷◌, Option, none, some, map, leb, if◌then◌else◌,
}
use solo_dual_mode.Merged.Branch.{coinbase_merkle_branch}

pub record Header (R : Type 0) : Type 0 where
  pub nonce : ℕ
  pub bits : ℕ
  pub timestamp : ℕ
  pub daa_score : ℕ
  pub rest : R

pub record Block (R T : Type 0) : Type 0 where
  pub header : Header R
  pub transactions : List T

pub record AuxPow (R T Hash : Type 0) : Type 0 where
  pub parent_header : Header R
  pub parent_coinbase : T
  pub coinbase_merkle_branch : List Hash

pub record Consensus (R T Hash : Type 0) : Type 0 where
  -- `kaspa_pow::State::check_pow`: whether the nonce clears the header's own target, and its value.
  pub check_pow : Header R → ℕ → Bool × ℕ
  pub header_hash : Header R → Hash
  pub tx_hash : T → Hash
  pub merkle_hash : Hash → Hash → Hash
  pub zero_hash : Hash
  -- `AuxPow::committed_hash` and `Header::with_aux_pow`.
  pub committed_hash : AuxPow R T Hash → Option Hash
  pub with_aux_pow : Header R → AuxPow R T Hash → Header R

-- The target that compact bits stand for: a mantissa of three bytes and an exponent of one.
unfoldable pub calculate_target : ℕ → ℕ
calculate_target bits =
    let exponent = bits / 2 ^ 24 in
    let mantissa = bits % 2 ^ 24 in
    if leb exponent 3
    then mantissa / 2 ^ (8 * (3 - exponent))
    else mantissa * 2 ^ (8 * (exponent - 3))

-- The solved block: the job's block with the submitted nonce.
abbrev pub with_nonce : {R T : Type 0} → ℕ → Block R T → Block R T
with_nonce nonce block = record block { header = record block.header { nonce = nonce } }

-- The proof that a parent carries, with a branch of its coinbase.
abbrev pub aux_pow : {R T Hash : Type 0} → Header R → T → List Hash → AuxPow R T Hash
aux_pow header coinbase branch = record {
  parent_header = header;
  parent_coinbase = coinbase;
  coinbase_merkle_branch = branch;
}

module _ {R T Hash : Type 0} where
  unfoldable pub committed_h_fc : Consensus R T Hash → Block R T → Option Hash
  committed_h_fc c parent = elim parent.transactions [
    | [] ↦ none
    | coinbase ∷ others ↦ c.committed_hash (aux_pow parent.header coinbase [])
  ]

  -- `none` is the panic of the index on a parent without a transaction.
  unfoldable pub assemble_aux_block :
      Consensus R T Hash → Block R T → Block R T → Option (Block R T)
  assemble_aux_block c parent fc_block = elim parent.transactions [
    | [] ↦ none
    | coinbase ∷ others ↦
        let branch =
          coinbase_merkle_branch c.merkle_hash c.zero_hash (map c.tx_hash parent.transactions) in
        let aux = aux_pow parent.header coinbase branch in
        some (record fc_block { header = c.with_aux_pow fc_block.header aux })
  ]
