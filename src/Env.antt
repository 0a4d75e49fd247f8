-- ===== src/Env.antt =====
-- What the wallet calls of other crates (grin_core, grin_keychain, grin_util and the node), as the
-- fields of a record that the models take as a parameter.
use vcash_wallet.Base.{ℕ}
use vcash_wallet.Types.Status.{Identifier, Commitment}

pub record Env : Type 0 where
  -- `libtx::tx_fee` without a base fee: inputs, outputs, kernels, and the same of tokens.
  pub tx_fee : ℕ → ℕ → ℕ → ℕ → ℕ → ℕ → ℕ
  -- `libtx::DEFAULT_BASE_FEE`
  pub default_base_fee : ℕ
  -- The identifier of a child: `to_path`, one level deeper at the index, `from_path`.
  pub child_id : Identifier → ℕ → Identifier
  -- `to_path().last_path_index()`
  pub last_path_index : Identifier → ℕ
  -- `Keychain::commit`, the commitment to an amount under a key.
  pub commit : ℕ → Identifier → Commitment
  -- The excess of a coinbase output: its commitment less the commitment to its value.
  pub coinbase_excess : Commitment → ℕ → Commitment
  -- `global::coinbase_maturity` and `consensus::reward`, of a height and fees.
  pub coinbase_maturity : ℕ
  pub reward : ℕ → ℕ → ℕ
