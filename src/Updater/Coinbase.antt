-- ===== src/Updater/Coinbase.antt =====
-- `receive_coinbase` (libwallet/src/internal/updater.rs) and `retrieve_existing_key`
-- (libwallet/src/internal/keys.rs); `next_available_key` is `next_child` of the store. The output and the kernel that are built
-- for the node are left out.
pub mod Again
use vcash_wallet.Base.{ℕ, Bool, true, Option, none, some, add64}
use vcash_wallet.Env.{Env}
use vcash_wallet.Types.Status.{Identifier, OutputStatus}
use vcash_wallet.Types.Output.{OutputData}
use vcash_wallet.Backend.{Wallet, get, save, next_child, calc_commit_for_cache}

-- `BlockFees`
pub record BlockFees : Type 0 where
  pub fees : ℕ
  pub height : ℕ
  pub key_id : Option Identifier

unfoldable pub retrieve_existing_key : Wallet → Identifier → Option ℕ → Option (Identifier × ℕ)
unfolding get
retrieve_existing_key w key_id mmr_index = elim (get key_id mmr_index w) [
  | none ↦ none
  | some existing ↦ some (existing.key_id, existing.n_child)
]

-- The key for a new coinbase output: the one of the candidate that the fees name, if the wallet has
-- it, else the next one.
unfoldable pub coinbase_key : Env → Option Identifier → Wallet → Identifier × Wallet
unfolding retrieve_existing_key next_child
coinbase_key env none w = next_child env w
coinbase_key env (some id) w = elim (retrieve_existing_key w id none) [
  | none ↦ next_child env w
  | some k ↦ (k.0, w)
]

unfoldable pub receive_coinbase : Env → BlockFees → Wallet → BlockFees × Wallet
unfolding coinbase_key save
receive_coinbase env block_fees w =
    let (key_id, w') = coinbase_key env block_fees.key_id w in
    let amount = env.reward block_fees.height block_fees.fees in
    (
      record block_fees { key_id = some key_id },
      save
          (record {
            root_key_id = w.parent_key_id;
            key_id = key_id;
            n_child = env.last_path_index key_id;
            commit = calc_commit_for_cache env amount key_id;
            mmr_index = none;
            value = amount;
            status = OutputStatus.unconfirmed;
            height = block_fees.height;
            lock_height = add64 block_fees.height env.coinbase_maturity;
            is_coinbase = true;
            tx_log_entry = none;
          })
          w',
    )
