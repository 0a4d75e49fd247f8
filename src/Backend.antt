-- ===== src/Backend.antt =====
-- The wallet's store, impls/src/backends/lmdb.rs. Each kind of record is a list keyed as in the
-- store; what a batch writes is in the state at once, and a call that fails returns no state, as a
-- batch that is dropped writes nothing. Failures of the disk and of the keychain are left out.
-- `iter` yields the store's key order, here the order of the list.
pub mod Table
pub mod Laws
use vcash_wallet.Base.{
  ℕ, ◌+◌, ◌%◌, ◌^◌, Bool, ◌&&◌, Option, some, none, List, ◌==◌, option_eq, filter, find?,
}
use vcash_wallet.Env.{Env}
use vcash_wallet.Types.Status.{Identifier, Commitment}
use vcash_wallet.Types.Output
use vcash_wallet.Types.Output.{OutputData}
use vcash_wallet.Types.TokenOutput
use vcash_wallet.Types.TokenOutput.{TokenOutputData}
use vcash_wallet.Types.TxLog.{TxLogEntry}
use vcash_wallet.Types.TokenTxLog.{TokenTxLogEntry}
use Table.{put, remove, get_count, put_count}

-- `AcctPathMapping` (libwallet/src/types.rs); a label is only compared.
pub record AcctPathMapping : Type 0 where
  pub label : ℕ
  pub path : Identifier

pub record Wallet : Type 0 where
  pub parent_key_id : Identifier
  pub outputs : List OutputData
  pub token_outputs : List TokenOutputData
  -- Log entries, each with the parent key that it is stored under.
  pub tx_log : List (Identifier × TxLogEntry)
  pub token_tx_log : List (Identifier × TokenTxLogEntry)
  -- Per parent key: the next child index, the next log id, the last confirmed height.
  pub child_index : List (Identifier × ℕ)
  pub tx_log_id : List (Identifier × ℕ)
  pub confirmed_height : List (Identifier × ℕ)
  -- The accounts, one for each label.
  pub acct_paths : List AcctPathMapping

-- The key that an output is stored under: its key id and its mmr index, if it has one.
abbrev pub has_key : Identifier → Option ℕ → OutputData → Bool
has_key id mmr_index o = o.key_id == id && option_eq o.mmr_index mmr_index

abbrev pub has_token_key : Identifier → Option ℕ → TokenOutputData → Bool
has_token_key id mmr_index o = o.key_id == id && option_eq o.mmr_index mmr_index

unfoldable pub save : OutputData → Wallet → Wallet
save o w = record w { outputs = put (has_key o.key_id o.mmr_index) o w.outputs }

unfoldable pub save_token : TokenOutputData → Wallet → Wallet
save_token o w = record w {
  token_outputs = put (has_token_key o.key_id o.mmr_index) o w.token_outputs;
}

unfoldable pub get : Identifier → Option ℕ → Wallet → Option OutputData
get id mmr_index w = find? (has_key id mmr_index) w.outputs

unfoldable pub get_token : Identifier → Option ℕ → Wallet → Option TokenOutputData
get_token id mmr_index w = find? (has_token_key id mmr_index) w.token_outputs

unfoldable pub delete : Identifier → Option ℕ → Wallet → Wallet
delete id mmr_index w = record w { outputs = remove (has_key id mmr_index) w.outputs }

unfoldable pub token_delete : Identifier → Option ℕ → Wallet → Wallet
token_delete id mmr_index w = record w {
  token_outputs = remove (has_token_key id mmr_index) w.token_outputs;
}

unfoldable pub lock_output : OutputData → Wallet → Wallet
unfolding save Output.lock
lock_output o w = save (Output.lock o) w

unfoldable pub lock_token_output : TokenOutputData → Wallet → Wallet
unfolding save_token TokenOutput.lock
lock_token_output o w = save_token (TokenOutput.lock o) w

-- A u32 counter for each parent key.
unfoldable pub next_tx_log_id : Identifier → Wallet → ℕ × Wallet
next_tx_log_id parent w =
    let last = get_count parent w.tx_log_id in
    (last, record w { tx_log_id = put_count parent ((last + 1) % 2 ^ 32) w.tx_log_id })

abbrev pub has_log_key : Identifier → ℕ → Identifier × TxLogEntry → Bool
has_log_key parent id e = e.0 == parent && (e.1).id == id

unfoldable pub save_tx_log_entry : TxLogEntry → Identifier → Wallet → Wallet
save_tx_log_entry t parent w = record w {
  tx_log = put (has_log_key parent t.id) (parent, t) w.tx_log;
}

abbrev pub has_token_log_key : Identifier → ℕ → Identifier × TokenTxLogEntry → Bool
has_token_log_key parent id e = e.0 == parent && (e.1).id == id

unfoldable pub save_token_tx_log_entry : TokenTxLogEntry → Identifier → Wallet → Wallet
save_token_tx_log_entry t parent w = record w {
  token_tx_log = put (has_token_log_key parent t.id) (parent, t) w.token_tx_log;
}

unfoldable pub save_last_confirmed_height : Identifier → ℕ → Wallet → Wallet
save_last_confirmed_height parent height w = record w {
  confirmed_height = put_count parent height w.confirmed_height;
}

unfoldable pub last_confirmed_height : Wallet → ℕ
last_confirmed_height w = get_count w.parent_key_id w.confirmed_height

unfoldable pub save_child_index : Identifier → ℕ → Wallet → Wallet
save_child_index parent n w = record w { child_index = put_count parent n w.child_index }

unfoldable pub current_child_index : Identifier → Wallet → ℕ
current_child_index parent w = get_count parent w.child_index

module _ (env : Env) where
  unfoldable pub next_child : Wallet → Identifier × Wallet
  unfolding save_child_index current_child_index
  next_child w =
      let i = current_child_index w.parent_key_id w in
      (env.child_id w.parent_key_id i, save_child_index w.parent_key_id ((i + 1) % 2 ^ 32) w)

  unfoldable pub calc_commit_for_cache : ℕ → Identifier → Option Commitment
  calc_commit_for_cache amount id = some (env.commit amount id)
