-- ===== src/Runs.antt =====
-- A wallet and an environment to run the models on.
mod Sending
mod Tokens
mod Store
mod Refreshing
mod Cancelling
mod Locking
mod Building
mod Reorg
mod Codecs
mod Ciphers
mod Packing
mod Receiving
mod TokenSending
mod Signing
mod Slates
mod Scanning
mod Proofs
use vcash_wallet.Base.{ℕ, ◌+◌, ◌-◌, ◌*◌, ◌%◌, Bool, true, false, Option, none, some, List, [], ◌∷◌}
use vcash_wallet.Env.{Env}
use vcash_wallet.Types.Status.{OutputStatus}
use vcash_wallet.Types.Output.{OutputData}
use vcash_wallet.Types.TokenOutput.{TokenOutputData}
use vcash_wallet.Types.TxLog
use vcash_wallet.Types.TxLog.{TxLogEntry, TxLogEntryType}
use vcash_wallet.Types.TokenTxLog
use vcash_wallet.Types.TokenTxLog.{TokenTxLogEntry, TokenTxLogEntryType}
use vcash_wallet.Backend.{Wallet}
use vcash_wallet.Selection.Fee.{Request}

abbrev pub env : Env
env = record {
  tx_fee = λ inputs outputs kernels token_inputs token_outputs token_kernels.
      (outputs + token_outputs) * 4 + kernels + token_kernels;
  default_base_fee = 1;
  child_id = λ parent i. parent * 100 + i;
  last_path_index = λ key. key % 100;
  commit = λ amount key. amount * 1000 + key;
  coinbase_excess = λ c value. c - value;
  coinbase_maturity = 1000;
  reward = λ height fees. fees + 60;
}

abbrev pub output : ℕ → ℕ → OutputStatus → ℕ → Bool → Option ℕ → OutputData
output key value status height is_coinbase log_id = record {
  root_key_id = 1;
  key_id = key;
  n_child = key % 100;
  commit = none;
  mmr_index = none;
  value = value;
  status = status;
  height = height;
  lock_height = 0;
  is_coinbase = is_coinbase;
  tx_log_entry = log_id;
}

abbrev pub token_output : ℕ → ℕ → OutputStatus → Option ℕ → TokenOutputData
token_output key value status log_id = record {
  root_key_id = 1;
  key_id = key;
  n_child = key % 100;
  commit = none;
  token_type = 9;
  mmr_index = none;
  value = value;
  status = status;
  height = 10;
  lock_height = 0;
  is_token_issue = false;
  tx_log_entry = log_id;
}

abbrev pub coin_50 : OutputData
coin_50 = output 101 50 OutputStatus.unspent 10 false none

abbrev pub coin_30 : OutputData
coin_30 = output 102 30 OutputStatus.unspent 12 false none

abbrev pub locked_coin : OutputData
locked_coin = output 103 20 OutputStatus.locked 12 false (some 7)

abbrev pub stale_coinbase : OutputData
stale_coinbase = output 104 60 OutputStatus.unconfirmed 5 true none

abbrev pub change_coin : OutputData
change_coin = output 105 8 OutputStatus.unconfirmed 100 false (some 7)

abbrev pub token_4 : TokenOutputData
token_4 = token_output 111 4 OutputStatus.unspent none

abbrev pub token_6 : TokenOutputData
token_6 = token_output 112 6 OutputStatus.unspent none

abbrev pub reverted_token : TokenOutputData
reverted_token = token_output 113 5 OutputStatus.reverted (some 3)

-- An open transaction that spends the locked coin.
abbrev pub sent_entry : TxLogEntry
sent_entry = record (TxLog.new_entry 1 TxLogEntryType.tx_sent 7 20) { amount_debited = 20 }

abbrev pub reverted_entry : TokenTxLogEntry
reverted_entry = TokenTxLog.new_entry 1 TokenTxLogEntryType.token_tx_reverted 3 21

abbrev pub wallet : Wallet
wallet = record {
  parent_key_id = 1;
  outputs = coin_50 ∷ coin_30 ∷ locked_coin ∷ stale_coinbase ∷ change_coin ∷ [];
  token_outputs = token_4 ∷ token_6 ∷ reverted_token ∷ [];
  tx_log = (1, sent_entry) ∷ [];
  token_tx_log = (1, reverted_entry) ∷ [];
  child_index = (1, 20) ∷ [];
  tx_log_id = (1, 8) ∷ [];
  confirmed_height = (1, 100) ∷ [];
  acct_paths = record { label = 7; path = 1 } ∷ [];
}

abbrev pub request : Request
request = record {
  current_height = 100;
  minimum_confirmations = 1;
  select_all = false;
  parent_key_id = 1;
}
