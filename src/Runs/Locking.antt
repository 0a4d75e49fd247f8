-- ===== src/Runs/Locking.antt =====
-- The coins of a transaction of the example wallet locked.
use vcash_wallet.Base.{ℕ, ◌≡◌, refl, true, false, none, some, [], ◌∷◌, arith, find?, ok, ◌+◌, ◌++◌}
use vcash_wallet.Types.Status.{Identifier, OutputStatus}
use vcash_wallet.Types.Output
use vcash_wallet.Types.Output.{OutputData}
use vcash_wallet.Types.TxLog.{TxLogEntry, TxLogEntryType, new_entry}
use vcash_wallet.Types.Context.{Context}
use vcash_wallet.Backend.{
  Wallet, get, save, lock_output, has_log_key, next_tx_log_id, save_tx_log_entry,
}
use vcash_wallet.Selection.Lock.{SlateView, cache_commits, lock_inputs, change_output, write_change}
use vcash_wallet.Selection.Lock.Call.{sent_entry, lock_coins, lock_tx_context}
use vcash_wallet.Selection.Lock.Logged.{get-lock_tx_context, lock_tx_context_logs}
use vcash_wallet.Runs.{
  env, wallet, output, coin_50, coin_30, locked_coin, stale_coinbase, change_coin,
}

abbrev context : Context
context = record {
  parent_key_id = 1;
  sec_key = 11;
  token_sec_key = 12;
  sec_nonce = 13;
  initial_sec_key = 11;
  initial_sec_nonce = 13;
  output_ids = (120, none, 31) ∷ [];
  input_ids = (101, none, 50) ∷ (102, none, 30) ∷ [];
  token_output_ids = [];
  token_input_ids = [];
  amount = 40;
  fee = 9;
  payment_proof_derivation_index = none;
  is_invoice = false;
  calculated_excess = none;
}

abbrev slate : SlateView
slate = record {
  id = 77;
  token_type = none;
  ttl_cutoff_height = 0;
  payment_proof = none;
  excess = some 5;
  has_tx = true;
}

abbrev address : Identifier → ℕ → ℕ
address parent index = parent + index

abbrev change_31 : OutputData
change_31 = record (output 120 31 OutputStatus.unconfirmed 100 false (some 8)) {
  commit = some 31120;
}

abbrev after_lock : Wallet
after_lock = record wallet {
  outputs =
      record coin_50 { status = OutputStatus.locked; tx_log_entry = some 8 }
      ∷ record coin_30 { status = OutputStatus.locked; tx_log_entry = some 8 }
      ∷ locked_coin
      ∷ stale_coinbase
      ∷ change_coin
      ∷ change_31
      ∷ [];
  tx_log =
      (wallet.tx_log) ++ ((1, sent_entry env address 40 slate 100 context none 8 80 31 none) ∷ []);
  tx_log_id = (1, 9) ∷ [];
}

run_lock : lock_tx_context env address 40 slate 100 context none wallet ≡ ok (after_lock, none)
unfolding lock_tx_context lock_coins lock_inputs write_change cache_commits change_output save
    lock_output Output.lock next_tx_log_id save_tx_log_entry sent_entry get new_entry
run_lock = refl

get-lock_tx_context_example :
    get 101 none after_lock
    ≡ some (record coin_50 { status = OutputStatus.locked; tx_log_entry = some 8 })
unfolding get next_tx_log_id
get-lock_tx_context_example =
    get-lock_tx_context env address 40 slate 100 context none wallet after_lock none 101 none refl
      run_lock refl

lock_tx_context_logs_example :
    (t : TxLogEntry) × (find? (has_log_key 1 8) after_lock.tx_log ≡ some (1, t))
    × (t.tx_type ≡ TxLogEntryType.tx_sent)
    × (t.tx_slate_id ≡ some 77)
    × (t.confirmed ≡ false)
    × (t.amount_debited ≡ 80)
    × (t.fee ≡ some 9)
    × (t.num_inputs ≡ 2)
    × (t.num_outputs ≡ 1)
unfolding get next_tx_log_id
lock_tx_context_logs_example =
    lock_tx_context_logs env address 40 slate 100 context none wallet after_lock none refl
      (omega arith) run_lock
