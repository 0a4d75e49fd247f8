-- ===== src/Runs/Cancelling.antt =====
-- The open transaction of the example wallet cancelled.
use vcash_wallet.Base.{◌≡◌, ◌⊎◌, refl, false, none, some, [], ◌∷◌, All, ok}
use vcash_wallet.Types.Status.{OutputStatus}
use vcash_wallet.Types.TxLog.{TxLogEntry, TxLogEntryType, new_entry}
use vcash_wallet.Types.TokenTxLog.{TokenTxLogEntry}
use vcash_wallet.Backend.{Wallet, get, save, delete, save_tx_log_entry}
use vcash_wallet.Updater.Query.{retrieve_txs, retrieve_token_txs, retrieve_outputs, retrieved}
use vcash_wallet.Updater.Cancel.{
  cancel_output, cancel_outputs, cancel_tx_and_outputs, cancel_found, cancel_tx,
}
use vcash_wallet.Updater.Cancel.Outputs.{Released, cancel_tx_and_outputs-releases}
use vcash_wallet.Updater.Cancel.Call.{Cancelled, CancelledToken, cancel_tx_cancels}
use vcash_wallet.Runs.{
  env, wallet, locked_coin, change_coin, coin_50, coin_30, stale_coinbase, sent_entry,
}

there : All (λ o. get o.key_id o.mmr_index wallet ≡ some o) (locked_coin ∷ change_coin ∷ [])
unfolding get
there = (refl, (refl, tt))

cancel_tx_and_outputs-releases_example :
    All
      (λ o.
        Released o.key_id o.mmr_index
          (cancel_tx_and_outputs sent_entry (locked_coin ∷ change_coin ∷ []) 1 wallet))
      (locked_coin ∷ change_coin ∷ [])
cancel_tx_and_outputs-releases_example =
    cancel_tx_and_outputs-releases sent_entry (locked_coin ∷ change_coin ∷ []) 1 wallet there

-- The locked coin is unlocked and the change is deleted.
abbrev after_cancel : Wallet
after_cancel = record wallet {
  outputs =
      coin_50
      ∷ coin_30
      ∷ record locked_coin { status = OutputStatus.unspent }
      ∷ stale_coinbase
      ∷ [];
  tx_log = (1, record sent_entry { tx_type = TxLogEntryType.tx_sent_cancelled }) ∷ [];
}

run_cancel : cancel_tx env 1 (some 7) none wallet ≡ ok after_cancel
unfolding cancel_tx cancel_found cancel_tx_and_outputs cancel_outputs cancel_output save delete
    save_tx_log_entry retrieve_txs retrieve_token_txs retrieve_outputs retrieved new_entry
run_cancel = refl

cancel_tx_cancels_example :
    ((t : TxLogEntry) × (retrieve_txs wallet (some 7) none (some 1) false ≡ t ∷ [])
      × Cancelled 1 t after_cancel)
    ⊎ ((t : TokenTxLogEntry) × (retrieve_token_txs wallet (some 7) none (some 1) false ≡ t ∷ [])
        × CancelledToken 1 t after_cancel)
cancel_tx_cancels_example = cancel_tx_cancels env 1 (some 7) none wallet after_cancel run_cancel
