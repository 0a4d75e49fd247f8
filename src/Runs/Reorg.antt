-- ===== src/Runs/Reorg.antt =====
-- A refresh of outputs of two token types after a reorganization of the chain.
use vcash_wallet.Base.{
  ℕ, ◌≡◌, refl, true, false, none, some, List, [], ◌∷◌, map, ◌==◌, if◌then◌else◌,
}
use vcash_wallet.Types.Status.{OutputStatus}
use vcash_wallet.Types.TokenOutput.{TokenOutputData, mark_unspent, mark_spent, mark_reverted}
use vcash_wallet.Types.TokenTxLog.{TokenTxLogEntry, TokenTxLogEntryType, new_entry}
use vcash_wallet.Backend.{
  Wallet, get_token, save_token, save_token_tx_log_entry, save_last_confirmed_height,
  last_confirmed_height,
}
use vcash_wallet.Updater.Query.{retrieve_token_txs}
use vcash_wallet.Updater.Maps.{
  ApiOutput, ApiMap, map_wallet_token_outputs, vanished_ids, find_reverted_token_kernels,
}
use vcash_wallet.Updater.Apply.{delete_all, clean_old_unconfirmed}
use vcash_wallet.Updater.ApplyTokens.{
  confirm_transaction, refresh_present, refresh_absent, refresh_output, refresh_all, reverted_entry,
  revert_entries, apply_api_token_outputs, refresh_tokens, refresh_token_output_state,
}
use vcash_wallet.Runs.{env, wallet, token_output}

abbrev seen : ApiOutput
seen = record { height = 101; mmr_index = 4 }

-- A token output of type 8 that the node has, and one of type 9 that vanished with its kernel.
abbrev kept_token : TokenOutputData
kept_token = record (token_output 115 1 OutputStatus.unspent none) { token_type = 8 }

abbrev lost_token : TokenOutputData
lost_token = token_output 116 1 OutputStatus.unspent (some 4)

abbrev lost_entry : TokenTxLogEntry
lost_entry = record (new_entry 1 TokenTxLogEntryType.token_tx_received 4 21) {
  token_kernel_excess = some 66;
}

abbrev forked : List TokenOutputData → Wallet
forked tokens = record wallet {
  token_outputs = tokens;
  token_tx_log = (1, lost_entry) ∷ [];
  outputs = [];
}

abbrev node_tokens : ℕ → List ℕ → ApiMap
node_tokens token_type commits = if token_type == 8 then (1115, seen) ∷ [] else []

abbrev statuses : List TokenOutputData → List OutputStatus
statuses tokens =
    map (λ o. o.status)
      (refresh_token_output_state node_tokens (λ e h. false) 102 1 30 env true
        (forked tokens)).token_outputs

-- The vanished output is reverted if its type comes first. If the other type does, that round has
-- already reverted the log entry, and the output is taken to be spent.
order_of_types :
    (statuses (lost_token ∷ kept_token ∷ []) ≡ OutputStatus.reverted ∷ OutputStatus.unspent ∷ [])
    × (statuses (kept_token ∷ lost_token ∷ []) ≡ OutputStatus.unspent ∷ OutputStatus.spent ∷ [])
unfolding refresh_token_output_state refresh_tokens map_wallet_token_outputs
    find_reverted_token_kernels vanished_ids apply_api_token_outputs refresh_all refresh_output
    refresh_present refresh_absent confirm_transaction mark_unspent mark_spent mark_reverted
    revert_entries reverted_entry save_token get_token save_token_tx_log_entry
    save_last_confirmed_height last_confirmed_height clean_old_unconfirmed delete_all
    retrieve_token_txs new_entry
order_of_types = (refl, refl)
