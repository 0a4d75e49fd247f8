-- ===== src/Updater/Cancel.antt =====
-- `cancel_tx_and_outputs`, `cancel_token_tx_and_outputs` (libwallet/src/internal/updater.rs) and
-- `cancel_tx` (libwallet/src/internal/tx.rs).
pub mod Outputs
pub mod Call
use vcash_wallet.Base.{
  ℕ, Bool, true, false, ◌||◌, Option, none, some, List, [], ◌∷◌, map, if◌then◌else◌, Outcome, ok,
  err,
}
use vcash_wallet.Types.Status.{Identifier, SlateId, OutputStatus, status_eq}
use vcash_wallet.Types.Output.{OutputData}
use vcash_wallet.Types.TokenOutput.{TokenOutputData}
use vcash_wallet.Types.TxLog.{TxLogEntry, TxLogEntryType, type_eq}
use vcash_wallet.Types.TokenTxLog.{TokenTxLogEntry, TokenTxLogEntryType}
use vcash_wallet.Types.TokenTxLog
use vcash_wallet.Env.{Env}
use vcash_wallet.Backend.{
  Wallet, save, delete, save_token, token_delete, save_tx_log_entry, save_token_tx_log_entry,
}
use vcash_wallet.Selection.Errors.{Error, transaction_not_cancellable, transaction_doesnt_exist}
use vcash_wallet.Updater.Query.{
  retrieve_txs, retrieve_token_txs, retrieve_outputs, retrieve_token_outputs,
}

-- An output is deleted if it never came to be, and unlocked if it was locked.
unfoldable pub cancel_output : OutputData → Wallet → Wallet
unfolding save delete
cancel_output o w =
    let w' =
      if status_eq o.status OutputStatus.unconfirmed || status_eq o.status OutputStatus.reverted
      then delete o.key_id o.mmr_index w
      else w in
    if status_eq o.status OutputStatus.locked
    then save (record o { status = OutputStatus.unspent }) w'
    else w'

unfoldable pub cancel_outputs : List OutputData → Wallet → Wallet
unfolding cancel_output
cancel_outputs [] w = w
cancel_outputs (o ∷ os) w = cancel_outputs os (cancel_output o w)

unfoldable pub cancel_token_output : TokenOutputData → Wallet → Wallet
unfolding save_token token_delete
cancel_token_output o w =
    let w' =
      if status_eq o.status OutputStatus.unconfirmed || status_eq o.status OutputStatus.reverted
      then token_delete o.key_id o.mmr_index w
      else w in
    if status_eq o.status OutputStatus.locked
    then save_token (record o { status = OutputStatus.unspent }) w'
    else w'

unfoldable pub cancel_token_outputs : List TokenOutputData → Wallet → Wallet
unfolding cancel_token_output
cancel_token_outputs [] w = w
cancel_token_outputs (o ∷ os) w = cancel_token_outputs os (cancel_token_output o w)

abbrev pub cancelled_type : TxLogEntryType → TxLogEntryType
cancelled_type TxLogEntryType.tx_sent = TxLogEntryType.tx_sent_cancelled
cancelled_type TxLogEntryType.tx_received = TxLogEntryType.tx_received_cancelled
cancelled_type TxLogEntryType.tx_reverted = TxLogEntryType.tx_received_cancelled
cancelled_type t = t

abbrev pub cancelled_token_type : TokenTxLogEntryType → TokenTxLogEntryType
cancelled_token_type TokenTxLogEntryType.token_tx_sent = TokenTxLogEntryType.token_tx_sent_cancelled
cancelled_token_type TokenTxLogEntryType.token_tx_received =
    TokenTxLogEntryType.token_tx_received_cancelled
cancelled_token_type TokenTxLogEntryType.token_tx_reverted =
    TokenTxLogEntryType.token_tx_received_cancelled
cancelled_token_type t = t

unfoldable pub cancel_tx_and_outputs : TxLogEntry → List OutputData → Identifier → Wallet → Wallet
unfolding cancel_outputs save_tx_log_entry
cancel_tx_and_outputs tx outputs parent_key_id w =
    save_tx_log_entry (record tx { tx_type = cancelled_type tx.tx_type }) parent_key_id
      (cancel_outputs outputs w)

unfoldable pub cancel_token_tx_and_outputs :
    TokenTxLogEntry → List OutputData → List TokenOutputData → Identifier → Wallet → Wallet
unfolding cancel_outputs cancel_token_outputs save_token_tx_log_entry
cancel_token_tx_and_outputs tx outputs token_outputs parent_key_id w =
    save_token_tx_log_entry (record tx { tx_type = cancelled_token_type tx.tx_type }) parent_key_id
      (cancel_token_outputs token_outputs (cancel_outputs outputs w))

abbrev pub is_cancellable : TxLogEntryType → Bool
is_cancellable TxLogEntryType.tx_sent = true
is_cancellable TxLogEntryType.tx_received = true
is_cancellable TxLogEntryType.tx_reverted = true
is_cancellable _ = false

abbrev pub is_token_cancellable : TokenTxLogEntryType → Bool
is_token_cancellable TokenTxLogEntryType.token_tx_sent = true
is_token_cancellable TokenTxLogEntryType.token_tx_received = true
is_token_cancellable TokenTxLogEntryType.token_tx_reverted = true
is_token_cancellable _ = false

module _ (env : Env) (parent_key_id : Identifier) where
  -- The only transaction of a query is cancelled, with its outputs.
  unfoldable pub cancel_found : TxLogEntry → Wallet → Outcome Error Wallet
  unfolding cancel_tx_and_outputs
  cancel_found tx w =
      if is_cancellable tx.tx_type
      then if tx.confirmed
        then err transaction_not_cancellable
        else ok (
            cancel_tx_and_outputs tx
              (map (λ m. m.0) (retrieve_outputs env w false (some tx.id) (some parent_key_id)))
              parent_key_id w)
      else err transaction_not_cancellable

  unfoldable pub cancel_token_found : TokenTxLogEntry → Wallet → Outcome Error Wallet
  unfolding cancel_token_tx_and_outputs
  cancel_token_found tx w =
      if is_token_cancellable tx.tx_type
      then if tx.confirmed
        then err transaction_not_cancellable
        else ok (
            cancel_token_tx_and_outputs tx
              (map (λ m. m.0) (retrieve_outputs env w false (some tx.id) (some parent_key_id)))
              (map (λ m. m.0)
                (retrieve_token_outputs env w false (some tx.id) (some parent_key_id)))
              parent_key_id w)
      else err transaction_not_cancellable

  abbrev pub cancel_token_of : List TokenTxLogEntry → Wallet → Outcome Error Wallet
  cancel_token_of [] w = err transaction_doesnt_exist
  cancel_token_of (tx ∷ []) w = cancel_token_found tx w
  cancel_token_of (tx ∷ (_ ∷ _)) w = err transaction_doesnt_exist

  -- The token log is looked at unless one plain transaction fits.
  abbrev pub cancel_of : List TxLogEntry → List TokenTxLogEntry → Wallet → Outcome Error Wallet
  cancel_of [] token_txs w = cancel_token_of token_txs w
  cancel_of (tx ∷ []) token_txs w = cancel_found tx w
  cancel_of (tx ∷ (_ ∷ _)) token_txs w = cancel_token_of token_txs w

  unfoldable pub cancel_tx : Option ℕ → Option SlateId → Wallet → Outcome Error Wallet
  unfolding cancel_found cancel_token_found
  cancel_tx tx_id tx_slate_id w =
      cancel_of (retrieve_txs w tx_id tx_slate_id (some parent_key_id) false)
        (retrieve_token_txs w tx_id tx_slate_id (some parent_key_id) false) w
