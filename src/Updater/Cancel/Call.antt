-- ===== src/Updater/Cancel/Call.antt =====
-- When `cancel_tx` succeeds and what it writes to the log (libwallet/src/internal/tx.rs).
use vcash_wallet.Base.{
  ℕ, ◌≡◌, ◌⊎◌, inl, inr, refl, subst, true, false, Option, some, List, [], ◌∷◌, arith, find?, map,
  ok,
}
use vcash_wallet.Env.{Env}
use vcash_wallet.Types.Status.{Identifier, SlateId}
use vcash_wallet.Types.TxLog.{TxLogEntry, TxLogEntryType}
use vcash_wallet.Types.TokenTxLog.{TokenTxLogEntry, TokenTxLogEntryType}
use vcash_wallet.Backend.{
  Wallet, has_log_key, has_token_log_key, save_tx_log_entry, save_token_tx_log_entry,
}
use vcash_wallet.Backend.Table.{find?-put_self}
use vcash_wallet.Updater.Query.{
  retrieve_txs, retrieve_token_txs, retrieve_outputs, retrieve_token_outputs,
}
use vcash_wallet.Updater.Cancel.{
  cancelled_type, cancelled_token_type, is_cancellable, is_token_cancellable, cancel_tx_and_outputs,
  cancel_token_tx_and_outputs, cancel_found, cancel_token_found, cancel_of, cancel_tx,
}

-- What a kind of entry becomes when it is cancelled: a sent one is cancelled as sent, a received or
-- a reverted one as received.
pub data CancelsTo : TxLogEntryType → TxLogEntryType → Type 0 where
  sent : CancelsTo TxLogEntryType.tx_sent TxLogEntryType.tx_sent_cancelled
  received : CancelsTo TxLogEntryType.tx_received TxLogEntryType.tx_received_cancelled
  reverted : CancelsTo TxLogEntryType.tx_reverted TxLogEntryType.tx_received_cancelled

pub data CancelsTokenTo : TokenTxLogEntryType → TokenTxLogEntryType → Type 0 where
  sent :
      CancelsTokenTo TokenTxLogEntryType.token_tx_sent TokenTxLogEntryType.token_tx_sent_cancelled
  received :
      CancelsTokenTo TokenTxLogEntryType.token_tx_received
        TokenTxLogEntryType.token_tx_received_cancelled
  reverted :
      CancelsTokenTo TokenTxLogEntryType.token_tx_reverted
        TokenTxLogEntryType.token_tx_received_cancelled

cancellable-CancelsTo :
    (a : TxLogEntryType) → is_cancellable a ≡ true → CancelsTo a (cancelled_type a)
cancellable-CancelsTo TxLogEntryType.tx_sent e = CancelsTo.sent
cancellable-CancelsTo TxLogEntryType.tx_received e = CancelsTo.received
cancellable-CancelsTo TxLogEntryType.tx_reverted e = CancelsTo.reverted
cancellable-CancelsTo TxLogEntryType.confirmed_coinbase e = cc
cancellable-CancelsTo TxLogEntryType.tx_sent_cancelled e = cc
cancellable-CancelsTo TxLogEntryType.tx_received_cancelled e = cc

cancellable-CancelsTokenTo :
    (a : TokenTxLogEntryType)
    → is_token_cancellable a ≡ true
    → CancelsTokenTo a (cancelled_token_type a)
cancellable-CancelsTokenTo TokenTxLogEntryType.token_tx_sent e = CancelsTokenTo.sent
cancellable-CancelsTokenTo TokenTxLogEntryType.token_tx_received e = CancelsTokenTo.received
cancellable-CancelsTokenTo TokenTxLogEntryType.token_tx_reverted e = CancelsTokenTo.reverted
cancellable-CancelsTokenTo TokenTxLogEntryType.token_issue e = cc
cancellable-CancelsTokenTo TokenTxLogEntryType.token_tx_sent_cancelled e = cc
cancellable-CancelsTokenTo TokenTxLogEntryType.token_tx_received_cancelled e = cc

-- The plain entry `t` was open and is now cancelled in the wallet.
abbrev pub Cancelled : Identifier → TxLogEntry → Wallet → Type 0
Cancelled parent_key_id t v =
    (u : TxLogEntryType) × CancelsTo t.tx_type u
    × (t.confirmed ≡ false)
    × (find? (has_log_key parent_key_id t.id) v.tx_log
        ≡ some (parent_key_id, record t { tx_type = u }))

abbrev pub CancelledToken : Identifier → TokenTxLogEntry → Wallet → Type 0
CancelledToken parent_key_id t v =
    (u : TokenTxLogEntryType) × CancelsTokenTo t.tx_type u
    × (t.confirmed ≡ false)
    × (find? (has_token_log_key parent_key_id t.id) v.token_tx_log
        ≡ some (parent_key_id, record t { tx_type = u }))

module _ (env : Env) (parent_key_id : Identifier) where
  cancel_found_cancels :
      (t : TxLogEntry) (w v : Wallet)
      → cancel_found env parent_key_id t w ≡ ok v
      → Cancelled parent_key_id t v
  unfolding cancel_found cancel_tx_and_outputs save_tx_log_entry
  cancel_found_cancels t w v e =
      let kind : is_cancellable t.tx_type ≡ true = ground arith in
      let unconfirmed : t.confirmed ≡ false = ground arith in
      let after : cancel_tx_and_outputs t
            (map (λ m. m.0) (retrieve_outputs env w false (some t.id) (some parent_key_id)))
            parent_key_id w
          ≡ v =
        ground arith in
      (
        cancelled_type t.tx_type,
        cancellable-CancelsTo t.tx_type kind,
        unconfirmed,
        subst
            (λ x.
              find? (has_log_key parent_key_id t.id) x.tx_log
              ≡ some (parent_key_id, record t { tx_type = cancelled_type t.tx_type }))
            after (find?-put_self (has_log_key parent_key_id t.id) _ _ (ground arith)),
      )

  cancel_token_found_cancels :
      (t : TokenTxLogEntry) (w v : Wallet)
      → cancel_token_found env parent_key_id t w ≡ ok v
      → CancelledToken parent_key_id t v
  unfolding cancel_token_found cancel_token_tx_and_outputs save_token_tx_log_entry
  cancel_token_found_cancels t w v e =
      let kind : is_token_cancellable t.tx_type ≡ true = ground arith in
      let unconfirmed : t.confirmed ≡ false = ground arith in
      let after : cancel_token_tx_and_outputs t
            (map (λ m. m.0) (retrieve_outputs env w false (some t.id) (some parent_key_id)))
            (map (λ m. m.0) (retrieve_token_outputs env w false (some t.id) (some parent_key_id)))
            parent_key_id w
          ≡ v =
        ground arith in
      (
        cancelled_token_type t.tx_type,
        cancellable-CancelsTokenTo t.tx_type kind,
        unconfirmed,
        subst
            (λ x.
              find? (has_token_log_key parent_key_id t.id) x.token_tx_log
              ≡ some (parent_key_id, record t { tx_type = cancelled_token_type t.tx_type }))
            after (find?-put_self (has_token_log_key parent_key_id t.id) _ _ (ground arith)),
      )

  cancel_of_cancels :
      (ts : List TxLogEntry) (us : List TokenTxLogEntry) (w v : Wallet)
      → cancel_of env parent_key_id ts us w ≡ ok v
      → ((t : TxLogEntry) × (ts ≡ t ∷ []) × Cancelled parent_key_id t v)
        ⊎ ((t : TokenTxLogEntry) × (us ≡ t ∷ []) × CancelledToken parent_key_id t v)
  cancel_of_cancels (t ∷ []) us w v e = inl (t, refl, cancel_found_cancels t w v e)
  cancel_of_cancels [] [] w v e = cc
  cancel_of_cancels [] (t ∷ []) w v e = inr (t, refl, cancel_token_found_cancels t w v e)
  cancel_of_cancels [] (t ∷ (u ∷ us)) w v e = cc
  cancel_of_cancels (s ∷ (s' ∷ ss)) [] w v e = cc
  cancel_of_cancels (s ∷ (s' ∷ ss)) (t ∷ []) w v e =
      inr (t, refl, cancel_token_found_cancels t w v e)
  cancel_of_cancels (s ∷ (s' ∷ ss)) (t ∷ (u ∷ us)) w v e = cc

  -- A successful `cancel_tx` has found a single plain transaction, or a single token transaction,
  -- for the query; this one was not confirmed, and its entry in the log is now cancelled as sent, if
  -- it was sent, or as received, if it was received or reverted, and otherwise as before.
  pub cancel_tx_cancels :
      (tx_id : Option ℕ) (slate_id : Option SlateId) (w v : Wallet)
      → cancel_tx env parent_key_id tx_id slate_id w ≡ ok v
      → ((t : TxLogEntry) × (retrieve_txs w tx_id slate_id (some parent_key_id) false ≡ t ∷ [])
          × Cancelled parent_key_id t v)
        ⊎ ((t : TokenTxLogEntry) × (retrieve_token_txs w tx_id slate_id (some parent_key_id) false
              ≡ t ∷ [])
            × CancelledToken parent_key_id t v)
  unfolding cancel_tx
  cancel_tx_cancels tx_id slate_id w v e =
      cancel_of_cancels (retrieve_txs w tx_id slate_id (some parent_key_id) false)
        (retrieve_token_txs w tx_id slate_id (some parent_key_id) false) w v e
