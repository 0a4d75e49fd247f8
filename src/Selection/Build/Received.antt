-- ===== src/Selection/Build/Received.antt =====
-- The output of a payment received (`build_recipient_output`, libwallet/src/internal/selection.rs).
use vcash_wallet.Base.{
  ℕ, ◌≡◌, refl, false, Bool, ◌&&◌, ◌==◌, Option, none, some, arith, find?, option_eq, if◌then◌else◌,
}
use vcash_wallet.Env.{Env}
use vcash_wallet.Types.Status.{Identifier, OutputStatus, Time}
use vcash_wallet.Types.TxLog.{TxLogEntry, TxLogEntryType, new_entry}
use vcash_wallet.Backend.{
  Wallet, get, save, has_log_key, next_child, save_child_index, next_tx_log_id, save_tx_log_entry,
  calc_commit_for_cache,
}
use vcash_wallet.Backend.Table.{find?-put_self}
use vcash_wallet.Backend.Laws.{get-save}
use vcash_wallet.Selection.Lock.{SlateView, change_output}
use vcash_wallet.Selection.Build.{Recipient, received_entry, receive_coins, build_recipient_output}

module _ (env : Env) (keys : ℕ × ℕ) (fresh_nonce test_nonce : ℕ) (now : Time) (slate : SlateView)
    (amount fee height : ℕ) (parent_key_id : Identifier) (is_invoice use_test_rng : Bool)
    (w : Wallet) where
  abbrev pub recipient : Recipient
  recipient =
      build_recipient_output env keys fresh_nonce test_nonce now slate amount fee height
        parent_key_id is_invoice use_test_rng w

  abbrev pub new_log_id : ℕ
  new_log_id = (next_tx_log_id parent_key_id (next_child env w).1).0

  -- Where the slate has no token type: after `build_recipient_output` the new key reads an
  -- unconfirmed output of the slate's amount with the new log id, every other key reads as before,
  -- and the log has an unconfirmed entry of a payment received under that id, of the slate, that
  -- credits the amount for one output and debits nothing.
  pub build_recipient_output_receives :
      (id : Identifier) (m : Option ℕ)
      → slate.token_type ≡ none
      → (get id m recipient.wallet ≡ (
          if recipient.key_id == id && option_eq none m
          then some (record {
            root_key_id = parent_key_id;
            key_id = recipient.key_id;
            n_child = env.last_path_index recipient.key_id;
            commit = some (env.commit amount recipient.key_id);
            mmr_index = none;
            value = amount;
            status = OutputStatus.unconfirmed;
            height = height;
            lock_height = 0;
            is_coinbase = false;
            tx_log_entry = some new_log_id;
          })
          else get id m w))
        × (t : TxLogEntry) × (find? (has_log_key parent_key_id new_log_id) recipient.wallet.tx_log
            ≡ some (parent_key_id, t))
        × (t.tx_type ≡ TxLogEntryType.tx_received)
        × (t.tx_slate_id ≡ some slate.id)
        × (t.confirmed ≡ false)
        × (t.amount_credited ≡ amount)
        × (t.amount_debited ≡ 0)
        × (t.num_outputs ≡ 1)
  unfolding build_recipient_output receive_coins get save next_child save_child_index next_tx_log_id
      save_tx_log_entry calc_commit_for_cache change_output received_entry new_entry
  build_recipient_output_receives id m plain =
      let k = (next_child env w).0 in
      let o =
        change_output env parent_key_id height new_log_id k (some (env.commit amount k)) amount in
      let t =
        received_entry env keys fresh_nonce test_nonce now slate amount fee height parent_key_id
          is_invoice use_test_rng new_log_id in
      rw plain (
        get-save id m o w,
        t,
        find?-put_self (has_log_key parent_key_id new_log_id) (parent_key_id, t) w.tx_log
            (ground arith),
        refl,
        refl,
        refl,
        refl,
        refl,
        refl,
      )
