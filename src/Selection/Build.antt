-- ===== src/Selection/Build.antt =====
-- `build_send_tx` and `build_recipient_output` (libwallet/src/internal/selection.rs), as far as the
-- wallet and the private context go. The blinding factors that adding the elements to the slate's
-- transaction gives are arguments: `blinding` of the elements, `keys` of the recipient's output. The
-- token type's text is taken to be a token key: `from_hex` fails on any other.
pub mod Balance
pub mod Received
pub mod Token
use vcash_wallet.Base.{
  ℕ, Bool, true, false, not, Option, none, some, List, [], ◌∷◌, if◌then◌else◌, Outcome, ok, ◌>>=◌,
}
use vcash_wallet.Env.{Env}
use vcash_wallet.Types.Status.{Identifier, Commitment, TokenType, SlateId, Time, OutputStatus}
use vcash_wallet.Types.Output.{OutputData}
use vcash_wallet.Types.TokenOutput.{TokenOutputData}
use vcash_wallet.Types.TxLog.{TxLogEntry, TxLogEntryType, new_entry}
use vcash_wallet.Types.TokenTxLog.{
  TokenTxLogEntry, TokenTxLogEntryType, new_entry as new_token_entry,
}
use vcash_wallet.Types.Context.{Context, new_context, add_input, add_output, add_token_output}
use vcash_wallet.Backend.{
  Wallet, save, save_token, next_child, next_tx_log_id, save_tx_log_entry, save_token_tx_log_entry,
  calc_commit_for_cache,
}
use vcash_wallet.Selection.Errors.{Error}
use vcash_wallet.Selection.Fee.{Request}
use vcash_wallet.Selection.Change.{Part, Change, SendTx, select_send_tx}
use vcash_wallet.Selection.Lock.{SlateView, cutoff, change_output, change_token_output}

-- The loops that store the identifiers of the inputs and of the change outputs.
unfoldable pub add_inputs : List OutputData → Context → Context
unfolding add_input
add_inputs [] c = c
add_inputs (o ∷ os) c = add_inputs os (add_input o.key_id o.mmr_index o.value c)

unfoldable pub add_outputs : List Change → Context → Context
unfolding add_output
add_outputs [] c = c
add_outputs ((amount, id, mmr_index) ∷ cs) c = add_outputs cs (add_output id mmr_index amount c)

module _ (env : Env) (blinding : List Part → ℕ) (fresh_nonce test_nonce : ℕ) (amount : ℕ)
    (is_compact is_invoice use_test_nonce : Bool) where
  -- The private context of a sender.
  unfoldable pub send_context : Identifier → SendTx → Context
  unfolding add_inputs add_outputs new_context
  send_context parent_key_id s = add_outputs s.changes (
      add_inputs s.coins
        (record (new_context fresh_nonce test_nonce (blinding s.parts) 0 parent_key_id
          use_test_nonce is_invoice) { fee = s.fee; amount = amount }))

  -- The context, whose fee becomes the slate's, and the wallet.
  unfoldable pub build_send_tx : Wallet → Request → ℕ → ℕ → Outcome Error (Context × Wallet)
  unfolding send_context
  build_send_tx w r max_outputs change_outputs =
      select_send_tx env w r amount max_outputs change_outputs 0 0 (not is_compact) >>= λ s.
      ok (send_context r.parent_key_id s, s.wallet)

-- What `build_recipient_output` returns, with the wallet after it.
pub record Recipient : Type 0 where
  pub key_id : Identifier
  pub context : Context
  pub entry : Option TxLogEntry
  pub token_entry : Option TokenTxLogEntry
  pub wallet : Wallet

module _ (env : Env) (keys : ℕ × ℕ) (fresh_nonce test_nonce : ℕ) (now : Time) (slate : SlateView)
    (amount fee height : ℕ) (parent_key_id : Identifier) (is_invoice use_test_rng : Bool) where
  abbrev pub recipient_context : Context
  recipient_context =
      record (new_context fresh_nonce test_nonce keys.0 keys.1 parent_key_id use_test_rng
        is_invoice) { amount = amount; fee = fee }

  -- The entries of the two logs for a payment received.
  unfoldable pub received_entry : ℕ → TxLogEntry
  unfolding new_entry
  received_entry log_id = record (new_entry parent_key_id TxLogEntryType.tx_received log_id now) {
    tx_slate_id = some slate.id;
    amount_credited = amount;
    num_outputs = 1;
    ttl_cutoff_height = cutoff slate.ttl_cutoff_height;
    kernel_excess = slate.excess;
    kernel_lookup_min_height = some height;
  }

  unfoldable pub received_token_entry : TokenType → ℕ → TokenTxLogEntry
  unfolding new_token_entry
  received_token_entry token_type log_id =
      record (new_token_entry parent_key_id TokenTxLogEntryType.token_tx_received log_id now) {
        tx_slate_id = some slate.id;
        token_type = token_type;
        token_amount_credited = amount;
        num_token_outputs = 1;
        ttl_cutoff_height = cutoff slate.ttl_cutoff_height;
        kernel_excess = slate.excess;
        kernel_lookup_min_height = some height;
      }

  -- The two branches, for the key of the output and the wallet that has made it.
  unfoldable pub receive_coins : Identifier → Wallet → Recipient
  unfolding received_entry change_output add_output
  receive_coins key_id w =
      let (log_id, w') = next_tx_log_id parent_key_id w in
      let t = received_entry log_id in
      let o =
        change_output env parent_key_id height log_id key_id
          (calc_commit_for_cache env amount key_id) amount in
      record {
        key_id = key_id;
        context = add_output key_id none amount recipient_context;
        entry = some t;
        token_entry = none;
        wallet = save_tx_log_entry t parent_key_id (save o w');
      }

  unfoldable pub receive_tokens : TokenType → Identifier → Wallet → Recipient
  unfolding received_token_entry change_token_output add_token_output
  receive_tokens token_type key_id w =
      let (log_id, w') = next_tx_log_id parent_key_id w in
      let t = received_token_entry token_type log_id in
      let o =
        change_token_output env parent_key_id height log_id token_type false key_id
          (calc_commit_for_cache env amount key_id) amount in
      record {
        key_id = key_id;
        context = add_token_output key_id none amount recipient_context;
        entry = none;
        token_entry = some t;
        wallet = save_token_tx_log_entry t parent_key_id (save_token o w');
      }

  -- From the transaction's new output on, whose blinding factors are `keys`.
  unfoldable pub build_recipient_output : Wallet → Recipient
  unfolding receive_coins receive_tokens next_child
  build_recipient_output w =
      let (key_id, w') = next_child env w in
      elim slate.token_type [
        | none ↦ receive_coins key_id w'
        | some token_type ↦ receive_tokens token_type key_id w'
      ]
