-- ===== src/Selection/Lock/Call.antt =====
-- `lock_tx_context` itself (libwallet/src/internal/selection.rs): its branch for tokens, its branch
-- for coins and the choice between them. `sender_address` is the address at an index of the
-- keychain, `now` the time at which the log entry is made.
use vcash_wallet.Base.{
  ℕ, ◌==◌, Bool, Option, none, some, [], length, if◌then◌else◌, Outcome, ok, err, ◌>>=◌,
}
use vcash_wallet.Env.{Env}
use vcash_wallet.Types.Status.{Identifier, Commitment, TokenType, Time}
use vcash_wallet.Types.TxLog.{TxLogEntry, TxLogEntryType, StoredProofInfo, new_entry}
use vcash_wallet.Types.TokenTxLog.{
  TokenTxLogEntry, TokenTxLogEntryType, new_entry as new_token_entry,
}
use vcash_wallet.Types.Context.{Context}
use vcash_wallet.Backend.{Wallet, next_tx_log_id, save_tx_log_entry, save_token_tx_log_entry}
use vcash_wallet.Selection.Errors.{Error, payment_proof, tx_required}
use vcash_wallet.Selection.Lock.{
  ProofRequest, SlateView, cutoff, lock_excess, cache_commits, lock_inputs, lock_token_inputs,
  write_change, write_token_change,
}

module _ (env : Env) (sender_address : Identifier → ℕ → ℕ) (now : Time) (slate : SlateView)
    (height : ℕ) (context : Context) (excess_override : Option Commitment) where
  -- The proof information that is stored, if the slate asks for a proof.
  abbrev pub proof_info : Option ProofRequest → Option ℕ → Outcome Error (Option StoredProofInfo)
  proof_info none index = ok none
  proof_info (some p) none = err payment_proof
  proof_info (some p) (some index) = ok (
      some (record {
        receiver_address = p.receiver_address;
        receiver_signature = p.receiver_signature;
        sender_address_path = index;
        sender_address = sender_address context.parent_key_id index;
        sender_signature = none;
      }))

  -- The log entry of the transaction: the amounts debited and credited, the proof.
  unfoldable pub sent_entry : ℕ → ℕ → ℕ → Option StoredProofInfo → TxLogEntry
  unfolding new_entry
  sent_entry log_id debited credited proof =
      record (new_entry context.parent_key_id TxLogEntryType.tx_sent log_id now) {
        tx_slate_id = some slate.id;
        stored_tx = some slate.id;
        fee = some context.fee;
        ttl_cutoff_height = cutoff slate.ttl_cutoff_height;
        kernel_excess = lock_excess excess_override slate.excess;
        kernel_lookup_min_height = some height;
        num_inputs = length context.input_ids;
        amount_debited = debited;
        payment_proof = proof;
        num_outputs = length context.output_ids;
        amount_credited = credited;
      }

  unfoldable pub lock_coins : Wallet → Outcome Error Wallet
  unfolding sent_entry
  lock_coins w =
      let parent = context.parent_key_id in
      let log_id = (next_tx_log_id parent w).0 in
      let cache = cache_commits env context.output_ids [] in
      lock_inputs log_id context.input_ids 0 (next_tx_log_id parent w).1 >>= λ debited.
      proof_info slate.payment_proof context.payment_proof_derivation_index >>= λ proof.
      write_change env parent height log_id cache context.output_ids 0 debited.1 >>= λ credited.
      ok (save_tx_log_entry (sent_entry log_id debited.0 credited.0 proof) parent credited.1)

  -- A transaction without token inputs issues a token.
  abbrev pub is_issue : Bool
  is_issue = length context.token_input_ids == 0

  -- The log entry of a transaction of a token: what is debited and credited, of coins and of tokens.
  unfoldable pub sent_token_entry :
      TokenType → ℕ → ℕ × ℕ → ℕ × ℕ → Option StoredProofInfo → TokenTxLogEntry
  unfolding new_token_entry
  sent_token_entry token_type log_id (debited, token_debited) (credited, token_credited) proof =
      record (new_token_entry context.parent_key_id
        (if is_issue then TokenTxLogEntryType.token_issue else TokenTxLogEntryType.token_tx_sent)
        log_id now) {
          tx_slate_id = some slate.id;
          token_type = token_type;
          stored_tx = some slate.id;
          fee = some context.fee;
          ttl_cutoff_height = cutoff slate.ttl_cutoff_height;
          kernel_excess = lock_excess excess_override slate.excess;
          kernel_lookup_min_height = some height;
          num_inputs = length context.input_ids;
          amount_debited = debited;
          num_token_inputs = length context.token_input_ids;
          token_amount_debited = token_debited;
          payment_proof = proof;
          num_outputs = length context.output_ids;
          amount_credited = credited;
          num_token_outputs = length context.token_output_ids;
          token_amount_credited = token_credited;
        }

  unfoldable pub lock_tokens : TokenType → Wallet → Outcome Error Wallet
  unfolding sent_token_entry
  lock_tokens token_type w =
      let parent = context.parent_key_id in
      let log_id = (next_tx_log_id parent w).0 in
      let cache = cache_commits env context.output_ids [] in
      let token_cache = cache_commits env context.token_output_ids [] in
      lock_inputs log_id context.input_ids 0 (next_tx_log_id parent w).1 >>= λ debited.
      lock_token_inputs log_id context.token_input_ids 0 debited.1 >>= λ token_debited.
      proof_info slate.payment_proof context.payment_proof_derivation_index >>= λ proof.
      write_change env parent height log_id cache context.output_ids 0 token_debited.1
      >>= λ credited.
          write_token_change env parent height log_id token_type is_issue token_cache
            context.token_output_ids 0 credited.1
          >>= λ token_credited. ok (
              save_token_tx_log_entry
                (sent_token_entry token_type log_id (debited.0, token_debited.0)
                  (credited.0, token_credited.0) proof)
                parent token_credited.1)

  abbrev pub lock_of : Option TokenType → Wallet → Outcome Error Wallet
  lock_of none w = lock_coins w
  lock_of (some token_type) w = lock_tokens token_type w

  -- The wallet as the batch leaves it, and the error that comes after the batch, where the slate
  -- has no transaction to store.
  unfoldable pub lock_tx_context : Wallet → Outcome Error (Wallet × Option Error)
  unfolding lock_coins lock_tokens
  lock_tx_context w =
      lock_of slate.token_type w >>= λ w'. ok (w', if slate.has_tx then none else some tx_required)
