-- ===== src/Selection/Lock.antt =====
-- `lock_tx_context` (libwallet/src/internal/selection.rs). A HashMap of cached commitments is a
-- list of its entries. The stored transaction itself is left out; that there is one is a field of
-- the slate.
pub mod Call
pub mod Locked
pub mod Logged
use vcash_wallet.Base.{
  ℕ, ◌+◌, ◌^◌, ◌%◌, Bool, true, false, Option, none, some, List, [], ◌∷◌, ◌==◌, find?, length,
  add64, if◌then◌else◌, Outcome, ok, err, panic, ◌>>=◌, is_some,
}
use vcash_wallet.Env.{Env}
use vcash_wallet.Types.Status.{Identifier, Commitment, TokenType, SlateId, Time, OutputStatus}
use vcash_wallet.Types.Output.{OutputData}
use vcash_wallet.Types.TokenOutput.{TokenOutputData}
use vcash_wallet.Types.TxLog.{TxLogEntry, TxLogEntryType, StoredProofInfo, new_entry}
use vcash_wallet.Types.TokenTxLog.{
  TokenTxLogEntry, TokenTxLogEntryType, new_entry as new_token_entry,
}
use vcash_wallet.Types.Context.{Context, Entry}
use vcash_wallet.Backend.{
  Wallet, get, get_token, save, save_token, lock_output, lock_token_output, next_tx_log_id,
  save_tx_log_entry, save_token_tx_log_entry, calc_commit_for_cache,
}
use vcash_wallet.Backend.Table.{put}
use vcash_wallet.Selection.Errors.{Error, payment_proof, tx_required}

-- The receiver's side of the payment proof in a slate.
pub record ProofRequest : Type 0 where
  pub receiver_address : ℕ
  pub receiver_signature : Option ℕ

-- What the function reads of a slate: `excess` is the result of `calc_excess`, `has_tx` says whether
-- `tx_or_err` succeeds.
pub record SlateView : Type 0 where
  pub id : SlateId
  pub token_type : Option TokenType
  pub ttl_cutoff_height : ℕ
  pub payment_proof : Option ProofRequest
  pub excess : Option Commitment
  pub has_tx : Bool

-- The cached commitment and the amount of each change output.
abbrev pub Cache : Type 0
Cache = List (Identifier × Option Commitment × ℕ)

abbrev pub cutoff : ℕ → Option ℕ
cutoff n = if n == 0 then none else some n

abbrev pub lock_excess : Option Commitment → Option Commitment → Option Commitment
lock_excess none excess = excess
lock_excess (some e) excess = some e

module _ (env : Env) where
  -- Insertion of each output's commitment and amount.
  unfoldable pub cache_commits : List Entry → Cache → Cache
  unfolding calc_commit_for_cache
  cache_commits [] cache = cache
  cache_commits ((id, _, amount) ∷ es) cache =
      cache_commits es
        (put (λ e. e.0 == id) (id, calc_commit_for_cache env amount id, amount) cache)

-- The inputs are locked under a log id; the sum of their values is counted from a start.
unfoldable pub lock_inputs : ℕ → List Entry → ℕ → Wallet → Outcome Error (ℕ × Wallet)
unfolding get lock_output
lock_inputs log_id [] debited w = ok (debited, w)
lock_inputs log_id ((id, mmr_index, _) ∷ es) debited w = elim (get id mmr_index w) [
  | none ↦ panic
  | some coin ↦
      lock_inputs log_id es (add64 debited coin.value)
        (lock_output (record coin { tx_log_entry = some log_id }) w)
]

unfoldable pub lock_token_inputs : ℕ → List Entry → ℕ → Wallet → Outcome Error (ℕ × Wallet)
unfolding get_token lock_token_output
lock_token_inputs log_id [] debited w = ok (debited, w)
lock_token_inputs log_id ((id, mmr_index, _) ∷ es) debited w = elim (get_token id mmr_index w) [
  | none ↦ panic
  | some coin ↦
      lock_token_inputs log_id es (add64 debited coin.value)
        (lock_token_output (record coin { tx_log_entry = some log_id }) w)
]

module _ (env : Env) (parent_key_id : Identifier) (height log_id : ℕ) where
  -- The output for a change amount.
  unfoldable pub change_output : Identifier → Option Commitment → ℕ → OutputData
  change_output id commit amount = record {
    root_key_id = parent_key_id;
    key_id = id;
    n_child = env.last_path_index id;
    commit = commit;
    mmr_index = none;
    value = amount;
    status = OutputStatus.unconfirmed;
    height = height;
    lock_height = 0;
    is_coinbase = false;
    tx_log_entry = some log_id;
  }

  -- The change outputs are written; the sum of their amounts is counted from a start.
  unfoldable pub write_change : Cache → List Entry → ℕ → Wallet → Outcome Error (ℕ × Wallet)
  unfolding change_output save
  write_change cache [] credited w = ok (credited, w)
  write_change cache ((id, _, _) ∷ es) credited w = elim (find? (λ e. e.0 == id) cache) [
    | none ↦ panic
    | some (_, commit, amount) ↦
        write_change cache es (add64 credited amount) (save (change_output id commit amount) w)
  ]

  unfoldable pub change_token_output :
      TokenType → Bool → Identifier → Option Commitment → ℕ → TokenOutputData
  change_token_output token_type is_issue id commit amount = record {
    root_key_id = parent_key_id;
    key_id = id;
    n_child = env.last_path_index id;
    commit = commit;
    token_type = token_type;
    mmr_index = none;
    value = amount;
    status = OutputStatus.unconfirmed;
    height = height;
    lock_height = 0;
    is_token_issue = is_issue;
    tx_log_entry = some log_id;
  }

  unfoldable pub write_token_change :
      TokenType → Bool → Cache → List Entry → ℕ → Wallet → Outcome Error (ℕ × Wallet)
  unfolding change_token_output save_token
  write_token_change token_type is_issue cache [] credited w = ok (credited, w)
  write_token_change token_type is_issue cache ((id, _, _) ∷ es) credited w =
      elim (find? (λ e. e.0 == id) cache) [
        | none ↦ panic
        | some (_, commit, amount) ↦
            write_token_change token_type is_issue cache es (add64 credited amount)
              (save_token (change_token_output token_type is_issue id commit amount) w)
      ]
