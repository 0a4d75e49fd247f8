-- ===== src/Types/TokenTxLog.antt =====
-- `TokenTxLogEntryType`, `TokenTxLogEntry` and its methods (libwallet/src/types.rs).
-- `stored_tx`, a file name made from the slate's id, is that id. `creation_ts` and the time of
-- `update_confirmation_ts` are `Utc::now()`, an argument.
use vcash_wallet.Base.{
  ℕ, Bool, false, Option, none, some, List, [], ◌∷◌, ◌==◌, if◌then◌else◌, add64,
}
use vcash_wallet.Types.Status.{Identifier, Commitment, TokenType, SlateId, Time}
use vcash_wallet.Types.TxLog.{StoredProofInfo}

pub data TokenTxLogEntryType : Type 0 where
  token_issue token_tx_received token_tx_sent token_tx_received_cancelled token_tx_sent_cancelled
        token_tx_reverted :
      TokenTxLogEntryType

abbrev pub type_index : TokenTxLogEntryType → ℕ
type_index TokenTxLogEntryType.token_issue = 0
type_index TokenTxLogEntryType.token_tx_received = 1
type_index TokenTxLogEntryType.token_tx_sent = 2
type_index TokenTxLogEntryType.token_tx_received_cancelled = 3
type_index TokenTxLogEntryType.token_tx_sent_cancelled = 4
type_index TokenTxLogEntryType.token_tx_reverted = 5

-- The derived `==`.
abbrev pub type_eq : TokenTxLogEntryType → TokenTxLogEntryType → Bool
type_eq a b = type_index a == type_index b

pub record TokenTxLogEntry : Type 0 where
  pub parent_key_id : Identifier
  pub id : ℕ
  pub tx_slate_id : Option SlateId
  pub tx_type : TokenTxLogEntryType
  pub creation_ts : Time
  pub confirmation_ts : Option Time
  pub confirmed : Bool
  pub num_inputs : ℕ
  pub num_outputs : ℕ
  pub amount_credited : ℕ
  pub amount_debited : ℕ
  pub token_type : TokenType
  pub num_token_inputs : ℕ
  pub num_token_outputs : ℕ
  pub token_amount_credited : ℕ
  pub token_amount_debited : ℕ
  pub fee : Option ℕ
  pub ttl_cutoff_height : Option ℕ
  pub stored_tx : Option SlateId
  pub kernel_excess : Option Commitment
  pub token_kernel_excess : Option Commitment
  pub kernel_lookup_min_height : Option ℕ
  pub payment_proof : Option StoredProofInfo
  pub reverted_after : Option ℕ

-- The number that stands for the token type "".
abbrev pub empty_token_type : TokenType
empty_token_type = 0

-- `TokenTxLogEntry::new`
unfoldable pub new_entry : Identifier → TokenTxLogEntryType → ℕ → Time → TokenTxLogEntry
new_entry parent_key_id t id now = record {
  parent_key_id = parent_key_id;
  id = id;
  tx_slate_id = none;
  tx_type = t;
  creation_ts = now;
  confirmation_ts = none;
  confirmed = false;
  num_inputs = 0;
  num_outputs = 0;
  amount_credited = 0;
  amount_debited = 0;
  token_type = empty_token_type;
  num_token_inputs = 0;
  num_token_outputs = 0;
  token_amount_credited = 0;
  token_amount_debited = 0;
  fee = none;
  ttl_cutoff_height = none;
  stored_tx = none;
  kernel_excess = none;
  token_kernel_excess = none;
  kernel_lookup_min_height = none;
  payment_proof = none;
  reverted_after = none;
}

-- The fold of `sum_confirmed`, from an accumulator.
abbrev sum_confirmed_from : ℕ × ℕ → List TokenTxLogEntry → ℕ × ℕ
sum_confirmed_from acc [] = acc
sum_confirmed_from acc (tx ∷ txs) =
    sum_confirmed_from
      (if tx.confirmed
        then (add64 acc.0 tx.amount_credited, add64 acc.1 tx.amount_debited)
        else acc)
      txs

unfoldable pub sum_confirmed : List TokenTxLogEntry → ℕ × ℕ
sum_confirmed txs = sum_confirmed_from (0, 0) txs

unfoldable pub update_confirmation_ts : Time → TokenTxLogEntry → TokenTxLogEntry
update_confirmation_ts now t = record t { confirmation_ts = some now }
