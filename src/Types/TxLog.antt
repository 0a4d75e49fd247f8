-- ===== src/Types/TxLog.antt =====
-- `TxLogEntryType`, `TxLogEntry` and its methods (libwallet/src/types.rs).
-- `stored_tx`, a file name made from the slate's id, is that id. `creation_ts` and the time of
-- `update_confirmation_ts` are `Utc::now()`, an argument.
use vcash_wallet.Base.{
  ℕ, Bool, false, Option, none, some, List, [], ◌∷◌, ◌==◌, if◌then◌else◌, add64,
}
use vcash_wallet.Types.Status.{Identifier, Commitment, SlateId, Time}

pub data TxLogEntryType : Type 0 where
  confirmed_coinbase tx_received tx_sent tx_received_cancelled tx_sent_cancelled tx_reverted :
      TxLogEntryType

abbrev pub type_index : TxLogEntryType → ℕ
type_index TxLogEntryType.confirmed_coinbase = 0
type_index TxLogEntryType.tx_received = 1
type_index TxLogEntryType.tx_sent = 2
type_index TxLogEntryType.tx_received_cancelled = 3
type_index TxLogEntryType.tx_sent_cancelled = 4
type_index TxLogEntryType.tx_reverted = 5

-- The derived `==`.
abbrev pub type_eq : TxLogEntryType → TxLogEntryType → Bool
type_eq a b = type_index a == type_index b

-- `StoredProofInfo`: addresses, signatures and the derivation path are opaque.
pub record StoredProofInfo : Type 0 where
  pub receiver_address : ℕ
  pub receiver_signature : Option ℕ
  pub sender_address_path : ℕ
  pub sender_address : ℕ
  pub sender_signature : Option ℕ

pub record TxLogEntry : Type 0 where
  pub parent_key_id : Identifier
  pub id : ℕ
  pub tx_slate_id : Option SlateId
  pub tx_type : TxLogEntryType
  pub creation_ts : Time
  pub confirmation_ts : Option Time
  pub confirmed : Bool
  pub num_inputs : ℕ
  pub num_outputs : ℕ
  pub amount_credited : ℕ
  pub amount_debited : ℕ
  pub fee : Option ℕ
  pub ttl_cutoff_height : Option ℕ
  pub stored_tx : Option SlateId
  pub kernel_excess : Option Commitment
  pub kernel_lookup_min_height : Option ℕ
  pub payment_proof : Option StoredProofInfo
  pub reverted_after : Option ℕ

-- `TxLogEntry::new`
unfoldable pub new_entry : Identifier → TxLogEntryType → ℕ → Time → TxLogEntry
new_entry parent_key_id t id now = record {
  parent_key_id = parent_key_id;
  id = id;
  tx_slate_id = none;
  tx_type = t;
  creation_ts = now;
  confirmation_ts = none;
  confirmed = false;
  num_inputs = 0;
  num_outputs = 0;
  amount_credited = 0;
  amount_debited = 0;
  fee = none;
  ttl_cutoff_height = none;
  stored_tx = none;
  kernel_excess = none;
  kernel_lookup_min_height = none;
  payment_proof = none;
  reverted_after = none;
}

-- The fold of `sum_confirmed`, from an accumulator.
abbrev sum_confirmed_from : ℕ × ℕ → List TxLogEntry → ℕ × ℕ
sum_confirmed_from acc [] = acc
sum_confirmed_from acc (tx ∷ txs) =
    sum_confirmed_from
      (if tx.confirmed
        then (add64 acc.0 tx.amount_credited, add64 acc.1 tx.amount_debited)
        else acc)
      txs

unfoldable pub sum_confirmed : List TxLogEntry → ℕ × ℕ
sum_confirmed txs = sum_confirmed_from (0, 0) txs

unfoldable pub update_confirmation_ts : Time → TxLogEntry → TxLogEntry
update_confirmation_ts now t = record t { confirmation_ts = some now }
