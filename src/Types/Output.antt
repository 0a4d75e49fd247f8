-- ===== src/Types/Output.antt =====
-- `OutputData` and its methods (libwallet/src/types.rs).
pub mod Spending
use vcash_wallet.Base.{
  ℕ, ◌-◌, Bool, true, false, ◌&&◌, ◌||◌, Option, ltb, leb, ◌==◌, if◌then◌else◌, add64,
}
use vcash_wallet.Types.Status.{Identifier, Commitment, OutputStatus, status_eq}

pub record OutputData : Type 0 where
  pub root_key_id : Identifier
  pub key_id : Identifier
  pub n_child : ℕ
  pub commit : Option Commitment
  pub mmr_index : Option ℕ
  pub value : ℕ
  pub status : OutputStatus
  pub height : ℕ
  pub lock_height : ℕ
  pub is_coinbase : Bool
  pub tx_log_entry : Option ℕ

unfoldable pub lock : OutputData → OutputData
lock o = record o { status = OutputStatus.locked }

unfoldable pub num_confirmations : OutputData → ℕ → ℕ
num_confirmations o current_height =
    if ltb current_height o.height
    then 0
    else if status_eq o.status OutputStatus.unconfirmed
    then 0
    else add64 1 (current_height - o.height)

unfoldable pub eligible_to_spend : OutputData → ℕ → ℕ → Bool
unfolding num_confirmations
eligible_to_spend o current_height minimum_confirmations =
    if (status_eq o.status OutputStatus.spent || status_eq o.status OutputStatus.locked)
      || (status_eq o.status OutputStatus.unconfirmed && o.is_coinbase)
      || ltb current_height o.lock_height
    then false
    else (status_eq o.status OutputStatus.unspent
        && leb minimum_confirmations (num_confirmations o current_height))
      || (status_eq o.status OutputStatus.unconfirmed && minimum_confirmations == 0)

abbrev unspent_from : OutputStatus → OutputStatus
unspent_from OutputStatus.unconfirmed = OutputStatus.unspent
unspent_from OutputStatus.reverted = OutputStatus.unspent
unspent_from s = s

unfoldable pub mark_unspent : OutputData → OutputData
mark_unspent o = record o { status = unspent_from o.status }

abbrev spent_from : OutputStatus → OutputStatus
spent_from OutputStatus.unspent = OutputStatus.spent
spent_from OutputStatus.locked = OutputStatus.spent
spent_from s = s

unfoldable pub mark_spent : OutputData → OutputData
mark_spent o = record o { status = spent_from o.status }

abbrev reverted_from : OutputStatus → OutputStatus
reverted_from OutputStatus.unspent = OutputStatus.reverted
reverted_from s = s

unfoldable pub mark_reverted : OutputData → OutputData
mark_reverted o = record o { status = reverted_from o.status }
