-- ===== src/Types/TokenOutput.antt =====
-- `TokenOutputData` and its methods (libwallet/src/types.rs).
use vcash_wallet.Base.{
  ℕ, ◌-◌, Bool, true, false, ◌&&◌, ◌||◌, Option, ltb, leb, ◌==◌, if◌then◌else◌, add64,
}
use vcash_wallet.Types.Status.{Identifier, Commitment, TokenType, OutputStatus, status_eq}

pub record TokenOutputData : Type 0 where
  pub root_key_id : Identifier
  pub key_id : Identifier
  pub n_child : ℕ
  pub commit : Option Commitment
  pub token_type : TokenType
  pub mmr_index : Option ℕ
  pub value : ℕ
  pub status : OutputStatus
  pub height : ℕ
  pub lock_height : ℕ
  pub is_token_issue : Bool
  pub tx_log_entry : Option ℕ

unfoldable pub lock : TokenOutputData → TokenOutputData
lock o = record o { status = OutputStatus.locked }

unfoldable pub num_confirmations : TokenOutputData → ℕ → ℕ
num_confirmations o current_height =
    if ltb current_height o.height
    then 0
    else if status_eq o.status OutputStatus.unconfirmed
    then 0
    else add64 1 (current_height - o.height)

unfoldable pub eligible_to_spend : TokenOutputData → ℕ → ℕ → Bool
unfolding num_confirmations
eligible_to_spend o current_height minimum_confirmations =
    if status_eq o.status OutputStatus.spent || status_eq o.status OutputStatus.locked
    then false
    else if ltb current_height o.lock_height
    then false
    else if status_eq o.status OutputStatus.unspent
        && leb minimum_confirmations (num_confirmations o current_height)
    then true
    else if status_eq o.status OutputStatus.unconfirmed && minimum_confirmations == 0
    then true
    else false

-- Unlike that of `OutputData`, this leaves `Reverted` alone.
abbrev unspent_from : OutputStatus → OutputStatus
unspent_from OutputStatus.unconfirmed = OutputStatus.unspent
unspent_from s = s

unfoldable pub mark_unspent : TokenOutputData → TokenOutputData
mark_unspent o = record o { status = unspent_from o.status }

abbrev spent_from : OutputStatus → OutputStatus
spent_from OutputStatus.unspent = OutputStatus.spent
spent_from OutputStatus.locked = OutputStatus.spent
spent_from s = s

unfoldable pub mark_spent : TokenOutputData → TokenOutputData
mark_spent o = record o { status = spent_from o.status }

abbrev reverted_from : OutputStatus → OutputStatus
reverted_from OutputStatus.unspent = OutputStatus.reverted
reverted_from s = s

unfoldable pub mark_reverted : TokenOutputData → TokenOutputData
mark_reverted o = record o { status = reverted_from o.status }
