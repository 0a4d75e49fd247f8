-- ===== src/Scan.antt =====
-- The scan of the chain for the wallet's outputs (libwallet/src/internal/scan.rs). Messages about its
-- progress and the hash of the returned block are left out; the label that an account gets is a
-- function of its number.
pub mod Collect
pub mod Stages
pub mod Found
pub mod Repaired
pub mod Indices
pub mod Unused
use vcash_wallet.Base.{
  ℕ, ◌+◌, ◌%◌, ◌^◌, Bool, true, false, not, Option, none, some, List, [], ◌∷◌, ltb, ◌==◌, any,
  filter, map, length, if◌then◌else◌,
}
use vcash_wallet.Env.{Env}
use vcash_wallet.Types.Status.{Identifier, Commitment, Time, OutputStatus, status_eq}
use vcash_wallet.Types.Output.{OutputData}
use vcash_wallet.Types.TxLog.{TxLogEntry, TxLogEntryType, new_entry, update_confirmation_ts}
use vcash_wallet.Backend.{
  AcctPathMapping, Wallet, save, delete, next_tx_log_id, save_tx_log_entry, current_child_index,
  save_child_index, calc_commit_for_cache,
}
use vcash_wallet.Backend.Table.{put_count}
use vcash_wallet.Accounts.{set_acct_path}
use vcash_wallet.Updater.Query.{retrieve_outputs, retrieve_txs}

pub record OutputResult : Type 0 where
  pub commit : Commitment
  pub key_id : Identifier
  pub n_child : ℕ
  pub mmr_index : ℕ
  pub value : ℕ
  pub height : ℕ
  pub lock_height : ℕ
  pub is_coinbase : Bool

-- The largest child index that was found below each account: a hash map, as a list in the order in
-- which it is gone through.
abbrev pub FoundParents : Type 0
FoundParents = List (Identifier × ℕ)

abbrev pub found_index : Identifier → FoundParents → Option ℕ
found_index k [] = none
found_index k ((j, n) ∷ m) = if j == k then some n else found_index k m

abbrev pub cancelled_type : TxLogEntryType → TxLogEntryType
cancelled_type TxLogEntryType.tx_sent = TxLogEntryType.tx_sent_cancelled
cancelled_type TxLogEntryType.tx_received = TxLogEntryType.tx_received_cancelled
cancelled_type t = t

-- The entry that is saved again, cancelled.
abbrev pub cancelled_entry : List TxLogEntry → Option TxLogEntry
cancelled_entry [] = none
cancelled_entry (entry ∷ _) = some (record entry { tx_type = cancelled_type entry.tx_type })

abbrev pub save_entry : Option TxLogEntry → Identifier → Wallet → Wallet
save_entry none parent w = w
save_entry (some t) parent w = save_tx_log_entry t parent w

-- The outputs that a scan repairs: those of the wallet, and those that the wallet does not have.
pub record Findings : Type 0 where
  pub missing_outs : List OutputResult
  pub accidental_spend_outs : List OutputData
  pub locked_outs : List OutputData

-- Any output of the wallet with this commitment, the first one.
abbrev pub matched : List (OutputData × Commitment) → OutputResult → Option OutputData
matched [] deffo = none
matched ((o, c) ∷ os) deffo = if c == deffo.commit then some o else matched os deffo

abbrev pub add_finding : OutputResult → Option OutputData → Findings → Findings
add_finding deffo none f = record f { missing_outs = deffo ∷ f.missing_outs }
add_finding deffo (some o) f =
    if status_eq o.status OutputStatus.spent
    then record f { accidental_spend_outs = o ∷ f.accidental_spend_outs }
    else if status_eq o.status OutputStatus.locked
    then record f { locked_outs = o ∷ f.locked_outs }
    else f

-- The loop over the chain's outputs, whose lists are in the chain's order.
unfoldable pub compare_outputs : List (OutputData × Commitment) → List OutputResult → Findings
compare_outputs wallet_outputs [] = record {
  missing_outs = [];
  accidental_spend_outs = [];
  locked_outs = [];
}
compare_outputs wallet_outputs (deffo ∷ deffos) =
    add_finding deffo (matched wallet_outputs deffo) (compare_outputs wallet_outputs deffos)

abbrev pub is_unconfirmed : OutputData → Bool
is_unconfirmed o = status_eq o.status OutputStatus.unconfirmed

abbrev pub is_known : List AcctPathMapping → Identifier → Bool
is_known accounts path = any (λ (a : AcctPathMapping). a.path == path) accounts

-- One round of the last loop: an account that is not known gets a label, and its next child index
-- goes past the largest one that was found.
unfoldable pub restore_account :
    (ℕ → ℕ) → List AcctPathMapping → ℕ → Identifier → ℕ → Wallet → Wallet
unfolding set_acct_path current_child_index save_child_index
restore_account label_of accounts acct_index path max_child_index w =
    let w1 = if is_known accounts path then w else set_acct_path (label_of acct_index) path w in
    if ltb max_child_index (current_child_index path w1)
    then w1
    else save_child_index path ((max_child_index + 1) % 2 ^ 32) w1

-- The accounts are those from before the loop; `acct_index` numbers the new ones.
unfoldable pub restore_accounts :
    (ℕ → ℕ) → List AcctPathMapping → ℕ → FoundParents → Wallet → Wallet
unfolding restore_account
restore_accounts label_of accounts acct_index [] w = w
restore_accounts label_of accounts acct_index ((path, max_child_index) ∷ found) w =
    restore_accounts label_of accounts
      (if is_known accounts path then acct_index else acct_index + 1) found
      (restore_account label_of accounts acct_index path max_child_index w)

-- `parent_path` is that of an identifier.
module _ (env : Env) (parent_path : Identifier → Identifier) (now : Time) where
  unfoldable pub cancel_tx_log_entry : OutputData → Wallet → Wallet
  unfolding save_tx_log_entry
  cancel_tx_log_entry output w =
      let parent_key_id = parent_path output.key_id in
      elim output.tx_log_entry [
        | none ↦ w
        | some id ↦
            save_entry (cancelled_entry (retrieve_txs w (some id) none (some parent_key_id) false))
              parent_key_id w
      ]

  -- Outputs that the chain has are unspent, and their transactions cancelled.
  unfoldable pub mark_unspent_outs : List OutputData → Wallet → Wallet
  unfolding cancel_tx_log_entry save
  mark_unspent_outs [] w = w
  mark_unspent_outs (m ∷ ms) w =
      let o = record m { status = OutputStatus.unspent } in
      mark_unspent_outs ms (save o (cancel_tx_log_entry o w))

  unfoldable pub delete_outs : List OutputData → Wallet → Wallet
  unfolding cancel_tx_log_entry delete
  delete_outs [] w = w
  delete_outs (o ∷ os) w = delete_outs os (delete o.key_id o.mmr_index (cancel_tx_log_entry o w))

  abbrev pub restored_entry : OutputResult → ℕ → TxLogEntry
  restored_entry output log_id =
      let entry_type =
        if output.is_coinbase
        then TxLogEntryType.confirmed_coinbase
        else TxLogEntryType.tx_received in
      update_confirmation_ts now
        (record (new_entry (parent_path output.key_id) entry_type log_id now) {
          confirmed = true;
          amount_credited = output.value;
          num_outputs = 1;
        })

  abbrev pub restored_output : OutputResult → ℕ → OutputData
  restored_output output log_id = record {
    root_key_id = parent_path output.key_id;
    key_id = output.key_id;
    n_child = output.n_child;
    mmr_index = some output.mmr_index;
    commit = calc_commit_for_cache env output.value output.key_id;
    value = output.value;
    status = OutputStatus.unspent;
    height = output.height;
    lock_height = output.lock_height;
    is_coinbase = output.is_coinbase;
    tx_log_entry = some log_id;
  }

  -- The parent is entered with 0 first.
  abbrev pub raise_found : OutputResult → FoundParents → FoundParents
  raise_found output found =
      let parent = parent_path output.key_id in
      elim (found_index parent found) [
        | none ↦ put_count parent output.n_child found
        | some n ↦ if ltb output.n_child n then found else put_count parent output.n_child found
      ]

  -- As `scan` calls it, without statistics.
  unfoldable pub restore_missing_output :
      OutputResult → FoundParents → Wallet → FoundParents × Wallet
  unfolding next_tx_log_id save_tx_log_entry save calc_commit_for_cache new_entry
      update_confirmation_ts
  restore_missing_output output found w =
      let (log_id, w1) = next_tx_log_id (parent_path output.key_id) w in
      let w2 = save_tx_log_entry (restored_entry output log_id) (parent_path output.key_id) w1 in
      (raise_found output found, save (restored_output output log_id) w2)

  unfoldable pub restore_outs : List OutputResult → FoundParents → Wallet → FoundParents × Wallet
  unfolding restore_missing_output
  restore_outs [] found w = (found, w)
  restore_outs (m ∷ ms) found w =
      let (found', w') = restore_missing_output m found w in restore_outs ms found' w'

  -- What `scan` does with the outputs that the chain has.
  unfoldable pub repair : (ℕ → ℕ) → Bool → List OutputResult → Wallet → Wallet
  unfolding retrieve_outputs compare_outputs mark_unspent_outs restore_outs delete_outs
      restore_accounts
  repair label_of delete_unconfirmed chain_outs w =
      let wallet_outputs = retrieve_outputs env w true none none in
      let f = compare_outputs wallet_outputs chain_outs in
      let w1 = mark_unspent_outs f.accidental_spend_outs w in
      let (found, w2) = restore_outs f.missing_outs [] w1 in
      let w3 =
        if delete_unconfirmed
        then delete_outs
            (filter is_unconfirmed (map (λ (m : OutputData × Commitment). m.0) wallet_outputs))
            (mark_unspent_outs f.locked_outs w2)
        else w2 in
      restore_accounts label_of w3.acct_paths (length w3.acct_paths) found w3
