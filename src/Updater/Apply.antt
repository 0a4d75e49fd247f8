-- ===== src/Updater/Apply.antt =====
-- `apply_api_outputs`, `refresh_output_state` and `clean_old_unconfirmed`
-- (libwallet/src/internal/updater.rs).
pub mod Statuses
pub mod Refresh
pub mod Height
pub mod Clean
use vcash_wallet.Base.{
  ℕ, ◌-◌, Bool, true, false, not, ◌&&◌, ◌||◌, Option, none, some, List, [], ◌∷◌, map, ltb, leb,
  ◌==◌, option_eq, filter, find?, if◌then◌else◌,
}
use vcash_wallet.Env.{Env}
use vcash_wallet.Types.Status.{Identifier, Commitment, Time, OutputStatus, status_eq}
use vcash_wallet.Types.Output.{OutputData, mark_unspent, mark_spent, mark_reverted}
use vcash_wallet.Types.TxLog.{
  TxLogEntry, TxLogEntryType, type_eq, new_entry, update_confirmation_ts,
}
use vcash_wallet.Backend.{
  Wallet, get, save, delete, next_tx_log_id, save_tx_log_entry, save_last_confirmed_height,
  last_confirmed_height,
}
use vcash_wallet.Updater.Maps.{
  Tracked, OutputMap, ApiOutput, ApiMap, api_get, contains, map_wallet_outputs,
  find_reverted_kernels,
}

-- The log entry of a coinbase output that the chain has confirmed.
unfoldable pub coinbase_entry :
    Env → Identifier → ℕ → Time → Commitment → ℕ → OutputData → TxLogEntry
unfolding new_entry update_confirmation_ts
coinbase_entry env parent_key_id height now commit log_id output =
    update_confirmation_ts now
      (record (new_entry parent_key_id TxLogEntryType.confirmed_coinbase log_id now) {
        confirmed = true;
        amount_credited = output.value;
        amount_debited = 0;
        num_outputs = 1;
        kernel_excess = some (env.coinbase_excess commit output.value);
        kernel_lookup_min_height = some height;
      })

-- The log entry of a transaction that one of its outputs confirms.
unfoldable pub confirmed_entry : Time → TxLogEntry → TxLogEntry
unfolding update_confirmation_ts
confirmed_entry now t =
    let back = type_eq t.tx_type TxLogEntryType.tx_reverted in
    record (update_confirmation_ts now t) {
      tx_type = if back then TxLogEntryType.tx_received else t.tx_type;
      reverted_after = if back then none else t.reverted_after;
      confirmed = true;
    }

abbrev pub is_entry_of : OutputData → Identifier → TxLogEntry → Bool
is_entry_of output parent_key_id t =
    option_eq (some t.id) output.tx_log_entry && t.parent_key_id == parent_key_id

-- How long a transaction had been confirmed; none if the clock went back.
abbrev pub time_since : Time → Option Time → Option ℕ
time_since now none = none
time_since now (some t) = if leb t now then some (now - t) else none

module _ (env : Env) (parent_key_id : Identifier) (height : ℕ) (now : Time) where
  -- A confirmed coinbase output is recorded in the log.
  unfoldable pub record_coinbase : Commitment → OutputData → Wallet → OutputData × Wallet
  unfolding coinbase_entry next_tx_log_id save_tx_log_entry
  record_coinbase commit output w =
      let (log_id, w') = next_tx_log_id parent_key_id w in
      let t = coinbase_entry env parent_key_id height now commit log_id output in
      if output.is_coinbase && status_eq output.status OutputStatus.unconfirmed
      then (record output { tx_log_entry = some log_id }, save_tx_log_entry t parent_key_id w')
      else (output, w)

  -- The transaction that the output is involved in is marked as confirmed.
  unfoldable pub confirm_transaction : OutputData → Wallet → Wallet
  unfolding confirmed_entry save_tx_log_entry
  confirm_transaction output w =
      if not output.is_coinbase
        && (status_eq output.status OutputStatus.unconfirmed
            || status_eq output.status OutputStatus.reverted)
      then elim (find? (is_entry_of output parent_key_id) (map (λ e. e.1) w.tx_log)) [
        | none ↦ w
        | some t ↦ save_tx_log_entry (confirmed_entry now t) parent_key_id w
      ]
      else w

  -- An output that the node has.
  unfoldable pub refresh_present : Commitment → ApiOutput → OutputData → Wallet → Wallet
  unfolding record_coinbase confirm_transaction mark_unspent save
  refresh_present commit o output w =
      let (output', w') = record_coinbase commit output w in
      save (mark_unspent (record output' { height = o.height })) (confirm_transaction output' w')

  -- An output that the node does not have.
  unfoldable pub refresh_absent : List ℕ → OutputData → Wallet → Wallet
  unfolding mark_spent mark_reverted save
  refresh_absent reverted_kernels output w =
      let was_reverted : Bool = elim output.tx_log_entry [
        | none ↦ false
        | some i ↦ contains i reverted_kernels
      ] in
      save
        (if not output.is_coinbase && was_reverted then mark_reverted output else mark_spent output)
        w

  unfoldable pub refresh_output : ApiMap → List ℕ → Commitment × Tracked → Wallet → Wallet
  unfolding refresh_present refresh_absent get
  refresh_output api_outputs reverted_kernels (commit, t) w = elim (get t.key_id t.mmr_index w) [
    | none ↦ w
    | some output ↦ elim (api_get commit api_outputs) [
      | some o ↦ refresh_present commit o output w
      | none ↦ refresh_absent reverted_kernels output w
    ]
  ]

  unfoldable pub refresh_all : ApiMap → List ℕ → OutputMap → Wallet → Wallet
  unfolding refresh_output
  refresh_all api_outputs reverted_kernels [] w = w
  refresh_all api_outputs reverted_kernels (e ∷ es) w =
      refresh_all api_outputs reverted_kernels es (refresh_output api_outputs reverted_kernels e w)

  unfoldable pub reverted_entry : TxLogEntry → TxLogEntry
  reverted_entry t = record t {
    tx_type = TxLogEntryType.tx_reverted;
    reverted_after = time_since now t.confirmation_ts;
    confirmed = false;
  }

  -- The second loop, over the log entries as the first one left them.
  unfoldable pub revert_entries : List ℕ → List TxLogEntry → Wallet → Wallet
  unfolding reverted_entry save_tx_log_entry
  revert_entries reverted_kernels [] w = w
  revert_entries reverted_kernels (t ∷ ts) w = revert_entries reverted_kernels ts (
      if contains t.id reverted_kernels && t.parent_key_id == parent_key_id
      then save_tx_log_entry (reverted_entry t) parent_key_id w
      else w)

  unfoldable pub apply_api_outputs : OutputMap → ApiMap → List ℕ → Wallet → Wallet
  unfolding refresh_all revert_entries save_last_confirmed_height last_confirmed_height
  apply_api_outputs wallet_outputs api_outputs reverted_kernels w =
      let w' = refresh_all api_outputs reverted_kernels wallet_outputs w in
      if ltb height (last_confirmed_height w)
      then w
      else save_last_confirmed_height parent_key_id height
          (revert_entries reverted_kernels (map (λ e. e.1) w'.tx_log) w')

-- Unconfirmed coinbase outputs of more than 50 blocks ago are deleted.
abbrev pub is_stale : ℕ → OutputData → Bool
is_stale height out =
    status_eq out.status OutputStatus.unconfirmed
    && ltb 0 out.height
    && ltb out.height (height - 50)
    && out.is_coinbase

unfoldable pub delete_all : List Identifier → Wallet → Wallet
unfolding delete
delete_all [] w = w
delete_all (id ∷ ids) w = delete_all ids (delete id none w)

unfoldable pub clean_old_unconfirmed : ℕ → Wallet → Wallet
unfolding delete_all
clean_old_unconfirmed height w =
    if ltb height 50
    then w
    else delete_all (map (λ o. o.key_id) (filter (is_stale height) w.outputs)) w

-- `refresh_output_state`: `get_outputs` is `get_outputs_from_node`, asked for the map's commitments.
unfoldable pub refresh_output_state :
    Env
    → (List Commitment → ApiMap)
    → (Commitment → Option ℕ → Bool)
    → ℕ
    → Identifier
    → Bool
    → Time
    → Wallet
    → Wallet
unfolding apply_api_outputs clean_old_unconfirmed
refresh_output_state env get_outputs get_kernel height parent_key_id update_all now w =
    let wallet_outputs = map_wallet_outputs env w parent_key_id update_all in
    let api_outputs = get_outputs (map (λ e. e.0) wallet_outputs) in
    let reverted = find_reverted_kernels get_kernel w wallet_outputs api_outputs parent_key_id in
    clean_old_unconfirmed height
      (apply_api_outputs env parent_key_id height now wallet_outputs api_outputs reverted w)
