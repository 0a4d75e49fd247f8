-- ===== src/Updater/ApplyTokens.antt =====
-- `apply_api_token_outputs`, `refresh_token_output_state` and `refresh_outputs`
-- (libwallet/src/internal/updater.rs).
pub mod Reverted
use vcash_wallet.Base.{
  ℕ, ◌-◌, Bool, true, false, ◌&&◌, ◌||◌, Option, none, some, List, [], ◌∷◌, map, ltb, leb, ◌==◌,
  option_eq, find?, if◌then◌else◌,
}
use vcash_wallet.Env.{Env}
use vcash_wallet.Types.Status.{Identifier, Commitment, TokenType, Time, OutputStatus, status_eq}
use vcash_wallet.Types.TokenOutput.{TokenOutputData, mark_unspent, mark_spent, mark_reverted}
use vcash_wallet.Types.TokenTxLog.{
  TokenTxLogEntry, TokenTxLogEntryType, type_eq, update_confirmation_ts,
}
use vcash_wallet.Backend.{
  Wallet, get_token, save_token, save_token_tx_log_entry, save_last_confirmed_height,
  last_confirmed_height,
}
use vcash_wallet.Updater.Maps.{
  Tracked, OutputMap, ApiOutput, ApiMap, api_get, contains, map_wallet_token_outputs,
  find_reverted_token_kernels,
}
use vcash_wallet.Updater.Apply.{clean_old_unconfirmed, refresh_output_state, time_since}

unfoldable pub confirmed_entry : Time → TokenTxLogEntry → TokenTxLogEntry
unfolding update_confirmation_ts
confirmed_entry now t =
    let back = type_eq t.tx_type TokenTxLogEntryType.token_tx_reverted in
    record (update_confirmation_ts now t) {
      tx_type = if back then TokenTxLogEntryType.token_tx_received else t.tx_type;
      reverted_after = if back then none else t.reverted_after;
      confirmed = true;
    }

abbrev pub is_entry_of : TokenOutputData → Identifier → TokenTxLogEntry → Bool
is_entry_of output parent_key_id t =
    option_eq (some t.id) output.tx_log_entry && t.parent_key_id == parent_key_id

module _ (parent_key_id : Identifier) (height : ℕ) (now : Time) where
  unfoldable pub confirm_transaction : TokenOutputData → Wallet → Wallet
  unfolding confirmed_entry save_token_tx_log_entry
  confirm_transaction output w =
      if status_eq output.status OutputStatus.unconfirmed
        || status_eq output.status OutputStatus.reverted
      then elim (find? (is_entry_of output parent_key_id) (map (λ e. e.1) w.token_tx_log)) [
        | none ↦ w
        | some t ↦ save_token_tx_log_entry (confirmed_entry now t) parent_key_id w
      ]
      else w

  unfoldable pub refresh_present : ApiOutput → TokenOutputData → Wallet → Wallet
  unfolding confirm_transaction mark_unspent save_token
  refresh_present o output w =
      save_token (mark_unspent (record output { height = o.height })) (confirm_transaction output w)

  unfoldable pub refresh_absent : List ℕ → TokenOutputData → Wallet → Wallet
  unfolding mark_spent mark_reverted save_token
  refresh_absent reverted_kernels output w =
      let was_reverted : Bool = elim output.tx_log_entry [
        | none ↦ false
        | some i ↦ contains i reverted_kernels
      ] in
      save_token (if was_reverted then mark_reverted output else mark_spent output) w

  unfoldable pub refresh_output : ApiMap → List ℕ → Commitment × Tracked → Wallet → Wallet
  unfolding refresh_present refresh_absent get_token
  refresh_output api_outputs reverted_kernels (commit, t) w =
      elim (get_token t.key_id t.mmr_index w) [
        | none ↦ w
        | some output ↦ elim (api_get commit api_outputs) [
          | some o ↦ refresh_present o output w
          | none ↦ refresh_absent reverted_kernels output w
        ]
      ]

  unfoldable pub refresh_all : ApiMap → List ℕ → OutputMap → Wallet → Wallet
  unfolding refresh_output
  refresh_all api_outputs reverted_kernels [] w = w
  refresh_all api_outputs reverted_kernels (e ∷ es) w =
      refresh_all api_outputs reverted_kernels es (refresh_output api_outputs reverted_kernels e w)

  unfoldable pub reverted_entry : TokenTxLogEntry → TokenTxLogEntry
  reverted_entry t = record t {
    tx_type = TokenTxLogEntryType.token_tx_reverted;
    reverted_after = time_since now t.confirmation_ts;
    confirmed = false;
  }

  unfoldable pub revert_entries : List ℕ → List TokenTxLogEntry → Wallet → Wallet
  unfolding reverted_entry save_token_tx_log_entry
  revert_entries reverted_kernels [] w = w
  revert_entries reverted_kernels (t ∷ ts) w = revert_entries reverted_kernels ts (
      if contains t.id reverted_kernels && t.parent_key_id == parent_key_id
      then save_token_tx_log_entry (reverted_entry t) parent_key_id w
      else w)

  unfoldable pub apply_api_token_outputs : OutputMap → ApiMap → List ℕ → Wallet → Wallet
  unfolding refresh_all revert_entries save_last_confirmed_height last_confirmed_height
  apply_api_token_outputs wallet_outputs api_outputs reverted_kernels w =
      let w' = refresh_all api_outputs reverted_kernels wallet_outputs w in
      if ltb height (last_confirmed_height w)
      then w
      else save_last_confirmed_height parent_key_id height
          (revert_entries reverted_kernels (map (λ e. e.1) w'.token_tx_log) w')

-- The loop of `refresh_token_output_state` over the token types; `all` is the map of all of them.
module _ (get_outputs : TokenType → List Commitment → ApiMap)
    (get_kernel : Commitment → Option ℕ → Bool) (height : ℕ) (parent_key_id : Identifier)
    (now : Time) where
  unfoldable pub refresh_tokens :
      List (TokenType × OutputMap) → List (TokenType × OutputMap) → Wallet → Wallet
  unfolding apply_api_token_outputs
  refresh_tokens all [] w = w
  refresh_tokens all ((token_type, token_outputs) ∷ ms) w =
      let api_outputs = get_outputs token_type (map (λ e. e.0) token_outputs) in
      let reverted = find_reverted_token_kernels get_kernel w all api_outputs parent_key_id in
      refresh_tokens all ms
        (apply_api_token_outputs parent_key_id height now token_outputs api_outputs reverted w)

  unfoldable pub refresh_token_output_state : Env → Bool → Wallet → Wallet
  unfolding refresh_tokens clean_old_unconfirmed
  refresh_token_output_state env update_all w =
      let wallet_outputs = map_wallet_token_outputs env w parent_key_id update_all in
      clean_old_unconfirmed height (refresh_tokens wallet_outputs wallet_outputs w)

-- `refresh_outputs`, at the height of the node's chain.
unfoldable pub refresh_outputs :
    Env
    → (List Commitment → ApiMap)
    → (Commitment → Option ℕ → Bool)
    → (TokenType → List Commitment → ApiMap)
    → (Commitment → Option ℕ → Bool)
    → ℕ
    → Time
    → Identifier
    → Bool
    → Wallet
    → Wallet
unfolding refresh_output_state refresh_token_output_state
refresh_outputs env get_outputs get_kernel get_token_outputs get_token_kernel height now
      parent_key_id update_all w =
    refresh_token_output_state get_token_outputs get_token_kernel height parent_key_id now env
      update_all
      (refresh_output_state env get_outputs get_kernel height parent_key_id update_all now w)
