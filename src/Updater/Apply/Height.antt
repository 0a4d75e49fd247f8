-- ===== src/Updater/Apply/Height.antt =====
-- The last confirmed height in `apply_api_outputs` (libwallet/src/internal/updater.rs).
use vcash_wallet.Base.{
  ℕ, ◌≡◌, ◌≤◌, refl, ◌∙◌, not, ◌&&◌, List, [], ◌∷◌, arith, ◌==◌, if◌then◌else◌, map, ltb,
}
use vcash_wallet.Env.{Env}
use vcash_wallet.Types.Status.{Identifier, Commitment, Time}
use vcash_wallet.Types.TxLog.{TxLogEntry}
use vcash_wallet.Backend.{
  Wallet, save, next_tx_log_id, save_tx_log_entry, save_last_confirmed_height,
  last_confirmed_height,
}
use vcash_wallet.Updater.Maps.{Tracked, OutputMap, ApiMap, contains}
use vcash_wallet.Updater.Apply.{
  record_coinbase, confirm_transaction, refresh_present, refresh_absent, refresh_output,
  refresh_all, reverted_entry, revert_entries, apply_api_outputs,
}
use vcash_wallet.Backend.Table.{get_count, get_count-put_count}

module _ (env : Env) (parent_key_id : Identifier) (height : ℕ) (now : Time) where
  refresh_output-height :
      (api : ApiMap) (ids : List ℕ) (e : Commitment × Tracked) (w : Wallet)
      → (refresh_output env parent_key_id height now api ids e w).confirmed_height
        ≡ w.confirmed_height
  unfolding refresh_output refresh_present refresh_absent record_coinbase confirm_transaction save
      save_tx_log_entry next_tx_log_id
  refresh_output-height api ids (commit, t) w = ground arith

  refresh_all-height :
      (api : ApiMap) (ids : List ℕ) (es : OutputMap) (w : Wallet)
      → (refresh_all env parent_key_id height now api ids es w).confirmed_height
        ≡ w.confirmed_height
  unfolding refresh_all
  refresh_all-height api ids [] w = refl
  refresh_all-height api ids (e ∷ es) w =
      refresh_all-height api ids es (refresh_output env parent_key_id height now api ids e w)
      ∙ refresh_output-height api ids e w

  revert_entries-height :
      (ids : List ℕ) (ts : List TxLogEntry) (w : Wallet)
      → (revert_entries env parent_key_id height now ids ts w).confirmed_height ≡ w.confirmed_height
  unfolding revert_entries save_tx_log_entry
  revert_entries-height ids [] w = refl
  revert_entries-height ids (t ∷ ts) w =
      revert_entries-height ids ts (
        if contains t.id ids && t.parent_key_id == parent_key_id
        then save_tx_log_entry (reverted_entry env parent_key_id height now t) parent_key_id w
        else w)
      ∙ ground arith

  -- After a refresh, a parent key has the height of the refresh if it is the refresh's own and the
  -- height was not below the last confirmed one; any other keeps the height that it had.
  apply_api_outputs-height :
      (key : Identifier) (outputs : OutputMap) (api : ApiMap) (ids : List ℕ) (w : Wallet)
      → get_count key
          (apply_api_outputs env parent_key_id height now outputs api ids w).confirmed_height
        ≡ (if not (ltb height (last_confirmed_height w)) && parent_key_id == key
            then height
            else get_count key w.confirmed_height)
  unfolding apply_api_outputs save_last_confirmed_height
  apply_api_outputs-height key outputs api ids w =
      let w' = refresh_all env parent_key_id height now api ids outputs w in
      let ts = map (λ e. e.1) w'.tx_log in
      ground (
        arith,
        revert_entries-height ids ts w',
        refresh_all-height api ids outputs w,
        get_count-put_count key parent_key_id height
            (revert_entries env parent_key_id height now ids ts w').confirmed_height,
      )

  -- A refresh never lowers the last confirmed height of the wallet's own parent key.
  apply_api_outputs-height_grows :
      (outputs : OutputMap) (api : ApiMap) (ids : List ℕ) (w : Wallet)
      → last_confirmed_height w
        ≤ get_count w.parent_key_id
            (apply_api_outputs env parent_key_id height now outputs api ids w).confirmed_height
  unfolding last_confirmed_height
  apply_api_outputs-height_grows outputs api ids w =
      ground (arith, apply_api_outputs-height w.parent_key_id outputs api ids w)
