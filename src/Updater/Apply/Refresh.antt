-- ===== src/Updater/Apply/Refresh.antt =====
-- The outputs in the store before and after `apply_api_outputs` (libwallet/src/internal/updater.rs).
use vcash_wallet.Base.{
  ℕ, ◌≡◌, refl, sym, ◌∙◌, subst, inl, inr, true, false, not, ◌&&◌, Option, none, some, List, [],
  ◌∷◌, arith, ◌==◌, if◌then◌else◌, map, Bool-cases, ltb,
}
use vcash_wallet.Env.{Env}
use vcash_wallet.Types.Status.{Identifier, Commitment, Time, OutputStatus, status_eq}
use vcash_wallet.Types.Output.{OutputData, mark_unspent, mark_spent, mark_reverted}
use vcash_wallet.Types.TxLog.{TxLogEntry}
use vcash_wallet.Backend.{
  Wallet, get, save, next_tx_log_id, save_tx_log_entry, save_last_confirmed_height,
  last_confirmed_height,
}
use vcash_wallet.Updater.Maps.{Tracked, OutputMap, ApiOutput, ApiMap, api_get, contains}
use vcash_wallet.Updater.Apply.{
  record_coinbase, confirm_transaction, refresh_present, refresh_absent, refresh_output,
  refresh_all, reverted_entry, revert_entries, apply_api_outputs,
}
use vcash_wallet.Updater.Apply.Statuses.{
  Steps, SameCoin, Follows, Follows-self, Follows-trans, same_coin, save-Follows, at_own_key,
  mark_unspent-Steps, mark_spent-Steps, mark_reverted-Steps,
}

module _ (env : Env) (parent_key_id : Identifier) (height : ℕ) (now : Time) where
  get-record_coinbase :
      (id : Identifier) (m : Option ℕ) (commit : Commitment) (o : OutputData) (w : Wallet)
      → get id m (record_coinbase env parent_key_id height now commit o w).1 ≡ get id m w
  unfolding get record_coinbase save_tx_log_entry next_tx_log_id
  get-record_coinbase id m commit o w = ground arith

  record_coinbase_parts :
      (commit : Commitment) (o : OutputData) (w : Wallet)
      → (log_id : Option ℕ) × ((record_coinbase env parent_key_id height now commit o w).0
          ≡ record o { tx_log_entry = log_id })
  unfolding record_coinbase
  record_coinbase_parts commit o w =
      elim (Bool-cases (o.is_coinbase && status_eq o.status OutputStatus.unconfirmed)) [
        | inl e ↦ (some (next_tx_log_id parent_key_id w).0, ground arith)
        | inr e ↦ (o.tx_log_entry, ground arith)
      ]

  get-confirm_transaction :
      (id : Identifier) (m : Option ℕ) (o : OutputData) (w : Wallet)
      → get id m (confirm_transaction env parent_key_id height now o w) ≡ get id m w
  unfolding get confirm_transaction save_tx_log_entry
  get-confirm_transaction id m o w = ground arith

  get-revert_entries :
      (id : Identifier) (m : Option ℕ) (ids : List ℕ) (ts : List TxLogEntry) (w : Wallet)
      → get id m (revert_entries env parent_key_id height now ids ts w) ≡ get id m w
  unfolding get revert_entries save_tx_log_entry
  get-revert_entries id m ids [] w = refl
  get-revert_entries id m ids (t ∷ ts) w =
      get-revert_entries id m ids ts (
        if contains t.id ids && t.parent_key_id == parent_key_id
        then save_tx_log_entry (reverted_entry env parent_key_id height now t) parent_key_id w
        else w)
      ∙ ground arith

  refresh_present-Follows :
      (id : Identifier) (m : Option ℕ) (commit : Commitment) (a : ApiOutput) (o : OutputData)
      (w : Wallet)
      → get o.key_id o.mmr_index w ≡ some o
      → Follows (get id m w) (get id m (refresh_present env parent_key_id height now commit a o w))
  unfolding refresh_present mark_unspent
  refresh_present-Follows id m commit a o w found =
      let r = record_coinbase env parent_key_id height now commit o w in
      let (log_id, e) = record_coinbase_parts commit o w in
      let q : OutputData → OutputData = λ x. mark_unspent (record x { height = a.height }) in
      save-Follows id m o (q r.0) w (confirm_transaction env parent_key_id height now r.0 r.1)
        (get-confirm_transaction id m r.0 r.1 ∙ get-record_coinbase id m commit o w) found
        (subst (λ x. SameCoin o (q x)) (sym e) (same_coin o))
        (subst (λ x. Steps o.status (q x).status) (sym e) (mark_unspent-Steps o))

  refresh_absent-Follows :
      (id : Identifier) (m : Option ℕ) (ids : List ℕ) (o : OutputData) (w : Wallet)
      → get o.key_id o.mmr_index w ≡ some o
      → Follows (get id m w) (get id m (refresh_absent env parent_key_id height now ids o w))
  unfolding refresh_absent mark_reverted mark_spent
  refresh_absent-Follows id m ids o w found =
      elim (not o.is_coinbase && (elim o.tx_log_entry [ none ↦ false | some i ↦ contains i ids ]))
        as (λ b.
          Follows (get id m w) (get id m (save (if b then mark_reverted o else mark_spent o) w))) [
            | true ↦
                save-Follows id m o (mark_reverted o) w w refl found (same_coin o)
                  (mark_reverted-Steps o)
            | false ↦
                save-Follows id m o (mark_spent o) w w refl found (same_coin o) (mark_spent-Steps o)
          ]

  refresh_output-Follows :
      (id : Identifier) (m : Option ℕ) (api : ApiMap) (ids : List ℕ) (e : Commitment × Tracked)
      (w : Wallet)
      → Follows (get id m w) (get id m (refresh_output env parent_key_id height now api ids e w))
  unfolding refresh_output
  refresh_output-Follows id m api ids (commit, t) w =
      refresh_found (get t.key_id t.mmr_index w) refl (api_get commit api)
    where
      refresh_found :
          (g : Option OutputData)
          → get t.key_id t.mmr_index w ≡ g
          → (x : Option ApiOutput)
          → Follows (get id m w) (
              get id m (elim g [
                | none ↦ w
                | some output ↦ elim x [
                  | some a ↦ refresh_present env parent_key_id height now commit a output w
                  | none ↦ refresh_absent env parent_key_id height now ids output w
                ]
              ]))
      refresh_found none found x = Follows-self (get id m w)
      refresh_found (some o) found (some a) =
          refresh_present-Follows id m commit a o w (at_own_key t.key_id t.mmr_index o w found)
      refresh_found (some o) found none =
          refresh_absent-Follows id m ids o w (at_own_key t.key_id t.mmr_index o w found)

  refresh_all-Follows :
      (id : Identifier) (m : Option ℕ) (api : ApiMap) (ids : List ℕ) (es : OutputMap) (w : Wallet)
      → Follows (get id m w) (get id m (refresh_all env parent_key_id height now api ids es w))
  unfolding refresh_all
  refresh_all-Follows id m api ids [] w = Follows-self (get id m w)
  refresh_all-Follows id m api ids (e ∷ es) w =
      Follows-trans (refresh_output-Follows id m api ids e w) (
        refresh_all-Follows id m api ids es
          (refresh_output env parent_key_id height now api ids e w))

  -- Whatever the node returns, a refresh neither adds nor removes an output under any key, changes
  -- none but in its status, height and log entry, and takes its status by allowed steps alone.
  pub apply_api_outputs-Follows :
      (id : Identifier) (m : Option ℕ) (outputs : OutputMap) (api : ApiMap) (ids : List ℕ)
      (w : Wallet)
      → Follows
          (get id m w)
          (get id m (apply_api_outputs env parent_key_id height now outputs api ids w))
  unfolding apply_api_outputs save_last_confirmed_height get
  apply_api_outputs-Follows id m outputs api ids w =
      let w' = refresh_all env parent_key_id height now api ids outputs w in
      elim (ltb height (last_confirmed_height w))
        as (λ b. Follows (get id m w) (
          get id m (
            if b
            then w
            else save_last_confirmed_height parent_key_id height
                (revert_entries env parent_key_id height now ids (map (λ e. e.1) w'.tx_log) w')))) [
                  | true ↦ Follows-self (get id m w)
                  | false ↦
                      subst (λ x. Follows (get id m w) x)
                        (sym (get-revert_entries id m ids (map (λ e. e.1) w'.tx_log) w'))
                        (refresh_all-Follows id m api ids outputs w)
                ]
