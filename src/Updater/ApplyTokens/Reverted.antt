-- ===== src/Updater/ApplyTokens/Reverted.antt =====
-- Reverted token outputs in `apply_api_token_outputs` (libwallet/src/internal/updater.rs) and
-- `mark_unspent` of `TokenOutputData` (libwallet/src/types.rs).
use vcash_wallet.Base.{
  ℕ, ◌≡◌, refl, sym, ap, ◌∙◌, inl, inr, true, false, ◌&&◌, Option, none, some, List, [], ◌∷◌, arith,
  ◌==◌, if◌then◌else◌, map, find?, Bool-cases, option_eq-path, ltb,
}
use vcash_wallet.Types.Status.{Identifier, Commitment, Time, OutputStatus}
use vcash_wallet.Types.TokenOutput.{TokenOutputData, mark_unspent, mark_spent, mark_reverted}
use vcash_wallet.Types.TokenTxLog.{TokenTxLogEntry, TokenTxLogEntryType, update_confirmation_ts}
use vcash_wallet.Backend.{
  Wallet, get_token, save_token, has_token_key, has_token_log_key, save_token_tx_log_entry,
  save_last_confirmed_height, last_confirmed_height,
}
use vcash_wallet.Backend.Table.{find?-put_self}
use vcash_wallet.Backend.Laws.{get_token-save_token, get_token-has_token_key}
use vcash_wallet.Updater.Maps.{Tracked, OutputMap, ApiOutput, ApiMap, api_get, contains}
use vcash_wallet.Updater.ApplyTokens.{
  is_entry_of, confirmed_entry, confirm_transaction, refresh_present, refresh_absent,
  refresh_output, refresh_all, reverted_entry, revert_entries, apply_api_token_outputs,
}

-- The token output under a key is there and reverted.
abbrev pub HoldsReverted : Identifier → Option ℕ → Wallet → Type 0
HoldsReverted id m w =
    (o : TokenOutputData) × (get_token id m w ≡ some o) × (o.status ≡ OutputStatus.reverted)

-- A write keeps it if what is written under the key is reverted when what was there is.
save_token-HoldsReverted :
    (id : Identifier) (m : Option ℕ) (p : TokenOutputData) (w v : Wallet)
    → get_token id m v ≡ get_token id m w
    → (has_token_key id m p ≡ true → p.status ≡ OutputStatus.reverted)
    → HoldsReverted id m w
    → HoldsReverted id m (save_token p v)
save_token-HoldsReverted id m p w v keeps stays (o, found, r) =
    elim (Bool-cases (has_token_key id m p)) [
      | inl e ↦ (p, ground (arith, get_token-save_token id m p v), stays e)
      | inr e ↦ (o, ground (arith, get_token-save_token id m p v), r)
    ]

same_token :
    (id : Identifier) (m : Option ℕ) (j : Identifier) (n : Option ℕ) (o : TokenOutputData)
    (w : Wallet)
    → get_token j n w ≡ some o
    → has_token_key id m o ≡ true
    → get_token id m w ≡ some o
same_token id m j n o w found here =
    let own : has_token_key j n o ≡ true = get_token-has_token_key j n o w found in
    let own_m : o.mmr_index ≡ n = option_eq-path o.mmr_index n (ground arith) in
    let key_m : o.mmr_index ≡ m = option_eq-path o.mmr_index m (ground arith) in
    let key : id ≡ j = ground arith in
    ap (λ i. get_token i m w) key ∙ ap (λ x. get_token j x w) (sym key_m ∙ own_m) ∙ found

module _ (parent_key_id : Identifier) (height : ℕ) (now : Time) where
  get_token-confirm_transaction :
      (id : Identifier) (m : Option ℕ) (o : TokenOutputData) (w : Wallet)
      → get_token id m (confirm_transaction parent_key_id height now o w) ≡ get_token id m w
  unfolding get_token confirm_transaction save_token_tx_log_entry
  get_token-confirm_transaction id m o w = ground arith

  get_token-revert_entries :
      (id : Identifier) (m : Option ℕ) (ids : List ℕ) (ts : List TokenTxLogEntry) (w : Wallet)
      → get_token id m (revert_entries parent_key_id height now ids ts w) ≡ get_token id m w
  unfolding get_token revert_entries save_token_tx_log_entry
  get_token-revert_entries id m ids [] w = refl
  get_token-revert_entries id m ids (t ∷ ts) w =
      get_token-revert_entries id m ids ts (
        if contains t.id ids && t.parent_key_id == parent_key_id
        then save_token_tx_log_entry (reverted_entry parent_key_id height now t) parent_key_id w
        else w)
      ∙ ground arith

  refresh_output-HoldsReverted :
      (id : Identifier) (m : Option ℕ) (api : ApiMap) (ids : List ℕ) (e : Commitment × Tracked)
      (w : Wallet)
      → HoldsReverted id m w
      → HoldsReverted id m (refresh_output parent_key_id height now api ids e w)
  unfolding refresh_output refresh_present refresh_absent mark_unspent mark_spent mark_reverted
  refresh_output-HoldsReverted id m api ids (commit, t) w h =
      refresh_found (get_token t.key_id t.mmr_index w) refl (api_get commit api)
    where
      was_reverted :
          (o : TokenOutputData)
          → get_token t.key_id t.mmr_index w ≡ some o
          → has_token_key id m o ≡ true
          → o.status ≡ OutputStatus.reverted
      was_reverted o found here =
          let (p, held, r) = h in
          let same : get_token id m w ≡ some o =
            same_token id m t.key_id t.mmr_index o w found here in
          ground arith

      refresh_found :
          (g : Option TokenOutputData)
          → get_token t.key_id t.mmr_index w ≡ g
          → (x : Option ApiOutput)
          → HoldsReverted id m (elim g [
            | none ↦ w
            | some output ↦ elim x [
              | some a ↦ refresh_present parent_key_id height now a output w
              | none ↦ refresh_absent parent_key_id height now ids output w
            ]
          ])
      refresh_found none found x = h
      refresh_found (some o) found (some a) =
          save_token-HoldsReverted id m (mark_unspent (record o { height = a.height })) w
            (confirm_transaction parent_key_id height now o w)
            (get_token-confirm_transaction id m o w)
            (λ here. ground (arith, was_reverted o found here)) h
      refresh_found (some o) found none =
          let q =
            if (elim o.tx_log_entry [ none ↦ false | some i ↦ contains i ids ])
            then mark_reverted o
            else mark_spent o in
          save_token-HoldsReverted id m q w w refl
            (λ here. ground (arith, was_reverted o found (ground arith))) h

  refresh_all-HoldsReverted :
      (id : Identifier) (m : Option ℕ) (api : ApiMap) (ids : List ℕ) (es : OutputMap) (w : Wallet)
      → HoldsReverted id m w
      → HoldsReverted id m (refresh_all parent_key_id height now api ids es w)
  unfolding refresh_all
  refresh_all-HoldsReverted id m api ids [] w h = h
  refresh_all-HoldsReverted id m api ids (e ∷ es) w h =
      refresh_all-HoldsReverted id m api ids es
        (refresh_output parent_key_id height now api ids e w)
        (refresh_output-HoldsReverted id m api ids e w h)

  -- A token output that is reverted is reverted after every refresh, whatever the node returns.
  apply_api_token_outputs-HoldsReverted :
      (id : Identifier) (m : Option ℕ) (outputs : OutputMap) (api : ApiMap) (ids : List ℕ)
      (w : Wallet)
      → HoldsReverted id m w
      → HoldsReverted id m (apply_api_token_outputs parent_key_id height now outputs api ids w)
  unfolding apply_api_token_outputs save_last_confirmed_height get_token
  apply_api_token_outputs-HoldsReverted id m outputs api ids w h =
      let w' = refresh_all parent_key_id height now api ids outputs w in
      elim (ltb height (last_confirmed_height w))
        as (λ b. HoldsReverted id m (
          if b
          then w
          else save_last_confirmed_height parent_key_id height
              (revert_entries parent_key_id height now ids (map (λ e. e.1) w'.token_tx_log) w'))) [
                | true ↦ h
                | false ↦
                    let (o, held, r) = refresh_all-HoldsReverted id m api ids outputs w h in
                    (
                      o,
                      get_token-revert_entries id m ids (map (λ e. e.1) w'.token_tx_log) w' ∙ held,
                      r,
                    )
              ]

  -- When the node has a reverted token output again, the log entry of its transaction, if it is a
  -- reverted one, is confirmed at this time as a received one, and is no longer reverted after any
  -- time, while the output itself is still reverted.
  pub refresh_output-confirms_reverted :
      (commit : Commitment) (t : Tracked) (a : ApiOutput) (api : ApiMap) (ids : List ℕ)
      (o : TokenOutputData) (x : TokenTxLogEntry) (w : Wallet)
      → get_token t.key_id t.mmr_index w ≡ some o
      → o.status ≡ OutputStatus.reverted
      → api_get commit api ≡ some a
      → find? (is_entry_of o parent_key_id) (map (λ e. e.1) w.token_tx_log) ≡ some x
      → x.tx_type ≡ TokenTxLogEntryType.token_tx_reverted
      → let v = refresh_output parent_key_id height now api ids (commit, t) w in
        HoldsReverted t.key_id t.mmr_index v
        × (find? (has_token_log_key parent_key_id x.id) v.token_tx_log
            ≡ some (
              parent_key_id,
              record x {
                tx_type = TokenTxLogEntryType.token_tx_received;
                confirmed = true;
                confirmation_ts = some now;
                reverted_after = none;
              },
            ))
  unfolding refresh_output refresh_present confirm_transaction save_token save_token_tx_log_entry
      confirmed_entry update_confirmation_ts
  refresh_output-confirms_reverted commit t a api ids o x w found r seen entry was = (
    refresh_output-HoldsReverted t.key_id t.mmr_index api ids (commit, t) w (o, found, r),
    ground (
      arith,
      find?-put_self (has_token_log_key parent_key_id x.id) (parent_key_id, confirmed_entry now x)
          w.token_tx_log (ground arith),
    ),
  )
