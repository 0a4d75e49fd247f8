-- ===== src/Scan/Stages.antt =====
-- What the stages of the repair keep in the store (libwallet/src/internal/scan.rs).
use vcash_wallet.Base.{
  ℕ, ◌+◌, ◌≡◌, refl, sym, ap, ◌∙◌, true, false, Option, none, some, List, [], ◌∷◌, arith, any,
  find?, if◌then◌else◌, Bool-cases, Option-cases, inl, inr,
}
use vcash_wallet.Env.{Env}
use vcash_wallet.Types.Status.{Identifier, Time, OutputStatus}
use vcash_wallet.Types.Output.{OutputData}
use vcash_wallet.Backend.{
  AcctPathMapping, Wallet, has_key, get, save, delete, save_tx_log_entry, save_child_index,
}
use vcash_wallet.Backend.Laws.{same_key, get-save, get-delete}
use vcash_wallet.Accounts.{set_acct_path, save_acct_path}
use vcash_wallet.Scan.{
  OutputResult, FoundParents, save_entry, cancel_tx_log_entry, mark_unspent_outs, delete_outs,
  restored_output, restore_outs, is_known, restore_account, restore_accounts,
}

-- The store reads an unspent output under this key.
abbrev pub IsUnspentAt : Identifier → Option ℕ → Wallet → Type 0
IsUnspentAt id m w = (o : OutputData) × (get id m w ≡ some o) × (o.status ≡ OutputStatus.unspent)

module _ (id : Identifier) (m : Option ℕ) where
  pub kept : (v w : Wallet) → v.outputs ≡ w.outputs → IsUnspentAt id m v → IsUnspentAt id m w
  unfolding get
  kept v w e (o, there, unspent) = (o, ap (λ os. find? (has_key id m) os) (sym e) ∙ there, unspent)

  save-makes :
      (o : OutputData) (w : Wallet)
      → o.status ≡ OutputStatus.unspent
      → has_key id m o ≡ true
      → IsUnspentAt id m (save o w)
  save-makes o w unspent own = (o, get-save id m o w ∙ rw own refl, unspent)

  save-keeps :
      (o : OutputData) (w : Wallet)
      → o.status ≡ OutputStatus.unspent
      → IsUnspentAt id m w
      → IsUnspentAt id m (save o w)
  save-keeps o w unspent (x, there, e) = elim (Bool-cases (has_key id m o)) [
    | inl own ↦ save-makes o w unspent own
    | inr other ↦ (x, get-save id m o w ∙ (rw other there), e)
  ]

  delete-keeps :
      (j : Identifier) (n : Option ℕ) (w : Wallet)
      → same_key j n id m ≡ false
      → IsUnspentAt id m w
      → IsUnspentAt id m (delete j n w)
  delete-keeps j n w other (x, there, e) = (x, get-delete id j m n w ∙ (rw other there), e)

restore_account-outputs :
    (label_of : ℕ → ℕ) (accounts : List AcctPathMapping) (n path max : ℕ) (w : Wallet)
    → (restore_account label_of accounts n path max w).outputs ≡ w.outputs
unfolding restore_account set_acct_path save_acct_path save_child_index
restore_account-outputs label_of accounts n path max w =
    elim (Bool-cases (is_known accounts path)) [
      | inl known ↦ rw known (ground arith)
      | inr new ↦ rw new (ground arith)
    ]

pub restore_accounts-outputs :
    (label_of : ℕ → ℕ) (accounts : List AcctPathMapping) (found : FoundParents) (n : ℕ) (w : Wallet)
    → (restore_accounts label_of accounts n found w).outputs ≡ w.outputs
unfolding restore_accounts
restore_accounts-outputs label_of accounts [] n w = refl
restore_accounts-outputs label_of accounts ((path, max) ∷ found) n w =
    restore_accounts-outputs label_of accounts found (if is_known accounts path then n else n + 1) _
    ∙ restore_account-outputs label_of accounts n path max w

module _ (env : Env) (parent_path : Identifier → Identifier) (now : Time) where
  save_entry-outputs :
      (t : Option _) (k : Identifier) (w : Wallet) → (save_entry t k w).outputs ≡ w.outputs
  unfolding save_tx_log_entry
  save_entry-outputs none k w = refl
  save_entry-outputs (some t) k w = refl

  cancel_tx_log_entry-outputs :
      (o : OutputData) (w : Wallet)
      → (cancel_tx_log_entry env parent_path now o w).outputs ≡ w.outputs
  unfolding cancel_tx_log_entry
  cancel_tx_log_entry-outputs o w = elim (Option-cases o.tx_log_entry) [
    | inl nothing ↦ rw nothing refl
    | inr (id, e) ↦ rw e (save_entry-outputs _ _ w)
  ]

  module _ (id : Identifier) (m : Option ℕ) where
    pub mark-keeps :
        (ms : List OutputData) (w : Wallet)
        → IsUnspentAt id m w
        → IsUnspentAt id m (mark_unspent_outs env parent_path now ms w)
    unfolding mark_unspent_outs
    mark-keeps [] w e = e
    mark-keeps (o ∷ os) w e =
        let o' = record o { status = OutputStatus.unspent } in
        mark-keeps os _
          (save-keeps id m o' _ refl (kept id m w _ (sym (cancel_tx_log_entry-outputs o' w)) e))

    pub mark-makes :
        (ms : List OutputData) (w : Wallet)
        → any (has_key id m) ms ≡ true
        → IsUnspentAt id m (mark_unspent_outs env parent_path now ms w)
    unfolding mark_unspent_outs
    mark-makes [] w e = cc
    mark-makes (o ∷ os) w e = elim (Bool-cases (has_key id m o)) [
      | inl own ↦
          mark-keeps os _ (save-makes id m (record o { status = OutputStatus.unspent }) _ refl own)
      | inr other ↦ mark-makes os _ (rw other at e)
    ]

    pub delete_outs-keeps :
        (us : List OutputData) (w : Wallet)
        → any (has_key id m) us ≡ false
        → IsUnspentAt id m w
        → IsUnspentAt id m (delete_outs env parent_path now us w)
    unfolding delete_outs
    delete_outs-keeps [] w none_of e = e
    delete_outs-keeps (u ∷ us) w none_of e = elim (Bool-cases (has_key id m u)) [
      | inl own ↦ absurd (let never = rw own at none_of in cc)
      | inr other ↦ delete_outs-keeps us _ (rw other at none_of) (
          delete-keeps id m u.key_id u.mmr_index _ other
            (kept id m w _ (sym (cancel_tx_log_entry-outputs u w)) e))
    ]

    pub restore-keeps :
        (ms : List OutputResult) (found : FoundParents) (w : Wallet)
        → IsUnspentAt id m w
        → IsUnspentAt id m (restore_outs env parent_path now ms found w).1
    unfolding restore_outs
    restore-keeps [] found w e = e
    restore-keeps (x ∷ xs) found w e =
        restore-keeps xs _ _
          (save-keeps id m (restored_output env parent_path now x _) _ refl (kept id m w _ refl e))

    pub restore-makes :
        (ms : List OutputResult) (found : FoundParents) (w : Wallet)
        → any (λ (x : OutputResult). same_key x.key_id (some x.mmr_index) id m) ms ≡ true
        → IsUnspentAt id m (restore_outs env parent_path now ms found w).1
    unfolding restore_outs
    restore-makes [] found w e = cc
    restore-makes (x ∷ xs) found w e =
        elim (Bool-cases (same_key x.key_id (some x.mmr_index) id m)) [
          | inl own ↦
              restore-keeps xs _ _
                (save-makes id m (restored_output env parent_path now x _) _ refl own)
          | inr other ↦ restore-makes xs _ _ (rw other at e)
        ]
