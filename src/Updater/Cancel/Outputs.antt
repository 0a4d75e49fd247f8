-- ===== src/Updater/Cancel/Outputs.antt =====
-- The outputs of a cancelled transaction (`cancel_tx_and_outputs`, libwallet/src/internal/updater.rs).
use vcash_wallet.Base.{
  ℕ, ◌≡◌, ◌⊎◌, inl, inr, Bool, not, ◌&&◌, ◌||◌, Option, none, some, List, [], ◌∷◌, arith, All,
  if◌then◌else◌, Bool-cases,
}
use vcash_wallet.Types.Status.{Identifier, OutputStatus, status_eq}
use vcash_wallet.Types.Output.{OutputData}
use vcash_wallet.Types.TxLog.{TxLogEntry}
use vcash_wallet.Backend.{Wallet, get, has_key, save_tx_log_entry}
use vcash_wallet.Backend.Laws.{get-save, get-delete, option_eq_self}
use vcash_wallet.Updater.Cancel.{cancel_output, cancel_outputs, cancel_tx_and_outputs}

abbrev settled : OutputStatus → Bool
settled s = status_eq s OutputStatus.unspent || status_eq s OutputStatus.spent

-- What is read under an output's key after it alone is cancelled.
abbrev pub cancelled : OutputData → Option OutputData → Option OutputData
cancelled o before = elim o.status [
  | OutputStatus.unconfirmed ↦ none
  | OutputStatus.reverted ↦ none
  | OutputStatus.locked ↦ some (record o { status = OutputStatus.unspent })
  | OutputStatus.unspent ↦ before
  | OutputStatus.spent ↦ before
]

-- Cancelling an output deletes it if it is unconfirmed or reverted, unlocks it if it is locked and
-- leaves it alone if it is unspent or spent; what other keys read is unchanged.
get-cancel_output :
    (id : Identifier) (m : Option ℕ) (o : OutputData) (w : Wallet)
    → get id m (cancel_output o w)
      ≡ (if has_key id m o then cancelled o (get id m w) else get id m w)
unfolding cancel_output
get-cancel_output id m o w = ground (
  arith,
  get-delete id o.key_id m o.mmr_index w,
  get-save id m (record o { status = OutputStatus.unspent }) w,
)

-- Under a key there is no output, or one that is unspent or spent.
abbrev pub Released : Identifier → Option ℕ → Wallet → Type 0
Released id m w =
    (o : OutputData)
    → get id m w ≡ some o
    → (o.status ≡ OutputStatus.unspent) ⊎ (o.status ≡ OutputStatus.spent)

cancel_output-keeps :
    (id : Identifier) (m : Option ℕ) (o : OutputData) (w : Wallet)
    → Released id m w
    → Released id m (cancel_output o w)
cancel_output-keeps id m o w h x e = ground (arith, get-cancel_output id m o w, h x)

cancel_output-releases :
    (o : OutputData) (w : Wallet)
    → (get o.key_id o.mmr_index w ≡ some o) ⊎ Released o.key_id o.mmr_index w
    → Released o.key_id o.mmr_index (cancel_output o w)
cancel_output-releases o w (inl e) x f =
    ground (arith, get-cancel_output o.key_id o.mmr_index o w, option_eq_self o.mmr_index)
cancel_output-releases o w (inr h) x f = cancel_output-keeps o.key_id o.mmr_index o w h x f

-- An output that is read under its own key, or whose key is released.
abbrev Pending : Wallet → OutputData → Type 0
Pending w o = (get o.key_id o.mmr_index w ≡ some o) ⊎ Released o.key_id o.mmr_index w

cancel_output-Pending :
    (p o : OutputData) (w : Wallet) → Pending w o → Pending (cancel_output p w) o
cancel_output-Pending p o w (inl e) =
    elim (Bool-cases (has_key o.key_id o.mmr_index p && not (settled p.status))) [
      | inl same ↦ inr (λ x f. ground (arith, get-cancel_output o.key_id o.mmr_index p w))
      | inr other ↦ inl (ground (arith, get-cancel_output o.key_id o.mmr_index p w))
    ]
cancel_output-Pending p o w (inr h) = inr (cancel_output-keeps o.key_id o.mmr_index p w h)

All-Pending :
    (p : OutputData) (os : List OutputData) (w : Wallet)
    → All (Pending w) os
    → All (Pending (cancel_output p w)) os
All-Pending p [] w h = tt
All-Pending p (o ∷ os) w h = (cancel_output-Pending p o w h.0, All-Pending p os w h.1)

cancel_outputs-keeps :
    (id : Identifier) (m : Option ℕ) (os : List OutputData) (w : Wallet)
    → Released id m w
    → Released id m (cancel_outputs os w)
unfolding cancel_outputs
cancel_outputs-keeps id m [] w h = h
cancel_outputs-keeps id m (o ∷ os) w h =
    cancel_outputs-keeps id m os (cancel_output o w) (cancel_output-keeps id m o w h)

cancel_outputs-releases :
    (os : List OutputData) (w : Wallet)
    → All (Pending w) os
    → All (λ o. Released o.key_id o.mmr_index (cancel_outputs os w)) os
unfolding cancel_outputs
cancel_outputs-releases [] w h = tt
cancel_outputs-releases (o ∷ os) w h = (
  cancel_outputs-keeps o.key_id o.mmr_index os (cancel_output o w) (cancel_output-releases o w h.0),
  cancel_outputs-releases os (cancel_output o w) (All-Pending o os w h.1),
)

reads_first :
    (os : List OutputData) (w : Wallet)
    → All (λ o. get o.key_id o.mmr_index w ≡ some o) os
    → All (Pending w) os
reads_first [] w h = tt
reads_first (o ∷ os) w h = (inl h.0, reads_first os w h.1)

-- After a transaction with outputs of the store is cancelled, each of these outputs is gone, unspent
-- or spent: none is left locked, unconfirmed or reverted.
pub cancel_tx_and_outputs-releases :
    (tx : TxLogEntry) (os : List OutputData) (parent_key_id : Identifier) (w : Wallet)
    → All (λ o. get o.key_id o.mmr_index w ≡ some o) os
    → All (λ o. Released o.key_id o.mmr_index (cancel_tx_and_outputs tx os parent_key_id w)) os
unfolding cancel_tx_and_outputs save_tx_log_entry get
cancel_tx_and_outputs-releases tx os parent_key_id w h =
    cancel_outputs-releases os w (reads_first os w h)
