-- ===== src/Types/Output/Spending.antt =====
-- When an output may be spent (`eligible_to_spend`, libwallet/src/types.rs).
use vcash_wallet.Base.{ℕ, ◌+◌, ◌≤◌, ◌<◌, ◌^◌, ◌≡◌, ◌⊎◌, ◌↔◌, true, false, arith}
use vcash_wallet.Types.Status.{OutputStatus}
use vcash_wallet.Types.Output.{OutputData, eligible_to_spend}

-- What makes an output spendable at a height: its lock has passed, and it is on the chain with
-- enough confirmations, or no confirmation is asked for and it is an unconfirmed payment.
abbrev pub Spendable : OutputData → ℕ → ℕ → Type 0
Spendable o h c =
    (o.lock_height ≤ h)
    × ((o.status ≡ OutputStatus.unspent) × ((c ≡ 0) ⊎ ((o.height ≤ h) × (c + o.height ≤ h + 1)))
        ⊎ (o.status ≡ OutputStatus.unconfirmed) × (o.is_coinbase ≡ false) × (c ≡ 0))

-- At a height below 2^64 - 1, `eligible_to_spend` is true exactly when the output is `Spendable`.
eligible_to_spend-eq-true_iff :
    (o : OutputData) (h c : ℕ) → h + 1 < 2 ^ 64 → (eligible_to_spend o h c ≡ true) ↔ Spendable o h c
unfolding eligible_to_spend
eligible_to_spend-eq-true_iff o h c b = (λ e. ground arith, λ s. ground arith)
