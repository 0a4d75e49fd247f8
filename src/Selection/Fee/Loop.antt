-- ===== src/Selection/Fee/Loop.antt =====
-- One round of the loop of `select_coins_and_fee` (libwallet/src/internal/selection.rs).
use vcash_wallet.Base.{ℕ, suc, ◌≡◌, true, false, arith, length, add64, ltb, ◌==◌, ◌>>=◌}
use vcash_wallet.Backend.{Wallet}
use vcash_wallet.Selection.Fee.{Funding, Request, refreshed, select, add_coins}

module _ (w : Wallet) (r : Request) (amount max_outputs : ℕ) (fee_of : ℕ → ℕ) where
  -- A round that goes on chooses coins for the amount with the fee of the coins at hand.
  pub add_coins_step :
      (fuel : ℕ) (f : Funding)
      → ltb f.total (add64 amount f.fee) ≡ true
      → (length f.coins == max_outputs) ≡ false
      → add_coins w r amount max_outputs fee_of (suc fuel) f ≡ (
          select w r (add64 amount f.fee) max_outputs >>= λ found.
          add_coins w r amount max_outputs fee_of fuel (refreshed amount fee_of found.1))
  unfolding add_coins
  add_coins_step fuel f less more = ground arith
