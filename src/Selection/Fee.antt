-- ===== src/Selection/Fee.antt =====
-- `select_coins_and_fee` and `select_token_coins_and_fee` (libwallet/src/internal/selection.rs).
-- The loop that looks for more coins runs on fuel, the number of eligible outputs and 3.
pub mod Loop
pub mod Sound
pub mod Ends
pub mod Tokens
use vcash_wallet.Base.{
  ℕ, zero, suc, ◌+◌, Bool, true, false, ◌&&◌, List, ltb, ◌==◌, if◌then◌else◌, length, add64,
  sum64_from, Outcome, ok, err, timeout, ◌>>=◌,
}
use vcash_wallet.Env.{Env}
use vcash_wallet.Types.Status.{Identifier, TokenType}
use vcash_wallet.Types.Output.{OutputData}
use vcash_wallet.Types.TokenOutput.{TokenOutputData}
use vcash_wallet.Backend.{Wallet}
use vcash_wallet.Selection.Errors.{Error, not_enough_funds}
use vcash_wallet.Selection.Coins.{select_coins, select_token_coins}

-- The coins, their total, the amount and the fee.
pub record Funding : Type 0 where
  pub coins : List OutputData
  pub total : ℕ
  pub amount : ℕ
  pub fee : ℕ

-- The arguments that `select_coins_and_fee` passes on unchanged.
pub record Request : Type 0 where
  pub current_height : ℕ
  pub minimum_confirmations : ℕ
  pub select_all : Bool
  pub parent_key_id : Identifier

abbrev pub total_value : List OutputData → ℕ
total_value coins = sum64_from (λ o. o.value) 0 coins

-- The state of the loop for a choice of coins; `fee_of` is `tx_fee` at a number of inputs.
abbrev pub refreshed : ℕ → (ℕ → ℕ) → List OutputData → Funding
refreshed amount fee_of coins = record {
  coins = coins;
  total = total_value coins;
  amount = amount;
  fee = fee_of (length coins);
}

module _ (w : Wallet) (r : Request) where
  -- A call of `select_coins` with the request's arguments.
  abbrev pub select : ℕ → ℕ → Outcome Error (ℕ × List OutputData)
  select amount max_outputs =
      select_coins w amount r.current_height r.minimum_confirmations max_outputs r.select_all
        r.parent_key_id

  module _ (amount max_outputs : ℕ) (fee_of : ℕ → ℕ) where
    -- The `while` loop, `f` its state.
    unfoldable pub add_coins : ℕ → Funding → Outcome Error Funding
    add_coins zero f = timeout
    add_coins (suc fuel) f = elim (ltb f.total (add64 amount f.fee)) [
      | false ↦ ok f
      | true ↦ elim (length f.coins == max_outputs) [
        | true ↦ err (not_enough_funds f.total (add64 amount f.fee))
        | false ↦ select (add64 amount f.fee) max_outputs >>= λ found.
            add_coins fuel (refreshed amount fee_of found.1)
      ]
    ]

abbrev pub output_len : ℕ → ℕ
output_len amount = if amount == 0 then 0 else 1

abbrev pub token_kernel_len : ℕ → ℕ
token_kernel_len token_outputs = if token_outputs == 0 then 0 else 1

module _ (env : Env) where
  -- `tx_fee` with one kernel, as the function calls it.
  abbrev pub fee_for : ℕ → ℕ → ℕ → ℕ → ℕ
  fee_for token_inputs token_outputs outputs inputs =
      env.tx_fee inputs outputs 1 token_inputs token_outputs (token_kernel_len token_outputs)

  -- What follows the first call of `select_coins`; `max_outputs` is the number that it returned.
  unfoldable pub fund :
      Wallet → Request → ℕ → ℕ → ℕ → ℕ → ℕ × List OutputData → Outcome Error Funding
  unfolding add_coins
  fund w r amount change_outputs token_inputs token_outputs (max_outputs, coins) =
      let fee = fee_for token_inputs token_outputs (output_len amount) (length coins) in
      let total = total_value coins in
      let amount_with_fee = add64 amount fee in
      let fee_of = fee_for token_inputs token_outputs (change_outputs + output_len amount) in
      let with_change =
        add_coins w r amount max_outputs fee_of (max_outputs + 3) (refreshed amount fee_of coins) in
      if total == 0
      then err (not_enough_funds 0 amount_with_fee)
      else if ltb total amount_with_fee && length coins == max_outputs
      then err (not_enough_funds total amount_with_fee)
      else if total == amount_with_fee
      then ok (record { coins = coins; total = total; amount = amount; fee = fee })
      else with_change

  unfoldable pub select_coins_and_fee : Wallet → Request → ℕ → ℕ → ℕ → ℕ → ℕ → Outcome Error Funding
  unfolding fund
  select_coins_and_fee w r amount max_outputs change_outputs token_inputs token_outputs =
      select w r (add64 amount env.default_base_fee) max_outputs
      >>= fund w r amount change_outputs token_inputs token_outputs

pub record TokenFunding : Type 0 where
  pub coins : List TokenOutputData
  pub total : ℕ
  pub amount : ℕ

unfoldable pub select_token_coins_and_fee :
    Wallet → Request → ℕ → TokenType → ℕ → Outcome Error TokenFunding
select_token_coins_and_fee w r amount token_type max_outputs =
    select_token_coins w amount token_type r.current_height r.minimum_confirmations max_outputs
      r.select_all r.parent_key_id
    >>= λ found.
        let total = sum64_from (λ o. o.value) 0 found.1 in
        if total == 0
        then err (not_enough_funds 0 amount)
        else if ltb total amount && length found.1 == found.0
        then err (not_enough_funds total amount)
        else ok (record { coins = found.1; total = total; amount = amount })
