-- ===== src/Selection/Fee/Sound.antt =====
-- What `select_coins_and_fee` returns (libwallet/src/internal/selection.rs).
use vcash_wallet.Base.{
  ℕ, zero, suc, ◌+◌, ◌≤◌, ◌<◌, ◌^◌, ◌≡◌, refl, sym, ◌∙◌, ◌⊎◌, inl, inr, List, arith, length, filter,
  sum_by, add64, ltb, ◌==◌, sum64_from-eq-add, ok, >>=-eq-ok, Bool-cases,
}
use vcash_wallet.Env.{Env}
use vcash_wallet.Types.Output.{OutputData}
use vcash_wallet.Backend.{Wallet}
use vcash_wallet.Selection.Coins.{is_eligible, select_coins}
use vcash_wallet.Selection.Coins.Choice.{Within, choose-Within}
use vcash_wallet.Selection.Fee.{
  Funding, Request, total_value, refreshed, select, add_coins, output_len, fee_for, fund,
  select_coins_and_fee,
}
use vcash_wallet.Selection.Fee.Loop.{add_coins_step}

-- The outputs of the wallet that a request may spend.
abbrev pub eligible : Wallet → Request → List OutputData
eligible w r =
    filter (is_eligible r.parent_key_id r.current_height r.minimum_confirmations) w.outputs

select_within :
    (w : Wallet) (r : Request) (amount max_outputs m : ℕ) (o : List OutputData) (g : OutputData → ℕ)
    → sum_by (λ x. x.value) (eligible w r) < 2 ^ 64
    → select w r amount max_outputs ≡ ok (m, o)
    → sum_by g o ≤ sum_by g (eligible w r)
unfolding select_coins
select_within w r amount max_outputs m o g fits e =
    choose-Within (λ x. x.value) amount max_outputs m r.select_all (eligible w r) o fits e g

-- What holds of the state of the loop: its total and fee belong to its coins, and at a measure `g`
-- these weigh no more than the eligible outputs.
abbrev Keeps : Wallet → Request → ℕ → (ℕ → ℕ) → (OutputData → ℕ) → Funding → Type 0
Keeps w r amount fee_of g f =
    (f.total ≡ total_value f.coins)
    × (f.fee ≡ fee_of (length f.coins))
    × (f.amount ≡ amount)
    × (sum_by g f.coins ≤ sum_by g (eligible w r))

module _ (w : Wallet) (r : Request) (amount max_outputs : ℕ) (fee_of : ℕ → ℕ) where
  add_coins_sound :
      (fuel : ℕ) (f h : Funding) (g : OutputData → ℕ)
      → sum_by (λ x. x.value) (eligible w r) < 2 ^ 64
      → Keeps w r amount fee_of g f
      → add_coins w r amount max_outputs fee_of fuel f ≡ ok h
      → Keeps w r amount fee_of g h × (add64 amount h.fee ≤ h.total)
  unfolding add_coins
  add_coins_sound zero f h g fits k e = cc
  add_coins_sound (suc fuel) f h g fits k e = elim (Bool-cases (ltb f.total (add64 amount f.fee))) [
    | inl less ↦ elim (Bool-cases (length f.coins == max_outputs)) [
      | inl all ↦ ground arith
      | inr more ↦
          let (found, chosen, e') =
            >>=-eq-ok (select w r (add64 amount f.fee) max_outputs)
              (λ found.
                add_coins w r amount max_outputs fee_of fuel (refreshed amount fee_of found.1))
              (sym (add_coins_step w r amount max_outputs fee_of fuel f less more) ∙ e) in
          add_coins_sound fuel (refreshed amount fee_of found.1) h g fits
            (
              refl,
              refl,
              refl,
              select_within w r (add64 amount f.fee) max_outputs found.0 found.1 g fits chosen,
            )
            e'
    ]
    | inr enough ↦ ground arith
  ]

-- The fee is that of the transaction: with the change outputs, or without where the coins' total is
-- the amount and the fee.
abbrev pub HasFee : Env → ℕ → ℕ → ℕ → ℕ → Funding → Type 0
HasFee env amount change_outputs token_inputs token_outputs h =
    (h.fee
      ≡ fee_for env token_inputs token_outputs (change_outputs + output_len amount)
          (length h.coins))
    ⊎ (h.fee ≡ fee_for env token_inputs token_outputs (output_len amount) (length h.coins))
      × (h.total ≡ add64 amount h.fee)

module _ (env : Env) (w : Wallet) (r : Request) (amount change_outputs ti to : ℕ) where
  fund_parts :
      (m : ℕ) (coins : List OutputData) (h : Funding) (g : OutputData → ℕ)
      → sum_by (λ x. x.value) (eligible w r) < 2 ^ 64
      → sum_by g coins ≤ sum_by g (eligible w r)
      → fund env w r amount change_outputs ti to (m, coins) ≡ ok h
      → (h.total ≡ total_value h.coins)
        × (h.amount ≡ amount)
        × (sum_by g h.coins ≤ sum_by g (eligible w r))
        × (add64 amount h.fee ≤ h.total)
        × HasFee env amount change_outputs ti to h
  unfolding fund
  fund_parts m coins h g fits k e =
      let fee_of : ℕ → ℕ = fee_for env ti to (change_outputs + output_len amount) in
      ground (
        arith,
        add_coins_sound w r amount m fee_of (m + 3) (refreshed amount fee_of coins) h g fits
            (refl, refl, refl, k),
      )

  select_coins_and_fee_parts :
      (max_outputs : ℕ) (h : Funding) (g : OutputData → ℕ)
      → sum_by (λ x. x.value) (eligible w r) < 2 ^ 64
      → select_coins_and_fee env w r amount max_outputs change_outputs ti to ≡ ok h
      → (h.total ≡ total_value h.coins)
        × (h.amount ≡ amount)
        × (sum_by g h.coins ≤ sum_by g (eligible w r))
        × (add64 amount h.fee ≤ h.total)
        × HasFee env amount change_outputs ti to h
  unfolding select_coins_and_fee
  select_coins_and_fee_parts max_outputs h g fits e =
      let first = add64 amount env.default_base_fee in
      let (found, chosen, e') =
        >>=-eq-ok (select w r first max_outputs) (fund env w r amount change_outputs ti to) e in
      fund_parts found.0 found.1 h g fits
        (select_within w r first max_outputs found.0 found.1 g fits chosen) e'

  -- Where the values of the eligible outputs add up to less than 2^64, a successful
  -- `select_coins_and_fee` returns the amount that it was given, coins out of the eligible outputs
  -- with their exact total, and the fee of the transaction with these coins; the total covers
  -- the amount with the fee, added as u64s.
  pub select_coins_and_fee_sound :
      (max_outputs : ℕ) (h : Funding)
      → sum_by (λ x. x.value) (eligible w r) < 2 ^ 64
      → select_coins_and_fee env w r amount max_outputs change_outputs ti to ≡ ok h
      → (h.amount ≡ amount)
        × (h.total ≡ sum_by (λ x. x.value) h.coins)
        × Within h.coins (eligible w r)
        × (add64 amount h.fee ≤ h.total)
        × HasFee env amount change_outputs ti to h
  select_coins_and_fee_sound max_outputs h fits e =
      let value = λ (x : OutputData). x.value in
      let parts = select_coins_and_fee_parts max_outputs h value fits e in
      (
        parts.1,
        parts.0 ∙ sum64_from-eq-add value 0 h.coins (omega arith) ∙ omega arith,
        λ g. (select_coins_and_fee_parts max_outputs h g fits e).2,
        parts.3,
        parts.4,
      )
