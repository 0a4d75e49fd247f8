-- ===== src/Selection/Change/Balance.antt =====
-- The inputs, the amount, the fee and the change of `select_send_tx`
-- (libwallet/src/internal/selection.rs).
use vcash_wallet.Base.{
  ℕ, ◌+◌, ◌-◌, ◌/◌, ◌%◌, ◌≤◌, ◌<◌, ◌^◌, ◌≡◌, ◌⊎◌, ◌∙◌, subst, Bool, List, arith, sum_by, ok,
  >>=-eq-ok, sub64, sum64_from-eq-add,
}
use vcash_wallet.Env.{Env}
use vcash_wallet.Types.Output.{OutputData}
use vcash_wallet.Backend.{Wallet}
use vcash_wallet.Selection.Coins.Choice.{Within}
use vcash_wallet.Selection.Fee.{Request, Funding, total_value, select_coins_and_fee}
use vcash_wallet.Selection.Fee.Sound.{eligible, select_coins_and_fee_sound}
use vcash_wallet.Selection.Change.{
  Part, Change, SendTx, make_change, inputs_and_change, send_with, select_send_tx,
}
use vcash_wallet.Selection.Change.Amounts.{amounts, make_change_keeps, make_change_loses}

-- The sum of the coins that a transaction spends.
abbrev pub spent : SendTx → ℕ
spent s = sum_by (λ o. o.value) s.coins

module _ (env : Env) (w : Wallet) (change_outputs : ℕ) (include : Bool) where
  -- The change that a successful call has made.
  inputs_and_change_makes :
      (coins : List OutputData) (amount fee : ℕ) (made : List Part × List Change × Wallet)
      → inputs_and_change env coins w amount fee change_outputs include ≡ ok made
      → make_change env (sub64 (sub64 (total_value coins) amount) fee) change_outputs w
        ≡ ok (made.1, made.2)
  unfolding inputs_and_change
  inputs_and_change_makes coins amount fee made e =
      let (m, made_change, e') =
        >>=-eq-ok (make_change env (sub64 (sub64 (total_value coins) amount) fee) change_outputs w)
          _ e in
      made_change ∙ ground arith

  send_with_makes :
      (f : Funding) (s : SendTx)
      → send_with env w change_outputs include f ≡ ok s
      → (f.coins ≡ s.coins)
        × (f.fee ≡ s.fee)
        × (make_change env (sub64 (sub64 (total_value f.coins) f.amount) f.fee) change_outputs w
            ≡ ok (s.changes, s.wallet))
  unfolding send_with
  send_with_makes f s e =
      let (m, made, e') =
        >>=-eq-ok (inputs_and_change env f.coins w f.amount f.fee change_outputs include) _ e in
      (
        ground arith,
        ground arith,
        inputs_and_change_makes f.coins f.amount f.fee m made ∙ ground arith,
      )

module _ (env : Env) (w : Wallet) (r : Request) (amount max_outputs change_outputs ti to : ℕ)
    (include : Bool) where
  abbrev Sends : SendTx → Type 0
  Sends s = select_send_tx env w r amount max_outputs change_outputs ti to include ≡ ok s

  -- What the coins leave behind the amount and the fee.
  abbrev left_over : SendTx → ℕ
  left_over s = spent s - (amount + s.fee)

  select_send_tx_makes :
      (s : SendTx)
      → sum_by (λ o. o.value) (eligible w r) < 2 ^ 64
      → Sends s
      → amount + s.fee < 2 ^ 64
      → Within s.coins (eligible w r)
        × (amount + s.fee ≤ spent s)
        × (left_over s < 2 ^ 64)
        × (make_change env (left_over s) change_outputs w ≡ ok (s.changes, s.wallet))
  unfolding select_send_tx
  select_send_tx_makes s fits e small =
      let (f, funded, e') =
        >>=-eq-ok (select_coins_and_fee env w r amount max_outputs change_outputs ti to)
          (send_with env w change_outputs include) e in
      let sound =
        select_coins_and_fee_sound env w r amount change_outputs ti to max_outputs f fits funded in
      let makes = send_with_makes env w change_outputs include f s e' in
      let within : Within s.coins (eligible w r) =
        subst (λ c. Within c (eligible w r)) makes.0 sound.2 in
      let value = λ (o : OutputData). o.value in
      let fits' : sum_by value s.coins < 2 ^ 64 = omega (arith, within value) in
      let exact = sum64_from-eq-add value 0 s.coins (omega arith) in
      let covered : amount + s.fee ≤ spent s = ground (arith, sound.1, sound.3, makes.0, makes.1) in
      let rest : sub64 (sub64 (total_value f.coins) f.amount) f.fee ≡ left_over s =
        ground (arith, sound.0, makes.0, makes.1, exact, covered) in
      (within, covered, omega arith, rw rest at (makes.2))

  -- Where the eligible outputs' values, and the amount with the fee, fit in 64 bits: a successful
  -- `select_send_tx` spends coins out of the eligible outputs. If they are just enough, or the
  -- division of the rest into the change outputs leaves a remainder below one part, the coins are
  -- worth exactly the amount, the fee and the change outputs.
  pub select_send_tx_balances :
      (s : SendTx)
      → sum_by (λ o. o.value) (eligible w r) < 2 ^ 64
      → Sends s
      → amount + s.fee < 2 ^ 64
      → (left_over s ≡ 0) ⊎ (left_over s % change_outputs < left_over s / change_outputs)
      → Within s.coins (eligible w r) × (spent s ≡ amount + s.fee + amounts s.changes)
  select_send_tx_balances s fits e small c =
      let m = select_send_tx_makes s fits e small in
      (
        m.0,
        omega (
          arith,
          make_change_keeps env (left_over s) change_outputs w (s.changes, s.wallet) m.2 c m.3,
        ),
      )

  -- Otherwise it returns change outputs that do not hold all that is left over: coins are lost.
  pub select_send_tx_loses :
      (s : SendTx)
      → sum_by (λ o. o.value) (eligible w r) < 2 ^ 64
      → Sends s
      → amount + s.fee < 2 ^ 64
      → 0 < left_over s
      → left_over s / change_outputs ≤ left_over s % change_outputs
      → amount + s.fee + amounts s.changes < spent s
  select_send_tx_loses s fits e small p c =
      let m = select_send_tx_makes s fits e small in
      omega (
        arith,
        m.1,
        make_change_loses env (left_over s) change_outputs w (s.changes, s.wallet) p m.2 c m.3,
      )
