-- ===== src/Runs/Sending.antt =====
-- Selections and transactions from the example wallet.
use vcash_wallet.Base.{
  ℕ, ◌+◌, ◌≤◌, ◌<◌, ◌^◌, ◌≡◌, ◌≢◌, ◌↔◌, ◌⊎◌, inr, refl, true, false, none, [], ◌∷◌, arith, length,
  sum_by, All, add64, ok, panic, timeout,
}
use vcash_wallet.Types.Output
use vcash_wallet.Types.Output.{OutputData}
use vcash_wallet.Backend.{next_child, current_child_index, save_child_index, Wallet}
use vcash_wallet.Selection.Coins.{
  take_selected, select_from_by, search_windows, choose, is_eligible, select_coins,
}
use vcash_wallet.Selection.Coins.Choice.{Within}
use vcash_wallet.Selection.Coins.Calls.{select_coins_sound}
use vcash_wallet.Selection.Fee.{Funding, add_coins, fund, select_coins_and_fee}
use vcash_wallet.Selection.Fee.Sound.{eligible, HasFee, select_coins_and_fee_sound}
use vcash_wallet.Selection.Fee.Ends.{select_coins_and_fee_ends}
use vcash_wallet.Selection.Change.{
  Part, SendTx, add_change, make_change, inputs_and_change, send_with, select_send_tx,
}
use vcash_wallet.Selection.Change.Amounts.{amounts, make_change-eq-panic_iff}
use vcash_wallet.Selection.Change.Balance.{select_send_tx_balances, select_send_tx_loses}
use vcash_wallet.Runs.{env, wallet, request, coin_50, coin_30}

abbrev after_change : Wallet
after_change = record wallet { child_index = (1, 21) ∷ [] }

abbrev three : ℕ
three = 3

abbrev sent : SendTx
sent = record {
  parts = Part.input 30 102 ∷ Part.input 50 101 ∷ Part.output 31 120 ∷ [];
  coins = coin_30 ∷ coin_50 ∷ [];
  changes = (31, 120, none) ∷ [];
  fee = 9;
  wallet = after_change;
}

run_send : select_send_tx env wallet request 40 10 1 0 0 true ≡ ok sent
unfolding select_send_tx send_with inputs_and_change make_change add_change next_child
    save_child_index current_child_index select_coins_and_fee fund add_coins select_coins choose
    search_windows select_from_by take_selected Output.eligible_to_spend Output.num_confirmations
run_send = refl

eligible_small : sum_by (λ (o : OutputData). o.value) (eligible wallet request) < 2 ^ 64
unfolding Output.eligible_to_spend Output.num_confirmations
eligible_small = omega arith

select_send_tx_balances_example :
    Within sent.coins (eligible wallet request) × (80 ≡ 40 + 9 + amounts sent.changes)
select_send_tx_balances_example =
    select_send_tx_balances env wallet request 40 10 1 0 0 true sent eligible_small run_send
      (omega arith) (inr (omega arith))

-- Five change outputs for 14: a part is 2, and 14 % 2 is 0, so 4 are lost.
abbrev lossy : SendTx
lossy = record {
  parts =
      Part.output 2 120
      ∷ Part.output 2 121
      ∷ Part.output 2 122
      ∷ Part.output 2 123
      ∷ Part.output 2 124
      ∷ [];
  coins = coin_30 ∷ coin_50 ∷ [];
  changes = (2, 120, none) ∷ (2, 121, none) ∷ (2, 122, none) ∷ (2, 123, none) ∷ (2, 124, none) ∷ [];
  fee = 25;
  wallet = record wallet { child_index = (1, 25) ∷ [] };
}

run_lossy : select_send_tx env wallet request 41 10 5 0 0 false ≡ ok lossy
unfolding select_send_tx send_with inputs_and_change make_change add_change next_child
    save_child_index current_child_index select_coins_and_fee fund add_coins select_coins choose
    search_windows select_from_by take_selected Output.eligible_to_spend Output.num_confirmations
run_lossy = refl

select_send_tx_loses_example : 41 + 25 + amounts lossy.changes < 80
select_send_tx_loses_example =
    select_send_tx_loses env wallet request 41 10 5 0 0 false lossy eligible_small run_lossy
      (omega arith) (omega arith) (omega arith)

abbrev funded : Funding
funded = record { coins = coin_30 ∷ coin_50 ∷ []; total = 80; amount = 40; fee = 9 }

run_funding : select_coins_and_fee env wallet request 40 10 1 0 0 ≡ ok funded
unfolding select_coins_and_fee fund add_coins select_coins choose search_windows select_from_by
    take_selected Output.eligible_to_spend Output.num_confirmations
run_funding = refl

select_coins_and_fee_sound_example :
    (funded.amount ≡ 40)
    × (funded.total ≡ sum_by (λ (o : OutputData). o.value) funded.coins)
    × Within funded.coins (eligible wallet request)
    × (add64 40 9 ≤ 80)
    × HasFee env 40 1 0 0 funded
select_coins_and_fee_sound_example =
    select_coins_and_fee_sound env wallet request 40 1 0 0 10 funded eligible_small run_funding

select_coins_and_fee_ends_example : select_coins_and_fee env wallet request 70 1 3 0 0 ≢ timeout
select_coins_and_fee_ends_example =
    select_coins_and_fee_ends env wallet request 70 1 3 0 0 eligible_small

run_select : select_coins wallet 41 100 1 10 false 1 ≡ ok (2, coin_30 ∷ coin_50 ∷ [])
unfolding select_coins choose search_windows select_from_by take_selected Output.eligible_to_spend
    Output.num_confirmations
run_select = refl

select_coins_sound_example :
    (2 ≡ length (eligible wallet request))
    × Within (coin_30 ∷ coin_50 ∷ []) (eligible wallet request)
    × All (λ o. is_eligible 1 100 1 o ≡ true) (coin_30 ∷ coin_50 ∷ [])
    × ((41 ≤ 80) ↔ (41 ≤ sum_by (λ (o : OutputData). o.value) (eligible wallet request)))
select_coins_sound_example =
    select_coins_sound wallet 41 100 1 10 false 1 2 (coin_30 ∷ coin_50 ∷ []) eligible_small
      run_select

abbrev no_output : ℕ
no_output = 0

run_change :
    make_change env 31 3 wallet
    ≡ ok (
      (10, 120, none) ∷ (10, 121, none) ∷ (11, 122, none) ∷ [],
      record wallet { child_index = (1, 23) ∷ [] },
    )
unfolding make_change add_change next_child save_child_index current_child_index
run_change = refl

make_change-eq-panic_iff_example :
    (make_change env 2 3 wallet ≡ panic) ↔ ((0 < 2) × ((three ≡ 0) ⊎ (2 < 3)))
make_change-eq-panic_iff_example = make_change-eq-panic_iff env 2 3 wallet
