-- ===== src/Runs/TokenSending.antt =====
-- The context of a sender of tokens with the example wallet.
use vcash_wallet.Base.{
  ℕ, ◌+◌, ◌≡◌, refl, true, false, none, some, List, [], ◌∷◌, arith, sum_by, ◌<◌, ◌^◌, ok,
}
use vcash_wallet.Types.Output
use vcash_wallet.Types.Output.{OutputData}
use vcash_wallet.Types.TokenOutput
use vcash_wallet.Types.Context.{
  Context, new_context, add_input, add_output, add_token_input, add_token_output,
}
use vcash_wallet.Backend.{Wallet, next_child, current_child_index, save_child_index}
use vcash_wallet.Selection.Coins.{
  take_selected, select_from_by, first_window, search_windows, choose, select_coins,
  select_token_coins,
}
use vcash_wallet.Selection.Fee.{add_coins, fund, select_coins_and_fee, select_token_coins_and_fee}
use vcash_wallet.Selection.Fee.Sound.{eligible}
use vcash_wallet.Selection.Change.{
  Part, add_change, make_change, inputs_and_change, token_inputs_and_change, send_with,
  select_send_tx, select_send_token_tx,
}
use vcash_wallet.Selection.Build.{add_inputs, add_outputs}
use vcash_wallet.Selection.Build.Token.{
  add_token_inputs, add_token_outputs, send_token_context, build_send_token_tx,
}
use vcash_wallet.Selection.Build.Balance.{total_of}
use vcash_wallet.Selection.Build.Token.Fees.{build_send_token_tx_balances}
use vcash_wallet.Runs.{env, wallet, request}

abbrev blinding : List Part → ℕ
blinding parts = 11

abbrev sent : Context
sent = record {
  parent_key_id = 1;
  sec_key = 11;
  token_sec_key = 11;
  sec_nonce = 13;
  initial_sec_key = 11;
  initial_sec_nonce = 13;
  output_ids = (121, none, 16) ∷ [];
  input_ids = (102, none, 30) ∷ [];
  token_output_ids = (120, none, 5) ∷ [];
  token_input_ids = (111, none, 4) ∷ (112, none, 6) ∷ [];
  amount = 5;
  fee = 14;
  payment_proof_derivation_index = none;
  is_invoice = false;
  calculated_excess = none;
}

abbrev after_sent : Wallet
after_sent = record wallet { child_index = (1, 22) ∷ [] }

run_build_token :
    build_send_token_tx env blinding blinding 13 14 5 true false false wallet request (some 9) 10 1
    ≡ ok (sent, after_sent)
unfolding build_send_token_tx send_token_context new_context add_inputs add_outputs add_input
    add_output add_token_inputs add_token_outputs add_token_input add_token_output
    select_send_token_tx token_inputs_and_change select_token_coins_and_fee select_token_coins
    first_window select_send_tx send_with inputs_and_change make_change add_change next_child
    save_child_index current_child_index select_coins_and_fee fund add_coins select_coins choose
    search_windows select_from_by take_selected Output.eligible_to_spend Output.num_confirmations
    TokenOutput.eligible_to_spend TokenOutput.num_confirmations
run_build_token = refl

values_fit : sum_by (λ (o : OutputData). o.value) (eligible wallet request) < 2 ^ 64
unfolding Output.eligible_to_spend Output.num_confirmations
values_fit = omega arith

build_send_token_tx_balances_example :
    (sent.amount ≡ 5) × (total_of sent.input_ids ≡ sent.fee + total_of sent.output_ids)
build_send_token_tx_balances_example =
    build_send_token_tx_balances env blinding blinding 13 14 5 true false false wallet request 9 10
      1 sent after_sent values_fit run_build_token (omega arith)
