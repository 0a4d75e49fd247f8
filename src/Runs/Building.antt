-- ===== src/Runs/Building.antt =====
-- The contexts of a sender and of a recipient with the example wallet.
use vcash_wallet.Base.{
  ℕ, ◌+◌, ◌≡◌, inr, refl, true, false, none, some, List, [], ◌∷◌, arith, find?, sum_by, ◌<◌, ◌^◌,
  ok,
}
use vcash_wallet.Types.Output
use vcash_wallet.Types.Output.{OutputData}
use vcash_wallet.Types.Context.{Context, new_context, add_input, add_output}
use vcash_wallet.Backend.{
  Wallet, get, has_log_key, next_child, current_child_index, save_child_index, next_tx_log_id,
}
use vcash_wallet.Selection.Coins.{
  take_selected, select_from_by, search_windows, choose, select_coins,
}
use vcash_wallet.Selection.Fee.{add_coins, fund, select_coins_and_fee}
use vcash_wallet.Selection.Fee.Sound.{eligible}
use vcash_wallet.Selection.Change.{
  Part, add_change, make_change, inputs_and_change, send_with, select_send_tx,
}
use vcash_wallet.Selection.Lock.{SlateView}
use vcash_wallet.Selection.Build.{
  add_inputs, add_outputs, send_context, build_send_tx, build_recipient_output,
}
use vcash_wallet.Selection.Build.Balance.{total_of, build_send_tx_balances}
use vcash_wallet.Selection.Build.Received.{recipient, build_recipient_output_receives}
use vcash_wallet.Types.TxLog.{TxLogEntry, TxLogEntryType}
use vcash_wallet.Types.Status.{OutputStatus}
use vcash_wallet.Runs.{output, env, wallet, request}

abbrev blinding : List Part → ℕ
blinding parts = 11

abbrev send : Context
send = record {
  parent_key_id = 1;
  sec_key = 11;
  token_sec_key = 0;
  sec_nonce = 13;
  initial_sec_key = 11;
  initial_sec_nonce = 13;
  output_ids = (120, none, 31) ∷ [];
  input_ids = (102, none, 30) ∷ (101, none, 50) ∷ [];
  token_output_ids = [];
  token_input_ids = [];
  amount = 40;
  fee = 9;
  payment_proof_derivation_index = none;
  is_invoice = false;
  calculated_excess = none;
}

abbrev after_send : Wallet
after_send = record wallet { child_index = (1, 21) ∷ [] }

run_build :
    build_send_tx env blinding 13 14 40 true false false wallet request 10 1 ≡ ok (send, after_send)
unfolding build_send_tx send_context new_context add_inputs add_outputs add_input add_output
    select_send_tx send_with inputs_and_change make_change add_change next_child save_child_index
    current_child_index select_coins_and_fee fund add_coins select_coins choose search_windows
    select_from_by take_selected Output.eligible_to_spend Output.num_confirmations
run_build = refl

eligible_fits : sum_by (λ (o : OutputData). o.value) (eligible wallet request) < 2 ^ 64
unfolding Output.eligible_to_spend Output.num_confirmations
eligible_fits = omega arith

build_send_tx_balances_example :
    (send.amount ≡ 40) × (total_of send.input_ids ≡ 40 + 9 + total_of send.output_ids)
build_send_tx_balances_example =
    build_send_tx_balances env blinding 13 14 40 true false false wallet request 10 1 send
      after_send eligible_fits run_build (omega arith) (inr (omega arith))

abbrev slate : SlateView
slate = record {
  id = 78;
  token_type = none;
  ttl_cutoff_height = 200;
  payment_proof = none;
  excess = none;
  has_tx = true;
}

build_recipient_output_receives_example :
    let r = recipient env (11, 12) 13 14 50 slate 25 9 100 1 false false wallet in
    (get 120 none r.wallet
      ≡ some (record (output 120 25 OutputStatus.unconfirmed 100 false (some 8)) {
        commit = some 25120;
      }))
    × (t : TxLogEntry) × (find? (has_log_key 1 8) r.wallet.tx_log ≡ some (1, t))
    × (t.tx_type ≡ TxLogEntryType.tx_received)
    × (t.tx_slate_id ≡ some slate.id)
    × (t.confirmed ≡ false)
    × (t.amount_credited ≡ 25)
    × (t.amount_debited ≡ 0)
    × (t.num_outputs ≡ 1)
unfolding build_recipient_output next_child current_child_index save_child_index next_tx_log_id
build_recipient_output_receives_example =
    build_recipient_output_receives env (11, 12) 13 14 50 slate 25 9 100 1 false false wallet 120
      none refl
