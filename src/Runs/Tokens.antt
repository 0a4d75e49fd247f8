-- ===== src/Runs/Tokens.antt =====
-- Selections of token outputs of the example wallet.
use vcash_wallet.Base.{
  ◌≤◌, ◌<◌, ◌^◌, ◌≡◌, ◌≢◌, ◌↔◌, refl, false, [], ◌∷◌, arith, length, sum_by, ok,
}
use vcash_wallet.Types.TokenOutput
use vcash_wallet.Types.TokenOutput.{TokenOutputData}
use vcash_wallet.Selection.Coins.{
  take_selected, select_from_by, first_window, search_windows, choose, select_token_coins,
}
use vcash_wallet.Selection.Coins.Choice.{Within}
use vcash_wallet.Selection.Fee.{TokenFunding, select_token_coins_and_fee}
use vcash_wallet.Selection.Fee.Tokens.{
  eligible_tokens, select_token_coins_and_fee_sound, select_token_coins_and_fee_short,
}
use vcash_wallet.Runs.{wallet, request, token_6}

tokens_small : sum_by (λ (o : TokenOutputData). o.value) (eligible_tokens wallet request 9) < 2 ^ 64
unfolding TokenOutput.eligible_to_spend TokenOutput.num_confirmations
tokens_small = omega arith

run_select_tokens : select_token_coins wallet 5 9 100 1 1 false 1 ≡ ok (2, token_6 ∷ [])
unfolding select_token_coins choose search_windows first_window select_from_by take_selected
    TokenOutput.eligible_to_spend TokenOutput.num_confirmations
run_select_tokens = refl

abbrev token_funding : TokenFunding
token_funding = record { coins = token_6 ∷ []; total = 6; amount = 5 }

run_token_funding : select_token_coins_and_fee wallet request 5 9 1 ≡ ok token_funding
unfolding select_token_coins_and_fee select_token_coins choose search_windows first_window
    select_from_by take_selected TokenOutput.eligible_to_spend TokenOutput.num_confirmations
run_token_funding = refl

select_token_coins_and_fee_sound_example :
    (token_funding.amount ≡ 5)
    × (token_funding.total ≡ sum_by (λ (o : TokenOutputData). o.value) (token_6 ∷ []))
    × (0 < 6)
    × Within (token_6 ∷ []) (eligible_tokens wallet request 9)
    × ((5 ≤ 6) ↔ (5 ≤ sum_by (λ (o : TokenOutputData). o.value) (eligible_tokens wallet request 9)))
    × (6 < 5 → 1 ≢ length (eligible_tokens wallet request 9))
select_token_coins_and_fee_sound_example =
    select_token_coins_and_fee_sound wallet request 5 9 1 token_funding tokens_small
      run_token_funding

-- 4 and 6 do not cover 11; the call succeeds with the 6 alone.
select_token_coins_and_fee_short_example :
    (h : TokenFunding) × (select_token_coins_and_fee wallet request 11 9 1 ≡ ok h) × (h.total < 11)
unfolding TokenOutput.eligible_to_spend TokenOutput.num_confirmations
select_token_coins_and_fee_short_example =
    select_token_coins_and_fee_short wallet request 11 9 1 tokens_small (omega arith) (omega arith)
      (omega arith) (refl, (refl, tt))
