-- ===== src/Selection/Change.antt =====
-- `inputs_and_change`, `token_inputs_and_change` and the calls that join them with the selection of
-- coins (libwallet/src/internal/selection.rs). `num_change_outputs` is a usize of 64 bits.
pub mod Amounts
pub mod Balance
use vcash_wallet.Base.{
  ℕ, zero, suc, ◌+◌, ◌-◌, ◌/◌, ◌%◌, Bool, Option, none, List, [], ◌∷◌, ◌++◌, map, ◌==◌,
  if◌then◌else◌, add64, sub64, sum64_from, Outcome, ok, panic, ◌>>=◌,
}
use vcash_wallet.Env.{Env}
use vcash_wallet.Types.Status.{Identifier, TokenType}
use vcash_wallet.Types.Output.{OutputData}
use vcash_wallet.Types.TokenOutput.{TokenOutputData}
use vcash_wallet.Backend.{Wallet, next_child}
use vcash_wallet.Selection.Errors.{Error}
use vcash_wallet.Selection.Fee.{
  Request, Funding, TokenFunding, total_value, select_coins_and_fee, select_token_coins_and_fee,
}

-- The calls of `libtx::build` that the transaction is built by.
pub data Part : Type 0 where
  coinbase_input input output : ℕ → Identifier → Part
  token_input token_output : ℕ → TokenType → Bool → Identifier → Part

-- A change amount, its key and its mmr index.
abbrev pub Change : Type 0
Change = ℕ × Identifier × Option ℕ

-- The amount of the change output number `x` out of `num`.
abbrev pub change_amount : ℕ → ℕ → ℕ → ℕ → ℕ
change_amount num part_change remainder_change x =
    if x == num - 1 then add64 part_change remainder_change else part_change

module _ (env : Env) where
  -- The loop over the change outputs, from number `x` on, with `left` still to be made.
  unfoldable pub add_change : ℕ → ℕ → ℕ → ℕ → ℕ → Wallet → List Change × Wallet
  add_change zero num part_change remainder_change x w = ([], w)
  add_change (suc left) num part_change remainder_change x w =
      let (change_key, w') = next_child env w in
      let (rest, w'') = add_change left num part_change remainder_change (x + 1) w' in
      ((change_amount num part_change remainder_change x, change_key, none) ∷ rest, w'')

  -- The change outputs for what is left. Division and remainder by 0 panic.
  unfoldable pub make_change : ℕ → ℕ → Wallet → Outcome Error (List Change × Wallet)
  unfolding add_change
  make_change change num_change_outputs w =
      let part_change = change / num_change_outputs in
      if change == 0
      then ok ([], w)
      else if num_change_outputs == 0
      then panic
      else if part_change == 0
      then panic
      else ok
          (add_change num_change_outputs num_change_outputs part_change (change % part_change) 0 w)

  abbrev pub input_part : OutputData → Part
  input_part coin =
      if coin.is_coinbase
      then coinbase_input coin.value coin.key_id
      else input coin.value coin.key_id

  abbrev pub output_part : Change → Part
  output_part (amount, key, _) = output amount key

  unfoldable pub inputs_and_change :
      List OutputData → Wallet → ℕ → ℕ → ℕ → Bool → Outcome Error (List Part × List Change × Wallet)
  inputs_and_change coins w amount fee num_change_outputs include_inputs_in_sum =
      make_change (sub64 (sub64 (total_value coins) amount) fee) num_change_outputs w >>= λ made.
      ok (
        (if include_inputs_in_sum then map input_part coins else []) ++ map output_part made.0,
        made.0,
        made.1,
      )

  abbrev pub token_input_part : TokenType → TokenOutputData → Part
  token_input_part token_type coin =
      token_input coin.value token_type coin.is_token_issue coin.key_id

  abbrev pub token_output_part : TokenType → Change → Part
  token_output_part token_type (amount, key, _) = token_output amount token_type Bool.false key

  unfoldable pub token_inputs_and_change :
      List TokenOutputData
      → Wallet
      → ℕ
      → TokenType
      → ℕ
      → Bool
      → Outcome Error (List Part × List Change × Wallet)
  token_inputs_and_change coins w amount token_type num_change_outputs include_inputs_in_sum =
      make_change (sub64 (sum64_from (λ o. o.value) 0 coins) amount) num_change_outputs w
      >>= λ made. ok (
        (if include_inputs_in_sum then map (token_input_part token_type) coins else [])
            ++ map (token_output_part token_type) made.0,
        made.0,
        made.1,
      )

-- What `select_send_tx` returns, with the wallet after it.
pub record SendTx : Type 0 where
  pub parts : List Part
  pub coins : List OutputData
  pub changes : List Change
  pub fee : ℕ
  pub wallet : Wallet

pub record SendTokenTx : Type 0 where
  pub parts : List Part
  pub coins : List TokenOutputData
  pub changes : List Change
  pub wallet : Wallet

module _ (env : Env) where
  -- What follows the selection of the coins.
  unfoldable pub send_with : Wallet → ℕ → Bool → Funding → Outcome Error SendTx
  send_with w change_outputs include_inputs_in_sum f =
      inputs_and_change env f.coins w f.amount f.fee change_outputs include_inputs_in_sum
      >>= λ made. ok (record {
        parts = made.0;
        coins = f.coins;
        changes = made.1;
        fee = f.fee;
        wallet = made.2;
      })

  unfoldable pub select_send_tx : Wallet → Request → ℕ → ℕ → ℕ → ℕ → ℕ → Bool → Outcome Error SendTx
  unfolding send_with
  select_send_tx w r amount max_outputs change_outputs token_inputs token_outputs
        include_inputs_in_sum =
      select_coins_and_fee env w r amount max_outputs change_outputs token_inputs token_outputs
      >>= send_with w change_outputs include_inputs_in_sum

  -- The token type's text is taken to be a token key: `from_hex` fails on any other.
  unfoldable pub select_send_token_tx :
      Wallet → Request → ℕ → TokenType → ℕ → ℕ → Bool → Outcome Error SendTokenTx
  select_send_token_tx w r amount token_type max_outputs change_outputs include_inputs_in_sum =
      select_token_coins_and_fee w r amount token_type max_outputs >>= λ f.
      token_inputs_and_change env f.coins w f.amount token_type change_outputs include_inputs_in_sum
      >>= λ made. ok (record { parts = made.0; coins = f.coins; changes = made.1; wallet = made.2 })
