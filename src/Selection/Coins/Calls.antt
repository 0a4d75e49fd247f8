-- ===== src/Selection/Coins/Calls.antt =====
-- What `select_coins` and `select_token_coins` return (libwallet/src/internal/selection.rs).
use vcash_wallet.Base.{
  ℕ, ◌≤◌, ◌<◌, ◌^◌, ◌≡◌, ◌≢◌, ◌↔◌, ◌⊎◌, Bool, true, List, [], ◌∷◌, arith, length, filter, sum_by,
  All, ok, panic,
}
use vcash_wallet.Types.Status.{Identifier, TokenType}
use vcash_wallet.Types.Output.{OutputData}
use vcash_wallet.Types.TokenOutput.{TokenOutputData}
use vcash_wallet.Backend.{Wallet}
use vcash_wallet.Selection.Coins.{is_eligible, is_eligible_token, select_coins, select_token_coins}
use vcash_wallet.Selection.Coins.Choice.{Within, Within-All, choose_sound, choose_cases}

filter-All : {A : Type 0} (p : A → Bool) (xs : List A) → All (λ x. p x ≡ true) (filter p xs)
filter-All p [] = tt
filter-All p (x ∷ xs) = ground (arith, filter-All p xs)

module _ (w : Wallet) (amount height confirmations max_outputs : ℕ) (select_all : Bool)
    (parent_key_id : Identifier) where
  abbrev spendable : List OutputData
  spendable = filter (is_eligible parent_key_id height confirmations) w.outputs

  -- Where the values of the eligible outputs add up to less than 2^64: `select_coins` returns how
  -- many outputs are eligible, and coins out of these, each of them eligible; the coins cover the
  -- amount if and only if all eligible outputs together do.
  pub select_coins_sound :
      (m : ℕ) (coins : List OutputData)
      → sum_by (λ o. o.value) spendable < 2 ^ 64
      → select_coins w amount height confirmations max_outputs select_all parent_key_id
        ≡ ok (m, coins)
      → (m ≡ length spendable)
        × Within coins spendable
        × All (λ o. is_eligible parent_key_id height confirmations o ≡ true) coins
        × ((amount ≤ sum_by (λ o. o.value) coins) ↔ (amount ≤ sum_by (λ o. o.value) spendable))
  unfolding select_coins
  select_coins_sound m coins fits e =
      let sound =
        choose_sound (λ o. o.value) amount max_outputs m select_all spendable coins fits e in
      (
        sound.0,
        sound.1,
        Within-All (is_eligible parent_key_id height confirmations) coins spendable sound.1
            (filter-All (is_eligible parent_key_id height confirmations) w.outputs),
        sound.2,
      )

  -- `select_coins` panics if it may take no output and there is an eligible one, and returns a
  -- choice of coins with the number of eligible outputs in every other case.
  select_coins_ends :
      ((max_outputs ≡ 0)
        × (spendable ≢ [])
        × (select_coins w amount height confirmations max_outputs select_all parent_key_id ≡ panic))
      ⊎ ((coins : List OutputData) × ((max_outputs ≡ 0) → spendable ≡ [])
          × (select_coins w amount height confirmations max_outputs select_all parent_key_id
              ≡ ok (length spendable, coins)))
  unfolding select_coins
  select_coins_ends = choose_cases (λ o. o.value) amount max_outputs select_all spendable

  module _ (token_type : TokenType) where
    abbrev spendable_tokens : List TokenOutputData
    spendable_tokens =
        filter (is_eligible_token parent_key_id token_type height confirmations) w.token_outputs

    -- Where the values of the eligible outputs of a token type add up to less than 2^64:
    -- `select_token_coins` returns how many there are, and coins out of these, each of them
    -- eligible; the coins cover the amount if and only if all of them together do.
    select_token_coins_sound :
        (m : ℕ) (coins : List TokenOutputData)
        → sum_by (λ o. o.value) spendable_tokens < 2 ^ 64
        → select_token_coins w amount token_type height confirmations max_outputs select_all
            parent_key_id
          ≡ ok (m, coins)
        → (m ≡ length spendable_tokens)
          × Within coins spendable_tokens
          × All
              (λ o. is_eligible_token parent_key_id token_type height confirmations o ≡ true)
              coins
          × ((amount ≤ sum_by (λ o. o.value) coins)
              ↔ (amount ≤ sum_by (λ o. o.value) spendable_tokens))
    unfolding select_token_coins
    select_token_coins_sound m coins fits e =
        let sound =
          choose_sound (λ o. o.value) amount max_outputs m select_all spendable_tokens coins fits
            e in
        (
          sound.0,
          sound.1,
          Within-All (is_eligible_token parent_key_id token_type height confirmations) coins
              spendable_tokens sound.1
              (filter-All (is_eligible_token parent_key_id token_type height confirmations)
                w.token_outputs),
          sound.2,
        )
