-- ===== src/Selection/Coins.antt =====
-- `select_coins`, `select_from` and their copies for tokens (libwallet/src/internal/selection.rs).
-- The two copies differ in the type of an output alone, so the bodies are generic over it.
pub mod Sorted
pub mod Prefix
pub mod Choice
pub mod Calls
use mathlib.Core.List.{reverse}
use mathlib.Core.Option.{get_or}
use vcash_wallet.Base.{
  ℕ, Bool, true, false, ◌&&◌, Option, none, some, List, [], ◌∷◌, ltb, leb, ◌==◌, if◌then◌else◌,
  length, take, filter, windows, sort_by_key, add64, sum64_from, Outcome, ok, panic,
}
use vcash_wallet.Types.Status.{Identifier, TokenType}
use vcash_wallet.Types.Output
use vcash_wallet.Types.Output.{OutputData}
use vcash_wallet.Types.TokenOutput
use vcash_wallet.Types.TokenOutput.{TokenOutputData}
use vcash_wallet.Backend.{Wallet}
use vcash_wallet.Selection.Errors.{Error}

module _ {A : Type 0} where
  -- The largest outputs, where nothing was found.
  unfoldable pub largest : ℕ → List A → List A
  largest max_outputs eligible = take max_outputs (reverse eligible)

module _ {A : Type 0} (value : A → ℕ) where
  -- The `take_while` with its running `selected_amount`.
  unfoldable pub take_selected : ℕ → ℕ → List A → List A
  take_selected amount selected [] = []
  take_selected amount selected (x ∷ xs) =
      let rest = take_selected amount (add64 selected (value x)) xs in
      if ltb selected amount then x ∷ rest else []

  unfoldable pub select_from_by : ℕ → Bool → List A → Option (List A)
  select_from_by amount select_all outputs =
      if leb amount (sum64_from value 0 outputs)
      then some (if select_all then outputs else take_selected amount 0 outputs)
      else none

  -- The first window from which the amount can be selected.
  unfoldable pub first_window : ℕ → Bool → List (List A) → Option (List A)
  first_window amount select_all [] = none
  first_window amount select_all (w ∷ ws) =
      let rest = first_window amount select_all ws in
      elim (select_from_by amount select_all w) [ some outputs ↦ some outputs | none ↦ rest ]

  -- What is found among the sorted eligible outputs: in a window, else over all of them.
  unfoldable pub search_windows : ℕ → ℕ → Bool → List A → Option (List A)
  search_windows amount max_outputs select_all eligible =
      if ltb max_outputs (length eligible)
      then elim (first_window amount select_all (windows max_outputs eligible)) [
        | some outputs ↦ some outputs
        | none ↦ select_from_by amount false eligible
      ]
      else select_from_by amount select_all eligible

  -- The body of `select_coins` behind its filter. `windows` panics on a size of 0.
  unfoldable pub choose : ℕ → ℕ → Bool → List A → Outcome Error (ℕ × List A)
  choose amount max_outputs select_all outputs =
      let eligible = sort_by_key value outputs in
      if ltb max_outputs (length eligible) && max_outputs == 0
      then panic
      else ok (
        length eligible,
        get_or (search_windows amount max_outputs select_all eligible)
            (largest max_outputs eligible),
      )

unfoldable pub select_from : ℕ → Bool → List OutputData → Option (List OutputData)
unfolding select_from_by
select_from = select_from_by (λ o. o.value)

unfoldable pub select_token_from : ℕ → Bool → List TokenOutputData → Option (List TokenOutputData)
unfolding select_from_by
select_token_from = select_from_by (λ o. o.value)

-- The filter of `select_coins`.
abbrev pub is_eligible : Identifier → ℕ → ℕ → OutputData → Bool
is_eligible parent_key_id current_height minimum_confirmations out =
    out.root_key_id == parent_key_id
    && Output.eligible_to_spend out current_height minimum_confirmations

abbrev pub is_eligible_token : Identifier → TokenType → ℕ → ℕ → TokenOutputData → Bool
is_eligible_token parent_key_id token_type current_height minimum_confirmations out =
    out.root_key_id == parent_key_id
    && out.token_type == token_type
    && TokenOutput.eligible_to_spend out current_height minimum_confirmations

unfoldable pub select_coins :
    Wallet → ℕ → ℕ → ℕ → ℕ → Bool → Identifier → Outcome Error (ℕ × List OutputData)
select_coins w amount current_height minimum_confirmations max_outputs select_all parent_key_id =
    choose (λ o. o.value) amount max_outputs select_all
      (filter (is_eligible parent_key_id current_height minimum_confirmations) w.outputs)

unfoldable pub select_token_coins :
    Wallet
    → ℕ
    → TokenType
    → ℕ
    → ℕ
    → ℕ
    → Bool
    → Identifier
    → Outcome Error (ℕ × List TokenOutputData)
select_token_coins w amount token_type current_height minimum_confirmations max_outputs select_all
      parent_key_id =
    choose (λ o. o.value) amount max_outputs select_all
      (filter (is_eligible_token parent_key_id token_type current_height minimum_confirmations)
        w.token_outputs)
