-- ===== src/Selection/Fee/Ends.antt =====
-- The number of rounds of the loop of `select_coins_and_fee`
-- (libwallet/src/internal/selection.rs).
use vcash_wallet.Base.{
  ℕ, zero, suc, ◌+◌, ◌-◌, ◌≤◌, ◌<◌, ◌^◌, ◌≡◌, ◌≢◌, refl, ◌∙◌, ◌⊎◌, inl, inr, Bool, true, false,
  List, [], ◌∷◌, take, length-append, arith, length, sum_by, add64, ltb, ◌==◌, sum64_from,
  sum64_from-eq-add, ok, timeout, Bool-cases, sort_by_key,
}
use mathlib.Core.List.{reverse, reverse-append}
use mathlib.Core.Option.{get_or}
use vcash_wallet.Env.{Env}
use vcash_wallet.Types.Output.{OutputData}
use vcash_wallet.Backend.{Wallet}
use vcash_wallet.Selection.Coins.{
  select_coins, choose, search_windows, largest, take_selected, select_from_by,
}
use vcash_wallet.Selection.Coins.Sorted.{length-sort_by_key, sum_by-sort_by_key}
use vcash_wallet.Selection.Coins.Prefix.{take_selected_grows, take_selected_within}
use vcash_wallet.Selection.Coins.Choice.{choose_cases}
use vcash_wallet.Selection.Fee.{
  Request, total_value, refreshed, add_coins, output_len, fee_for, fund, select_coins_and_fee,
}
use vcash_wallet.Selection.Fee.Loop.{add_coins_step}
use vcash_wallet.Selection.Fee.Sound.{eligible}

module _ {A : Type 0} where
  length-reverse : (xs : List A) → length (reverse xs) ≡ length xs
  length-reverse [] = refl
  length-reverse (x ∷ xs) =
      rw (reverse-append (x ∷ []) xs)
        (omega (arith, length-append (reverse xs) (x ∷ []), length-reverse xs))

  length-take_all : (n : ℕ) (xs : List A) → length xs ≡ n → length (take n xs) ≡ n
  length-take_all zero xs e = omega arith
  length-take_all (suc n) [] e = omega arith
  length-take_all (suc n) (x ∷ xs) e = omega (arith, length-take_all n xs (omega arith))

  length-largest_all : (xs : List A) → length (largest (length xs) xs) ≡ length xs
  unfolding largest
  length-largest_all xs = length-take_all (length xs) (reverse xs) (length-reverse xs)

module _ {A : Type 0} (value : A → ℕ) where
  -- Coins as the loop chooses them: as many as there are eligible outputs, or the smallest that
  -- cover some amount that all of them cover.
  abbrev IsChosen : List A → ℕ → List A → Type 0
  IsChosen sorted amount coins =
      (length coins ≡ length sorted)
      ⊎ (coins ≡ take_selected value amount 0 sorted) × (amount ≤ sum_by value sorted)

  abbrev picked : ℕ → Bool → List A → List A
  picked amount select_all s =
      get_or (search_windows value amount (length s) select_all s) (largest (length s) s)

  picked-IsChosen :
      (amount : ℕ) (select_all : Bool) (s : List A)
      → sum_by value s < 2 ^ 64
      → IsChosen s amount (picked amount select_all s)
  unfolding search_windows select_from_by
  picked-IsChosen amount true s fits = inl (ground (arith, length-largest_all s))
  picked-IsChosen amount false s fits =
      ground (arith, length-largest_all s, sum64_from-eq-add value 0 s (omega arith))

  -- Asked for as many outputs as there are, the choice succeeds.
  choose-IsChosen :
      (amount : ℕ) (select_all : Bool) (outputs : List A)
      → sum_by value outputs < 2 ^ 64
      → (coins : List A) × (choose value amount (length outputs) select_all outputs
          ≡ ok (length outputs, coins))
        × IsChosen (sort_by_key value outputs) amount coins
  unfolding choose
  choose-IsChosen amount select_all outputs fits =
      let s = sort_by_key value outputs in
      (
        picked amount select_all s,
        ground (arith, length-sort_by_key value outputs),
        picked-IsChosen amount select_all s (rw (sum_by-sort_by_key value value outputs) fits),
      )

  length-take_selected_le :
      (amount selected : ℕ) (xs : List A)
      → length (take_selected value amount selected xs) ≤ length xs
  unfolding take_selected
  length-take_selected_le amount selected [] = omega arith
  length-take_selected_le amount selected (x ∷ xs) =
      ground (arith, length-take_selected_le amount (add64 selected (value x)) xs)

  length-IsChosen :
      (s : List A) (a : ℕ) (coins : List A) → IsChosen s a coins → length coins ≤ length s
  length-IsChosen s a coins (inl all) = omega arith
  length-IsChosen s a coins (inr (taken, _)) = rw taken (length-take_selected_le a 0 s)

  -- Coins that do not cover the next amount, and are not all, are followed by more coins.
  IsChosen-grows :
      (s : List A) (a b : ℕ) (coins next : List A)
      → sum_by value s < 2 ^ 64
      → IsChosen s a coins
      → IsChosen s b next
      → length coins ≢ length s
      → sum64_from value 0 coins < b
      → length coins < length next
  IsChosen-grows s a b coins next fits (inl all) n ne less = absurd (ne all)
  IsChosen-grows s a b coins next fits (inr c) (inl all) ne less =
      omega (arith, all, length-IsChosen s a coins (inr c))
  IsChosen-grows s a b coins next fits (inr (taken, _)) (inr (taken', covered)) ne less =
      let grown =
        take_selected_grows value a b 0 s (omega arith)
          (ground (
            arith,
            taken,
            less,
            sum64_from-eq-add value 0 coins,
            take_selected_within value a 0 s value,
          ))
          (omega arith) in
      ground (arith, grown, taken, taken')

module _ (w : Wallet) (r : Request) (amount : ℕ) (fee_of : ℕ → ℕ) where
  abbrev sorted : List OutputData
  sorted = sort_by_key (λ o. o.value) (eligible w r)

  abbrev available : ℕ
  available = length (eligible w r)

  abbrev needed : List OutputData → ℕ
  needed coins = add64 amount (fee_of (length coins))

  -- A round ends the loop, or goes on with coins chosen for what the last ones needed.
  add_coins_round :
      (fuel : ℕ) (coins : List OutputData)
      → sum_by (λ o. o.value) (eligible w r) < 2 ^ 64
      → ((next : List OutputData)
          → IsChosen (λ o. o.value) sorted (needed coins) next
          → length coins ≢ available
          → total_value coins < needed coins
          → add_coins w r amount available fee_of fuel (refreshed amount fee_of next) ≢ timeout)
      → add_coins w r amount available fee_of (suc fuel) (refreshed amount fee_of coins) ≢ timeout
  unfolding select_coins
  add_coins_round fuel coins fits after =
      elim (Bool-cases (ltb (total_value coins) (needed coins))) [
        | inr enough ↦ unfold add_coins in (λ e. ground arith)
        | inl less ↦ elim (Bool-cases (length coins == available)) [
          | inl all ↦ unfold add_coins in (λ e. ground arith)
          | inr more ↦
              let (next, found, chosen) =
                choose-IsChosen (λ o. o.value) (needed coins) r.select_all (eligible w r) fits in
              rw
                (add_coins_step w r amount available fee_of fuel (refreshed amount fee_of coins)
                  less more)
                (rw found (after next chosen (ground arith) (ground arith)))
        ]
      ]

  -- The loop has enough fuel where that exceeds the number of coins not yet chosen.
  add_coins_enough :
      (fuel a : ℕ) (coins : List OutputData)
      → sum_by (λ o. o.value) (eligible w r) < 2 ^ 64
      → IsChosen (λ o. o.value) sorted a coins
      → available - length coins < fuel
      → add_coins w r amount available fee_of fuel (refreshed amount fee_of coins) ≢ timeout
  add_coins_enough zero a coins fits chosen enough = elim enough [ ]
  add_coins_enough (suc fuel) a coins fits chosen enough =
      add_coins_round fuel coins fits λ next c more less.
        let same = length-sort_by_key (λ (o : OutputData). o.value) (eligible w r) in
        add_coins_enough fuel (needed coins) next fits c (
          omega (
            arith,
            same,
            length-IsChosen (λ (o : OutputData). o.value) sorted a coins chosen,
            IsChosen-grows (λ (o : OutputData). o.value) sorted a (needed coins) coins next
                (rw
                  (sum_by-sort_by_key (λ (o : OutputData). o.value) (λ (o : OutputData). o.value)
                    (eligible w r))
                  fits)
                chosen c (λ e. more (e ∙ same)) less,
          ))

  add_coins_ends :
      (coins : List OutputData)
      → sum_by (λ o. o.value) (eligible w r) < 2 ^ 64
      → add_coins w r amount available fee_of (available + 3) (refreshed amount fee_of coins)
        ≢ timeout
  add_coins_ends coins fits =
      let fuel : available + 3 ≡ suc (available + 2) = omega arith in
      rw fuel (
        add_coins_round (available + 2) coins fits λ next c more less.
          add_coins_enough (available + 2) (needed coins) next fits c (omega arith))

module _ (env : Env) (w : Wallet) (r : Request) where
  fund_ends :
      (amount change_outputs ti to : ℕ) (coins : List OutputData)
      → sum_by (λ o. o.value) (eligible w r) < 2 ^ 64
      → fund env w r amount change_outputs ti to (length (eligible w r), coins) ≢ timeout
  unfolding fund
  fund_ends amount change_outputs ti to coins fits e =
      let fee_of : ℕ → ℕ = fee_for env ti to (change_outputs + output_len amount) in
      ground (arith, add_coins_ends w r amount fee_of coins fits)

  -- Where the values of the eligible outputs add up to less than 2^64, `select_coins_and_fee` ends:
  -- its loop has fuel for three rounds more than there are eligible outputs, and never uses it up.
  pub select_coins_and_fee_ends :
      (amount max_outputs change_outputs ti to : ℕ)
      → sum_by (λ o. o.value) (eligible w r) < 2 ^ 64
      → select_coins_and_fee env w r amount max_outputs change_outputs ti to ≢ timeout
  unfolding select_coins_and_fee select_coins
  select_coins_and_fee_ends amount max_outputs change_outputs ti to fits =
      elim (choose_cases (λ (o : OutputData). o.value) (add64 amount env.default_base_fee)
        max_outputs r.select_all (eligible w r)) [
          | inl (_, _, p) ↦ rw p (λ e. cc)
          | inr (o, _, p) ↦ rw p (fund_ends amount change_outputs ti to o fits)
        ]
