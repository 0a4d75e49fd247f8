-- ===== src/Selection/Coins/Prefix.antt =====
-- The front part that `select_from` selects out of a list
-- (libwallet/src/internal/selection.rs).
use vcash_wallet.Base.{
  ℕ, ◌+◌, ◌≤◌, ◌<◌, ◌^◌, ◌≡◌, List, [], ◌∷◌, ◌++◌, arith, length, sum_by, add64,
}
use vcash_wallet.Selection.Coins.{take_selected}

module _ {A : Type 0} (value : A → ℕ) where
  pub take_selected_within :
      (amount selected : ℕ) (xs : List A) (f : A → ℕ)
      → sum_by f (take_selected value amount selected xs) ≤ sum_by f xs
  unfolding take_selected
  take_selected_within amount selected [] f = omega arith
  take_selected_within amount selected (x ∷ xs) f =
      ground (arith, take_selected_within amount (add64 selected (value x)) xs f)

  -- The selection covers the amount, where the whole list does.
  pub take_selected_covers :
      (amount selected : ℕ) (xs : List A)
      → selected + sum_by value xs < 2 ^ 64
      → amount ≤ selected + sum_by value xs
      → amount ≤ selected + sum_by value (take_selected value amount selected xs)
  unfolding take_selected
  take_selected_covers amount selected [] fits h = omega arith
  take_selected_covers amount selected (x ∷ xs) fits h =
      ground (arith, take_selected_covers amount (add64 selected (value x)) xs)

  -- A larger amount than the selection covers selects more outputs.
  pub take_selected_grows :
      (a b selected : ℕ) (xs : List A)
      → selected + sum_by value xs < 2 ^ 64
      → selected + sum_by value (take_selected value a selected xs) < b
      → b ≤ selected + sum_by value xs
      → length (take_selected value a selected xs) < length (take_selected value b selected xs)
  unfolding take_selected
  take_selected_grows a b selected [] fits h k = absurd (omega arith)
  take_selected_grows a b selected (x ∷ xs) fits h k =
      ground (arith, take_selected_grows a b (add64 selected (value x)) xs)

  -- Without its last output the selection does not cover the amount.
  take_selected_tight :
      (amount selected : ℕ) (xs front : List A) (x : A)
      → selected + sum_by value xs < 2 ^ 64
      → take_selected value amount selected xs ≡ front ++ (x ∷ [])
      → selected + sum_by value front < amount
  unfolding take_selected
  take_selected_tight amount selected [] [] x fits e = cc
  take_selected_tight amount selected [] (y ∷ front) x fits e = cc
  take_selected_tight amount selected (z ∷ xs) [] x fits e = ground arith
  take_selected_tight amount selected (z ∷ xs) (y ∷ front) x fits e =
      ground (arith, take_selected_tight amount (add64 selected (value z)) xs front x)
