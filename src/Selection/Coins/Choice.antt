-- ===== src/Selection/Coins/Choice.antt =====
-- The choice of coins in `select_coins` behind its filter
-- (libwallet/src/internal/selection.rs).
use vcash_wallet.Base.{
  ℕ, suc, zero, ◌≤◌, ◌<◌, ◌^◌, ◌≡◌, ◌≢◌, ◌⊎◌, inl, inr, refl, ◌↔◌, Bool, true, false, none, some,
  List, [], ◌∷◌, arith, length, take, windows, sort_by_key, sum_by, All, sum64_from-eq-add,
  if◌then◌else◌, ok, panic,
}
use mathlib.Core.Option.{get_or}
use mathlib.Core.List.{reverse, reverse-append}
use vcash_wallet.Selection.Coins.{select_from_by, first_window, search_windows, largest, choose}
use vcash_wallet.Selection.Coins.Sorted.{sum_by-append, sum_by-sort_by_key, length-sort_by_key}
use vcash_wallet.Selection.Coins.Prefix.{take_selected_covers, take_selected_within}

-- `o` is made of elements of `xs`, each used at most as often as it stands there: whatever the
-- elements are measured by, `o` weighs no more.
abbrev pub Within : {A : Type 0} → List A → List A → Type 0
Within {A} o xs = (f : A → ℕ) → sum_by f o ≤ sum_by f xs

module _ {A : Type 0} where
  take-Within : (n : ℕ) (xs : List A) → Within (take n xs) xs
  take-Within zero xs f = omega arith
  take-Within (suc n) [] f = omega arith
  take-Within (suc n) (x ∷ xs) f = omega (arith, take-Within n xs f)

  sum_by-reverse : (f : A → ℕ) (xs : List A) → sum_by f (reverse xs) ≡ sum_by f xs
  sum_by-reverse f [] = refl
  sum_by-reverse f (x ∷ xs) =
      rw (reverse-append (x ∷ []) xs)
        (omega (arith, sum_by-append f (reverse xs) (x ∷ []), sum_by-reverse f xs))

  none_of :
      (p : A → Bool) (xs : List A)
      → All (λ x. p x ≡ true) xs
      → sum_by (λ x. if p x then 0 else 1) xs ≡ 0
  none_of p [] h = refl
  none_of p (x ∷ xs) h = ground (arith, none_of p xs h.1)

  each_of :
      (p : A → Bool) (xs : List A)
      → sum_by (λ x. if p x then 0 else 1) xs ≡ 0
      → All (λ x. p x ≡ true) xs
  each_of p [] h = tt
  each_of p (x ∷ xs) h = ground (arith, each_of p xs)

  -- What every element of the whole passes, the chosen ones pass.
  pub Within-All :
      (p : A → Bool) (o xs : List A)
      → Within o xs
      → All (λ x. p x ≡ true) xs
      → All (λ x. p x ≡ true) o
  Within-All p o xs w h = each_of p o (omega (arith, w (λ x. if p x then 0 else 1), none_of p xs h))

module _ {A : Type 0} (value : A → ℕ) where
  -- In these lemmas the second part, at every measure `f`, says that `o` is `Within` the list.
  select_from_by_sound :
      (amount : ℕ) (select_all : Bool) (xs o : List A) (f : A → ℕ)
      → sum_by value xs < 2 ^ 64
      → select_from_by value amount select_all xs ≡ some o
      → (amount ≤ sum_by value o) × (sum_by f o ≤ sum_by f xs)
  unfolding select_from_by
  select_from_by_sound amount true xs o f fits e =
      ground (arith, sum64_from-eq-add value 0 xs (omega arith))
  select_from_by_sound amount false xs o f fits e = ground (
    arith,
    sum64_from-eq-add value 0 xs (omega arith),
    take_selected_covers value amount 0 xs (omega arith),
    take_selected_within value amount 0 xs f,
  )

  select_from_by-none :
      (amount : ℕ) (select_all : Bool) (xs : List A)
      → sum_by value xs < 2 ^ 64
      → select_from_by value amount select_all xs ≡ none
      → sum_by value xs < amount
  unfolding select_from_by
  select_from_by-none amount select_all xs fits e =
      ground (arith, sum64_from-eq-add value 0 xs (omega arith))

  first_window_sound :
      (amount n : ℕ) (select_all : Bool) (xs o : List A) (f : A → ℕ)
      → sum_by value xs < 2 ^ 64
      → first_window value amount select_all (windows n xs) ≡ some o
      → (amount ≤ sum_by value o) × (sum_by f o ≤ sum_by f xs)
  unfolding first_window
  first_window_sound amount n select_all [] o f fits e = cc
  first_window_sound amount n select_all (x ∷ xs) o f fits e = ground (
    arith,
    take-Within n (x ∷ xs) f,
    take-Within n (x ∷ xs) value,
    select_from_by_sound amount select_all (take n (x ∷ xs)) o f,
    first_window_sound amount n select_all xs o f,
  )

  pub search_windows_sound :
      (amount max_outputs : ℕ) (select_all : Bool) (xs o : List A) (f : A → ℕ)
      → sum_by value xs < 2 ^ 64
      → search_windows value amount max_outputs select_all xs ≡ some o
      → (amount ≤ sum_by value o) × (sum_by f o ≤ sum_by f xs)
  unfolding search_windows
  search_windows_sound amount max_outputs select_all xs o f fits e = ground (
    arith,
    first_window_sound amount max_outputs select_all xs o f,
    select_from_by_sound amount false xs o f,
    select_from_by_sound amount select_all xs o f,
  )

  -- Nothing is found only where all eligible outputs together do not cover the amount.
  search_windows-none :
      (amount max_outputs : ℕ) (select_all : Bool) (xs : List A)
      → sum_by value xs < 2 ^ 64
      → search_windows value amount max_outputs select_all xs ≡ none
      → sum_by value xs < amount
  unfolding search_windows
  search_windows-none amount max_outputs select_all xs fits e = ground (
    arith,
    select_from_by-none amount false xs fits,
    select_from_by-none amount select_all xs fits,
  )

  largest_within : (n : ℕ) (xs : List A) (f : A → ℕ) → sum_by f (largest n xs) ≤ sum_by f xs
  unfolding largest
  largest_within n xs f = omega (arith, take-Within n (reverse xs) f, sum_by-reverse f xs)

  -- What the choice is, at a measure `f`.
  choose_parts :
      (amount max_outputs m : ℕ) (select_all : Bool) (outputs o : List A) (f : A → ℕ)
      → sum_by value outputs < 2 ^ 64
      → choose value amount max_outputs select_all outputs ≡ ok (m, o)
      → (m ≡ length outputs)
        × (amount ≤ sum_by value outputs → amount ≤ sum_by value o)
        × (sum_by f o ≤ sum_by f outputs)
  unfolding choose
  choose_parts amount max_outputs m select_all outputs o f fits e = ground (
    arith,
    length-sort_by_key value outputs,
    sum_by-sort_by_key value value outputs,
    sum_by-sort_by_key value f outputs,
    search_windows-none amount max_outputs select_all (sort_by_key value outputs),
    search_windows_sound amount max_outputs select_all (sort_by_key value outputs) o f,
    largest_within max_outputs (sort_by_key value outputs) f,
  )

  pub choose-Within :
      (amount max_outputs m : ℕ) (select_all : Bool) (outputs o : List A)
      → sum_by value outputs < 2 ^ 64
      → choose value amount max_outputs select_all outputs ≡ ok (m, o)
      → Within o outputs
  choose-Within amount max_outputs m select_all outputs o fits e f =
      (choose_parts amount max_outputs m select_all outputs o f fits e).2

  -- A choice counts the eligible outputs, takes its coins from them, and covers the amount exactly
  -- when all of them together do.
  pub choose_sound :
      (amount max_outputs m : ℕ) (select_all : Bool) (outputs o : List A)
      → sum_by value outputs < 2 ^ 64
      → choose value amount max_outputs select_all outputs ≡ ok (m, o)
      → (m ≡ length outputs)
        × Within o outputs
        × ((amount ≤ sum_by value o) ↔ (amount ≤ sum_by value outputs))
  choose_sound amount max_outputs m select_all outputs o fits e =
      let parts = choose_parts amount max_outputs m select_all outputs o value fits e in
      (
        parts.0,
        choose-Within amount max_outputs m select_all outputs o fits e,
        ((λ h. omega arith), parts.1),
      )

  -- The coins that a choice returns.
  abbrev picked : ℕ → ℕ → Bool → List A → List A
  picked amount max_outputs select_all outputs =
      let sorted = sort_by_key value outputs in
      get_or (search_windows value amount max_outputs select_all sorted)
        (largest max_outputs sorted)

  -- `select_coins` panics exactly when it may take no output and there is an eligible one; else it
  -- returns the number of eligible outputs and a choice.
  pub choose_cases :
      (amount max_outputs : ℕ) (select_all : Bool) (outputs : List A)
      → ((max_outputs ≡ 0)
          × (outputs ≢ [])
          × (choose value amount max_outputs select_all outputs ≡ panic))
        ⊎ ((o : List A) × ((max_outputs ≡ 0) → outputs ≡ [])
            × (choose value amount max_outputs select_all outputs ≡ ok (length outputs, o)))
  unfolding choose
  choose_cases amount max_outputs select_all [] =
      inr (picked amount max_outputs select_all [], (λ e. refl), ground arith)
  choose_cases amount zero select_all (x ∷ xs) =
      inl (refl, (λ e. cc), ground (arith, length-sort_by_key value (x ∷ xs)))
  choose_cases amount (suc n) select_all (x ∷ xs) = inr (
    picked amount (suc n) select_all (x ∷ xs),
    (λ e. absurd (omega arith)),
    ground (arith, length-sort_by_key value (x ∷ xs)),
  )
