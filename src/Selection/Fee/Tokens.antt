-- ===== src/Selection/Fee/Tokens.antt =====
-- What `select_token_coins_and_fee` returns (libwallet/src/internal/selection.rs).
use vcash_wallet.Base.{
  ℕ, zero, suc, ◌≤◌, ◌<◌, ◌^◌, ◌≡◌, ◌≢◌, ◌↔◌, refl, sym, subst, ◌∙◌, inl, inr, Bool, true, List, [],
  ◌∷◌, arith, length, take, filter, sum_by, All, ltb, sort_by_key, sum64_from, sum64_from-eq-add,
  ok, >>=-eq-ok, Option-cases, length-append,
}
use mathlib.Core.List.{reverse, reverse-append}
use vcash_wallet.Types.Status.{TokenType}
use vcash_wallet.Types.TokenOutput.{TokenOutputData}
use vcash_wallet.Backend.{Wallet}
use vcash_wallet.Selection.Coins.{
  is_eligible_token, select_token_coins, choose, search_windows, largest,
}
use vcash_wallet.Selection.Coins.Choice.{
  Within, Within-All, choose-Within, choose_sound, search_windows_sound,
}
use vcash_wallet.Selection.Coins.Sorted.{length-sort_by_key, sum_by-sort_by_key}
use vcash_wallet.Selection.Fee.{Request, TokenFunding, select_token_coins_and_fee}

-- The token outputs of the wallet that a request may spend.
abbrev pub eligible_tokens : Wallet → Request → TokenType → List TokenOutputData
eligible_tokens w r token_type =
    filter (is_eligible_token r.parent_key_id token_type r.current_height r.minimum_confirmations)
      w.token_outputs

abbrev worth : TokenOutputData → ℕ
worth o = o.value

module _ {A : Type 0} where
  length-take_le : (n : ℕ) (xs : List A) → n ≤ length xs → length (take n xs) ≡ n
  length-take_le zero xs h = refl
  length-take_le (suc n) [] h = ground arith
  length-take_le (suc n) (x ∷ xs) h = omega (arith, length-take_le n xs (omega arith))

  length-reverse : (xs : List A) → length (reverse xs) ≡ length xs
  length-reverse [] = refl
  length-reverse (x ∷ xs) =
      rw (reverse-append (x ∷ []) xs)
        (omega (arith, length-append (reverse xs) (x ∷ []), length-reverse xs))

  sum_by-positive :
      (f : A → ℕ) (xs : List A) → 0 < length xs → All (λ x. ltb 0 (f x) ≡ true) xs → 0 < sum_by f xs
  sum_by-positive f [] n h = omega arith
  sum_by-positive f (x ∷ xs) n h = ground (arith, h.0)

module _ {A : Type 0} (value : A → ℕ) where
  -- Where all outputs together do not cover the amount, the choice is the largest ones.
  choose_short :
      (amount max_outputs : ℕ) (select_all : Bool) (outputs : List A)
      → sum_by value outputs < 2 ^ 64
      → sum_by value outputs < amount
      → 0 < max_outputs
      → max_outputs < length outputs
      → (o : List A) × (choose value amount max_outputs select_all outputs ≡ ok (length outputs, o))
        × (length o ≡ max_outputs)
  unfolding choose largest
  choose_short amount max_outputs select_all outputs fits short some_allowed more =
      let sorted = sort_by_key value outputs in
      elim (Option-cases (search_windows value amount max_outputs select_all sorted)) [
        | inl e ↦ (
          largest max_outputs sorted,
          ground (arith, length-sort_by_key value outputs),
          length-take_le max_outputs (reverse sorted)
              (omega (arith, length-reverse sorted, length-sort_by_key value outputs)),
        )
        | inr (o, e) ↦ absurd (
            omega (
              arith,
              sum_by-sort_by_key value value outputs,
              (search_windows_sound value amount max_outputs select_all sorted o value
                  (omega (arith, sum_by-sort_by_key value value outputs)) e).0,
              (search_windows_sound value amount max_outputs select_all sorted o value
                  (omega (arith, sum_by-sort_by_key value value outputs)) e).1,
            ))
      ]

module _ (w : Wallet) (r : Request) (amount : ℕ) (token_type : TokenType) (max_outputs : ℕ) where
  -- Where the eligible outputs' values fit in 64 bits, a successful call returns the amount that it
  -- was given and coins out of the eligible outputs with their exact total, which is not 0. The
  -- total covers the amount if and only if all eligible outputs together do; if it does not, the
  -- coins are not all of the eligible outputs.
  pub select_token_coins_and_fee_sound :
      (h : TokenFunding)
      → sum_by worth (eligible_tokens w r token_type) < 2 ^ 64
      → select_token_coins_and_fee w r amount token_type max_outputs ≡ ok h
      → (h.amount ≡ amount)
        × (h.total ≡ sum_by worth h.coins)
        × (0 < h.total)
        × Within h.coins (eligible_tokens w r token_type)
        × ((amount ≤ h.total) ↔ (amount ≤ sum_by worth (eligible_tokens w r token_type)))
        × (h.total < amount → length h.coins ≢ length (eligible_tokens w r token_type))
  unfolding select_token_coins_and_fee select_token_coins
  select_token_coins_and_fee_sound h fits e =
      let (found, chosen, e') =
        >>=-eq-ok
          (select_token_coins w amount token_type r.current_height r.minimum_confirmations
            max_outputs r.select_all r.parent_key_id)
          _ e in
      let sound =
        choose_sound worth amount max_outputs found.0 r.select_all (eligible_tokens w r token_type)
          found.1 fits chosen in
      let exact = sum64_from-eq-add worth 0 found.1 (omega (arith, sound.1 worth)) in
      let parts : (h.amount ≡ amount)
          × (found.1 ≡ h.coins)
          × (h.total ≡ sum_by worth found.1)
          × (0 < h.total)
          × (h.total < amount → length found.1 ≢ found.0) =
        (ground arith, ground arith, ground arith, ground arith, λ less all. ground arith) in
      subst
        (λ c.
          (h.amount ≡ amount)
          × (h.total ≡ sum_by worth c)
          × (0 < h.total)
          × Within c (eligible_tokens w r token_type)
          × ((amount ≤ h.total) ↔ (amount ≤ sum_by worth (eligible_tokens w r token_type)))
          × (h.total < amount → length c ≢ length (eligible_tokens w r token_type)))
        parts.1
        (
          parts.0,
          parts.2,
          parts.3,
          sound.1,
          ((λ c. sound.2.0 (omega (arith, parts.2))), (λ c. omega (arith, parts.2, sound.2.1 c))),
          λ less all. parts.4 less (all ∙ sym sound.0),
        )

  -- A call succeeds with coins that do not cover the amount where more outputs are eligible than it
  -- may take, each of them worth something, and all together are worth less than the amount.
  pub select_token_coins_and_fee_short :
      sum_by worth (eligible_tokens w r token_type) < 2 ^ 64
      → sum_by worth (eligible_tokens w r token_type) < amount
      → 0 < max_outputs
      → max_outputs < length (eligible_tokens w r token_type)
      → All (λ o. ltb 0 (worth o) ≡ true) (eligible_tokens w r token_type)
      → (h : TokenFunding) × (select_token_coins_and_fee w r amount token_type max_outputs ≡ ok h)
        × (h.total < amount)
  unfolding select_token_coins_and_fee select_token_coins
  select_token_coins_and_fee_short fits short some_allowed more positive =
      let (o, chosen, len) =
        choose_short worth amount max_outputs r.select_all (eligible_tokens w r token_type) fits
          short some_allowed more in
      let within =
        choose-Within worth amount max_outputs (length (eligible_tokens w r token_type))
          r.select_all (eligible_tokens w r token_type) o fits chosen in
      let all_positive =
        Within-All (λ x. ltb 0 (worth x)) o (eligible_tokens w r token_type) within positive in
      let some_worth = sum_by-positive worth o (omega (arith, len)) all_positive in
      let exact = sum64_from-eq-add worth 0 o (omega (arith, within worth)) in
      (
        record { coins = o; total = sum64_from worth 0 o; amount = amount },
        ground arith,
        omega (arith, within worth),
      )
