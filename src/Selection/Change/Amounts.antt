-- ===== src/Selection/Change/Amounts.antt =====
-- The change outputs of `inputs_and_change`, their number and amounts
-- (libwallet/src/internal/selection.rs).
use native.Mathlib.Nat.{
  div-add-mod, div-eq_of_lt, mod-lt, mod-le, mod-eq_of_lt, mod-eq-sub-mod, mul-add-mod_self_right,
}
use vcash_wallet.Base.{
  ℕ, zero, suc, ◌+◌, ◌-◌, ◌*◌, ◌/◌, ◌%◌, ◌≤◌, ◌<◌, ◌^◌, ◌≡◌, ◌⊎◌, ◌↔◌, inl, inr, refl, sym, ap, ◌∙◌,
  List, [], arith, length, sum_by, ok, panic,
}
use vcash_wallet.Env.{Env}
use vcash_wallet.Backend.{Wallet, next_child}
use vcash_wallet.Selection.Change.{Change, add_change, make_change}

abbrev pub amounts : List Change → ℕ
amounts changes = sum_by (λ c. c.0) changes

part_rem_le : (c p : ℕ) → p ≤ c → p + c % p ≤ c
part_rem_le c p h = omega (arith, mod-eq-sub-mod h, mod-le (c - p) p)

-- The remainder by a part is that of what the division left over.
rem_of_part : (c n : ℕ) → c % (c / n) ≡ c % n % (c / n)
rem_of_part c n =
    ap (λ (t : ℕ). t % (c / n)) (sym (div-add-mod c n)) ∙ mul-add-mod_self_right n (c / n) (c % n)

module _ (env : Env) where
  amounts-add_change :
      (left num part rem x : ℕ) (w : Wallet)
      → x + left ≡ num
      → 0 < left
      → part + rem < 2 ^ 64
      → amounts (add_change env left num part rem x w).0 ≡ left * part + rem
  unfolding add_change
  amounts-add_change zero num part rem x w e p h = absurd (omega arith)
  amounts-add_change (suc zero) num part rem x w e p h = ground arith
  amounts-add_change (suc (suc left)) num part rem x w e p h =
      ground (arith, amounts-add_change (suc left) num part rem (x + 1) (next_child env w).1)

  length-add_change :
      (left num part rem x : ℕ) (w : Wallet)
      → length (add_change env left num part rem x w).0 ≡ left
  unfolding add_change
  length-add_change zero num part rem x w = refl
  length-add_change (suc left) num part rem x w =
      omega (arith, length-add_change left num part rem (x + 1) (next_child env w).1)

  -- Change outputs are as many as were asked for. Together they hold the equal parts and what the
  -- remainder of the division leaves over a part.
  make_change-amounts :
      (change num : ℕ) (w : Wallet) (made : List Change × Wallet)
      → 0 < change
      → change < 2 ^ 64
      → make_change env change num w ≡ ok made
      → (0 < change / num)
        × (length made.0 ≡ num)
        × (amounts made.0 ≡ num * (change / num) + change % num % (change / num))
  unfolding make_change
  make_change-amounts change num w made p h e =
      let part = change / num in
      ground (
        arith,
        rem_of_part change num,
        part_rem_le change part (omega arith),
        length-add_change num num part (change % part) 0 w,
        amounts-add_change num num part (change % part) 0 w (omega arith),
      )

  make_change_zero :
      (num : ℕ) (w : Wallet) (made : List Change × Wallet)
      → make_change env 0 num w ≡ ok made
      → made ≡ ([], w)
  unfolding make_change
  make_change_zero num w made e = ground arith

  -- The change is kept whole where the remainder is less than a part.
  pub make_change_keeps :
      (change num : ℕ) (w : Wallet) (made : List Change × Wallet)
      → change < 2 ^ 64
      → (change ≡ 0) ⊎ (change % num < change / num)
      → make_change env change num w ≡ ok made
      → amounts made.0 ≡ change
  make_change_keeps change num w made h (inl none_left) e =
      let none_made = make_change_zero num w made (rw none_left at e) in rw (none_made, none_left)
  make_change_keeps change num w made h (inr small) e = omega (
    arith,
    make_change-amounts change num w made (omega arith) h e,
    div-add-mod change num,
    mod-eq_of_lt small,
  )

  -- Otherwise a part of the change is in no output.
  pub make_change_loses :
      (change num : ℕ) (w : Wallet) (made : List Change × Wallet)
      → 0 < change
      → change < 2 ^ 64
      → change / num ≤ change % num
      → make_change env change num w ≡ ok made
      → amounts made.0 < change
  make_change_loses change num w made p h big e =
      let made_of = make_change-amounts change num w made p h e in
      omega (arith, made_of, div-add-mod change num, mod-lt (change % num) made_of.0)

  -- Making change panics exactly where there is change, and less than one unit for each output, or
  -- no output for it.
  pub make_change-eq-panic_iff :
      (change num : ℕ) (w : Wallet)
      → (make_change env change num w ≡ panic) ↔ ((0 < change) × ((num ≡ 0) ⊎ (change < num)))
  unfolding make_change
  make_change-eq-panic_iff change num w = (
    (λ e. ground arith),
    λ c. elim c.1 [
      | inl no_output ↦ ground arith
      | inr little ↦ ground (arith, div-eq_of_lt little)
    ],
  )
