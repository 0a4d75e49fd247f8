-- ===== src/Updater/Info/Balance.antt =====
-- The amounts that `retrieve_info` reports (libwallet/src/internal/updater.rs).
use vcash_wallet.Base.{
  ℕ, ◌+◌, ◌≤◌, ◌<◌, ◌^◌, ◌≡◌, refl, ◌⊎◌, ◌&&◌, ◌||◌, Bool, true, List, [], ◌∷◌, arith, ◌==◌, filter,
  sum_by, All, if◌then◌else◌,
}
use vcash_wallet.Types.Status.{Identifier, OutputStatus, status_index}
use vcash_wallet.Types.Output.{OutputData, eligible_to_spend}
use vcash_wallet.Backend.{Wallet, last_confirmed_height}
use vcash_wallet.Selection.Coins.{is_eligible}
use vcash_wallet.Updater.Info.{
  Totals, no_totals, Category, category, add_to, add_totals, retrieve_info,
}

abbrev category_index : Category → ℕ
category_index Category.unspent = 0
category_index Category.immature = 1
category_index Category.awaiting_finalization = 2
category_index Category.unconfirmed = 3
category_index Category.locked = 4
category_index Category.reverted = 5
category_index Category.ignored = 6

-- The exact sum of the outputs of a category.
abbrev sum_of : ℕ → ℕ → Category → List OutputData → ℕ
sum_of h c k outs =
    sum_by (λ o. if category_index (category h c o) == category_index k then o.value else 0) outs

-- Totals, each grown by the outputs of its category.
abbrev grown : ℕ → ℕ → List OutputData → Totals → Totals
grown h c outs t = record {
  unspent = t.unspent + sum_of h c Category.unspent outs;
  immature = t.immature + sum_of h c Category.immature outs;
  awaiting_finalization = t.awaiting_finalization + sum_of h c Category.awaiting_finalization outs;
  unconfirmed = t.unconfirmed + sum_of h c Category.unconfirmed outs;
  locked = t.locked + sum_of h c Category.locked outs;
  reverted = t.reverted + sum_of h c Category.reverted outs;
}

abbrev all_totals : Totals → ℕ
all_totals t =
    t.unspent + t.immature + t.awaiting_finalization + t.unconfirmed + t.locked + t.reverted

add_totals-grown :
    (h c : ℕ) (outs : List OutputData) (t : Totals)
    → all_totals t + sum_by (λ o. o.value) outs < 2 ^ 64
    → add_totals h c outs t ≡ grown h c outs t
unfolding add_totals
add_totals-grown h c [] t fits = ground arith
add_totals-grown h c (o ∷ outs) t fits =
    ground (arith, add_totals-grown h c outs (add_to h c (category h c o) o.value t))

-- Outputs that no category counts: spent ones, and coinbases that are not on the chain.
abbrev pub is_uncounted : OutputData → Bool
is_uncounted o =
    status_index o.status == status_index OutputStatus.spent
    || (status_index o.status == status_index OutputStatus.unconfirmed && o.is_coinbase)

-- The outputs of an account.
abbrev pub account_outputs : Wallet → Identifier → List OutputData
account_outputs w parent_key_id = filter (λ o. o.root_key_id == parent_key_id) w.outputs

categories_cover :
    (h c : ℕ) (outs : List OutputData)
    → all_totals (grown h c outs no_totals)
        + sum_by (λ o. if is_uncounted o then o.value else 0) outs
      ≡ sum_by (λ o. o.value) outs
unfolding category
categories_cover h c [] = omega arith
categories_cover h c (o ∷ outs) = ground (arith, categories_cover h c outs)

-- Where the values of an account's outputs add up to less than 2^64, the reported total is the sum
-- of what is spendable, awaiting confirmation and immature; with what awaits finalization, is locked
-- or reverted, and the outputs that are spent or unconfirmed coinbases, it makes up the value of all
-- outputs of the account: none is counted twice or left out.
pub retrieve_info_adds_up :
    (w : Wallet) (parent_key_id : Identifier) (c : ℕ)
    → sum_by (λ o. o.value) (account_outputs w parent_key_id) < 2 ^ 64
    → let i = retrieve_info w parent_key_id c in
      let outs = account_outputs w parent_key_id in
      (i.total ≡ i.amount_currently_spendable + i.amount_awaiting_confirmation + i.amount_immature)
      × (i.total
            + i.amount_awaiting_finalization
            + i.amount_locked
            + i.amount_reverted
            + sum_by (λ o. if is_uncounted o then o.value else 0) outs
          ≡ sum_by (λ o. o.value) outs)
unfolding retrieve_info
retrieve_info_adds_up w parent_key_id c fits =
    let outs = account_outputs w parent_key_id in
    let h = last_confirmed_height w in
    rw (add_totals-grown h c outs no_totals (omega arith))
      (omega (arith, categories_cover h c outs))

spendable_is_eligible :
    (h c : ℕ) (parent_key_id : Identifier) (outs : List OutputData)
    → 0 < c
    → All (λ o. (o.is_coinbase ≡ true) ⊎ (o.lock_height ≤ h)) outs
    → sum_of h c Category.unspent (filter (λ o. o.root_key_id == parent_key_id) outs)
      ≡ sum_by (λ o. o.value) (filter (is_eligible parent_key_id h c) outs)
unfolding category eligible_to_spend
spendable_is_eligible h c parent_key_id [] p all = refl
spendable_is_eligible h c parent_key_id (o ∷ outs) p (locks, all) =
    ground (arith, spendable_is_eligible h c parent_key_id outs p all)

-- With at least one confirmation asked for, in a wallet where only coinbases are locked until a
-- height still to come, what `retrieve_info` reports as spendable is the value of the outputs that
-- `select_coins` may choose from at the last confirmed height.
pub retrieve_info_spendable :
    (w : Wallet) (parent_key_id : Identifier) (c : ℕ)
    → 0 < c
    → All (λ o. (o.is_coinbase ≡ true) ⊎ (o.lock_height ≤ last_confirmed_height w)) w.outputs
    → sum_by (λ o. o.value) (account_outputs w parent_key_id) < 2 ^ 64
    → (retrieve_info w parent_key_id c).amount_currently_spendable
      ≡ sum_by
          (λ o. o.value)
          (filter (is_eligible parent_key_id (last_confirmed_height w) c) w.outputs)
unfolding retrieve_info
retrieve_info_spendable w parent_key_id c p locks fits =
    let outs = account_outputs w parent_key_id in
    let h = last_confirmed_height w in
    rw (add_totals-grown h c outs no_totals (omega arith))
      (omega (arith, spendable_is_eligible h c parent_key_id w.outputs p locks))
