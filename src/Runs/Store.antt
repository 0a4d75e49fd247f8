-- ===== src/Runs/Store.antt =====
-- Reads, writes, reports and coinbase requests on the example wallet.
use vcash_wallet.Base.{◌+◌, ◌≡◌, inr, none, arith, filter, sum_by, if◌then◌else◌}
use vcash_wallet.Backend.{last_confirmed_height}
use vcash_wallet.Selection.Coins.{is_eligible}
use vcash_wallet.Updater.Info.{retrieve_info}
use vcash_wallet.Updater.Info.Balance.{
  is_uncounted, account_outputs, retrieve_info_adds_up, retrieve_info_spendable,
}
use vcash_wallet.Updater.Coinbase.{BlockFees}
use vcash_wallet.Runs.{wallet}

retrieve_info_adds_up_example :
    let i = retrieve_info wallet 1 10 in
    (i.total ≡ i.amount_currently_spendable + i.amount_awaiting_confirmation + i.amount_immature)
    × (i.total
          + i.amount_awaiting_finalization
          + i.amount_locked
          + i.amount_reverted
          + sum_by (λ o. if is_uncounted o then o.value else 0) (account_outputs wallet 1)
        ≡ sum_by (λ o. o.value) (account_outputs wallet 1))
retrieve_info_adds_up_example = retrieve_info_adds_up wallet 1 10 (omega arith)

retrieve_info_spendable_example :
    (retrieve_info wallet 1 10).amount_currently_spendable
    ≡ sum_by
        (λ o. o.value)
        (filter (is_eligible 1 (last_confirmed_height wallet) 10) wallet.outputs)
unfolding last_confirmed_height
retrieve_info_spendable_example =
    retrieve_info_spendable wallet 1 10 (omega arith)
      (
        inr (omega arith),
        (inr (omega arith), (inr (omega arith), (inr (omega arith), (inr (omega arith), tt)))),
      )
      (omega arith)

abbrev fees : BlockFees
fees = record { fees = 2; height = 100; key_id = none }
