-- ===== src/Runs/Refreshing.antt =====
-- Refreshes of the example wallet from a node.
use vcash_wallet.Base.{ℕ, ◌≡◌, refl, true, none, some, [], ◌∷◌, find?}
use vcash_wallet.Types.TokenTxLog.{TokenTxLogEntryType, new_entry}
use vcash_wallet.Backend.{get, get_token, has_token_log_key}
use vcash_wallet.Updater.Maps.{Tracked, OutputMap, ApiOutput, ApiMap}
use vcash_wallet.Updater.Apply.{apply_api_outputs, clean_old_unconfirmed}
use vcash_wallet.Updater.Apply.Statuses.{Follows}
use vcash_wallet.Updater.Apply.Refresh.{apply_api_outputs-Follows}
use vcash_wallet.Updater.Apply.Clean.{get-clean_old_unconfirmed}
use vcash_wallet.Updater.ApplyTokens.{refresh_output}
use vcash_wallet.Updater.ApplyTokens.Reverted.{HoldsReverted, refresh_output-confirms_reverted}
use vcash_wallet.Runs.{env, wallet, reverted_token, reverted_entry}

abbrev tracked : ℕ → Tracked
tracked key = record { key_id = key; mmr_index = none; tx_log_entry = none; was_unspent = true }

-- The node has the output of key 105 and not that of key 101.
abbrev asked : OutputMap
asked = (50101, tracked 101) ∷ (8105, tracked 105) ∷ []

abbrev seen : ApiOutput
seen = record { height = 101; mmr_index = 4 }

abbrev answer : ApiMap
answer = (8105, seen) ∷ []

apply_api_outputs-Follows_example :
    Follows
      (get 101 none wallet)
      (get 101 none (apply_api_outputs env 1 102 30 asked answer [] wallet))
apply_api_outputs-Follows_example =
    apply_api_outputs-Follows env 1 102 30 101 none asked answer [] wallet

get-clean_old_unconfirmed_example : get 104 none (clean_old_unconfirmed 100 wallet) ≡ none
get-clean_old_unconfirmed_example = get-clean_old_unconfirmed 100 104 none wallet

-- The node has the reverted token output again.
abbrev token_answer : ApiMap
token_answer = (5113, seen) ∷ []

reverted_there : get_token 113 none wallet ≡ some reverted_token
unfolding get_token
reverted_there = refl

refresh_output-confirms_reverted_example :
    let v = refresh_output 1 102 30 token_answer [] (5113, tracked 113) wallet in
    HoldsReverted 113 none v
    × (find? (has_token_log_key 1 3) v.token_tx_log
        ≡ some (
          1,
          record reverted_entry {
            tx_type = TokenTxLogEntryType.token_tx_received;
            confirmed = true;
            confirmation_ts = some 30;
            reverted_after = none;
          },
        ))
unfolding new_entry
refresh_output-confirms_reverted_example =
    refresh_output-confirms_reverted 1 102 30 5113 (tracked 113) seen token_answer [] reverted_token
      reverted_entry wallet reverted_there refl refl refl refl
