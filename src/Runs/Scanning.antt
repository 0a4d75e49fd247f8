-- ===== src/Runs/Scanning.antt =====
-- The scan of a small chain with the example wallet.
use vcash_wallet.Base.{
  ◌/◌, ◌<◌, ◌≡◌, refl, true, false, none, some, [], ◌∷◌, ◌++◌, arith, any, ◌&&◌,
}
use vcash_wallet.Types.Status.{Identifier}
use vcash_wallet.Types.Output.{OutputData}
use vcash_wallet.Backend.{has_key, current_child_index}
use vcash_wallet.Updater.Query.{retrieve_outputs}
use vcash_wallet.Scan.{OutputResult, matched, is_unconfirmed, repair}
use vcash_wallet.Scan.Stages.{IsUnspentAt}
use vcash_wallet.Scan.Repaired.{home, is_contradicted, repair_restores}
use vcash_wallet.Scan.Unused.{repair_passes}
use vcash_wallet.Scan.Collect.{Chain, scan}
use vcash_wallet.Scan.Collect.Ends.{Ends, scan-Ends}
use vcash_wallet.Runs.{env, wallet}

abbrev parent_path : Identifier → Identifier
parent_path id = id / 100

-- An output that the wallet has lost, and its locked one.
abbrev lost : OutputResult
lost = record {
  commit = 25140;
  key_id = 140;
  n_child = 40;
  mmr_index = 3;
  value = 25;
  height = 90;
  lock_height = 90;
  is_coinbase = false;
}

abbrev seen_locked : OutputResult
seen_locked = record {
  commit = 20103;
  key_id = 103;
  n_child = 3;
  mmr_index = 2;
  value = 20;
  height = 12;
  lock_height = 12;
  is_coinbase = false;
}

run_lost : matched (retrieve_outputs env wallet true none none) lost ≡ none
unfolding retrieve_outputs
run_lost = refl

lost-wrong : is_contradicted true (matched (retrieve_outputs env wallet true none none) lost) ≡ true
unfolding retrieve_outputs
lost-wrong = refl

lost-free :
    let o = matched (retrieve_outputs env wallet true none none) lost in
    any
      (λ (u : OutputData). is_unconfirmed u && has_key (home lost o).0 (home lost o).1 u)
      wallet.outputs
    ≡ false
unfolding retrieve_outputs
lost-free = refl

repair_restores_example :
    let o = matched (retrieve_outputs env wallet true none none) lost in
    IsUnspentAt
      (home lost o).0
      (home lost o).1
      (repair env parent_path 30 (λ n. n) true (seen_locked ∷ [] ++ lost ∷ []) wallet)
repair_restores_example =
    repair_restores env parent_path 30 (λ n. n) true (seen_locked ∷ []) lost [] wallet lost-wrong
      lost-free

repair_passes_example :
    40
    < current_child_index 1
        (repair env parent_path 30 (λ n. n) true (seen_locked ∷ [] ++ lost ∷ []) wallet)
repair_passes_example =
    repair_passes env parent_path 30 (λ n. n) true (seen_locked ∷ []) lost [] wallet run_lost
      (omega arith, (omega arith, tt))

-- The node gives one output at each index of the range.
abbrev chain : Chain
chain = record {
  height_range_to_pmmr_indices = λ start end. some (1, 3);
  get_outputs_by_pmmr_index = λ start end. some (
    end,
    start,
    record { commit = 25140; proof = 5; is_coinbase = false; height = 90; mmr_index = start } ∷ [],
  );
  rewind_legacy = λ commit proof. some none;
  rewind = λ commit proof. some (some (25, 140));
  is_first_version = λ height. true;
  week_height = 10080;
}

scan-Ends_example : Ends (scan env chain parent_path 30 (λ n. n) true 0 100 wallet)
scan-Ends_example =
    scan-Ends env chain parent_path 30 (λ n. n) true 0 100 wallet
      (λ range e. (λ start reply e'. ground (arith, e'), ground (arith, e)))
