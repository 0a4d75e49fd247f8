-- ===== src/Updater/Coinbase/Again.antt =====
-- Repeated calls of `receive_coinbase` (libwallet/src/internal/updater.rs).
use vcash_wallet.Base.{◌≡◌, refl, ap, ◌∙◌, true, Option, none, some, List, [], ◌∷◌, arith, add64}
use vcash_wallet.Env.{Env}
use vcash_wallet.Types.Status.{Identifier, OutputStatus}
use vcash_wallet.Types.Output.{OutputData}
use vcash_wallet.Backend.{
  Wallet, save, get, has_key, next_child, save_child_index, calc_commit_for_cache,
}
use vcash_wallet.Backend.Table.{put}
use vcash_wallet.Backend.Laws.{get-save, option_eq_self}
use vcash_wallet.Updater.Coinbase.{BlockFees, retrieve_existing_key, coinbase_key, receive_coinbase}

put-put :
    (o : OutputData) (xs : List OutputData)
    → put (has_key o.key_id o.mmr_index) o (put (has_key o.key_id o.mmr_index) o xs)
      ≡ put (has_key o.key_id o.mmr_index) o xs
put-put o [] = ground (arith, option_eq_self o.mmr_index)
put-put o (y ∷ ys) = ground (arith, option_eq_self o.mmr_index, put-put o ys)

save-save : (o : OutputData) (w : Wallet) → save o (save o w) ≡ save o w
unfolding save
save-save o w = ap (λ (xs : List OutputData). record w { outputs = xs }) (put-put o w.outputs)

-- A key under which the wallet has an output is used again, and no other key is derived.
coinbase_key_existing :
    (env : Env) (o : OutputData) (w : Wallet)
    → get o.key_id none w ≡ some o
    → coinbase_key env (some o.key_id) w ≡ (o.key_id, w)
unfolding coinbase_key retrieve_existing_key
coinbase_key_existing env o w found = ground arith

coinbase_key-parent :
    (env : Env) (id : Option Identifier) (w : Wallet)
    → (coinbase_key env id w).1.parent_key_id ≡ w.parent_key_id
unfolding coinbase_key next_child save_child_index
coinbase_key-parent env none w = refl
coinbase_key-parent env (some id) w = ground arith

-- The output that is made for a key.
abbrev coinbase_output : Env → BlockFees → Identifier → Identifier → OutputData
coinbase_output env fees parent key = record {
  root_key_id = parent;
  key_id = key;
  n_child = env.last_path_index key;
  commit = calc_commit_for_cache env (env.reward fees.height fees.fees) key;
  mmr_index = none;
  value = env.reward fees.height fees.fees;
  status = OutputStatus.unconfirmed;
  height = fees.height;
  lock_height = add64 fees.height env.coinbase_maturity;
  is_coinbase = true;
  tx_log_entry = none;
}

receive_coinbase_with :
    (env : Env) (fees : BlockFees) (w v : Wallet) (key : Identifier)
    → coinbase_key env fees.key_id w ≡ (key, v)
    → receive_coinbase env fees w
      ≡ (record fees { key_id = some key }, save (coinbase_output env fees w.parent_key_id key) v)
unfolding receive_coinbase
receive_coinbase_with env fees w v key e =
    ap
      (λ (kv : Identifier × Wallet). (
        record fees { key_id = some kv.0 },
        save (coinbase_output env fees w.parent_key_id kv.0) kv.1,
      ))
      e

module _ (env : Env) (fees : BlockFees) (w : Wallet) where
  -- A miner that asks again with the fees that `receive_coinbase` returned gets the same key, and the
  -- wallet is as after the first call: no second output and no further key.
  receive_coinbase_again :
      let first = receive_coinbase env fees w in receive_coinbase env first.0 first.1 ≡ first
  unfolding receive_coinbase save
  receive_coinbase_again =
      let key = (coinbase_key env fees.key_id w).0 in
      let w' = (coinbase_key env fees.key_id w).1 in
      let o = coinbase_output env fees w.parent_key_id key in
      let found : get key none (save o w') ≡ some o = ground (arith, get-save key none o w') in
      let again : coinbase_key env (some key) (save o w') ≡ (key, save o w') =
        coinbase_key_existing env o (save o w') found in
      let parent : (save o w').parent_key_id ≡ w.parent_key_id =
        coinbase_key-parent env fees.key_id w in
      let kept = record fees { key_id = some key } in
      receive_coinbase_with env kept (save o w') (save o w') key again
      ∙ ap (λ i. (kept, save (coinbase_output env fees i key) (save o w'))) parent
      ∙ ap (λ v. (kept, v)) (save-save o w')
