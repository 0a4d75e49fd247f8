-- ===== src/Runs/Receiving.antt =====
-- A slate received twice, and an account added, with the example wallet.
use vcash_wallet.Base.{
  ◌⊎◌, ℕ, ◌+◌, ◌*◌, ◌/◌, ◌%◌, ◌≡◌, refl, false, none, some, [], ◌∷◌, arith, ◌==◌, if◌then◌else◌, ok,
  err,
}
use vcash_wallet.Backend.{Wallet, next_child, last_confirmed_height}
use vcash_wallet.Accounts.{Paths, get_acct_path, save_acct_path, new_acct_path}
use vcash_wallet.Accounts.Distinct.{Distinct, new_acct_path-Distinct}
use vcash_wallet.Foreign.{
  Slate, SlateState, signing, transaction_already_received, Signer, is_expired, parent_of,
  receive_tx,
}
use vcash_wallet.Foreign.Keeps.{NotAdded, start}
use vcash_wallet.Foreign.Again.{receive_tx-again}
use vcash_wallet.Runs.{env, wallet}

-- The third account and on are those from 1000 and on, in thousands.
abbrev paths : Paths
paths = record {
  first = λ id. id / 1000;
  with_first = λ n id. n * 1000 + id % 1000;
  default_path = 1;
  first-with_first = λ n id h. omega arith;
}

abbrev with_account : Wallet
with_account = record wallet {
  acct_paths = record { label = 7; path = 1 } ∷ record { label = 8; path = 1001 } ∷ [];
}

run_new_account : new_acct_path paths 8 wallet ≡ ok (1001, with_account)
unfolding new_acct_path save_acct_path
run_new_account = refl

new_acct_path-Distinct_example :
    Distinct paths with_account.acct_paths
    × ((other : ℕ)
        → get_acct_path other with_account ≡ (
            if 8 == other
            then some (record { label = 8; path = 1001 })
            else get_acct_path other wallet))
new_acct_path-Distinct_example =
    new_acct_path-Distinct paths 8 wallet 1001 with_account (tt, tt) (omega arith, tt)
      run_new_account

-- Signing that fails once the output is in the store: there is no payment proof to sign, but the
-- second round fails.
abbrev signer : Signer
signer = record {
  empty_tx = 0;
  add_output = λ s key. ok (s.tx + 1, (3, 4));
  fill_round_1 = λ c s. ok (record s { tx = s.tx + 10 }, c);
  fill_round_2 = λ c s. err signing;
  calc_excess = λ s. ok 6;
  payment_proof_signature = λ token_type amount excess sender parent. ok 9;
  remove_other_sigdata = λ c s. ok s;
}

abbrev slate : Slate
slate = record {
  version = 4;
  id = 44;
  state = SlateState.standard1;
  amount = 25;
  fee = 2;
  ttl_cutoff_height = 200;
  token_type = none;
  payment_proof = none;
  tx = 0;
}

slate-fresh : is_expired slate wallet ≡ false
unfolding last_confirmed_height
slate-fresh = refl

receive_tx-again_example :
    let v = (receive_tx env signer 13 14 500 false none slate wallet).1 in
    (receive_tx env signer 13 14 500 false none slate v ≡ (err transaction_already_received, v))
    ⊎ NotAdded env signer 13 14 500 false slate
        (parent_of none wallet)
        wallet
        (signer.add_output
          (start env signer 13 14 500 false slate (parent_of none wallet) wallet)
          (next_child env wallet).0)
        v
receive_tx-again_example = receive_tx-again env signer 13 14 500 false none slate wallet slate-fresh
