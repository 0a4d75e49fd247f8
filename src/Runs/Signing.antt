-- ===== src/Runs/Signing.antt =====
-- Two participants sign, and a transaction is finalized, with keys and signatures that are numbers.
use vcash_wallet.Base.{
  ℕ, ◌+◌, ◌-◌, ◌*◌, ◌≤◌, ◌≡◌, refl, true, false, none, some, some-path, sym, subst, ap, ◌∙◌, List,
  [], ◌∷◌, any, leb, ◌&&◌, Bool-cases, inl, inr, All, arith, ltb, ◌==◌, ==_iff, sum_by, add64, ok,
  ◌>>=◌,
}
use vcash_wallet.SlateVersions.Wire.{OutputFeatures}
use vcash_wallet.Slate.{KernelFeatures, TxKernel, Transaction, Slate, blank}
use vcash_wallet.Slate.Signing.{Secp, message, pub_blind_sum, finalize_signature}
use vcash_wallet.Slate.Rounds.{Keychain, fill_round_1, fill_round_2}
use vcash_wallet.Slate.Rounds.Together.{IsSound, fill_round_2-finalize_signature}
use vcash_wallet.Slate.Finalize.{Validator, finalize}
use vcash_wallet.Slate.Finalize.Sound.{Verified, least_fee, with_kernel, finalize_sound}
use vcash_wallet.Slate.Transactions.{tx_to_v4, tx_of_v4, tx_of_v4-tx_to_v4}
use vcash_wallet.Runs.{env}

-- A key is its own public key. The challenge is the message and the sum of the keys; a partial
-- signature is the nonce and the challenge times the key, and the final one has no nonces left.
abbrev pub secp : Secp
secp = record {
  public_key = λ k. some k;
  combination = λ ks. some (sum_by (λ x. x) ks);
  from_pubkey = λ k. some (k + 100);
  calculate_partial_sig =
      λ key nonce nonce_sum blind_sum msg. some (nonce + (blind_sum + msg) * key);
  verify_partial_sig = λ sig nonce_sum pub_key blind_sum msg.
      leb ((blind_sum + msg) * pub_key) sig && leb sig ((blind_sum + msg) * pub_key + nonce_sum);
  add_signatures = λ sigs nonce_sum. some (sum_by (λ x. x) sigs - nonce_sum);
  verify_completed_sig = λ sig pub_key blind_sum msg. sig == (blind_sum + msg) * pub_key;
  kernel_sig_msg = λ f. elim f [
    | KernelFeatures.plain fee ↦ some (fee + 1)
    | KernelFeatures.coinbase ↦ none
    | KernelFeatures.height_locked fee h ↦ some (fee + h)
    | KernelFeatures.no_recent_duplicate fee h ↦ some (fee + h)
  ];
  token_kernel_sig_msg = λ f k. some (k + 1);
  is_nrd_height = λ h. ltb 0 h;
}

listed_le_sum : (n : ℕ) (ns : List ℕ) → any (λ x. x == n) ns ≡ true → n ≤ sum_by (λ x. x) ns
listed_le_sum n [] e = cc
listed_le_sum n (x ∷ ns) e = elim (Bool-cases (x == n)) [
  | inl here ↦ ground (arith, here)
  | inr other ↦ (let rest = listed_le_sum n ns (rw other at e) in omega (arith, rest))
]

part_is_between :
    (n nonce_sum p sig : ℕ)
    → n ≤ nonce_sum
    → n + p ≡ sig
    → (leb p sig && leb sig (p + nonce_sum)) ≡ true
part_is_between n nonce_sum p sig small e = ground arith

-- The sum of both signatures without their nonces.
parts_add_up :
    (e n n' k k' nonce_sum blind_sum sig sig' final : ℕ)
    → n + (n' + 0) ≡ nonce_sum
    → k + (k' + 0) ≡ blind_sum
    → n + e * k ≡ sig
    → n' + e * k' ≡ sig'
    → sig + (sig' + 0) - nonce_sum ≡ final
    → final ≡ e * blind_sum
parts_add_up e n n' k k' nonce_sum blind_sum sig sig' final ns bs is is' sum =
    grind (arith, ns, bs, is, is', sum)

secp-IsSound : IsSound secp
secp-IsSound = record {
  partial = λ nonces keys key nonce k n nonce_sum blind_sum msg sig pk pn here here' ns bs signs.
      part_is_between nonce nonce_sum ((blind_sum + msg) * k) sig
        (subst (λ x. nonce ≤ x) (some-path ns)
          (subst (λ x. x ≤ sum_by (λ y. y) nonces) (sym (some-path pn))
            (listed_le_sum n nonces here)))
        (ap (λ x. nonce + (blind_sum + msg) * x) (sym (some-path pk)) ∙ some-path signs);
  completed =
      λ key nonce k n key' nonce' k' n' nonce_sum blind_sum msg sig sig' final pk pn pk' pn' ns bs
          signs signs' adds.
        (==_iff final ((blind_sum + msg) * blind_sum)).1 (
          parts_add_up (blind_sum + msg) nonce nonce' key key' nonce_sum blind_sum sig sig' final
            ((λ i. some-path pn i + (some-path pn' i + 0)) ∙ some-path ns)
            ((λ i. some-path pk i + (some-path pk' i + 0)) ∙ some-path bs) (some-path signs)
            (some-path signs') (some-path adds));
}

abbrev keychain : Keychain
keychain = record {
  blinding_factor = λ k. k;
  secret_key = λ b. some b;
  blind_sum = λ plus minus. some (sum_by (λ x. x) plus - sum_by (λ x. x) minus);
  random_key = 3;
  test_key = 4;
}

abbrev fresh : Slate
fresh = record (blank 77 0 2 false) { amount = 50; fee = 9; tx = none }

abbrev once : Slate
once = record fresh {
  offset = 3;
  participant_data = record { public_blind_excess = 17; public_nonce = 5; part_sig = none } ∷ [];
  participant_id = some 17;
}

abbrev twice : Slate
twice = record fresh {
  offset = 6;
  participant_data =
      record { public_blind_excess = 17; public_nonce = 5; part_sig = none }
      ∷ record { public_blind_excess = 27; public_nonce = 6; part_sig = none }
      ∷ [];
  participant_id = some 27;
}

run_round_1 : fill_round_1 secp keychain fresh 20 0 5 false ≡ ok (once, 17)
unfolding fill_round_1
run_round_1 = refl

run_round_1_again : fill_round_1 secp keychain once 30 0 6 false ≡ ok (twice, 27)
unfolding fill_round_1
run_round_1_again = refl

run_message : message secp fresh ≡ ok 10
unfolding message
run_message = refl

fill_round_2-finalize_signature_example :
    (fill_round_2 secp env (λ tx. 9) twice 27 0 6 >>= λ t.
    fill_round_2 secp env (λ tx. 9) t 17 0 5 >>= λ u. finalize_signature secp u)
    ≡ ok 2376
fill_round_2-finalize_signature_example =
    fill_round_2-finalize_signature secp secp-IsSound env (λ tx. 9) fresh once twice keychain
      keychain false false 20 0 5 17 17 5 30 0 6 27 27 6 11 44 10 923 1464 2376 refl refl refl
      run_message run_round_1 run_round_1_again refl refl refl refl refl refl refl refl refl refl

abbrev pub transaction : Transaction
transaction = record {
  offset = 6;
  body = record {
    inputs = record { features = OutputFeatures.coinbase; commit = 31 } ∷ [];
    token_inputs = [];
    outputs = record { features = OutputFeatures.plain; commit = 32; proof = 33 } ∷ [];
    token_outputs = [];
    kernels = record { features = KernelFeatures.plain 9; excess = 0; excess_sig = 0 } ∷ [];
    token_kernels = [];
  };
}

abbrev pub signed_slate : Slate
signed_slate = record twice {
  tx = some transaction;
  participant_data =
      record { public_blind_excess = 17; public_nonce = 5; part_sig = some 923 }
      ∷ record { public_blind_excess = 27; public_nonce = 6; part_sig = some 1464 }
      ∷ [];
}

abbrev validator : Validator
validator = record {
  fee_of = λ tx. 9;
  verify_kernel = λ k. k.excess_sig == 2376;
  verify_token_kernel = λ k. true;
  validate = λ tx. true;
  sum_commitments = λ tx fee. some fee;
  commit_offset = λ o. some o;
  commit_less = λ a b. some (a - b);
  to_pubkey = λ c. some c;
  sign_single = λ msg key pub_key. some (key * msg);
}

abbrev final_kernel : TxKernel
final_kernel = record { features = KernelFeatures.plain 9; excess = 144; excess_sig = 2376 }

run_finalize :
    finalize secp env validator signed_slate
    ≡ ok (record signed_slate { tx = some (with_kernel transaction final_kernel) })
unfolding finalize
run_finalize = refl

finalize_sound_example :
    let s = signed_slate in
    let s' = record signed_slate { tx = some (with_kernel transaction final_kernel) } in
    (tx : Transaction) × (k : TxKernel) × (nonce_sum : ℕ) × (blind_sum : ℕ) × (msg : ℕ) × (s.tx
      ≡ some tx)
    × (s' ≡ record s { tx = some (with_kernel tx k) })
    × (pub_blind_sum secp s ≡ ok blind_sum)
    × (message secp s ≡ ok msg)
    × All (Verified secp nonce_sum blind_sum msg) s.participant_data
    × (secp.from_pubkey blind_sum ≡ some k.excess)
    × (secp.verify_completed_sig k.excess_sig blind_sum blind_sum msg ≡ true)
    × (validator.verify_kernel k ≡ true)
    × (validator.validate (with_kernel tx k) ≡ true)
    × (least_fee env tx ≤ validator.fee_of tx)
    × (least_fee env tx ≤ add64 s.amount s.fee)
finalize_sound_example =
    finalize_sound secp env validator signed_slate
      (record signed_slate { tx = some (with_kernel transaction final_kernel) }) refl run_finalize

tx_of_v4-tx_to_v4_example : tx_of_v4 (λ h. ltb 0 h) (tx_to_v4 transaction) ≡ ok transaction
tx_of_v4-tx_to_v4_example = tx_of_v4-tx_to_v4 (λ h. ltb 0 h) transaction (λ fee h e. cc, tt)
