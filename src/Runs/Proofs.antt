-- ===== src/Runs/Proofs.antt =====
-- A payment proof for the signed slate, with keys that are their own public keys.
use vcash_wallet.Base.{
  ℕ, ◌+◌, ◌*◌, ◌≡◌, refl, ◌↔◌, false, Option, none, some, [], ◌∷◌, arith, ◌==◌, length, sum_by, ok,
}
use vcash_wallet.Types.TxLog.{StoredProofInfo, new_entry}
use vcash_wallet.Types.Context.{Context, new_context}
use vcash_wallet.Backend.{Wallet}
use vcash_wallet.SlateVersions.Wire.{Bytes}
use vcash_wallet.Slate.{PaymentInfo, Slate}
use vcash_wallet.Slate.Signing.{calc_excess}
use vcash_wallet.Payment.{
  ProofCrypto, orig_proof_info, sender_address, payment_proof_message, decode_payment_proof_message,
  create_payment_proof_signature, verify_slate_payment_proof,
}
use vcash_wallet.Payment.Proved.{
  IsProof, decode-payment_proof_message, verify_slate_payment_proof_iff,
  verify_slate_payment_proof-create,
}
use vcash_wallet.Runs.{wallet, sent_entry}
use vcash_wallet.Runs.Codecs.{zeros, wire}
use vcash_wallet.Runs.Signing.{secp, signed_slate}

abbrev first : Bytes → ℕ
first [] = 0
first (x ∷ _) = x

abbrev from_bytes : Bytes → Option ℕ
from_bytes [] = none
from_bytes (x ∷ _) = some x

abbrev crypto : ProofCrypto
crypto = record {
  to_path = λ id. record { depth = 2; path = id ∷ 0 ∷ 0 ∷ 0 ∷ [] };
  from_path = λ p. sum_by (λ x. x) p.path + p.depth;
  derive_key = λ id. some id;
  blake2b = λ key. key * 2;
  from_slice = λ key. some key;
  ed25519_secret = λ key. some key;
  ed25519_public = λ key. key;
  to_bytes = λ key. key ∷ zeros 31;
  from_bytes = from_bytes;
  sign = λ key msg. key + length msg;
  verify = λ key msg sig. sig == key + length msg;
  from_hex = λ token_type. some (token_type ∷ []);
  commit_bytes = λ c. c ∷ zeros 32;
  from_vec = first;
  u64 = wire.u64;
  length-to_bytes = λ k. refl;
  from_bytes-to_bytes = λ k. refl;
  length-commit_bytes = λ c. refl;
  from_vec-commit_bytes = λ c. refl;
}

decode-payment_proof_message_example :
    (msg : Bytes) × (payment_proof_message crypto none 50 144 18 ≡ ok msg)
    × (decode_payment_proof_message crypto msg ≡ ok (50, 144, 18))
decode-payment_proof_message_example = decode-payment_proof_message crypto 50 144 18 (omega arith)

abbrev context : Context
context = record (new_context 13 14 11 12 1 false false) { payment_proof_derivation_index = some 4 }

abbrev proof : PaymentInfo
proof = record { sender_address = 18; receiver_address = 60; receiver_signature = none }

abbrev stored : StoredProofInfo
stored = record {
  receiver_address = 60;
  receiver_signature = none;
  sender_address_path = 4;
  sender_address = 18;
  sender_signature = none;
}

abbrev asked : Wallet
asked = record wallet {
  tx_log = (1, record sent_entry { tx_slate_id = some 77; payment_proof = some stored }) ∷ [];
}

run_stored : orig_proof_info asked 1 signed_slate ≡ ok (some stored)
unfolding orig_proof_info new_entry
run_stored = refl

run_address : sender_address crypto 1 4 ≡ ok 18
unfolding sender_address
run_address = refl

run_excess : calc_excess secp signed_slate ≡ ok 144
unfolding calc_excess
run_excess = refl

run_signature : create_payment_proof_signature crypto none 50 144 18 60 ≡ ok 133
unfolding create_payment_proof_signature
run_signature = refl

abbrev proved_slate : Slate
proved_slate = record signed_slate {
  payment_proof = some (record proof { receiver_signature = some 133 });
}

verify_slate_payment_proof_iff_example :
    (verify_slate_payment_proof crypto secp asked 1 context proved_slate ≡ ok tt) ↔ (
      (o : StoredProofInfo) × (orig_proof_info asked 1 proved_slate ≡ ok (some o))
      × IsProof crypto secp 1 context proved_slate o
          (record proof { receiver_signature = some 133 }))
verify_slate_payment_proof_iff_example =
    verify_slate_payment_proof_iff crypto secp 1 context asked proved_slate
      (record proof { receiver_signature = some 133 }) refl

verify_slate_payment_proof-create_example :
    verify_slate_payment_proof crypto secp asked 1 context proved_slate ≡ ok tt
unfolding new_context
verify_slate_payment_proof-create_example =
    verify_slate_payment_proof-create crypto secp 1 context asked signed_slate proof stored 4 144 60
      60 133 (λ msg. ground arith) run_stored refl run_address refl refl refl run_excess
      run_signature
