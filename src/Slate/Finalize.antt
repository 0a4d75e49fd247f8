-- ===== src/Slate/Finalize.antt =====
-- The end of a transaction (libwallet/src/slate.rs): the final signature and the excess go into the
-- kernel, which is checked with the whole transaction.
pub mod Sound
use vcash_wallet.Base.{
  ℕ, Bool, Option, none, some, List, [], ◌∷◌, is_some, if◌then◌else◌, true, Outcome, ok, err, panic,
  ◌>>=◌,
}
use vcash_wallet.Env.{Env}
use vcash_wallet.Slate.{Transaction, TxKernel, TokenTxKernel, Slate, SlateError, tx_or_err}
use vcash_wallet.Slate.Signing.{Secp, try, check, msg_to_sign, calc_excess, finalize_signature}
use vcash_wallet.Slate.Rounds.{check_fees}

-- What is called of a transaction of `grin_core`, and of commitments.
pub record Validator : Type 0 where
  -- `Transaction::fee`, and `verify` of the two kinds of kernels.
  pub fee_of : Transaction → ℕ
  pub verify_kernel : TxKernel → Bool
  pub verify_token_kernel : TokenTxKernel → Bool
  -- `validate` as a transaction.
  pub validate : Transaction → Bool
  -- `sum_commitments` with an overage, the commitment to zero under an offset, a difference.
  pub sum_commitments : Transaction → ℕ → Option ℕ
  pub commit_offset : ℕ → Option ℕ
  pub commit_less : ℕ → ℕ → Option ℕ
  pub to_pubkey : ℕ → Option ℕ
  -- `sign_single` of a message with a key, under the sum of the keys.
  pub sign_single : ℕ → ℕ → ℕ → Option ℕ

-- The transaction with this excess and signature in its kernel, the only one.
unfoldable pub seal : ℕ → ℕ → Transaction → Outcome SlateError (Transaction × TxKernel)
seal excess sig tx = elim tx.body.kernels [
  | k ∷ [] ↦
      (let k' = record k { excess = excess; excess_sig = sig } in
        ok (record tx { body = record tx.body { kernels = k' ∷ [] } }, k'))
  | _ ↦ panic
]

unfoldable pub seal_token : ℕ → ℕ → Transaction → Outcome SlateError (Transaction × TokenTxKernel)
seal_token excess sig tx = elim tx.body.token_kernels [
  | k ∷ [] ↦
      (let k' = record k { excess = excess; excess_sig = sig } in
        ok (record tx { body = record tx.body { token_kernels = k' ∷ [] } }, k'))
  | _ ↦ panic
]

module _ (l : Secp) (env : Env) (v : Validator) where
  unfoldable pub finalize_transaction : Slate → ℕ → Outcome SlateError Slate
  unfolding check_fees calc_excess seal
  finalize_transaction s final_sig = check_fees l env v.fee_of s >>= λ _.
      calc_excess l s >>= λ excess. tx_or_err s >>= λ tx. seal excess final_sig tx >>= λ final.
      check (v.verify_kernel final.1) >>= λ _.
      check (v.validate final.0) >>= λ _. ok (record s { tx = some final.0 })

  unfoldable pub finalize_token_transaction : Slate → ℕ → Outcome SlateError Slate
  unfolding check_fees calc_excess seal_token
  finalize_token_transaction s final_sig = check_fees l env v.fee_of s >>= λ _.
      calc_excess l s >>= λ excess. tx_or_err s >>= λ tx.
      seal_token excess final_sig tx >>= λ final. check (v.verify_token_kernel final.1) >>= λ _.
      check (v.validate final.0) >>= λ _. ok (record s { tx = some final.0 })

  unfoldable pub finalize : Slate → Outcome SlateError Slate
  unfolding finalize_signature finalize_transaction finalize_token_transaction
  finalize s = finalize_signature l s >>= λ final_sig.
      if is_some s.token_type
      then finalize_token_transaction s final_sig
      else finalize_transaction s final_sig

  unfoldable pub calc_final_excess : Transaction → Outcome SlateError ℕ
  calc_final_excess tx = try (v.sum_commitments tx (v.fee_of tx)) >>= λ tx_excess.
      try (v.commit_offset tx.offset) >>= λ offset_excess.
      try (v.commit_less tx_excess offset_excess)

  unfoldable pub finalize_token_parent_tx : Slate → ℕ → Bool → Outcome SlateError Slate
  unfolding check_fees msg_to_sign calc_final_excess seal
  finalize_token_parent_tx s sec_key with_validate = check_fees l env v.fee_of s >>= λ _.
      msg_to_sign l s >>= λ msg. tx_or_err s >>= λ t.
      let tx = record t { offset = s.offset } in
      calc_final_excess tx >>= λ excess. try (v.to_pubkey excess) >>= λ pubkey.
      try (v.sign_single msg sec_key pubkey) >>= λ sig. seal excess sig tx >>= λ final.
      check (v.verify_kernel final.1) >>= λ _.
      check (if with_validate then v.validate final.0 else true) >>= λ _.
      ok (record s { tx = some final.0 })
