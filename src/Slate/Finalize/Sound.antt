-- ===== src/Slate/Finalize/Sound.antt =====
-- What a finalized transaction has passed (libwallet/src/slate.rs).
use vcash_wallet.Base.{
  ℕ, ◌≤◌, ◌≡◌, refl, sym, ap, subst, ◌∙◌, Bool, true, false, Option, none, some, List, [], ◌∷◌, All,
  arith, length, is_some, if◌then◌else◌, add64, ok, ok-path, >>=-eq-ok, Option-cases, inl, inr,
}
use vcash_wallet.Env.{Env}
use vcash_wallet.Slate.{Transaction, TxKernel, ParticipantData, Slate, tx_or_err}
use vcash_wallet.Slate.Signing.{
  Secp, try, check, message, pub_nonce_sum, pub_blind_sum, verify_parts, verify_part_sigs,
  part_sigs, calc_excess, finalize_signature,
}
use vcash_wallet.Slate.Rounds.{check_fees}
use vcash_wallet.Slate.Finalize.{
  Validator, seal, finalize_transaction, finalize_token_transaction, finalize,
}

check-path : (b : Bool) {u : Unit {0}} → check b ≡ ok u → b ≡ true
check-path true e = refl
check-path false e = cc

try-path : {A : Type 0} (o : Option A) {a : A} → try o ≡ ok a → o ≡ some a
try-path none e = cc
try-path (some a) e = ap some (ok-path e)

-- The partial signature, if it is there, is one for the message.
abbrev pub Verified : Secp → ℕ → ℕ → ℕ → ParticipantData → Type 0
Verified l nonce_sum blind_sum msg p =
    (sig : ℕ)
    → p.part_sig ≡ some sig
    → l.verify_partial_sig sig nonce_sum p.public_blind_excess blind_sum msg ≡ true

-- The least fee of a transaction.
abbrev pub least_fee : Env → Transaction → ℕ
least_fee env tx =
    env.tx_fee (length tx.body.inputs) (length tx.body.outputs) (length tx.body.kernels)
      (length tx.body.token_inputs) (length tx.body.token_outputs) (length tx.body.token_kernels)

module _ (l : Secp) (s : Slate) where
  verify_parts-Verified :
      (nonce_sum blind_sum msg : ℕ) (ps : List ParticipantData) {u : Unit {0}}
      → pub_nonce_sum l s ≡ ok nonce_sum
      → pub_blind_sum l s ≡ ok blind_sum
      → verify_parts l s msg ps ≡ ok u
      → All (Verified l nonce_sum blind_sum msg) ps
  unfolding verify_parts
  verify_parts-Verified nonce_sum blind_sum msg [] ns bs e = tt
  verify_parts-Verified nonce_sum blind_sum msg (p ∷ ps) ns bs e = elim (Option-cases p.part_sig) [
    | inl unsigned ↦
        (λ sig e'. cc, verify_parts-Verified nonce_sum blind_sum msg ps ns bs (rw unsigned at e))
    | inr (sig, signed) ↦
        (let e1 = rw (signed, ns, bs) at e in
          let (x, verified, rest) =
            >>=-eq-ok
              (check (l.verify_partial_sig sig nonce_sum p.public_blind_excess blind_sum msg)) _
              e1 in
          (
            λ sig' e'.
                let same : sig ≡ sig' = cc in
                ap (λ z. l.verify_partial_sig z nonce_sum p.public_blind_excess blind_sum msg)
                  (sym same)
                ∙ check-path _ verified,
            verify_parts-Verified nonce_sum blind_sum msg ps ns bs rest,
          ))
  ]

  finalize_signature-Verified :
      (final : ℕ)
      → finalize_signature l s ≡ ok final
      → (nonce_sum : ℕ) × (blind_sum : ℕ) × (msg : ℕ) × (pub_blind_sum l s ≡ ok blind_sum)
        × (message l s ≡ ok msg)
        × (l.verify_completed_sig final blind_sum blind_sum msg ≡ true)
        × All (Verified l nonce_sum blind_sum msg) s.participant_data
  unfolding finalize_signature
  finalize_signature-Verified final e =
      let (x, parts, e1) = >>=-eq-ok (verify_part_sigs l s) _ e in
      let (nonce_sum, ns, e2) = >>=-eq-ok (pub_nonce_sum l s) _ e1 in
      let (blind_sum, bs, e3) = >>=-eq-ok (pub_blind_sum l s) _ e2 in
      let (sig, added, e4) =
        >>=-eq-ok (try (l.add_signatures (part_sigs s.participant_data) nonce_sum)) _ e3 in
      let (msg, msg_is, e5) = >>=-eq-ok (message l s) _ e4 in
      let (y, verified, done) =
        >>=-eq-ok (check (l.verify_completed_sig sig blind_sum blind_sum msg)) _ e5 in
      let (msg', msg_is', each) = >>=-eq-ok (message l s) _ parts in
      let same : msg' ≡ msg = ok-path (sym msg_is' ∙ msg_is) in
      (
        nonce_sum,
        blind_sum,
        msg,
        bs,
        msg_is,
        ap (λ z. l.verify_completed_sig z blind_sum blind_sum msg) (sym (ok-path done))
            ∙ check-path _ verified,
        verify_parts-Verified nonce_sum blind_sum msg s.participant_data ns bs
            (ap (λ z. verify_parts l s z s.participant_data) (sym same) ∙ each),
      )

-- The transaction with one kernel, this one.
abbrev pub with_kernel : Transaction → TxKernel → Transaction
with_kernel tx k = record tx { body = record tx.body { kernels = k ∷ [] } }

seal-path :
    (excess sig : ℕ) (tx : Transaction) (ks : List TxKernel) (x : Transaction × TxKernel)
    → seal excess sig (record tx { body = record tx.body { kernels = ks } }) ≡ ok x
    → (x.0 ≡ with_kernel tx x.1) × (x.1.excess ≡ excess) × (x.1.excess_sig ≡ sig)
unfolding seal
seal-path excess sig tx [] x e = cc
seal-path excess sig tx (k ∷ []) x e =
    let same = ok-path (sym e) in
    (
      ap (λ z. z.0) same ∙ ap (λ z. with_kernel tx z.1) (sym same),
      ap (λ z. z.1.excess) same,
      ap (λ z. z.1.excess_sig) same,
    )
seal-path excess sig tx (k ∷ (k' ∷ ks)) x e = cc

tx_or_err-path :
    (o : Option Transaction) (s : Slate) {tx : Transaction}
    → tx_or_err (record s { tx = o }) ≡ ok tx
    → o ≡ some tx
tx_or_err-path none s e = cc
tx_or_err-path (some t) s e = ap some (ok-path e)

module _ (l : Secp) (env : Env) (v : Validator) (s s' : Slate) where
  check_fees-path :
      {u : Unit {0}}
      → check_fees l env v.fee_of s ≡ ok u
      → (tx : Transaction) × (tx_or_err s ≡ ok tx)
        × (least_fee env tx ≤ v.fee_of tx)
        × (least_fee env tx ≤ add64 s.amount s.fee)
  unfolding check_fees
  check_fees-path e =
      let (tx, there, e1) = >>=-eq-ok (tx_or_err s) _ e in
      (tx, there, ground (arith, e1), ground (arith, e1))

  -- A `finalize` of a slate without a token type that succeeds has checked every partial signature
  -- that is there, and the transaction that it leaves is the slate's with one kernel, which holds the
  -- commitment to the sum of the keys and a signature for it; the kernel verifies, the transaction is
  -- valid, and the least fee is within its fee and within the slate's amount and fee.
  pub finalize_sound :
      s.token_type ≡ none
      → finalize l env v s ≡ ok s'
      → (tx : Transaction) × (k : TxKernel) × (nonce_sum : ℕ) × (blind_sum : ℕ) × (msg : ℕ) × (s.tx
          ≡ some tx)
        × (s' ≡ record s { tx = some (with_kernel tx k) })
        × (pub_blind_sum l s ≡ ok blind_sum)
        × (message l s ≡ ok msg)
        × All (Verified l nonce_sum blind_sum msg) s.participant_data
        × (l.from_pubkey blind_sum ≡ some k.excess)
        × (l.verify_completed_sig k.excess_sig blind_sum blind_sum msg ≡ true)
        × (v.verify_kernel k ≡ true)
        × (v.validate (with_kernel tx k) ≡ true)
        × (least_fee env tx ≤ v.fee_of tx)
        × (least_fee env tx ≤ add64 s.amount s.fee)
  unfolding finalize finalize_transaction calc_excess
  finalize_sound coins e =
      let (sig, signed, e0) = >>=-eq-ok (finalize_signature l s) _ e in
      let (nonce_sum, blind_sum, msg, bs, msg_is, completed, parts) =
        finalize_signature-Verified l s sig signed in
      let e1 : finalize_transaction l env v s sig ≡ ok s' =
        ap
          (λ z.
            if is_some z
            then finalize_token_transaction l env v s sig
            else finalize_transaction l env v s sig)
          (sym coins)
        ∙ e0 in
      let (u, fees, e2) = >>=-eq-ok (check_fees l env v.fee_of s) _ e1 in
      let (tx, there, paid, covered) = check_fees-path fees in
      let (excess, summed, e3) = >>=-eq-ok (calc_excess l s) _ e2 in
      let (tx', there', e4) = >>=-eq-ok (tx_or_err s) _ e3 in
      let (final, sealed, e5) = >>=-eq-ok (seal excess sig tx') _ e4 in
      let (u1, kernel, e6) = >>=-eq-ok (check (v.verify_kernel final.1)) _ e5 in
      let (u2, valid, done) = >>=-eq-ok (check (v.validate final.0)) _ e6 in
      let (is_final, is_excess, is_sig) = seal-path excess sig tx' tx'.body.kernels final sealed in
      let same : tx ≡ tx' = ok-path (sym there ∙ there') in
      let (sum, is_sum, committed) = >>=-eq-ok (pub_blind_sum l s) _ summed in
      let one : sum ≡ blind_sum = ok-path (sym is_sum ∙ bs) in
      (
        tx',
        final.1,
        nonce_sum,
        blind_sum,
        msg,
        tx_or_err-path s.tx s there',
        sym (ok-path done) ∙ ap (λ z. record s { tx = some z }) is_final,
        bs,
        msg_is,
        parts,
        ap l.from_pubkey (sym one) ∙ try-path _ committed ∙ ap some (sym is_excess),
        ap (λ z. l.verify_completed_sig z blind_sum blind_sum msg) is_sig ∙ completed,
        check-path _ kernel,
        ap v.validate (sym is_final) ∙ check-path _ valid,
        subst (λ z. least_fee env z ≤ v.fee_of z) same paid,
        subst (λ z. least_fee env z ≤ add64 s.amount s.fee) same covered,
      )
