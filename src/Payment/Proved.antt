-- ===== src/Payment/Proved.antt =====
-- What a payment proof stands for (libwallet/src/internal/tx.rs).
use vcash_wallet.Base.{
  some-path, ℕ, zero, suc, ◌<◌, ◌^◌, ◌≡◌, refl, sym, ap, ◌∙◌, Bool, true, false, ◌&&◌, Option, none,
  some, [], ◌∷◌, ◌++◌, append-nil, arith, length, ◌==◌, ==_iff, is_some, Outcome, ok, err, panic,
  timeout, ok-path, >>=-eq-ok, ◌↔◌,
}
use vcash_wallet.Types.Status.{Identifier, Commitment}
use vcash_wallet.Types.TxLog.{StoredProofInfo}
use vcash_wallet.Types.Context.{Context}
use vcash_wallet.Backend.{Wallet}
use vcash_wallet.SlateVersions.Wire.{Bytes}
use vcash_wallet.Slate.{PaymentInfo, Slate, SlateError}
use vcash_wallet.Slate.Signing.{Secp, calc_excess}
use vcash_wallet.Payment.{
  ProofError, payment_proof, ed25519_key, ProofCrypto, or_err, require, slate_call, read_bytes,
  orig_proof_info, sender_address, payment_proof_message, decode_payment_proof_message,
  create_payment_proof_signature, verify_proof, verify_slate_payment_proof,
}

or_err-path : {A : Type 0} (e : ProofError) (o : Option A) {a : A} → or_err e o ≡ ok a → o ≡ some a
or_err-path e none h = cc
or_err-path e (some a) h = ap some (ok-path h)

require-path : (b : Bool) {u : Unit {0}} → require b ≡ ok u → b ≡ true
require-path true e = refl
require-path false e = cc

slate_call-path : {A : Type 0} (o : Outcome SlateError A) {a : A} → slate_call o ≡ ok a → o ≡ ok a
slate_call-path (ok a) e = ap ok (ok-path e)
slate_call-path (err x) e = cc
slate_call-path panic e = cc
slate_call-path timeout e = cc

and_false : (b : Bool) → (b && false) ≡ false
and_false true = refl
and_false false = refl

==_same : (n : ℕ) → (n == n) ≡ true
==_same n = ground arith

-- As many bytes as are asked for, in front of others.
read_bytes-append :
    (n : ℕ) (b rest : Bytes) → length b ≡ n → read_bytes n (b ++ rest) ≡ ok (b, rest)
read_bytes-append zero [] rest e = refl
read_bytes-append zero (x ∷ b) rest e = absurd (omega (arith, e))
read_bytes-append (suc n) [] rest e = absurd (omega (arith, e))
read_bytes-append (suc n) (x ∷ b) rest e = rw (read_bytes-append n b rest (omega (arith, e))) refl

module _ (c : ProofCrypto) where
  -- The message of a proof without a token type is decoded to the amount, the kernel's commitment and
  -- the sender that it was made of, if the amount fits in 64 bits.
  pub decode-payment_proof_message :
      (amount : ℕ) (kernel_commitment : Commitment) (sender : ℕ)
      → amount < 2 ^ 64
      → (msg : Bytes) × (payment_proof_message c none amount kernel_commitment sender ≡ ok msg)
        × (decode_payment_proof_message c msg ≡ ok (amount, kernel_commitment, sender))
  unfolding payment_proof_message decode_payment_proof_message
  decode-payment_proof_message amount k sender fits = (
    c.u64.put amount (c.commit_bytes k ++ c.to_bytes sender),
    refl,
    rw (c.u64.get-put amount (c.commit_bytes k ++ c.to_bytes sender) fits) (
        rw (read_bytes-append 33 (c.commit_bytes k) (c.to_bytes sender) (c.length-commit_bytes k)) (
          rw (sym (append-nil (c.to_bytes sender))) (
            rw (read_bytes-append 32 (c.to_bytes sender) [] (c.length-to_bytes sender))
              (rw (c.from_bytes-to_bytes sender, c.from_vec-commit_bytes k) refl)))),
  )

  module _ (l : Secp) (parent_key_id : Identifier) (context : Context) where
    -- The proof of a slate is the one that was asked for: its receiver is that of the log's proof, its
    -- sender the wallet's own address at the context's index, and the receiver's signature is there
    -- and verifies for the slate's amount, the commitment to its keys and the sender.
    pub record IsProof (s : Slate) (o : StoredProofInfo) (p : PaymentInfo) : Type 0 where
      pub index : ℕ
      pub excess : ℕ
      pub msg : Bytes
      pub sig : ℕ
      pub is_index : context.payment_proof_derivation_index ≡ some index
      pub is_sender : sender_address c parent_key_id index ≡ ok p.sender_address
      pub is_receiver : o.receiver_address ≡ p.receiver_address
      pub is_excess : calc_excess l s ≡ ok excess
      pub is_msg : payment_proof_message c s.token_type s.amount excess p.sender_address ≡ ok msg
      pub is_sig : p.receiver_signature ≡ some sig
      pub verifies : c.verify p.receiver_address msg sig ≡ true

    verify_proof_sound :
        (s : Slate) (orig : Option StoredProofInfo) (p : PaymentInfo) {u : Unit {0}}
        → verify_proof c l parent_key_id context s orig p ≡ ok u
        → (o : StoredProofInfo) × (orig ≡ some o) × IsProof s o p
    unfolding verify_proof
    verify_proof_sound s orig p e =
        let (o, is_o, e1) = >>=-eq-ok (or_err payment_proof orig) _ e in
        let (index, is_index, e2) =
          >>=-eq-ok (or_err payment_proof context.payment_proof_derivation_index) _ e1 in
        let (sender, is_sender, e3) = >>=-eq-ok (sender_address c parent_key_id index) _ e2 in
        let (u1, same, e4) = >>=-eq-ok (require (p.sender_address == sender)) _ e3 in
        let (u2, receiver, e5) =
          >>=-eq-ok (require (o.receiver_address == p.receiver_address)) _ e4 in
        let (excess, is_excess, e6) = >>=-eq-ok (slate_call (calc_excess l s)) _ e5 in
        let (msg, is_msg, e7) =
          >>=-eq-ok (payment_proof_message c s.token_type s.amount excess sender) _ e6 in
        let (sig, is_sig, e8) = >>=-eq-ok (or_err payment_proof p.receiver_signature) _ e7 in
        let is_same : sender ≡ p.sender_address =
          sym ((==_iff p.sender_address sender).0 (require-path _ same)) in
        (
          o,
          or_err-path _ orig is_o,
          record {
            index = index;
            excess = excess;
            msg = msg;
            sig = sig;
            is_index = or_err-path _ context.payment_proof_derivation_index is_index;
            is_sender = is_sender ∙ ap ok is_same;
            is_receiver =
                (==_iff o.receiver_address p.receiver_address).0 (require-path _ receiver);
            is_excess = slate_call-path (calc_excess l s) is_excess;
            is_msg =
                ap (payment_proof_message c s.token_type s.amount excess) (sym is_same) ∙ is_msg;
            is_sig = or_err-path _ p.receiver_signature is_sig;
            verifies = require-path _ e8;
          },
        )

    verify_proof_complete :
        (s : Slate) (o : StoredProofInfo) (p : PaymentInfo)
        → IsProof s o p
        → verify_proof c l parent_key_id context s (some o) p ≡ ok tt
    unfolding verify_proof
    verify_proof_complete s o p h = rw h.is_index (
        rw h.is_sender (
          rw (==_same p.sender_address) (
            rw h.is_receiver (
              rw (==_same p.receiver_address)
                (rw h.is_excess (rw h.is_msg (rw h.is_sig (rw h.verifies refl))))))))

    -- The payment proof of a slate passes exactly where the log has one for the slate and that of the
    -- slate is the one that was asked for: its receiver is that of the log's proof, its sender the
    -- wallet's own address at the context's index, and the receiver's signature is there and verifies
    -- for the slate's amount, the commitment to its keys and the sender.
    pub verify_slate_payment_proof_iff :
        (w : Wallet) (s : Slate) (p : PaymentInfo)
        → s.payment_proof ≡ some p
        → (verify_slate_payment_proof c l w parent_key_id context s ≡ ok tt) ↔ (
            (o : StoredProofInfo) × (orig_proof_info w parent_key_id s ≡ ok (some o))
            × IsProof s o p)
    unfolding verify_slate_payment_proof
    verify_slate_payment_proof_iff w s p is_p = (
      λ e.
          let (orig, is_orig, e1) =
            >>=-eq-ok (orig_proof_info w parent_key_id s) _ (rw is_p at e) in
          let (o, is_o, h) = verify_proof_sound s orig p (rw (and_false (is_some orig)) at e1) in
          (o, is_orig ∙ ap ok is_o, h),
      λ x. rw (is_p, x.1) (verify_proof_complete s x.0 p x.2),
    )

    -- What the receiver signs passes: with a proof for the slate in the log, under the wallet's own
    -- address and the receiver's, a signature that is made by the receiver's key for the slate
    -- verifies, if ed25519 verifies what it signs.
    pub verify_slate_payment_proof-create :
        (w : Wallet) (s : Slate) (p : PaymentInfo) (o : StoredProofInfo)
        (index excess sec_key key sig : ℕ)
        → ((msg : Bytes) → c.verify (c.ed25519_public key) msg (c.sign key msg) ≡ true)
        → orig_proof_info w parent_key_id s ≡ ok (some o)
        → context.payment_proof_derivation_index ≡ some index
        → sender_address c parent_key_id index ≡ ok p.sender_address
        → c.ed25519_secret sec_key ≡ some key
        → p.receiver_address ≡ c.ed25519_public key
        → o.receiver_address ≡ p.receiver_address
        → calc_excess l s ≡ ok excess
        → create_payment_proof_signature c s.token_type s.amount excess p.sender_address sec_key
          ≡ ok sig
        → verify_slate_payment_proof c l w parent_key_id context
            (record s { payment_proof = some (record p { receiver_signature = some sig }) })
          ≡ ok tt
    unfolding create_payment_proof_signature orig_proof_info calc_excess
    verify_slate_payment_proof-create w s p o index excess sec_key key sig law is_o is_index own
          is_key is_receiver same is_excess signed =
        let s' = record s { payment_proof = some (record p { receiver_signature = some sig }) } in
        let (msg, is_msg, e1) =
          >>=-eq-ok (payment_proof_message c s.token_type s.amount excess p.sender_address) _
            signed in
        let (k, is_k, e2) = >>=-eq-ok (or_err ed25519_key (c.ed25519_secret sec_key)) _ e1 in
        let one : k ≡ key =
          some-path (sym (or_err-path _ (c.ed25519_secret sec_key) is_k) ∙ is_key) in
        (verify_slate_payment_proof_iff w s' (record p { receiver_signature = some sig }) refl).1 (
          o,
          is_o,
          record {
            index = index;
            excess = excess;
            msg = msg;
            sig = sig;
            is_index = is_index;
            is_sender = own;
            is_receiver = same;
            is_excess = is_excess;
            is_msg = is_msg;
            is_sig = refl;
            verifies = rw is_receiver (rw (sym (ok-path e2)) (rw one (law msg)));
          },
        )
