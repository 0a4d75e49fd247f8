-- ===== src/Slate/Rounds.antt =====
-- What a participant adds to a slate (libwallet/src/slate.rs): its offset and keys in round 1, its
-- signature in round 2, and the check of the fees.
pub mod Signed
pub mod Together
use vcash_wallet.Base.{
  ℕ, zero, suc, Bool, true, false, not, ◌&&◌, Option, none, some, List, [], ◌∷◌, ◌++◌, length,
  filter, ltb, ◌==◌, is_some, if◌then◌else◌, add64, Outcome, ok, err, panic, ◌>>=◌,
}
use vcash_wallet.Env.{Env}
use vcash_wallet.Slate.{
  Transaction, ParticipantData, Slate, SlateError, fee, tx_or_err, is_compact, num_participants,
}
use vcash_wallet.Slate.Signing.{Secp, try, message, pub_nonce_sum, pub_blind_sum, verify_part_sigs}

-- What a slate calls of the keychain: `BlindingFactor::from_secret_key`, `secret_key`, `blind_sum` of
-- what is added and what is subtracted, and a new secret key, drawn at random or by the test's steps.
pub record Keychain : Type 0 where
  pub blinding_factor : ℕ → ℕ
  pub secret_key : ℕ → Option ℕ
  pub blind_sum : List ℕ → List ℕ → Option ℕ
  pub random_key : ℕ
  pub test_key : ℕ

-- The entry of the participant with this key and nonce.
abbrev pub is_own : ℕ → ℕ → ParticipantData → Bool
is_own pub_key pub_nonce p = p.public_nonce == pub_nonce && p.public_blind_excess == pub_key

-- The signature that the filter of `add_participant_info` ends with.
unfoldable pub own_sig : ℕ → ℕ → Option ℕ → List ParticipantData → Option ℕ
own_sig pub_key pub_nonce sig [] = sig
own_sig pub_key pub_nonce sig (p ∷ ps) =
    own_sig pub_key pub_nonce
      (if is_own pub_key pub_nonce p && not (is_some sig) then p.part_sig else sig) ps

-- The loop of `fill_round_2` over the indices of the participants, which panics past the last entry.
unfoldable pub sign_own :
    ℕ → ℕ → ℕ → ℕ → List ParticipantData → Outcome SlateError (List ParticipantData)
sign_own pub_key pub_nonce sig zero ps = ok ps
sign_own pub_key pub_nonce sig (suc n) [] = panic
sign_own pub_key pub_nonce sig (suc n) (p ∷ ps) =
    let rest = sign_own pub_key pub_nonce sig n ps >>= λ r. ok (p ∷ r) in
    if is_own pub_key pub_nonce p then ok (record p { part_sig = some sig } ∷ ps) else rest

-- A slate with a token type is signed with the token key.
abbrev pub signing_key : Slate → ℕ → ℕ → ℕ
signing_key s sec_key token_sec_key = if is_some s.token_type then token_sec_key else sec_key

abbrev pub own_offset : Keychain → Bool → ℕ
own_offset k use_test_rng = k.blinding_factor (if use_test_rng then k.test_key else k.random_key)

unfoldable pub add_offset : Keychain → Slate → ℕ → Outcome SlateError Slate
add_offset k s my_offset =
    if is_compact s
    then (try (k.blind_sum (s.offset ∷ my_offset ∷ []) []) >>= λ total.
        ok (record s { offset = total }))
    else (tx_or_err s >>= λ tx.
        ok (record s { tx = some (record tx { offset = my_offset }); offset = my_offset }))

-- The slate, and the secret key that is left.
unfoldable pub generate_offset : Keychain → Slate → ℕ → Bool → Outcome SlateError (Slate × ℕ)
unfolding add_offset
generate_offset k s sec_key use_test_rng =
    let my_offset = own_offset k use_test_rng in
    add_offset k s my_offset >>= λ s'.
    try (k.blind_sum (k.blinding_factor sec_key ∷ []) (my_offset ∷ [])) >>= λ adjusted.
    try (k.secret_key adjusted) >>= λ left. ok (s', left)

-- Whether the participant takes a part of the offset.
abbrev pub splits_offset : Slate → Bool
splits_offset s =
    let first = length s.participant_data == 0 in
    if is_compact s then (if is_some s.token_type then first else true) else first

module _ (l : Secp) where
  unfoldable pub remove_other_sigdata : Slate → ℕ → ℕ → ℕ → Outcome SlateError Slate
  remove_other_sigdata s sec_nonce sec_key token_sec_key =
      try (l.public_key sec_nonce) >>= λ pub_nonce.
      try (l.public_key (signing_key s sec_key token_sec_key)) >>= λ pub_key.
      ok (record s { participant_data = filter (is_own pub_key pub_nonce) s.participant_data })

  unfoldable pub add_participant_info : Slate → ℕ → ℕ → Option ℕ → Outcome SlateError Slate
  unfolding own_sig
  add_participant_info s sec_key sec_nonce part_sig = try (l.public_key sec_key) >>= λ pub_key.
      try (l.public_key sec_nonce) >>= λ pub_nonce.
      let others = filter (λ p. not (is_own pub_key pub_nonce p)) s.participant_data in
      let sig = own_sig pub_key pub_nonce part_sig s.participant_data in
      let own : ParticipantData = record {
        public_blind_excess = pub_key;
        public_nonce = pub_nonce;
        part_sig = sig;
      } in
      ok (record s { participant_data = others ++ own ∷ []; participant_id = some pub_key })

  unfoldable pub fill_round_1 : Keychain → Slate → ℕ → ℕ → ℕ → Bool → Outcome SlateError (Slate × ℕ)
  unfolding generate_offset add_participant_info
  fill_round_1 k s sec_key token_sec_key sec_nonce use_test_rng =
      let offset : Outcome SlateError (Slate × ℕ) =
        if splits_offset s then generate_offset k s sec_key use_test_rng else ok (s, sec_key) in
      offset >>= λ x.
      add_participant_info x.0 (signing_key s x.1 token_sec_key) sec_nonce none >>= λ s'.
      ok (s', x.1)

  module _ (env : Env) (fee_of : Transaction → ℕ) where
    -- `fee_of` is `Transaction::fee`.
    unfoldable pub check_fees : Slate → Outcome SlateError (Unit {0})
    check_fees s = tx_or_err s >>= λ tx.
        let least =
          env.tx_fee (length tx.body.inputs) (length tx.body.outputs) (length tx.body.kernels)
            (length tx.body.token_inputs) (length tx.body.token_outputs)
            (length tx.body.token_kernels) in
        if ltb (fee_of tx) least
        then err fee
        else if ltb (add64 s.amount s.fee) least
        then err fee
        else ok tt

    unfoldable pub fill_round_2 : Slate → ℕ → ℕ → ℕ → Outcome SlateError Slate
    unfolding check_fees verify_part_sigs message pub_nonce_sum pub_blind_sum sign_own
    fill_round_2 s sec_key token_sec_key sec_nonce =
        let fees : Outcome SlateError (Unit {0}) = if is_compact s then ok tt else check_fees s in
        let key = signing_key s sec_key token_sec_key in
        fees >>= λ _. verify_part_sigs l s >>= λ _. message l s >>= λ msg.
        pub_nonce_sum l s >>= λ nonce_sum. pub_blind_sum l s >>= λ blind_sum.
        try (l.calculate_partial_sig key sec_nonce nonce_sum blind_sum msg) >>= λ sig_part.
        try (l.public_key key) >>= λ pub_excess. try (l.public_key sec_nonce) >>= λ pub_nonce.
        sign_own pub_excess pub_nonce sig_part (num_participants s) s.participant_data >>= λ ps.
        ok (record s { participant_data = ps })
