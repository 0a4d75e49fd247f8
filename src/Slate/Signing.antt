-- ===== src/Slate/Signing.antt =====
-- The signatures of a slate (libwallet/src/slate.rs): the features of its kernel, what is signed, the
-- sums of keys and nonces, and the check and the sum of the partial signatures.
use vcash_wallet.Base.{
  ℕ, Bool, Option, none, some, List, [], ◌∷◌, map, ◌==◌, is_some, if◌then◌else◌, Outcome, ok, err,
  panic, ◌>>=◌,
}
use vcash_wallet.Types.Status.{TokenType}
use vcash_wallet.Slate.{
  KernelFeatures, TokenKernelFeatures, KernelFeaturesArgs, ParticipantData, Slate, SlateError, secp,
  invalid_kernel_features, unknown_kernel_features, unknown_token_kernel_features,
  kernel_features_missing, token_kernel_features_missing, commit,
}

-- What a slate calls of secp256k1, of `aggsig` and of kernel features; `none` is an error.
pub record Secp : Type 0 where
  -- `PublicKey::from_secret_key` and `from_combination`, `Commitment::from_pubkey`.
  pub public_key : ℕ → Option ℕ
  pub combination : List ℕ → Option ℕ
  pub from_pubkey : ℕ → Option ℕ
  -- The key, the nonce, the sum of the nonces, the sum of the keys and the message.
  pub calculate_partial_sig : ℕ → ℕ → ℕ → ℕ → ℕ → Option ℕ
  -- The signature, the sum of the nonces, the key, the sum of the keys and the message.
  pub verify_partial_sig : ℕ → ℕ → ℕ → ℕ → ℕ → Bool
  pub add_signatures : List ℕ → ℕ → Option ℕ
  -- The signature, the key, the sum of the keys and the message.
  pub verify_completed_sig : ℕ → ℕ → ℕ → ℕ → Bool
  pub kernel_sig_msg : KernelFeatures → Option ℕ
  pub token_kernel_sig_msg : TokenKernelFeatures → TokenType → Option ℕ
  -- `NRDRelativeHeight::new`, whose value is the height.
  pub is_nrd_height : ℕ → Bool

-- `?` on a call of a library.
abbrev pub try {ℓ} : {A : Type ℓ} → Option A → Outcome SlateError A
try none = err secp
try (some a) = ok a

abbrev pub check : Bool → Outcome SlateError (Unit {0})
check b = if b then ok tt else err secp

abbrev lock_height_or : SlateError → Option KernelFeaturesArgs → Outcome SlateError ℕ
lock_height_or e none = err e
lock_height_or e (some a) = ok a.lock_height

unfoldable pub token_kernel_features : Slate → Outcome SlateError TokenKernelFeatures
token_kernel_features s =
    if s.token_kernel_features == 0
    then ok TokenKernelFeatures.plain_token
    else if s.token_kernel_features == 1
    then err (invalid_kernel_features 1)
    else if s.token_kernel_features == 2
    then (lock_height_or token_kernel_features_missing s.token_kernel_features_args >>= λ h.
        ok (TokenKernelFeatures.height_locked_token h))
    else err (unknown_token_kernel_features s.token_kernel_features)

-- The partial signatures that are there.
unfoldable pub part_sigs : List ParticipantData → List ℕ
part_sigs [] = []
part_sigs (p ∷ ps) = elim p.part_sig [ none ↦ part_sigs ps | some sig ↦ sig ∷ part_sigs ps ]

abbrev pub nonces : List ParticipantData → List ℕ
nonces ps = map (λ (p : ParticipantData). p.public_nonce) ps

abbrev pub excesses : List ParticipantData → List ℕ
excesses ps = map (λ (p : ParticipantData). p.public_blind_excess) ps

module _ (l : Secp) where
  unfoldable pub kernel_features : Slate → Outcome SlateError KernelFeatures
  kernel_features s =
      if s.kernel_features == 0
      then ok (KernelFeatures.plain s.fee)
      else if s.kernel_features == 1
      then err (invalid_kernel_features 1)
      else if s.kernel_features == 2
      then (lock_height_or kernel_features_missing s.kernel_features_args >>= λ h.
          ok (KernelFeatures.height_locked s.fee h))
      else if s.kernel_features == 3
      then (lock_height_or kernel_features_missing s.kernel_features_args >>= λ h.
          check (l.is_nrd_height h) >>= λ _. ok (KernelFeatures.no_recent_duplicate s.fee h))
      else err (unknown_kernel_features s.kernel_features)

  unfoldable pub msg_to_sign : Slate → Outcome SlateError ℕ
  unfolding kernel_features
  msg_to_sign s = kernel_features s >>= λ f. try (l.kernel_sig_msg f)

  -- The token type is unwrapped.
  unfoldable pub token_msg_to_sign : Slate → Outcome SlateError ℕ
  unfolding token_kernel_features
  token_msg_to_sign s = token_kernel_features s >>= λ f. elim s.token_type [
    | none ↦ panic
    | some k ↦ try (l.token_kernel_sig_msg f k)
  ]

  -- The message that the slate's kind asks for.
  unfoldable pub message : Slate → Outcome SlateError ℕ
  unfolding msg_to_sign token_msg_to_sign
  message s = if is_some s.token_type then token_msg_to_sign s else msg_to_sign s

  -- `from_combination` of keys, at least one.
  unfoldable pub key_sum : List ℕ → Outcome SlateError ℕ
  key_sum [] = err commit
  key_sum (k ∷ ks) = try (l.combination (k ∷ ks))

  unfoldable pub pub_nonce_sum : Slate → Outcome SlateError ℕ
  unfolding key_sum
  pub_nonce_sum s = key_sum (nonces s.participant_data)

  unfoldable pub pub_blind_sum : Slate → Outcome SlateError ℕ
  unfolding key_sum
  pub_blind_sum s = key_sum (excesses s.participant_data)

  -- The loop of `verify_part_sigs`.
  unfoldable pub verify_parts : Slate → ℕ → List ParticipantData → Outcome SlateError (Unit {0})
  unfolding pub_nonce_sum pub_blind_sum
  verify_parts s msg [] = ok tt
  verify_parts s msg (p ∷ ps) = elim p.part_sig [
    | none ↦ verify_parts s msg ps
    | some sig ↦ pub_nonce_sum s >>= λ nonce_sum. pub_blind_sum s >>= λ blind_sum.
        check (l.verify_partial_sig sig nonce_sum p.public_blind_excess blind_sum msg) >>= λ _.
        verify_parts s msg ps
  ]

  unfoldable pub verify_part_sigs : Slate → Outcome SlateError (Unit {0})
  unfolding message verify_parts
  verify_part_sigs s = message s >>= λ msg. verify_parts s msg s.participant_data

  unfoldable pub finalize_signature : Slate → Outcome SlateError ℕ
  unfolding verify_part_sigs part_sigs pub_nonce_sum pub_blind_sum message
  finalize_signature s = verify_part_sigs s >>= λ _. pub_nonce_sum s >>= λ nonce_sum.
      pub_blind_sum s >>= λ final_pubkey.
      try (l.add_signatures (part_sigs s.participant_data) nonce_sum) >>= λ final_sig.
      message s >>= λ msg.
      check (l.verify_completed_sig final_sig final_pubkey final_pubkey msg) >>= λ _. ok final_sig

  unfoldable pub calc_excess : Slate → Outcome SlateError ℕ
  unfolding pub_blind_sum
  calc_excess s = pub_blind_sum s >>= λ sum. try (l.from_pubkey sum)
