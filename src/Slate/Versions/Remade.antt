-- ===== src/Slate/Versions/Remade.antt =====
-- The kernels that a slate's conversion from version 4 computes (libwallet/src/slate.rs), in terms of
-- the slate that went in.
use vcash_wallet.Base.{
  ℕ, ◌≡◌, refl, ap, ◌∙◌, Option, none, some, List, [], ◌∷◌, map, ◌==◌, if◌then◌else◌, Outcome, ok,
  err, panic, timeout, ◌>>=◌, Option-cases, inl, inr,
}
use vcash_wallet.Types.Status.{TokenType}
use vcash_wallet.Slate.{
  KernelFeatures, TokenKernelFeatures, KernelFeaturesArgs, TxKernel, TokenTxKernel, ParticipantData,
  Slate, SlateError,
}
use vcash_wallet.Slate.Signing.{
  Secp, try, check, key_sum, nonces, excesses, part_sigs, message, verify_parts, calc_excess,
  finalize_signature,
}
use vcash_wallet.Slate.Versions.{
  participant_to_v4, participant_of_v4, features_of_v4, token_features_of_v4, calc_slate,
  kernel_of_v4, token_kernel_of_v4, slate_to_v4,
}

-- The value of a call, or another one where it fails.
abbrev pub value_or : ℕ → Outcome SlateError ℕ → ℕ
value_or other (ok x) = x
value_or other (err e) = other
value_or other panic = other
value_or other timeout = other

abbrev pub height_or_zero : Option KernelFeaturesArgs → ℕ
height_or_zero none = 0
height_or_zero (some a) = a.lock_height

-- The slate as one whose kernel has no lock.
abbrev pub without_lock : Slate → Slate
without_lock s = record s { kernel_features = 0; token_kernel_features = 0 }

abbrev pub own_features : Slate → KernelFeatures
own_features s =
    if s.kernel_features == 2
    then KernelFeatures.height_locked s.fee (height_or_zero s.kernel_features_args)
    else KernelFeatures.plain s.fee

abbrev pub own_token_features : Slate → TokenKernelFeatures
own_token_features s =
    if s.token_kernel_features == 2
    then TokenKernelFeatures.height_locked_token (height_or_zero s.token_kernel_features_args)
    else TokenKernelFeatures.plain_token

pub participants_kept :
    (ps : List ParticipantData) → map participant_of_v4 (map participant_to_v4 ps) ≡ ps
participants_kept [] = refl
participants_kept (p ∷ ps) = ap (p ∷◌) (participants_kept ps)

features_kept : (s : Slate) → features_of_v4 (slate_to_v4 s) ≡ own_features s
unfolding slate_to_v4
features_kept s = elim (Option-cases s.kernel_features_args) [
  | inl e ↦ rw e refl
  | inr (a, e) ↦ rw e refl
]

token_features_kept : (s : Slate) → token_features_of_v4 (slate_to_v4 s) ≡ own_token_features s
unfolding slate_to_v4
token_features_kept s = elim (Option-cases s.token_kernel_features_args) [
  | inl e ↦ rw e refl
  | inr (a, e) ↦ rw e refl
]

module _ (l : Secp) where
  -- The checks and the sum depend on the participants and on what is signed.
  verify_parts_same :
      (s t : Slate) (msg : ℕ) (ps : List ParticipantData)
      → s.participant_data ≡ t.participant_data
      → verify_parts l s msg ps ≡ verify_parts l t msg ps
  unfolding verify_parts
  verify_parts_same s t msg [] e = refl
  verify_parts_same s t msg (p ∷ ps) e =
      let rest = verify_parts_same s t msg ps e in
      elim (Option-cases p.part_sig) [
        | inl unsigned ↦ rw unsigned rest
        | inr (sig, signed) ↦ rw signed (λ i. key_sum l (nonces (e i)) >>= λ nonce_sum.
            key_sum l (excesses (e i)) >>= λ blind_sum.
            check (l.verify_partial_sig sig nonce_sum p.public_blind_excess blind_sum msg) >>= λ _.
            rest i)
      ]

  finalize_signature_same :
      (s t : Slate)
      → s.participant_data ≡ t.participant_data
      → message l s ≡ message l t
      → finalize_signature l s ≡ finalize_signature l t
  unfolding finalize_signature
  finalize_signature_same s t e m =
      let parts : (msg : ℕ)
          → verify_parts l s msg s.participant_data ≡ verify_parts l t msg t.participant_data =
        λ msg. ap (verify_parts l s msg) e ∙ verify_parts_same s t msg t.participant_data e in
      λ i. (m i >>= λ msg. parts msg i) >>= λ _. key_sum l (nonces (e i)) >>= λ nonce_sum.
      key_sum l (excesses (e i)) >>= λ final_pubkey.
      try (l.add_signatures (part_sigs (e i)) nonce_sum) >>= λ final_sig. m i >>= λ msg.
      check (l.verify_completed_sig final_sig final_pubkey final_pubkey msg) >>= λ _. ok final_sig

module _ (l : Secp) (zero_factor blank_commit blank_sig : ℕ) where
  abbrev pub remade_kernel : Slate → TxKernel
  remade_kernel s = record {
    features = own_features s;
    excess = value_or blank_commit (calc_excess l s);
    excess_sig = value_or blank_sig (finalize_signature l (without_lock s));
  }

  abbrev pub remade_token_kernel : TokenType → Slate → TokenTxKernel
  remade_token_kernel k s = record {
    features = own_token_features s;
    token_type = k;
    excess = value_or blank_commit (calc_excess l s);
    excess_sig = value_or blank_sig (finalize_signature l (without_lock s));
  }

  calc_excess_kept :
      (s : Slate)
      → calc_excess l (calc_slate l zero_factor blank_commit blank_sig (slate_to_v4 s))
        ≡ calc_excess l s
  unfolding calc_excess slate_to_v4
  calc_excess_kept s =
      ap (λ ps. key_sum l (excesses ps) >>= λ sum. try (l.from_pubkey sum))
        (participants_kept s.participant_data)

  finalize_signature_kept :
      (s : Slate)
      → finalize_signature l (calc_slate l zero_factor blank_commit blank_sig (slate_to_v4 s))
        ≡ finalize_signature l (without_lock s)
  unfolding message slate_to_v4
  finalize_signature_kept s =
      finalize_signature_same l (calc_slate l zero_factor blank_commit blank_sig (slate_to_v4 s))
        (without_lock s) (participants_kept s.participant_data) refl

  pub kernel_of_v4-remade :
      (s : Slate)
      → kernel_of_v4 l zero_factor blank_commit blank_sig (slate_to_v4 s) ≡ remade_kernel s
  kernel_of_v4-remade s = λ i. record {
    features = features_kept s i;
    excess = value_or blank_commit (calc_excess_kept s i);
    excess_sig = value_or blank_sig (finalize_signature_kept s i);
  }

  pub token_kernel_of_v4-remade :
      (k : TokenType) (s : Slate)
      → token_kernel_of_v4 l zero_factor blank_commit blank_sig k (slate_to_v4 s)
        ≡ remade_token_kernel k s
  token_kernel_of_v4-remade k s = λ i. record {
    features = token_features_kept s i;
    token_type = k;
    excess = value_or blank_commit (calc_excess_kept s i);
    excess_sig = value_or blank_sig (finalize_signature_kept s i);
  }
