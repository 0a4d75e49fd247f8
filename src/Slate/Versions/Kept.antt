-- ===== src/Slate/Versions/Kept.antt =====
-- A slate that goes into version 4 and comes back (libwallet/src/slate.rs).
use vcash_wallet.Base.{
  ℕ, ◌≡◌, refl, sym, ap, ◌∙◌, Option, none, some, List, [], ◌∷◌, ◌++◌, map, append-nil,
  append_assoc, All,
}
use vcash_wallet.Types.Status.{TokenType}
use vcash_wallet.SlateVersions.Wire.{OutputFeatures}
use vcash_wallet.SlateVersions.V4.{CommitsV4, TokenCommitsV4}
use vcash_wallet.SlateVersions.V4Bin.{features_of, features_index}
use vcash_wallet.Slate.{
  Input, TokenInput, Output, TokenOutput, TransactionBody, Transaction, TokenTxKernel, PaymentInfo,
  SlateState, KernelFeaturesArgs, Slate, empty,
}
use vcash_wallet.Slate.Signing.{Secp, calc_excess, finalize_signature}
use vcash_wallet.Slate.Versions.Remade.{
  participants_kept, remade_kernel, remade_token_kernel, kernel_of_v4-remade,
  token_kernel_of_v4-remade,
}
use vcash_wallet.Slate.Versions.{
  converted, state_to_v4, state_of_v4, args_to_v4, args_of_v4, payment_to_v4, payment_of_v4,
  input_com, output_com, coms_of, token_input_com, token_output_com, token_coms_of, push_coms,
  push_token_coms, body_of_v4, with_tokens, tx_from_slate_v4, slate_to_v4, slate_of_v4,
}

-- Every token of the transaction is of the slate's token type, and there is none without one.
abbrev pub TokensOf : Option TokenType → TransactionBody → Type 0
TokensOf none b = (b.token_inputs ≡ []) × (b.token_outputs ≡ [])
TokensOf (some k) b =
    All (λ (i : TokenInput). i.token_type ≡ k) b.token_inputs
    × All (λ (o : TokenOutput). o.token_type ≡ k) b.token_outputs

abbrev pub HasOwnTokens : Slate → Type 0
HasOwnTokens s = (t : Transaction) → s.tx ≡ some t → TokensOf s.token_type t.body

pub features_of-features_index : (f : OutputFeatures) → features_of (features_index f) ≡ f
features_of-features_index OutputFeatures.plain = refl
features_of-features_index OutputFeatures.coinbase = refl
features_of-features_index OutputFeatures.token_issue = refl
features_of-features_index OutputFeatures.token = refl

push_coms-outputs :
    (os : List Output) (b : TransactionBody)
    → push_coms (map output_com os) b ≡ record b { outputs = b.outputs ++ os }
unfolding push_coms
push_coms-outputs [] b = ap (λ x. record b { outputs = x }) (sym (append-nil b.outputs))
push_coms-outputs (o ∷ os) b =
    push_coms-outputs os _
    ∙ ap (λ x. record b { outputs = x })
        (append_assoc b.outputs (_ ∷ []) os
          ∙ ap (λ f. b.outputs ++ record o { features = f } ∷ os)
              (features_of-features_index o.features))

push_coms-inputs :
    (is : List Input) (cs : List CommitsV4) (b : TransactionBody)
    → push_coms (map input_com is ++ cs) b ≡ push_coms cs (record b { inputs = b.inputs ++ is })
unfolding push_coms
push_coms-inputs [] cs b =
    ap (λ x. push_coms cs (record b { inputs = x })) (sym (append-nil b.inputs))
push_coms-inputs (i ∷ is) cs b =
    push_coms-inputs is cs _
    ∙ ap (λ x. push_coms cs (record b { inputs = x }))
        (append_assoc b.inputs (_ ∷ []) is
          ∙ ap (λ f. b.inputs ++ record i { features = f } ∷ is)
              (features_of-features_index i.features))

module _ (k : TokenType) where
  push_token_coms-outputs :
      (os : List TokenOutput) (b : TransactionBody)
      → All (λ (o : TokenOutput). o.token_type ≡ k) os
      → push_token_coms k (map token_output_com os) b
        ≡ record b { token_outputs = b.token_outputs ++ os }
  unfolding push_token_coms
  push_token_coms-outputs [] b own =
      ap (λ x. record b { token_outputs = x }) (sym (append-nil b.token_outputs))
  push_token_coms-outputs (o ∷ os) b own =
      push_token_coms-outputs os _ own.1
      ∙ ap (λ x. record b { token_outputs = x })
          (append_assoc b.token_outputs (_ ∷ []) os
            ∙ ap (λ f. b.token_outputs ++ record o { features = f; token_type = k } ∷ os)
                (features_of-features_index o.features)
            ∙ ap (λ x. b.token_outputs ++ record o { token_type = x } ∷ os) (sym own.0))

  push_token_coms-inputs :
      (is : List TokenInput) (cs : List TokenCommitsV4) (b : TransactionBody)
      → All (λ (i : TokenInput). i.token_type ≡ k) is
      → push_token_coms k (map token_input_com is ++ cs) b
        ≡ push_token_coms k cs (record b { token_inputs = b.token_inputs ++ is })
  unfolding push_token_coms
  push_token_coms-inputs [] cs b own =
      ap (λ x. push_token_coms k cs (record b { token_inputs = x }))
        (sym (append-nil b.token_inputs))
  push_token_coms-inputs (i ∷ is) cs b own =
      push_token_coms-inputs is cs _ own.1
      ∙ ap (λ x. push_token_coms k cs (record b { token_inputs = x }))
          (append_assoc b.token_inputs (_ ∷ []) is
            ∙ ap (λ f. b.token_inputs ++ record i { features = f; token_type = k } ∷ is)
                (features_of-features_index i.features)
            ∙ ap (λ x. b.token_inputs ++ record i { token_type = x } ∷ is) (sym own.0))

state_kept : (s : SlateState) → state_of_v4 (state_to_v4 s) ≡ s
state_kept SlateState.unknown = refl
state_kept SlateState.standard1 = refl
state_kept SlateState.standard2 = refl
state_kept SlateState.standard3 = refl
state_kept SlateState.invoice1 = refl
state_kept SlateState.invoice2 = refl
state_kept SlateState.invoice3 = refl

args_kept : (a : Option KernelFeaturesArgs) → converted args_of_v4 (converted args_to_v4 a) ≡ a
args_kept none = refl
args_kept (some a) = refl

payment_kept : (p : Option PaymentInfo) → converted payment_of_v4 (converted payment_to_v4 p) ≡ p
payment_kept none = refl
payment_kept (some p) = refl

module _ (l : Secp) (zero_factor blank_commit blank_sig : ℕ) where
  abbrev remade_kernels : Option TokenType → Slate → List TokenTxKernel
  remade_kernels none s = []
  remade_kernels (some k) s = remade_token_kernel l zero_factor blank_commit blank_sig k s ∷ []

  -- The token kernels of a transaction that is made anew.
  abbrev pub new_token_kernels : Slate → List TokenTxKernel
  new_token_kernels s = remade_kernels s.token_type s

  -- The transaction under the slate's offset, with kernels made of the slate.
  abbrev pub rebuilt : Slate → Transaction → Transaction
  rebuilt s t = record {
    offset = s.offset;
    body = record t.body {
      kernels = remade_kernel l zero_factor blank_commit blank_sig s ∷ [];
      token_kernels = new_token_kernels s;
    };
  }

  abbrev pub carried : Slate → Slate
  carried s = record s { tx = converted (rebuilt s) s.tx; participant_id = none }

  body_kept :
      (s : Slate) (t : Transaction)
      → body_of_v4 l zero_factor blank_commit blank_sig (slate_to_v4 s) (coms_of t)
        ≡ record (empty zero_factor).body {
          inputs = t.body.inputs;
          outputs = t.body.outputs;
          kernels = remade_kernel l zero_factor blank_commit blank_sig s ∷ [];
        }
  body_kept s t =
      push_coms-inputs t.body.inputs (map output_com t.body.outputs) _
      ∙ push_coms-outputs t.body.outputs _
      ∙ ap
          (λ k. record (empty zero_factor).body {
            inputs = t.body.inputs;
            outputs = t.body.outputs;
            kernels = k ∷ [];
          })
          (kernel_of_v4-remade l zero_factor blank_commit blank_sig s)

  tokens_kept :
      (k : Option TokenType) (s : Slate) (t : Transaction)
      → TokensOf k t.body
      → with_tokens l zero_factor blank_commit blank_sig k
          (slate_to_v4 s)
          (token_coms_of t)
          (body_of_v4 l zero_factor blank_commit blank_sig (slate_to_v4 s) (coms_of t))
        ≡ record (rebuilt s t).body { token_kernels = remade_kernels k s }
  tokens_kept none s t (no_inputs, no_outputs) = body_kept s t ∙ (λ i. record (rebuilt s t).body {
    token_kernels = [];
    token_inputs = sym no_inputs i;
    token_outputs = sym no_outputs i;
  })
  tokens_kept (some k) s t (inputs, outputs) =
      ap
        (with_tokens l zero_factor blank_commit blank_sig (some k) (slate_to_v4 s)
          (token_coms_of t))
        (body_kept s t)
      ∙ push_token_coms-inputs k t.body.token_inputs (map token_output_com t.body.token_outputs) _
          inputs
      ∙ push_token_coms-outputs k t.body.token_outputs _ outputs
      ∙ ap (λ x. record (rebuilt s t).body { token_kernels = x ∷ [] })
          (token_kernel_of_v4-remade l zero_factor blank_commit blank_sig k s)

  -- The kernels do not depend on the transaction from before.
  kernels_kept :
      (k : Option TokenType) (s : Slate) (t : Transaction)
      → remade_kernels k (record s { tx = some t }) ≡ remade_kernels k s
  unfolding slate_to_v4 calc_excess finalize_signature
  kernels_kept none s t = refl
  kernels_kept (some k) s t = refl

  tx_kept :
      (o : Option Transaction) (s : Slate)
      → HasOwnTokens (record s { tx = o })
      → tx_from_slate_v4 l zero_factor blank_commit blank_sig (slate_to_v4 (record s { tx = o }))
        ≡ converted (rebuilt s) o
  unfolding tx_from_slate_v4 slate_to_v4
  tx_kept none s own = refl
  tx_kept (some t) s own =
      ap (λ b. some (record { offset = s.offset; body = b }))
        (tokens_kept s.token_type (record s { tx = some t }) t (own t refl)
          ∙ ap (λ x. record (rebuilt s t).body { token_kernels = x })
              (kernels_kept s.token_type s t))

  -- A slate whose tokens are all of its own token type comes back from version 4 as it was, save the
  -- participant id, which is dropped, and the offset and the kernels of its transaction, which are
  -- made anew: the offset is the slate's, and each kernel has the commitment to the sum of the keys
  -- and the final signature of the slate, taken as one without a lock, or blanks where these fail.
  pub slate_of_v4-slate_to_v4 :
      (s : Slate)
      → HasOwnTokens s
      → slate_of_v4 l zero_factor blank_commit blank_sig (slate_to_v4 s) ≡ carried s
  unfolding slate_of_v4 slate_to_v4
  slate_of_v4-slate_to_v4 s own = λ i. record (carried s) {
    state = state_kept s.state i;
    tx = tx_kept s.tx s own i;
    participant_data = participants_kept s.participant_data i;
    payment_proof = payment_kept s.payment_proof i;
    kernel_features_args = args_kept s.kernel_features_args i;
    token_kernel_features_args = args_kept s.token_kernel_features_args i;
  }
