-- ===== src/Slate/Transactions.antt =====
-- The conversions between a transaction and its form of version 4 (libwallet/src/slate.rs).
use vcash_wallet.Base.{
  ℕ, ◌≡◌, refl, Bool, true, Option, List, [], ◌∷◌, map, All, if◌then◌else◌, Outcome, ok, panic,
  ◌>>=◌,
}
use vcash_wallet.Types.Status.{Identifier}
use vcash_wallet.SlateVersions.V4Bin.{features_of, features_index}
use vcash_wallet.SlateVersions.V4Tx.{
  CompatKernelFeatures, CompatTokenKernelFeatures, InputV4, TokenInputV4, OutputV4, TokenOutputV4,
  TxKernelV4, TokenTxKernelV4, TransactionBodyV4, TransactionV4, CoinbaseV4,
}
use vcash_wallet.Slate.{
  KernelFeatures, TokenKernelFeatures, TxKernel, TokenTxKernel, Input, TokenInput, Output,
  TokenOutput, TransactionBody, Transaction, SlateError,
}
use vcash_wallet.Slate.Versions.Kept.{features_of-features_index}

abbrev pub input_to_v4 : Input → InputV4
input_to_v4 i = record { features = features_index i.features; commit = i.commit }

abbrev pub token_input_to_v4 : TokenInput → TokenInputV4
token_input_to_v4 i = record {
  features = features_index i.features;
  token_type = i.token_type;
  commit = i.commit;
}

abbrev pub output_to_v4 : Output → OutputV4
output_to_v4 o = record { features = features_index o.features; commit = o.commit; prf = o.proof }

abbrev pub token_output_to_v4 : TokenOutput → TokenOutputV4
token_output_to_v4 o = record {
  features = features_index o.features;
  token_type = o.token_type;
  commit = o.commit;
  proof = o.proof;
}

-- The kind of a kernel, its fee and its height, 0 where it has none.
abbrev pub kernel_parts : KernelFeatures → CompatKernelFeatures × ℕ × ℕ
kernel_parts (KernelFeatures.plain fee) = (CompatKernelFeatures.plain, fee, 0)
kernel_parts KernelFeatures.coinbase = (CompatKernelFeatures.coinbase, 0, 0)
kernel_parts (KernelFeatures.height_locked fee h) = (CompatKernelFeatures.height_locked, fee, h)
kernel_parts (KernelFeatures.no_recent_duplicate fee h) =
    (CompatKernelFeatures.no_recent_duplicate, fee, h)

abbrev pub kernel_to_v4 : TxKernel → TxKernelV4
kernel_to_v4 k = record {
  features = (kernel_parts k.features).0;
  fee = (kernel_parts k.features).1;
  lock_height = (kernel_parts k.features).2;
  excess = k.excess;
  excess_sig = k.excess_sig;
}

abbrev pub token_kernel_parts : TokenKernelFeatures → CompatTokenKernelFeatures × ℕ
token_kernel_parts TokenKernelFeatures.plain_token = (CompatTokenKernelFeatures.plain_token, 0)
token_kernel_parts TokenKernelFeatures.issue_token = (CompatTokenKernelFeatures.issue_token, 0)
token_kernel_parts (TokenKernelFeatures.height_locked_token h) =
    (CompatTokenKernelFeatures.height_locked_token, h)

abbrev pub token_kernel_to_v4 : TokenTxKernel → TokenTxKernelV4
token_kernel_to_v4 k = record {
  features = (token_kernel_parts k.features).0;
  token_type = k.token_type;
  lock_height = (token_kernel_parts k.features).1;
  excess = k.excess;
  excess_sig = k.excess_sig;
}

abbrev pub body_to_v4 : TransactionBody → TransactionBodyV4
body_to_v4 b = record {
  ins = map input_to_v4 b.inputs;
  token_ins = map token_input_to_v4 b.token_inputs;
  outs = map output_to_v4 b.outputs;
  token_outs = map token_output_to_v4 b.token_outputs;
  kers = map kernel_to_v4 b.kernels;
  token_kers = map token_kernel_to_v4 b.token_kernels;
}

unfoldable pub tx_to_v4 : Transaction → TransactionV4
tx_to_v4 t = record { offset = t.offset; body = body_to_v4 t.body }

-- The fields of a `CbData`.
unfoldable pub coinbase_to_v4 : Output → TxKernel → Option Identifier → CoinbaseV4
coinbase_to_v4 output kernel key_id = record {
  output = output_to_v4 output;
  kernel = kernel_to_v4 kernel;
  key_id = key_id;
}

abbrev pub input_of_v4 : InputV4 → Input
input_of_v4 i = record { features = features_of i.features; commit = i.commit }

abbrev pub token_input_of_v4 : TokenInputV4 → TokenInput
token_input_of_v4 i = record {
  features = features_of i.features;
  token_type = i.token_type;
  commit = i.commit;
}

abbrev pub output_of_v4 : OutputV4 → Output
output_of_v4 o = record { features = features_of o.features; commit = o.commit; proof = o.prf }

abbrev pub token_output_of_v4 : TokenOutputV4 → TokenOutput
token_output_of_v4 o = record {
  features = features_of o.features;
  token_type = o.token_type;
  commit = o.commit;
  proof = o.proof;
}

abbrev pub token_features_of : CompatTokenKernelFeatures → ℕ → TokenKernelFeatures
token_features_of CompatTokenKernelFeatures.plain_token h = TokenKernelFeatures.plain_token
token_features_of CompatTokenKernelFeatures.issue_token h = TokenKernelFeatures.issue_token
token_features_of CompatTokenKernelFeatures.height_locked_token h =
    TokenKernelFeatures.height_locked_token h

abbrev pub token_kernel_of_v4 : TokenTxKernelV4 → TokenTxKernel
token_kernel_of_v4 k = record {
  features = token_features_of k.features k.lock_height;
  token_type = k.token_type;
  excess = k.excess;
  excess_sig = k.excess_sig;
}

-- The elements in order, up to the first one that fails.
abbrev pub map_ok :
    {A B : Type 0} → (A → Outcome SlateError B) → List A → Outcome SlateError (List B)
map_ok f [] = ok []
map_ok f (x ∷ xs) = f x >>= λ y. map_ok f xs >>= λ ys. ok (y ∷ ys)

-- `is_nrd_height` is whether `NRDRelativeHeight::new` takes the height; its result is expected.
module _ (is_nrd_height : ℕ → Bool) where
  abbrev pub features_of_compat : CompatKernelFeatures → ℕ → ℕ → Outcome SlateError KernelFeatures
  features_of_compat CompatKernelFeatures.plain fee h = ok (KernelFeatures.plain fee)
  features_of_compat CompatKernelFeatures.coinbase fee h = ok KernelFeatures.coinbase
  features_of_compat CompatKernelFeatures.height_locked fee h =
      ok (KernelFeatures.height_locked fee h)
  features_of_compat CompatKernelFeatures.no_recent_duplicate fee h =
      if is_nrd_height h then ok (KernelFeatures.no_recent_duplicate fee h) else panic

  abbrev pub tx_kernel_of_v4 : TxKernelV4 → Outcome SlateError TxKernel
  tx_kernel_of_v4 k = features_of_compat k.features k.fee k.lock_height >>= λ f.
      ok (record { features = f; excess = k.excess; excess_sig = k.excess_sig })

  unfoldable pub tx_of_v4 : TransactionV4 → Outcome SlateError Transaction
  tx_of_v4 t = map_ok tx_kernel_of_v4 t.body.kers >>= λ kernels. ok (record {
    offset = t.offset;
    body = record {
      inputs = map input_of_v4 t.body.ins;
      token_inputs = map token_input_of_v4 t.body.token_ins;
      outputs = map output_of_v4 t.body.outs;
      token_outputs = map token_output_of_v4 t.body.token_outs;
      kernels = kernels;
      token_kernels = map token_kernel_of_v4 t.body.token_kers;
    };
  })

  -- A kernel against duplicates has a height that is taken.
  abbrev pub HasHeight : TxKernel → Type 0
  HasHeight k =
      (fee h : ℕ) → k.features ≡ KernelFeatures.no_recent_duplicate fee h → is_nrd_height h ≡ true

  kernel_kept :
      (f : KernelFeatures) (excess sig : ℕ)
      → HasHeight (record { features = f; excess = excess; excess_sig = sig })
      → tx_kernel_of_v4 (kernel_to_v4 (record { features = f; excess = excess; excess_sig = sig }))
        ≡ ok (record { features = f; excess = excess; excess_sig = sig })
  kernel_kept (KernelFeatures.plain fee) excess sig valid = refl
  kernel_kept KernelFeatures.coinbase excess sig valid = refl
  kernel_kept (KernelFeatures.height_locked fee h) excess sig valid = refl
  kernel_kept (KernelFeatures.no_recent_duplicate fee h) excess sig valid =
      rw (valid fee h refl) refl

  kernels_kept :
      (ks : List TxKernel) → All HasHeight ks → map_ok tx_kernel_of_v4 (map kernel_to_v4 ks) ≡ ok ks
  kernels_kept [] valid = refl
  kernels_kept (k ∷ ks) (valid, rest) =
      rw (kernel_kept k.features k.excess k.excess_sig valid) (rw (kernels_kept ks rest) refl)

map_kept :
    {A B : Type 0} (f : A → B) (g : B → A)
    → ((a : A) → g (f a) ≡ a)
    → (xs : List A) → map g (map f xs) ≡ xs
map_kept f g back [] = refl
map_kept f g back (x ∷ xs) = λ i. back x i ∷ map_kept f g back xs i

token_features_kept :
    (f : TokenKernelFeatures)
    → token_features_of (token_kernel_parts f).0 (token_kernel_parts f).1 ≡ f
token_features_kept TokenKernelFeatures.plain_token = refl
token_features_kept TokenKernelFeatures.issue_token = refl
token_features_kept (TokenKernelFeatures.height_locked_token h) = refl

module _ (is_nrd_height : ℕ → Bool) where
  -- A transaction whose kernels against duplicates have heights that are taken comes back from
  -- version 4 as it was.
  pub tx_of_v4-tx_to_v4 :
      (t : Transaction)
      → All (HasHeight is_nrd_height) t.body.kernels
      → tx_of_v4 is_nrd_height (tx_to_v4 t) ≡ ok t
  unfolding tx_of_v4 tx_to_v4
  tx_of_v4-tx_to_v4 t valid = rw (kernels_kept is_nrd_height t.body.kernels valid) (λ i.
      ok (record t {
        body = record t.body {
          inputs =
              map_kept input_to_v4 input_of_v4
                (λ x j. record x { features = features_of-features_index x.features j })
                t.body.inputs i;
          token_inputs =
              map_kept token_input_to_v4 token_input_of_v4
                (λ x j. record x { features = features_of-features_index x.features j })
                t.body.token_inputs i;
          outputs =
              map_kept output_to_v4 output_of_v4
                (λ x j. record x { features = features_of-features_index x.features j })
                t.body.outputs i;
          token_outputs =
              map_kept token_output_to_v4 token_output_of_v4
                (λ x j. record x { features = features_of-features_index x.features j })
                t.body.token_outputs i;
          token_kernels =
              map_kept token_kernel_to_v4 token_kernel_of_v4
                (λ x j. record x { features = token_features_kept x.features j })
                t.body.token_kernels i;
        };
      }))
