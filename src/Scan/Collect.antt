-- ===== src/Scan/Collect.antt =====
-- The outputs of the chain that are the wallet's, and the whole scan
-- (libwallet/src/internal/scan.rs). The loop over the node's replies runs on fuel.
pub mod Ends
use vcash_wallet.Base.{
  ℕ, zero, suc, ◌-◌, ◌*◌, Bool, Option, none, some, List, [], ◌∷◌, ◌++◌, leb, is_some,
  if◌then◌else◌, add64, Outcome, ok, err, timeout, ◌>>=◌,
}
use vcash_wallet.Env.{Env}
use vcash_wallet.Types.Status.{Identifier, Commitment, Time}
use vcash_wallet.Backend.{Wallet}
use vcash_wallet.Scan.{OutputResult, repair}

pub record ChainOutput : Type 0 where
  pub commit : Commitment
  pub proof : ℕ
  pub is_coinbase : Bool
  pub height : ℕ
  pub mmr_index : ℕ

-- The node's client and the rewinding of range proofs; `none` is an error.
pub record Chain : Type 0 where
  pub height_range_to_pmmr_indices : ℕ → ℕ → Option (ℕ × ℕ)
  -- From an index to an index: the highest index, the last one retrieved, and outputs.
  pub get_outputs_by_pmmr_index : ℕ → ℕ → Option (ℕ × ℕ × List ChainOutput)
  -- The amount and the key, if the output is the wallet's.
  pub rewind_legacy : Commitment → ℕ → Option (Option (ℕ × Identifier))
  pub rewind : Commitment → ℕ → Option (Option (ℕ × Identifier))
  -- `valid_header_version` for version 1, and `WEEK_HEIGHT_ORIGIN`.
  pub is_first_version : ℕ → Bool
  pub week_height : ℕ

pub data ScanError : Type 0 where
  chain : ScanError

abbrev pub try {ℓ} : {A : Type ℓ} → Option A → Outcome ScanError A
try none = err chain
try (some a) = ok a

module _ (env : Env) (c : Chain) where
  -- The new rewinding is tried where the old one does not apply or finds nothing.
  abbrev pub rewound : ChainOutput → Outcome ScanError (Option (ℕ × Identifier))
  rewound o =
      let legacy : Outcome ScanError (Option (ℕ × Identifier)) =
        if c.is_first_version (o.height - 2 * c.week_height)
        then try (c.rewind_legacy o.commit o.proof)
        else ok none in
      legacy >>= λ info. if is_some info then ok info else try (c.rewind o.commit o.proof)

  abbrev pub own_output : ChainOutput → ℕ → Identifier → OutputResult
  own_output o amount key_id = record {
    commit = o.commit;
    key_id = key_id;
    n_child = env.last_path_index key_id;
    mmr_index = o.mmr_index;
    value = amount;
    height = o.height;
    lock_height = if o.is_coinbase then add64 o.height env.coinbase_maturity else o.height;
    is_coinbase = o.is_coinbase;
  }

  abbrev pub add_own : ChainOutput → Option (ℕ × Identifier) → List OutputResult → List OutputResult
  add_own o none os = os
  add_own o (some (amount, key_id)) os = own_output o amount key_id ∷ os

  unfoldable pub identify_utxo_outputs : List ChainOutput → Outcome ScanError (List OutputResult)
  identify_utxo_outputs [] = ok []
  identify_utxo_outputs (o ∷ os) =
      rewound o >>= λ info. identify_utxo_outputs os >>= λ found. ok (add_own o info found)

  unfoldable pub collect_chain_outputs :
      ℕ → ℕ → ℕ → List OutputResult → Outcome ScanError (List OutputResult × ℕ)
  unfolding identify_utxo_outputs
  collect_chain_outputs zero start_index end_index result = timeout
  collect_chain_outputs (suc fuel) start_index end_index result =
      try (c.get_outputs_by_pmmr_index start_index end_index) >>= λ reply.
      identify_utxo_outputs reply.2 >>= λ found.
      let rest = collect_chain_outputs fuel (add64 reply.1 1) end_index (result ++ found) in
      if leb reply.0 reply.1 then ok (result ++ found, reply.1) else rest

  -- The wallet, and the heights and indices of `ScannedBlockInfo`. The fuel is the number of indices
  -- up to the last one of the range.
  unfoldable pub scan :
      (Identifier → Identifier)
      → Time
      → (ℕ → ℕ)
      → Bool
      → ℕ
      → ℕ
      → Wallet
      → Outcome ScanError (Wallet × ℕ × ℕ × ℕ)
  unfolding collect_chain_outputs repair
  scan parent_path now label_of delete_unconfirmed start_height end_height w =
      try (c.height_range_to_pmmr_indices start_height end_height) >>= λ range.
      collect_chain_outputs (suc range.1) range.0 range.1 [] >>= λ found. ok (
        repair env parent_path now label_of delete_unconfirmed found.0 w,
        end_height,
        range.0,
        found.1,
      )
