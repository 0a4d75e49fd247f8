-- ===== src/Types/Context.antt =====
-- `Context`, the private data of one transaction (libwallet/src/types.rs). Secret keys and nonces
-- are opaque numbers; the fresh nonce of `Context::new` is an argument.
use vcash_wallet.Base.{ℕ, Bool, Option, none, List, [], ◌∷◌, ◌++◌, if◌then◌else◌}
use vcash_wallet.Types.Status.{Identifier, Commitment}

-- An identifier, its mmr index and an amount.
abbrev pub Entry : Type 0
Entry = Identifier × Option ℕ × ℕ

pub record Context : Type 0 where
  pub parent_key_id : Identifier
  pub sec_key : ℕ
  pub token_sec_key : ℕ
  pub sec_nonce : ℕ
  pub initial_sec_key : ℕ
  pub initial_sec_nonce : ℕ
  pub output_ids : List Entry
  pub input_ids : List Entry
  pub token_output_ids : List Entry
  pub token_input_ids : List Entry
  pub amount : ℕ
  pub fee : ℕ
  pub payment_proof_derivation_index : Option ℕ
  pub is_invoice : Bool
  pub calculated_excess : Option Commitment

-- `Context::new`; `fresh_nonce` is what `create_secnonce` draws and `test_nonce` the fixed one.
unfoldable pub new_context : ℕ → ℕ → ℕ → ℕ → Identifier → Bool → Bool → Context
new_context fresh_nonce test_nonce sec_key token_sec_key parent_key_id use_test_rng is_invoice =
    let sec_nonce = if use_test_rng then test_nonce else fresh_nonce in
    record {
      parent_key_id = parent_key_id;
      sec_key = sec_key;
      token_sec_key = token_sec_key;
      sec_nonce = sec_nonce;
      initial_sec_key = sec_key;
      initial_sec_nonce = sec_nonce;
      output_ids = [];
      input_ids = [];
      token_output_ids = [];
      token_input_ids = [];
      amount = 0;
      fee = 0;
      payment_proof_derivation_index = none;
      is_invoice = is_invoice;
      calculated_excess = none;
    }

unfoldable pub add_output : Identifier → Option ℕ → ℕ → Context → Context
add_output id mmr_index amount c = record c {
  output_ids = c.output_ids ++ ((id, mmr_index, amount) ∷ []);
}

unfoldable pub add_input : Identifier → Option ℕ → ℕ → Context → Context
add_input id mmr_index amount c = record c {
  input_ids = c.input_ids ++ ((id, mmr_index, amount) ∷ []);
}

unfoldable pub add_token_output : Identifier → Option ℕ → ℕ → Context → Context
add_token_output id mmr_index amount c = record c {
  token_output_ids = c.token_output_ids ++ ((id, mmr_index, amount) ∷ []);
}

unfoldable pub add_token_input : Identifier → Option ℕ → ℕ → Context → Context
add_token_input id mmr_index amount c = record c {
  token_input_ids = c.token_input_ids ++ ((id, mmr_index, amount) ∷ []);
}
