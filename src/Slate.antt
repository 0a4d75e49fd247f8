-- ===== src/Slate.antt =====
-- A transaction under way (libwallet/src/slate.rs), with the parts of a transaction of `grin_core`
-- that its conversions take apart. Keys, nonces, signatures, commitments, range proofs, blinding
-- factors and ids are opaque numbers; the text of a token type is the token key that it spells.
pub mod Signing
pub mod Rounds
pub mod Finalize
pub mod Versions
pub mod Transactions
use vcash_wallet.Base.{
  ℕ, Bool, Option, none, some, List, [], leb, ◌==◌, if◌then◌else◌, Outcome, ok, err,
}
use vcash_wallet.Types.Status.{TokenType}
use vcash_wallet.SlateVersions.Wire.{OutputFeatures}

pub data KernelFeatures : Type 0 where
  plain : ℕ → KernelFeatures
  coinbase : KernelFeatures
  -- The fee, then the height.
  height_locked no_recent_duplicate : ℕ → ℕ → KernelFeatures

pub data TokenKernelFeatures : Type 0 where
  plain_token issue_token : TokenKernelFeatures
  height_locked_token : ℕ → TokenKernelFeatures

pub record TxKernel : Type 0 where
  pub features : KernelFeatures
  pub excess : ℕ
  pub excess_sig : ℕ

pub record TokenTxKernel : Type 0 where
  pub features : TokenKernelFeatures
  pub token_type : TokenType
  pub excess : ℕ
  pub excess_sig : ℕ

pub record Input : Type 0 where
  pub features : OutputFeatures
  pub commit : ℕ

pub record TokenInput : Type 0 where
  pub features : OutputFeatures
  pub token_type : TokenType
  pub commit : ℕ

pub record Output : Type 0 where
  pub features : OutputFeatures
  pub commit : ℕ
  pub proof : ℕ

pub record TokenOutput : Type 0 where
  pub features : OutputFeatures
  pub token_type : TokenType
  pub commit : ℕ
  pub proof : ℕ

pub record TransactionBody : Type 0 where
  pub inputs : List Input
  pub token_inputs : List TokenInput
  pub outputs : List Output
  pub token_outputs : List TokenOutput
  pub kernels : List TxKernel
  pub token_kernels : List TokenTxKernel

pub record Transaction : Type 0 where
  pub offset : ℕ
  pub body : TransactionBody

pub record PaymentInfo : Type 0 where
  pub sender_address : ℕ
  pub receiver_address : ℕ
  pub receiver_signature : Option ℕ

pub record ParticipantData : Type 0 where
  pub public_blind_excess : ℕ
  pub public_nonce : ℕ
  pub part_sig : Option ℕ

pub data SlateState : Type 0 where
  unknown standard1 standard2 standard3 invoice1 invoice2 invoice3 : SlateState

pub record KernelFeaturesArgs : Type 0 where
  pub lock_height : ℕ

pub record VersionCompatInfo : Type 0 where
  pub version : ℕ
  pub block_header_version : ℕ

pub record Slate : Type 0 where
  pub version_info : VersionCompatInfo
  pub num_participants : ℕ
  pub id : ℕ
  pub state : SlateState
  pub tx : Option Transaction
  pub amount : ℕ
  pub token_type : Option TokenType
  pub fee : ℕ
  pub ttl_cutoff_height : ℕ
  pub kernel_features : ℕ
  pub token_kernel_features : ℕ
  pub offset : ℕ
  pub participant_data : List ParticipantData
  pub payment_proof : Option PaymentInfo
  pub kernel_features_args : Option KernelFeaturesArgs
  pub token_kernel_features_args : Option KernelFeaturesArgs
  pub participant_id : Option ℕ

-- The kinds of `ErrorKind` that a slate raises; `secp` stands for those of the libraries' calls.
pub data SlateError : Type 0 where
  slate_transaction_required : SlateError
  invalid_kernel_features unknown_kernel_features unknown_token_kernel_features : ℕ → SlateError
  kernel_features_missing token_kernel_features_missing : SlateError
  commit fee : SlateError
  secp : SlateError

abbrev pub tx_or_err : Slate → Outcome SlateError Transaction
tx_or_err s = elim s.tx [ none ↦ err slate_transaction_required | some t ↦ ok t ]

abbrev pub is_compact : Slate → Bool
is_compact s = leb 4 s.version_info.version

abbrev pub num_participants : Slate → ℕ
num_participants s = if s.num_participants == 0 then 2 else s.num_participants

abbrev pub compact : Slate → Slate
compact s = record s { tx = none }

-- `Transaction::empty()`, with the zero offset.
abbrev pub empty : ℕ → Transaction
empty zero_factor = record {
  offset = zero_factor;
  body = record {
    inputs = [];
    token_inputs = [];
    outputs = [];
    token_outputs = [];
    kernels = [];
    token_kernels = [];
  };
}

-- The new id and the zero blinding factor come first.
abbrev pub blank : ℕ → ℕ → ℕ → Bool → Slate
blank new_id zero_factor num_parts is_invoice = record {
  num_participants = if num_parts == 0 then 2 else num_parts;
  id = new_id;
  state = if is_invoice then SlateState.invoice1 else SlateState.standard1;
  tx = some (empty zero_factor);
  amount = 0;
  token_type = none;
  fee = 0;
  ttl_cutoff_height = 0;
  kernel_features = 0;
  token_kernel_features = 0;
  offset = zero_factor;
  participant_data = [];
  version_info = record { version = 4; block_header_version = 3 };
  payment_proof = none;
  participant_id = none;
  kernel_features_args = none;
  token_kernel_features_args = none;
}
