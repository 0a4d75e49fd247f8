-- ===== src/Slate/Versions.antt =====
-- The conversions between a slate and its form of version 4 (libwallet/src/slate.rs).
pub mod Remade
pub mod Kept
use vcash_wallet.Base.{
  ℕ, Bool, false, Option, none, some, List, [], ◌∷◌, ◌++◌, map, ◌==◌, if◌then◌else◌, Outcome, ok,
  err, panic, timeout,
}
use vcash_wallet.Types.Status.{TokenType}
use vcash_wallet.SlateVersions.V4.{
  VersionCompatInfoV4, SlateStateV4, KernelFeaturesArgsV4, ParticipantDataV4, PaymentInfoV4,
  CommitsV4, TokenCommitsV4, SlateV4,
}
use vcash_wallet.SlateVersions.V4Bin.{features_of, features_index}
use vcash_wallet.Slate.{
  KernelFeatures, TokenKernelFeatures, TxKernel, TokenTxKernel, Input, TokenInput, Output,
  TokenOutput, TransactionBody, Transaction, PaymentInfo, ParticipantData, SlateState,
  KernelFeaturesArgs, VersionCompatInfo, Slate, SlateError, empty, blank,
}
use vcash_wallet.Slate.Signing.{Secp, calc_excess, finalize_signature}

-- `match` on an option whose value alone is converted.
abbrev pub converted : {A B : Type 0} → (A → B) → Option A → Option B
converted f none = none
converted f (some a) = some (f a)

abbrev pub participant_to_v4 : ParticipantData → ParticipantDataV4
participant_to_v4 p = record {
  xs = p.public_blind_excess;
  nonce = p.public_nonce;
  part = p.part_sig;
}

abbrev pub state_to_v4 : SlateState → SlateStateV4
state_to_v4 SlateState.unknown = SlateStateV4.unknown
state_to_v4 SlateState.standard1 = SlateStateV4.standard1
state_to_v4 SlateState.standard2 = SlateStateV4.standard2
state_to_v4 SlateState.standard3 = SlateStateV4.standard3
state_to_v4 SlateState.invoice1 = SlateStateV4.invoice1
state_to_v4 SlateState.invoice2 = SlateStateV4.invoice2
state_to_v4 SlateState.invoice3 = SlateStateV4.invoice3

abbrev pub args_to_v4 : KernelFeaturesArgs → KernelFeaturesArgsV4
args_to_v4 a = record { lock_hgt = a.lock_height }

abbrev pub version_to_v4 : VersionCompatInfo → VersionCompatInfoV4
version_to_v4 v = record { version = v.version; block_header_version = v.block_header_version }

abbrev pub payment_to_v4 : PaymentInfo → PaymentInfoV4
payment_to_v4 p = record {
  saddr = p.sender_address;
  raddr = p.receiver_address;
  rsig = p.receiver_signature;
}

abbrev pub input_com : Input → CommitsV4
input_com i = record { f = features_index i.features; c = i.commit; p = none }

abbrev pub output_com : Output → CommitsV4
output_com o = record { f = features_index o.features; c = o.commit; p = some o.proof }

abbrev pub coms_of : Transaction → List CommitsV4
coms_of t = map input_com t.body.inputs ++ map output_com t.body.outputs

abbrev pub token_input_com : TokenInput → TokenCommitsV4
token_input_com i = record {
  k = i.token_type;
  f = features_index i.features;
  c = i.commit;
  p = none;
}

abbrev pub token_output_com : TokenOutput → TokenCommitsV4
token_output_com o = record {
  k = o.token_type;
  f = features_index o.features;
  c = o.commit;
  p = some o.proof;
}

abbrev pub token_coms_of : Transaction → List TokenCommitsV4
token_coms_of t =
    map token_input_com t.body.token_inputs ++ map token_output_com t.body.token_outputs

unfoldable pub slate_to_v4 : Slate → SlateV4
slate_to_v4 s = record {
  ver = version_to_v4 s.version_info;
  id = s.id;
  sta = state_to_v4 s.state;
  off = s.offset;
  num_parts = s.num_participants;
  amt = s.amount;
  token_type = s.token_type;
  fee = s.fee;
  feat = s.kernel_features;
  token_feat = s.token_kernel_features;
  ttl = s.ttl_cutoff_height;
  sigs = map participant_to_v4 s.participant_data;
  coms = converted coms_of s.tx;
  token_coms = converted token_coms_of s.tx;
  proof = converted payment_to_v4 s.payment_proof;
  feat_args = converted args_to_v4 s.kernel_features_args;
  token_feat_args = converted args_to_v4 s.token_kernel_features_args;
}

abbrev pub participant_of_v4 : ParticipantDataV4 → ParticipantData
participant_of_v4 d = record {
  public_blind_excess = d.xs;
  public_nonce = d.nonce;
  part_sig = d.part;
}

abbrev pub state_of_v4 : SlateStateV4 → SlateState
state_of_v4 SlateStateV4.unknown = SlateState.unknown
state_of_v4 SlateStateV4.standard1 = SlateState.standard1
state_of_v4 SlateStateV4.standard2 = SlateState.standard2
state_of_v4 SlateStateV4.standard3 = SlateState.standard3
state_of_v4 SlateStateV4.invoice1 = SlateState.invoice1
state_of_v4 SlateStateV4.invoice2 = SlateState.invoice2
state_of_v4 SlateStateV4.invoice3 = SlateState.invoice3

abbrev pub args_of_v4 : KernelFeaturesArgsV4 → KernelFeaturesArgs
args_of_v4 a = record { lock_height = a.lock_hgt }

abbrev pub version_of_v4 : VersionCompatInfoV4 → VersionCompatInfo
version_of_v4 v = record { version = v.version; block_header_version = v.block_header_version }

abbrev pub payment_of_v4 : PaymentInfoV4 → PaymentInfo
payment_of_v4 p = record {
  sender_address = p.saddr;
  receiver_address = p.raddr;
  receiver_signature = p.rsig;
}

abbrev pub push_com : CommitsV4 → TransactionBody → TransactionBody
push_com c b = elim c.p [
  | none ↦ record b {
    inputs = b.inputs ++ record { features = features_of c.f; commit = c.c } ∷ [];
  }
  | some p ↦ record b {
    outputs = b.outputs ++ record { features = features_of c.f; commit = c.c; proof = p } ∷ [];
  }
]

unfoldable pub push_coms : List CommitsV4 → TransactionBody → TransactionBody
push_coms [] b = b
push_coms (c ∷ cs) b = push_coms cs (push_com c b)

abbrev pub push_token_com : TokenType → TokenCommitsV4 → TransactionBody → TransactionBody
push_token_com k c b = elim c.p [
  | none ↦ record b {
    token_inputs =
        b.token_inputs ++ record { features = features_of c.f; token_type = k; commit = c.c } ∷ [];
  }
  | some p ↦ record b {
    token_outputs =
        b.token_outputs
        ++ record { features = features_of c.f; token_type = k; commit = c.c; proof = p } ∷ [];
  }
]

unfoldable pub push_token_coms : TokenType → List TokenCommitsV4 → TransactionBody → TransactionBody
push_token_coms k [] b = b
push_token_coms k (c ∷ cs) b = push_token_coms k cs (push_token_com k c b)

abbrev pub lock_hgt_or_zero : Option KernelFeaturesArgsV4 → ℕ
lock_hgt_or_zero none = 0
lock_hgt_or_zero (some a) = a.lock_hgt

abbrev pub features_of_v4 : SlateV4 → KernelFeatures
features_of_v4 s =
    if s.feat == 2
    then KernelFeatures.height_locked s.fee (lock_hgt_or_zero s.feat_args)
    else KernelFeatures.plain s.fee

abbrev pub token_features_of_v4 : SlateV4 → TokenKernelFeatures
token_features_of_v4 s =
    if s.token_feat == 2
    then TokenKernelFeatures.height_locked_token (lock_hgt_or_zero s.token_feat_args)
    else TokenKernelFeatures.plain_token

-- `match` on a result whose error is replaced by a value; the calls do not panic.
abbrev pub or_blank : ℕ → Outcome SlateError ℕ → ℕ
or_blank b r = elim r [ ok x ↦ x | err e ↦ b | panic ↦ b | timeout ↦ b ]

-- The zero factor, the blank commitment and the blank signature are parameters.
module _ (l : Secp) (zero_factor blank_commit blank_sig : ℕ) where
  -- A slate for the sums and the signature; its new id and its transaction are not read.
  abbrev pub calc_slate : SlateV4 → Slate
  calc_slate s = record (blank 0 zero_factor 2 false) {
    fee = s.fee;
    token_type = s.token_type;
    participant_data = map participant_of_v4 s.sigs;
  }

  abbrev pub excess_of_v4 : SlateV4 → ℕ
  excess_of_v4 s = or_blank blank_commit (calc_excess l (calc_slate s))

  abbrev pub sig_of_v4 : SlateV4 → ℕ
  sig_of_v4 s = or_blank blank_sig (finalize_signature l (calc_slate s))

  abbrev pub kernel_of_v4 : SlateV4 → TxKernel
  kernel_of_v4 s = record {
    features = features_of_v4 s;
    excess = excess_of_v4 s;
    excess_sig = sig_of_v4 s;
  }

  abbrev pub token_kernel_of_v4 : TokenType → SlateV4 → TokenTxKernel
  token_kernel_of_v4 k s = record {
    features = token_features_of_v4 s;
    token_type = k;
    excess = excess_of_v4 s;
    excess_sig = sig_of_v4 s;
  }

  abbrev pub body_of_v4 : SlateV4 → List CommitsV4 → TransactionBody
  body_of_v4 s coms =
      push_coms coms (record (empty zero_factor).body { kernels = kernel_of_v4 s ∷ [] })

  abbrev pub with_tokens :
      Option TokenType → SlateV4 → List TokenCommitsV4 → TransactionBody → TransactionBody
  with_tokens none s coms b = b
  with_tokens (some k) s coms b =
      push_token_coms k coms
        (record b { token_kernels = b.token_kernels ++ token_kernel_of_v4 k s ∷ [] })

  unfoldable pub tx_from_slate_v4 : SlateV4 → Option Transaction
  unfolding push_coms push_token_coms calc_excess finalize_signature
  tx_from_slate_v4 s = elim s.coms [
    | none ↦ none
    | some coms ↦ elim s.token_coms [
      | none ↦ none
      | some token_coms ↦ some (record {
        offset = s.off;
        body = with_tokens s.token_type s token_coms (body_of_v4 s coms);
      })
    ]
  ]

  unfoldable pub slate_of_v4 : SlateV4 → Slate
  unfolding tx_from_slate_v4
  slate_of_v4 s = record {
    num_participants = s.num_parts;
    id = s.id;
    state = state_of_v4 s.sta;
    tx = tx_from_slate_v4 s;
    amount = s.amt;
    token_type = s.token_type;
    fee = s.fee;
    kernel_features = s.feat;
    token_kernel_features = s.token_feat;
    ttl_cutoff_height = s.ttl;
    offset = s.off;
    participant_data = map participant_of_v4 s.sigs;
    version_info = version_of_v4 s.ver;
    payment_proof = converted payment_of_v4 s.proof;
    participant_id = none;
    kernel_features_args = converted args_of_v4 s.feat_args;
    token_kernel_features_args = converted args_of_v4 s.token_feat_args;
  }
