-- ===== src/SlateVersions/V4.antt =====
-- The slate of version 4 (libwallet/src/slate_versions/v4.rs). Keys, signatures, commitments, range
-- proofs, blinding factors and ids are opaque numbers.
use vcash_wallet.Base.{ℕ, Option, List}

pub record VersionCompatInfoV4 : Type 0 where
  pub version : ℕ
  pub block_header_version : ℕ

pub data SlateStateV4 : Type 0 where
  unknown standard1 standard2 standard3 invoice1 invoice2 invoice3 : SlateStateV4

pub record KernelFeaturesArgsV4 : Type 0 where
  pub lock_hgt : ℕ

pub record ParticipantDataV4 : Type 0 where
  pub xs : ℕ
  pub nonce : ℕ
  pub part : Option ℕ

pub record PaymentInfoV4 : Type 0 where
  pub saddr : ℕ
  pub raddr : ℕ
  pub rsig : Option ℕ

-- An `OutputFeaturesV4` is its u8.
pub record CommitsV4 : Type 0 where
  pub f : ℕ
  pub c : ℕ
  pub p : Option ℕ

pub record TokenCommitsV4 : Type 0 where
  pub k : ℕ
  pub f : ℕ
  pub c : ℕ
  pub p : Option ℕ

pub record SlateV4 : Type 0 where
  pub ver : VersionCompatInfoV4
  pub id : ℕ
  pub sta : SlateStateV4
  pub off : ℕ
  pub num_parts : ℕ
  pub amt : ℕ
  pub token_type : Option ℕ
  pub fee : ℕ
  pub feat : ℕ
  pub token_feat : ℕ
  pub ttl : ℕ
  pub sigs : List ParticipantDataV4
  pub coms : Option (List CommitsV4)
  pub token_coms : Option (List TokenCommitsV4)
  pub proof : Option PaymentInfoV4
  pub feat_args : Option KernelFeaturesArgsV4
  pub token_feat_args : Option KernelFeaturesArgsV4
