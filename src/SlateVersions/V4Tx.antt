-- ===== src/SlateVersions/V4Tx.antt =====
-- The transaction of version 4 (libwallet/src/slate_versions/v4.rs), with the kinds of its kernels
-- (`CompatKernelFeatures`, libwallet/src/slate.rs).
use vcash_wallet.Base.{ℕ, Option, List}
use vcash_wallet.Types.Status.{Identifier, TokenType}

pub data CompatKernelFeatures : Type 0 where
  plain coinbase height_locked no_recent_duplicate : CompatKernelFeatures

pub data CompatTokenKernelFeatures : Type 0 where
  plain_token issue_token height_locked_token : CompatTokenKernelFeatures

pub record InputV4 : Type 0 where
  pub features : ℕ
  pub commit : ℕ

pub record TokenInputV4 : Type 0 where
  pub features : ℕ
  pub token_type : TokenType
  pub commit : ℕ

-- `commit` is the field `com`.
pub record OutputV4 : Type 0 where
  pub features : ℕ
  pub commit : ℕ
  pub prf : ℕ

pub record TokenOutputV4 : Type 0 where
  pub features : ℕ
  pub token_type : TokenType
  pub commit : ℕ
  pub proof : ℕ

pub record TxKernelV4 : Type 0 where
  pub features : CompatKernelFeatures
  pub fee : ℕ
  pub lock_height : ℕ
  pub excess : ℕ
  pub excess_sig : ℕ

pub record TokenTxKernelV4 : Type 0 where
  pub features : CompatTokenKernelFeatures
  pub token_type : TokenType
  pub lock_height : ℕ
  pub excess : ℕ
  pub excess_sig : ℕ

pub record TransactionBodyV4 : Type 0 where
  pub ins : List InputV4
  pub token_ins : List TokenInputV4
  pub outs : List OutputV4
  pub token_outs : List TokenOutputV4
  pub kers : List TxKernelV4
  pub token_kers : List TokenTxKernelV4

pub record TransactionV4 : Type 0 where
  pub offset : ℕ
  pub body : TransactionBodyV4

pub record CoinbaseV4 : Type 0 where
  pub output : OutputV4
  pub kernel : TxKernelV4
  pub key_id : Option Identifier
