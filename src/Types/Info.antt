-- ===== src/Types/Info.antt =====
-- `WalletInfo` and `WalletTokenInfo` (libwallet/src/types.rs).
use vcash_wallet.Base.{ℕ, List}
use vcash_wallet.Types.Status.{TokenType}

pub record WalletTokenInfo : Type 0 where
  pub token_type : TokenType
  pub amount_awaiting_finalization : ℕ
  pub amount_awaiting_confirmation : ℕ
  pub amount_currently_spendable : ℕ
  pub amount_locked : ℕ
  pub amount_reverted : ℕ

pub record WalletInfo : Type 0 where
  pub last_confirmed_height : ℕ
  pub minimum_confirmations : ℕ
  pub total : ℕ
  pub amount_awaiting_finalization : ℕ
  pub amount_awaiting_confirmation : ℕ
  pub amount_immature : ℕ
  pub amount_currently_spendable : ℕ
  pub amount_locked : ℕ
  pub amount_reverted : ℕ
  pub token_infos : List WalletTokenInfo
