-- ===== src/Selection/Errors.antt =====
-- The error kinds that the modelled calls return (libwallet/src/error.rs). The texts are left out.
use vcash_wallet.Base.{ℕ}

pub data Error : Type 0 where
  -- available, needed
  not_enough_funds : ℕ → ℕ → Error
  generic_error : Error
  payment_proof : Error
  transaction_not_cancellable : Error
  transaction_doesnt_exist : Error
  tx_required : Error
