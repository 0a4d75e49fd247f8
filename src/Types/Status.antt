-- ===== src/Types/Status.antt =====
-- Names for opaque values, and the status of an output (libwallet/src/types.rs).
-- Identifiers, commitments, their hexadecimal text, token types, slate ids and times are only
-- compared, so each is a number.
use vcash_wallet.Base.{ℕ, Bool, ◌==◌}

abbrev pub Identifier : Type 0
Identifier = ℕ

-- A Pedersen commitment, also as hexadecimal text.
abbrev pub Commitment : Type 0
Commitment = ℕ

abbrev pub TokenType : Type 0
TokenType = ℕ

-- The Uuid of a slate.
abbrev pub SlateId : Type 0
SlateId = ℕ

-- A `DateTime<Utc>`.
abbrev pub Time : Type 0
Time = ℕ

pub data OutputStatus : Type 0 where
  unconfirmed unspent locked spent reverted : OutputStatus

abbrev pub status_index : OutputStatus → ℕ
status_index OutputStatus.unconfirmed = 0
status_index OutputStatus.unspent = 1
status_index OutputStatus.locked = 2
status_index OutputStatus.spent = 3
status_index OutputStatus.reverted = 4

-- The derived `==`.
abbrev pub status_eq : OutputStatus → OutputStatus → Bool
status_eq a b = status_index a == status_index b
