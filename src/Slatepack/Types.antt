-- ===== src/Slatepack/Types.antt =====
-- Slatepacks and their addresses (libwallet/src/slatepack/types.rs, libwallet/src/slatepack/address.rs).
use vcash_wallet.Base.{
  ℕ, suc, ◌+◌, ◌-◌, ◌%◌, ◌^◌, ◌≡◌, Bool, true, false, ◌&&◌, Option, none, some, List, [], ltb,
  length, All,
}
use vcash_wallet.SlateVersions.Wire.{Bytes, Wire}

-- The prefix is a string, given by its bytes.
pub record SlatepackAddress : Type 0 where
  pub hrp : Bytes
  pub pub_key : ℕ

pub record SlatepackVersion : Type 0 where
  pub major : ℕ
  pub minor : ℕ

pub record SlatepackEncMetadata : Type 0 where
  pub sender : Option SlatepackAddress
  pub recipients : List SlatepackAddress

pub record Slatepack : Type 0 where
  pub slatepack : SlatepackVersion
  pub mode : ℕ
  pub sender : Option SlatepackAddress
  pub encrypted_meta : SlatepackEncMetadata
  pub payload : Bytes
  pub future_test_mode : Bool

abbrev pub default_enc_metadata : SlatepackEncMetadata
default_enc_metadata = record { sender = none; recipients = [] }

-- `Slatepack::default`
abbrev pub default_slatepack : Slatepack
default_slatepack = record {
  slatepack = record { major = 1; minor = 0 };
  mode = 0;
  sender = none;
  encrypted_meta = default_enc_metadata;
  payload = [];
  future_test_mode = false;
}

-- `u32` subtraction in a release build.
abbrev pub sub32 : ℕ → ℕ → ℕ
sub32 a b = (a + 2 ^ 32 - b) % 2 ^ 32

-- A byte of an ASCII string that is no upper case letter.
abbrev pub NotUpper : ℕ → Type 0
NotUpper c = (ltb 64 c && ltb c 91) ≡ false

abbrev pub is_ascii : ℕ → Bool
is_ascii c = ltb c 128

-- `bech32::encode` of a prefix and bytes, `bech32::decode` with `from_base32`, and the test of
-- `String::from_utf8`. What is encoded under a prefix without upper case letters is ASCII and is
-- decoded again.
pub record Bech32 : Type 0 where
  pub encode : Bytes → Bytes → Option Bytes
  pub decode : Bytes → Option (Bytes × Bytes)
  pub is_utf8 : Bytes → Bool
  pub decode-encode :
      (hrp content s : Bytes)
      → All NotUpper hrp
      → encode hrp content ≡ some s
      → decode s ≡ some (hrp, content)
  pub is_utf8-encode : (hrp content s : Bytes) → encode hrp content ≡ some s → is_utf8 s ≡ true
  pub is_utf8-ascii : (s : Bytes) → All (λ c. is_ascii c ≡ true) s → is_utf8 s ≡ true

module _ (w : Wire) (b : Bech32) where
  -- `String::try_from(&SlatepackAddress)`
  abbrev pub address_string : SlatepackAddress → Option Bytes
  address_string a = b.encode a.hrp (w.key_bytes a.pub_key)

  -- `SlatepackAddress::try_from(&str)`
  abbrev pub address_of : Bytes → Option SlatepackAddress
  address_of s = elim (b.decode s) [
    | none ↦ none
    | some x ↦ elim (w.key_of x.1) [
      | none ↦ none
      | some k ↦ some (record { hrp = x.0; pub_key = k })
    ]
  ]

  -- `SlatepackAddress::encoded_len`, none for an error
  abbrev pub encoded_len : SlatepackAddress → Option ℕ
  encoded_len a = elim (address_string a) [ none ↦ none | some s ↦ some (suc (length s)) ]
