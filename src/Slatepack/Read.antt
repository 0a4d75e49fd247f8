-- ===== src/Slatepack/Read.antt =====
-- Reading addresses, slatepacks and encrypted metadata in binary form
-- (libwallet/src/slatepack/types.rs, libwallet/src/slatepack/address.rs).
use vcash_wallet.Base.{
  ℕ, zero, suc, ◌%◌, ◌^◌, Bool, true, false, Option, none, some, List, [], ◌∷◌, ltb, if◌then◌else◌,
}
use vcash_wallet.SlateVersions.Wire.{
  Bytes, Reader, pure, fail, ◌>>=◌, unexpected_data, corrupted_data, Wire,
}
use vcash_wallet.SlateVersions.Flags.{has}
use vcash_wallet.Slatepack.Types.{
  SlatepackAddress, SlatepackVersion, SlatepackEncMetadata, Slatepack, Bech32, address_of,
  encoded_len, sub32, default_enc_metadata,
}

module _ (w : Wire) where
  abbrev pub get_version : Reader SlatepackVersion
  get_version = do
    major ← w.u8.get
    minor ← w.u8.get
    pure (record { major = major; minor = minor })

  -- The loop over unknown bytes.
  abbrev pub skip : ℕ → Reader Unit
  skip zero = pure tt
  skip (suc n) = w.u8.get >>= λ x. skip n

module _ (w : Wire) (b : Bech32) where
  abbrev pub parse_address : Bytes → Reader SlatepackAddress
  parse_address s =
      if b.is_utf8 s
      then elim (address_of w b s) [ none ↦ fail corrupted_data | some a ↦ pure a ]
      else fail corrupted_data

  unfoldable pub get_address : Reader SlatepackAddress
  get_address = do len ← w.u8.get; encoded ← (w.fixed len).get; parse_address encoded

  -- An address, and what is left of the bytes of which it is a part.
  abbrev pub get_counted : ℕ → Reader (SlatepackAddress × ℕ)
  get_counted remaining = get_address >>= λ a. elim (encoded_len w b a) [
    | none ↦ fail corrupted_data
    | some n ↦ pure (a, sub32 remaining (n % 2 ^ 32))
  ]

  abbrev pub get_sender : Bool → ℕ → Reader (Option SlatepackAddress × ℕ)
  get_sender false remaining = pure (none, remaining)
  get_sender true remaining = get_counted remaining >>= λ x. pure (some x.0, x.1)

  abbrev pub get_rest : SlatepackVersion → ℕ → Reader Slatepack
  get_rest version mode = do
    flags ← w.u16.get
    to_payload ← w.u32.get
    sender ← get_sender (has 1 flags) to_payload
    skipped ← skip w sender.1
    payload ← w.bytes.get
    pure (record {
      slatepack = version;
      mode = mode;
      sender = sender.0;
      encrypted_meta = default_enc_metadata;
      payload = payload;
      future_test_mode = false;
    })

  unfoldable pub get_slatepack : Reader Slatepack
  get_slatepack = do
    version ← get_version w
    mode ← w.u8.get
    if ltb 1 mode then fail unexpected_data else get_rest version mode

  abbrev pub get_addresses : ℕ → ℕ → Reader (List SlatepackAddress × ℕ)
  get_addresses zero remaining = pure ([], remaining)
  get_addresses (suc n) remaining = do
    first ← get_counted remaining
    others ← get_addresses n first.1
    pure (first.0 ∷ others.0, others.1)

  abbrev pub get_recipients : Bool → ℕ → Reader (List SlatepackAddress × ℕ)
  get_recipients false remaining = pure ([], remaining)
  get_recipients true remaining = w.u16.get >>= λ count. get_addresses count (sub32 remaining 2)

  unfoldable pub get_meta : Reader SlatepackEncMetadata
  get_meta = do
    total ← w.u32.get
    flags ← w.u16.get
    sender ← get_sender (has 1 flags) (sub32 total 2)
    recipients ← get_recipients (has 2 flags) sender.1
    skipped ← skip w recipients.1
    pure (record { sender = sender.0; recipients = recipients.0 })
