-- ===== src/Slatepack/Write.antt =====
-- Writing addresses, slatepacks and encrypted metadata in binary form
-- (libwallet/src/slatepack/types.rs, libwallet/src/slatepack/address.rs).
use vcash_wallet.Base.{
  ℕ, ◌+◌, ◌%◌, ◌^◌, Bool, true, false, not, Option, none, some, List, [], ◌∷◌, ltb, length, is_some,
  if◌then◌else◌, Outcome, ok, err, panic, ◌>>=◌,
}
use vcash_wallet.SlateVersions.Wire.{Bytes, Writer, ReadError, corrupted_data, Wire}
use vcash_wallet.SlateVersions.Flags.{set}
use vcash_wallet.Slatepack.Types.{
  SlatepackAddress, SlatepackVersion, SlatepackEncMetadata, Slatepack, Bech32, address_string,
  encoded_len,
}

-- What is written, or the error in its place.
abbrev pub Written : Type 0
Written = Outcome ReadError Writer

abbrev pub is_empty : {A : Type 0} → List A → Bool
is_empty [] = true
is_empty (x ∷ xs) = false

module _ (w : Wire) where
  abbrev pub put_version : SlatepackVersion → Writer
  put_version v rest = w.u8.put v.major (w.u8.put v.minor rest)

  -- The length of an address and its string.
  abbrev pub put_string : Bytes → Writer
  put_string s rest = w.u8.put (length s % 2 ^ 8) ((w.fixed (length s)).put s rest)

module _ (w : Wire) (b : Bech32) where
  unfoldable pub put_address : SlatepackAddress → Written
  put_address a = elim (address_string w b a) [
    | none ↦ err corrupted_data
    | some s ↦ if ltb 255 (length s) then err corrupted_data else ok (put_string w s)
  ]

  abbrev pub put_sender : Option SlatepackAddress → Written
  put_sender none = ok (λ rest. rest)
  put_sender (some a) = put_address a

  -- `Slatepack::opt_fields_len`, which unwraps the length of the address.
  abbrev pub opt_fields_len : Option SlatepackAddress → Outcome ReadError ℕ
  opt_fields_len none = ok 0
  opt_fields_len (some a) = elim (encoded_len w b a) [ none ↦ panic | some n ↦ ok n ]

  unfoldable pub put_slatepack : Slatepack → Written
  put_slatepack sp = do
    fields_len ← opt_fields_len sp.sender
    put_fields ← put_sender sp.sender
    ok (λ rest. put_version w sp.slatepack (
        w.u8.put sp.mode (
          w.u16.put (set (is_some sp.sender) 1 0)
            (w.u32.put (fields_len % 2 ^ 32) (put_fields (w.bytes.put sp.payload rest))))))

  abbrev pub recipients_len : List SlatepackAddress → Option ℕ
  recipients_len [] = some 0
  recipients_len (a ∷ tail) = elim (encoded_len w b a) [
    | none ↦ none
    | some n ↦ elim (recipients_len tail) [ none ↦ none | some k ↦ some (n + k) ]
  ]

  abbrev pub sender_len : Option SlatepackAddress → Option ℕ
  sender_len none = some 0
  sender_len (some a) = encoded_len w b a

  -- `SlatepackEncMetadata::encoded_len`: without the four bytes of the length itself.
  abbrev pub meta_len : SlatepackEncMetadata → Option ℕ
  meta_len m = elim (sender_len m.sender) [
    | none ↦ none
    | some n ↦
        if is_empty m.recipients
        then some (2 + n)
        else elim (recipients_len m.recipients) [ none ↦ none | some k ↦ some (2 + n + (2 + k)) ]
  ]

  abbrev pub put_addresses : List SlatepackAddress → Written
  put_addresses [] = ok (λ rest. rest)
  put_addresses (a ∷ tail) = do
    first ← put_address a
    others ← put_addresses tail
    ok (λ rest. first (others rest))

  -- The number of recipients is compared with the bound after its cast to u16.
  abbrev pub put_recipients : List SlatepackAddress → Written
  put_recipients [] = ok (λ rest. rest)
  put_recipients (a ∷ tail) = do
    let count = length (a ∷ tail) % 2 ^ 16
    addresses ← put_addresses (a ∷ tail)
    if ltb 65535 count then err corrupted_data else ok (λ rest. w.u16.put count (addresses rest))

  unfoldable pub put_meta : SlatepackEncMetadata → Written
  put_meta m = elim (meta_len m) [
    | none ↦ err corrupted_data
    | some n ↦ do
      sender ← put_sender m.sender
      recipients ← put_recipients m.recipients
      ok (λ rest. w.u32.put (n % 2 ^ 32) (
          w.u16.put (set (not (is_empty m.recipients)) 2 (set (is_some m.sender) 1 0))
            (sender (recipients rest))))
  ]
