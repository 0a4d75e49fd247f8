-- ===== src/Slatepack/Packer.antt =====
-- Packing slates and unpacking them (libwallet/src/slatepack/packer.rs). The conversions between a
-- slate and its version 4 are not part of it: it takes and gives slates of version 4.
use vcash_wallet.Base.{
  ℕ, Bool, Option, none, some, List, [], ltb, length, take, if◌then◌else◌, Outcome, ok, err, panic,
  timeout, ◌>>=◌,
}
use vcash_wallet.SlateVersions.Wire.{Bytes, Wire}
use vcash_wallet.SlateVersions.V4.{SlateV4}
use vcash_wallet.SlateVersions.V4Bin.Slate.{put_slate, get_slate}
use vcash_wallet.Slatepack.Types.{SlatepackAddress, Slatepack, Bech32, default_slatepack}
use vcash_wallet.Slatepack.Read.{get_slatepack}
use vcash_wallet.Slatepack.Crypt.{
  SlatepackError, slatepack_deser, Age, map_err, try_encrypt_payload, try_decrypt_payload,
}
use vcash_wallet.Slatepack.Armor.{Base58, header, bytes_eq, decode, encode}

pub record SlatepackerArgs : Type 0 where
  pub sender : Option SlatepackAddress
  pub recipients : List SlatepackAddress
  pub dec_key : Option ℕ

-- The libraries, with the JSON reading of a slatepack (`serde_json::from_str`).
pub record Libraries : Type 0 where
  pub wire : Wire
  pub bech32 : Bech32
  pub age : Age
  pub base58 : Base58
  pub slatepack_from_json : Bytes → Option Slatepack

module _ (l : Libraries) where
  abbrev pub from_json : Bytes → Outcome SlatepackError Slatepack
  from_json content =
      if l.bech32.is_utf8 content
      then elim (l.slatepack_from_json content) [ none ↦ err slatepack_deser | some sp ↦ ok sp ]
      else err slatepack_deser

  -- Binary first, then JSON.
  abbrev pub parse_slatepack : Bytes → Outcome SlatepackError Slatepack
  parse_slatepack content = elim (get_slatepack l.wire l.bech32 content) [
    | ok x ↦ ok x.0
    | err e ↦ from_json content
    | panic ↦ panic
    | timeout ↦ timeout
  ]

  abbrev pub without_armor : Bytes → Outcome SlatepackError Bytes
  without_armor content =
      if bytes_eq (take (length header) content) header
      then if l.bech32.is_utf8 content then decode l.base58 content else err slatepack_deser
      else ok content

  unfoldable pub deser_slatepack : SlatepackerArgs → Bytes → Bool → Outcome SlatepackError Slatepack
  deser_slatepack args content decrypt =
      if ltb (length content) (length header)
      then err slatepack_deser
      else without_armor content >>= λ plain. parse_slatepack plain >>= λ sp.
          if decrypt then try_decrypt_payload l.wire l.bech32 l.age args.dec_key sp else ok sp

  -- The new slatepack is not in the test mode, so no random bytes are taken.
  unfoldable pub create_slatepack : SlatepackerArgs → SlateV4 → Outcome SlatepackError Slatepack
  create_slatepack args slate =
      try_encrypt_payload l.wire l.bech32 l.age [] args.recipients
        (record default_slatepack { payload = put_slate l.wire slate []; sender = args.sender })

  unfoldable pub armor_slatepack : Slatepack → Outcome SlatepackError Bytes
  armor_slatepack slatepack = encode l.base58 l.wire l.bech32 slatepack

  -- `Slatepacker::get_slate`
  unfoldable pub get_packed_slate : Slatepack → Outcome SlatepackError SlateV4
  get_packed_slate slatepack =
      map_err slatepack_deser (get_slate l.wire slatepack.payload) >>= λ x. ok x.0
