-- ===== src/Slatepack/Crypt.antt =====
-- Encrypting and decrypting the payload of a slatepack (libwallet/src/slatepack/types.rs).
use vcash_wallet.Base.{
  ℕ, zero, suc, ◌+◌, ◌%◌, ◌^◌, ◌≡◌, true, Option, none, some, List, [], ◌∷◌, ◌++◌, ltb, ◌==◌,
  length, take, any, if◌then◌else◌, Outcome, ok, err, panic, timeout, ◌>>=◌,
}
use vcash_wallet.SlateVersions.Wire.{Bytes, ReadError, Wire}
use vcash_wallet.Slatepack.Types.{SlatepackAddress, SlatepackEncMetadata, Slatepack, Bech32}
use vcash_wallet.Slatepack.Write.{put_meta}
use vcash_wallet.Slatepack.Read.{get_meta}

-- The `ErrorKind`s of slatepacks.
pub data SlatepackError : Type 0 where
  slatepack_ser : SlatepackError
  slatepack_deser : SlatepackError
  ed25519_key : SlatepackError
  age : SlatepackError
  io : SlatepackError
  invalid_slatepack_data : SlatepackError

abbrev pub drop : {A : Type 0} → ℕ → List A → List A
drop zero xs = xs
drop (suc n) [] = []
drop (suc n) (x ∷ xs) = drop n xs

-- The age library with its keys: the X25519 key of an address, if its point decompresses, the
-- X25519 secret that the SHA512 hash of an ed25519 secret starts with, encryption into memory, and
-- decryption. A secret opens what was encrypted for its public key.
pub record Age : Type 0 where
  pub recipient_key : SlatepackAddress → Option ℕ
  pub secret_of : ℕ → ℕ
  pub public_of : ℕ → ℕ
  pub encrypt : List ℕ → Bytes → Bytes
  pub decrypt : ℕ → Bytes → Outcome SlatepackError Bytes
  pub decrypt-encrypt :
      (secret : ℕ) (keys : List ℕ) (text : Bytes)
      → any (λ k. k == public_of secret) keys ≡ true
      → decrypt secret (encrypt keys text) ≡ ok text

-- `map_err`: the errors of the library become `why`.
abbrev pub map_err : {A : Type 0} → SlatepackError → Outcome ReadError A → Outcome SlatepackError A
map_err why (ok a) = ok a
map_err why (err e) = err why
map_err why panic = panic
map_err why timeout = timeout

-- `unwrap`
abbrev pub unwrapped : {A : Type 0} → Outcome ReadError A → Outcome SlatepackError A
unwrapped (ok a) = ok a
unwrapped (err e) = panic
unwrapped panic = panic
unwrapped timeout = timeout

module _ (w : Wire) (b : Bech32) (a : Age) where
  -- The length in the first four bytes.
  abbrev pub read_len : Bytes → Outcome ReadError ℕ
  read_len bytes = if ltb (length bytes) 4 then panic else w.u32.get (take 4 bytes) >>= λ x. ok x.0

  -- `random` are the bytes of the random number generator.
  abbrev pub pad_test_data : Bytes → Bytes → Outcome SlatepackError Bytes
  pad_test_data random bytes = unwrapped (read_len bytes) >>= λ n.
      ok ((w.u32_bytes ((n + 139) % 2 ^ 32) ++ drop 4 bytes) ++ random)

  abbrev pub recipient_keys : List SlatepackAddress → Option (List ℕ)
  recipient_keys [] = some []
  recipient_keys (x ∷ xs) = elim (a.recipient_key x) [
    | none ↦ none
    | some k ↦ elim (recipient_keys xs) [ none ↦ none | some ks ↦ some (k ∷ ks) ]
  ]

  abbrev pub sealed : Slatepack → SlatepackEncMetadata → Bytes → Slatepack
  sealed sp m encrypted = record sp {
    sender = none;
    encrypted_meta = m;
    payload = encrypted;
    mode = 1;
  }

  unfoldable pub try_encrypt_payload :
      Bytes → List SlatepackAddress → Slatepack → Outcome SlatepackError Slatepack
  try_encrypt_payload random [] sp = ok sp
  try_encrypt_payload random (x ∷ xs) sp = do
    let m = record sp.encrypted_meta { sender = sp.sender }
    put ← map_err slatepack_ser (put_meta w b m)
    to_encrypt ← if sp.future_test_mode then pad_test_data random (put []) else ok (put [])
    elim (recipient_keys (x ∷ xs)) [
      | none ↦ err ed25519_key
      | some keys ↦ ok (sealed sp m (a.encrypt keys (to_encrypt ++ sp.payload)))
    ]

  -- The decrypted bytes, split behind the metadata.
  abbrev pub split_payload : Slatepack → Bytes → ℕ → Outcome SlatepackError Slatepack
  split_payload sp decrypted end =
      if ltb (length decrypted) end
      then panic
      else map_err slatepack_ser (get_meta w b (take end decrypted)) >>= λ m. ok (record sp {
        payload = drop end decrypted;
        sender = m.0.sender;
        encrypted_meta = record sp.encrypted_meta { recipients = m.0.recipients };
        mode = 0;
      })

  abbrev pub unsealed : Slatepack → Bytes → Outcome SlatepackError Slatepack
  unsealed sp decrypted = map_err SlatepackError.io (read_len decrypted) >>= λ meta_len.
      split_payload sp decrypted (meta_len + 4)

  unfoldable pub try_decrypt_payload : Option ℕ → Slatepack → Outcome SlatepackError Slatepack
  try_decrypt_payload dec_key sp = if sp.mode == 0 then ok sp else elim dec_key [
    | none ↦ ok sp
    | some k ↦ a.decrypt (a.secret_of k) sp.payload >>= unsealed sp
  ]
