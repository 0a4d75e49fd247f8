-- ===== src/Payment.antt =====
-- Payment proofs (libwallet/src/internal/tx.rs), the keys that they are signed with
-- (libwallet/src/address.rs) and the addresses of these (util/src/ov3.rs). Keys, addresses and
-- signatures are opaque numbers; an onion address is the bytes of a public key.
pub mod Proved
use vcash_wallet.Base.{
  ℕ, zero, suc, ◌+◌, ◌-◌, ◌%◌, ◌<◌, ◌^◌, ◌≡◌, Bool, true, false, not, ◌&&◌, Option, none, some,
  List, [], ◌∷◌, ◌++◌, length, ◌==◌, is_some, if◌then◌else◌, Outcome, ok, err, panic, timeout,
  ◌>>=◌,
}
use vcash_wallet.Types.Status.{Identifier, Commitment, TokenType}
use vcash_wallet.Types.TxLog.{TxLogEntry, StoredProofInfo}
use vcash_wallet.Types.TokenTxLog.{TokenTxLogEntry}
use vcash_wallet.Types.Context.{Context}
use vcash_wallet.Backend.{Wallet}
use vcash_wallet.Updater.Query.{retrieve_txs, retrieve_token_txs}
use vcash_wallet.SlateVersions.Wire.{Bytes, Codec, ReadError, io}
use vcash_wallet.Slate.{PaymentInfo, Slate, SlateError}
use vcash_wallet.Slate.Signing.{Secp, calc_excess}

-- `ExtKeychainPath`, an array of four child numbers.
pub record KeyPath : Type 0 where
  pub depth : ℕ
  pub path : List ℕ

-- `of_slate` are the errors of the slate's own functions, `library` those of other crates' calls.
pub data ProofError : Type 0 where
  payment_proof ed25519_key onion_v3_address library : ProofError
  of_slate : SlateError → ProofError

-- What is called of the keychain, of ed25519 and of the codecs of bytes; `none` is an error.
pub record ProofCrypto : Type 0 where
  pub to_path : Identifier → KeyPath
  pub from_path : KeyPath → Identifier
  -- For the amount 0, without a switch commitment.
  pub derive_key : Identifier → Option ℕ
  pub blake2b : ℕ → ℕ
  pub from_slice : ℕ → Option ℕ
  -- The ed25519 key of a secret key's bytes, its public key, and the bytes of this.
  pub ed25519_secret : ℕ → Option ℕ
  pub ed25519_public : ℕ → ℕ
  pub to_bytes : ℕ → Bytes
  pub from_bytes : Bytes → Option ℕ
  pub sign : ℕ → Bytes → ℕ
  pub verify : ℕ → Bytes → ℕ → Bool
  pub from_hex : TokenType → Option Bytes
  -- The 33 bytes of a commitment, and `Commitment::from_vec`.
  pub commit_bytes : Commitment → Bytes
  pub from_vec : Bytes → Commitment
  -- The big-endian u64.
  pub u64 : Codec ℕ (λ n. n < 2 ^ 64)
  pub length-to_bytes : (k : ℕ) → length (to_bytes k) ≡ 32
  pub from_bytes-to_bytes : (k : ℕ) → from_bytes (to_bytes k) ≡ some k
  pub length-commit_bytes : (c : Commitment) → length (commit_bytes c) ≡ 33
  pub from_vec-commit_bytes : (c : Commitment) → from_vec (commit_bytes c) ≡ c

-- A value that has to be there, a test, and a call of the slate.
abbrev pub or_err {ℓ} : {A : Type ℓ} → ProofError → Option A → Outcome ProofError A
or_err e none = err e
or_err e (some a) = ok a

abbrev pub require : Bool → Outcome ProofError (Unit {0})
require b = if b then ok tt else err payment_proof

abbrev pub slate_call {ℓ} : {A : Type ℓ} → Outcome SlateError A → Outcome ProofError A
slate_call (ok a) = ok a
slate_call (err e) = err (of_slate e)
slate_call panic = panic
slate_call timeout = timeout

-- An assignment to an element; `none` is out of bounds.
abbrev pub set_at : ℕ → ℕ → List ℕ → Option (List ℕ)
set_at n x [] = none
set_at zero x (y ∷ ys) = some (x ∷ ys)
set_at (suc n) x (y ∷ ys) = elim (set_at n x ys) [ none ↦ none | some zs ↦ some (y ∷ zs) ]

abbrev or_panic {ℓ} : {A : Type ℓ} → Option A → Outcome ProofError A
or_panic none = panic
or_panic (some a) = ok a

-- The bytes that a cursor reads one after another.
abbrev pub read_bytes : ℕ → Bytes → Outcome ReadError (Bytes × Bytes)
read_bytes zero s = ok ([], s)
read_bytes (suc n) [] = err io
read_bytes (suc n) (b ∷ s) = read_bytes n s >>= λ r. ok (b ∷ r.0, r.1)

abbrev pub first_proof : List TxLogEntry → Outcome ProofError (Option StoredProofInfo)
first_proof [] = err payment_proof
first_proof (t ∷ _) = ok t.payment_proof

abbrev pub first_token_proof : List TokenTxLogEntry → Outcome ProofError (Option StoredProofInfo)
first_token_proof [] = err payment_proof
first_token_proof (t ∷ _) = ok t.payment_proof

-- The proof that was asked for, of the first log entry with the slate's id.
unfoldable pub orig_proof_info :
    Wallet → Identifier → Slate → Outcome ProofError (Option StoredProofInfo)
unfolding retrieve_txs retrieve_token_txs
orig_proof_info w parent_key_id s =
    if is_some s.token_type
    then first_token_proof (retrieve_token_txs w none (some s.id) (some parent_key_id) false)
    else first_proof (retrieve_txs w none (some s.id) (some parent_key_id) false)

module _ (c : ProofCrypto) where
  unfoldable pub address_from_derivation_path : Identifier → ℕ → Outcome ProofError ℕ
  address_from_derivation_path parent_key_id index =
      let key_path = c.to_path parent_key_id in
      let depth = (key_path.depth + 1) % 2 ^ 8 in
      or_panic (set_at 1 1 key_path.path) >>= λ first.
      or_panic (if depth == 0 then none else set_at (depth - 1) index first) >>= λ path.
      or_err library (c.derive_key (c.from_path (record { depth = depth; path = path }))) >>= λ key.
      or_err library (c.from_slice (c.blake2b key))

  -- `from_private` and `to_ed25519`.
  abbrev pub from_private : ℕ → Outcome ProofError Bytes
  from_private key =
      or_err onion_v3_address (c.ed25519_secret key) >>= λ k. ok (c.to_bytes (c.ed25519_public k))

  abbrev pub to_ed25519 : Bytes → Outcome ProofError ℕ
  to_ed25519 address = or_err onion_v3_address (c.from_bytes address)

  -- The public key of the sender's address at an index.
  unfoldable pub sender_address : Identifier → ℕ → Outcome ProofError ℕ
  unfolding address_from_derivation_path
  sender_address parent_key_id index =
      address_from_derivation_path parent_key_id index >>= λ key. from_private key >>= to_ed25519

  abbrev pub token_bytes : Option TokenType → Outcome ProofError Bytes
  token_bytes none = ok []
  token_bytes (some token_type) = or_panic (c.from_hex token_type)

  unfoldable pub payment_proof_message :
      Option TokenType → ℕ → Commitment → ℕ → Outcome ProofError Bytes
  payment_proof_message token_type amount kernel_commitment sender =
      token_bytes token_type >>= λ token.
      ok (token ++ c.u64.put amount (c.commit_bytes kernel_commitment ++ c.to_bytes sender))

  -- The bytes of a key are unwrapped.
  unfoldable pub decode_payment_proof_message : Bytes → Outcome ReadError (ℕ × Commitment × ℕ)
  decode_payment_proof_message msg = c.u64.get msg >>= λ amount.
      read_bytes 33 amount.1 >>= λ commit. read_bytes 32 commit.1 >>= λ key.
      elim (c.from_bytes key.0) [
        | none ↦ panic
        | some sender ↦ ok (amount.0, c.from_vec commit.0, sender)
      ]

  unfoldable pub create_payment_proof_signature :
      Option TokenType → ℕ → Commitment → ℕ → ℕ → Outcome ProofError ℕ
  unfolding payment_proof_message
  create_payment_proof_signature token_type amount kernel_commitment sender sec_key =
      payment_proof_message token_type amount kernel_commitment sender >>= λ msg.
      or_err ed25519_key (c.ed25519_secret sec_key) >>= λ d_skey. ok (c.sign d_skey msg)

  module _ (l : Secp) where
    -- The checks of a proof that the slate has.
    unfoldable pub verify_proof :
        Identifier
        → Context
        → Slate
        → Option StoredProofInfo
        → PaymentInfo
        → Outcome ProofError (Unit {0})
    unfolding sender_address payment_proof_message calc_excess
    verify_proof parent_key_id context s orig p = or_err payment_proof orig >>= λ o.
        or_err payment_proof context.payment_proof_derivation_index >>= λ index.
        sender_address parent_key_id index >>= λ orig_sender.
        require (p.sender_address == orig_sender) >>= λ _.
        require (o.receiver_address == p.receiver_address) >>= λ _.
        slate_call (calc_excess l s) >>= λ excess.
        payment_proof_message s.token_type s.amount excess orig_sender >>= λ msg.
        or_err payment_proof p.receiver_signature >>= λ sig.
        require (c.verify p.receiver_address msg sig)

    unfoldable pub verify_slate_payment_proof :
        Wallet → Identifier → Context → Slate → Outcome ProofError (Unit {0})
    unfolding orig_proof_info verify_proof
    verify_slate_payment_proof w parent_key_id context s =
        orig_proof_info w parent_key_id s >>= λ orig.
        if is_some orig && not (is_some s.payment_proof)
        then err payment_proof
        else elim s.payment_proof [
          | none ↦ ok tt
          | some p ↦ verify_proof parent_key_id context s orig p
        ]
