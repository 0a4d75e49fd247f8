-- ===== src/SlateVersions/Wire.antt =====
-- Readers and writers of bytes (`grin_core::ser`), an interface: what the library reads and writes by
-- itself comes with the law that it reads back what it wrote. A writer puts its bytes in front of
-- those that are written after it.
use vcash_wallet.Base.{
  ℕ, zero, suc, ◌<◌, ◌≤◌, ◌^◌, ◌≡◌, ap, ◌∙◌, Bool, Option, some, List, [], ◌∷◌, ◌++◌, length,
  if◌then◌else◌, Outcome, ok, err, panic, timeout,
}

abbrev pub Bytes : Type 0
Bytes = List ℕ

-- `ser::Error`
pub data ReadError : Type 0 where
  io : ReadError
  unexpected_data : ReadError
  corrupted_data : ReadError

abbrev pub Reader : Type 0 → Type 0
Reader A = Bytes → Outcome ReadError (A × Bytes)

abbrev pub Writer : Type 0
Writer = Bytes → Bytes

abbrev pub pure : {A : Type 0} → A → Reader A
pure a s = ok (a, s)

infixl 5 ◌>>=◌
unfoldable pub ◌>>=◌ : {A B : Type 0} → Reader A → (A → Reader B) → Reader B
◌>>=◌ p f s = elim (p s) [ ok x ↦ f x.0 x.1 | err e ↦ err e | panic ↦ panic | timeout ↦ timeout ]

-- A reader in two steps, each of them known.
pub next :
    {A B : Type 0} (p : Reader A) (f : A → Reader B) {s t : Bytes} {a : A}
    {r : Outcome ReadError (B × Bytes)}
    → p s ≡ ok (a, t)
    → f a t ≡ r
    → (p >>= f) s ≡ r
unfolding ◌>>=◌
next p f e e' =
    ap (λ x. elim x [ ok y ↦ f y.0 y.1 | err z ↦ err z | panic ↦ panic | timeout ↦ timeout ]) e ∙ e'

abbrev pub fail : {A : Type 0} → ReadError → Reader A
fail why s = err why

-- A field that is there only if its flag is set.
abbrev pub read_if : {A : Type 0} → Bool → Reader A → A → Reader A
read_if flag p default = if flag then p else pure default

abbrev pub write_if : Bool → Writer → Writer
write_if flag w rest = if flag then w rest else rest

-- The loops over the elements of a vector.
abbrev pub write_all : {A : Type 0} → (A → Writer) → List A → Writer
write_all w [] rest = rest
write_all w (x ∷ xs) rest = w x (write_all w xs rest)

abbrev pub read_all : {A : Type 0} → Reader A → ℕ → Reader (List A)
read_all p zero = pure []
read_all p (suc n) = p >>= λ x. read_all p n >>= λ xs. pure (x ∷ xs)

-- How values that `Fits` holds of are written and read.
pub record Codec (A : Type 0) (Fits : A → Type 0) : Type 0 where
  pub put : A → Writer
  pub get : Reader A
  pub get-put : (a : A) (rest : Bytes) → Fits a → get (put a rest) ≡ ok (a, rest)

-- `OutputFeatures` of `grin_core`.
pub data OutputFeatures : Type 0 where
  plain coinbase token_issue token : OutputFeatures

abbrev pub Any : ℕ → Type 0
Any n = Unit

-- The library's integers, byte strings and types. `fixed` is `write_fixed_bytes` and
-- `read_fixed_bytes`, which reads no more than `max_read` bytes; `bytes` is `write_bytes` and
-- `read_bytes_len_prefix`.
pub record Wire : Type 0 where
  pub u8 : Codec ℕ (λ n. n < 2 ^ 8)
  pub u16 : Codec ℕ (λ n. n < 2 ^ 16)
  pub u32 : Codec ℕ (λ n. n < 2 ^ 32)
  pub u64 : Codec ℕ (λ n. n < 2 ^ 64)
  pub max_read : ℕ
  pub max_read_enough : 255 ≤ max_read
  pub fixed : (n : ℕ) → Codec Bytes (λ b. (length b ≡ n) × (n ≤ max_read))
  pub put-fixed : (n : ℕ) (b rest : Bytes) → length b ≡ n → (fixed n).put b rest ≡ b ++ rest
  -- The bytes of the integers: a byte is itself, a u16 is two bytes and a u32 is four.
  pub put-u8 : (n : ℕ) (rest : Bytes) → n < 2 ^ 8 → u8.put n rest ≡ n ∷ rest
  pub u16_bytes : ℕ → Bytes
  pub length-u16_bytes : (n : ℕ) → length (u16_bytes n) ≡ 2
  pub put-u16_bytes : (n : ℕ) (rest : Bytes) → u16.put n rest ≡ u16_bytes n ++ rest
  pub u32_bytes : ℕ → Bytes
  pub length-u32_bytes : (n : ℕ) → length (u32_bytes n) ≡ 4
  pub put-u32_bytes : (n : ℕ) (rest : Bytes) → u32.put n rest ≡ u32_bytes n ++ rest
  pub bytes : Codec Bytes (λ b. length b ≤ max_read)
  pub blinding_factor : Codec ℕ Any
  pub public_key : Codec ℕ Any
  pub signature : Codec ℕ Any
  pub commitment : Codec ℕ Any
  pub range_proof : Codec ℕ Any
  pub token_key : Codec ℕ Any
  pub output_features : Codec OutputFeatures (λ f. Unit)
  -- `Uuid::as_bytes` and `Uuid::from_bytes`
  pub uuid_bytes : ℕ → Bytes
  pub uuid_of : Bytes → ℕ
  pub length-uuid_bytes : (u : ℕ) → length (uuid_bytes u) ≡ 16
  pub uuid_of-uuid_bytes : (u : ℕ) → uuid_of (uuid_bytes u) ≡ u
  -- `to_bytes` and `from_bytes` of an ed25519 public key and of a signature
  pub key_bytes : ℕ → Bytes
  pub key_of : Bytes → Option ℕ
  pub length-key_bytes : (k : ℕ) → length (key_bytes k) ≡ 32
  pub key_of-key_bytes : (k : ℕ) → key_of (key_bytes k) ≡ some k
  pub sig_bytes : ℕ → Bytes
  pub sig_of : Bytes → Option ℕ
  pub length-sig_bytes : (k : ℕ) → length (sig_bytes k) ≡ 64
  pub sig_of-sig_bytes : (k : ℕ) → sig_of (sig_bytes k) ≡ some k
