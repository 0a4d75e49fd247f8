-- ===== src/Runs/Codecs.antt =====
-- Readers and writers to run slates and slatepacks with: integers in big-endian bytes, and a
-- stand-in of one number for each key, signature and commitment.
use vcash_wallet.Base.{
  ℕ, zero, suc, ◌+◌, ◌*◌, ◌/◌, ◌%◌, ◌^◌, ◌≤◌, ◌<◌, ◌≡◌, refl, sym, ap, ◌∙◌, false, Option, none,
  some, [], ◌∷◌, ◌++◌, arith, ltb, ◌==◌, length, length-append, take, if◌then◌else◌, ok, err,
}
use vcash_wallet.SlateVersions.Wire.{
  Bytes, Reader, io, next, ◌>>=◌, Codec, OutputFeatures, Any, Wire,
}
use vcash_wallet.Slatepack.Crypt.{drop}
use vcash_wallet.Slatepack.Appends.{take-append, drop-append}

abbrev get_one : Reader ℕ
get_one [] = err io
get_one (x ∷ xs) = ok (x, xs)

abbrev one : (Fits : ℕ → Type 0) → Codec ℕ Fits
one Fits = record { put = λ n rest. n ∷ rest; get = get_one; get-put = λ n rest h. refl }

abbrev pair_bytes : ℕ → Bytes
pair_bytes n = n / 256 ∷ n % 256 ∷ []

abbrev get_pair : Reader ℕ
get_pair s = (get_one >>= λ a. get_one >>= λ b. λ rest. ok (a * 256 + b, rest)) s

pub get_pair-put : (n : ℕ) (rest : Bytes) → get_pair (pair_bytes n ++ rest) ≡ ok (n, rest)
unfolding ◌>>=◌
get_pair-put n rest = let e : n / 256 * 256 + n % 256 ≡ n = omega arith in ap (λ k. ok (k, rest)) e

abbrev pair : (Fits : ℕ → Type 0) → Codec ℕ Fits
pair Fits = record {
  put = λ n rest. pair_bytes n ++ rest;
  get = get_pair;
  get-put = λ n rest h. get_pair-put n rest;
}

abbrev quad_bytes : ℕ → Bytes
quad_bytes n = pair_bytes (n / 65536) ++ pair_bytes (n % 65536)

abbrev get_quad : Reader ℕ
get_quad s = (get_pair >>= λ a. get_pair >>= λ b. λ rest. ok (a * 65536 + b, rest)) s

pub get_quad-put : (n : ℕ) (rest : Bytes) → get_quad (quad_bytes n ++ rest) ≡ ok (n, rest)
get_quad-put n rest =
    let e : n / 65536 * 65536 + n % 65536 ≡ n = omega arith in
    next get_pair _ (get_pair-put (n / 65536) _)
      (next get_pair _ (get_pair-put (n % 65536) rest) (ap (λ k. ok (k, rest)) e))

abbrev quad : (Fits : ℕ → Type 0) → Codec ℕ Fits
quad Fits = record {
  put = λ n rest. quad_bytes n ++ rest;
  get = get_quad;
  get-put = λ n rest h. get_quad-put n rest;
}

abbrev eight_bytes : ℕ → Bytes
eight_bytes n = quad_bytes (n / 2 ^ 32) ++ quad_bytes (n % 2 ^ 32)

abbrev get_eight : Reader ℕ
get_eight s = (get_quad >>= λ a. get_quad >>= λ b. λ rest. ok (a * 2 ^ 32 + b, rest)) s

pub get_eight-put : (n : ℕ) (rest : Bytes) → get_eight (eight_bytes n ++ rest) ≡ ok (n, rest)
get_eight-put n rest =
    let e : n / 2 ^ 32 * 2 ^ 32 + n % 2 ^ 32 ≡ n = omega arith in
    next get_quad _ (get_quad-put (n / 2 ^ 32) _)
      (next get_quad _ (get_quad-put (n % 2 ^ 32) rest) (ap (λ k. ok (k, rest)) e))

abbrev eight : (Fits : ℕ → Type 0) → Codec ℕ Fits
eight Fits = record {
  put = λ n rest. eight_bytes n ++ rest;
  get = get_eight;
  get-put = λ n rest h. get_eight-put n rest;
}

abbrev max_read : ℕ
max_read = 100000

abbrev get_fixed : ℕ → Reader Bytes
get_fixed n s =
    if ltb max_read n then err io else if ltb (length s) n then err io else ok (take n s, drop n s)

pub get_fixed-put :
    (n : ℕ) (b rest : Bytes) → length b ≡ n → n ≤ max_read → get_fixed n (b ++ rest) ≡ ok (b, rest)
get_fixed-put n b rest e h =
    let small : ltb max_read n ≡ false = ground arith in
    let long : ltb (length (b ++ rest)) n ≡ false = ground (arith, length-append b rest) in
    rw (small, get_fixed)
      (rw long (
        ap (λ k. ok (take k (b ++ rest), drop k (b ++ rest))) (sym e)
        ∙ (λ i. ok (take-append b rest i, drop-append b rest i))))

abbrev fixed : (n : ℕ) → Codec Bytes (λ b. (length b ≡ n) × (n ≤ max_read))
fixed n = record {
  put = λ b rest. b ++ rest;
  get = get_fixed n;
  get-put = λ b rest h. get_fixed-put n b rest h.0 h.1;
}

abbrev bytes : Codec Bytes (λ b. length b ≤ max_read)
bytes = record {
  put = λ b rest. eight_bytes (length b) ++ (b ++ rest);
  get = get_eight >>= get_fixed;
  get-put = λ b rest h.
      next get_eight get_fixed (get_eight-put (length b) (b ++ rest))
        (get_fixed-put (length b) b rest refl h);
}

abbrev features_byte : OutputFeatures → ℕ
features_byte OutputFeatures.plain = 0
features_byte OutputFeatures.coinbase = 1
features_byte OutputFeatures.token_issue = 98
features_byte OutputFeatures.token = 99

abbrev byte_features : ℕ → OutputFeatures
byte_features n =
    if n == 1
    then OutputFeatures.coinbase
    else if n == 98
    then OutputFeatures.token_issue
    else if n == 99
    then OutputFeatures.token
    else OutputFeatures.plain

abbrev get_features : Reader OutputFeatures
get_features s = (get_one >>= λ x. λ rest. ok (byte_features x, rest)) s

pub get_features-put :
    (f : OutputFeatures) (rest : Bytes) → get_features (features_byte f ∷ rest) ≡ ok (f, rest)
unfolding ◌>>=◌
get_features-put OutputFeatures.plain rest = refl
get_features-put OutputFeatures.coinbase rest = refl
get_features-put OutputFeatures.token_issue rest = refl
get_features-put OutputFeatures.token rest = refl

abbrev pub zeros : ℕ → Bytes
zeros zero = []
zeros (suc n) = 0 ∷ zeros n

abbrev first : Bytes → ℕ
first [] = 0
first (x ∷ xs) = x

abbrev first? : Bytes → Option ℕ
first? [] = none
first? (x ∷ xs) = some x

abbrev pub wire : Wire
wire = record {
  u8 = one (λ n. n < 2 ^ 8);
  u16 = pair (λ n. n < 2 ^ 16);
  u32 = quad (λ n. n < 2 ^ 32);
  u64 = eight (λ n. n < 2 ^ 64);
  max_read = max_read;
  max_read_enough = omega arith;
  fixed = fixed;
  put-fixed = λ n b rest h. refl;
  put-u8 = λ n rest h. refl;
  u16_bytes = pair_bytes;
  length-u16_bytes = λ n. refl;
  put-u16_bytes = λ n rest. refl;
  u32_bytes = quad_bytes;
  length-u32_bytes = λ n. refl;
  put-u32_bytes = λ n rest. refl;
  bytes = bytes;
  blinding_factor = one Any;
  public_key = one Any;
  signature = one Any;
  commitment = one Any;
  range_proof = one Any;
  token_key = one Any;
  output_features = record {
    put = λ f rest. features_byte f ∷ rest;
    get = get_features;
    get-put = λ f rest h. get_features-put f rest;
  };
  uuid_bytes = λ u. u ∷ zeros 15;
  uuid_of = first;
  length-uuid_bytes = λ u. refl;
  uuid_of-uuid_bytes = λ u. refl;
  key_bytes = λ k. k ∷ zeros 31;
  key_of = first?;
  length-key_bytes = λ k. refl;
  key_of-key_bytes = λ k. refl;
  sig_bytes = λ k. k ∷ zeros 63;
  sig_of = first?;
  length-sig_bytes = λ k. refl;
  sig_of-sig_bytes = λ k. refl;
}
