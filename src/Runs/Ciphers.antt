-- ===== src/Runs/Ciphers.antt =====
-- Stand-ins for bech32, age and Base58 to run slatepacks with.
use vcash_wallet.Base.{
  ℕ, zero, suc, ◌+◌, ◌≡◌, refl, ap, subst, ◌∙◌, true, Option, none, some, some-path, List, [], ◌∷◌,
  ◌++◌, arith, ◌==◌, length, take, any, All, if◌then◌else◌, Outcome, ok, err,
}
use vcash_wallet.SlateVersions.Wire.{Bytes}
use vcash_wallet.Slatepack.Types.{Bech32}
use vcash_wallet.Slatepack.Crypt.{drop, SlatepackError, age, Age}
use vcash_wallet.Slatepack.Appends.{take-append, drop-append}
use vcash_wallet.Slatepack.Armor.{is_alphanumeric, Base58}
use vcash_wallet.Slatepack.Packer.{Libraries}
use vcash_wallet.Runs.Codecs.{zeros, wire}

abbrev split_hrp : Bytes → Option (Bytes × Bytes)
split_hrp [] = none
split_hrp (n ∷ s) = some (take n s, drop n s)

abbrev pub bech32 : Bech32
bech32 = record {
  encode = λ hrp content. some (length hrp ∷ (hrp ++ content));
  decode = split_hrp;
  is_utf8 = λ s. true;
  decode-encode = λ hrp content s lower e.
      subst (λ t. split_hrp t ≡ some (hrp, content)) (some-path e)
        (λ i. some (take-append hrp content i, drop-append hrp content i));
  is_utf8-encode = λ hrp content s e. refl;
  is_utf8-ascii = λ s h. refl;
}

abbrev open_sealed : ℕ → Bytes → Outcome SlatepackError Bytes
open_sealed secret [] = err age
open_sealed secret (n ∷ s) = if any (λ k. k == secret) (take n s) then ok (drop n s) else err age

pub open_sealed-seal :
    (secret : ℕ) (keys : List ℕ) (text : Bytes)
    → any (λ k. k == secret) keys ≡ true
    → open_sealed secret (length keys ∷ (keys ++ text)) ≡ ok text
open_sealed-seal secret keys text h =
    rw (take-append keys text, open_sealed) (rw h (ap ok (drop-append keys text)))

abbrev pub age_keys : Age
age_keys = record {
  recipient_key = λ a. some a.pub_key;
  secret_of = λ k. k;
  public_of = λ k. k;
  encrypt = λ keys text. length keys ∷ (keys ++ text);
  decrypt = open_sealed;
  decrypt-encrypt = open_sealed-seal;
}

-- Each number in unary, ended by a letter.
abbrev unary : ℕ → Bytes → Bytes
unary zero rest = 98 ∷ rest
unary (suc n) rest = 97 ∷ unary n rest

abbrev unary_all : Bytes → Bytes
unary_all [] = []
unary_all (x ∷ xs) = unary x (unary_all xs)

abbrev parse_unary : ℕ → Bytes → Bytes
parse_unary n [] = []
parse_unary n (c ∷ s) = if c == 97 then parse_unary (suc n) s else n ∷ parse_unary 0 s

parse_unary-unary :
    (k n : ℕ) (rest : Bytes) → parse_unary k (unary n rest) ≡ (k + n) ∷ parse_unary 0 rest
parse_unary-unary k zero rest =
    let e : k ≡ k + 0 = omega arith in ap (λ x. x ∷ parse_unary 0 rest) e
parse_unary-unary k (suc n) rest =
    let e : suc k + n ≡ k + suc n = omega arith in
    parse_unary-unary (suc k) n rest ∙ ap (λ x. x ∷ parse_unary 0 rest) e

pub parse_unary-unary_all : (s : Bytes) → parse_unary 0 (unary_all s) ≡ s
parse_unary-unary_all [] = refl
parse_unary-unary_all (x ∷ xs) =
    let e : 0 + x ≡ x = omega arith in
    parse_unary-unary 0 x (unary_all xs) ∙ (λ i. e i ∷ parse_unary-unary_all xs i)

Alphabet-unary :
    (n : ℕ) (rest : Bytes)
    → All (λ c. is_alphanumeric c ≡ true) rest
    → All (λ c. is_alphanumeric c ≡ true) (unary n rest)
Alphabet-unary zero rest h = (refl, h)
Alphabet-unary (suc n) rest h = (refl, Alphabet-unary n rest h)

pub Alphabet-unary_all : (s : Bytes) → All (λ c. is_alphanumeric c ≡ true) (unary_all s)
Alphabet-unary_all [] = tt
Alphabet-unary_all (x ∷ xs) = Alphabet-unary x (unary_all xs) (Alphabet-unary_all xs)

abbrev pub base58 : Base58
base58 = record {
  encode = unary_all;
  decode = λ s. some (parse_unary 0 s);
  decode-encode = λ s. ap some (parse_unary-unary_all s);
  encode-alphabet = Alphabet-unary_all;
  sha256 = λ s. length s ∷ zeros 31;
  length-sha256 = λ s. refl;
}

abbrev pub libraries : Libraries
libraries = record {
  wire = wire;
  bech32 = bech32;
  age = age_keys;
  base58 = base58;
  slatepack_from_json = λ s. none;
}
