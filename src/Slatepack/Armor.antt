-- ===== src/Slatepack/Armor.antt =====
-- The armor of a slatepack (libwallet/src/slatepack/armor.rs). A string is given by its bytes.
use vcash_wallet.Base.{
  ℕ, ◌+◌, ◌*◌, ◌%◌, ◌≡◌, Bool, true, false, not, ◌&&◌, ◌||◌, Option, none, some, [], ◌∷◌, ◌++◌, ltb,
  leb, ◌==◌, length, take, filter, All, if◌then◌else◌, Outcome, ok, err, panic, ◌>>=◌,
}
use vcash_wallet.SlateVersions.Wire.{Bytes, Wire}
use vcash_wallet.Slatepack.Types.{Slatepack, Bech32}
use vcash_wallet.Slatepack.Write.{put_slatepack}
use vcash_wallet.Slatepack.Crypt.{
  SlatepackError, slatepack_ser, invalid_slatepack_data, drop, map_err,
}

abbrev pub is_alphanumeric : ℕ → Bool
is_alphanumeric c = (leb 48 c && leb c 57) || ((leb 65 c && leb c 90) || (leb 97 c && leb c 122))

-- The libraries `bs58` and `sha2`: the Base58 alphabet is alphanumeric, and a SHA256 hash has 32
-- bytes.
pub record Base58 : Type 0 where
  pub encode : Bytes → Bytes
  pub decode : Bytes → Option Bytes
  pub decode-encode : (s : Bytes) → decode (encode s) ≡ some s
  pub encode-alphabet : (s : Bytes) → All (λ c. is_alphanumeric c ≡ true) (encode s)
  pub sha256 : Bytes → Bytes
  pub length-sha256 : (s : Bytes) → length (sha256 s) ≡ 32

-- "BEGINSLATEPACK", "ENDSLATEPACK", and the framing with periods.
abbrev pub header_word : Bytes
header_word = 66 ∷ 69 ∷ 71 ∷ 73 ∷ 78 ∷ 83 ∷ 76 ∷ 65 ∷ 84 ∷ 69 ∷ 80 ∷ 65 ∷ 67 ∷ 75 ∷ []

abbrev pub footer_word : Bytes
footer_word = 69 ∷ 78 ∷ 68 ∷ 83 ∷ 76 ∷ 65 ∷ 84 ∷ 69 ∷ 80 ∷ 65 ∷ 67 ∷ 75 ∷ []

abbrev pub header : Bytes
header = header_word ++ (46 ∷ [])

abbrev pub footer : Bytes
footer = 46 ∷ 32 ∷ (footer_word ++ (46 ∷ []))

abbrev pub word_length : ℕ
word_length = 15

abbrev pub words_per_line : ℕ
words_per_line = 200

-- `WHITESPACE_LIST`: '>', '\n', '\r', '\t' and ' '.
abbrev pub is_whitespace : ℕ → Bool
is_whitespace c = (c == 62) || ((c == 10) || ((c == 13) || ((c == 9) || (c == 32))))

abbrev pub is_no_period : ℕ → Bool
is_no_period c = not (c == 46)

abbrev pub take_while : (ℕ → Bool) → Bytes → Bytes
take_while p [] = []
take_while p (x ∷ xs) = if p x then x ∷ take_while p xs else []

abbrev pub drop_while : (ℕ → Bool) → Bytes → Bytes
drop_while p [] = []
drop_while p (x ∷ xs) = if p x then drop_while p xs else x ∷ xs

-- What follows a word and then only whitespace.
abbrev pub is_word_then_space : Bytes → Bytes → Bool
is_word_then_space [] [] = true
is_word_then_space [] (x ∷ xs) = is_whitespace x && is_word_then_space [] xs
is_word_then_space (c ∷ word) [] = false
is_word_then_space (c ∷ word) (x ∷ xs) = (c == x) && is_word_then_space word xs

-- `HEADER_REGEX` and `FOOTER_REGEX`: the word between whitespace. The tested bytes are cut out of a
-- string at its periods, so they are UTF-8.
abbrev pub is_framing : Bytes → Bytes → Bool
is_framing word s = is_word_then_space word (drop_while is_whitespace s)

-- `&xs[n..]`
abbrev pub slice_from : ℕ → Bytes → Outcome SlatepackError Bytes
slice_from n xs = if ltb (length xs) n then panic else ok (drop n xs)

abbrev pub check_framing : Bytes → Bytes → Outcome {0, 0} SlatepackError Unit
check_framing word s = if is_framing word s then ok tt else err invalid_slatepack_data

abbrev pub bytes_eq : Bytes → Bytes → Bool
bytes_eq [] [] = true
bytes_eq [] (y ∷ ys) = false
bytes_eq (x ∷ xs) [] = false
bytes_eq (x ∷ xs) (y ∷ ys) = (x == y) && bytes_eq xs ys

-- `format_slatepack` from the character at an index on.
abbrev pub separator : ℕ → Bytes
separator i =
    if not (i == 0) && (i % word_length == 0)
    then if not (words_per_line == 0) && (i % (word_length * words_per_line) == 0)
      then 10 ∷ []
      else 32 ∷ []
    else []

abbrev pub format_from : ℕ → Bytes → Bytes
format_from i [] = []
format_from i (c ∷ s) = separator i ++ (c ∷ format_from (i + 1) s)

abbrev pub format_slatepack : Bytes → Bytes
format_slatepack s = format_from 0 s

module _ (c : Base58) where
  abbrev pub generate_check : Bytes → Bytes
  generate_check payload = take 4 (c.sha256 (c.sha256 payload))

  abbrev pub error_check : Bytes → Bytes → Outcome {0, 0} SlatepackError Unit
  error_check code slate_bytes =
      if bytes_eq code (generate_check slate_bytes) then ok tt else err invalid_slatepack_data

  abbrev pub base58check : Bytes → Bytes
  base58check slate = c.encode (generate_check slate ++ slate)

  -- The decoded payload, without its check code.
  abbrev pub checked : Bytes → Outcome SlatepackError Bytes
  checked base_decode =
      if ltb (length base_decode) 4
      then panic
      else error_check (take 4 base_decode) (drop 4 base_decode) >>= λ u. ok (drop 4 base_decode)

  abbrev pub decode_payload : Bytes → Outcome SlatepackError Bytes
  decode_payload payload = elim (c.decode (filter (λ x. not (is_whitespace x)) payload)) [
    | none ↦ panic
    | some base_decode ↦ checked base_decode
  ]

  -- `SlatepackArmor::decode`
  unfoldable pub decode : Bytes → Outcome SlatepackError Bytes
  decode armor_bytes = do
    let header_bytes = take_while is_no_period armor_bytes
    u ← check_framing header_word header_bytes
    let header_len = length header_bytes + 1
    behind_header ← slice_from header_len armor_bytes
    let payload_bytes = take_while is_no_period behind_header
    behind_payload ← slice_from (header_len + length payload_bytes + 1) armor_bytes
    u' ← check_framing footer_word (take_while is_no_period behind_payload)
    decode_payload payload_bytes

  -- The armor of the bytes of a slatepack.
  abbrev pub armor : Bytes → Bytes
  armor slatepack_bytes =
      (format_slatepack (header ++ base58check slatepack_bytes) ++ footer) ++ (10 ∷ [])

  -- `SlatepackArmor::encode`
  unfoldable pub encode : Wire → Bech32 → Slatepack → Outcome SlatepackError Bytes
  encode w b slatepack =
      map_err slatepack_ser (put_slatepack w b slatepack) >>= λ put. ok (armor (put []))
