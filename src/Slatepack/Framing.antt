-- ===== src/Slatepack/Framing.antt =====
-- Decoding an armored slatepack (libwallet/src/slatepack/armor.rs).
use vcash_wallet.Base.{
  ℕ, zero, suc, ◌+◌, ◌≤◌, ◌≡◌, refl, sym, ap, ◌∙◌, Bool, true, false, not, [], ◌∷◌, ◌++◌,
  append_assoc, arith, ltb, ◌==◌, length, length-append, take, filter, All, ok, panic,
}
use vcash_wallet.SlateVersions.Wire.{Bytes}
use vcash_wallet.Slatepack.Types.{is_ascii}
use vcash_wallet.Slatepack.Crypt.{drop}
use vcash_wallet.Slatepack.Appends.{take-append, drop-append}
use vcash_wallet.Slatepack.Armor.{
  is_alphanumeric, Base58, footer_word, header, footer, is_whitespace, is_no_period, take_while,
  slice_from, bytes_eq, separator, format_from, format_slatepack, generate_check, error_check,
  base58check, checked, decode_payload, decode, armor,
}

abbrev Alphanumeric : Bytes → Type 0
Alphanumeric s = All (λ x. is_alphanumeric x ≡ true) s

abbrev pub Holds : (ℕ → Bool) → Bytes → Type 0
Holds p s = All (λ x. p x ≡ true) s

abbrev pub NoPeriod : Bytes → Type 0
NoPeriod s = Holds is_no_period s

Holds-append : (p : ℕ → Bool) (xs ys : Bytes) → Holds p xs → Holds p ys → Holds p (xs ++ ys)
Holds-append p [] ys h h' = h'
Holds-append p (x ∷ xs) ys h h' = (h.0, Holds-append p xs ys h.1 h')

pub bytes_eq_refl : (s : Bytes) → bytes_eq s s ≡ true
bytes_eq_refl [] = refl
bytes_eq_refl (x ∷ xs) =
    let e : (x == x) ≡ true = ground arith in rw (e, bytes_eq) (bytes_eq_refl xs)

take_while-NoPeriod : (s : Bytes) → NoPeriod s → take_while is_no_period s ≡ s
take_while-NoPeriod [] h = refl
take_while-NoPeriod (x ∷ xs) h = rw (h.0, take_while) (ap (x ∷◌) (take_while-NoPeriod xs h.1))

length-take_eq : (n : ℕ) (s : Bytes) → n ≤ length s → length (take n s) ≡ n
length-take_eq zero s h = refl
length-take_eq (suc n) [] h = omega arith
length-take_eq (suc n) (x ∷ xs) h = omega (arith, length-take_eq n xs (omega arith))

pub take_while-append :
    (s rest : Bytes) → NoPeriod s → take_while is_no_period (s ++ (46 ∷ rest)) ≡ s
take_while-append [] rest h = refl
take_while-append (x ∷ xs) rest h = rw (h.0, take_while) (ap (x ∷◌) (take_while-append xs rest h.1))

pub slice_from-append : (s rest : Bytes) (n : ℕ) → n ≡ length s → slice_from n (s ++ rest) ≡ ok rest
slice_from-append s rest n e =
    let long : ltb (length (s ++ rest)) n ≡ false = ground (arith, length-append s rest) in
    rw (long, slice_from) (ap ok (ap (λ k. drop k (s ++ rest)) e ∙ drop-append s rest))

alphanumeric-no_period : (x : ℕ) → is_alphanumeric x ≡ true → is_no_period x ≡ true
alphanumeric-no_period x h = ground arith

alphanumeric-no_whitespace : (x : ℕ) → is_alphanumeric x ≡ true → not (is_whitespace x) ≡ true
alphanumeric-no_whitespace x h = ground arith

separator-NoPeriod : (i : ℕ) → NoPeriod (separator i)
separator-NoPeriod i = ground arith

filter-separator :
    (i : ℕ) (s : Bytes)
    → filter (λ x. not (is_whitespace x)) (separator i ++ s) ≡ filter (λ x. not (is_whitespace x)) s
filter-separator i s = ground arith

format_from-Holds :
    (p : ℕ → Bool) (i : ℕ) (s : Bytes)
    → ((k : ℕ) → Holds p (separator k))
    → ((x : ℕ) → is_alphanumeric x ≡ true → p x ≡ true)
    → Alphanumeric s
    → Holds p (format_from i s)
format_from-Holds p i [] gap char h = tt
format_from-Holds p i (x ∷ xs) gap char h =
    Holds-append p (separator i) (x ∷ format_from (i + 1) xs) (gap i)
      (char x h.0, format_from-Holds p (i + 1) xs gap char h.1)

alphanumeric-ascii : (x : ℕ) → is_alphanumeric x ≡ true → is_ascii x ≡ true
alphanumeric-ascii x h = ground arith

separator-ascii : (i : ℕ) → Holds is_ascii (separator i)
separator-ascii i = ground arith

-- The words and lines are only whitespace put between the characters.
filter-format_from :
    (i : ℕ) (s : Bytes) → Alphanumeric s → filter (λ x. not (is_whitespace x)) (format_from i s) ≡ s
filter-format_from i [] h = refl
filter-format_from i (x ∷ xs) h =
    filter-separator i (x ∷ format_from (i + 1) xs)
    ∙ rw (alphanumeric-no_whitespace x h.0, filter) (ap (x ∷◌) (filter-format_from (i + 1) xs h.1))

format_slatepack-header : (s : Bytes) → format_slatepack (header ++ s) ≡ header ++ format_from 15 s
format_slatepack-header s = refl

-- What follows the second period.
abbrev ending : Bytes
ending = 32 ∷ (footer_word ++ (46 ∷ 10 ∷ []))

module _ (c : Base58) where
  length-generate_check : (s : Bytes) → length (generate_check c s) ≡ 4
  length-generate_check s =
      length-take_eq 4 (c.sha256 (c.sha256 s)) (omega (arith, c.length-sha256 (c.sha256 s)))

  checked-eq : (s : Bytes) → checked c (generate_check c s ++ s) ≡ ok s
  checked-eq s =
      let code = generate_check c s in
      let size = length-generate_check s in
      let long : ltb (length (code ++ s)) 4 ≡ false = ground (arith, length-append code s) in
      let front : take 4 (code ++ s) ≡ code =
        ap (λ k. take k (code ++ s)) (sym size) ∙ take-append code s in
      let back : drop 4 (code ++ s) ≡ s =
        ap (λ k. drop k (code ++ s)) (sym size) ∙ drop-append code s in
      rw (long, checked) (rw front (rw back (rw (bytes_eq_refl code, error_check) refl)))

  decode_payload-eq :
      (s : Bytes) (i : ℕ) → decode_payload c (format_from i (base58check c s)) ≡ ok s
  decode_payload-eq s i =
      let base = generate_check c s ++ s in
      rw (filter-format_from i (base58check c s) (c.encode-alphabet base), decode_payload)
        (rw (c.decode-encode base) (checked-eq s))

  -- Decoding the armor of a slatepack's bytes gives these bytes, whatever they are: the words and
  -- lines, the framing and the check code are what the decoder expects.
  pub decode-armor : (s : Bytes) → decode c (armor c s) ≡ ok s
  unfolding decode
  decode-armor s =
      let payload = format_from 15 (base58check c s) in
      let clean =
        format_from-Holds is_no_period 15 (base58check c s) separator-NoPeriod
          alphanumeric-no_period (c.encode-alphabet _) in
      let behind = (payload ++ footer) ++ (10 ∷ []) in
      let shape : behind ≡ payload ++ (46 ∷ ending) = append_assoc payload footer (10 ∷ []) in
      let framed = (header ++ (payload ++ (46 ∷ []))) in
      let whole : header ++ behind ≡ framed ++ ending =
        ap (λ x. header ++ x) (shape ∙ sym (append_assoc payload (46 ∷ []) ending)) in
      let size : 14 + 1 + length payload + 1 ≡ length framed =
        omega (arith, length-append payload (46 ∷ [])) in
      let behind_header : slice_from 15 (header ++ behind) ≡ ok behind =
        slice_from-append header behind 15 refl in
      let payload_bytes : take_while is_no_period behind ≡ payload =
        ap (take_while is_no_period) shape ∙ take_while-append payload ending clean in
      let behind_payload : slice_from (14 + 1 + length payload + 1) (header ++ behind) ≡ ok ending =
        ap (slice_from (14 + 1 + length payload + 1)) whole
        ∙ slice_from-append framed ending _ size in
      rw behind_header (rw payload_bytes (rw behind_payload (decode_payload-eq s 15)))

  pub armor-ascii : (s : Bytes) → Holds is_ascii (armor c s)
  armor-ascii s =
      let payload = format_from 15 (base58check c s) in
      let clean =
        format_from-Holds is_ascii 15 (base58check c s) separator-ascii alphanumeric-ascii
          (c.encode-alphabet _) in
      let behind =
        Holds-append is_ascii (payload ++ footer) (10 ∷ [])
          (Holds-append is_ascii payload footer clean (ground arith)) (ground arith) in
      Holds-append is_ascii header ((payload ++ footer) ++ (10 ∷ [])) (ground arith) behind

  -- Armor that stops before its second period is no error of the decoder: it panics.
  decode-unterminated : (s : Bytes) → NoPeriod s → decode c (header ++ s) ≡ panic
  unfolding decode
  decode-unterminated s h =
      let size : 14 + 1 + length s + 1 ≡ length (header ++ s) + 1 =
        omega (arith, length-append header s) in
      let short : ltb (length (header ++ s)) (14 + 1 + length s + 1) ≡ true =
        ground (arith, size) in
      rw (slice_from-append header s 15 refl)
        (rw (take_while-NoPeriod s h) (rw (short, slice_from) refl))
