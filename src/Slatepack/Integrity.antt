-- ===== src/Slatepack/Integrity.antt =====
-- The check code of an armored slatepack (libwallet/src/slatepack/armor.rs).
use vcash_wallet.Base.{
  ℕ, zero, suc, ◌+◌, ◌≤◌, ◌≢◌, All, ==_iff, ok-path, length-append, inl, inr, ◌≡◌, refl, sym, ap,
  ◌∙◌, true, not, some, List, [], ◌∷◌, ◌++◌, arith, ltb, ◌==◌, length, take, filter, ok, >>=-eq-ok,
  Bool-cases, Option-cases,
}
use vcash_wallet.SlateVersions.Wire.{Bytes}
use vcash_wallet.Slatepack.Crypt.{drop}
use vcash_wallet.Slatepack.Armor.{
  Base58, header_word, footer_word, is_whitespace, is_no_period, take_while, check_framing,
  slice_from, bytes_eq, generate_check, error_check, checked, decode_payload, decode,
}

bytes_eq-path : (s t : Bytes) → bytes_eq s t ≡ true → s ≡ t
bytes_eq-path [] [] e = refl
bytes_eq-path [] (y ∷ ys) e = cc
bytes_eq-path (x ∷ xs) [] e = cc
bytes_eq-path (x ∷ xs) (y ∷ ys) e = elim (Bool-cases (x == y)) [
  | inl same ↦
      (let rest = bytes_eq-path xs ys (rw (same, bytes_eq) at e) in
        let first : x ≡ y = ground (arith, same) in ap (λ k. k ∷ xs) first ∙ ap (y ∷◌) rest)
  | inr other ↦ (let never = rw (other, bytes_eq) at e in cc)
]

take-drop : {A : Type 0} (n : ℕ) (xs : List A) → take n xs ++ drop n xs ≡ xs
take-drop zero xs = refl
take-drop (suc n) [] = refl
take-drop (suc n) (x ∷ xs) = ap (x ∷◌) (take-drop n xs)

no_period : (s : Bytes) → All (λ x. x ≢ 46) (take_while is_no_period s)
no_period [] = tt
no_period (x ∷ xs) = elim (Bool-cases (x == 46)) [
  | inl here ↦ rw here tt
  | inr other ↦ rw other ((λ e. let same = (==_iff x 46).1 e in cc), no_period xs)
]

-- What stands in front of the first period, and behind it, if there is one.
split_at_period :
    (s : Bytes)
    → length (take_while is_no_period s) + 1 ≤ length s
    → s ≡ take_while is_no_period s ++ (46 ∷ drop (suc (length (take_while is_no_period s))) s)
split_at_period [] long = absurd (omega (arith, long))
split_at_period (x ∷ xs) long = elim (Bool-cases (x == 46)) [
  | inl here ↦ rw here (ap (λ k. k ∷ xs) ((==_iff x 46).0 here))
  | inr other ↦
      (let long' : length (take_while is_no_period xs) + 1 ≤ length xs =
          omega (arith, rw other at long) in
        rw other (ap (x ∷◌) (split_at_period xs long')))
]

slice_from-long : (n : ℕ) (s x : Bytes) → slice_from n s ≡ ok x → (n ≤ length s) × (drop n s ≡ x)
slice_from-long n s x e = elim (Bool-cases (ltb (length s) n)) [
  | inl short ↦ (let never = rw (short, slice_from) at e in cc)
  | inr long ↦ (ground (arith, long), ok-path (rw (long, slice_from) at e))
]

module _ (c : Base58) where
  error_check-path :
      (code slate_bytes : Bytes)
      → error_check c code slate_bytes ≡ ok tt
      → code ≡ generate_check c slate_bytes
  error_check-path code slate_bytes e =
      elim (Bool-cases (bytes_eq code (generate_check c slate_bytes))) [
        | inl same ↦ bytes_eq-path code (generate_check c slate_bytes) same
        | inr other ↦ cc
      ]

  checked-path :
      (base bytes : Bytes) → checked c base ≡ ok bytes → base ≡ generate_check c bytes ++ bytes
  checked-path base bytes e = elim (Bool-cases (ltb (length base) 4)) [
    | inl short ↦ (let never = rw (short, checked) at e in cc)
    | inr long ↦
        (let e' = rw (long, checked) at e in
          let (u, same, done) = >>=-eq-ok (error_check c (take 4 base) (drop 4 base)) _ e' in
          let back : drop 4 base ≡ bytes = cc in
          sym (take-drop 4 base)
          ∙ (ap (λ x. x ++ drop 4 base) (error_check-path (take 4 base) (drop 4 base) same)
              ∙ ap (λ x. generate_check c x ++ x) back))
  ]

  decode_payload-IsChecked :
      (payload bytes : Bytes)
      → decode_payload c payload ≡ ok bytes
      → c.decode (filter (λ x. not (is_whitespace x)) payload)
        ≡ some (generate_check c bytes ++ bytes)
  decode_payload-IsChecked payload bytes e =
      let text = filter (λ x. not (is_whitespace x)) payload in
      elim (Option-cases (c.decode text)) [
        | inl bad ↦ (let never = rw (bad, decode_payload) at e in cc)
        | inr (base, found) ↦
            found ∙ ap some (checked-path base bytes (rw (found, decode_payload) at e))
      ]

  -- What the decoder of armor returns comes out of Base58 behind the check code that is made of it:
  -- out of the part of the armor between its first two periods, without whitespace.
  pub decode-IsChecked :
      (s bytes : Bytes)
      → decode c s ≡ ok bytes
      → (header payload rest : Bytes) × (s ≡ header ++ (46 ∷ (payload ++ (46 ∷ rest))))
        × All (λ x. x ≢ 46) header
        × All (λ x. x ≢ 46) payload
        × (c.decode (filter (λ x. not (is_whitespace x)) payload)
            ≡ some (generate_check c bytes ++ bytes))
  unfolding decode
  decode-IsChecked s bytes e =
      let header = take_while is_no_period s in
      let header_len = length header + 1 in
      let (u, framed, behind) = >>=-eq-ok (check_framing header_word header) _ e in
      let (x, sliced, e') = >>=-eq-ok (slice_from header_len s) _ behind in
      let payload = take_while is_no_period x in
      let (y, sliced', e'') = >>=-eq-ok (slice_from (header_len + length payload + 1) s) _ e' in
      let (u', framed', done) =
        >>=-eq-ok (check_framing footer_word (take_while is_no_period y)) _ e'' in
      let first = split_at_period s (slice_from-long header_len s x sliced).0 in
      let next : suc (length header) ≡ header_len = omega arith in
      let behind_header : drop (suc (length header)) s ≡ x =
        ap (λ n. drop n s) next ∙ (slice_from-long header_len s x sliced).1 in
      let whole : s ≡ header ++ (46 ∷ x) = first ∙ ap (λ z. header ++ (46 ∷ z)) behind_header in
      let long = (slice_from-long (header_len + length payload + 1) s y sliced').0 in
      let size : length s ≡ length header + suc (length x) =
        ap length whole ∙ length-append header (46 ∷ x) in
      (
        header,
        payload,
        drop (suc (length payload)) x,
        whole ∙ ap (λ z. header ++ (46 ∷ z)) (split_at_period x (omega (arith, long, size))),
        no_period s,
        no_period x,
        decode_payload-IsChecked payload bytes done,
      )
