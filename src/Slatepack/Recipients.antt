-- ===== src/Slatepack/Recipients.antt =====
-- Reading back the recipients of a slatepack, and passing over unknown bytes
-- (libwallet/src/slatepack/types.rs).
use vcash_wallet.Base.{
  ℕ, suc, ◌+◌, ◌%◌, ◌^◌, ◌<◌, ◌≡◌, refl, ap, ◌∙◌, false, not, some, List, [], ◌∷◌, arith, ltb,
  length, length-append, All, ok,
}
use vcash_wallet.SlateVersions.Wire.{Bytes, Writer, next, write_all, Wire}
use vcash_wallet.Slatepack.Types.{SlatepackAddress, Bech32, sub32}
use vcash_wallet.Slatepack.Write.{
  is_empty, put_string, recipients_len, put_addresses, put_recipients,
}
use vcash_wallet.Slatepack.Read.{get_counted, get_addresses, get_recipients, skip}
use vcash_wallet.Slatepack.Addresses.{
  Sendable, put_address-eq, encoded_len-eq, get_counted-put_string, length-put_string,
}

pub skip-write_all :
    (w : Wire) (extra rest : Bytes)
    → All (λ x. x < 2 ^ 8) extra
    → skip w (length extra) (write_all w.u8.put extra rest) ≡ ok (tt, rest)
skip-write_all w [] rest h = refl
skip-write_all w (x ∷ xs) rest h =
    next _ _ (w.u8.get-put x (write_all w.u8.put xs rest) h.0) (skip-write_all w xs rest h.1)

module _ (w : Wire) (b : Bech32) where
  abbrev pub SendableAll : List SlatepackAddress → Type 0
  SendableAll [] = Unit
  SendableAll (a ∷ others) = Sendable w b a × SendableAll others

  abbrev pub all_size : (xs : List SlatepackAddress) → SendableAll xs → ℕ
  all_size [] h = 0
  all_size (a ∷ others) h = suc (length h.0.0) + all_size others h.1

  abbrev pub all_writer : (xs : List SlatepackAddress) → SendableAll xs → Writer
  all_writer [] h rest = rest
  all_writer (a ∷ others) h rest = put_string w h.0.0 (all_writer others h.1 rest)

  pub recipients_len-eq :
      (xs : List SlatepackAddress) (h : SendableAll xs)
      → recipients_len w b xs ≡ some (all_size xs h)
  recipients_len-eq [] h = refl
  recipients_len-eq (a ∷ others) h =
      rw (encoded_len-eq w b a h.0, recipients_len) (rw (recipients_len-eq others h.1) refl)

  pub put_addresses-eq :
      (xs : List SlatepackAddress) (h : SendableAll xs)
      → put_addresses w b xs ≡ ok (all_writer xs h)
  put_addresses-eq [] h = refl
  put_addresses-eq (a ∷ others) h =
      rw (put_address-eq w b a h.0, put_addresses) (rw (put_addresses-eq others h.1) refl)

  get_addresses-all_writer :
      (xs : List SlatepackAddress) (h : SendableAll xs) (r : ℕ) (rest : Bytes)
      → all_size xs h + r < 2 ^ 32
      → get_addresses w b (length xs) (all_size xs h + r) (all_writer xs h rest)
        ≡ ok ((xs, r), rest)
  get_addresses-all_writer [] h r rest fits =
      let e : 0 + r ≡ r = omega arith in ap (λ k. ok (([], k), rest)) e
  get_addresses-all_writer (a ∷ others) h r rest fits =
      let n = suc (length h.0.0) in
      let k = all_size others h.1 in
      let e : n + k + r ≡ n + (k + r) = omega arith in
      next (get_counted w b (n + k + r)) _
        (ap (λ x. get_counted w b x (put_string w h.0.0 (all_writer others h.1 rest))) e
          ∙ get_counted-put_string w b a h.0 (k + r) (all_writer others h.1 rest) (omega arith))
        (next (get_addresses w b (length others) (k + r)) _
          (get_addresses-all_writer others h.1 r rest (omega arith)) refl)

  length-all_writer :
      (xs : List SlatepackAddress) (h : SendableAll xs) (rest : Bytes)
      → length (all_writer xs h rest) ≡ all_size xs h + length rest
  length-all_writer [] h rest = omega arith
  length-all_writer (a ∷ others) h rest =
      length-put_string w b a h.0 (all_writer others h.1 rest)
      ∙ omega (arith, length-all_writer others h.1 rest)

  -- The bytes of the recipients with their number, which is not written for none.
  abbrev pub recipients_size : (xs : List SlatepackAddress) → SendableAll xs → ℕ
  recipients_size [] h = 0
  recipients_size (a ∷ others) h = 2 + all_size (a ∷ others) h

  abbrev pub recipients_writer : (xs : List SlatepackAddress) → SendableAll xs → Writer
  recipients_writer [] h rest = rest
  recipients_writer (a ∷ others) h rest =
      w.u16.put (suc (length others) % 2 ^ 16) (all_writer (a ∷ others) h rest)

  pub put_recipients-eq :
      (xs : List SlatepackAddress) (h : SendableAll xs)
      → put_recipients w b xs ≡ ok (recipients_writer xs h)
  put_recipients-eq [] h = refl
  put_recipients-eq (a ∷ others) h =
      let small : ltb 65535 (suc (length others) % 2 ^ 16) ≡ false = ground arith in
      rw (put_addresses-eq (a ∷ others) h, put_recipients) (rw small refl)

  pub get_recipients-recipients_writer :
      (xs : List SlatepackAddress) (h : SendableAll xs) (r : ℕ) (rest : Bytes)
      → length xs < 2 ^ 16
      → recipients_size xs h + r < 2 ^ 32
      → get_recipients w b
          (not (is_empty xs))
          (recipients_size xs h + r)
          (recipients_writer xs h rest)
        ≡ ok ((xs, r), rest)
  get_recipients-recipients_writer [] h r rest few fits =
      let e : 0 + r ≡ r = omega arith in ap (λ k. ok (([], k), rest)) e
  get_recipients-recipients_writer (a ∷ others) h r rest few fits =
      let n = suc (length others) in
      let k = all_size (a ∷ others) h in
      let e : n % 2 ^ 16 ≡ n = omega arith in
      let e' : sub32 (2 + k + r) 2 ≡ k + r = omega arith in
      next _ _ (w.u16.get-put (n % 2 ^ 16) (all_writer (a ∷ others) h rest) (omega arith)) (
        ap (λ m. get_addresses w b m (sub32 (2 + k + r) 2) (all_writer (a ∷ others) h rest)) e
        ∙ (ap (λ m. get_addresses w b n m (all_writer (a ∷ others) h rest)) e'
            ∙ get_addresses-all_writer (a ∷ others) h r rest (omega arith)))

  pub length-recipients_writer :
      (xs : List SlatepackAddress) (h : SendableAll xs) (rest : Bytes)
      → length (recipients_writer xs h rest) ≡ recipients_size xs h + length rest
  length-recipients_writer [] h rest = omega arith
  length-recipients_writer (a ∷ others) h rest =
      let n = suc (length others) % 2 ^ 16 in
      ap length (w.put-u16_bytes n (all_writer (a ∷ others) h rest))
      ∙ omega (
        arith,
        length-append (w.u16_bytes n) (all_writer (a ∷ others) h rest),
        w.length-u16_bytes n,
        length-all_writer (a ∷ others) h rest,
      )
