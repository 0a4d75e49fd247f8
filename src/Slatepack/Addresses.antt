-- ===== src/Slatepack/Addresses.antt =====
-- Reading back the addresses of a slatepack (libwallet/src/slatepack/address.rs).
use vcash_wallet.Base.{
  ℕ, suc, ◌+◌, ◌%◌, ◌^◌, ◌≤◌, ◌<◌, ◌≡◌, refl, ap, ◌∙◌, false, Option, none, some, arith, ltb,
  length, length-append, All, is_some, ok,
}
use vcash_wallet.SlateVersions.Wire.{Bytes, Writer, next, Wire}
use vcash_wallet.Slatepack.Types.{
  SlatepackAddress, Bech32, NotUpper, sub32, address_string, address_of, encoded_len,
}
use vcash_wallet.Slatepack.Write.{put_string, put_address, put_sender, opt_fields_len, sender_len}
use vcash_wallet.Slatepack.Read.{parse_address, get_address, get_counted, get_sender}

pub sub32_add : (n r : ℕ) → n + r < 2 ^ 32 → sub32 (n + r) (n % 2 ^ 32) ≡ r
sub32_add n r h = omega arith

module _ (w : Wire) (b : Bech32) where
  -- An address with a string that is short enough, under a prefix without upper case letters.
  abbrev pub Sendable : SlatepackAddress → Type 0
  Sendable a = (s : Bytes) × (address_string w b a ≡ some s) × (length s ≤ 255) × All NotUpper a.hrp

  abbrev pub SendableOpt : Option SlatepackAddress → Type 0
  SendableOpt none = Unit
  SendableOpt (some a) = Sendable a

  module _ (a : SlatepackAddress) (h : Sendable a) where
    pub put_address-eq : put_address w b a ≡ ok (put_string w h.0)
    unfolding put_address
    put_address-eq =
        let short : ltb 255 (length h.0) ≡ false = ground arith in
        rw (h.1, put_address) (rw short refl)

    pub encoded_len-eq : encoded_len w b a ≡ some (suc (length h.0))
    encoded_len-eq = rw (h.1, encoded_len) refl

    address_of-eq : address_of w b h.0 ≡ some a
    address_of-eq =
        rw (b.decode-encode a.hrp (w.key_bytes a.pub_key) h.0 h.3 h.1, address_of)
          (rw (w.key_of-key_bytes a.pub_key) refl)

    parse_address-eq : (rest : Bytes) → parse_address w b h.0 rest ≡ ok (a, rest)
    parse_address-eq rest =
        rw (b.is_utf8-encode a.hrp (w.key_bytes a.pub_key) h.0 h.1) (rw address_of-eq refl)

    pub get_address-put_string :
        (rest : Bytes) → get_address w b (put_string w h.0 rest) ≡ ok (a, rest)
    unfolding get_address
    get_address-put_string rest =
        let e : length h.0 % 2 ^ 8 ≡ length h.0 = omega arith in
        next _ _ (w.u8.get-put (length h.0 % 2 ^ 8) _ (omega arith)) (
          next _ _
            (ap (λ n. (w.fixed n).get ((w.fixed (length h.0)).put h.0 rest)) e
              ∙ (w.fixed (length h.0)).get-put h.0 rest (refl, omega (arith, w.max_read_enough)))
            (parse_address-eq rest))

    pub get_counted-put_string :
        (r : ℕ) (rest : Bytes)
        → suc (length h.0) + r < 2 ^ 32
        → get_counted w b (suc (length h.0) + r) (put_string w h.0 rest) ≡ ok ((a, r), rest)
    get_counted-put_string r rest fits =
        next (get_address w b) _ (get_address-put_string rest)
          (rw encoded_len-eq (rw (sub32_add (suc (length h.0)) r fits) refl))

    pub length-put_string :
        (rest : Bytes) → length (put_string w h.0 rest) ≡ suc (length h.0) + length rest
    length-put_string rest =
        ap length
          (w.put-u8 (length h.0 % 2 ^ 8) ((w.fixed (length h.0)).put h.0 rest) (omega arith))
        ∙ ap (λ x. suc (length x)) (w.put-fixed (length h.0) h.0 rest refl)
        ∙ omega (arith, length-append h.0 rest)

  -- The bytes of an optional address, and how they are written.
  abbrev pub opt_size : (o : Option SlatepackAddress) → SendableOpt o → ℕ
  opt_size none h = 0
  opt_size (some a) h = suc (length h.0)

  abbrev pub opt_writer : (o : Option SlatepackAddress) → SendableOpt o → Writer
  opt_writer none h rest = rest
  opt_writer (some a) h rest = put_string w h.0 rest

  pub opt_fields_len-eq :
      (o : Option SlatepackAddress) (h : SendableOpt o) → opt_fields_len w b o ≡ ok (opt_size o h)
  opt_fields_len-eq none h = refl
  opt_fields_len-eq (some a) h = rw (encoded_len-eq a h, opt_fields_len) refl

  pub sender_len-eq :
      (o : Option SlatepackAddress) (h : SendableOpt o) → sender_len w b o ≡ some (opt_size o h)
  sender_len-eq none h = refl
  sender_len-eq (some a) h = encoded_len-eq a h

  pub put_sender-eq :
      (o : Option SlatepackAddress) (h : SendableOpt o) → put_sender w b o ≡ ok (opt_writer o h)
  put_sender-eq none h = refl
  put_sender-eq (some a) h = put_address-eq a h

  pub get_sender-opt_writer :
      (o : Option SlatepackAddress) (h : SendableOpt o) (r : ℕ) (rest : Bytes)
      → opt_size o h + r < 2 ^ 32
      → get_sender w b (is_some o) (opt_size o h + r) (opt_writer o h rest) ≡ ok ((o, r), rest)
  get_sender-opt_writer none h r rest fits =
      let e : 0 + r ≡ r = omega arith in ap (λ k. ok ((none, k), rest)) e
  get_sender-opt_writer (some a) h r rest fits =
      next (get_counted w b (suc (length h.0) + r)) _ (get_counted-put_string a h r rest fits) refl

  pub length-opt_writer :
      (o : Option SlatepackAddress) (h : SendableOpt o) (rest : Bytes)
      → length (opt_writer o h rest) ≡ opt_size o h + length rest
  length-opt_writer none h rest = omega arith
  length-opt_writer (some a) h rest = length-put_string a h rest
