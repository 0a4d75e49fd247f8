-- ===== src/Slatepack/Meta.antt =====
-- The encrypted metadata of a slatepack read back, also with what a later version adds
-- (libwallet/src/slatepack/types.rs).
use vcash_wallet.Base.{
  ℕ, ◌+◌, ◌*◌, ◌%◌, ◌^◌, ◌≤◌, ◌<◌, ◌≡◌, refl, ap, ◌∙◌, Bool, not, Option, some, List, [], ◌∷◌,
  arith, length, length-append, All, is_some, ok, ◌>>=◌,
}
use vcash_wallet.SlateVersions.Wire.{Bytes, Writer, next, write_all, Wire}
use vcash_wallet.SlateVersions.Flags.{set, has}
use vcash_wallet.Slatepack.Types.{SlatepackAddress, SlatepackEncMetadata, Bech32, sub32}
use vcash_wallet.Slatepack.Write.{is_empty, meta_len, put_meta}
use vcash_wallet.Slatepack.Read.{get_sender, get_recipients, get_meta}
use vcash_wallet.Slatepack.Addresses.{
  SendableOpt, opt_size, opt_writer, sender_len-eq, put_sender-eq, get_sender-opt_writer,
  length-opt_writer,
}
use vcash_wallet.Slatepack.Recipients.{
  SendableAll, all_size, recipients_size, recipients_writer, recipients_len-eq, put_recipients-eq,
  get_recipients-recipients_writer, length-recipients_writer, skip-write_all,
}
use vcash_wallet.Slatepack.RoundTrip.{opt_size_le}

abbrev pub meta_flags : Bool → Bool → ℕ
meta_flags sender recipients = set recipients 2 (set sender 1 0)

meta_flags_bits :
    (s r : Bool)
    → (has 1 (meta_flags s r) ≡ s) × (has 2 (meta_flags s r) ≡ r) × (meta_flags s r < 2 ^ 16)
meta_flags_bits s r = ground arith

module _ (w : Wire) (b : Bech32) where
  -- The sender and the recipients have addresses, and the number of recipients is written in 16 bits.
  abbrev pub FitsMeta : SlatepackEncMetadata → Type 0
  FitsMeta m =
      SendableOpt w b m.sender × SendableAll w b m.recipients × (length m.recipients < 2 ^ 16)

  abbrev pub meta_size : (m : SlatepackEncMetadata) → FitsMeta m → ℕ
  meta_size m h = 2 + opt_size w b m.sender h.0 + recipients_size w b m.recipients h.1

  -- What is written after the length.
  abbrev pub meta_body : (m : SlatepackEncMetadata) → FitsMeta m → Writer
  meta_body m h rest =
      w.u16.put (meta_flags (is_some m.sender) (not (is_empty m.recipients)))
        (opt_writer w b m.sender h.0 (recipients_writer w b m.recipients h.1 rest))

  all_size_le :
      (xs : List SlatepackAddress) (h : SendableAll w b xs) → all_size w b xs h ≤ 256 * length xs
  all_size_le [] h = omega arith
  all_size_le (a ∷ others) h = omega (arith, all_size_le others h.1, h.0.2)

  recipients_size_le :
      (xs : List SlatepackAddress) (h : SendableAll w b xs)
      → recipients_size w b xs h ≤ 2 + 256 * length xs
  recipients_size_le [] h = omega arith
  recipients_size_le (a ∷ others) h = omega (arith, all_size_le (a ∷ others) h)

  pub meta_size_lt : (m : SlatepackEncMetadata) (h : FitsMeta m) → meta_size m h < 2 ^ 31
  meta_size_lt m h =
      omega (arith, opt_size_le w b m.sender h.0, recipients_size_le m.recipients h.1, h.2)

  meta_len-list :
      (o : Option SlatepackAddress) (xs : List SlatepackAddress) (h : SendableOpt w b o)
      (h' : SendableAll w b xs)
      → meta_len w b (record { sender = o; recipients = xs })
        ≡ some (2 + opt_size w b o h + recipients_size w b xs h')
  meta_len-list o [] h h' =
      let e : 2 + opt_size w b o h ≡ 2 + opt_size w b o h + 0 = omega arith in
      rw (sender_len-eq w b o h, meta_len) (ap some e)
  meta_len-list o (a ∷ others) h h' =
      rw (sender_len-eq w b o h, meta_len) (rw (recipients_len-eq w b (a ∷ others) h') refl)

  pub put_meta-eq :
      (m : SlatepackEncMetadata) (h : FitsMeta m)
      → put_meta w b m ≡ ok (λ rest. w.u32.put (meta_size m h) (meta_body m h rest))
  unfolding put_meta
  put_meta-eq m h =
      let size = meta_size m h in
      let bound = meta_size_lt m h in
      let e : size % 2 ^ 32 ≡ size = omega arith in
      rw (meta_len-list m.sender m.recipients h.0 h.1, put_meta)
        (rw (put_sender-eq w b m.sender h.0) (
          rw (put_recipients-eq w b m.recipients h.1)
            (ap (λ n. ok (λ rest. w.u32.put n (meta_body m h rest))) e)))

  pub length-meta_body :
      (m : SlatepackEncMetadata) (h : FitsMeta m) (rest : Bytes)
      → length (meta_body m h rest) ≡ meta_size m h + length rest
  length-meta_body m h rest =
      let flags = meta_flags (is_some m.sender) (not (is_empty m.recipients)) in
      let inner = recipients_writer w b m.recipients h.1 rest in
      let outer = opt_writer w b m.sender h.0 inner in
      ap length (w.put-u16_bytes flags outer)
      ∙ omega (
        arith,
        length-append (w.u16_bytes flags) outer,
        w.length-u16_bytes flags,
        length-opt_writer w b m.sender h.0 inner,
        length-recipients_writer w b m.recipients h.1 rest,
      )

  -- The metadata with unknown bytes behind it that its length counts.
  pub get_meta-eq :
      (m : SlatepackEncMetadata) (h : FitsMeta m) (extra rest : Bytes)
      → All (λ x. x < 2 ^ 8) extra
      → length extra < 2 ^ 31
      → get_meta w b
          (w.u32.put (meta_size m h + length extra) (meta_body m h (write_all w.u8.put extra rest)))
        ≡ ok (m, rest)
  unfolding get_meta
  get_meta-eq m h extra rest small few =
      let n = opt_size w b m.sender h.0 in
      let k = recipients_size w b m.recipients h.1 in
      let l = length extra in
      let bound = meta_size_lt m h in
      let bits = meta_flags_bits (is_some m.sender) (not (is_empty m.recipients)) in
      let flags = meta_flags (is_some m.sender) (not (is_empty m.recipients)) in
      let inner = write_all w.u8.put extra rest in
      let recipients_bytes = recipients_writer w b m.recipients h.1 inner in
      let sender_bytes = opt_writer w b m.sender h.0 recipients_bytes in
      let e : sub32 (2 + n + k + l) 2 ≡ n + (k + l) = omega arith in
      next _ _ (w.u32.get-put (2 + n + k + l) _ (omega arith)) (
        next _ _ (w.u16.get-put flags _ bits.2) (
          next _ _
            (ap (λ x. get_sender w b x (sub32 (2 + n + k + l) 2) sender_bytes) bits.0
              ∙ (ap (λ x. get_sender w b (is_some m.sender) x sender_bytes) e
                  ∙ get_sender-opt_writer w b m.sender h.0 (k + l) recipients_bytes (omega arith)))
            (next _ _
              (ap (λ x. get_recipients w b x (k + l) recipients_bytes) bits.1
                ∙ get_recipients-recipients_writer w b m.recipients h.1 l inner h.2 (omega arith))
              (next _ _ (skip-write_all w extra rest small) refl))))

  -- The encrypted metadata is written without an error where its addresses can be written and its
  -- recipients are fewer than 2^16, and it is read back from its bytes, with what follows left over.
  pub get_meta-put_meta :
      (m : SlatepackEncMetadata)
      → FitsMeta m
      → (rest : Bytes) → (put_meta w b m >>= λ p. get_meta w b (p rest)) ≡ ok (m, rest)
  get_meta-put_meta m h rest =
      let size = meta_size m h in
      let e : size ≡ size + 0 = omega arith in
      rw (put_meta-eq m h) (
        ap (λ n. get_meta w b (w.u32.put n (meta_body m h rest))) e
        ∙ get_meta-eq m h [] rest tt (omega arith))
