-- ===== src/Slatepack/RoundTrip.antt =====
-- A binary slatepack and its encrypted metadata read back, also with what a later version adds
-- (libwallet/src/slatepack/types.rs).
use vcash_wallet.Base.{
  ℕ, ◌+◌, ◌%◌, ◌^◌, ◌≤◌, ◌<◌, ◌≡◌, refl, ap, ◌∙◌, Bool, false, Option, none, some, [], arith, ltb,
  length, All, is_some, ok, ◌>>=◌,
}
use vcash_wallet.SlateVersions.Wire.{Bytes, next, write_all, Wire}
use vcash_wallet.SlateVersions.Flags.{set, has}
use vcash_wallet.Slatepack.Types.{
  SlatepackAddress, SlatepackVersion, Slatepack, Bech32, default_enc_metadata,
}
use vcash_wallet.Slatepack.Write.{Written, put_version, opt_fields_len, put_sender, put_slatepack}
use vcash_wallet.Slatepack.Read.{get_version, get_sender, get_rest, get_slatepack}
use vcash_wallet.Slatepack.Addresses.{
  SendableOpt, opt_size, opt_writer, opt_fields_len-eq, put_sender-eq, get_sender-opt_writer,
}
use vcash_wallet.Slatepack.Recipients.{skip-write_all}

-- What a slatepack is after it was written and read: the metadata goes into the payload only.
abbrev pub received : Slatepack → Slatepack
received sp = record sp { encrypted_meta = default_enc_metadata; future_test_mode = false }

sender_flag : (s : Bool) → (has 1 (set s 1 0) ≡ s) × (set s 1 0 < 2 ^ 16)
sender_flag s = ground arith

module _ (w : Wire) (b : Bech32) where
  -- Its numbers and its payload fit, it is plain or encrypted, and its sender has an address.
  abbrev pub FitsSlatepack : Slatepack → Type 0
  FitsSlatepack sp =
      (sp.slatepack.major < 2 ^ 8)
      × (sp.slatepack.minor < 2 ^ 8)
      × (sp.mode ≤ 1)
      × SendableOpt w b sp.sender
      × (length sp.payload ≤ w.max_read)

  -- A slatepack of a later version: `flags` has the known flag and others, and the optional fields
  -- end with `extra`.
  abbrev pub put_future : Slatepack → ℕ → Bytes → Written
  put_future sp flags extra = do
    fields_len ← opt_fields_len w b sp.sender
    put_fields ← put_sender w b sp.sender
    ok (λ rest. put_version w sp.slatepack (
        w.u8.put sp.mode (
          w.u16.put flags (
            w.u32.put (fields_len + length extra)
              (put_fields (write_all w.u8.put extra (w.bytes.put sp.payload rest)))))))

  get_version-put_version :
      (v : SlatepackVersion) (rest : Bytes)
      → v.major < 2 ^ 8
      → v.minor < 2 ^ 8
      → get_version w (put_version w v rest) ≡ ok (v, rest)
  get_version-put_version v rest h h' =
      next _ _ (w.u8.get-put v.major _ h) (next _ _ (w.u8.get-put v.minor rest h') refl)

  pub opt_size_le : (o : Option SlatepackAddress) (h : SendableOpt w b o) → opt_size w b o h ≤ 256
  opt_size_le none h = omega arith
  opt_size_le (some a) h = omega (arith, h.2)

  get_rest-eq :
      (sp : Slatepack) (fits : FitsSlatepack sp) (flags : ℕ) (extra rest : Bytes)
      → flags < 2 ^ 16
      → has 1 flags ≡ is_some sp.sender
      → All (λ x. x < 2 ^ 8) extra
      → length extra < 2 ^ 31
      → get_rest w b sp.slatepack sp.mode (
          w.u16.put flags (
            w.u32.put (opt_size w b sp.sender fits.3 + length extra) (
              opt_writer w b sp.sender fits.3
                (write_all w.u8.put extra (w.bytes.put sp.payload rest)))))
        ≡ ok (received sp, rest)
  get_rest-eq sp fits flags extra rest f e small few =
      let n = opt_size w b sp.sender fits.3 + length extra in
      let bound = opt_size_le sp.sender fits.3 in
      let tail = write_all w.u8.put extra (w.bytes.put sp.payload rest) in
      next _ _ (w.u16.get-put flags _ f) (
        next _ _ (w.u32.get-put n _ (omega arith)) (
          next _ _
            (ap (λ x. get_sender w b x n (opt_writer w b sp.sender fits.3 tail)) e
              ∙ get_sender-opt_writer w b sp.sender fits.3 (length extra) tail (omega arith))
            (next _ _ (skip-write_all w extra _ small)
              (next _ _ (w.bytes.get-put sp.payload rest fits.4) refl))))

  get_future :
      (sp : Slatepack) (fits : FitsSlatepack sp) (flags : ℕ) (extra rest : Bytes)
      → flags < 2 ^ 16
      → has 1 flags ≡ is_some sp.sender
      → All (λ x. x < 2 ^ 8) extra
      → length extra < 2 ^ 31
      → get_slatepack w b (
          put_version w sp.slatepack (
            w.u8.put sp.mode (
              w.u16.put flags (
                w.u32.put (opt_size w b sp.sender fits.3 + length extra) (
                  opt_writer w b sp.sender fits.3
                    (write_all w.u8.put extra (w.bytes.put sp.payload rest)))))))
        ≡ ok (received sp, rest)
  unfolding get_slatepack
  get_future sp fits flags extra rest f e small few =
      let plain : ltb 1 sp.mode ≡ false = ground (arith, fits.2) in
      next _ _ (get_version-put_version sp.slatepack _ fits.0 fits.1) (
        next _ _ (w.u8.get-put sp.mode _ (omega (arith, fits.2)))
          (rw plain (get_rest-eq sp fits flags extra rest f e small few)))

  -- A slatepack that fits is written without an error, and it is read back from its bytes, with what
  -- follows them left over; the metadata that goes into an encrypted payload only is not part of it.
  pub get_slatepack-put_slatepack :
      (sp : Slatepack)
      → FitsSlatepack sp
      → (rest : Bytes)
      → (put_slatepack w b sp >>= λ p. get_slatepack w b (p rest)) ≡ ok (received sp, rest)
  unfolding put_slatepack
  get_slatepack-put_slatepack sp fits rest =
      let n = opt_size w b sp.sender fits.3 in
      let bound = opt_size_le sp.sender fits.3 in
      let e : n % 2 ^ 32 ≡ n + 0 = omega arith in
      let flag = sender_flag (is_some sp.sender) in
      rw (opt_fields_len-eq w b sp.sender fits.3, put_slatepack)
        (rw (put_sender-eq w b sp.sender fits.3) (
          rw e (
            get_future sp fits (set (is_some sp.sender) 1 0) [] rest flag.1 flag.0 tt
              (omega arith))))

  -- What a later version writes is read back as the slatepack that it carries: unknown flags are
  -- ignored, and the bytes of unknown optional fields are passed over.
  pub get_slatepack-put_future :
      (sp : Slatepack)
      → FitsSlatepack sp
      → (flags : ℕ) (extra rest : Bytes) → flags < 2 ^ 16
      → has 1 flags ≡ is_some sp.sender
      → All (λ x. x < 2 ^ 8) extra
      → length extra < 2 ^ 31
      → (put_future sp flags extra >>= λ p. get_slatepack w b (p rest)) ≡ ok (received sp, rest)
  get_slatepack-put_future sp fits flags extra rest f e small few =
      rw (opt_fields_len-eq w b sp.sender fits.3, put_future)
        (rw (put_sender-eq w b sp.sender fits.3)
          (get_future sp fits flags extra rest f e small few))
