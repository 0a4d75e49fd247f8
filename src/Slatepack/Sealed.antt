-- ===== src/Slatepack/Sealed.antt =====
-- Decrypting what was encrypted (libwallet/src/slatepack/types.rs).
use vcash_wallet.Base.{
  ℕ, ◌+◌, ◌%◌, ◌^◌, ◌<◌, ◌≡◌, refl, sym, ap, ◌∙◌, Bool, true, false, some, List, [], ◌∷◌, ◌++◌,
  append-nil, append_assoc, arith, ltb, ◌==◌, length, length-append, take, any, All, if◌then◌else◌,
  ok, ◌>>=◌,
}
use vcash_wallet.SlateVersions.Wire.{Bytes, write_all, Wire}
use vcash_wallet.Slatepack.Types.{SlatepackAddress, SlatepackEncMetadata, Slatepack, Bech32}
use vcash_wallet.Slatepack.Read.{get_meta}
use vcash_wallet.Slatepack.Meta.{
  FitsMeta, meta_size, meta_size_lt, meta_body, put_meta-eq, length-meta_body, get_meta-eq,
}
use vcash_wallet.Slatepack.Crypt.{
  drop, Age, map_err, read_len, pad_test_data, recipient_keys, sealed, try_encrypt_payload,
  split_payload, unsealed, try_decrypt_payload,
}
use vcash_wallet.Slatepack.Appends.{take-append, drop-append, write_all-append, meta_body-Appends}

module _ (w : Wire) (b : Bech32) (a : Age) where
  read_len-u32_bytes :
      (n : ℕ) (rest : Bytes) → n < 2 ^ 32 → read_len w b a (w.u32_bytes n ++ rest) ≡ ok n
  read_len-u32_bytes n rest h =
      let long : ltb (length (w.u32_bytes n ++ rest)) 4 ≡ false =
        ground (arith, length-append (w.u32_bytes n) rest, w.length-u32_bytes n) in
      let front : take 4 (w.u32_bytes n ++ rest) ≡ w.u32_bytes n =
        ap (λ k. take k (w.u32_bytes n ++ rest)) (sym (w.length-u32_bytes n))
        ∙ take-append (w.u32_bytes n) rest in
      let alone : w.u32_bytes n ≡ w.u32.put n [] =
        sym (w.put-u32_bytes n [] ∙ append-nil (w.u32_bytes n)) in
      rw (long, read_len) (rw (front ∙ alone) (rw (w.u32.get-put n [] h) refl))

  -- The metadata with its length, and unknown bytes behind it that the length counts.
  abbrev framed : (m : SlatepackEncMetadata) → FitsMeta w b m → Bytes → Bytes
  framed m h extra =
      w.u32_bytes (meta_size w b m h + length extra) ++ (meta_body w b m h [] ++ extra)

  module _ (m : SlatepackEncMetadata) (h : FitsMeta w b m) (extra : Bytes)
      (small : All (λ x. x < 2 ^ 8) extra) (few : length extra < 2 ^ 31) where
    length-framed : length (framed m h extra) ≡ meta_size w b m h + length extra + 4
    length-framed =
        let size = meta_size w b m h + length extra in
        let body = meta_body w b m h [] in
        omega (
          arith,
          length-append (w.u32_bytes size) (body ++ extra),
          w.length-u32_bytes size,
          length-append body extra,
          length-meta_body w b m h [],
        )

    get_meta-framed : get_meta w b (framed m h extra) ≡ ok (m, [])
    get_meta-framed =
        let size = meta_size w b m h + length extra in
        let body : meta_body w b m h [] ++ extra ≡ meta_body w b m h (write_all w.u8.put extra []) =
          sym (
            meta_body-Appends w b m h (write_all w.u8.put extra [])
            ∙ ap (λ x. meta_body w b m h [] ++ x)
                (write_all-append w b extra [] small ∙ append-nil extra)) in
        ap (λ x. get_meta w b (w.u32_bytes size ++ x)) body
        ∙ (ap (get_meta w b)
              (sym (w.put-u32_bytes size (meta_body w b m h (write_all w.u8.put extra []))))
            ∙ get_meta-eq w b m h extra [] small few)

    unsealed-framed :
        (sp : Slatepack) (payload : Bytes)
        → unsealed w b a sp (framed m h extra ++ payload)
          ≡ ok (record sp {
            payload = payload;
            sender = m.sender;
            encrypted_meta = record sp.encrypted_meta { recipients = m.recipients };
            mode = 0;
          })
    unsealed-framed sp payload =
        let size = meta_size w b m h + length extra in
        let bound = meta_size_lt w b m h in
        let long : ltb (length (framed m h extra ++ payload)) (size + 4) ≡ false =
          ground (arith, length-append (framed m h extra) payload, length-framed) in
        let front : take (size + 4) (framed m h extra ++ payload) ≡ framed m h extra =
          ap (λ k. take k (framed m h extra ++ payload)) (sym length-framed)
          ∙ take-append (framed m h extra) payload in
        let back : drop (size + 4) (framed m h extra ++ payload) ≡ payload =
          ap (λ k. drop k (framed m h extra ++ payload)) (sym length-framed)
          ∙ drop-append (framed m h extra) payload in
        let len : read_len w b a (framed m h extra ++ payload) ≡ ok size =
          ap (read_len w b a)
            (append_assoc (w.u32_bytes size) (meta_body w b m h [] ++ extra) payload)
          ∙ read_len-u32_bytes size _ (omega arith) in
        rw (len, unsealed) (rw (long, split_payload) (rw front (rw back (rw get_meta-framed refl))))

  module _ (m : SlatepackEncMetadata) (h : FitsMeta w b m) where
    plain-framed : w.u32.put (meta_size w b m h) (meta_body w b m h []) ≡ framed m h []
    plain-framed =
        let size = meta_size w b m h in
        let body = meta_body w b m h [] in
        let e : size ≡ size + 0 = omega arith in
        w.put-u32_bytes size body
        ∙ (ap (λ n. w.u32_bytes n ++ body) e
            ∙ ap (λ x. w.u32_bytes (size + 0) ++ x) (sym (append-nil body)))

    padded-framed :
        (random : Bytes)
        → length random ≡ 139
        → pad_test_data w b a random (w.u32.put (meta_size w b m h) (meta_body w b m h []))
          ≡ ok (framed m h random)
    padded-framed random e =
        let size = meta_size w b m h in
        let bound = meta_size_lt w b m h in
        let body = meta_body w b m h [] in
        let back : drop 4 (w.u32_bytes size ++ body) ≡ body =
          ap (λ k. drop k (w.u32_bytes size ++ body)) (sym (w.length-u32_bytes size))
          ∙ drop-append (w.u32_bytes size) body in
        let total : (size + 139) % 2 ^ 32 ≡ size + length random = omega arith in
        rw (w.put-u32_bytes size body) (
          rw (read_len-u32_bytes size body (omega arith), pad_test_data)
            (rw back (
              ap (λ n. ok ((w.u32_bytes n ++ body) ++ random)) total
              ∙ ap ok (append_assoc (w.u32_bytes (size + length random)) body random))))

    -- What is encrypted in front of the payload, in the test mode and without it.
    to_encrypt-framed :
        (test_mode : Bool) (random : Bytes)
        → (test_mode ≡ true → length random ≡ 139)
        → All (λ r. r < 2 ^ 8) random
        → (extra : Bytes) × All (λ r. r < 2 ^ 8) extra
          × (length extra < 2 ^ 31)
          × ((if test_mode
                then pad_test_data w b a random
                    (w.u32.put (meta_size w b m h) (meta_body w b m h []))
                else ok (w.u32.put (meta_size w b m h) (meta_body w b m h [])))
              ≡ ok (framed m h extra))
    to_encrypt-framed true random size small =
        (random, small, omega (arith, size refl), padded-framed random (size refl))
    to_encrypt-framed false random size small = ([], tt, omega arith, ap ok plain-framed)

  abbrev pub opened : Slatepack → Slatepack
  opened sp = record sp {
    mode = 0;
    encrypted_meta = record sp.encrypted_meta { sender = sp.sender };
  }

  module _ (sp : Slatepack) (x : SlatepackAddress) (xs : List SlatepackAddress) (keys : List ℕ)
      (secret : ℕ) (random : Bytes)
      (h : FitsMeta w b (record sp.encrypted_meta { sender = sp.sender }))
      (known : recipient_keys w b a (x ∷ xs) ≡ some keys)
      (mine : any (λ k. k == a.public_of (a.secret_of secret)) keys ≡ true)
      (size : sp.future_test_mode ≡ true → length random ≡ 139)
      (small : All (λ r. r < 2 ^ 8) random) where
    -- The encrypted bytes, and what they are opened to in whatever slatepack they arrive.
    pub encrypted-opens :
        (encrypted : Bytes) × (try_encrypt_payload w b a random (x ∷ xs) sp
          ≡ ok (sealed w b a sp (record sp.encrypted_meta { sender = sp.sender }) encrypted))
        × ((arrived : Slatepack)
            → try_decrypt_payload w b a
                (some secret)
                (record arrived { mode = 1; payload = encrypted })
              ≡ ok (record arrived {
                payload = sp.payload;
                sender = sp.sender;
                encrypted_meta = record arrived.encrypted_meta {
                  recipients = sp.encrypted_meta.recipients;
                };
                mode = 0;
              }))
    unfolding try_encrypt_payload try_decrypt_payload
    encrypted-opens =
        let m = record sp.encrypted_meta { sender = sp.sender } in
        let (extra, low, few, framing) =
          to_encrypt-framed m h sp.future_test_mode random size small in
        let text = framed m h extra ++ sp.payload in
        let encrypted = a.encrypt keys text in
        (
          encrypted,
          rw (put_meta-eq w b m h, map_err) (rw framing (rw known refl)),
          λ arrived. rw (a.decrypt-encrypt (a.secret_of secret) keys text mine) (
              unsealed-framed m h extra low few (record arrived { mode = 1; payload = encrypted })
                sp.payload),
        )

    -- A slatepack whose sender, if any, and whose fewer than 2^16 recipients in the metadata have
    -- addresses of at most 255 bytes, without capitals in their prefixes, is encrypted for recipients
    -- whose addresses have keys: it is opened by the secret of any of them, and its payload, its
    -- sender and the recipients in its metadata are those from before, also where the test mode pads
    -- the metadata with random bytes, which then are 139.
    pub try_decrypt_payload-try_encrypt_payload :
        (try_encrypt_payload w b a random (x ∷ xs) sp >>= try_decrypt_payload w b a (some secret))
        ≡ ok (opened sp)
    try_decrypt_payload-try_encrypt_payload =
        let m = record sp.encrypted_meta { sender = sp.sender } in
        let (encrypted, encrypts, opens) = encrypted-opens in
        rw encrypts (opens (sealed w b a sp m encrypted))
