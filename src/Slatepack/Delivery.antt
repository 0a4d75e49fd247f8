-- ===== src/Slatepack/Delivery.antt =====
-- From a slate to armored text and back (libwallet/src/slatepack/packer.rs).
use vcash_wallet.Base.{
  ℕ, ◌≤◌, ◌≡◌, refl, sym, ap, ◌∙◌, subst, Bool, true, false, Option, some, List, [], ◌∷◌, ◌++◌,
  arith, ltb, ◌==◌, length, length-append, any, if◌then◌else◌, Outcome, ok, ok-path, err, panic,
  timeout, ◌>>=◌, >>=-eq-ok,
}
use vcash_wallet.SlateVersions.Wire.{Bytes}
use vcash_wallet.SlateVersions.V4.{SlateV4}
use vcash_wallet.SlateVersions.V4Bin.Slate.{put_slate}
use vcash_wallet.SlateVersions.V4Bin.RoundTrip.{normal_slate, FitsSlate, get_slate-put_slate}
use vcash_wallet.Slatepack.Types.{
  SlatepackAddress, Slatepack, default_slatepack, default_enc_metadata,
}
use vcash_wallet.Slatepack.Write.{put_slatepack}
use vcash_wallet.Slatepack.Addresses.{SendableOpt}
use vcash_wallet.Slatepack.RoundTrip.{received, FitsSlatepack, get_slatepack-put_slatepack}
use vcash_wallet.Slatepack.Crypt.{
  SlatepackError, map_err, recipient_keys, sealed, try_encrypt_payload, try_decrypt_payload,
}
use vcash_wallet.Slatepack.Sealed.{encrypted-opens}
use vcash_wallet.Slatepack.Armor.{header, footer, format_from, base58check, armor, encode}
use vcash_wallet.Slatepack.Framing.{armor-ascii, decode-armor}
use vcash_wallet.Slatepack.Packer.{
  SlatepackerArgs, Libraries, parse_slatepack, without_armor, deser_slatepack, create_slatepack,
  armor_slatepack, get_packed_slate,
}

>>=_assoc :
    {A B C : Type 0} (x : Outcome SlatepackError A) (f : A → Outcome SlatepackError B)
    (g : B → Outcome SlatepackError C)
    → ((x >>= f) >>= g) ≡ (x >>= λ a. f a >>= g)
>>=_assoc (ok a) f g = refl
>>=_assoc (err e) f g = refl
>>=_assoc panic f g = refl
>>=_assoc timeout f g = refl

module _ (l : Libraries) where
  without_armor-armor : (s : Bytes) → without_armor l (armor l.base58 s) ≡ ok s
  without_armor-armor s =
      let utf8 = l.bech32.is_utf8-ascii (armor l.base58 s) (armor-ascii l.base58 s) in
      rw (utf8, without_armor) (decode-armor l.base58 s)

  -- Armored text is read back as the slatepack, which is then decrypted if asked for.
  deser_slatepack-armor_slatepack :
      (args : SlatepackerArgs) (sp : Slatepack) (decrypt : Bool)
      → FitsSlatepack l.wire l.bech32 sp
      → (armor_slatepack l sp >>= λ text. deser_slatepack l args text decrypt) ≡ (
          if decrypt
          then try_decrypt_payload l.wire l.bech32 l.age args.dec_key (received sp)
          else ok (received sp))
  unfolding armor_slatepack encode deser_slatepack
  deser_slatepack-armor_slatepack args sp decrypt fits =
      let (p, written, read) =
        >>=-eq-ok (put_slatepack l.wire l.bech32 sp) _
          (get_slatepack-put_slatepack l.wire l.bech32 sp fits []) in
      let tail = (format_from 15 (base58check l.base58 (p [])) ++ footer) ++ (10 ∷ []) in
      let long : ltb (length (header ++ tail)) (length header) ≡ false =
        ground (arith, length-append header tail) in
      rw (written, map_err)
        (rw long (rw (without_armor-armor (p [])) (rw (read, parse_slatepack) refl)))

  plain-try_decrypt_payload :
      (key : Option ℕ) (sp : Slatepack)
      → sp.mode ≡ 0
      → try_decrypt_payload l.wire l.bech32 l.age key sp ≡ ok sp
  unfolding try_decrypt_payload
  plain-try_decrypt_payload key sp e =
      let plain : (sp.mode == 0) ≡ true = ground (arith, e) in rw plain refl

  get_packed_slate-eq :
      (sp : Slatepack) (s : SlateV4)
      → FitsSlate s
      → sp.payload ≡ put_slate l.wire s []
      → get_packed_slate l sp ≡ ok (normal_slate s)
  unfolding get_packed_slate
  get_packed_slate-eq sp s fits e = rw e (rw (get_slate-put_slate l.wire s fits [], map_err) refl)

  delivered :
      (args : SlatepackerArgs) (sp out : Slatepack) (s : SlateV4)
      → FitsSlatepack l.wire l.bech32 sp
      → try_decrypt_payload l.wire l.bech32 l.age args.dec_key (received sp) ≡ ok out
      → FitsSlate s
      → out.payload ≡ put_slate l.wire s []
      → (armor_slatepack l sp >>= λ text. deser_slatepack l args text true >>= get_packed_slate l)
        ≡ ok (normal_slate s)
  delivered args sp out s good opens fits e =
      sym (
        >>=_assoc (armor_slatepack l sp) (λ text. deser_slatepack l args text true)
          (get_packed_slate l))
      ∙ (ap (λ x. x >>= get_packed_slate l)
            (deser_slatepack-armor_slatepack args sp true good ∙ opens)
          ∙ get_packed_slate-eq out s fits e)

  -- A slate that fits, packed for nobody in particular under a sender that has an address, is read
  -- back from the armored text: the same slate, as far as its binary form carries it.
  pub get_packed_slate-plain :
      (sender : Option SlatepackAddress) (key : Option ℕ) (reader : SlatepackerArgs) (s : SlateV4)
      → FitsSlate s
      → SendableOpt l.wire l.bech32 sender
      → length (put_slate l.wire s []) ≤ l.wire.max_read
      → (create_slatepack l (record { sender = sender; recipients = []; dec_key = key }) s >>= λ sp.
          armor_slatepack l sp >>= λ text.
          deser_slatepack l reader text true >>= get_packed_slate l)
        ≡ ok (normal_slate s)
  unfolding create_slatepack try_encrypt_payload
  get_packed_slate-plain sender key reader s fits sendable short =
      let sp = record default_slatepack { payload = put_slate l.wire s []; sender = sender } in
      delivered reader sp (received sp) s (omega arith, omega arith, omega arith, sendable, short)
        (plain-try_decrypt_payload reader.dec_key (received sp) refl) fits refl

  -- The same for recipients: the slatepack that is created is opened by the secret of any of them.
  pub get_packed_slate-encrypted :
      (sender : Option SlatepackAddress) (x : SlatepackAddress) (xs : List SlatepackAddress)
      (key : Option ℕ) (reader : SlatepackerArgs) (keys : List ℕ) (secret : ℕ) (s : SlateV4)
      (sp : Slatepack)
      → create_slatepack l (record { sender = sender; recipients = x ∷ xs; dec_key = key }) s
        ≡ ok sp
      → length sp.payload ≤ l.wire.max_read
      → FitsSlate s
      → SendableOpt l.wire l.bech32 sender
      → recipient_keys l.wire l.bech32 l.age (x ∷ xs) ≡ some keys
      → any (λ k. k == l.age.public_of (l.age.secret_of secret)) keys ≡ true
      → reader.dec_key ≡ some secret
      → (armor_slatepack l sp >>= λ text. deser_slatepack l reader text true >>= get_packed_slate l)
        ≡ ok (normal_slate s)
  unfolding create_slatepack
  get_packed_slate-encrypted sender x xs key reader keys secret s sp made short fits sendable known
        mine mykey =
      let inner = record default_slatepack { payload = put_slate l.wire s []; sender = sender } in
      let (encrypted, encrypts, opens) =
        encrypted-opens l.wire l.bech32 l.age inner x xs keys secret [] (sendable, tt, omega arith)
          known mine (λ e. cc) tt in
      let outer =
        sealed l.wire l.bech32 l.age inner (record { sender = sender; recipients = [] })
          encrypted in
      let same : sp ≡ outer = ok-path (sym made ∙ encrypts) in
      let out = record outer {
        payload = put_slate l.wire s [];
        sender = sender;
        encrypted_meta = default_enc_metadata;
        mode = 0;
      } in
      rw same (
        delivered reader outer out s
          (
            omega arith,
            omega arith,
            omega arith,
            tt,
            subst (λ z. length z.payload ≤ l.wire.max_read) same short,
          )
          (rw mykey (opens (received outer))) fits refl)
