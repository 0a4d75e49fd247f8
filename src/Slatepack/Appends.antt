-- ===== src/Slatepack/Appends.antt =====
-- Writers put their bytes in front of what follows (libwallet/src/slatepack/types.rs).
use vcash_wallet.Base.{
  ℕ, suc, ◌%◌, ◌^◌, ◌<◌, ◌≡◌, refl, sym, ap, ◌∙◌, Option, none, some, List, [], ◌∷◌, ◌++◌,
  append-nil, append_assoc, arith, length, take, All,
}
use vcash_wallet.SlateVersions.Wire.{Bytes, Writer, write_all, Wire}
use vcash_wallet.Slatepack.Types.{SlatepackAddress, SlatepackEncMetadata, Bech32}
use vcash_wallet.Slatepack.Write.{put_string}
use vcash_wallet.Slatepack.Crypt.{drop}
use vcash_wallet.Slatepack.Addresses.{SendableOpt, opt_writer}
use vcash_wallet.Slatepack.Recipients.{SendableAll, all_writer, recipients_writer}
use vcash_wallet.Slatepack.Meta.{FitsMeta, meta_body}

abbrev pub Appends : Writer → Type 0
Appends f = (rest : Bytes) → f rest ≡ f [] ++ rest

pub take-append : {A : Type 0} (xs ys : List A) → take (length xs) (xs ++ ys) ≡ xs
take-append [] ys = refl
take-append (x ∷ xs) ys = ap (x ∷◌) (take-append xs ys)

pub drop-append : {A : Type 0} (xs ys : List A) → drop (length xs) (xs ++ ys) ≡ ys
drop-append [] ys = refl
drop-append (x ∷ xs) ys = drop-append xs ys

put_bytes-Appends : (f : Writer) (s : Bytes) → ((rest : Bytes) → f rest ≡ s ++ rest) → Appends f
put_bytes-Appends f s h rest = h rest ∙ ap (λ x. x ++ rest) (sym (append-nil s) ∙ sym (h []))

compose-Appends : (f g : Writer) → Appends f → Appends g → Appends (λ rest. f (g rest))
compose-Appends f g h h' rest =
    h (g rest)
    ∙ (ap (λ x. f [] ++ x) (h' rest)
        ∙ (sym (append_assoc (f []) (g []) rest) ∙ ap (λ x. x ++ rest) (sym (h (g [])))))

module _ (w : Wire) (b : Bech32) where
  pub write_all-append :
      (extra rest : Bytes)
      → All (λ x. x < 2 ^ 8) extra
      → write_all w.u8.put extra rest ≡ extra ++ rest
  write_all-append [] rest h = refl
  write_all-append (x ∷ xs) rest h =
      w.put-u8 x (write_all w.u8.put xs rest) h.0 ∙ ap (x ∷◌) (write_all-append xs rest h.1)

  put_string-Appends : (s : Bytes) → Appends (put_string w s)
  put_string-Appends s =
      let n = length s % 2 ^ 8 in
      compose-Appends (w.u8.put n) ((w.fixed (length s)).put s)
        (put_bytes-Appends (w.u8.put n) (n ∷ []) (λ r. w.put-u8 n r (omega arith)))
        (put_bytes-Appends ((w.fixed (length s)).put s) s (λ r. w.put-fixed (length s) s r refl))

  opt_writer-Appends :
      (o : Option SlatepackAddress) (h : SendableOpt w b o) → Appends (opt_writer w b o h)
  opt_writer-Appends none h rest = refl
  opt_writer-Appends (some x) h rest = put_string-Appends h.0 rest

  all_writer-Appends :
      (xs : List SlatepackAddress) (h : SendableAll w b xs) → Appends (all_writer w b xs h)
  all_writer-Appends [] h rest = refl
  all_writer-Appends (x ∷ xs) h rest =
      compose-Appends (put_string w h.0.0) (all_writer w b xs h.1) (put_string-Appends h.0.0)
        (all_writer-Appends xs h.1) rest

  put_u16-Appends : (n : ℕ) → Appends (w.u16.put n)
  put_u16-Appends n = put_bytes-Appends (w.u16.put n) (w.u16_bytes n) (w.put-u16_bytes n)

  recipients_writer-Appends :
      (xs : List SlatepackAddress) (h : SendableAll w b xs) → Appends (recipients_writer w b xs h)
  recipients_writer-Appends [] h rest = refl
  recipients_writer-Appends (x ∷ xs) h rest =
      compose-Appends (w.u16.put (suc (length xs) % 2 ^ 16)) (all_writer w b (x ∷ xs) h)
        (put_u16-Appends _) (all_writer-Appends (x ∷ xs) h) rest

  pub meta_body-Appends :
      (m : SlatepackEncMetadata) (h : FitsMeta w b m) → Appends (meta_body w b m h)
  meta_body-Appends m h =
      compose-Appends (w.u16.put _)
        (λ r. opt_writer w b m.sender h.0 (recipients_writer w b m.recipients h.1 r))
        (put_u16-Appends _)
        (compose-Appends (opt_writer w b m.sender h.0) (recipients_writer w b m.recipients h.1)
          (opt_writer-Appends m.sender h.0) (recipients_writer-Appends m.recipients h.1))
