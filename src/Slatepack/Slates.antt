-- ===== src/Slatepack/Slates.antt =====
-- A slate put into a slatepack and taken out again (libwallet/src/slatepack/packer.rs), with its
-- conversions to version 4 and back (`VersionedSlate`, `Slate::upgrade`).
use vcash_wallet.Base.{
  ℕ, ◌≤◌, ◌≡◌, refl, ap, ◌∙◌, Bool, true, false, Option, none, some, List, [], ◌∷◌, ◌++◌, map,
  length, any, ◌==◌, is_some, Outcome, ok, ◌>>=◌, >>=-eq-ok,
}
use vcash_wallet.SlateVersions.Wire.{OutputFeatures}
use vcash_wallet.SlateVersions.V4Bin.{features_of, features_index}
use vcash_wallet.SlateVersions.V4Bin.Fields.{option_map}
use vcash_wallet.SlateVersions.V4Bin.Lists.{normal_com, normal_token_com}
use vcash_wallet.SlateVersions.V4Bin.RoundTrip.{normal_args, normal_slate, FitsSlate}
use vcash_wallet.Slate.{
  Input, TokenInput, Output, TokenOutput, Transaction, KernelFeaturesArgs, Slate,
}
use vcash_wallet.Slate.Signing.{Secp}
use vcash_wallet.Slate.Versions.{
  converted, args_to_v4, input_com, output_com, coms_of, token_input_com, token_output_com,
  token_coms_of, slate_to_v4, slate_of_v4,
}
use vcash_wallet.Slate.Versions.Kept.{HasOwnTokens, carried, slate_of_v4-slate_to_v4}
use vcash_wallet.Slatepack.Types.{SlatepackAddress, Slatepack}
use vcash_wallet.Slatepack.Addresses.{SendableOpt}
use vcash_wallet.Slatepack.Crypt.{SlatepackError, recipient_keys}
use vcash_wallet.Slatepack.Packer.{
  SlatepackerArgs, Libraries, create_slatepack, armor_slatepack, deser_slatepack, get_packed_slate,
}
use vcash_wallet.Slatepack.Delivery.{get_packed_slate-encrypted}

-- `Slatepacker::create_slatepack` and `Slatepacker::get_slate`, the conversions included.
unfoldable pub pack_slate : Libraries → SlatepackerArgs → Slate → Outcome SlatepackError Slatepack
unfolding create_slatepack slate_to_v4
pack_slate l args s = create_slatepack l args (slate_to_v4 s)

module _ (l : Libraries) (secp : Secp) (zero_factor blank_commit blank_sig : ℕ) where
  unfoldable pub unpack_slate : Slatepack → Outcome SlatepackError Slate
  unfolding get_packed_slate slate_of_v4
  unpack_slate sp =
      get_packed_slate l sp >>= λ v. ok (slate_of_v4 secp zero_factor blank_commit blank_sig v)

-- A call that has succeeded, with one step more that cannot fail.
ok_after :
    {A B C D : Type 0} (x : Outcome SlatepackError A) (f : A → Outcome SlatepackError B)
    (g : B → Outcome SlatepackError C) (h : C → D) {c : C}
    → (x >>= λ a. f a >>= g) ≡ ok c
    → (x >>= λ a. f a >>= λ b. g b >>= λ z. ok (h z)) ≡ ok (h c)
ok_after x f g h e =
    let (a, is_a, e') = >>=-eq-ok x _ e in
    let (b, is_b, is_c) = >>=-eq-ok (f a) g e' in rw is_a (rw is_b (rw is_c refl))

-- The arguments of a kernel's features are there just for a height lock.
abbrev pub ArgsFor : ℕ → Option KernelFeaturesArgs → Type 0
ArgsFor features args = is_some args ≡ (features == 2)

features_normal :
    (f : OutputFeatures) → features_index (features_of (features_index f)) ≡ features_index f
features_normal OutputFeatures.plain = refl
features_normal OutputFeatures.coinbase = refl
features_normal OutputFeatures.token_issue = refl
features_normal OutputFeatures.token = refl

outputs_normal : (os : List Output) → map normal_com (map output_com os) ≡ map output_com os
outputs_normal [] = refl
outputs_normal (o ∷ os) =
    λ i. record (output_com o) { f = features_normal o.features i } ∷ outputs_normal os i

coms_normal :
    (is : List Input) (os : List Output)
    → map normal_com (map input_com is ++ map output_com os) ≡ map input_com is ++ map output_com os
coms_normal [] os = outputs_normal os
coms_normal (x ∷ is) os =
    λ i. record (input_com x) { f = features_normal x.features i } ∷ coms_normal is os i

token_outputs_normal :
    (os : List TokenOutput)
    → map normal_token_com (map token_output_com os) ≡ map token_output_com os
token_outputs_normal [] = refl
token_outputs_normal (o ∷ os) = λ i.
    record (token_output_com o) { f = features_normal o.features i } ∷ token_outputs_normal os i

token_coms_normal :
    (is : List TokenInput) (os : List TokenOutput)
    → map normal_token_com (map token_input_com is ++ map token_output_com os)
      ≡ map token_input_com is ++ map token_output_com os
token_coms_normal [] os = token_outputs_normal os
token_coms_normal (x ∷ is) os =
    λ i. record (token_input_com x) { f = features_normal x.features i } ∷ token_coms_normal is os i

tx_coms_normal :
    (t : Option Transaction)
    → option_map (map normal_com) (converted coms_of t) ≡ converted coms_of t
tx_coms_normal none = refl
tx_coms_normal (some t) = ap some (coms_normal t.body.inputs t.body.outputs)

tx_token_coms_normal :
    (t : Option Transaction)
    → option_map (map normal_token_com) (converted token_coms_of t) ≡ converted token_coms_of t
tx_token_coms_normal none = refl
tx_token_coms_normal (some t) = ap some (token_coms_normal t.body.token_inputs t.body.token_outputs)

args_normal :
    (flag : Bool) (a : Option KernelFeaturesArgs)
    → is_some a ≡ flag
    → normal_args flag (converted args_to_v4 a) ≡ converted args_to_v4 a
args_normal false none e = refl
args_normal true none e = cc
args_normal false (some a) e = cc
args_normal true (some a) e = refl

slate_to_v4-normal :
    (s : Slate)
    → ArgsFor s.kernel_features s.kernel_features_args
    → ArgsFor s.token_kernel_features s.token_kernel_features_args
    → normal_slate (slate_to_v4 s) ≡ slate_to_v4 s
unfolding slate_to_v4
slate_to_v4-normal s args token_args = λ i. record (slate_to_v4 s) {
  coms = tx_coms_normal s.tx i;
  token_coms = tx_token_coms_normal s.tx i;
  feat_args = args_normal (s.kernel_features == 2) s.kernel_features_args args i;
  token_feat_args =
      args_normal (s.token_kernel_features == 2) s.token_kernel_features_args token_args i;
}

module _ (l : Libraries) (secp : Secp) (zero_factor blank_commit blank_sig : ℕ) where
  -- A slate whose version 4 fits its binary form, whose tokens are all of its own token type and
  -- whose kernels have arguments just for a height lock, packed for recipients whose addresses have
  -- keys, under no sender or one whose address is short and has no capitals in its prefix: the reader with the secret of any of them gets it back from the armored text, if the
  -- payload can be read. Only the participant id is dropped, and the offset and the kernels of the
  -- transaction are made anew.
  pub unpack_slate-pack_slate :
      (sender : Option SlatepackAddress) (x : SlatepackAddress) (xs : List SlatepackAddress)
      (key : Option ℕ) (reader : SlatepackerArgs) (keys : List ℕ) (secret : ℕ) (s : Slate)
      (sp : Slatepack)
      → pack_slate l (record { sender = sender; recipients = x ∷ xs; dec_key = key }) s ≡ ok sp
      → length sp.payload ≤ l.wire.max_read
      → FitsSlate (slate_to_v4 s)
      → HasOwnTokens s
      → ArgsFor s.kernel_features s.kernel_features_args
      → ArgsFor s.token_kernel_features s.token_kernel_features_args
      → SendableOpt l.wire l.bech32 sender
      → recipient_keys l.wire l.bech32 l.age (x ∷ xs) ≡ some keys
      → any (λ k. k == l.age.public_of (l.age.secret_of secret)) keys ≡ true
      → reader.dec_key ≡ some secret
      → (armor_slatepack l sp >>= λ text.
          deser_slatepack l reader text true
          >>= unpack_slate l secp zero_factor blank_commit blank_sig)
        ≡ ok (carried secp zero_factor blank_commit blank_sig s)
  unfolding pack_slate unpack_slate
  unpack_slate-pack_slate sender x xs key reader keys secret s sp packed short fits own args
        token_args sendable known mine mykey =
      let arrives =
        get_packed_slate-encrypted l sender x xs key reader keys secret (slate_to_v4 s) sp packed
          short fits sendable known mine mykey in
      let whole =
        ok_after (armor_slatepack l sp) (λ text. deser_slatepack l reader text true)
          (get_packed_slate l) (slate_of_v4 secp zero_factor blank_commit blank_sig) arrives in
      whole
      ∙ ap ok (
          ap (slate_of_v4 secp zero_factor blank_commit blank_sig)
            (slate_to_v4-normal s args token_args)
          ∙ slate_of_v4-slate_to_v4 secp zero_factor blank_commit blank_sig s own)
