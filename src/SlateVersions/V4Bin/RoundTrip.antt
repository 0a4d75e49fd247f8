-- ===== src/SlateVersions/V4Bin/RoundTrip.antt =====
-- A binary slate read back (libwallet/src/slate_versions/v4_bin.rs).
use vcash_wallet.Base.{
  ℕ, ◌<◌, ◌^◌, ◌≡◌, refl, ap, Bool, true, false, Option, none, some, List, arith, length, map, ◌==◌,
  is_some, if◌then◌else◌, ok,
}
use vcash_wallet.SlateVersions.Wire.{Bytes, Reader, next, ◌>>=◌, read_if, write_if, Wire}
use vcash_wallet.SlateVersions.Flags.{has, flags4_bits}
use vcash_wallet.SlateVersions.V4.{KernelFeaturesArgsV4, PaymentInfoV4, SlateV4}
use vcash_wallet.SlateVersions.V4Bin.{put_coms, get_coms, put_token_coms, get_token_coms}
use vcash_wallet.SlateVersions.V4Bin.Fields.{
  Reads, option_map, read_some-write_opt, FitsFields, get_state-put_state, get_uuid-put_uuid,
  get_opt_fields-put_opt_fields,
}
use vcash_wallet.SlateVersions.V4Bin.Lists.{
  option_map_id, normal_com, normal_token_com, get_sigs-put_sigs, get_coms-put_coms,
  get_token_coms-put_token_coms,
}
use vcash_wallet.SlateVersions.V4Bin.Slate.{
  SlateOptStructs, status_of_structs, unwrap, put_rsig, get_rsig, put_proof, get_proof,
  put_opt_structs, get_opt_structs, lock_hgt_of, get_args, opt_fields, opt_structs, put_slate,
  get_slate,
}

-- The lists that are there have a length that is written in 16 bits.
abbrev pub FitsCount : {A : Type 0} → Option (List A) → Type 0
FitsCount xs = (ys : _) → xs ≡ some ys → length ys < 2 ^ 16

abbrev pub normal_structs : SlateOptStructs → SlateOptStructs
normal_structs o = record {
  coms = option_map (map normal_com) o.coms;
  proof = o.proof;
  token_type = o.token_type;
  token_coms = option_map (map normal_token_com) o.token_coms;
}

-- The arguments of the kernel's features are written for a height lock only, and are then there.
abbrev pub normal_args : Bool → Option KernelFeaturesArgsV4 → Option KernelFeaturesArgsV4
normal_args flag args = if flag then some (record { lock_hgt = lock_hgt_of args }) else none

abbrev pub normal_slate : SlateV4 → SlateV4
normal_slate s = record s {
  coms = option_map (map normal_com) s.coms;
  token_coms = option_map (map normal_token_com) s.token_coms;
  feat_args = normal_args (s.feat == 2) s.feat_args;
  token_feat_args = normal_args (s.token_feat == 2) s.token_feat_args;
}

abbrev pub FitsSlate : SlateV4 → Type 0
FitsSlate s =
    (s.ver.version < 2 ^ 16)
    × (s.ver.block_header_version < 2 ^ 16)
    × FitsFields (opt_fields s)
    × (length s.sigs < 2 ^ 8)
    × FitsCount s.coms
    × FitsCount s.token_coms
    × (lock_hgt_of s.feat_args < 2 ^ 64)
    × (lock_hgt_of s.token_feat_args < 2 ^ 64)

next-unwrap :
    {B : Type 0} {o : Option ℕ} {k : ℕ} (f : ℕ → Reader B) (rest : Bytes) {r : _}
    → o ≡ some k
    → f k rest ≡ r
    → (unwrap o >>= f) rest ≡ r
next-unwrap f rest e e' = next _ f (ap (λ o. unwrap o rest) e) e'

module _ (w : Wire) where
  get_rsig-put_rsig :
      {B : Type 0} (a : Option ℕ) (rest : Bytes) (f : Option ℕ → Reader B) {r : _}
      → f a rest ≡ r
      → (w.u8.get >>= λ flag. get_rsig w flag >>= f) (put_rsig w a rest) ≡ r
  get_rsig-put_rsig none rest f e = next _ _ (w.u8.get-put 0 rest (omega arith)) (next _ f refl e)
  get_rsig-put_rsig (some s) rest f e = next _ _ (w.u8.get-put 1 _ (omega arith)) (
      next _ f
        (next _ _
          ((w.fixed 64).get-put (w.sig_bytes s) rest
            (w.length-sig_bytes s, omega (arith, w.max_read_enough)))
          (next-unwrap _ rest (w.sig_of-sig_bytes s) refl))
        e)

  get_key-put_key :
      {B : Type 0} (k : ℕ) (rest : Bytes) (f : ℕ → Reader B) {r : _}
      → f k rest ≡ r
      → ((w.fixed 32).get >>= λ b. unwrap (w.key_of b) >>= f)
          ((w.fixed 32).put (w.key_bytes k) rest)
        ≡ r
  get_key-put_key k rest f e =
      next (w.fixed 32).get _
        ((w.fixed 32).get-put (w.key_bytes k) rest
          (w.length-key_bytes k, omega (arith, w.max_read_enough)))
        (next-unwrap f rest (w.key_of-key_bytes k) e)

  get_proof-put_proof : (p : PaymentInfoV4) → Reads (get_proof w) (put_proof w p) p
  unfolding get_proof put_proof
  get_proof-put_proof p rest =
      get_key-put_key p.saddr _ _
        (get_key-put_key p.raddr _ _ (get_rsig-put_rsig p.rsig rest _ refl))

  get_opt_structs-put_opt_structs :
      (o : SlateOptStructs)
      → FitsCount o.coms
      → FitsCount o.token_coms
      → Reads (get_opt_structs w) (put_opt_structs w o) (normal_structs o)
  unfolding get_opt_structs put_opt_structs
  get_opt_structs-put_opt_structs o fits_coms fits_token rest =
      let bits =
        flags4_bits (is_some o.coms) (is_some o.proof) (is_some o.token_type)
          (is_some o.token_coms) in
      let s = status_of_structs o in
      let coms =
        read_some-write_opt (get_coms w) (put_coms w) (map normal_com) (has 1 s) o.coms _
          (λ ys e. get_coms-put_coms w ys (fits_coms ys e)) bits.0 in
      let proof =
        read_some-write_opt (get_proof w) (put_proof w) (λ x. x) (has 2 s) o.proof _
          (λ p e. get_proof-put_proof p) bits.1 in
      let token_type =
        read_some-write_opt w.token_key.get w.token_key.put (λ x. x) (has 4 s) o.token_type _
          (λ k e r. w.token_key.get-put k r tt) bits.2 in
      let token_coms =
        read_some-write_opt (get_token_coms w) (put_token_coms w) (map normal_token_com) (has 8 s)
          o.token_coms rest (λ ys e. get_token_coms-put_token_coms w ys (fits_token ys e)) bits.3 in
      next _ _ (w.u8.get-put s _ bits.4) (
        next _ _ coms (
          next _ _ proof (
            next _ _ token_type (
              next _ _ token_coms (λ i. ok (
                record {
                  coms = option_map (map normal_com) o.coms;
                  proof = option_map_id o.proof i;
                  token_type = option_map_id o.token_type i;
                  token_coms = option_map (map normal_token_com) o.token_coms;
                },
                rest,
              ))))))

  get_args-put_args :
      (flag : Bool) (args : Option KernelFeaturesArgsV4) (rest : Bytes)
      → lock_hgt_of args < 2 ^ 64
      → read_if flag (get_args w) none (write_if flag (w.u64.put (lock_hgt_of args)) rest)
        ≡ ok (normal_args flag args, rest)
  get_args-put_args true args rest fits = next _ _ (w.u64.get-put (lock_hgt_of args) rest fits) refl
  get_args-put_args false args rest fits = refl

  -- A slate whose numbers and lengths fit is read back from its binary form as it was written, with
  -- what follows it left over, save that unknown output features become plain ones and that the
  -- arguments of a kernel's features are kept for a height lock only.
  pub get_slate-put_slate :
      (s : SlateV4)
      → FitsSlate s
      → (rest : Bytes) → get_slate w (put_slate w s rest) ≡ ok (normal_slate s, rest)
  unfolding get_slate put_slate
  get_slate-put_slate s (v, h, fields, sigs, coms, token_coms, lock, token_lock) rest =
      next _ _ (w.u16.get-put s.ver.version _ v) (
        next _ _ (w.u16.get-put s.ver.block_header_version _ h) (
          next _ _ (get_uuid-put_uuid w s.id _) (
            next _ _ (get_state-put_state w s.sta _) (
              next _ _ (w.blinding_factor.get-put s.off _ tt) (
                next _ _ (get_opt_fields-put_opt_fields w (opt_fields s) fields _) (
                  next _ _ (get_sigs-put_sigs w s.sigs sigs _) (
                    next _ _ (get_opt_structs-put_opt_structs (opt_structs s) coms token_coms _) (
                      next _ _ (get_args-put_args (s.feat == 2) s.feat_args _ lock) (
                        next _ _
                          (get_args-put_args (s.token_feat == 2) s.token_feat_args _ token_lock)
                          refl)))))))))
