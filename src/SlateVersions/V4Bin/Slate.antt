-- ===== src/SlateVersions/V4Bin/Slate.antt =====
-- The payment proof, the optional structs and the slate in binary form
-- (libwallet/src/slate_versions/v4_bin.rs).
use vcash_wallet.Base.{ℕ, Option, none, some, List, ◌==◌, is_some, if◌then◌else◌, panic}
use vcash_wallet.SlateVersions.Wire.{Reader, Writer, pure, ◌>>=◌, read_if, write_if, Wire}
use vcash_wallet.SlateVersions.Flags.{has, flags4}
use vcash_wallet.SlateVersions.V4.{
  KernelFeaturesArgsV4, PaymentInfoV4, CommitsV4, TokenCommitsV4, SlateV4,
}
use vcash_wallet.SlateVersions.V4Bin.{
  SlateOptFields, write_opt, read_some, put_state, get_state, put_uuid, get_uuid, put_opt_fields,
  get_opt_fields, put_sigs, get_sigs, put_coms, get_coms, put_token_coms, get_token_coms,
}

pub record SlateOptStructs : Type 0 where
  pub coms : Option (List CommitsV4)
  pub proof : Option PaymentInfoV4
  pub token_type : Option ℕ
  pub token_coms : Option (List TokenCommitsV4)

abbrev pub status_of_structs : SlateOptStructs → ℕ
status_of_structs o =
    flags4 (is_some o.coms) (is_some o.proof) (is_some o.token_type) (is_some o.token_coms)

-- `unwrap` of what bytes are the key or the signature of.
abbrev pub unwrap : Option ℕ → Reader ℕ
unwrap none s = panic
unwrap (some k) s = pure k s

-- The lock height of a height locked kernel, 0 without arguments.
abbrev pub lock_hgt_of : Option KernelFeaturesArgsV4 → ℕ
lock_hgt_of none = 0
lock_hgt_of (some l) = l.lock_hgt

abbrev pub opt_fields : SlateV4 → SlateOptFields
opt_fields s = record {
  num_parts = s.num_parts;
  amt = s.amt;
  fee = s.fee;
  feat = s.feat;
  token_feat = s.token_feat;
  ttl = s.ttl;
}

abbrev pub opt_structs : SlateV4 → SlateOptStructs
opt_structs s = record {
  coms = s.coms;
  proof = s.proof;
  token_type = s.token_type;
  token_coms = s.token_coms;
}

module _ (w : Wire) where
  abbrev pub put_rsig : Option ℕ → Writer
  put_rsig none rest = w.u8.put 0 rest
  put_rsig (some s) rest = w.u8.put 1 ((w.fixed 64).put (w.sig_bytes s) rest)

  unfoldable pub put_proof : PaymentInfoV4 → Writer
  put_proof p rest =
      (w.fixed 32).put (w.key_bytes p.saddr)
        ((w.fixed 32).put (w.key_bytes p.raddr) (put_rsig p.rsig rest))

  abbrev pub get_rsig : ℕ → Reader (Option ℕ)
  get_rsig flag =
      if flag == 0
      then pure none
      else (w.fixed 64).get >>= λ b. unwrap (w.sig_of b) >>= λ s. pure (some s)

  unfoldable pub get_proof : Reader PaymentInfoV4
  get_proof = do
    saddr_bytes ← (w.fixed 32).get
    saddr ← unwrap (w.key_of saddr_bytes)
    raddr_bytes ← (w.fixed 32).get
    raddr ← unwrap (w.key_of raddr_bytes)
    flag ← w.u8.get
    rsig ← get_rsig flag
    pure (record { saddr = saddr; raddr = raddr; rsig = rsig })

  unfoldable pub put_opt_structs : SlateOptStructs → Writer
  unfolding put_coms put_proof put_token_coms
  put_opt_structs o rest = w.u8.put (status_of_structs o) (
      write_opt o.coms (put_coms w) (
        write_opt o.proof put_proof (
          write_opt o.token_type w.token_key.put (write_opt o.token_coms (put_token_coms w) rest))))

  unfoldable pub get_opt_structs : Reader SlateOptStructs
  unfolding get_coms get_proof get_token_coms
  get_opt_structs = do
    status ← w.u8.get
    coms ← read_if (has 1 status) (read_some (get_coms w)) none
    proof ← read_if (has 2 status) (read_some get_proof) none
    token_type ← read_if (has 4 status) (read_some w.token_key.get) none
    token_coms ← read_if (has 8 status) (read_some (get_token_coms w)) none
    pure (record { coms = coms; proof = proof; token_type = token_type; token_coms = token_coms })

  abbrev pub get_args : Reader (Option KernelFeaturesArgsV4)
  get_args = w.u64.get >>= λ h. pure (some (record { lock_hgt = h }))

  unfoldable pub put_slate : SlateV4 → Writer
  unfolding put_uuid put_state put_opt_fields put_sigs put_opt_structs
  put_slate s rest = w.u16.put s.ver.version (
      w.u16.put s.ver.block_header_version (
        (put_uuid w) s.id (
          (put_state w) s.sta (
            w.blinding_factor.put s.off (
              (put_opt_fields w) (opt_fields s) (
                (put_sigs w) s.sigs (
                  put_opt_structs (opt_structs s) (
                    write_if (s.feat == 2) (w.u64.put (lock_hgt_of s.feat_args)) (
                      write_if (s.token_feat == 2) (w.u64.put (lock_hgt_of s.token_feat_args))
                        rest)))))))))

  unfoldable pub get_slate : Reader SlateV4
  unfolding get_uuid get_state get_opt_fields get_sigs get_opt_structs
  get_slate = do
    version ← w.u16.get
    block_header_version ← w.u16.get
    id ← (get_uuid w)
    sta ← (get_state w)
    off ← w.blinding_factor.get
    opts ← (get_opt_fields w)
    sigs ← (get_sigs w)
    structs ← get_opt_structs
    feat_args ← read_if (opts.feat == 2) get_args none
    token_feat_args ← read_if (opts.token_feat == 2) get_args none
    pure (record {
      ver = record { version = version; block_header_version = block_header_version };
      id = id;
      sta = sta;
      off = off;
      num_parts = opts.num_parts;
      amt = opts.amt;
      token_type = structs.token_type;
      fee = opts.fee;
      feat = opts.feat;
      token_feat = opts.token_feat;
      ttl = opts.ttl;
      sigs = sigs;
      coms = structs.coms;
      token_coms = structs.token_coms;
      proof = structs.proof;
      feat_args = feat_args;
      token_feat_args = token_feat_args;
    })
