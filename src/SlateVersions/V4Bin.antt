-- ===== src/SlateVersions/V4Bin.antt =====
-- The binary form of a slate of version 4 (libwallet/src/slate_versions/v4_bin.rs), with the
-- conversions of `OutputFeaturesV4` (libwallet/src/slate.rs).
pub mod Fields
pub mod Lists
pub mod Slate
pub mod RoundTrip
use vcash_wallet.Base.{
  ℕ, zero, suc, ◌%◌, ◌^◌, Bool, true, false, not, Option, none, some, List, [], ◌∷◌, length, ltb,
  ◌==◌, is_some, if◌then◌else◌, panic,
}
use vcash_wallet.SlateVersions.Wire.{
  Bytes, Reader, Writer, pure, ◌>>=◌, read_if, write_if, read_all, write_all, Wire, OutputFeatures,
}
use vcash_wallet.SlateVersions.Flags.{set, has, flags6}
use vcash_wallet.SlateVersions.V4.{SlateStateV4, ParticipantDataV4, CommitsV4, TokenCommitsV4}

abbrev pub state_byte : SlateStateV4 → ℕ
state_byte SlateStateV4.unknown = 0
state_byte SlateStateV4.standard1 = 1
state_byte SlateStateV4.standard2 = 2
state_byte SlateStateV4.standard3 = 3
state_byte SlateStateV4.invoice1 = 4
state_byte SlateStateV4.invoice2 = 5
state_byte SlateStateV4.invoice3 = 6

abbrev pub state_of : ℕ → SlateStateV4
state_of b =
    if b == 1
    then SlateStateV4.standard1
    else if b == 2
    then SlateStateV4.standard2
    else if b == 3
    then SlateStateV4.standard3
    else if b == 4
    then SlateStateV4.invoice1
    else if b == 5
    then SlateStateV4.invoice2
    else if b == 6
    then SlateStateV4.invoice3
    else SlateStateV4.unknown

-- The conversions between `OutputFeatures` and `OutputFeaturesV4`.
abbrev pub features_of : ℕ → OutputFeatures
features_of f =
    if f == 1
    then OutputFeatures.coinbase
    else if f == 98
    then OutputFeatures.token_issue
    else if f == 99
    then OutputFeatures.token
    else OutputFeatures.plain

abbrev pub features_index : OutputFeatures → ℕ
features_index OutputFeatures.plain = 0
features_index OutputFeatures.coinbase = 1
features_index OutputFeatures.token_issue = 98
features_index OutputFeatures.token = 99

-- `SlateOptFields`
pub record SlateOptFields : Type 0 where
  pub num_parts : ℕ
  pub amt : ℕ
  pub fee : ℕ
  pub feat : ℕ
  pub token_feat : ℕ
  pub ttl : ℕ

abbrev pub status_of_fields : SlateOptFields → ℕ
status_of_fields o =
    flags6 (not (o.num_parts == 2)) (ltb 0 o.amt) (ltb 0 o.fee) (ltb 0 o.feat) (ltb 0 o.ttl)
      (ltb 0 o.token_feat)

abbrev pub write_opt : {A : Type 0} → Option A → (A → Writer) → Writer
write_opt none w rest = rest
write_opt (some a) w rest = w a rest

-- 1 in front of a value, 0 for none; `tag` is written first, the value last.
abbrev pub tag : Option ℕ → ℕ
tag p = if is_some p then 1 else 0

abbrev pub read_some : {A : Type 0} → Reader A → Reader (Option A)
read_some p = p >>= λ a. pure (some a)

module _ (w : Wire) where
  unfoldable pub put_state : SlateStateV4 → Writer
  put_state s = w.u8.put (state_byte s)

  unfoldable pub get_state : Reader SlateStateV4
  get_state = w.u8.get >>= λ b. pure (state_of b)

  unfoldable pub put_uuid : ℕ → Writer
  put_uuid u = (w.fixed 16).put (w.uuid_bytes u)

  unfoldable pub get_uuid : Reader ℕ
  get_uuid = (w.fixed 16).get >>= λ b. pure (w.uuid_of b)

  unfoldable pub put_opt_fields : SlateOptFields → Writer
  put_opt_fields o rest =
      let status = status_of_fields o in
      w.u8.put status (
        write_if (has 1 status) (w.u8.put o.num_parts) (
          write_if (has 2 status) (w.u64.put o.amt) (
            write_if (has 4 status) (w.u64.put o.fee) (
              write_if (has 8 status) (w.u8.put o.feat) (
                write_if (has 16 status) (w.u64.put o.ttl)
                  (write_if (has 32 status) (w.u8.put o.token_feat) rest))))))

  unfoldable pub get_opt_fields : Reader SlateOptFields
  get_opt_fields = do
    status ← w.u8.get
    num_parts ← read_if (has 1 status) w.u8.get 2
    amt ← read_if (has 2 status) w.u64.get 0
    fee ← read_if (has 4 status) w.u64.get 0
    feat ← read_if (has 8 status) w.u8.get 0
    ttl ← read_if (has 16 status) w.u64.get 0
    token_feat ← read_if (has 32 status) w.u8.get 0
    pure (record {
      num_parts = num_parts;
      amt = amt;
      fee = fee;
      feat = feat;
      token_feat = token_feat;
      ttl = ttl;
    })

  -- The signatures: a u8 for their number, then each one.
  unfoldable pub put_sig : ParticipantDataV4 → Writer
  put_sig s rest =
      w.u8.put (tag s.part)
        (w.public_key.put s.xs (w.public_key.put s.nonce (write_opt s.part w.signature.put rest)))

  unfoldable pub get_sig : Reader ParticipantDataV4
  get_sig = do
    has_partial ← w.u8.get
    xs ← w.public_key.get
    nonce ← w.public_key.get
    part ← read_if (has_partial == 1) (read_some w.signature.get) none
    pure (record { xs = xs; nonce = nonce; part = part })

  unfoldable pub put_sigs : List ParticipantDataV4 → Writer
  unfolding put_sig
  put_sigs sigs rest = w.u8.put (length sigs % 2 ^ 8) (write_all put_sig sigs rest)

  unfoldable pub get_sigs : Reader (List ParticipantDataV4)
  unfolding get_sig
  get_sigs = w.u8.get >>= λ n. read_all get_sig n

  unfoldable pub put_com : CommitsV4 → Writer
  put_com o rest = w.u8.put (tag o.p) (
      w.output_features.put (features_of o.f)
        (w.commitment.put o.c (write_opt o.p w.range_proof.put rest)))

  unfoldable pub get_com : Reader CommitsV4
  get_com = do
    is_output ← w.u8.get
    f ← w.output_features.get
    c ← w.commitment.get
    p ← read_if (is_output == 1) (read_some w.range_proof.get) none
    pure (record { f = features_index f; c = c; p = p })

  unfoldable pub put_coms : List CommitsV4 → Writer
  unfolding put_com
  put_coms coms rest = w.u16.put (length coms % 2 ^ 16) (write_all put_com coms rest)

  unfoldable pub get_coms : Reader (List CommitsV4)
  unfolding get_com
  get_coms = w.u16.get >>= λ n. read_all get_com n

  unfoldable pub put_token_com : TokenCommitsV4 → Writer
  put_token_com o rest = w.u8.put (tag o.p) (
      w.token_key.put o.k (
        w.output_features.put (features_of o.f)
          (w.commitment.put o.c (write_opt o.p w.range_proof.put rest))))

  unfoldable pub get_token_com : Reader TokenCommitsV4
  get_token_com = do
    is_output ← w.u8.get
    k ← w.token_key.get
    f ← w.output_features.get
    c ← w.commitment.get
    p ← read_if (is_output == 1) (read_some w.range_proof.get) none
    pure (record { k = k; f = features_index f; c = c; p = p })

  unfoldable pub put_token_coms : List TokenCommitsV4 → Writer
  unfolding put_token_com
  put_token_coms coms rest = w.u16.put (length coms % 2 ^ 16) (write_all put_token_com coms rest)

  unfoldable pub get_token_coms : Reader (List TokenCommitsV4)
  unfolding get_token_com
  get_token_coms = w.u16.get >>= λ n. read_all get_token_com n
