-- ===== src/SlateVersions/V4Bin/Fields.antt =====
-- Reading back the parts of a binary slate (libwallet/src/slate_versions/v4_bin.rs).
use vcash_wallet.Base.{
  ℕ, ◌<◌, ◌^◌, ◌≡◌, refl, sym, ap, Bool, true, false, not, Option, none, some, arith, ltb, ◌==◌,
  is_some, ok,
}
use vcash_wallet.SlateVersions.Wire.{Bytes, Reader, Writer, next, read_if, write_if, Codec, Wire}
use vcash_wallet.SlateVersions.Flags.{has, flags6_bits}
use vcash_wallet.SlateVersions.V4.{SlateStateV4}
use vcash_wallet.SlateVersions.V4Bin.{
  state_byte, state_of, SlateOptFields, status_of_fields, write_opt, read_some, put_state,
  get_state, put_uuid, get_uuid, put_opt_fields, get_opt_fields,
}

-- `get` reads back what `put` wrote of a value, and leaves the rest.
abbrev pub Reads : {A : Type 0} → Reader A → Writer → A → Type 0
Reads p w a = (rest : Bytes) → p (w rest) ≡ ok (a, rest)

abbrev pub option_map : {A : Type 0} → (A → A) → Option A → Option A
option_map f none = none
option_map f (some a) = some (f a)

module _ {A : Type 0} {Fits : A → Type 0} (c : Codec A Fits) where
  pub read_if-write_if :
      (flag : Bool) (default a : A) (rest : Bytes)
      → Fits a
      → (flag ≡ false → a ≡ default)
      → read_if flag c.get default (write_if flag (c.put a) rest) ≡ ok (a, rest)
  read_if-write_if true default a rest fits h = c.get-put a rest fits
  read_if-write_if false default a rest fits h = ap (λ x. ok (x, rest)) (sym (h refl))

pub read_some-write_opt :
    {A : Type 0} (p : Reader A) (w : A → Writer) (norm : A → A) (flag : Bool) (a : Option A)
    (rest : Bytes)
    → ((x : A) → a ≡ some x → Reads p (w x) (norm x))
    → flag ≡ is_some a
    → read_if flag (read_some p) none (write_opt a w rest) ≡ ok (option_map norm a, rest)
read_some-write_opt p w norm true (some a) rest reads e = next _ _ (reads a refl rest) refl
read_some-write_opt p w norm false (some a) rest reads e = cc
read_some-write_opt p w norm true none rest reads e = cc
read_some-write_opt p w norm false none rest reads e = refl

state_of-state_byte : (s : SlateStateV4) → (state_of (state_byte s) ≡ s) × (state_byte s < 2 ^ 8)
state_of-state_byte s = ground arith

abbrev pub FitsFields : SlateOptFields → Type 0
FitsFields o =
    (o.num_parts < 2 ^ 8)
    × (o.amt < 2 ^ 64)
    × (o.fee < 2 ^ 64)
    × (o.feat < 2 ^ 8)
    × (o.token_feat < 2 ^ 8)
    × (o.ttl < 2 ^ 64)

module _ (w : Wire) where
  pub get_state-put_state : (s : SlateStateV4) → Reads (get_state w) (put_state w s) s
  unfolding get_state put_state
  get_state-put_state s rest =
      next _ _ (w.u8.get-put (state_byte s) rest (state_of-state_byte s).1)
        (ap (λ t. ok (t, rest)) (state_of-state_byte s).0)

  pub get_uuid-put_uuid : (u : ℕ) → Reads (get_uuid w) (put_uuid w u) u
  unfolding get_uuid put_uuid
  get_uuid-put_uuid u rest =
      next _ _
        ((w.fixed 16).get-put (w.uuid_bytes u) rest
          (w.length-uuid_bytes u, omega (arith, w.max_read_enough)))
        (ap (λ t. ok (t, rest)) (w.uuid_of-uuid_bytes u))

  pub get_opt_fields-put_opt_fields :
      (o : SlateOptFields) → FitsFields o → Reads (get_opt_fields w) (put_opt_fields w o) o
  unfolding get_opt_fields put_opt_fields
  get_opt_fields-put_opt_fields o (n, a, f, k, t, l) rest =
      let s = status_of_fields o in
      let bits =
        flags6_bits (not (o.num_parts == 2)) (ltb 0 o.amt) (ltb 0 o.fee) (ltb 0 o.feat)
          (ltb 0 o.ttl) (ltb 0 o.token_feat) in
      next _ _ (w.u8.get-put s _ bits.6) (
        next _ _ (read_if-write_if w.u8 (has 1 s) 2 o.num_parts _ n (λ e. ground (arith, bits.0))) (
          next _ _ (read_if-write_if w.u64 (has 2 s) 0 o.amt _ a (λ e. ground (arith, bits.1))) (
            next _ _ (read_if-write_if w.u64 (has 4 s) 0 o.fee _ f (λ e. ground (arith, bits.2))) (
              next _ _ (read_if-write_if w.u8 (has 8 s) 0 o.feat _ k (λ e. ground (arith, bits.3)))
                (next _ _
                  (read_if-write_if w.u64 (has 16 s) 0 o.ttl _ l (λ e. ground (arith, bits.4)))
                  (next _ _
                    (read_if-write_if w.u8 (has 32 s) 0 o.token_feat _ t
                      (λ e. ground (arith, bits.5)))
                    refl))))))
