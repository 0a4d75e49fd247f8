-- ===== src/SlateVersions/V4Bin/Lists.antt =====
-- Reading back the signatures and the commitments of a binary slate
-- (libwallet/src/slate_versions/v4_bin.rs).
use vcash_wallet.Base.{
  ℕ, ◌%◌, ◌<◌, ◌^◌, ◌≡◌, refl, ap, ◌∙◌, Option, none, some, List, [], ◌∷◌, arith, length, map, ◌==◌,
  is_some, ok,
}
use vcash_wallet.SlateVersions.Wire.{Reader, Writer, next, read_all, write_all, Wire}
use vcash_wallet.SlateVersions.V4.{ParticipantDataV4, CommitsV4, TokenCommitsV4}
use vcash_wallet.SlateVersions.V4Bin.{
  features_of, features_index, tag, put_sig, get_sig, put_sigs, get_sigs, put_com, get_com,
  put_coms, get_coms, put_token_com, get_token_com, put_token_coms, get_token_coms,
}
use vcash_wallet.SlateVersions.V4Bin.Fields.{Reads, read_some-write_opt, option_map}

pub option_map_id : {A : Type 0} (a : Option A) → option_map (λ x. x) a ≡ a
option_map_id none = refl
option_map_id (some a) = refl

module _ {A : Type 0} (p : Reader A) (w : A → Writer) (norm : A → A) where
  pub read_all-write_all :
      ((x : A) → Reads p (w x) (norm x))
      → (xs : List A) → Reads (read_all p (length xs)) (write_all w xs) (map norm xs)
  read_all-write_all reads [] rest = refl
  read_all-write_all reads (x ∷ xs) rest =
      next _ _ (reads x (write_all w xs rest)) (next _ _ (read_all-write_all reads xs rest) refl)

pub tag-is_some : (a : Option ℕ) → ((tag a == 1) ≡ is_some a) × (tag a < 2 ^ 8)
tag-is_some none = ground arith
tag-is_some (some a) = ground arith

-- What a commitment is after it was written and read: its features are known ones.
abbrev pub normal_features : ℕ → ℕ
normal_features f = features_index (features_of f)

abbrev pub normal_com : CommitsV4 → CommitsV4
normal_com o = record o { f = normal_features o.f }

abbrev pub normal_token_com : TokenCommitsV4 → TokenCommitsV4
normal_token_com o = record o { f = normal_features o.f }

pub map_id : {A : Type 0} (xs : List A) → map (λ x. x) xs ≡ xs
map_id [] = refl
map_id (x ∷ xs) = ap (x ∷◌) (map_id xs)

module _ (w : Wire) where
  pub get_sig-put_sig : (s : ParticipantDataV4) → Reads (get_sig w) (put_sig w s) s
  unfolding get_sig put_sig
  get_sig-put_sig s rest =
      let part =
        read_some-write_opt w.signature.get w.signature.put (λ x. x) (tag s.part == 1) s.part rest
          (λ x e r. w.signature.get-put x r tt) (tag-is_some s.part).0 in
      next _ _ (w.u8.get-put (tag s.part) _ (tag-is_some s.part).1) (
        next _ _ (w.public_key.get-put s.xs _ tt) (
          next _ _ (w.public_key.get-put s.nonce _ tt)
            (next _ _ part (ap (λ x. ok (record s { part = x }, rest)) (option_map_id s.part)))))

  pub get_sigs-put_sigs :
      (sigs : List ParticipantDataV4)
      → length sigs < 2 ^ 8
      → Reads (get_sigs w) (put_sigs w sigs) sigs
  unfolding get_sigs put_sigs
  get_sigs-put_sigs sigs fits rest =
      let n = length sigs % 2 ^ 8 in
      let e : n ≡ length sigs = omega arith in
      next _ _ (w.u8.get-put n _ (omega arith)) (
        ap (λ k. read_all (get_sig w) k (write_all (put_sig w) sigs rest)) e
        ∙ (read_all-write_all (get_sig w) (put_sig w) (λ x. x) get_sig-put_sig sigs rest
            ∙ ap (λ xs. ok (xs, rest)) (map_id sigs)))

  pub get_com-put_com : (o : CommitsV4) → Reads (get_com w) (put_com w o) (normal_com o)
  unfolding get_com put_com
  get_com-put_com o rest =
      let proof =
        read_some-write_opt w.range_proof.get w.range_proof.put (λ x. x) (tag o.p == 1) o.p rest
          (λ x e r. w.range_proof.get-put x r tt) (tag-is_some o.p).0 in
      next _ _ (w.u8.get-put (tag o.p) _ (tag-is_some o.p).1) (
        next _ _ (w.output_features.get-put (features_of o.f) _ tt) (
          next _ _ (w.commitment.get-put o.c _ tt) (
            next _ _ proof (
              ap (λ x. ok (record { f = normal_features o.f; c = o.c; p = x }, rest))
                (option_map_id o.p)))))

  pub get_coms-put_coms :
      (coms : List CommitsV4)
      → length coms < 2 ^ 16
      → Reads (get_coms w) (put_coms w coms) (map normal_com coms)
  unfolding get_coms put_coms
  get_coms-put_coms coms fits rest =
      let n = length coms % 2 ^ 16 in
      let e : n ≡ length coms = omega arith in
      next _ _ (w.u16.get-put n _ (omega arith)) (
        ap (λ k. read_all (get_com w) k (write_all (put_com w) coms rest)) e
        ∙ read_all-write_all (get_com w) (put_com w) normal_com get_com-put_com coms rest)

  pub get_token_com-put_token_com :
      (o : TokenCommitsV4) → Reads (get_token_com w) (put_token_com w o) (normal_token_com o)
  unfolding get_token_com put_token_com
  get_token_com-put_token_com o rest =
      let proof =
        read_some-write_opt w.range_proof.get w.range_proof.put (λ x. x) (tag o.p == 1) o.p rest
          (λ x e r. w.range_proof.get-put x r tt) (tag-is_some o.p).0 in
      next _ _ (w.u8.get-put (tag o.p) _ (tag-is_some o.p).1) (
        next _ _ (w.token_key.get-put o.k _ tt) (
          next _ _ (w.output_features.get-put (features_of o.f) _ tt) (
            next _ _ (w.commitment.get-put o.c _ tt) (
              next _ _ proof (
                ap (λ x. ok (record { k = o.k; f = normal_features o.f; c = o.c; p = x }, rest))
                  (option_map_id o.p))))))

  pub get_token_coms-put_token_coms :
      (coms : List TokenCommitsV4)
      → length coms < 2 ^ 16
      → Reads (get_token_coms w) (put_token_coms w coms) (map normal_token_com coms)
  unfolding get_token_coms put_token_coms
  get_token_coms-put_token_coms coms fits rest =
      let n = length coms % 2 ^ 16 in
      let e : n ≡ length coms = omega arith in
      next _ _ (w.u16.get-put n _ (omega arith)) (
        ap (λ k. read_all (get_token_com w) k (write_all (put_token_com w) coms rest)) e
        ∙ read_all-write_all (get_token_com w) (put_token_com w) normal_token_com
            get_token_com-put_token_com coms rest)
