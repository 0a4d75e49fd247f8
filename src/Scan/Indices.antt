-- ===== src/Scan/Indices.antt =====
-- The child indices after the repair (libwallet/src/internal/scan.rs).
use vcash_wallet.Base.{
  some-path, ℕ, ◌+◌, ◌≤◌, ◌<◌, ◌^◌, ◌≡◌, refl, sym, ap, subst, ◌∙◌, ◌⊎◌, true, ◌&&◌, Option, none,
  some, List, [], ◌∷◌, All, any, arith, ltb, ◌==◌, ==_iff, if◌then◌else◌, Bool-cases, Option-cases,
  inl, inr,
}
use vcash_wallet.Env.{Env}
use vcash_wallet.Types.Status.{Identifier, Time}
use vcash_wallet.Backend.{Wallet}
use vcash_wallet.Backend.Table.{put_count}
use vcash_wallet.Scan.{OutputResult, FoundParents, found_index, raise_found, restore_outs}

-- An index of at least `n` was found below this account.
abbrev pub Covers : Identifier → ℕ → FoundParents → Type 0
Covers k n found = (i : ℕ) × (found_index k found ≡ some i) × (n ≤ i)

-- Every index that was found has one after it.
abbrev pub AllSmall : FoundParents → Type 0
AllSmall found = All (λ (e : Identifier × ℕ). e.1 + 1 < 2 ^ 32) found

none-ne-some : {m : ℕ} → ◌≡◌ {A = Option ℕ} none (some m) → ⊥
none-ne-some e = cc

found_index-put_count :
    (k j i : ℕ) (found : FoundParents)
    → found_index k (put_count j i found) ≡ (if j == k then some i else found_index k found)
found_index-put_count k j i [] = refl
found_index-put_count k j i ((a, b) ∷ found) = ground (arith, found_index-put_count k j i found)

put_count-AllSmall :
    (j i : ℕ) (found : FoundParents)
    → i + 1 < 2 ^ 32
    → AllSmall found
    → AllSmall (put_count j i found)
put_count-AllSmall j i [] small all = (small, tt)
put_count-AllSmall j i ((a, b) ∷ found) small (first, rest) = elim (Bool-cases (a == j)) [
  | inl own ↦ rw own (small, rest)
  | inr other ↦ rw other (first, put_count-AllSmall j i found small rest)
]

put_count-Covers :
    (k j n i : ℕ) (found : FoundParents)
    → ((m : ℕ) → found_index j found ≡ some m → m ≤ i)
    → Covers k n found
    → Covers k n (put_count j i found)
put_count-Covers k j n i found above (m, there, le) = elim (Bool-cases (j == k)) [
  | inl own ↦ (
    i,
    found_index-put_count k j i found ∙ rw own refl,
    omega (arith, le, above m (ap (λ x. found_index x found) ((==_iff j k).0 own) ∙ there)),
  )
  | inr other ↦ (m, found_index-put_count k j i found ∙ (rw other there), le)
]

module _ (env : Env) (parent_path : Identifier → Identifier) (now : Time) (c : OutputResult)
    (found : FoundParents) where
  -- The account keeps a larger index, or it gets the output's.
  raise_found-cases :
      ((i : ℕ) × (found_index (parent_path c.key_id) found ≡ some i)
        × (c.n_child ≤ i)
        × (raise_found env parent_path now c found ≡ found))
      ⊎ (((m : ℕ) → found_index (parent_path c.key_id) found ≡ some m → m ≤ c.n_child)
          × (raise_found env parent_path now c found
              ≡ put_count (parent_path c.key_id) c.n_child found))
  raise_found-cases = elim (Option-cases (found_index (parent_path c.key_id) found)) [
    | inl new ↦ inr (λ m there. absurd (none-ne-some (sym new ∙ there)), rw (new, raise_found) refl)
    | inr (i, old) ↦ elim (Bool-cases (ltb c.n_child i)) [
      | inl below ↦ inl (i, old, ground (arith, below), rw (old, raise_found) (rw below refl))
      | inr above ↦ inr (
        λ m there. ground (arith, some-path (sym there ∙ old), above),
        rw (old, raise_found) (rw above refl),
      )
    ]
  ]

  raise_found-Covers :
      Covers (parent_path c.key_id) c.n_child (raise_found env parent_path now c found)
  raise_found-Covers = elim raise_found-cases [
    | inl (i, there, le, same) ↦ rw same (i, there, le)
    | inr (above, put) ↦ rw put (
      c.n_child,
      found_index-put_count (parent_path c.key_id) (parent_path c.key_id) c.n_child found
          ∙ ground arith,
      omega arith,
    )
  ]

  raise_found-keeps :
      (k n : ℕ) → Covers k n found → Covers k n (raise_found env parent_path now c found)
  raise_found-keeps k n e = elim raise_found-cases [
    | inl (i, there, le, same) ↦ rw same e
    | inr (above, put) ↦
        rw put (put_count-Covers k (parent_path c.key_id) n c.n_child found above e)
  ]

  raise_found-AllSmall :
      c.n_child + 1 < 2 ^ 32 → AllSmall found → AllSmall (raise_found env parent_path now c found)
  raise_found-AllSmall small all = elim raise_found-cases [
    | inl (i, there, le, same) ↦ rw same all
    | inr (above, put) ↦
        rw put (put_count-AllSmall (parent_path c.key_id) c.n_child found small all)
  ]

module _ (env : Env) (parent_path : Identifier → Identifier) (now : Time) where
  restore_outs-keeps :
      (k n : ℕ) (ms : List OutputResult) (found : FoundParents) (w : Wallet)
      → Covers k n found
      → Covers k n (restore_outs env parent_path now ms found w).0
  unfolding restore_outs
  restore_outs-keeps k n [] found w e = e
  restore_outs-keeps k n (x ∷ xs) found w e =
      restore_outs-keeps k n xs _ _ (raise_found-keeps env parent_path now x found k n e)

  pub restore_outs-Covers :
      (k n : ℕ) (ms : List OutputResult) (found : FoundParents) (w : Wallet)
      → any (λ (x : OutputResult). parent_path x.key_id == k && x.n_child == n) ms ≡ true
      → Covers k n (restore_outs env parent_path now ms found w).0
  unfolding restore_outs
  restore_outs-Covers k n [] found w e = cc
  restore_outs-Covers k n (x ∷ xs) found w e =
      elim (Bool-cases (parent_path x.key_id == k && x.n_child == n)) [
        | inl own ↦
            (let is_k : parent_path x.key_id ≡ k = ground (arith, own) in
              let is_n : x.n_child ≡ n = ground (arith, own) in
              restore_outs-keeps k n xs _ _ (
                subst (λ z. Covers z n (raise_found env parent_path now x found)) is_k
                  (subst
                    (λ z. Covers (parent_path x.key_id) z (raise_found env parent_path now x found))
                    is_n (raise_found-Covers env parent_path now x found))))
        | inr other ↦ restore_outs-Covers k n xs _ _ (rw other at e)
      ]

  pub restore_outs-AllSmall :
      (ms : List OutputResult) (found : FoundParents) (w : Wallet)
      → All (λ (x : OutputResult). x.n_child + 1 < 2 ^ 32) ms
      → AllSmall found
      → AllSmall (restore_outs env parent_path now ms found w).0
  unfolding restore_outs
  restore_outs-AllSmall [] found w small all = all
  restore_outs-AllSmall (x ∷ xs) found w (first, rest) all =
      restore_outs-AllSmall xs _ _ rest (raise_found-AllSmall env parent_path now x found first all)
