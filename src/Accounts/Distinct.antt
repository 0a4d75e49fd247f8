-- ===== src/Accounts/Distinct.antt =====
-- Accounts stay apart (libwallet/src/internal/keys.rs).
use vcash_wallet.Base.{
  ℕ, ◌+◌, ◌%◌, ◌^◌, ◌≤◌, ◌<◌, ◌≡◌, Bool, false, some, List, [], ◌∷◌, arith, ltb, ◌==◌, find?, any,
  All, if◌then◌else◌, ok, ok-path, Bool-cases, subst, inl, inr, ap,
}
use vcash_wallet.Types.Status.{Identifier}
use vcash_wallet.Backend.{AcctPathMapping, Wallet}
use vcash_wallet.Backend.Table.{put}
use vcash_wallet.Accounts.{
  Paths, has_label, save_acct_path, get_acct_path, highest_from, highest_entry, next_path,
  new_acct_path,
}

All-weaken :
    {A : Type 0} (P Q : A → Type 0) → ((x : A) → P x → Q x) → (xs : List A) → All P xs → All Q xs
All-weaken P Q f [] hs = tt
All-weaken P Q f (x ∷ xs) hs = (f x hs.0, All-weaken P Q f xs hs.1)

module _ (paths : Paths) where
  abbrev pub index : AcctPathMapping → ℕ
  index a = paths.first a.path

  abbrev pub Apart : AcctPathMapping → AcctPathMapping → Type 0
  Apart a b = ((a.label == b.label) ≡ false) × ((index a == index b) ≡ false)

  -- No two accounts share a label or a first index, so they derive different keys.
  abbrev pub Distinct : List AcctPathMapping → Type 0
  Distinct [] = Unit
  Distinct (a ∷ others) = All (Apart a) others × Distinct others

  -- There is an account number after the highest one.
  abbrev pub HasRoom : List AcctPathMapping → Type 0
  HasRoom xs = All (λ a. index a + 1 < 2 ^ 32) xs

  highest_from_le :
      (best : AcctPathMapping) (xs : List AcctPathMapping)
      → (index best ≤ index (highest_from paths best xs))
        × All (λ a. index a ≤ index (highest_from paths best xs)) xs
  highest_from_le best [] = (omega arith, tt)
  highest_from_le best (x ∷ xs) =
      let better = if ltb (index x) (index best) then best else x in
      let rest = highest_from_le better xs in
      let first : index best ≤ index better = ground arith in
      let second : index x ≤ index better = ground arith in
      (omega (arith, rest.0), (omega (arith, rest.0), rest.1))

  -- The highest entry is one of them, so it has room too.
  highest_from-HasRoom :
      (best : AcctPathMapping) (xs : List AcctPathMapping)
      → index best + 1 < 2 ^ 32
      → HasRoom xs
      → index (highest_from paths best xs) + 1 < 2 ^ 32
  highest_from-HasRoom best [] h room = h
  highest_from-HasRoom best (x ∷ xs) h room =
      highest_from-HasRoom (if ltb (index x) (index best) then best else x) xs
        (ground (arith, h, room.0)) room.1

  put-All :
      (P : AcctPathMapping → Type 0) (same : AcctPathMapping → Bool) (x : AcctPathMapping)
      (xs : List AcctPathMapping)
      → P x
      → All P xs
      → All P (put same x xs)
  put-All P same x [] h hs = (h, tt)
  put-All P same x (y ∷ ys) h hs = elim (Bool-cases (same y)) [
    | inl hit ↦ rw (hit, put) (h, hs.1)
    | inr miss ↦ rw (miss, put) (hs.0, put-All P same x ys h hs.1)
  ]

  put-Distinct :
      (x : AcctPathMapping) (xs : List AcctPathMapping)
      → All (Apart x) xs
      → Distinct xs
      → Distinct (put (has_label x.label) x xs)
  put-Distinct x [] apart d = (tt, tt)
  put-Distinct x (y ∷ ys) (apart, others) (d, ds) =
      let new : has_label x.label y ≡ false = ground (arith, apart.0) in
      let back : Apart y x = (ground (arith, apart.0), ground (arith, apart.1)) in
      rw (new, put) (put-All (Apart y) (has_label x.label) x ys back d, put-Distinct x ys others ds)

  -- The new account is apart from all that are there.
  Apart-above :
      (x : AcctPathMapping) (xs : List AcctPathMapping)
      → any (has_label x.label) xs ≡ false
      → All (λ a. index a < index x) xs
      → All (Apart x) xs
  Apart-above x [] new above = tt
  Apart-above x (y ∷ ys) new above = elim (Bool-cases (has_label x.label y)) [
    | inl hit ↦ (let never = rw (hit, any) at new in cc)
    | inr miss ↦
        (let rest = rw (miss, any) at new in
          ((ground (arith, miss), ground (arith, above.0)), Apart-above x ys rest above.1))
  ]

  below_next :
      (xs : List AcctPathMapping)
      → HasRoom xs
      → All (λ a. index a < paths.first (next_path paths (highest_entry paths xs))) xs
  below_next [] room = tt
  below_next (a ∷ others) room =
      let top = highest_from paths a others in
      let (best, bounds) = highest_from_le a others in
      let free = highest_from-HasRoom a others room.0 room.1 in
      let next = (index top + 1) % 2 ^ 32 in
      let e : paths.first (paths.with_first next top.path) ≡ next =
        paths.first-with_first next top.path (omega arith) in
      let small : next ≡ index top + 1 = omega (arith, free) in
      (
        omega (arith, e, small, best),
        All-weaken (λ x. index x ≤ index top)
            (λ x. index x < paths.first (paths.with_first next top.path))
            (λ x h. omega (arith, e, small, h)) others bounds,
      )

  find?-put_new :
      (other : ℕ) (x : AcctPathMapping) (xs : List AcctPathMapping)
      → find? (has_label other) (put (has_label x.label) x xs)
        ≡ (if x.label == other then some x else find? (has_label other) xs)
  find?-put_new other x [] = ground arith
  find?-put_new other x (y ∷ ys) = ground (arith, find?-put_new other x ys)

  -- Where the accounts have labels and first path indices of their own, and no index is the last u32:
  -- a successful `new_acct_path` leaves them so with the new account, whose label reads the returned
  -- path, while every other label reads as before.
  pub new_acct_path-Distinct :
      (label : ℕ) (w : Wallet) (id : Identifier) (after : Wallet)
      → Distinct w.acct_paths
      → HasRoom w.acct_paths
      → new_acct_path paths label w ≡ ok (id, after)
      → Distinct after.acct_paths
        × ((other : ℕ)
            → get_acct_path other after ≡ (
                if label == other
                then some (record { label = label; path = id })
                else get_acct_path other w))
  unfolding new_acct_path save_acct_path get_acct_path
  new_acct_path-Distinct label w id after distinct room done =
      elim (Bool-cases (any (has_label label) w.acct_paths)) [
        | inl taken ↦ (let never = rw (taken, new_acct_path) at done in cc)
        | inr new ↦
            (let path = next_path paths (highest_entry paths w.acct_paths) in
              let x : AcctPathMapping = record { label = label; path = path } in
              let result = ok-path (rw (new, new_acct_path) at done) in
              let same_id : path ≡ id = ap (λ r. r.0) result in
              let same : record w { acct_paths = put (has_label label) x w.acct_paths } ≡ after =
                ap (λ r. r.1) result in
              let apart =
                put-Distinct x w.acct_paths
                  (Apart-above x w.acct_paths new (below_next w.acct_paths room)) distinct in
              (
                subst (λ v. Distinct v.acct_paths) same apart,
                λ other.
                    subst
                      (λ v. find? (has_label other) v.acct_paths ≡ (
                        if label == other
                        then some (record { label = label; path = id })
                        else find? (has_label other) w.acct_paths))
                      same
                      (subst
                        (λ i. find? (has_label other) (put (has_label label) x w.acct_paths) ≡ (
                          if label == other
                          then some (record { label = label; path = i })
                          else find? (has_label other) w.acct_paths))
                        same_id (find?-put_new other x w.acct_paths)),
              ))
      ]
