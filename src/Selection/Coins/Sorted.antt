-- ===== src/Selection/Coins/Sorted.antt =====
-- Sorting by a key, as `select_coins` does (libwallet/src/internal/selection.rs): number and sum of
-- the elements, and their order.
use vcash_wallet.Base.{
  ℕ, suc, ◌+◌, ◌≤◌, ◌≡◌, refl, Bool, true, List, [], ◌∷◌, ◌++◌, arith, length, filter, All, sum_by,
  insert_by_key, sort_by_key,
}

module _ {A : Type 0} (key : A → ℕ) where
  length-insert_by_key : (x : A) (xs : List A) → length (insert_by_key key x xs) ≡ suc (length xs)
  length-insert_by_key x [] = refl
  length-insert_by_key x (y ∷ ys) = ground (arith, length-insert_by_key x ys)

  pub length-sort_by_key : (xs : List A) → length (sort_by_key key xs) ≡ length xs
  length-sort_by_key [] = refl
  length-sort_by_key (x ∷ xs) =
      omega (arith, length-insert_by_key x (sort_by_key key xs), length-sort_by_key xs)

  sum_by-insert_by_key :
      (f : A → ℕ) (x : A) (xs : List A) → sum_by f (insert_by_key key x xs) ≡ f x + sum_by f xs
  sum_by-insert_by_key f x [] = refl
  sum_by-insert_by_key f x (y ∷ ys) = ground (arith, sum_by-insert_by_key f x ys)

  pub sum_by-sort_by_key : (f : A → ℕ) (xs : List A) → sum_by f (sort_by_key key xs) ≡ sum_by f xs
  sum_by-sort_by_key f [] = refl
  sum_by-sort_by_key f (x ∷ xs) =
      omega (arith, sum_by-insert_by_key f x (sort_by_key key xs), sum_by-sort_by_key f xs)

  All-insert_by_key :
      (P : A → Type 0) (x : A) (xs : List A) → P x → All P xs → All P (insert_by_key key x xs)
  All-insert_by_key P x [] p h = (p, tt)
  All-insert_by_key P x (y ∷ ys) p h = ground (arith, All-insert_by_key P x ys p h.1)

  pub All-sort_by_key : (P : A → Type 0) (xs : List A) → All P xs → All P (sort_by_key key xs)
  All-sort_by_key P [] h = tt
  All-sort_by_key P (x ∷ xs) h =
      All-insert_by_key P x (sort_by_key key xs) h.0 (All-sort_by_key P xs h.1)

  -- Every element has a key that is at most those behind it.
  abbrev pub IsSorted : List A → Type 0
  IsSorted [] = Unit {0}
  IsSorted (x ∷ xs) = All (λ y. key x ≤ key y) xs × IsSorted xs

  weaken : (a b : ℕ) (xs : List A) → a ≤ b → All (λ y. b ≤ key y) xs → All (λ y. a ≤ key y) xs
  weaken a b [] h all = tt
  weaken a b (x ∷ xs) h all = (omega arith, weaken a b xs h all.1)

  insert_by_key-IsSorted : (x : A) (xs : List A) → IsSorted xs → IsSorted (insert_by_key key x xs)
  insert_by_key-IsSorted x [] h = (tt, tt)
  insert_by_key-IsSorted x (y ∷ ys) h = ground (
    arith,
    weaken (key x) (key y) ys,
    insert_by_key-IsSorted x ys h.1,
    All-insert_by_key (λ z. key y ≤ key z) x ys,
  )

  pub sort_by_key-IsSorted : (xs : List A) → IsSorted (sort_by_key key xs)
  sort_by_key-IsSorted [] = tt
  sort_by_key-IsSorted (x ∷ xs) =
      insert_by_key-IsSorted x (sort_by_key key xs) (sort_by_key-IsSorted xs)

module _ {A : Type 0} where
  pub sum_by-append : (f : A → ℕ) (xs ys : List A) → sum_by f (xs ++ ys) ≡ sum_by f xs + sum_by f ys
  sum_by-append f [] ys = omega arith
  sum_by-append f (x ∷ xs) ys = omega (arith, sum_by-append f xs ys)

  pub All-append : (P : A → Type 0) (xs ys : List A) → All P (xs ++ ys) → All P xs × All P ys
  All-append P [] ys h = (tt, h)
  All-append P (x ∷ xs) ys h = let (l, r) = All-append P xs ys h.1 in ((h.0, l), r)

  pub append-All : (P : A → Type 0) (xs ys : List A) → All P xs → All P ys → All P (xs ++ ys)
  append-All P [] ys h k = k
  append-All P (x ∷ xs) ys h k = (h.0, append-All P xs ys h.1 k)

  pub filter-All : (p : A → Bool) (xs : List A) → All (λ x. p x ≡ true) (filter p xs)
  filter-All p [] = tt
  filter-All p (x ∷ xs) = ground (arith, filter-All p xs)
