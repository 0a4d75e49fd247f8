-- ===== src/Backend/Table.antt =====
-- A keyed table as a list: a record is found by a test on its key.
use vcash_wallet.Base.{
  ℕ, ◌≡◌, refl, Bool, true, not, none, some, List, [], ◌∷◌, arith, ◌==◌, if◌then◌else◌, filter,
  find?,
}

module _ {ℓ} {A : Type ℓ} where
  -- Writes `x` in place of the record that has its key, or as a new one.
  abbrev pub put : (A → Bool) → A → List A → List A
  put same x [] = x ∷ []
  put same x (y ∷ ys) = if same y then x ∷ ys else y ∷ put same x ys

  abbrev pub remove : (A → Bool) → List A → List A
  remove same xs = filter (λ y. not (same y)) xs

-- A number for each key, 0 where none was written.
abbrev pub get_count : ℕ → List (ℕ × ℕ) → ℕ
get_count k [] = 0
get_count k ((j, n) ∷ m) = if j == k then n else get_count k m

abbrev pub put_count : ℕ → ℕ → List (ℕ × ℕ) → List (ℕ × ℕ)
put_count k n [] = (k, n) ∷ []
put_count k n ((j, i) ∷ m) = if j == k then (k, n) ∷ m else (j, i) ∷ put_count k n m

pub get_count-put_count :
    (j k n : ℕ) (m : List (ℕ × ℕ))
    → get_count j (put_count k n m) ≡ (if k == j then n else get_count j m)
get_count-put_count j k n [] = refl
get_count-put_count j k n ((i, v) ∷ m) = ground (arith, get_count-put_count j k n m)

module _ {ℓ} {A : Type ℓ} where
  -- What a search by one key finds after a write under another, where the keys' tests exclude each
  -- other, and under the same key.
  pub find?-put_self :
      (same : A → Bool) (x : A) (xs : List A) → same x ≡ true → find? same (put same x xs) ≡ some x
  find?-put_self same x [] h = ground arith
  find?-put_self same x (y ∷ ys) h = ground (arith, find?-put_self same x ys h)

  pub find?-remove_self : (same : A → Bool) (xs : List A) → find? same (remove same xs) ≡ none
  find?-remove_self same [] = refl
  find?-remove_self same (y ∷ ys) = ground (arith, find?-remove_self same ys)
