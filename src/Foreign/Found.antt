-- ===== src/Foreign/Found.antt =====
-- Finding a log entry by a query (libwallet/src/internal/updater.rs).
use vcash_wallet.Base.{
  ℕ, ◌≡◌, refl, ap, ◌∙◌, Bool, true, List, [], ◌∷◌, arith, map, any, filter, insert_by_key,
  sort_by_key, if◌then◌else◌,
}
use vcash_wallet.Types.Status.{Identifier}
use vcash_wallet.Backend.Table.{put}

module _ {A : Type 0} (p : A → Bool) where
  any-insert_by_key :
      (key : A → ℕ) (x : A) (xs : List A) → any p (insert_by_key key x xs) ≡ any p (x ∷ xs)
  any-insert_by_key key x [] = refl
  any-insert_by_key key x (y ∷ ys) = ground (arith, any-insert_by_key key x ys)

  any-sort_by_key : (key : A → ℕ) (xs : List A) → any p (sort_by_key key xs) ≡ any p xs
  any-sort_by_key key [] = refl
  any-sort_by_key key (x ∷ xs) =
      any-insert_by_key key x (sort_by_key key xs)
      ∙ ap (λ b. if p x then true else b) (any-sort_by_key key xs)

  -- What is written is found by the query and the test that it passes.
  any-put :
      (query : A → Bool) (same : Identifier × A → Bool) (k : Identifier) (x : A)
      (xs : List (Identifier × A))
      → query x ≡ true
      → p x ≡ true
      → any p (filter query (map (λ e. e.1) (put same (k, x) xs))) ≡ true
  any-put query same k x [] q h = ground (arith, q, h)
  any-put query same k x (y ∷ ys) q h = ground (arith, q, h, any-put query same k x ys q h)

  pub any-query :
      (key : A → ℕ) (query : A → Bool) (same : Identifier × A → Bool) (k : Identifier) (x : A)
      (xs : List (Identifier × A))
      → query x ≡ true
      → p x ≡ true
      → any p (sort_by_key key (filter query (map (λ e. e.1) (put same (k, x) xs)))) ≡ true
  any-query key query same k x xs q h =
      any-sort_by_key key (filter query (map (λ e. e.1) (put same (k, x) xs)))
      ∙ any-put query same k x xs q h
