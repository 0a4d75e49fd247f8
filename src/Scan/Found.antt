-- ===== src/Scan/Found.antt =====
-- What the comparison with the chain finds (libwallet/src/internal/scan.rs).
use vcash_wallet.Base.{
  ℕ, ◌≡◌, refl, ap, ◌∙◌, Bool, true, false, ◌&&◌, Option, none, some, List, [], ◌∷◌, ◌++◌, arith,
  any, filter, if◌then◌else◌, insert_by_key, sort_by_key,
}
use vcash_wallet.Types.Status.{Commitment, OutputStatus, status_eq}
use vcash_wallet.Types.Output.{OutputData}
use vcash_wallet.Backend.{has_key}
use vcash_wallet.Backend.Laws.{option_eq_self}
use vcash_wallet.Scan.{OutputResult, Findings, matched, add_finding, compare_outputs}

-- What was found stays among the findings.
missing-kept :
    (p : OutputResult → Bool) (b : OutputResult) (x : Option OutputData) (f : Findings)
    → any p f.missing_outs ≡ true
    → any p (add_finding b x f).missing_outs ≡ true
missing-kept p b none f e = ground (arith, e)
missing-kept p b (some o) f e = ground (arith, e)

spent-kept :
    (p : OutputData → Bool) (b : OutputResult) (x : Option OutputData) (f : Findings)
    → any p f.accidental_spend_outs ≡ true
    → any p (add_finding b x f).accidental_spend_outs ≡ true
spent-kept p b none f e = e
spent-kept p b (some o) f e = ground (arith, e)

locked-kept :
    (p : OutputData → Bool) (b : OutputResult) (x : Option OutputData) (f : Findings)
    → any p f.locked_outs ≡ true
    → any p (add_finding b x f).locked_outs ≡ true
locked-kept p b none f e = e
locked-kept p b (some o) f e = ground (arith, e)

module _ (wo : List (OutputData × Commitment)) (c : OutputResult) (after : List OutputResult) where
  pub missing-listed :
      (before : List OutputResult) (p : OutputResult → Bool)
      → matched wo c ≡ none
      → p c ≡ true
      → any p (compare_outputs wo (before ++ c ∷ after)).missing_outs ≡ true
  unfolding compare_outputs
  missing-listed [] p e own = rw e (rw own refl)
  missing-listed (b ∷ bs) p e own = missing-kept p b (matched wo b) _ (missing-listed bs p e own)

  pub spent-listed :
      (before : List OutputResult) (o : OutputData)
      → matched wo c ≡ some o
      → status_eq o.status OutputStatus.spent ≡ true
      → any
          (has_key o.key_id o.mmr_index)
          (compare_outputs wo (before ++ c ∷ after)).accidental_spend_outs
        ≡ true
  unfolding compare_outputs
  spent-listed [] o e spent = rw e (rw spent (ground (arith, option_eq_self o.mmr_index)))
  spent-listed (b ∷ bs) o e spent = spent-kept _ b (matched wo b) _ (spent-listed bs o e spent)

  pub locked-listed :
      (before : List OutputResult) (o : OutputData)
      → matched wo c ≡ some o
      → status_eq o.status OutputStatus.spent ≡ false
      → status_eq o.status OutputStatus.locked ≡ true
      → any (has_key o.key_id o.mmr_index) (compare_outputs wo (before ++ c ∷ after)).locked_outs
        ≡ true
  unfolding compare_outputs
  locked-listed [] o e other locked =
      rw e (rw other (rw locked (ground (arith, option_eq_self o.mmr_index))))
  locked-listed (b ∷ bs) o e other locked =
      locked-kept _ b (matched wo b) _ (locked-listed bs o e other locked)

any-insert :
    (p : OutputData → Bool) (key : OutputData → ℕ) (x : OutputData) (ys : List OutputData)
    → any p (insert_by_key key x ys) ≡ any p (x ∷ ys)
any-insert p key x [] = refl
any-insert p key x (y ∷ ys) = ground (arith, any-insert p key x ys)

pub any-sort :
    (p : OutputData → Bool) (key : OutputData → ℕ) (xs : List OutputData)
    → any p (sort_by_key key xs) ≡ any p xs
any-sort p key [] = refl
any-sort p key (x ∷ xs) =
    any-insert p key x (sort_by_key key xs) ∙ ap (λ b. if p x then true else b) (any-sort p key xs)

pub any-filter :
    (p q : OutputData → Bool) (xs : List OutputData)
    → any q (filter p xs) ≡ any (λ x. p x && q x) xs
any-filter p q [] = refl
any-filter p q (x ∷ xs) = ground (arith, any-filter p q xs)
