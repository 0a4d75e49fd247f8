-- ===== src/Scan/Unused.antt =====
-- No key of a restored output is derived again (libwallet/src/internal/scan.rs).
use vcash_wallet.Base.{
  ℕ, ◌+◌, ◌%◌, ◌≤◌, ◌<◌, ◌^◌, ◌≡◌, refl, ap, subst, ◌&&◌, Option, none, some, List, [], ◌∷◌, ◌++◌,
  All, arith, ltb, ◌==◌, ==_iff, if◌then◌else◌, true, Bool, Bool-cases, inl, inr,
}
use vcash_wallet.Env.{Env}
use vcash_wallet.Types.Status.{Identifier, Commitment, Time, OutputStatus, status_eq}
use vcash_wallet.Types.Output.{OutputData}
use vcash_wallet.Backend.{AcctPathMapping, Wallet, current_child_index, save_child_index}
use vcash_wallet.Backend.Table.{get_count-put_count}
use vcash_wallet.Accounts.{set_acct_path, save_acct_path}
use vcash_wallet.Updater.Query.{retrieve_outputs}
use vcash_wallet.Scan.{
  OutputResult, FoundParents, Findings, matched, add_finding, compare_outputs, mark_unspent_outs,
  is_known, restore_account, restore_accounts, repair,
}
use vcash_wallet.Scan.Found.{missing-listed}
use vcash_wallet.Scan.Indices.{Covers, AllSmall, restore_outs-Covers, restore_outs-AllSmall}

-- What a new account leaves as it is.
labelled-child_index :
    (label_of : ℕ → ℕ) (accounts : List AcctPathMapping) (n path k : ℕ) (w : Wallet)
    → current_child_index k
        (if is_known accounts path then w else set_acct_path (label_of n) path w)
      ≡ current_child_index k w
unfolding set_acct_path save_acct_path current_child_index
labelled-child_index label_of accounts n path k w = elim (Bool-cases (is_known accounts path)) [
  | inl known ↦ rw known refl
  | inr new ↦ rw new refl
]

current_child_index-save_child_index :
    (k j i : ℕ) (w : Wallet)
    → current_child_index k (save_child_index j i w)
      ≡ (if j == k then i else current_child_index k w)
unfolding current_child_index save_child_index
current_child_index-save_child_index k j i w = get_count-put_count k j i w.child_index

module _ (label_of : ℕ → ℕ) (accounts : List AcctPathMapping) where
  restore_account-raises :
      (n path i : ℕ) (w : Wallet)
      → i + 1 < 2 ^ 32
      → i < current_child_index path (restore_account label_of accounts n path i w)
  unfolding restore_account
  restore_account-raises n path i w small =
      let w1 = if is_known accounts path then w else set_acct_path (label_of n) path w in
      elim (Bool-cases (ltb i (current_child_index path w1))) [
        | inl below ↦ rw below (ground (arith, below))
        | inr above ↦ rw above (
            ground
              (arith, current_child_index-save_child_index path path ((i + 1) % 2 ^ 32) w1, small))
      ]

  restore_account-keeps :
      (n path i k c : ℕ) (w : Wallet)
      → i + 1 < 2 ^ 32
      → c < current_child_index k w
      → c < current_child_index k (restore_account label_of accounts n path i w)
  unfolding restore_account
  restore_account-keeps n path i k c w small e =
      let w1 = if is_known accounts path then w else set_acct_path (label_of n) path w in
      let same = labelled-child_index label_of accounts n path k w in
      elim (Bool-cases (ltb i (current_child_index path w1))) [
        | inl below ↦ rw below (omega (arith, same, e))
        | inr above ↦ rw above (elim (Bool-cases (path == k)) [
          | inl own ↦
              (let moved : current_child_index path w1 ≡ current_child_index k w1 =
                  ap (λ x. current_child_index x w1) ((==_iff path k).0 own) in
                let saved =
                  rw own at (current_child_index-save_child_index k path ((i + 1) % 2 ^ 32) w1) in
                let reached : current_child_index path w1 ≤ i = ground (arith, above) in
                omega (arith, saved, moved, same, e, reached, small))
          | inr other ↦
              (let saved =
                  rw other at (current_child_index-save_child_index k path ((i + 1) % 2 ^ 32) w1) in
                omega (arith, saved, same, e))
        ])
      ]

  restore_accounts-keeps :
      (found : FoundParents) (n k c : ℕ) (w : Wallet)
      → AllSmall found
      → c < current_child_index k w
      → c < current_child_index k (restore_accounts label_of accounts n found w)
  unfolding restore_accounts
  restore_accounts-keeps [] n k c w small e = e
  restore_accounts-keeps ((path, i) ∷ found) n k c w (first, rest) e =
      restore_accounts-keeps found _ k c _ rest (restore_account-keeps n path i k c w first e)

  restore_accounts-raises :
      (found : FoundParents) (n k c : ℕ) (w : Wallet)
      → AllSmall found
      → Covers k c found
      → c < current_child_index k (restore_accounts label_of accounts n found w)
  unfolding restore_accounts
  restore_accounts-raises [] n k c w small (i, there, le) = cc
  restore_accounts-raises ((path, i) ∷ found) n k c w (first, rest) (m, there, le) =
      elim (Bool-cases (path == k)) [
        | inl own ↦
            (let raised = restore_account-raises n path i w first in
              let is_i : i ≡ m = ground (arith, own, there) in
              restore_accounts-keeps found _ k c _ rest (
                subst
                  (λ z. c < current_child_index z (restore_account label_of accounts n path i w))
                  ((==_iff path k).0 own) (omega (arith, raised, is_i, le))))
        | inr other ↦ restore_accounts-raises found _ k c _ rest (m, rw other at there, le)
      ]

add_finding-All :
    (P : OutputResult → Type 0) (b : OutputResult) (x : Option OutputData) (f : Findings)
    → P b
    → All P f.missing_outs
    → All P (add_finding b x f).missing_outs
add_finding-All P b none f first rest = (first, rest)
add_finding-All P b (some o) f first rest =
    elim (Bool-cases (status_eq o.status OutputStatus.spent)) [
      | inl spent ↦ rw spent rest
      | inr other ↦ elim (Bool-cases (status_eq o.status OutputStatus.locked)) [
        | inl locked ↦ rw other (rw locked rest)
        | inr free ↦ rw other (rw free rest)
      ]
    ]

compare_outputs-All :
    (P : OutputResult → Type 0) (wo : List (OutputData × Commitment))
    (chain_outs : List OutputResult)
    → All P chain_outs
    → All P (compare_outputs wo chain_outs).missing_outs
unfolding compare_outputs
compare_outputs-All P wo [] all = tt
compare_outputs-All P wo (b ∷ bs) (first, rest) =
    add_finding-All P b (matched wo b) _ first (compare_outputs-All P wo bs rest)

module _ (env : Env) (parent_path : Identifier → Identifier) (now : Time) (label_of : ℕ → ℕ) where
  -- Where no index that the chain's outputs have is the last u32: after the repair, the next child
  -- index of the account that a missing output belongs to is past the output's, so its key is not
  -- derived again.
  pub repair_passes :
      (delete_unconfirmed : Bool) (before : List OutputResult) (c : OutputResult)
      (after : List OutputResult) (w : Wallet)
      → matched (retrieve_outputs env w true none none) c ≡ none
      → All (λ (x : OutputResult). x.n_child + 1 < 2 ^ 32) (before ++ c ∷ after)
      → c.n_child
        < current_child_index
            (parent_path c.key_id)
            (repair env parent_path now label_of delete_unconfirmed (before ++ c ∷ after) w)
  unfolding repair
  repair_passes d before c after w is_missing small =
      let wo = retrieve_outputs env w true none none in
      let f = compare_outputs wo (before ++ c ∷ after) in
      let w1 = mark_unspent_outs env parent_path now f.accidental_spend_outs w in
      let listed =
        missing-listed wo c after before
          (λ x. parent_path x.key_id == parent_path c.key_id && x.n_child == c.n_child) is_missing
          (ground arith) in
      let covered =
        restore_outs-Covers env parent_path now (parent_path c.key_id) c.n_child f.missing_outs []
          w1 listed in
      let all =
        restore_outs-AllSmall env parent_path now f.missing_outs [] w1
          (compare_outputs-All (λ x. x.n_child + 1 < 2 ^ 32) wo (before ++ c ∷ after) small) tt in
      restore_accounts-raises label_of _ _ _ (parent_path c.key_id) c.n_child _ all covered
