-- ===== src/Scan/Repaired.antt =====
-- What the scan repairs (libwallet/src/internal/scan.rs).
use vcash_wallet.Base.{
  ℕ, ◌≡◌, refl, sym, ap, ◌∙◌, Bool, true, false, ◌&&◌, ◌||◌, Option, none, some, List, [], ◌∷◌,
  ◌++◌, arith, length, any, map, filter, if◌then◌else◌, Bool-cases, inl, inr, sort_by_key,
}
use vcash_wallet.Env.{Env}
use vcash_wallet.Types.Status.{Identifier, Commitment, Time, OutputStatus, status_eq}
use vcash_wallet.Types.Output.{OutputData}
use vcash_wallet.Backend.{Wallet, has_key}
use vcash_wallet.Backend.Laws.{option_eq_self}
use vcash_wallet.Updater.Query.{commit_of, is_retrieved, retrieved, retrieve_outputs}
use vcash_wallet.Scan.{
  OutputResult, FoundParents, matched, compare_outputs, mark_unspent_outs, delete_outs,
  restore_outs, restore_accounts, is_unconfirmed, repair,
}
use vcash_wallet.Scan.Stages.{
  IsUnspentAt, kept, restore_accounts-outputs, mark-keeps, mark-makes, delete_outs-keeps,
  restore-keeps, restore-makes,
}
use vcash_wallet.Scan.Found.{missing-listed, spent-listed, locked-listed, any-sort, any-filter}

both : (a b : Bool) → (a && b) ≡ true → (a ≡ true) × (b ≡ true)
both a b e = ground (arith, e)

-- Where a found output is stored: under its own key, or under that of the wallet's output with its
-- commitment.
abbrev pub home : OutputResult → Option OutputData → Identifier × Option ℕ
home c none = (c.key_id, some c.mmr_index)
home c (some o) = (o.key_id, o.mmr_index)

-- What the chain contradicts: an output that is missing or spent, and, where transactions are given
-- up, one that is locked.
abbrev pub is_contradicted : Bool → Option OutputData → Bool
is_contradicted delete_unconfirmed none = true
is_contradicted delete_unconfirmed (some o) =
    status_eq o.status OutputStatus.spent
    || (delete_unconfirmed && status_eq o.status OutputStatus.locked)

map-retrieve_outputs :
    (env : Env) (os : List OutputData)
    → map (λ (m : OutputData × Commitment). m.0) (map (λ o. (o, commit_of env o)) os) ≡ os
map-retrieve_outputs env [] = refl
map-retrieve_outputs env (o ∷ os) = ap (o ∷◌) (map-retrieve_outputs env os)

-- The outputs that the last stage deletes are the unconfirmed ones of the store.
unconfirmed-any :
    (env : Env) (p : OutputData → Bool) (w : Wallet)
    → any p (
        filter is_unconfirmed
          (map (λ (m : OutputData × Commitment). m.0) (retrieve_outputs env w true none none)))
      ≡ any (λ o. is_unconfirmed o && p o) w.outputs
unfolding retrieve_outputs retrieved
unconfirmed-any env p w =
    let all = filter (is_retrieved true none none) w.outputs in
    let sorted = sort_by_key (λ (o : OutputData). o.n_child) all in
    let q = λ (o : OutputData). is_unconfirmed o && p o in
    ap (λ os. any p (filter is_unconfirmed os)) (map-retrieve_outputs env sorted)
    ∙ any-filter is_unconfirmed p sorted
    ∙ any-sort q (λ (o : OutputData). o.n_child) all
    ∙ any-filter (is_retrieved true none none) q w.outputs

module _ (env : Env) (parent_path : Identifier → Identifier) (now : Time) (label_of : ℕ → ℕ) where
  after_deletion :
      (id : Identifier) (m : Option ℕ) (v w : Wallet)
      → any (λ u. is_unconfirmed u && has_key id m u) w.outputs ≡ false
      → IsUnspentAt id m v
      → IsUnspentAt id m (
          delete_outs env parent_path now
            (filter is_unconfirmed
              (map (λ (m : OutputData × Commitment). m.0) (retrieve_outputs env w true none none)))
            v)
  after_deletion id m v w free e =
      delete_outs-keeps env parent_path now id m _ v (unconfirmed-any env (has_key id m) w ∙ free) e

  finished :
      (id : Identifier) (m : Option ℕ) (d : Bool) (locked : List OutputData) (found : FoundParents)
      (v w : Wallet)
      → any (λ u. is_unconfirmed u && has_key id m u) w.outputs ≡ false
      → IsUnspentAt id m (if d then mark_unspent_outs env parent_path now locked v else v)
      → (let w3 =
            if d
            then delete_outs env parent_path now
                (filter is_unconfirmed (
                  map
                    (λ (m : OutputData × Commitment). m.0)
                    (retrieve_outputs env w true none none)))
                (mark_unspent_outs env parent_path now locked v)
            else v in
          IsUnspentAt id m
            (restore_accounts label_of w3.acct_paths (length w3.acct_paths) found w3))
  finished id m true locked found v w free e =
      kept id m _ _ (sym (restore_accounts-outputs label_of _ found _ _))
        (after_deletion id m (mark_unspent_outs env parent_path now locked v) w free e)
  finished id m false locked found v w free e =
      kept id m _ _ (sym (restore_accounts-outputs label_of _ found _ _)) e

  through :
      (id : Identifier) (m : Option ℕ) (d : Bool) (locked : List OutputData) (v : Wallet)
      → IsUnspentAt id m v
      → IsUnspentAt id m (if d then mark_unspent_outs env parent_path now locked v else v)
  through id m true locked v e = mark-keeps env parent_path now id m locked v e
  through id m false locked v e = e

  repaired :
      (delete_unconfirmed : Bool) (before : List OutputResult) (c : OutputResult)
      (after : List OutputResult) (w : Wallet) (o : Option OutputData)
      → matched (retrieve_outputs env w true none none) c ≡ o
      → is_contradicted delete_unconfirmed o ≡ true
      → any (λ u. is_unconfirmed u && has_key (home c o).0 (home c o).1 u) w.outputs ≡ false
      → IsUnspentAt
          (home c o).0
          (home c o).1
          (repair env parent_path now label_of delete_unconfirmed (before ++ c ∷ after) w)
  unfolding repair
  repaired d before c after w none is_o wrong free =
      let f = compare_outputs (retrieve_outputs env w true none none) (before ++ c ∷ after) in
      let w1 = mark_unspent_outs env parent_path now f.accidental_spend_outs w in
      let w2 = restore_outs env parent_path now f.missing_outs [] w1 in
      finished c.key_id (some c.mmr_index) d f.locked_outs w2.0 w2.1 w free (
        through c.key_id (some c.mmr_index) d f.locked_outs w2.1 (
          restore-makes env parent_path now c.key_id (some c.mmr_index) f.missing_outs [] w1 (
            missing-listed (retrieve_outputs env w true none none) c after before _ is_o
              (ground (arith, option_eq_self (some c.mmr_index))))))
  repaired d before c after w (some o) is_o wrong free =
      let wo = retrieve_outputs env w true none none in
      let f = compare_outputs wo (before ++ c ∷ after) in
      let w1 = mark_unspent_outs env parent_path now f.accidental_spend_outs w in
      let w2 = restore_outs env parent_path now f.missing_outs [] w1 in
      finished o.key_id o.mmr_index d f.locked_outs w2.0 w2.1 w free
        (elim (Bool-cases (status_eq o.status OutputStatus.spent)) [
          | inl spent ↦ through o.key_id o.mmr_index d f.locked_outs w2.1 (
              restore-keeps env parent_path now o.key_id o.mmr_index f.missing_outs [] w1 (
                mark-makes env parent_path now o.key_id o.mmr_index f.accidental_spend_outs w
                  (spent-listed wo c after before o is_o spent)))
          | inr other ↦
              (let (given_up, locked) =
                  both d (status_eq o.status OutputStatus.locked) (rw other at wrong) in
                rw given_up (
                  mark-makes env parent_path now o.key_id o.mmr_index f.locked_outs w2.1
                    (locked-listed wo c after before o is_o other locked)))
        ])

  -- An output of the chain that the wallet does not have, has as spent, or, with `delete_unconfirmed`,
  -- has as locked: after the repair the store reads an unspent output under its key, if no
  -- unconfirmed output of the wallet has that key.
  pub repair_restores :
      (delete_unconfirmed : Bool) (before : List OutputResult) (c : OutputResult)
      (after : List OutputResult) (w : Wallet)
      → (let o = matched (retrieve_outputs env w true none none) c in
          is_contradicted delete_unconfirmed o ≡ true)
      → (let o = matched (retrieve_outputs env w true none none) c in
          any (λ u. is_unconfirmed u && has_key (home c o).0 (home c o).1 u) w.outputs ≡ false)
      → (let o = matched (retrieve_outputs env w true none none) c in
          IsUnspentAt
            (home c o).0
            (home c o).1
            (repair env parent_path now label_of delete_unconfirmed (before ++ c ∷ after) w))
  repair_restores delete_unconfirmed before c after w wrong free =
      repaired delete_unconfirmed before c after w _ refl wrong free
