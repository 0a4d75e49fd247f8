-- ===== src/Foreign/Again.antt =====
-- A slate that comes a second time (`receive_tx`, libwallet/src/api_impl/foreign.rs).
use vcash_wallet.Base.{
  ℕ, ◌≡◌, ◌⊎◌, refl, ap, ◌∙◌, Bool, true, false, not, ◌&&◌, Option, none, some, leb, ◌==◌, find?,
  Bool-cases, inl, inr, err,
}
use vcash_wallet.Env.{Env}
use vcash_wallet.Types.Status.{Time}
use vcash_wallet.Backend.{Wallet, next_child, last_confirmed_height}
use vcash_wallet.Backend.Table.{get_count}
use vcash_wallet.Accounts.{has_label, get_acct_path}
use vcash_wallet.Foreign.{
  Slate, transaction_already_received, Signer, is_expired, parent_of, is_received, receive_output,
  receive_tx,
}
use vcash_wallet.Foreign.Keeps.{NotAdded, start, receive_output-Known}

module _ (env : Env) (signer : Signer) (fresh_nonce test_nonce : ℕ) (now : Time)
    (use_test_rng : Bool) where
  same_expired :
      (s : Slate) (w v : Wallet)
      → v.parent_key_id ≡ w.parent_key_id
      → v.confirmed_height ≡ w.confirmed_height
      → is_expired s v ≡ is_expired s w
  unfolding last_confirmed_height
  same_expired s w v e e' i =
      not (s.ttl_cutoff_height == 0) && leb s.ttl_cutoff_height (get_count (e i) (e' i))

  same_parent :
      (dest : Option ℕ) (w v : Wallet)
      → v.parent_key_id ≡ w.parent_key_id
      → v.acct_paths ≡ w.acct_paths
      → parent_of dest v ≡ parent_of dest w
  unfolding get_acct_path
  same_parent none w v e e' i = e i
  same_parent (some label) w v e e' i = elim (find? (has_label label) (e' i)) [
    | none ↦ e i
    | some a ↦ a.path
  ]

  refused :
      (dest : Option ℕ) (s : Slate) (v : Wallet)
      → is_expired s v ≡ false
      → is_received s.id s.token_type (parent_of dest v) use_test_rng v ≡ true
      → receive_tx env signer fresh_nonce test_nonce now use_test_rng dest s v
        ≡ (err transaction_already_received, v)
  unfolding receive_tx
  refused dest s v fresh known = rw (fresh, receive_tx) (rw known refl)

  -- A slate that has not expired is received at most once into an account. However the first call of
  -- `receive_tx` ends, the second one on the wallet that it leaves is refused and changes nothing,
  -- unless no output could be added to the slate; then the first call has only taken a child index.
  pub receive_tx-again :
      (dest : Option ℕ) (s : Slate) (w : Wallet)
      → is_expired s w ≡ false
      → let parent = parent_of dest w in
        let v = (receive_tx env signer fresh_nonce test_nonce now use_test_rng dest s w).1 in
        (receive_tx env signer fresh_nonce test_nonce now use_test_rng dest s v
          ≡ (err transaction_already_received, v))
        ⊎ NotAdded env signer fresh_nonce test_nonce now use_test_rng s parent w
            (signer.add_output
              (start env signer fresh_nonce test_nonce now use_test_rng s parent w)
              (next_child env w).0)
            v
  unfolding receive_tx
  receive_tx-again dest s w fresh =
      let parent = parent_of dest w in
      elim (Bool-cases (is_received s.id s.token_type parent use_test_rng w)) [
        | inl again ↦ (let first = refused dest s w fresh again in inl (rw first first))
        | inr new ↦
            (let after =
                (receive_output env signer fresh_nonce test_nonce now use_test_rng parent s w).1 in
              rw (fresh, receive_tx)
                (rw new
                  (elim (receive_output-Known env signer fresh_nonce test_nonce now use_test_rng s
                    parent w) [
                      | inr not_added ↦ inr not_added
                      | inl (known, parents, accounts, heights) ↦ inl (
                          refused dest s after (same_expired s w after parents heights ∙ fresh) (
                            ap (λ k. is_received s.id s.token_type k use_test_rng after)
                              (same_parent dest w after parents accounts)
                            ∙ known))
                    ])))
      ]
