-- ===== src/Selection/Build/Token/Fees.antt =====
-- The coins that pay for a transfer of tokens (libwallet/src/internal/selection.rs).
use vcash_wallet.Base.{
  ℕ, zero, suc, ◌+◌, ◌-◌, ◌/◌, ◌%◌, ◌<◌, ◌^◌, ◌≡◌, ◌⊎◌, inl, inr, refl, sym, ap, subst, ◌∙◌, Bool,
  true, not, some, List, [], ◌∷◌, ◌++◌, arith, length, sum_by, ok, ok-path, filter, >>=-eq-ok,
  sub64, sum64_from,
}
use vcash_wallet.Env.{Env}
use vcash_wallet.Types.Status.{Identifier, TokenType}
use vcash_wallet.Types.TokenOutput.{TokenOutputData}
use vcash_wallet.Types.Context.{Context, add_token_input, add_token_output, new_context}
use vcash_wallet.Backend.{Wallet, next_child, save_child_index}
use vcash_wallet.Selection.Fee.{Request, select_token_coins_and_fee}
use vcash_wallet.Selection.Coins.{is_eligible}
use vcash_wallet.Selection.Fee.Sound.{eligible}
use vcash_wallet.Selection.Change.{
  Part, Change, SendTx, SendTokenTx, add_change, make_change, token_inputs_and_change,
  select_send_tx, select_send_token_tx,
}
use vcash_wallet.Selection.Change.Amounts.{amounts}
use vcash_wallet.Selection.Change.Balance.{spent, select_send_tx_balances}
use vcash_wallet.Selection.Build.{add_inputs, add_outputs}
use vcash_wallet.Selection.Build.Balance.{total_of, add_inputs_totals, add_outputs_totals}
use vcash_wallet.Selection.Build.Token.{
  add_token_inputs, add_token_outputs, send_token_context, build_send_token_tx,
}

-- The tokens leave what the context says of coins as it is.
abbrev SameCoins : Context → Context → Type 0
SameCoins c d =
    (c.input_ids ≡ d.input_ids)
    × (c.output_ids ≡ d.output_ids)
    × (c.amount ≡ d.amount)
    × (c.fee ≡ d.fee)

add_token_inputs-SameCoins :
    (os : List TokenOutputData) (c : Context) → SameCoins (add_token_inputs os c) c
unfolding add_token_inputs add_token_input
add_token_inputs-SameCoins [] c = (refl, refl, refl, refl)
add_token_inputs-SameCoins (o ∷ os) c =
    add_token_inputs-SameCoins os (add_token_input o.key_id o.mmr_index o.value c)

add_token_outputs-SameCoins :
    (cs : List Change) (c : Context) → SameCoins (add_token_outputs cs c) c
unfolding add_token_outputs add_token_output
add_token_outputs-SameCoins [] c = (refl, refl, refl, refl)
add_token_outputs-SameCoins ((a, id, m) ∷ cs) c =
    add_token_outputs-SameCoins cs (add_token_output id m a c)

module _ (env : Env) where
  add_change-outputs :
      (left num part rem x : ℕ) (w : Wallet)
      → (add_change env left num part rem x w).1.outputs ≡ w.outputs
  unfolding add_change next_child save_child_index
  add_change-outputs zero num part rem x w = refl
  add_change-outputs (suc left) num part rem x w =
      add_change-outputs left num part rem (x + 1) (next_child env w).1

  make_change-outputs :
      (change num : ℕ) (w : Wallet) (made : List Change × Wallet)
      → make_change env change num w ≡ ok made
      → (made.1).outputs ≡ w.outputs
  unfolding make_change
  make_change-outputs change num w made e =
      let part = change / num in ground (arith, add_change-outputs num num part (change % part) 0 w)

  select_send_token_tx-outputs :
      (w : Wallet) (r : Request) (amount : ℕ) (token_type : TokenType)
      (max_outputs change_outputs : ℕ) (t : SendTokenTx)
      → select_send_token_tx env w r amount token_type max_outputs change_outputs true ≡ ok t
      → t.wallet.outputs ≡ w.outputs
  unfolding select_send_token_tx token_inputs_and_change
  select_send_token_tx-outputs w r amount token_type max_outputs change_outputs t e =
      let (f, chosen, e') =
        >>=-eq-ok (select_token_coins_and_fee w r amount token_type max_outputs) _ e in
      let (made, changed, e'') =
        >>=-eq-ok (token_inputs_and_change env f.coins w f.amount token_type change_outputs true) _
          e' in
      let (change, split, e3) =
        >>=-eq-ok
          (make_change env (sub64 (sum64_from (λ o. o.value) 0 f.coins) f.amount) change_outputs w)
          _ changed in
      let kept : made.2 ≡ t.wallet = ap (λ z. z.wallet) (ok-path e'') in
      let new : change.1 ≡ made.2 = ap (λ z. z.2) (ok-path e3) in
      ap (λ z. z.outputs) (sym (new ∙ kept)) ∙ make_change-outputs _ change_outputs w change split

-- With a single change output nothing of the change is lost.
one_part : (n : ℕ) → (n ≡ 0) ⊎ (n % 1 < n / 1)
one_part zero = inl refl
one_part (suc n) = inr (omega arith)

module _ (env : Env) (blinding token_blinding : List Part → ℕ) (fresh_nonce test_nonce : ℕ)
    (amount : ℕ) (is_compact is_invoice use_test_nonce : Bool) (parent_key_id : Identifier) where
  -- What the context says of coins comes from the selection of the coins alone.
  send_token_context-totals :
      (t : SendTokenTx) (s : SendTx) (c : Context)
      → send_token_context env blinding token_blinding fresh_nonce test_nonce amount is_compact
          is_invoice use_test_nonce parent_key_id t s
        ≡ c
      → (total_of c.input_ids ≡ spent s)
        × (total_of c.output_ids ≡ amounts s.changes)
        × (c.amount ≡ amount)
        × (c.fee ≡ s.fee)
  unfolding send_token_context new_context
  send_token_context-totals t s c made =
      let start =
        record (new_context fresh_nonce test_nonce (blinding (t.parts ++ s.parts))
          (token_blinding (t.parts ++ s.parts)) parent_key_id use_test_nonce is_invoice) {
            fee = s.fee;
            amount = amount;
          } in
      let ins = add_inputs_totals s.coins start in
      let outs = add_outputs_totals s.changes (add_inputs s.coins start) in
      let with_coins = add_outputs s.changes (add_inputs s.coins start) in
      let token_ins = add_token_inputs-SameCoins t.coins with_coins in
      let token_outs =
        add_token_outputs-SameCoins t.changes (add_token_inputs t.coins with_coins) in
      subst
        (λ x.
          (total_of x.input_ids ≡ spent s)
          × (total_of x.output_ids ≡ amounts s.changes)
          × (x.amount ≡ amount)
          × (x.fee ≡ s.fee))
        made
        (
          ap total_of (token_outs.0 ∙ token_ins.0 ∙ outs.1) ∙ ins.0 ∙ omega arith,
          ap total_of (token_outs.1 ∙ token_ins.1)
              ∙ outs.0
              ∙ ap (λ x. total_of x + amounts s.changes) ins.1
              ∙ omega arith,
          token_outs.2 ∙ token_ins.2 ∙ outs.2 ∙ ins.2,
          token_outs.3 ∙ token_ins.3 ∙ outs.3 ∙ ins.3,
        )

module _ (env : Env) (blinding token_blinding : List Part → ℕ) (fresh_nonce test_nonce : ℕ)
    (amount : ℕ) (is_compact is_invoice use_test_nonce : Bool) (w : Wallet) (r : Request)
    (token_type : TokenType) (max_outputs change_outputs : ℕ) where
  -- Where the eligible outputs' values, and the fee, fit in 64 bits: the context of a successful
  -- `build_send_token_tx` names the token amount that was asked for, and coins that are worth exactly
  -- its fee and the change that it names.
  pub build_send_token_tx_balances :
      (c : Context) (v : Wallet)
      → sum_by (λ o. o.value) (eligible w r) < 2 ^ 64
      → build_send_token_tx env blinding token_blinding fresh_nonce test_nonce amount is_compact
          is_invoice use_test_nonce w r
          (some token_type)
          max_outputs
          change_outputs
        ≡ ok (c, v)
      → c.fee < 2 ^ 64
      → (c.amount ≡ amount) × (total_of c.input_ids ≡ c.fee + total_of c.output_ids)
  unfolding build_send_token_tx
  build_send_token_tx_balances c v fits e small =
      let (t, tokens, e') =
        >>=-eq-ok (select_send_token_tx env w r amount token_type max_outputs change_outputs true) _
          e in
      let inputs = length t.parts - length t.changes in
      let outputs = length t.changes + 1 in
      let (s, coins, done) =
        >>=-eq-ok (select_send_tx env t.wallet r 0 max_outputs 1 inputs outputs (not is_compact)) _
          e' in
      let (spends, changes, named, fee) =
        send_token_context-totals env blinding token_blinding fresh_nonce test_nonce amount
          is_compact is_invoice use_test_nonce r.parent_key_id t s c
          (ap (λ z. z.0) (ok-path done)) in
      let same : eligible t.wallet r ≡ eligible w r =
        ap (λ os. filter (is_eligible r.parent_key_id r.current_height r.minimum_confirmations) os)
          (select_send_token_tx-outputs env w r amount token_type max_outputs change_outputs t
            tokens) in
      let fits' : sum_by (λ o. o.value) (eligible t.wallet r) < 2 ^ 64 = rw same fits in
      let balance =
        select_send_tx_balances env t.wallet r 0 max_outputs 1 inputs outputs (not is_compact) s
          fits' coins (omega (arith, fee, small)) (one_part _) in
      (named, omega (arith, balance.1, fee, spends, changes))
