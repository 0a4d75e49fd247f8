-- ===== src/Selection/Build/Balance.antt =====
-- The context that `build_send_tx` makes (libwallet/src/internal/selection.rs).
use vcash_wallet.Base.{
  ℕ, ◌+◌, ◌-◌, ◌/◌, ◌%◌, ◌<◌, ◌^◌, ◌≡◌, ◌⊎◌, refl, sym, ap, subst, ◌∙◌, Bool, not, List, [], ◌∷◌,
  arith, sum_by, ok, >>=-eq-ok,
}
use vcash_wallet.Env.{Env}
use vcash_wallet.Types.Output.{OutputData}
use vcash_wallet.Types.Context.{Context, Entry, add_input, add_output, new_context}
use vcash_wallet.Backend.{Wallet}
use vcash_wallet.Selection.Coins.Sorted.{sum_by-append}
use vcash_wallet.Selection.Fee.{Request}
use vcash_wallet.Selection.Fee.Sound.{eligible}
use vcash_wallet.Selection.Change.{Part, Change, select_send_tx}
use vcash_wallet.Selection.Change.Amounts.{amounts}
use vcash_wallet.Selection.Change.Balance.{spent, select_send_tx_balances}
use vcash_wallet.Selection.Build.{add_inputs, add_outputs, send_context, build_send_tx}

-- The sum of the amounts of entries.
abbrev pub total_of : List Entry → ℕ
total_of es = sum_by (λ e. e.2) es

pub add_inputs_totals :
    (os : List OutputData) (c : Context)
    → (total_of (add_inputs os c).input_ids ≡ total_of c.input_ids + sum_by (λ o. o.value) os)
      × ((add_inputs os c).output_ids ≡ c.output_ids)
      × ((add_inputs os c).amount ≡ c.amount)
      × ((add_inputs os c).fee ≡ c.fee)
unfolding add_inputs add_input
add_inputs_totals [] c = (omega arith, refl, refl, refl)
add_inputs_totals (o ∷ os) c =
    let d = add_input o.key_id o.mmr_index o.value c in
    let rest = add_inputs_totals os d in
    let one =
      sum_by-append (λ (e : Entry). e.2) c.input_ids ((o.key_id, o.mmr_index, o.value) ∷ []) in
    (omega (arith, rest.0, one), rest.1, rest.2, rest.3)

pub add_outputs_totals :
    (cs : List Change) (c : Context)
    → (total_of (add_outputs cs c).output_ids ≡ total_of c.output_ids + amounts cs)
      × ((add_outputs cs c).input_ids ≡ c.input_ids)
      × ((add_outputs cs c).amount ≡ c.amount)
      × ((add_outputs cs c).fee ≡ c.fee)
unfolding add_outputs add_output
add_outputs_totals [] c = (omega arith, refl, refl, refl)
add_outputs_totals ((a, id, m) ∷ cs) c =
    let d = add_output id m a c in
    let rest = add_outputs_totals cs d in
    let one = sum_by-append (λ (e : Entry). e.2) c.output_ids ((id, m, a) ∷ []) in
    (omega (arith, rest.0, one), rest.1, rest.2, rest.3)

module _ (env : Env) (blinding : List Part → ℕ) (fresh_nonce test_nonce amount : ℕ)
    (is_compact is_invoice use_test_nonce : Bool) (w : Wallet) (r : Request)
    (max_outputs change_outputs : ℕ) where
  -- Where the eligible outputs' values, and the amount with the fee, fit in 64 bits: the inputs that
  -- the context of a successful `build_send_tx` names are worth its amount, its fee and the outputs
  -- that it names, if nothing is left over or the division of the rest into the change outputs
  -- leaves a remainder below one part.
  pub build_send_tx_balances :
      (c : Context) (v : Wallet)
      → sum_by (λ o. o.value) (eligible w r) < 2 ^ 64
      → build_send_tx env blinding fresh_nonce test_nonce amount is_compact is_invoice
          use_test_nonce w r max_outputs change_outputs
        ≡ ok (c, v)
      → amount + c.fee < 2 ^ 64
      → (total_of c.input_ids - (amount + c.fee) ≡ 0)
        ⊎ ((total_of c.input_ids - (amount + c.fee)) % change_outputs
            < (total_of c.input_ids - (amount + c.fee)) / change_outputs)
      → (c.amount ≡ amount) × (total_of c.input_ids ≡ amount + c.fee + total_of c.output_ids)
  unfolding build_send_tx send_context new_context
  build_send_tx_balances c v fits e small left =
      let (s, sent, done) =
        >>=-eq-ok (select_send_tx env w r amount max_outputs change_outputs 0 0 (not is_compact)) _
          e in
      let made : send_context env blinding fresh_nonce test_nonce amount is_compact is_invoice
            use_test_nonce r.parent_key_id s
          ≡ c =
        ground arith in
      let start =
        record (new_context fresh_nonce test_nonce (blinding s.parts) 0 r.parent_key_id
          use_test_nonce is_invoice) { fee = s.fee; amount = amount } in
      let ins = add_inputs_totals s.coins start in
      let outs = add_outputs_totals s.changes (add_inputs s.coins start) in
      let fee : c.fee ≡ s.fee = ap (λ x. x.fee) (sym made) ∙ outs.3 ∙ ins.3 in
      let inputs : total_of c.input_ids ≡ spent s =
        ap (λ x. total_of x.input_ids) (sym made) ∙ ap total_of outs.1 ∙ ins.0 ∙ omega arith in
      let outputs : total_of c.output_ids ≡ amounts s.changes =
        ap (λ x. total_of x.output_ids) (sym made)
        ∙ outs.0
        ∙ ap (λ x. total_of x + amounts s.changes) ins.1
        ∙ omega arith in
      let small' : amount + s.fee < 2 ^ 64 = omega (arith, fee, small) in
      let rest : total_of c.input_ids - (amount + c.fee) ≡ spent s - (amount + s.fee) =
        omega (arith, fee, inputs) in
      let balance =
        select_send_tx_balances env w r amount max_outputs change_outputs 0 0 (not is_compact) s
          fits sent small'
          (subst (λ (x : ℕ). (x ≡ 0) ⊎ (x % change_outputs < x / change_outputs)) rest left) in
      (
        ap (λ x. x.amount) (sym made) ∙ outs.2 ∙ ins.2,
        omega (arith, balance.1, fee, inputs, outputs),
      )
