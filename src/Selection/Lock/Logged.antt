-- ===== src/Selection/Lock/Logged.antt =====
-- The store and the log after `lock_tx_context` (libwallet/src/internal/selection.rs), where the
-- slate has no token type.
use vcash_wallet.Base.{
  ℕ, ◌+◌, ◌<◌, ◌^◌, ◌≡◌, inl, inr, refl, sym, ap, ◌∙◌, ◌==◌, false, not, ◌&&◌, Option, none, some,
  List, [], ◌∷◌, arith, find?, any, is_some, length, sum_by, add64, if◌then◌else◌, ok, >>=-eq-ok,
  Option-cases,
}
use vcash_wallet.Env.{Env}
use vcash_wallet.Types.Status.{Identifier, Commitment, Time}
use vcash_wallet.Types.TxLog.{StoredProofInfo, TxLogEntry, TxLogEntryType, new_entry}
use vcash_wallet.Types.Context.{Context, Entry}
use vcash_wallet.Backend.{
  Wallet, get, save, lock_output, has_log_key, next_tx_log_id, save_tx_log_entry,
}
use vcash_wallet.Backend.Table.{find?-put_self}
use vcash_wallet.Backend.Laws.{get-save}
use vcash_wallet.Selection.Errors.{Error}
use vcash_wallet.Selection.Lock.{
  SlateView, Cache, cache_commits, lock_inputs, change_output, write_change,
}
use vcash_wallet.Selection.Lock.Call.{proof_info, sent_entry, lock_coins, lock_of, lock_tx_context}
use vcash_wallet.Selection.Lock.Locked.{names, locked, get-lock_output, get-lock_inputs}

-- The value of an entry's output in the store, 0 where there is none.
abbrev pub value_at : Wallet → Entry → ℕ
value_at w (id, m, _) = elim (get id m w) [ none ↦ 0 | some o ↦ o.value ]

sum_value_at :
    (w v : Wallet) (es : List Entry)
    → ((e : Entry) → value_at v e ≡ value_at w e)
    → sum_by (value_at v) es ≡ sum_by (value_at w) es
sum_value_at w v [] h = refl
sum_value_at w v (e ∷ es) h = omega (arith, h e, sum_value_at w v es h)

lock_inputs_debits :
    (log_id : ℕ) (es : List Entry) (start debited : ℕ) (w v : Wallet)
    → start + sum_by (value_at w) es < 2 ^ 64
    → lock_inputs log_id es start w ≡ ok (debited, v)
    → debited ≡ start + sum_by (value_at w) es
unfolding lock_inputs
lock_inputs_debits log_id [] start debited w v fits e = ground arith
lock_inputs_debits log_id ((j, n, a) ∷ es) start debited w v fits e =
    elim (Option-cases (get j n w)) [
      | inl missing ↦ ground arith
      | inr (o, found) ↦
          let w' = lock_output (record o { tx_log_entry = some log_id }) w in
          let rest : lock_inputs log_id es (add64 start o.value) w' ≡ ok (debited, v) =
            ground arith in
          let here : value_at w (j, n, a) ≡ o.value = ground arith in
          let same =
            sum_value_at w w' es
              (λ e. ground (arith, get-lock_output log_id o w j e.0 n e.1 found)) in
          let fits' : o.value + start + sum_by (value_at w) es < 2 ^ 64 = omega (arith, here) in
          omega (
            arith,
            here,
            same,
            lock_inputs_debits log_id es (add64 start o.value) debited w' v (omega (arith, same))
                rest,
          )
    ]

module _ (env : Env) (parent_key_id : Identifier) (height log_id : ℕ) where
  -- Only the keys of change outputs, which have no mmr index, are written.
  get-write_change :
      (cache : Cache) (es : List Entry) (start credited : ℕ) (w v : Wallet) (id : Identifier)
      (m : Option ℕ)
      → write_change env parent_key_id height log_id cache es start w ≡ ok (credited, v)
      → (not (is_some m) && any (λ e. e.0 == id) es) ≡ false
      → get id m v ≡ get id m w
  unfolding write_change change_output
  get-write_change cache [] start credited w v id m e other = ground arith
  get-write_change cache ((j, n, a) ∷ es) start credited w v id m e other =
      elim (Option-cases (find? (λ c. c.0 == j) cache)) [
        | inl missing ↦ ground arith
        | inr ((k, commit, amount), found) ↦
            let w' = save (change_output env parent_key_id height log_id j commit amount) w in
            let rest : write_change env parent_key_id height log_id cache es (add64 start amount) w'
                ≡ ok (credited, v) =
              ground arith in
            ground (
              arith,
              get-write_change cache es (add64 start amount) credited w' v id m rest,
              get-save id m (change_output env parent_key_id height log_id j commit amount) w,
            )
      ]

module _ (env : Env) (sender_address : Identifier → ℕ → ℕ) (now : Time) (slate : SlateView)
    (height : ℕ) (context : Context) (excess_override : Option Commitment) (w : Wallet) where
  abbrev log_id : ℕ
  log_id = (next_tx_log_id context.parent_key_id w).0

  -- The steps of a call that succeeds.
  abbrev Steps : Wallet → Type 0
  Steps v =
      (debited : ℕ × Wallet) × (credited : ℕ × Wallet) × (proof : Option StoredProofInfo)
      × (lock_inputs log_id context.input_ids 0 (next_tx_log_id context.parent_key_id w).1
          ≡ ok debited)
      × (write_change env context.parent_key_id height log_id
            (cache_commits env context.output_ids []) context.output_ids 0 debited.1
          ≡ ok credited)
      × (v
          ≡ save_tx_log_entry
              (sent_entry env sender_address now slate height context excess_override log_id
                debited.0 credited.0 proof)
              context.parent_key_id credited.1)

  lock_coins-Steps :
      (v : Wallet)
      → lock_coins env sender_address now slate height context excess_override w ≡ ok v
      → Steps v
  unfolding lock_coins
  lock_coins-Steps v e =
      let (debited, e1, rest) =
        >>=-eq-ok
          (lock_inputs log_id context.input_ids 0 (next_tx_log_id context.parent_key_id w).1) _ e in
      let (proof, e2, rest') =
        >>=-eq-ok
          (proof_info env sender_address now slate height context excess_override
            slate.payment_proof context.payment_proof_derivation_index)
          _ rest in
      let (credited, e3, rest'') =
        >>=-eq-ok
          (write_change env context.parent_key_id height log_id
            (cache_commits env context.output_ids []) context.output_ids 0 debited.1)
          _ rest' in
      (debited, credited, proof, e1, e3, ground arith)

  lock_tx_context-Steps :
      (v : Wallet) (late : Option Error)
      → slate.token_type ≡ none
      → lock_tx_context env sender_address now slate height context excess_override w ≡ ok (v, late)
      → Steps v
  unfolding lock_tx_context
  lock_tx_context-Steps v late plain e =
      let (v', done, rest) =
        >>=-eq-ok
          (lock_of env sender_address now slate height context excess_override slate.token_type w) _
          e in
      let same : v' ≡ v = ground arith in
      lock_coins-Steps v (
        ap (λ t. lock_of env sender_address now slate height context excess_override t w)
          (sym plain)
        ∙ done
        ∙ ap (λ x. ok x) same)

  -- Where the slate has no token type and the call has committed: the output read under the key of
  -- an input is locked and carries the new log id, and is otherwise as before; every other key that
  -- is not that of a change output reads as before.
  pub get-lock_tx_context :
      (v : Wallet) (late : Option Error) (id : Identifier) (m : Option ℕ)
      → slate.token_type ≡ none
      → lock_tx_context env sender_address now slate height context excess_override w ≡ ok (v, late)
      → (not (is_some m) && any (λ e. e.0 == id) context.output_ids) ≡ false
      → get id m v
        ≡ (if names id m context.input_ids then locked log_id (get id m w) else get id m w)
  unfolding get save_tx_log_entry next_tx_log_id
  get-lock_tx_context v late id m plain e other =
      let (debited, credited, proof, e1, e3, same) = lock_tx_context-Steps v late plain e in
      let first = (next_tx_log_id context.parent_key_id w).1 in
      let cache = cache_commits env context.output_ids [] in
      ap (λ x. get id m x) same
      ∙ get-write_change env context.parent_key_id height log_id cache context.output_ids 0
          credited.0 debited.1 credited.1 id m e3 other
      ∙ get-lock_inputs log_id context.input_ids 0 debited.0 first debited.1 id m e1

  -- Where the slate has no token type, the call has committed and the values of the inputs add up to
  -- less than 2^64: the log has an unconfirmed entry of a payment sent under the new log id, of the
  -- slate and with the context's fee, that debits exactly the values that the inputs had in the store
  -- and counts the inputs and the outputs.
  pub lock_tx_context_logs :
      (v : Wallet) (late : Option Error)
      → slate.token_type ≡ none
      → sum_by (value_at w) context.input_ids < 2 ^ 64
      → lock_tx_context env sender_address now slate height context excess_override w ≡ ok (v, late)
      → (t : TxLogEntry) × (find? (has_log_key context.parent_key_id log_id) v.tx_log
          ≡ some (context.parent_key_id, t))
        × (t.tx_type ≡ TxLogEntryType.tx_sent)
        × (t.tx_slate_id ≡ some slate.id)
        × (t.confirmed ≡ false)
        × (t.amount_debited ≡ sum_by (value_at w) context.input_ids)
        × (t.fee ≡ some context.fee)
        × (t.num_inputs ≡ length context.input_ids)
        × (t.num_outputs ≡ length context.output_ids)
  unfolding get save_tx_log_entry next_tx_log_id sent_entry new_entry
  lock_tx_context_logs v late plain fits e =
      let (debited, credited, proof, e1, e3, same) = lock_tx_context-Steps v late plain e in
      let first = (next_tx_log_id context.parent_key_id w).1 in
      let entry : ℕ → TxLogEntry = λ d.
        sent_entry env sender_address now slate height context excess_override log_id d credited.0
          proof in
      let values = sum_value_at w first context.input_ids (λ x. refl) in
      let debits : debited.0 ≡ sum_by (value_at w) context.input_ids = omega (
        arith,
        values,
        lock_inputs_debits log_id context.input_ids 0 debited.0 first debited.1
            (omega (arith, values)) e1,
      ) in
      (
        entry debited.0,
        ap (λ x. find? (has_log_key context.parent_key_id log_id) x.tx_log) same
            ∙ find?-put_self (has_log_key context.parent_key_id log_id)
                (context.parent_key_id, entry debited.0) credited.1.tx_log (ground arith),
        refl,
        refl,
        refl,
        debits,
        refl,
        refl,
        refl,
      )
