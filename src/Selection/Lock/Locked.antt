-- ===== src/Selection/Lock/Locked.antt =====
-- What `lock_tx_context` leaves in the store and in the log (libwallet/src/internal/selection.rs).
use vcash_wallet.Base.{
  ℕ, ◌≡◌, inl, inr, sym, ap, ◌∙◌, Bool, true, Option, none, some, List, [], ◌∷◌, arith, any, add64,
  option_eq-path, if◌then◌else◌, ok, Option-cases, Bool-cases,
}
use vcash_wallet.Types.Status.{Identifier, OutputStatus}
use vcash_wallet.Types.Output
use vcash_wallet.Types.Output.{OutputData}
use vcash_wallet.Types.Context.{Entry}
use vcash_wallet.Backend.{Wallet, get, lock_output, has_key}
use vcash_wallet.Backend.Laws.{get-save, get-has_key, same_key}
use vcash_wallet.Selection.Lock.{lock_inputs}

-- Whether a key is among those of a list of entries.
abbrev pub names : Identifier → Option ℕ → List Entry → Bool
names id m es = any (λ e. same_key e.0 e.1 id m) es

-- What is read under a key after its output is locked.
abbrev pub locked : ℕ → Option OutputData → Option OutputData
locked log_id none = none
locked log_id (some o) =
    some (record o { status = OutputStatus.locked; tx_log_entry = some log_id })

pub get-lock_output :
    (log_id : ℕ) (o : OutputData) (w : Wallet) (j id : Identifier) (n m : Option ℕ)
    → get j n w ≡ some o
    → get id m (lock_output (record o { tx_log_entry = some log_id }) w)
      ≡ (if same_key j n id m then locked log_id (get id m w) else get id m w)
unfolding lock_output Output.lock
get-lock_output log_id o w j id n m found =
    let q : OutputData = Output.lock (record o { tx_log_entry = some log_id }) in
    let own : has_key j n o ≡ true = get-has_key j n o w found in
    let own_m : o.mmr_index ≡ n = option_eq-path o.mmr_index n (ground arith) in
    elim (Bool-cases (same_key j n id m)) [
      | inl same ↦
          let at_m : n ≡ m = option_eq-path n m (ground arith) in
          let there : get id m w ≡ some o =
            ap (λ i. get i m w) (ground arith) ∙ ap (λ k. get j k w) (sym at_m) ∙ found in
          ground (arith, get-save id m q w)
      | inr other ↦ ground (arith, get-save id m q w)
    ]

pub get-lock_inputs :
    (log_id : ℕ) (es : List Entry) (start debited : ℕ) (w v : Wallet) (id : Identifier)
    (m : Option ℕ)
    → lock_inputs log_id es start w ≡ ok (debited, v)
    → get id m v ≡ (if names id m es then locked log_id (get id m w) else get id m w)
unfolding lock_inputs
get-lock_inputs log_id [] start debited w v id m e = ground arith
get-lock_inputs log_id ((j, n, a) ∷ es) start debited w v id m e = elim (Option-cases (get j n w)) [
  | inl missing ↦ ground arith
  | inr (o, found) ↦
      let w' = lock_output (record o { tx_log_entry = some log_id }) w in
      let rest : lock_inputs log_id es (add64 start o.value) w' ≡ ok (debited, v) = ground arith in
      ground (
        arith,
        get-lock_inputs log_id es (add64 start o.value) debited w' v id m rest,
        get-lock_output log_id o w j id n m found,
      )
]
