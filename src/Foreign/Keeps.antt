-- ===== src/Foreign/Keeps.antt =====
-- What the steps of `receive_tx` leave in the store (libwallet/src/api_impl/foreign.rs,
-- libwallet/src/internal/tx.rs).
use vcash_wallet.Base.{
  ℕ, ◌≡◌, ◌≢◌, ◌⊎◌, refl, Bool, true, false, Option, none, some, arith, if◌then◌else◌, Bool-cases,
  Option-cases, inl, inr, is_some, ok, err, panic, timeout,
}
use vcash_wallet.Env.{Env}
use vcash_wallet.Types.Status.{Identifier, Commitment, TokenType, Time}
use vcash_wallet.Types.TxLog.{TxLogEntry, TxLogEntryType, type_eq, new_entry}
use vcash_wallet.Types.TokenTxLog.{
  TokenTxLogEntry, TokenTxLogEntryType, type_eq as token_type_eq, new_entry as new_token_entry,
}
use vcash_wallet.Types.Context.{Context}
use vcash_wallet.Backend.{
  Wallet, save, save_token, next_child, save_child_index, next_tx_log_id, last_confirmed_height,
  has_log_key, has_token_log_key, save_tx_log_entry, save_token_tx_log_entry,
}
use vcash_wallet.Updater.Query.{is_queried, is_token_queried, retrieve_txs, retrieve_token_txs}
use vcash_wallet.Selection.Build.{
  Recipient, received_entry, received_token_entry, receive_coins, receive_tokens,
  build_recipient_output,
}
use vcash_wallet.Foreign.{
  Slate, Signer, Signed, Step, lift, resume, ◌>>=◌, is_compact, is_received, view_of, log_excess,
  log_token_excess, sign_output, sign_added, add_output_to_slate, sign_proof, strip, finish,
  receive_output,
}
use vcash_wallet.Foreign.Found.{any-query}

module _ (env : Env) (signer : Signer) (fresh_nonce test_nonce : ℕ) (now : Time)
    (use_test_rng : Bool) (s : Slate) (parent : Identifier) (before : Wallet) where
  -- The wallet has the slate's log entry, and the accounts and heights from before.
  abbrev pub Known : Wallet → Type 0
  Known w =
      (is_received s.id s.token_type parent use_test_rng w ≡ true)
      × (w.parent_key_id ≡ before.parent_key_id)
      × (w.acct_paths ≡ before.acct_paths)
      × (w.confirmed_height ≡ before.confirmed_height)

  abbrev Keeps : {A : Type 0} → Step A → Type 0
  Keeps m = (w : Wallet) → Known w → Known (m w).1

  resume-Keeps :
      {A B : Type 0} (o : Signed A) (f : A → Step B) → ((a : A) → Keeps (f a)) → Keeps (resume o f)
  resume-Keeps (ok a) f h w k = h a w k
  resume-Keeps (err e) f h w k = k
  resume-Keeps panic f h w k = k
  resume-Keeps timeout f h w k = k

  bind-Keeps :
      {A B : Type 0} (m : Step A) (f : A → Step B)
      → Keeps m
      → ((a : A) → Keeps (f a))
      → Keeps (m >>= f)
  unfolding ◌>>=◌
  bind-Keeps m f h h' w k = resume-Keeps (m w).0 f h' (m w).1 (h w k)

  -- A log entry of a payment received with this slate, in the log that the slate's token type names.
  abbrev Logs : Option TxLogEntry → Type 0
  Logs none = Unit
  Logs (some t) =
      (s.token_type ≡ none)
      × (is_queried none (some s.id) (some parent) use_test_rng t ≡ true)
      × (type_eq t.tx_type TxLogEntryType.tx_received ≡ true)

  abbrev LogsToken : Option TokenTxLogEntry → Type 0
  LogsToken none = Unit
  LogsToken (some t) =
      (is_some s.token_type ≡ true)
      × (is_token_queried none (some s.id) (some parent) use_test_rng t ≡ true)
      × (token_type_eq t.tx_type TokenTxLogEntryType.token_tx_received ≡ true)

  coin_logged :
      (t : TxLogEntry) (w : Wallet)
      → is_queried none (some s.id) (some parent) use_test_rng t ≡ true
      → type_eq t.tx_type TxLogEntryType.tx_received ≡ true
      → is_received s.id none parent use_test_rng (save_tx_log_entry t parent w) ≡ true
  unfolding is_received retrieve_txs save_tx_log_entry
  coin_logged t w queried received =
      any-query (λ x. type_eq x.tx_type TxLogEntryType.tx_received) (λ x. x.creation_ts)
        (is_queried none (some s.id) (some parent) use_test_rng) (has_log_key parent t.id) parent t
        w.tx_log queried received

  token_logged :
      (k : TokenType) (t : TokenTxLogEntry) (w : Wallet)
      → is_token_queried none (some s.id) (some parent) use_test_rng t ≡ true
      → token_type_eq t.tx_type TokenTxLogEntryType.token_tx_received ≡ true
      → is_received s.id (some k) parent use_test_rng (save_token_tx_log_entry t parent w) ≡ true
  unfolding is_received retrieve_token_txs save_token_tx_log_entry
  token_logged k t w queried received =
      any-query (λ x. token_type_eq x.tx_type TokenTxLogEntryType.token_tx_received)
        (λ x. x.creation_ts) (is_token_queried none (some s.id) (some parent) use_test_rng)
        (has_token_log_key parent t.id) parent t w.token_tx_log queried received

  save-Known :
      (t : TxLogEntry) (w : Wallet)
      → Logs (some t)
      → is_received s.id s.token_type parent use_test_rng (save_tx_log_entry t parent w) ≡ true
  save-Known t w (plain, queried, received) = rw plain (coin_logged t w queried received)

  save_token-Known :
      (t : TokenTxLogEntry) (w : Wallet)
      → LogsToken (some t)
      → is_received s.id s.token_type parent use_test_rng (save_token_tx_log_entry t parent w)
        ≡ true
  save_token-Known t w (token, queried, received) = elim (Option-cases s.token_type) [
    | inl plain ↦ (let never = rw plain at token in cc)
    | inr (k, e) ↦ rw e (token_logged k t w queried received)
  ]

  log_excess-Keeps :
      (signed : Slate) (t : Option TxLogEntry)
      → Logs t
      → Keeps (log_excess env signer fresh_nonce test_nonce now use_test_rng parent signed t)
  unfolding ◌>>=◌ save_tx_log_entry
  log_excess-Keeps signed none h w k = k
  log_excess-Keeps signed (some t) h w k =
      resume-Keeps (signer.calc_excess signed) _
        (λ e v k'. (save-Known (record t { kernel_excess = some e }) v h, k'.1, k'.2, k'.3)) w k

  log_token_excess-Keeps :
      (signed : Slate) (t : Option TokenTxLogEntry)
      → LogsToken t
      → Keeps (log_token_excess env signer fresh_nonce test_nonce now use_test_rng parent signed t)
  unfolding ◌>>=◌ save_token_tx_log_entry
  log_token_excess-Keeps signed none h w k = k
  log_token_excess-Keeps signed (some t) h w k =
      resume-Keeps (signer.calc_excess signed) _
        (λ e v k'. (save_token-Known (record t { kernel_excess = some e }) v h, k'.1, k'.2, k'.3)) w
        k

  sign_output-Keeps :
      (with_output : Slate) (r : Recipient)
      → Logs r.entry
      → LogsToken r.token_entry
      → Keeps (
          sign_output env signer fresh_nonce test_nonce now use_test_rng parent false with_output r)
  sign_output-Keeps with_output r h h' =
      bind-Keeps (lift (signer.fill_round_1 r.context with_output)) _ (λ w k. k)
        (λ round_1.
          bind-Keeps
            (lift (
              signer.fill_round_2 (record round_1.1 { initial_sec_key = (round_1.1).sec_key })
                round_1.0))
            _ (λ w k. k)
            (λ round_2. bind-Keeps _ _ (log_excess-Keeps round_2 r.entry h) (λ u.
              bind-Keeps _ _ (log_token_excess-Keeps round_2 r.token_entry h') (λ u' w k. k))))

  -- What `build_recipient_output` returns for the slate, whatever its transaction is by then.
  abbrev built : ℕ → ℕ × ℕ → ℕ → Recipient
  built tx keys height =
      build_recipient_output env keys fresh_nonce test_nonce now
        (view_of env signer fresh_nonce test_nonce now use_test_rng (record s { tx = tx })) s.amount
        s.fee height parent false use_test_rng before

  received_entry-queried :
      (tx : ℕ) (keys : ℕ × ℕ) (height log_id : ℕ)
      → is_queried none (some s.id) (some parent) use_test_rng (
          received_entry env keys fresh_nonce test_nonce now
            (view_of env signer fresh_nonce test_nonce now use_test_rng (record s { tx = tx }))
            s.amount
            s.fee
            height
            parent
            false
            use_test_rng
            log_id)
        ≡ true
  unfolding received_entry new_entry
  received_entry-queried tx keys height log_id = ground arith

  received_token_entry-queried :
      (k : TokenType) (tx : ℕ) (keys : ℕ × ℕ) (height log_id : ℕ)
      → is_token_queried none (some s.id) (some parent) use_test_rng (
          received_token_entry env keys fresh_nonce test_nonce now
            (view_of env signer fresh_nonce test_nonce now use_test_rng (record s { tx = tx }))
            s.amount
            s.fee
            height
            parent
            false
            use_test_rng
            k
            log_id)
        ≡ true
  unfolding received_token_entry new_token_entry
  received_token_entry-queried k tx keys height log_id = ground arith

  built-Known :
      (tx : ℕ) (keys : ℕ × ℕ) (height : ℕ)
      → Known (built tx keys height).wallet
        × Logs (built tx keys height).entry
        × LogsToken (built tx keys height).token_entry
  unfolding build_recipient_output receive_coins receive_tokens next_child save_child_index
      next_tx_log_id save save_token save_tx_log_entry save_token_tx_log_entry received_entry
      received_token_entry new_entry new_token_entry
  built-Known tx keys height =
      let log_id = (next_tx_log_id parent before).0 in
      elim (Option-cases s.token_type) [
        | inl plain ↦
            (let queried = received_entry-queried tx keys height log_id in
              rw (plain, built, build_recipient_output)
                ((coin_logged _ _ queried refl, refl, refl, refl), (refl, queried, refl), tt))
        | inr (k, e) ↦
            (let queried = received_token_entry-queried k tx keys height log_id in
              rw (e, built, build_recipient_output)
                ((token_logged k _ _ queried refl, refl, refl, refl), tt, (refl, queried, refl)))
      ]

  sign_proof-Keeps :
      (added : Slate) (excess : Commitment) (proof : _)
      → Keeps
          (sign_proof env signer fresh_nonce test_nonce now use_test_rng added excess parent proof)
  sign_proof-Keeps added excess none w k = k
  sign_proof-Keeps added excess (some p) w k =
      bind-Keeps
        (lift (
          signer.payment_proof_signature added.token_type added.amount excess p.sender_address
            parent))
        _ (λ v h. h) (λ sig v h. h) w k

  strip-Keeps :
      (context : Context) (signed : Slate)
      → Keeps (strip env signer fresh_nonce test_nonce now use_test_rng context signed)
  strip-Keeps context signed w k = elim (Bool-cases (is_compact signed)) [
    | inl compact ↦ rw (compact, strip) k
    | inr full ↦ rw (full, strip) k
  ]

  finish-Keeps :
      (added : Slate × Context)
      → Keeps (finish env signer fresh_nonce test_nonce now use_test_rng parent added)
  finish-Keeps added =
      bind-Keeps (lift (signer.calc_excess added.0)) _ (λ w k. k)
        (λ excess.
          bind-Keeps
            (sign_proof env signer fresh_nonce test_nonce now use_test_rng added.0 excess parent
              (added.0).payment_proof)
            _ (sign_proof-Keeps added.0 excess (added.0).payment_proof)
            (λ proved.
              bind-Keeps (strip env signer fresh_nonce test_nonce now use_test_rng added.1 proved) _
                (strip-Keeps added.1 proved) (λ stripped w k. k)))

  -- The transaction before the output is added.
  abbrev pub start : Slate
  start = record s { tx = if is_compact s then signer.empty_tx else s.tx }

  -- No output can be added, and nothing but its child index is taken.
  abbrev pub NotAdded : Signed (ℕ × (ℕ × ℕ)) → Wallet → Type 0
  NotAdded added w = ((made : ℕ × (ℕ × ℕ)) → added ≢ ok made) × (w ≡ (next_child env before).1)

  abbrev finished : Signed (ℕ × (ℕ × ℕ)) → Wallet
  finished added =
      let signed =
        sign_added env signer fresh_nonce test_nonce now use_test_rng start
          (last_confirmed_height before) parent false added before in
      (resume signed.0 (finish env signer fresh_nonce test_nonce now use_test_rng parent)
        signed.1).1

  finished-Known :
      (added : Signed (ℕ × (ℕ × ℕ))) → Known (finished added) ⊎ NotAdded added (finished added)
  finished-Known (ok (tx, keys)) =
      let (known, logs, logs_token) = built-Known tx keys (last_confirmed_height before) in
      let r = built tx keys (last_confirmed_height before) in
      let signed =
        sign_output env signer fresh_nonce test_nonce now use_test_rng parent false
          (record s { tx = tx }) r r.wallet in
      inl (
        resume-Keeps signed.0 (finish env signer fresh_nonce test_nonce now use_test_rng parent)
          finish-Keeps signed.1
          (sign_output-Keeps (record s { tx = tx }) r logs logs_token r.wallet known))
  finished-Known (err e) = inr (λ made same. cc, refl)
  finished-Known panic = inr (λ made same. cc, refl)
  finished-Known timeout = inr (λ made same. cc, refl)

  pub receive_output-Known :
      let w =
        (receive_output env signer fresh_nonce test_nonce now use_test_rng parent s before).1 in
      Known w ⊎ NotAdded (signer.add_output start (next_child env before).0) w
  unfolding receive_output add_output_to_slate ◌>>=◌
  receive_output-Known = finished-Known (signer.add_output start (next_child env before).0)
