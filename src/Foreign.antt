-- ===== src/Foreign.antt =====
-- Receiving a slate (`receive_tx` of libwallet/src/api_impl/foreign.rs, `add_output_to_slate` of
-- libwallet/src/internal/tx.rs, `check_ttl` of libwallet/src/api_impl/owner.rs). What the slate's
-- transaction, keys and signatures go through is a parameter, `Signer`; its `add_output` is what can
-- fail in `build_recipient_output` (libwallet/src/internal/selection.rs) before the log is written. A
-- call returns the wallet also where it fails: what was committed before the failure stays.
pub mod Found
pub mod Keeps
pub mod Again
use vcash_wallet.Base.{
  ℕ, Bool, true, false, not, ◌&&◌, Option, none, some, List, ltb, leb, ◌==◌, any, if◌then◌else◌,
  Outcome, ok, err, panic, timeout,
}
use vcash_wallet.Env.{Env}
use vcash_wallet.Types.Status.{Identifier, Commitment, TokenType, SlateId, Time}
use vcash_wallet.Types.TxLog.{TxLogEntry, TxLogEntryType, type_eq}
use vcash_wallet.Types.TokenTxLog.{TokenTxLogEntry, TokenTxLogEntryType, type_eq as token_type_eq}
use vcash_wallet.Types.Context.{Context}
use vcash_wallet.Backend.{
  Wallet, next_child, last_confirmed_height, save_tx_log_entry, save_token_tx_log_entry,
}
use vcash_wallet.Accounts.{get_acct_path}
use vcash_wallet.Updater.Query.{retrieve_txs, retrieve_token_txs}
use vcash_wallet.Selection.Lock.{SlateView}
use vcash_wallet.Selection.Build.{Recipient, build_recipient_output}

-- `SlateState` and `PaymentInfo` of libwallet/src/slate.rs.
pub data SlateState : Type 0 where
  unknown standard1 standard2 standard3 invoice1 invoice2 invoice3 : SlateState

pub record PaymentInfo : Type 0 where
  pub sender_address : ℕ
  pub receiver_address : ℕ
  pub receiver_signature : Option ℕ

-- What the call reads and writes of a slate; `tx` stands for its transaction with the participants'
-- data.
pub record Slate : Type 0 where
  pub version : ℕ
  pub id : SlateId
  pub state : SlateState
  pub amount : ℕ
  pub fee : ℕ
  pub ttl_cutoff_height : ℕ
  pub token_type : Option TokenType
  pub payment_proof : Option PaymentInfo
  pub tx : ℕ

pub data FlowError : Type 0 where
  transaction_expired : FlowError
  transaction_already_received : FlowError
  -- An error of the keychain, of the slate or of the signing.
  signing : FlowError

abbrev pub Signed : Type 0 → Type 0
Signed A = Outcome FlowError A

-- `Transaction::empty`, the output with its blinding factors, the two rounds of a slate, its excess,
-- the signature of a payment proof, and `remove_other_sigdata`.
pub record Signer : Type 0 where
  pub empty_tx : ℕ
  -- The new transaction and the blinding factors, for a key; it reads the token type too.
  pub add_output : Slate → Identifier → Signed (ℕ × (ℕ × ℕ))
  pub fill_round_1 : Context → Slate → Signed (Slate × Context)
  pub fill_round_2 : Context → Slate → Signed Slate
  pub calc_excess : Slate → Signed Commitment
  pub payment_proof_signature : Option TokenType → ℕ → Commitment → ℕ → Identifier → Signed ℕ
  pub remove_other_sigdata : Context → Slate → Signed Slate

-- Steps that may fail and leave the wallet changed.
abbrev pub Step : Type 0 → Type 0
Step A = Wallet → Signed A × Wallet

abbrev pub pure : {A : Type 0} → A → Step A
pure a w = (ok a, w)

abbrev pub lift : {A : Type 0} → Signed A → Step A
lift o w = (o, w)

infixl 5 ◌>>=◌
abbrev pub resume : {A B : Type 0} → Signed A → (A → Step B) → Step B
resume (ok a) f w = f a w
resume (err e) f w = (err e, w)
resume panic f w = (panic, w)
resume timeout f w = (timeout, w)

unfoldable pub ◌>>=◌ : {A B : Type 0} → Step A → (A → Step B) → Step B
◌>>=◌ m f w = let r = m w in resume r.0 f r.1

abbrev pub is_compact : Slate → Bool
is_compact s = leb 4 s.version

abbrev pub is_expired : Slate → Wallet → Bool
is_expired s w = not (s.ttl_cutoff_height == 0) && leb s.ttl_cutoff_height (last_confirmed_height w)

-- The account that a payment goes to.
abbrev pub parent_of : Option ℕ → Wallet → Identifier
parent_of none w = w.parent_key_id
parent_of (some label) w = elim (get_acct_path label w) [ none ↦ w.parent_key_id | some a ↦ a.path ]

-- The flag of the test random numbers is handed on as the one for outstanding transactions only.
unfoldable pub is_received : SlateId → Option TokenType → Identifier → Bool → Wallet → Bool
is_received id none parent use_test_rng w =
    any (λ t. type_eq t.tx_type TxLogEntryType.tx_received)
      (retrieve_txs w none (some id) (some parent) use_test_rng)
is_received id (some token_type) parent use_test_rng w =
    any (λ t. token_type_eq t.tx_type TokenTxLogEntryType.token_tx_received)
      (retrieve_token_txs w none (some id) (some parent) use_test_rng)

module _ (env : Env) (signer : Signer) (fresh_nonce test_nonce : ℕ) (now : Time)
    (use_test_rng : Bool) where
  abbrev pub view_of : Slate → SlateView
  view_of s = record {
    id = s.id;
    token_type = s.token_type;
    ttl_cutoff_height = s.ttl_cutoff_height;
    payment_proof = none;
    excess = elim (signer.calc_excess s) [ ok e ↦ some e | _ ↦ none ];
    has_tx = true;
  }

  -- The excess of the signed slate is written into the log entry.
  abbrev pub log_excess : Identifier → Slate → Option TxLogEntry → Step Unit
  log_excess parent s none = pure tt
  log_excess parent s (some t) = lift (signer.calc_excess s) >>= λ e.
      λ w. (ok tt, save_tx_log_entry (record t { kernel_excess = some e }) parent w)

  abbrev pub log_token_excess : Identifier → Slate → Option TokenTxLogEntry → Step Unit
  log_token_excess parent s none = pure tt
  log_token_excess parent s (some t) = lift (signer.calc_excess s) >>= λ e.
      λ w. (ok tt, save_token_tx_log_entry (record t { kernel_excess = some e }) parent w)

  -- `add_output_to_slate` behind `build_recipient_output`.
  abbrev pub sign_output : Identifier → Bool → Slate → Recipient → Step (Slate × Context)
  sign_output parent is_initiator s r = lift (signer.fill_round_1 r.context s) >>= λ round_1.
      let context = record round_1.1 { initial_sec_key = (round_1.1).sec_key } in
      if is_initiator
      then pure (round_1.0, context)
      else lift (signer.fill_round_2 context round_1.0) >>= λ round_2.
          log_excess parent round_2 r.entry >>= λ u.
          log_token_excess parent round_2 r.token_entry >>= λ u'. pure (round_2, context)

  -- `build_recipient_output` for the slate that has its output, and the steps behind it.
  abbrev pub sign_built :
      Slate → ℕ → Identifier → Bool → ℕ × (ℕ × ℕ) → Wallet → Signed (Slate × Context) × Wallet
  sign_built s height parent is_initiator (tx, keys) w =
      let with_output = record s { tx = tx } in
      let r =
        build_recipient_output env keys fresh_nonce test_nonce now (view_of with_output) s.amount
          s.fee height parent is_initiator use_test_rng w in
      sign_output parent is_initiator with_output r r.wallet

  -- Where no output can be added, the child index of its key is taken all the same.
  abbrev pub sign_added :
      Slate
      → ℕ
      → Identifier
      → Bool
      → Signed (ℕ × (ℕ × ℕ))
      → Wallet
      → Signed (Slate × Context) × Wallet
  sign_added s height parent is_initiator (ok made) w =
      sign_built s height parent is_initiator made w
  sign_added s height parent is_initiator (err e) w = (err e, (next_child env w).1)
  sign_added s height parent is_initiator panic w = (panic, (next_child env w).1)
  sign_added s height parent is_initiator timeout w = (timeout, (next_child env w).1)

  unfoldable pub add_output_to_slate : Slate → ℕ → Identifier → Bool → Step (Slate × Context)
  unfolding next_child
  add_output_to_slate s height parent is_initiator w =
      sign_added s height parent is_initiator (signer.add_output s (next_child env w).0) w

  abbrev pub sign_proof : Slate → Commitment → Identifier → Option PaymentInfo → Step Slate
  sign_proof s excess parent none = pure s
  sign_proof s excess parent (some p) =
      lift (signer.payment_proof_signature s.token_type s.amount excess p.sender_address parent)
      >>= λ sig.
          pure (record s { payment_proof = some (record p { receiver_signature = some sig }) })

  abbrev pub strip : Context → Slate → Step Slate
  strip context s =
      if is_compact s
      then lift (signer.remove_other_sigdata context (record s { amount = 0; fee = 0 }))
      else pure s

  -- From the signed output on.
  abbrev pub finish : Identifier → Slate × Context → Step Slate
  finish parent added = do
    excess ← lift (signer.calc_excess added.0)
    signed ← sign_proof added.0 excess parent (added.0).payment_proof
    stripped ← strip added.1 signed
    pure (record stripped { state = SlateState.standard2 })

  -- From the new output on.
  unfoldable pub receive_output : Identifier → Slate → Step Slate
  unfolding add_output_to_slate
  receive_output parent s w =
      let ready = record s { tx = if is_compact s then signer.empty_tx else s.tx } in
      (add_output_to_slate ready (last_confirmed_height w) parent false >>= finish parent) w

  unfoldable pub receive_tx : Option ℕ → Slate → Step Slate
  unfolding receive_output
  receive_tx dest_acct_name s w =
      if is_expired s w
      then (err transaction_expired, w)
      else let parent = parent_of dest_acct_name w in
        if is_received s.id s.token_type parent use_test_rng w
        then (err transaction_already_received, w)
        else receive_output parent s w
