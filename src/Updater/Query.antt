-- ===== src/Updater/Query.antt =====
-- `retrieve_outputs`, `retrieve_txs` and their copies for tokens
-- (libwallet/src/internal/updater.rs).
use mathlib.Core.Option.{get_or}
use vcash_wallet.Base.{
  ℕ, Bool, true, not, ◌&&◌, ◌||◌, Option, none, some, List, map, ◌==◌, option_eq, filter,
  sort_by_key,
}
use vcash_wallet.Env.{Env}
use vcash_wallet.Types.Status.{Identifier, Commitment, SlateId, OutputStatus, status_eq}
use vcash_wallet.Types.Output.{OutputData}
use vcash_wallet.Types.TokenOutput.{TokenOutputData}
use vcash_wallet.Types.TxLog.{TxLogEntry, TxLogEntryType, type_eq}
use vcash_wallet.Types.TokenTxLog.{TokenTxLogEntry, TokenTxLogEntryType, type_eq as token_type_eq}
use vcash_wallet.Backend.{Wallet}

-- A test that is made only where a value is given.
abbrev pub if_given : Option ℕ → (ℕ → Bool) → Bool
if_given none p = true
if_given (some a) p = p a

module _ (env : Env) where
  -- The cached commitment of an output, or a fresh one.
  abbrev pub commit_of : OutputData → Commitment
  commit_of o = get_or o.commit (env.commit o.value o.key_id)

  abbrev pub token_commit_of : TokenOutputData → Commitment
  token_commit_of o = get_or o.commit (env.commit o.value o.key_id)

abbrev pub is_retrieved : Bool → Option ℕ → Option Identifier → OutputData → Bool
is_retrieved show_spent tx_id parent_key_id out =
    (show_spent || not (status_eq out.status OutputStatus.spent))
    && if_given tx_id (λ id. option_eq out.tx_log_entry (some id))
    && if_given parent_key_id (λ k. out.root_key_id == k)

abbrev pub is_token_retrieved : Bool → Option ℕ → Option Identifier → TokenOutputData → Bool
is_token_retrieved show_spent tx_id parent_key_id out =
    (show_spent || not (status_eq out.status OutputStatus.spent))
    && if_given tx_id (λ id. option_eq out.tx_log_entry (some id))
    && if_given parent_key_id (λ k. out.root_key_id == k)

-- The outputs alone, in the order of `retrieve_outputs`.
unfoldable pub retrieved : Wallet → Bool → Option ℕ → Option Identifier → List OutputData
retrieved w show_spent tx_id parent_key_id =
    sort_by_key (λ o. o.n_child) (filter (is_retrieved show_spent tx_id parent_key_id) w.outputs)

unfoldable pub token_retrieved : Wallet → Bool → Option ℕ → Option Identifier → List TokenOutputData
token_retrieved w show_spent tx_id parent_key_id =
    sort_by_key (λ o. o.n_child)
      (filter (is_token_retrieved show_spent tx_id parent_key_id) w.token_outputs)

unfoldable pub retrieve_outputs :
    Env → Wallet → Bool → Option ℕ → Option Identifier → List (OutputData × Commitment)
unfolding retrieved
retrieve_outputs env w show_spent tx_id parent_key_id =
    map (λ o. (o, commit_of env o)) (retrieved w show_spent tx_id parent_key_id)

unfoldable pub retrieve_token_outputs :
    Env → Wallet → Bool → Option ℕ → Option Identifier → List (TokenOutputData × Commitment)
unfolding token_retrieved
retrieve_token_outputs env w show_spent tx_id parent_key_id =
    map (λ o. (o, token_commit_of env o)) (token_retrieved w show_spent tx_id parent_key_id)

abbrev pub is_outstanding : TxLogEntry → Bool
is_outstanding t =
    not t.confirmed
    && (type_eq t.tx_type TxLogEntryType.tx_received
        || type_eq t.tx_type TxLogEntryType.tx_sent
        || type_eq t.tx_type TxLogEntryType.tx_reverted)

abbrev pub is_token_outstanding : TokenTxLogEntry → Bool
is_token_outstanding t =
    not t.confirmed
    && (token_type_eq t.tx_type TokenTxLogEntryType.token_tx_received
        || token_type_eq t.tx_type TokenTxLogEntryType.token_tx_sent
        || token_type_eq t.tx_type TokenTxLogEntryType.token_issue
        || token_type_eq t.tx_type TokenTxLogEntryType.token_tx_reverted)

abbrev pub is_queried : Option ℕ → Option SlateId → Option Identifier → Bool → TxLogEntry → Bool
is_queried tx_id tx_slate_id parent_key_id outstanding_only t =
    if_given parent_key_id (λ k. t.parent_key_id == k)
    && if_given tx_id (λ i. t.id == i)
    && if_given tx_slate_id (λ u. option_eq t.tx_slate_id (some u))
    && (not outstanding_only || is_outstanding t)

abbrev pub is_token_queried :
    Option ℕ → Option SlateId → Option Identifier → Bool → TokenTxLogEntry → Bool
is_token_queried tx_id tx_slate_id parent_key_id outstanding_only t =
    if_given parent_key_id (λ k. t.parent_key_id == k)
    && if_given tx_id (λ i. t.id == i)
    && if_given tx_slate_id (λ u. option_eq t.tx_slate_id (some u))
    && (not outstanding_only || is_token_outstanding t)

unfoldable pub retrieve_txs :
    Wallet → Option ℕ → Option SlateId → Option Identifier → Bool → List TxLogEntry
retrieve_txs w tx_id tx_slate_id parent_key_id outstanding_only =
    sort_by_key (λ t. t.creation_ts)
      (filter (is_queried tx_id tx_slate_id parent_key_id outstanding_only)
        (map (λ e. e.1) w.tx_log))

unfoldable pub retrieve_token_txs :
    Wallet → Option ℕ → Option SlateId → Option Identifier → Bool → List TokenTxLogEntry
retrieve_token_txs w tx_id tx_slate_id parent_key_id outstanding_only =
    sort_by_key (λ t. t.creation_ts)
      (filter (is_token_queried tx_id tx_slate_id parent_key_id outstanding_only)
        (map (λ e. e.1) w.token_tx_log))
