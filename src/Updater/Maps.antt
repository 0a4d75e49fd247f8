-- ===== src/Updater/Maps.antt =====
-- `map_wallet_outputs`, `find_reverted_kernels` and their copies for tokens
-- (libwallet/src/internal/updater.rs). A HashMap is a list of its entries, in the order in which it
-- is walked, which the code leaves open; a HashSet is the list of its elements.
use vcash_wallet.Base.{
  ℕ, Bool, true, false, not, ◌&&◌, Option, none, some, List, [], ◌∷◌, ◌++◌, map, ◌==◌, filter, any,
  if◌then◌else◌, is_some,
}
use vcash_wallet.Env.{Env}
use vcash_wallet.Types.Status.{Identifier, Commitment, TokenType, OutputStatus, status_eq}
use vcash_wallet.Types.Output.{OutputData}
use vcash_wallet.Types.TokenOutput.{TokenOutputData}
use vcash_wallet.Types.TxLog.{TxLogEntry, TxLogEntryType, type_eq}
use vcash_wallet.Types.TokenTxLog.{TokenTxLogEntry, TokenTxLogEntryType, type_eq as token_type_eq}
use vcash_wallet.Backend.{Wallet}
use vcash_wallet.Backend.Table.{put}
use vcash_wallet.Updater.Query.{retrieve_txs, retrieve_token_txs, commit_of, token_commit_of}

-- What is kept of an output: key id, mmr index, log entry and whether it was unspent.
pub record Tracked : Type 0 where
  pub key_id : Identifier
  pub mmr_index : Option ℕ
  pub tx_log_entry : Option ℕ
  pub was_unspent : Bool

abbrev pub OutputMap : Type 0
OutputMap = List (Commitment × Tracked)

-- What the node returns for a commitment: the height and the mmr index of the output.
pub record ApiOutput : Type 0 where
  pub height : ℕ
  pub mmr_index : ℕ

abbrev pub ApiMap : Type 0
ApiMap = List (Commitment × ApiOutput)

abbrev pub api_get : Commitment → ApiMap → Option ApiOutput
api_get c [] = none
api_get c ((d, o) ∷ m) = if d == c then some o else api_get c m

abbrev pub contains : ℕ → List ℕ → Bool
contains i ids = any (λ j. j == i) ids

module _ (env : Env) where
  abbrev track : OutputData → Commitment × Tracked
  track o = (
    commit_of env o,
    record {
      key_id = o.key_id;
      mmr_index = o.mmr_index;
      tx_log_entry = o.tx_log_entry;
      was_unspent = status_eq o.status OutputStatus.unspent;
    },
  )

  abbrev track_token : TokenOutputData → Commitment × Tracked
  track_token o = (
    token_commit_of env o,
    record {
      key_id = o.key_id;
      mmr_index = o.mmr_index;
      tx_log_entry = o.tx_log_entry;
      was_unspent = status_eq o.status OutputStatus.unspent;
    },
  )

-- The outputs of an account that are not spent, and, unless all are asked for, of no transaction or
-- of an outstanding one.
abbrev is_mapped : Identifier → Bool → List TxLogEntry → List TokenTxLogEntry → OutputData → Bool
is_mapped parent_key_id update_all txs token_txs o =
    o.root_key_id == parent_key_id
    && not (status_eq o.status OutputStatus.spent)
    && (if update_all then true else elim o.tx_log_entry [
      | none ↦ true
      | some t ↦ if any (λ te. te.id == t) txs then true else any (λ te. te.id == t) token_txs
    ])

abbrev is_token_mapped : Identifier → Bool → List TokenTxLogEntry → TokenOutputData → Bool
is_token_mapped parent_key_id update_all token_txs o =
    o.root_key_id == parent_key_id
    && not (status_eq o.status OutputStatus.spent)
    && (if update_all
        then true
        else elim o.tx_log_entry [ none ↦ true | some t ↦ any (λ te. te.id == t) token_txs ])

-- `HashMap::insert`, from the front of a list on.
insert_all : List (Commitment × Tracked) → OutputMap → OutputMap
insert_all [] m = m
insert_all (e ∷ es) m = insert_all es (put (λ d. d.0 == e.0) e m)

unfoldable pub map_wallet_outputs : Env → Wallet → Identifier → Bool → OutputMap
unfolding insert_all
map_wallet_outputs env w parent_key_id update_all =
    let txs = retrieve_txs w none none (some parent_key_id) true in
    let token_txs = retrieve_token_txs w none none (some parent_key_id) true in
    insert_all
      (map (track env) (filter (is_mapped parent_key_id update_all txs token_txs) w.outputs)) []

-- The entry of a token type, or a new one, with an output put into it.
put_token :
    TokenType → Commitment × Tracked → List (TokenType × OutputMap) → List (TokenType × OutputMap)
put_token k e [] = (k, e ∷ []) ∷ []
put_token k e ((j, m) ∷ ms) =
    if j == k then (j, put (λ d. d.0 == e.0) e m) ∷ ms else (j, m) ∷ put_token k e ms

insert_tokens :
    Env → List TokenOutputData → List (TokenType × OutputMap) → List (TokenType × OutputMap)
unfolding put_token
insert_tokens env [] m = m
insert_tokens env (o ∷ os) m = insert_tokens env os (put_token o.token_type (track_token env o) m)

unfoldable pub map_wallet_token_outputs :
    Env → Wallet → Identifier → Bool → List (TokenType × OutputMap)
unfolding insert_tokens
map_wallet_token_outputs env w parent_key_id update_all =
    let token_txs = retrieve_token_txs w none none (some parent_key_id) true in
    insert_tokens env (filter (is_token_mapped parent_key_id update_all token_txs) w.token_outputs)
      []

-- The log ids of outputs that were unspent and that the node no longer has.
unfoldable pub vanished_ids : OutputMap → ApiMap → List ℕ
vanished_ids [] api = []
vanished_ids ((c, t) ∷ m) api =
    let rest = vanished_ids m api in
    elim t.tx_log_entry [
      | none ↦ rest
      | some id ↦ if t.was_unspent && not (is_some (api_get c api)) then id ∷ rest else rest
    ]

-- The ids of the received transactions among these whose kernel the node does not find.
-- `get_kernel` says whether the node has a kernel, by its excess and the lowest height to look at.
module _ (get_kernel : Commitment → Option ℕ → Bool) where
  abbrev is_reverted : List ℕ → Identifier → TxLogEntry → Bool
  is_reverted ids parent_key_id t =
      contains t.id ids
      && t.parent_key_id == parent_key_id
      && type_eq t.tx_type TxLogEntryType.tx_received
      && elim t.kernel_excess [
        | none ↦ false
        | some e ↦ not (get_kernel e t.kernel_lookup_min_height)
      ]

  unfoldable pub find_reverted_kernels : Wallet → OutputMap → ApiMap → Identifier → List ℕ
  unfolding vanished_ids
  find_reverted_kernels w wallet_outputs api_outputs parent_key_id =
      map (λ t. t.id)
        (filter (is_reverted (vanished_ids wallet_outputs api_outputs) parent_key_id)
          (map (λ e. e.1) w.tx_log))

  abbrev is_token_reverted : List ℕ → Identifier → TokenTxLogEntry → Bool
  is_token_reverted ids parent_key_id t =
      contains t.id ids
      && t.parent_key_id == parent_key_id
      && token_type_eq t.tx_type TokenTxLogEntryType.token_tx_received
      && elim t.token_kernel_excess [
        | none ↦ false
        | some e ↦ not (get_kernel e t.kernel_lookup_min_height)
      ]

  -- The ids that vanished from the maps of all token types.
  vanished_token_ids : List (TokenType × OutputMap) → ApiMap → List ℕ
  vanished_token_ids [] api = []
  vanished_token_ids ((_, m) ∷ ms) api = vanished_ids m api ++ vanished_token_ids ms api

  unfoldable pub find_reverted_token_kernels :
      Wallet → List (TokenType × OutputMap) → ApiMap → Identifier → List ℕ
  unfolding vanished_token_ids
  find_reverted_token_kernels w wallet_outputs api_outputs parent_key_id =
      map (λ t. t.id)
        (filter (is_token_reverted (vanished_token_ids wallet_outputs api_outputs) parent_key_id)
          (map (λ e. e.1) w.token_tx_log))
