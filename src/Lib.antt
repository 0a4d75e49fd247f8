-- ===== src/Lib.antt =====
-- vcash-wallet: the core of the wallet library, its coin selection, its bookkeeping and the
-- slatepacks that carry a transaction between two wallets.
--
-- The wallet keeps a store of outputs, of token outputs and of a log of transactions for each. A
-- payment selects coins of the store that cover an amount and a fee and makes change outputs. A
-- refresh asks a node for the outputs, moves them between their statuses and confirms or reverts
-- the transactions that they belong to. A cancelled transaction gives its outputs free. A report
-- adds up the outputs by category, and a miner's request stores a coinbase output. A transaction
-- under way, the slate, is written in binary form, put into a slatepack that may be encrypted for
-- its recipients, and armored as text; the other wallet takes the same steps back. A scan compares
-- the store with the chain's outputs that are the wallet's and repairs it.
--
-- The files, and what they model:
--   Base (Lists, Tests, Word, Call): Rust's slices and iterators, u64 arithmetic, results of calls.
--     A call ends in a value, an error or a panic; `timeout` is a loop that has used up its fuel.
--   Types: libwallet/src/types.rs. One module for each struct, with its methods as functions.
--   Env: what is called of other crates, as the fields of a record that the models take.
--   Backend: impls/src/backends/lmdb.rs. Each table of the store is a list of its records, found by
--     their key; Backend/Laws is about reads after writes.
--   Selection: libwallet/src/internal/selection.rs. Coins (`select_coins`, `select_from`), Fee
--     (`select_coins_and_fee`), Change (`inputs_and_change`, `select_send_tx`), Lock
--     (`lock_tx_context`), Build (`build_send_tx`, `build_recipient_output`) and Build/Token
--     (`build_send_token_tx`). All stand beside their copies for tokens.
--   Updater: libwallet/src/internal/updater.rs. Query (`retrieve_outputs`, `retrieve_txs`), Maps
--     (`map_wallet_outputs`, `find_reverted_kernels`), Apply and ApplyTokens (`apply_api_outputs`,
--     `refresh_output_state`, `clean_old_unconfirmed`), Cancel (with `cancel_tx` of
--     libwallet/src/internal/tx.rs), Info (`retrieve_info`), Coinbase (`receive_coinbase`, with
--     libwallet/src/internal/keys.rs).
--   Accounts: the account functions of libwallet/src/internal/keys.rs and of the store.
--   Foreign: `receive_tx` of libwallet/src/api_impl/foreign.rs, with `add_output_to_slate` of
--     libwallet/src/internal/tx.rs and `check_ttl` of libwallet/src/api_impl/owner.rs. What signing
--     does is a parameter, and a call that fails returns the wallet that it leaves.
--   Slate: libwallet/src/slate.rs. Signing (what is signed, sums and checks of signatures), Rounds
--     (`fill_round_1`, `fill_round_2`), Finalize (`finalize`), Versions and Transactions (the
--     conversions to and from version 4). Secp, Keychain and Validator are records of the functions
--     that are called of secp256k1, the keychain and `grin_core`; `none` and false are their errors.
--   SlateVersions: libwallet/src/slate_versions. V4 (the structs of v4.rs), V4Bin (v4_bin.rs), with
--     the conversions of output features of libwallet/src/slate.rs. Wire is the interface to the
--     readers and writers of `grin_core::ser`: what they write they read back. A writer puts its
--     bytes in front of those behind it; a reader returns what it leaves over.
--   Slatepack: libwallet/src/slatepack. Types, Write and Read (types.rs, address.rs), Crypt
--     (`try_encrypt_payload`, `try_decrypt_payload`), Armor (armor.rs), Packer and Slates
--     (packer.rs); the other files are about these. bech32, Base58, SHA256 and age are records of
--     functions with the laws that the code relies on.
--   Scan: libwallet/src/internal/scan.rs. The repair of the wallet after the chain is in Scan itself,
--     the rewinding of outputs and the loop over the node's replies in Collect.
--   Payment: the payment proofs of libwallet/src/internal/tx.rs, with libwallet/src/address.rs and
--     the addresses of util/src/ov3.rs.
--   Runs: a wallet on which the models are run.
--
-- Numbers: heights, amounts and values are u64s as natural numbers, and sums and differences wrap
-- around as in a release build; bytes and characters are numbers. Identifiers, commitments, token
-- types, slate ids and times are only compared, so they are numbers. A call that changes the store
-- takes the wallet and returns it; what a batch writes is there at once, and a call that fails
-- returns no wallet, but in Foreign.
--
-- Fuel: the loop of `select_coins_and_fee` runs on the number of eligible outputs and 3. Each
-- round that goes on has more coins than the last one, so this is enough (Selection/Fee/Ends). The
-- loop of `collect_chain_outputs` runs on one more than the last index of the range; each round
-- that goes on starts past the last one, so this is enough for a node that stays in its range
-- (Scan/Collect/Ends).
--
-- Not modelled: failures of the disk, the keychain and the network, log lines and texts of errors,
-- the building of a transaction's elements, of libwallet/src/internal/tx.rs all but `cancel_tx`,
-- `add_output_to_slate` and the payment proofs, version 3 of a slate and the JSON forms, the
-- scan of the chain for tokens, the APIs, the controller and the command line; of
-- libwallet/src/internal/selection.rs the issue of a token and `repopulate_tx`. The blinding
-- factors of a slate are arguments.
pub mod Base
pub mod Types
pub mod Env
pub mod Backend
pub mod Selection
pub mod Updater
pub mod Accounts
pub mod Foreign
pub mod Slate
pub mod Scan
pub mod Payment
pub mod SlateVersions
pub mod Slatepack
pub mod Runs
