-- ===== src/Accounts.antt =====
-- The accounts of a wallet (libwallet/src/internal/keys.rs, impls/src/backends/lmdb.rs).
pub mod Distinct
use vcash_wallet.Base.{
  ℕ, ◌+◌, ◌%◌, ◌^◌, ◌<◌, ◌≡◌, Bool, Option, none, some, List, [], ◌∷◌, ltb, ◌==◌, find?, any,
  if◌then◌else◌, Outcome, ok, err,
}
use vcash_wallet.Types.Status.{Identifier}
use vcash_wallet.Backend.{AcctPathMapping, Wallet}
use vcash_wallet.Backend.Table.{put}

pub data AccountError : Type 0 where
  account_label_already_exists : AccountError
  unknown_account_label : AccountError

-- Key paths of the keychain: `u32::from` of the first index of an identifier's path, the identifier
-- with another first index, and the path of the default account.
pub record Paths : Type 0 where
  pub first : Identifier → ℕ
  pub with_first : ℕ → Identifier → Identifier
  pub default_path : Identifier
  pub first-with_first : (n : ℕ) (id : Identifier) → n < 2 ^ 32 → first (with_first n id) ≡ n

abbrev pub has_label : ℕ → AcctPathMapping → Bool
has_label label a = a.label == label

abbrev pub accounts : Wallet → List AcctPathMapping
accounts w = w.acct_paths

unfoldable pub get_acct_path : ℕ → Wallet → Option AcctPathMapping
get_acct_path label w = find? (has_label label) w.acct_paths

unfoldable pub save_acct_path : AcctPathMapping → Wallet → Wallet
save_acct_path a w = record w { acct_paths = put (has_label a.label) a w.acct_paths }

unfoldable pub set_parent_key_id_by_name : ℕ → Wallet → Outcome AccountError Wallet
set_parent_key_id_by_name label w = elim (find? (has_label label) w.acct_paths) [
  | none ↦ err unknown_account_label
  | some a ↦ ok (record w { parent_key_id = a.path })
]

unfoldable pub set_acct_path : ℕ → Identifier → Wallet → Wallet
unfolding save_acct_path
set_acct_path label path w = save_acct_path (record { label = label; path = path }) w

module _ (paths : Paths) where
  -- `max_by` on the first index: the last one of the largest.
  abbrev pub highest_from : AcctPathMapping → List AcctPathMapping → AcctPathMapping
  highest_from best [] = best
  highest_from best (a ∷ others) =
      highest_from (if ltb (paths.first a.path) (paths.first best.path) then best else a) others

  abbrev pub highest_entry : List AcctPathMapping → Option AcctPathMapping
  highest_entry [] = none
  highest_entry (a ∷ others) = some (highest_from a others)

  abbrev pub next_path : Option AcctPathMapping → Identifier
  next_path none = paths.default_path
  next_path (some e) = paths.with_first ((paths.first e.path + 1) % 2 ^ 32) e.path

  unfoldable pub new_acct_path : ℕ → Wallet → Outcome AccountError (Identifier × Wallet)
  unfolding save_acct_path
  new_acct_path label w =
      if any (has_label label) w.acct_paths
      then err account_label_already_exists
      else let id = next_path (highest_entry w.acct_paths) in
        ok (id, save_acct_path (record { label = label; path = id }) w)
