-- ===== src/Updater/Info.antt =====
-- `retrieve_info` (libwallet/src/internal/updater.rs): the wallet's balance by category.
pub mod Balance
use vcash_wallet.Base.{
  ℕ, Bool, ◌&&◌, Option, none, some, List, [], ◌∷◌, ltb, ◌==◌, filter, if◌then◌else◌, add64,
}
use vcash_wallet.Types.Status.{Identifier, TokenType, OutputStatus}
use vcash_wallet.Types.Output
use vcash_wallet.Types.Output.{OutputData}
use vcash_wallet.Types.TokenOutput
use vcash_wallet.Types.TokenOutput.{TokenOutputData}
use vcash_wallet.Types.Info.{WalletInfo, WalletTokenInfo}
use vcash_wallet.Backend.{Wallet, last_confirmed_height}

-- The running totals of the first loop.
pub record Totals : Type 0 where
  pub unspent : ℕ
  pub immature : ℕ
  pub awaiting_finalization : ℕ
  pub unconfirmed : ℕ
  pub locked : ℕ
  pub reverted : ℕ

abbrev pub no_totals : Totals
no_totals = record {
  unspent = 0;
  immature = 0;
  awaiting_finalization = 0;
  unconfirmed = 0;
  locked = 0;
  reverted = 0;
}

-- Where the value of an output is added.
pub data Category : Type 0 where
  unspent immature awaiting_finalization unconfirmed locked reverted ignored : Category

module _ (current_height minimum_confirmations : ℕ) where
  abbrev category_by : OutputStatus → OutputData → Category
  category_by OutputStatus.unspent out =
      if out.is_coinbase && ltb current_height out.lock_height
      then Category.immature
      else if ltb (Output.num_confirmations out current_height) minimum_confirmations
      then Category.unconfirmed
      else Category.unspent
  category_by OutputStatus.unconfirmed out =
      if out.is_coinbase
      then Category.ignored
      else if minimum_confirmations == 0
      then Category.unconfirmed
      else Category.awaiting_finalization
  category_by OutputStatus.locked out = Category.locked
  category_by OutputStatus.reverted out = Category.reverted
  category_by OutputStatus.spent out = Category.ignored

  unfoldable pub category : OutputData → Category
  category out = category_by out.status out

  abbrev pub add_to : Category → ℕ → Totals → Totals
  add_to Category.unspent v t = record t { unspent = add64 t.unspent v }
  add_to Category.immature v t = record t { immature = add64 t.immature v }
  add_to Category.awaiting_finalization v t = record t {
    awaiting_finalization = add64 t.awaiting_finalization v;
  }
  add_to Category.unconfirmed v t = record t { unconfirmed = add64 t.unconfirmed v }
  add_to Category.locked v t = record t { locked = add64 t.locked v }
  add_to Category.reverted v t = record t { reverted = add64 t.reverted v }
  add_to Category.ignored v t = t

  unfoldable pub add_totals : List OutputData → Totals → Totals
  unfolding category
  add_totals [] t = t
  add_totals (out ∷ outs) t = add_totals outs (add_to (category out) out.value t)

  abbrev new_token_info : TokenType → WalletTokenInfo
  new_token_info token_type = record {
    token_type = token_type;
    amount_awaiting_finalization = 0;
    amount_awaiting_confirmation = 0;
    amount_currently_spendable = 0;
    amount_locked = 0;
    amount_reverted = 0;
  }

  abbrev add_token_by : OutputStatus → TokenOutputData → WalletTokenInfo → WalletTokenInfo
  add_token_by OutputStatus.unspent out i =
      if ltb (TokenOutput.num_confirmations out current_height) minimum_confirmations
      then record i {
        amount_awaiting_confirmation = add64 i.amount_awaiting_confirmation out.value;
      }
      else record i { amount_currently_spendable = add64 i.amount_currently_spendable out.value }
  add_token_by OutputStatus.unconfirmed out i =
      if minimum_confirmations == 0
      then record i {
        amount_awaiting_confirmation = add64 i.amount_awaiting_confirmation out.value;
      }
      else record i {
        amount_awaiting_finalization = add64 i.amount_awaiting_finalization out.value;
      }
  add_token_by OutputStatus.locked out i = record i {
    amount_locked = add64 i.amount_locked out.value;
  }
  add_token_by OutputStatus.reverted out i = record i {
    amount_reverted = add64 i.amount_reverted out.value;
  }
  add_token_by OutputStatus.spent out i = i

  -- `token_infos.entry(…).or_insert(…)`, and what the output adds to the entry.
  unfoldable pub add_token : TokenOutputData → List WalletTokenInfo → List WalletTokenInfo
  add_token out [] = add_token_by out.status out (new_token_info out.token_type) ∷ []
  add_token out (i ∷ is) =
      if i.token_type == out.token_type
      then add_token_by out.status out i ∷ is
      else i ∷ add_token out is

  unfoldable pub add_tokens : List TokenOutputData → List WalletTokenInfo → List WalletTokenInfo
  unfolding add_token
  add_tokens [] infos = infos
  add_tokens (out ∷ outs) infos = add_tokens outs (add_token out infos)

unfoldable pub retrieve_info : Wallet → Identifier → ℕ → WalletInfo
unfolding add_totals add_tokens last_confirmed_height
retrieve_info w parent_key_id minimum_confirmations =
    let current_height = last_confirmed_height w in
    let t =
      add_totals current_height minimum_confirmations
        (filter (λ o. o.root_key_id == parent_key_id) w.outputs) no_totals in
    record {
      last_confirmed_height = current_height;
      minimum_confirmations = minimum_confirmations;
      total = add64 (add64 t.unspent t.unconfirmed) t.immature;
      amount_awaiting_finalization = t.awaiting_finalization;
      amount_awaiting_confirmation = t.unconfirmed;
      amount_immature = t.immature;
      amount_currently_spendable = t.unspent;
      amount_locked = t.locked;
      amount_reverted = t.reverted;
      token_infos =
          add_tokens current_height minimum_confirmations
            (filter (λ o. o.root_key_id == parent_key_id) w.token_outputs) [];
    }
