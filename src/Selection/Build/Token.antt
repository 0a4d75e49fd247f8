-- ===== src/Selection/Build/Token.antt =====
-- `build_send_token_tx` (libwallet/src/internal/selection.rs), as far as the wallet and the private
-- context go: the blinding factors of the coins and of the tokens are functions of all the elements.
pub mod Fees
use vcash_wallet.Base.{
  ℕ, ◌+◌, ◌-◌, Bool, true, not, Option, none, some, List, [], ◌∷◌, ◌++◌, length, Outcome, ok, err,
  ◌>>=◌,
}
use vcash_wallet.Env.{Env}
use vcash_wallet.Types.Status.{Identifier, TokenType}
use vcash_wallet.Types.TokenOutput.{TokenOutputData}
use vcash_wallet.Types.Context.{Context, new_context, add_token_input, add_token_output}
use vcash_wallet.Backend.{Wallet}
use vcash_wallet.Selection.Errors.{Error, generic_error}
use vcash_wallet.Selection.Fee.{Request}
use vcash_wallet.Selection.Change.{
  Part, Change, SendTx, SendTokenTx, select_send_tx, select_send_token_tx,
}
use vcash_wallet.Selection.Build.{add_inputs, add_outputs}

unfoldable pub add_token_inputs : List TokenOutputData → Context → Context
unfolding add_token_input
add_token_inputs [] c = c
add_token_inputs (o ∷ os) c = add_token_inputs os (add_token_input o.key_id o.mmr_index o.value c)

unfoldable pub add_token_outputs : List Change → Context → Context
unfolding add_token_output
add_token_outputs [] c = c
add_token_outputs ((amount, id, mmr_index) ∷ cs) c =
    add_token_outputs cs (add_token_output id mmr_index amount c)

module _ (env : Env) (blinding token_blinding : List Part → ℕ) (fresh_nonce test_nonce : ℕ)
    (amount : ℕ) (is_compact is_invoice use_test_nonce : Bool) where
  -- The private context of a sender of tokens: the coins and change that pay the fee, then the tokens.
  unfoldable pub send_token_context : Identifier → SendTokenTx → SendTx → Context
  unfolding add_inputs add_outputs add_token_inputs add_token_outputs new_context
  send_token_context parent_key_id t s = add_token_outputs t.changes (
      add_token_inputs t.coins (
        add_outputs s.changes (
          add_inputs s.coins
            (record (new_context fresh_nonce test_nonce (blinding (t.parts ++ s.parts))
              (token_blinding (t.parts ++ s.parts)) parent_key_id use_test_nonce is_invoice) {
                fee = s.fee;
                amount = amount;
              }))))

  -- The context, whose fee becomes the slate's, and the wallet. The tokens are chosen first; the coins
  -- pay nothing but the fee, with one change output.
  unfoldable pub build_send_token_tx :
      Wallet → Request → Option TokenType → ℕ → ℕ → Outcome Error (Context × Wallet)
  unfolding send_token_context
  build_send_token_tx w r none max_outputs change_outputs = err generic_error
  build_send_token_tx w r (some token_type) max_outputs change_outputs =
      select_send_token_tx env w r amount token_type max_outputs change_outputs true >>= λ t.
      select_send_tx env t.wallet r 0 max_outputs 1 (length t.parts - length t.changes)
        (length t.changes + 1) (not is_compact)
      >>= λ s. ok (send_token_context r.parent_key_id t s, s.wallet)
