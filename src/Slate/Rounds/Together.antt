-- ===== src/Slate/Rounds/Together.antt =====
-- Both rounds of a slate and its final signature (libwallet/src/slate.rs).
use vcash_wallet.Base.{
  ℕ, ◌≡◌, sym, ap, subst, ◌∙◌, Bool, true, false, none, some, List, [], ◌∷◌, ◌++◌, any, ◌==◌, arith,
  ok, ◌>>=◌,
}
use vcash_wallet.Env.{Env}
use vcash_wallet.Slate.{Transaction, Slate, is_compact, num_participants}
use vcash_wallet.Slate.Signing.{Secp, message, finalize_signature}
use vcash_wallet.Slate.Rounds.{Keychain, is_own, signing_key, fill_round_1, fill_round_2}
use vcash_wallet.Slate.Rounds.Signed.{
  entry, IsNew, message_kept, pair, second_signs, first_signs, both_add_up, fill_round_1-adds,
}

-- What the signatures promise: the partial signature of a participant whose nonce and key are among
-- those that were added up verifies under the key, and two that were made for the sums of just these
-- two nonces and keys add up to a signature under the sum of the keys.
pub record IsSound (l : Secp) : Type 0 where
  pub partial :
      (nonces keys : List ℕ) (key nonce k n nonce_sum blind_sum msg sig : ℕ)
      → l.public_key key ≡ some k
      → l.public_key nonce ≡ some n
      → any (λ x. x == n) nonces ≡ true
      → any (λ x. x == k) keys ≡ true
      → l.combination nonces ≡ some nonce_sum
      → l.combination keys ≡ some blind_sum
      → l.calculate_partial_sig key nonce nonce_sum blind_sum msg ≡ some sig
      → l.verify_partial_sig sig nonce_sum k blind_sum msg ≡ true
  pub completed :
      (key nonce k n key' nonce' k' n' nonce_sum blind_sum msg sig sig' final : ℕ)
      → l.public_key key ≡ some k
      → l.public_key nonce ≡ some n
      → l.public_key key' ≡ some k'
      → l.public_key nonce' ≡ some n'
      → l.combination (n ∷ n' ∷ []) ≡ some nonce_sum
      → l.combination (k ∷ k' ∷ []) ≡ some blind_sum
      → l.calculate_partial_sig key nonce nonce_sum blind_sum msg ≡ some sig
      → l.calculate_partial_sig key' nonce' nonce_sum blind_sum msg ≡ some sig'
      → l.add_signatures (sig ∷ sig' ∷ []) nonce_sum ≡ some final
      → l.verify_completed_sig final blind_sum blind_sum msg ≡ true

listed_first : (a b : ℕ) → any (λ x. x == a) (a ∷ b ∷ []) ≡ true
listed_first a b = ground arith

listed_second : (a b : ℕ) → any (λ x. x == b) (a ∷ b ∷ []) ≡ true
listed_second a b = ground arith

module _ (l : Secp) (law : IsSound l) (env : Env) (fee_of : Transaction → ℕ) where
  -- On a compact slate for two, without entries: where both have run round 1 under keys of their own,
  -- and signing and the sums succeed, round 2 of the second one, then round 2 of the first one, then
  -- the final signature all succeed, with the sum of the two signatures, if a partial signature
  -- verifies and two that are made for the sums of their own nonces and keys add up to one that does.
  pub fill_round_2-finalize_signature :
      (s s1 s2 : Slate) (kc kc' : Keychain) (rng rng' : Bool)
      (key token_key nonce left k n key' token_key' nonce' left' k' n' : ℕ)
      (nonce_sum blind_sum msg sig sig' final : ℕ)
      → s.participant_data ≡ []
      → is_compact s ≡ true
      → num_participants s ≡ 2
      → message l s ≡ ok msg
      → fill_round_1 l kc s key token_key nonce rng ≡ ok (s1, left)
      → fill_round_1 l kc' s1 key' token_key' nonce' rng' ≡ ok (s2, left')
      → l.public_key (signing_key s left token_key) ≡ some k
      → l.public_key nonce ≡ some n
      → l.public_key (signing_key s left' token_key') ≡ some k'
      → l.public_key nonce' ≡ some n'
      → is_own k' n' (entry k n none) ≡ false
      → l.combination (n ∷ n' ∷ []) ≡ some nonce_sum
      → l.combination (k ∷ k' ∷ []) ≡ some blind_sum
      → l.calculate_partial_sig (signing_key s left token_key) nonce nonce_sum blind_sum msg
        ≡ some sig
      → l.calculate_partial_sig (signing_key s left' token_key') nonce' nonce_sum blind_sum msg
        ≡ some sig'
      → l.add_signatures (sig ∷ sig' ∷ []) nonce_sum ≡ some final
      → (fill_round_2 l env fee_of s2 left' token_key' nonce' >>= λ t.
          fill_round_2 l env fee_of t left token_key nonce >>= λ u. finalize_signature l u)
        ≡ ok final
  fill_round_2-finalize_signature s s1 s2 kc kc' rng rng' key token_key nonce left k n key'
        token_key' nonce' left' k' n' nonce_sum blind_sum msg sig sig' final nobody compact two
        msg_is round1 round1' pk pn pk' pn' other ns bs signs signs' adds =
      let (o1, tx1, is_1) =
        fill_round_1-adds l kc s s1 key token_key nonce left k n rng round1 pk pn
          (subst (λ ps. IsNew k n ps) (sym nobody) tt) in
      let one : s1.participant_data ≡ entry k n none ∷ [] =
        ap (λ x. x.participant_data) is_1 ∙ ap (λ ps. ps ++ entry k n none ∷ []) nobody in
      let pk'' : l.public_key (signing_key s1 left' token_key') ≡ some k' =
        subst (λ x. l.public_key (signing_key x left' token_key') ≡ some k') (sym is_1) pk' in
      let (o, tx, is_2) =
        fill_round_1-adds l kc' s1 s2 key' token_key' nonce' left' k' n' rng' round1' pk'' pn'
          (subst (λ ps. IsNew k' n' ps) (sym one) (other, tt)) in
      let base = record s { offset = o; tx = tx; participant_id = some k' } in
      let both : s2 ≡ pair base k n k' n' none none = is_2 ∙ (λ i. record (is_1 i) {
        offset = o;
        tx = tx;
        participant_data = one i ++ entry k' n' none ∷ [];
        participant_id = some k';
      }) in
      let base_msg = message_kept l s s.participant_data o tx (some k') ∙ msg_is in
      let v =
        law.partial (n ∷ n' ∷ []) (k ∷ k' ∷ []) _ nonce k n nonce_sum blind_sum msg sig pk pn
          (listed_first n n') (listed_first k k') ns bs signs in
      let v' =
        law.partial (n ∷ n' ∷ []) (k ∷ k' ∷ []) _ nonce' k' n' nonce_sum blind_sum msg sig' pk' pn'
          (listed_second n n') (listed_second k k') ns bs signs' in
      let done =
        law.completed _ nonce k n _ nonce' k' n' nonce_sum blind_sum msg sig sig' final pk pn pk'
          pn' ns bs signs signs' adds in
      let second =
        second_signs l env fee_of base k n k' n' nonce_sum blind_sum msg two compact base_msg ns bs
          left' token_key' nonce' sig' other pk' pn' signs' in
      let first =
        first_signs l env fee_of base k n k' n' nonce_sum blind_sum msg two compact base_msg ns bs
          left token_key nonce sig sig' pk pn signs v' in
      let sum =
        both_add_up l env fee_of base k n k' n' nonce_sum blind_sum msg two compact base_msg ns bs
          sig sig' final v v' adds done in
      rw both (rw second (rw first sum))
