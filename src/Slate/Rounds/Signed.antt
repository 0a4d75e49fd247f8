-- ===== src/Slate/Rounds/Signed.antt =====
-- Two participants sign a slate (libwallet/src/slate.rs).
use vcash_wallet.Base.{
  ℕ, ◌≡◌, refl, sym, ap, ◌∙◌, Bool, true, false, not, Option, none, some, List, [], ◌∷◌, ◌++◌,
  filter, All, arith, if◌then◌else◌, ok, ok-path, >>=-eq-ok, Bool-cases, inl, inr,
}
use vcash_wallet.Env.{Env}
use vcash_wallet.Slate.{
  Transaction, ParticipantData, Slate, tx_or_err, is_compact, num_participants,
}
use vcash_wallet.Slate.Signing.{Secp, try, message, finalize_signature}
use vcash_wallet.Slate.Rounds.{
  Keychain, is_own, own_sig, signing_key, splits_offset, own_offset, add_offset, generate_offset,
  add_participant_info, fill_round_1, fill_round_2,
}

abbrev pub entry : ℕ → ℕ → Option ℕ → ParticipantData
entry key nonce sig = record { public_blind_excess = key; public_nonce = nonce; part_sig = sig }

-- What is signed does not depend on the participants.
pub message_kept :
    (l : Secp) (s : Slate) (ps : List ParticipantData) (o : ℕ) (tx : Option Transaction)
    (id : Option ℕ)
    → message l (record s { participant_data = ps; offset = o; tx = tx; participant_id = id })
      ≡ message l s
unfolding message
message_kept l s ps o tx id = refl

-- The slate with two entries.
abbrev pub pair : Slate → ℕ → ℕ → ℕ → ℕ → Option ℕ → Option ℕ → Slate
pair s k n k' n' sig sig' = record s { participant_data = entry k n sig ∷ entry k' n' sig' ∷ [] }

is_own_self : (k n : ℕ) (sig : Option ℕ) → is_own k n (entry k n sig) ≡ true
is_own_self k n sig = ground arith

module _ (l : Secp) (env : Env) (fee_of : Transaction → ℕ) (s : Slate)
    (k n k' n' nonce_sum blind_sum msg : ℕ) (two : num_participants s ≡ 2)
    (compact : is_compact s ≡ true) (msg_is : message l s ≡ ok msg)
    (ns : l.combination (n ∷ n' ∷ []) ≡ some nonce_sum)
    (bs : l.combination (k ∷ k' ∷ []) ≡ some blind_sum) where
  message-pair : (sig sig' : Option ℕ) → message l (pair s k n k' n' sig sig') ≡ ok msg
  message-pair sig sig' =
      message_kept l s (entry k n sig ∷ entry k' n' sig' ∷ []) s.offset s.tx s.participant_id
      ∙ msg_is

  pub second_signs :
      (key token_key nonce sig : ℕ)
      → is_own k' n' (entry k n none) ≡ false
      → l.public_key (signing_key s key token_key) ≡ some k'
      → l.public_key nonce ≡ some n'
      → l.calculate_partial_sig (signing_key s key token_key) nonce nonce_sum blind_sum msg
        ≡ some sig
      → fill_round_2 l env fee_of (pair s k n k' n' none none) key token_key nonce
        ≡ ok (pair s k n k' n' none (some sig))
  unfolding fill_round_2
  second_signs key token_key nonce sig other pk pn signs = rw compact (
      rw (message-pair none none) (
        rw ns (
          rw bs (rw signs (rw pk (rw pn (rw two (rw other (rw (is_own_self k' n' none) refl)))))))))

  pub first_signs :
      (key token_key nonce sig sig' : ℕ)
      → l.public_key (signing_key s key token_key) ≡ some k
      → l.public_key nonce ≡ some n
      → l.calculate_partial_sig (signing_key s key token_key) nonce nonce_sum blind_sum msg
        ≡ some sig
      → l.verify_partial_sig sig' nonce_sum k' blind_sum msg ≡ true
      → fill_round_2 l env fee_of (pair s k n k' n' none (some sig')) key token_key nonce
        ≡ ok (pair s k n k' n' (some sig) (some sig'))
  unfolding fill_round_2
  first_signs key token_key nonce sig sig' pk pn signs v' = rw compact (
      rw (message-pair none (some sig')) (
        rw ns (rw bs (rw v' (rw signs (rw pk (rw pn (rw two (rw (is_own_self k n none) refl)))))))))

  pub both_add_up :
      (sig sig' final : ℕ)
      → l.verify_partial_sig sig nonce_sum k blind_sum msg ≡ true
      → l.verify_partial_sig sig' nonce_sum k' blind_sum msg ≡ true
      → l.add_signatures (sig ∷ sig' ∷ []) nonce_sum ≡ some final
      → l.verify_completed_sig final blind_sum blind_sum msg ≡ true
      → finalize_signature l (pair s k n k' n' (some sig) (some sig')) ≡ ok final
  unfolding finalize_signature
  both_add_up sig sig' final v v' adds done =
      rw (message-pair (some sig) (some sig'))
        (rw ns (rw bs (rw v (rw v' (rw adds (rw done refl))))))

-- Nobody has these keys yet.
abbrev pub IsNew : ℕ → ℕ → List ParticipantData → Type 0
IsNew k n ps = All (λ (p : ParticipantData). is_own k n p ≡ false) ps

others_new :
    (k n : ℕ) (ps : List ParticipantData)
    → IsNew k n ps
    → (filter (λ p. not (is_own k n p)) ps ≡ ps) × (own_sig k n none ps ≡ none)
unfolding own_sig
others_new k n [] new = (refl, refl)
others_new k n (p ∷ ps) (other, new) =
    let (same, unsigned) = others_new k n ps new in (rw other (ap (p ∷◌) same), rw other unsigned)

add_offset-keeps :
    (kc : Keychain) (s s' : Slate) (offset : ℕ)
    → add_offset kc s offset ≡ ok s'
    → (o : ℕ) × (tx : Option Transaction) × (s' ≡ record s { offset = o; tx = tx })
unfolding add_offset
add_offset-keeps kc s s' offset e = elim (Bool-cases (is_compact s)) [
  | inl compact ↦
      (let (total, added, made) =
          >>=-eq-ok (try (kc.blind_sum (s.offset ∷ offset ∷ []) []))
            (λ x. ok (record s { offset = x })) (rw compact at e) in
        (total, s.tx, sym (ok-path made)))
  | inr old ↦
      (let (tx, there, made) =
          >>=-eq-ok (tx_or_err s)
            (λ x. ok (record s { tx = some (record x { offset = offset }); offset = offset }))
            (rw old at e) in
        (offset, some (record tx { offset = offset }), sym (ok-path made)))
]

generate_offset-keeps :
    (kc : Keychain) (s s' : Slate) (key left : ℕ) (rng : Bool)
    → generate_offset kc s key rng ≡ ok (s', left)
    → (o : ℕ) × (tx : Option Transaction) × (s' ≡ record s { offset = o; tx = tx })
unfolding generate_offset
generate_offset-keeps kc s s' key left rng e =
    let (s1, added, e') = >>=-eq-ok (add_offset kc s (own_offset kc rng)) _ e in
    let (adjusted, summed, e'') =
      >>=-eq-ok (try (kc.blind_sum (kc.blinding_factor key ∷ []) (own_offset kc rng ∷ []))) _ e' in
    let (left', has_key, done) = >>=-eq-ok (try (kc.secret_key adjusted)) _ e'' in
    add_offset-keeps kc s s' (own_offset kc rng) (added ∙ ap (λ x. ok x.0) (ok-path done))

module _ (l : Secp) (kc : Keychain) (s s' : Slate) (key token_key nonce left k n : ℕ)
    (rng : Bool) where
  add_participant_info-adds :
      (t : Slate) (key' : ℕ)
      → l.public_key key' ≡ some k
      → l.public_key nonce ≡ some n
      → IsNew k n t.participant_data
      → add_participant_info l t key' nonce none
        ≡ ok (record t {
          participant_data = t.participant_data ++ entry k n none ∷ [];
          participant_id = some k;
        })
  unfolding add_participant_info
  add_participant_info-adds t key' pk pn new =
      let (same, unsigned) = others_new k n t.participant_data new in
      rw pk (
        rw pn (λ i. ok (record t {
          participant_data = same i ++ entry k n (unsigned i) ∷ [];
          participant_id = some k;
        })))

  -- The offset is split, or there is no part of it to take.
  shared_offset :
      (x : Slate × ℕ)
      → (if splits_offset s then generate_offset kc s key rng else ok (s, key)) ≡ ok x
      → (o : ℕ) × (tx : Option Transaction) × (x.0 ≡ record s { offset = o; tx = tx })
  shared_offset x e = elim (Bool-cases (splits_offset s)) [
    | inl split ↦ generate_offset-keeps kc s x.0 key x.1 rng (rw split at e)
    | inr whole ↦ (s.offset, s.tx, ap (λ y. y.0) (sym (ok-path (rw whole at e))))
  ]

  -- Round 1 adds the participant's own entry, and changes the offset.
  pub fill_round_1-adds :
      fill_round_1 l kc s key token_key nonce rng ≡ ok (s', left)
      → l.public_key (signing_key s left token_key) ≡ some k
      → l.public_key nonce ≡ some n
      → IsNew k n s.participant_data
      → (o : ℕ) × (tx : Option Transaction) × (s' ≡ record s {
        offset = o;
        tx = tx;
        participant_data = s.participant_data ++ entry k n none ∷ [];
        participant_id = some k;
      })
  unfolding fill_round_1
  fill_round_1-adds e pk pn new =
      let (x, shared, e') =
        >>=-eq-ok (if splits_offset s then generate_offset kc s key rng else ok (s, key)) _ e in
      let (s1, info, done) =
        >>=-eq-ok (add_participant_info l x.0 (signing_key s x.1 token_key) nonce none) _ e' in
      let (o, tx, is_split) = shared_offset x shared in
      let is_left : x.1 ≡ left = ap (λ y. y.1) (ok-path done) in
      let t = record s { offset = o; tx = tx } in
      (
        o,
        tx,
        ok-path (
            ap (λ y. ok y.0) (sym (ok-path done))
            ∙ sym info
            ∙ (λ i.
                add_participant_info l (is_split i) (signing_key s (is_left i) token_key) nonce
                  none)
            ∙ add_participant_info-adds t (signing_key s left token_key) pk pn new),
      )
