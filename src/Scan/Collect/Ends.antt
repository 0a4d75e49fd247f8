-- ===== src/Scan/Collect/Ends.antt =====
-- The scan comes to an end (libwallet/src/internal/scan.rs).
use vcash_wallet.Base.{
  ℕ, zero, suc, ◌+◌, ◌≤◌, ◌<◌, ◌^◌, ◌≡◌, refl, ap, ◌⊎◌, inl, inr, Bool, true, false, Option, none,
  some, List, [], ◌∷◌, ◌++◌, arith, leb, is_some, if◌then◌else◌, add64, Outcome, ok, ok-path, err,
  ◌>>=◌, Bool-cases,
}
use vcash_wallet.Env.{Env}
use vcash_wallet.Types.Status.{Identifier, Time}
use vcash_wallet.Backend.{Wallet}
use vcash_wallet.Scan.{OutputResult, repair}
use vcash_wallet.Scan.Collect.{
  ChainOutput, Chain, ScanError, chain, try, rewound, add_own, identify_utxo_outputs,
  collect_chain_outputs, scan,
}

-- A call that gives a value or fails.
abbrev pub Ends : {A : Type 0} → Outcome ScanError A → Type 0
Ends {A} r = ((x : A) × (r ≡ ok x)) ⊎ (r ≡ err chain)

>>=-Ends :
    {A B : Type 0} (m : Outcome ScanError A) (f : A → Outcome ScanError B)
    → Ends m
    → ((a : A) → m ≡ ok a → Ends (f a))
    → Ends (m >>= f)
>>=-Ends m f (inr failed) next = inr (rw failed refl)
>>=-Ends m f (inl (a, known)) next = rw known (next a known)

try-Ends : {A : Type 0} (o : Option A) → Ends (try o)
try-Ends none = inr refl
try-Ends (some a) = inl (a, refl)

try-path : {A : Type 0} (o : Option A) {a : A} → try o ≡ ok a → o ≡ some a
try-path none e = cc
try-path (some a) e = ap some (ok-path e)

if-Ends :
    {A : Type 0} (b : Bool) (x y : Outcome ScanError A)
    → Ends x
    → Ends y
    → Ends (if b then x else y)
if-Ends true x y e e' = e
if-Ends false x y e e' = e'

-- What the node promises: it retrieves from the start on, and the highest index is in the range.
abbrev pub AnswersInRange : Chain → ℕ → Type 0
AnswersInRange c end_index =
    (start_index : ℕ) (reply : ℕ × ℕ × List ChainOutput)
    → c.get_outputs_by_pmmr_index start_index end_index ≡ some reply
    → (start_index ≤ reply.1) × (reply.0 ≤ end_index)

module _ (env : Env) (c : Chain) where
  rewound-Ends : (o : ChainOutput) → Ends (rewound env c o)
  rewound-Ends o =
      >>=-Ends _ _
        (if-Ends (c.is_first_version _) (try (c.rewind_legacy o.commit o.proof)) (ok none)
          (try-Ends (c.rewind_legacy o.commit o.proof)) (inl (none, refl)))
        (λ info e.
          if-Ends (is_some info) (ok info) (try (c.rewind o.commit o.proof)) (inl (info, refl))
            (try-Ends (c.rewind o.commit o.proof)))

  identify_utxo_outputs-Ends : (os : List ChainOutput) → Ends (identify_utxo_outputs env c os)
  unfolding identify_utxo_outputs
  identify_utxo_outputs-Ends [] = inl ([], refl)
  identify_utxo_outputs-Ends (o ∷ os) = >>=-Ends (rewound env c o) _ (rewound-Ends o) (λ info e.
      >>=-Ends (identify_utxo_outputs env c os) _ (identify_utxo_outputs-Ends os)
        (λ found e'. inl (add_own env c o info found, refl)))

  collect_chain_outputs-Ends :
      (fuel start_index end_index : ℕ) (result : List OutputResult)
      → AnswersInRange c end_index
      → end_index < 2 ^ 64
      → end_index < start_index + fuel
      → 0 < fuel
      → Ends (collect_chain_outputs env c fuel start_index end_index result)
  unfolding collect_chain_outputs
  collect_chain_outputs-Ends zero start_index end_index result law word enough some_fuel =
      absurd (omega arith)
  collect_chain_outputs-Ends (suc fuel) start_index end_index result law word enough some_fuel =
      >>=-Ends (try (c.get_outputs_by_pmmr_index start_index end_index)) _
        (try-Ends (c.get_outputs_by_pmmr_index start_index end_index))
        (λ reply e.
          >>=-Ends (identify_utxo_outputs env c reply.2) _ (identify_utxo_outputs-Ends reply.2)
            (λ found e'. elim (Bool-cases (leb reply.0 reply.1)) [
              | inl last ↦ rw last (inl ((result ++ found, reply.1), refl))
              | inr more ↦
                  (let (from_start, in_range) = law start_index reply (try-path _ e) in
                    let goes_on : reply.1 < reply.0 = ground (arith, more) in
                    let next_index : add64 reply.1 1 ≡ reply.1 + 1 =
                      omega (arith, goes_on, in_range, word) in
                    rw more (
                      collect_chain_outputs-Ends fuel (add64 reply.1 1) end_index (result ++ found)
                        law word (omega (arith, next_index, from_start, enough))
                        (omega (arith, goes_on, from_start, in_range, enough))))
            ]))

  -- A node that retrieves from the start on and stays in the range that it has given, below 2^64: the
  -- scan gives a wallet or fails, so its fuel is enough.
  pub scan-Ends :
      (parent_path : Identifier → Identifier) (now : Time) (label_of : ℕ → ℕ)
      (delete_unconfirmed : Bool) (start_height end_height : ℕ) (w : Wallet)
      → ((range : ℕ × ℕ)
          → c.height_range_to_pmmr_indices start_height end_height ≡ some range
          → AnswersInRange c range.1 × (range.1 < 2 ^ 64))
      → Ends (scan env c parent_path now label_of delete_unconfirmed start_height end_height w)
  unfolding scan
  scan-Ends parent_path now label_of delete_unconfirmed start_height end_height w law =
      >>=-Ends (try (c.height_range_to_pmmr_indices start_height end_height)) _
        (try-Ends (c.height_range_to_pmmr_indices start_height end_height))
        (λ range e.
          let (answers, word) = law range (try-path _ e) in
          >>=-Ends (collect_chain_outputs env c (suc range.1) range.0 range.1 []) _
            (collect_chain_outputs-Ends (suc range.1) range.0 range.1 [] answers word (omega arith)
              (omega arith))
            (λ found e'. inl (
              (
                repair env parent_path now label_of delete_unconfirmed found.0 w,
                end_height,
                range.0,
                found.1,
              ),
              refl,
            )))
