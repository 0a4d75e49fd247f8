-- ===== src/Updater/Apply/Statuses.antt =====
-- How outputs go on in a refresh (`mark_unspent`, `mark_spent`, `mark_reverted` of
-- libwallet/src/types.rs, under the keys of the store).
use vcash_wallet.Base.{
  ℕ, ◌≡◌, refl, sym, ap, ◌∙◌, subst, inl, inr, Option, none, some, arith, Bool-cases,
  option_eq-path,
}
use vcash_wallet.Types.Status.{Identifier, OutputStatus}
use vcash_wallet.Types.Output.{OutputData, mark_unspent, mark_spent, mark_reverted}
use vcash_wallet.Backend.{Wallet, get, save, has_key}
use vcash_wallet.Backend.Laws.{get-save, get-has_key}

-- The steps that a refresh may take the status of an output by. A spent output stays spent, a locked
-- one can only be spent.
pub data Step : OutputStatus → OutputStatus → Type 0 where
  confirm : Step OutputStatus.unconfirmed OutputStatus.unspent
  reconfirm : Step OutputStatus.reverted OutputStatus.unspent
  spend : Step OutputStatus.unspent OutputStatus.spent
  spend_locked : Step OutputStatus.locked OutputStatus.spent
  revert : Step OutputStatus.unspent OutputStatus.reverted

pub data Steps : OutputStatus → OutputStatus → Type 0 where
  stay : {s : OutputStatus} → Steps s s
  step : {s t u : OutputStatus} → Step s t → Steps t u → Steps s u

pub single : {s t : OutputStatus} → Step s t → Steps s t
single x = step x stay

Steps-trans : {s t u : OutputStatus} → Steps s t → Steps t u → Steps s u
Steps-trans stay y = y
Steps-trans (step a x) y = step a (Steps-trans x y)

-- What a refresh keeps of an output: all but its status, height and log entry.
abbrev pub SameCoin : OutputData → OutputData → Type 0
SameCoin o p =
    (p.root_key_id ≡ o.root_key_id)
    × (p.key_id ≡ o.key_id)
    × (p.n_child ≡ o.n_child)
    × (p.commit ≡ o.commit)
    × (p.mmr_index ≡ o.mmr_index)
    × (p.value ≡ o.value)
    × (p.lock_height ≡ o.lock_height)
    × (p.is_coinbase ≡ o.is_coinbase)

-- How the output read under a key goes on.
pub data Follows : Option OutputData → Option OutputData → Type 0 where
  absent : Follows none none
  moved : {o p : OutputData} → SameCoin o p → Steps o.status p.status → Follows (some o) (some p)

pub same_coin : (o : OutputData) → SameCoin o o
same_coin o = (refl, refl, refl, refl, refl, refl, refl, refl)

SameCoin-trans : (o p q : OutputData) → SameCoin o p → SameCoin p q → SameCoin o q
SameCoin-trans o p q (a, b, c, d, e, f, g, h) (a', b', c', d', e', f', g', h') =
    (a' ∙ a, b' ∙ b, c' ∙ c, d' ∙ d, e' ∙ e, f' ∙ f, g' ∙ g, h' ∙ h)

pub Follows-self : (a : Option OutputData) → Follows a a
Follows-self none = absent
Follows-self (some o) = moved (same_coin o) stay

pub Follows-trans : {a b c : Option OutputData} → Follows a b → Follows b c → Follows a c
Follows-trans absent absent = absent
Follows-trans (moved {o} {p} s x) (moved {o = _} {p = q} t y) =
    moved (SameCoin-trans o p q s t) (Steps-trans x y)

-- A write of an output over the one read under its key.
pub save-Follows :
    (id : Identifier) (m : Option ℕ) (o p : OutputData) (w v : Wallet)
    → get id m v ≡ get id m w
    → get o.key_id o.mmr_index w ≡ some o
    → SameCoin o p
    → Steps o.status p.status
    → Follows (get id m w) (get id m (save p v))
save-Follows id m o p w v keeps found same steps = elim (Bool-cases (has_key id m p)) [
  | inl e ↦
      let keys : o.mmr_index ≡ m = option_eq-path o.mmr_index m (ground arith) in
      let before : get id m w ≡ some o = ground arith in
      let after : get id m (save p v) ≡ some p = ground (arith, get-save id m p v) in
      subst (λ x. Follows x (get id m (save p v))) (sym before)
        (subst (λ x. Follows (some o) x) (sym after) (moved same steps))
  | inr e ↦
      let after : get id m (save p v) ≡ get id m w = ground (arith, get-save id m p v) in
      subst (λ x. Follows (get id m w) x) (sym after) (Follows-self (get id m w))
]

-- What is read under a key is read under its own key.
pub at_own_key :
    (id : Identifier) (m : Option ℕ) (o : OutputData) (w : Wallet)
    → get id m w ≡ some o
    → get o.key_id o.mmr_index w ≡ some o
at_own_key id m o w found =
    let keys : o.mmr_index ≡ m =
      option_eq-path o.mmr_index m (ground (arith, get-has_key id m o w found)) in
    let same : o.key_id ≡ id = ground (arith, get-has_key id m o w found) in
    ap (λ i. get i o.mmr_index w) same ∙ ap (λ n. get id n w) keys ∙ found

pub mark_unspent-Steps : (o : OutputData) → Steps o.status (mark_unspent o).status
unfolding mark_unspent
mark_unspent-Steps o =
    elim o.status as (λ s. Steps s (mark_unspent (record o { status = s })).status) [
      | OutputStatus.unconfirmed ↦ single confirm
      | OutputStatus.unspent ↦ stay
      | OutputStatus.locked ↦ stay
      | OutputStatus.spent ↦ stay
      | OutputStatus.reverted ↦ single reconfirm
    ]

pub mark_spent-Steps : (o : OutputData) → Steps o.status (mark_spent o).status
unfolding mark_spent
mark_spent-Steps o = elim o.status as (λ s. Steps s (mark_spent (record o { status = s })).status) [
  | OutputStatus.unconfirmed ↦ stay
  | OutputStatus.unspent ↦ single spend
  | OutputStatus.locked ↦ single spend_locked
  | OutputStatus.spent ↦ stay
  | OutputStatus.reverted ↦ stay
]

pub mark_reverted-Steps : (o : OutputData) → Steps o.status (mark_reverted o).status
unfolding mark_reverted
mark_reverted-Steps o =
    elim o.status as (λ s. Steps s (mark_reverted (record o { status = s })).status) [
      | OutputStatus.unconfirmed ↦ stay
      | OutputStatus.unspent ↦ single revert
      | OutputStatus.locked ↦ stay
      | OutputStatus.spent ↦ stay
      | OutputStatus.reverted ↦ stay
    ]
