-- ===== src/Updater/Apply/Clean.antt =====
-- What `clean_old_unconfirmed` deletes (libwallet/src/internal/updater.rs).
use vcash_wallet.Base.{
  ℕ, ◌+◌, Bool, ◌≡◌, refl, not, ◌&&◌, Option, none, some, List, [], ◌∷◌, arith, ◌==◌, ltb, any, map,
  filter, is_some, if◌then◌else◌,
}
use vcash_wallet.Types.Status.{Identifier, OutputStatus, status_eq}
use vcash_wallet.Types.Output.{OutputData}
use vcash_wallet.Backend.{Wallet, delete, get}
use vcash_wallet.Backend.Laws.{get-delete}
use vcash_wallet.Updater.Apply.{is_stale, delete_all, clean_old_unconfirmed}

get-delete_all :
    (id : Identifier) (m : Option ℕ) (ids : List Identifier) (w : Wallet)
    → get id m (delete_all ids w)
      ≡ (if not (is_some m) && any (λ j. j == id) ids then none else get id m w)
unfolding delete_all
get-delete_all id none [] w = refl
get-delete_all id (some m) [] w = refl
get-delete_all id none (j ∷ ids) w =
    ground (arith, get-delete_all id none ids (delete j none w), get-delete id j none none w)
get-delete_all id (some m) (j ∷ ids) w =
    ground
      (arith, get-delete_all id (some m) ids (delete j none w), get-delete id j (some m) none w)

-- An unconfirmed coinbase output above height 0 that more than 50 blocks have come after.
abbrev pub is_stale_coinbase : ℕ → OutputData → Bool
is_stale_coinbase height o =
    o.is_coinbase
    && status_eq o.status OutputStatus.unconfirmed
    && not (o.height == 0)
    && ltb (o.height + 50) height

any_stale :
    (height : ℕ) (id : Identifier) (xs : List OutputData)
    → any (λ j. j == id) (map (λ o. o.key_id) (filter (is_stale height) xs))
      ≡ any (λ o. is_stale_coinbase height o && o.key_id == id) xs
any_stale height id [] = refl
any_stale height id (o ∷ xs) = ground (arith, any_stale height id xs)

-- From height 50 on, `clean_old_unconfirmed` deletes what is stored without an mmr index under the
-- key of an unconfirmed coinbase output above height 0 that more than 50 blocks have come after;
-- every other key reads as before.
pub get-clean_old_unconfirmed :
    (height : ℕ) (id : Identifier) (m : Option ℕ) (w : Wallet)
    → get id m (clean_old_unconfirmed height w) ≡ (
        if not (ltb height 50)
          && not (is_some m)
          && any (λ o. is_stale_coinbase height o && o.key_id == id) w.outputs
        then none
        else get id m w)
unfolding clean_old_unconfirmed
get-clean_old_unconfirmed height id m w = ground (
  arith,
  get-delete_all id m (map (λ o. o.key_id) (filter (is_stale height) w.outputs)) w,
  any_stale height id w.outputs,
)
