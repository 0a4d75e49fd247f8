-- ===== src/Backend/Laws.antt =====
-- Reads of the store after a write and after a deletion (impls/src/backends/lmdb.rs).
use vcash_wallet.Base.{
  ℕ, ◌≡◌, refl, Bool, true, ◌&&◌, Option, none, some, List, [], ◌∷◌, arith, ◌==◌, if◌then◌else◌,
  find?, option_eq,
}
use vcash_wallet.Types.Status.{Identifier}
use vcash_wallet.Types.Output.{OutputData}
use vcash_wallet.Types.TokenOutput.{TokenOutputData}
use vcash_wallet.Backend.{Wallet, has_key, save, delete, get, has_token_key, save_token, get_token}
use vcash_wallet.Backend.Table.{put, remove}

option_eq_trans : (a b c : Option ℕ) → option_eq a b ≡ true → option_eq a c ≡ option_eq b c
option_eq_trans none none c h = refl
option_eq_trans none (some b) c h = cc
option_eq_trans (some a) none c h = cc
option_eq_trans (some a) (some b) none h = refl
option_eq_trans (some a) (some b) (some c) h = ground arith

pub option_eq_self : (a : Option ℕ) → option_eq a a ≡ true
option_eq_self none = refl
option_eq_self (some a) = ground arith

find?-put :
    (id : Identifier) (m : Option ℕ) (o : OutputData) (xs : List OutputData)
    → find? (has_key id m) (put (has_key o.key_id o.mmr_index) o xs)
      ≡ (if has_key id m o then some o else find? (has_key id m) xs)
find?-put id m o [] = ground arith
find?-put id m o (y ∷ ys) =
    ground (arith, find?-put id m o ys, option_eq_trans y.mmr_index o.mmr_index m)

-- After a write under an output's own key, that key reads the output and others read as before.
pub get-save :
    (id : Identifier) (m : Option ℕ) (o : OutputData) (w : Wallet)
    → get id m (save o w) ≡ (if has_key id m o then some o else get id m w)
unfolding get save
get-save id m o w = find?-put id m o w.outputs

-- The keys of a deletion and of a search are one key.
abbrev pub same_key : Identifier → Option ℕ → Identifier → Option ℕ → Bool
same_key i m j n = i == j && option_eq m n

find?-remove :
    (id j : Identifier) (m n : Option ℕ) (xs : List OutputData)
    → find? (has_key id m) (remove (has_key j n) xs)
      ≡ (if same_key j n id m then none else find? (has_key id m) xs)
find?-remove id j m n [] = ground arith
find?-remove id j m n (y ∷ ys) =
    ground (arith, find?-remove id j m n ys, option_eq_trans y.mmr_index n m)

-- After a deletion its key reads nothing and others read as before.
pub get-delete :
    (id j : Identifier) (m n : Option ℕ) (w : Wallet)
    → get id m (delete j n w) ≡ (if same_key j n id m then none else get id m w)
unfolding get delete
get-delete id j m n w = find?-remove id j m n w.outputs

find?-put_token :
    (id : Identifier) (m : Option ℕ) (o : TokenOutputData) (xs : List TokenOutputData)
    → find? (has_token_key id m) (put (has_token_key o.key_id o.mmr_index) o xs)
      ≡ (if has_token_key id m o then some o else find? (has_token_key id m) xs)
find?-put_token id m o [] = ground arith
find?-put_token id m o (y ∷ ys) =
    ground (arith, find?-put_token id m o ys, option_eq_trans y.mmr_index o.mmr_index m)

-- After a write of a token output its key reads it and others read as before.
pub get_token-save_token :
    (id : Identifier) (m : Option ℕ) (o : TokenOutputData) (w : Wallet)
    → get_token id m (save_token o w) ≡ (if has_token_key id m o then some o else get_token id m w)
unfolding get_token save_token
get_token-save_token id m o w = find?-put_token id m o w.token_outputs

-- What a search finds has the key that it was for.
find?-has_key :
    (id : Identifier) (m : Option ℕ) (o : OutputData) (xs : List OutputData)
    → find? (has_key id m) xs ≡ some o
    → has_key id m o ≡ true
find?-has_key id m o [] e = cc
find?-has_key id m o (y ∷ ys) e = ground (arith, find?-has_key id m o ys)

pub get-has_key :
    (id : Identifier) (m : Option ℕ) (o : OutputData) (w : Wallet)
    → get id m w ≡ some o
    → has_key id m o ≡ true
unfolding get
get-has_key id m o w e = find?-has_key id m o w.outputs e

find?-has_token_key :
    (id : Identifier) (m : Option ℕ) (o : TokenOutputData) (xs : List TokenOutputData)
    → find? (has_token_key id m) xs ≡ some o
    → has_token_key id m o ≡ true
find?-has_token_key id m o [] e = cc
find?-has_token_key id m o (y ∷ ys) e = ground (arith, find?-has_token_key id m o ys)

pub get_token-has_token_key :
    (id : Identifier) (m : Option ℕ) (o : TokenOutputData) (w : Wallet)
    → get_token id m w ≡ some o
    → has_token_key id m o ≡ true
unfolding get_token
get_token-has_token_key id m o w e = find?-has_token_key id m o w.token_outputs e
