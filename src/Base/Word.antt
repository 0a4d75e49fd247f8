-- ===== src/Base/Word.antt =====
-- u64 arithmetic, with the wrap-around of a release build, and sums of u64s.
use Prim.Native.Nat.{ℕ, ◌+◌, ◌-◌, ◌%◌, ◌^◌, ◌<◌}
use mathlib.Core.Path.{◌≡◌}
use mathlib.Core.List.{List, [], ◌∷◌}
use native.Mathlib.Omega.{arith}
use vcash_wallet.Base.Lists.{sum_by}

abbrev pub u64_mod : ℕ
u64_mod = 2 ^ 64

abbrev pub add64 : ℕ → ℕ → ℕ
add64 a b = (a + b) % u64_mod

abbrev pub sub64 : ℕ → ℕ → ℕ
sub64 a b = (a + u64_mod - b) % u64_mod

-- `iter().fold(acc, |acc, x| acc + f(x))` on u64s, and `iter().map(f).sum()` from 0.
abbrev pub sum64_from {ℓ} : {A : Type ℓ} → (A → ℕ) → ℕ → List A → ℕ
sum64_from f acc [] = acc
sum64_from f acc (x ∷ xs) = sum64_from f (add64 acc (f x)) xs

-- Where the exact sum fits in 64 bits, the wrapping sum is exact.
pub sum64_from-eq-add {ℓ} :
    {A : Type ℓ} (f : A → ℕ) (acc : ℕ) (xs : List A)
    → acc + sum_by f xs < 2 ^ 64
    → sum64_from f acc xs ≡ acc + sum_by f xs
sum64_from-eq-add f acc [] h = omega arith
sum64_from-eq-add f acc (x ∷ xs) h =
    omega (arith, sum64_from-eq-add f (add64 acc (f x)) xs (omega arith))
