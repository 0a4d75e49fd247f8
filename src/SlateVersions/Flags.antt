-- ===== src/SlateVersions/Flags.antt =====
-- Status bytes of optional fields (libwallet/src/slate_versions/v4_bin.rs).
use Prim.Native.Nat.{bit_and, bit_or}
use vcash_wallet.Base.{ℕ, ◌<◌, ◌^◌, ◌≡◌, Bool, arith, ltb, if◌then◌else◌}

-- `if b { status |= mask }`
abbrev pub set : Bool → ℕ → ℕ → ℕ
set flag mask status = if flag then bit_or status mask else status

-- `status & mask > 0`
abbrev pub has : ℕ → ℕ → Bool
has mask status = ltb 0 (bit_and status mask)

abbrev pub flags6 : Bool → Bool → Bool → Bool → Bool → Bool → ℕ
flags6 a b c d e f = set f 32 (set e 16 (set d 8 (set c 4 (set b 2 (set a 1 0)))))

pub flags6_bits :
    (a b c d e f : Bool)
    → (has 1 (flags6 a b c d e f) ≡ a)
      × (has 2 (flags6 a b c d e f) ≡ b)
      × (has 4 (flags6 a b c d e f) ≡ c)
      × (has 8 (flags6 a b c d e f) ≡ d)
      × (has 16 (flags6 a b c d e f) ≡ e)
      × (has 32 (flags6 a b c d e f) ≡ f)
      × (flags6 a b c d e f < 2 ^ 8)
flags6_bits a b c d e f = ground arith

abbrev pub flags4 : Bool → Bool → Bool → Bool → ℕ
flags4 a b c d = set d 8 (set c 4 (set b 2 (set a 1 0)))

pub flags4_bits :
    (a b c d : Bool)
    → (has 1 (flags4 a b c d) ≡ a)
      × (has 2 (flags4 a b c d) ≡ b)
      × (has 4 (flags4 a b c d) ≡ c)
      × (has 8 (flags4 a b c d) ≡ d)
      × (flags4 a b c d < 2 ^ 8)
flags4_bits a b c d = ground arith
