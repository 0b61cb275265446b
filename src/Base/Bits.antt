-- ===== src/Base/Bits.antt =====
-- `bit_and` at variables: the equation of its lowest digit, masks of ones, and finite tables.
use Prim.Native.Nat.{
  ℕ, zero, suc, ◌+◌, ◌-◌, ◌*◌, ◌/◌, ◌%◌, ◌^◌, ◌≤◌, ◌<◌, min, bit_and, digits, bit_and-bitwise,
}
use mathlib.Core.Path.{◌≡◌, refl, sym, ap, ◌∙◌}
use mathlib.Core.Bool.{Bool, true, ◌&&◌}
use native.Mathlib.Nat.{mod_def, mul-div-le, div-div-eq-div-mul, two-pow-succ, one-le-pow}
use native.Mathlib.Omega.{arith}

-- More fuel than digits makes no difference.
abbrev common_digits : ℕ → ℕ → ℕ → ℕ
common_digits = digits (λ b. 0) min

common_digits-fuel : (n m a b : ℕ) → a ≤ n → a ≤ m → common_digits n a b ≡ common_digits m a b
common_digits-fuel zero zero a b h k = refl
common_digits-fuel zero (suc m) (suc a) b h k = absurd (omega arith)
common_digits-fuel (suc n) zero (suc a) b h k = absurd (omega arith)
common_digits-fuel zero (suc m) zero b h k = refl
common_digits-fuel (suc n) zero zero b h k = refl
common_digits-fuel (suc n) (suc m) zero b h k = refl
common_digits-fuel (suc n) (suc m) (suc a) b h k =
    ap (λ d. d * 2 + min (suc a % 2) (b % 2))
      (common_digits-fuel n m (suc a / 2) (b / 2) (omega arith) (omega arith))

pub zero-bit_and : (b : ℕ) → bit_and 0 b ≡ 0
zero-bit_and b = bit_and-bitwise 0 b

-- The halves' common digits, with the fuel that `bit_and` gives them.
upper_digits : (x y : ℕ) → common_digits x (suc x / 2) (y / 2) ≡ bit_and (suc x / 2) (y / 2)
upper_digits x y =
    common_digits-fuel x (suc x / 2) (suc x / 2) (y / 2) (omega arith) (omega arith)
    ∙ sym (bit_and-bitwise (suc x / 2) (y / 2))

pub bit_and-halves : (x y : ℕ) → bit_and x y ≡ bit_and (x / 2) (y / 2) * 2 + min (x % 2) (y % 2)
bit_and-halves zero y = rw (zero-bit_and y, zero-bit_and (y / 2)) (omega arith)
bit_and-halves (suc x) y =
    bit_and-bitwise (suc x) y ∙ ap (λ d. d * 2 + min (suc x % 2) (y % 2)) (upper_digits x y)

bit_and-zero_below : (n a : ℕ) → a ≤ n → bit_and a 0 ≡ 0
bit_and-zero_below zero zero h = zero-bit_and 0
bit_and-zero_below zero (suc a) h = absurd (omega arith)
bit_and-zero_below (suc n) zero h = zero-bit_and 0
bit_and-zero_below (suc n) (suc a) h =
    omega (arith, bit_and-halves (suc a) 0, bit_and-zero_below n (suc a / 2) (omega arith))

pub bit_and-zero : (a : ℕ) → bit_and a 0 ≡ 0
bit_and-zero a = bit_and-zero_below a a (omega arith)

pub pow_pos : (k : ℕ) → 1 ≤ 2 ^ k
pow_pos k = one-le-pow k 2 (omega arith)

-- Taking a number modulo `2 * p` keeps its last digit.
mod-double : (a p : ℕ) → a % (2 * p) ≡ a / 2 % p * 2 + a % 2
mod-double a p =
    rw (mod_def a (2 * p), ← div-div-eq-div-mul a 2 p, mod_def (a / 2) p)
      (omega (arith, mul-div-le (a / 2) p))

bit_and-mask_double :
    (a p : ℕ) → 1 ≤ p → bit_and (a / 2) (p - 1) ≡ a / 2 % p → bit_and a (2 * p - 1) ≡ a % (2 * p)
bit_and-mask_double a p h ih =
    let half : (2 * p - 1) / 2 ≡ p - 1 = omega arith in
    rw (bit_and-halves a (2 * p - 1), half, ih, mod-double a p) (omega arith)

-- A mask of `k` ones takes the remainder modulo `2 ^ k`.
pub bit_and-mask : (k a : ℕ) → bit_and a (2 ^ k - 1) ≡ a % 2 ^ k
bit_and-mask zero a = omega (arith, bit_and-zero a)
bit_and-mask (suc k) a =
    let twice : 2 ^ suc k ≡ 2 * 2 ^ k = omega (arith, two-pow-succ k) in
    rw twice (bit_and-mask_double a (2 ^ k) (pow_pos k) (bit_and-mask k (a / 2)))

-- Over a small range, every value is checked by evaluation, the range's end first.
unfoldable pub all_below : ℕ → (ℕ → Bool) → Bool
all_below zero test = true
all_below (suc top) test = all_below top test && test top

pub all_below_sound :
    (test : ℕ → Bool) (top x : ℕ) → x < top → all_below top test ≡ true → test x ≡ true
unfolding all_below
all_below_sound test zero x below ok = absurd (omega arith)
all_below_sound test (suc top) x below ok = ground (arith, all_below_sound test top x)
