-- ===== src/Utils/PowerOfTwo.antt =====
-- utils.h: what `is_power_of_2` decides, and which power `roundup_pow_of_two` gives.
use native.Mathlib.Nat.{mod_self, two-pow-succ}
use mathlib.Core.Bool.{false≢true}
use ig_libs.Base.{
  subst, ℕ, zero, suc, ◌+◌, ◌-◌, ◌*◌, ◌/◌, ◌^◌, ◌≤◌, ◌<◌, bit_and, ◌≡◌, ◌↔◌, ◌⊎◌, inl, inr, refl,
  ap, sym, ◌∙◌, true, false, leb, ◌==◌, arith, Bool-cases, leb→le,
}
use ig_libs.Base.Bits.{bit_and-halves, bit_and-mask, bit_and-zero, pow_pos}
use ig_libs.Base.Words.{u64_mod, sub64, sub64_of_le}
use ig_libs.Utils.{is_power_of_2, clz, roundup_pow_of_two}

abbrev pub IsPow : ℕ → Type 0
IsPow n = (k : ℕ) × (n ≡ 2 ^ k)

parity : (n : ℕ) → (n ≡ 2 * (n / 2)) ⊎ (n ≡ 2 * (n / 2) + 1)
parity n = omega arith

IsPow-double : (n m : ℕ) → n ≡ 2 * m → IsPow m → IsPow n
IsPow-double n m e (k, p) = (suc k, omega (arith, two-pow-succ k))

bit_and-idem_below : (f a : ℕ) → a ≤ f → bit_and a a ≡ a
bit_and-idem_below zero zero h = bit_and-zero 0
bit_and-idem_below zero (suc a) h = absurd (omega arith)
bit_and-idem_below (suc f) a h =
    omega (arith, bit_and-halves a a, bit_and-idem_below f (a / 2) (omega arith))

-- Clearing the lowest one of an odd number leaves its upper half.
odd_case : (m : ℕ) → bit_and (2 * m + 1) (2 * m) ≡ m * 2
odd_case m =
    let up : (2 * m + 1) / 2 ≡ m = omega arith in
    let down : 2 * m / 2 ≡ m = omega arith in
    rw (bit_and-halves (2 * m + 1) (2 * m), up, down) (omega (arith, bit_and-idem_below m m))

even_case : (m : ℕ) → 0 < m → bit_and (2 * m) (2 * m - 1) ≡ bit_and m (m - 1) * 2
even_case m h =
    let up : 2 * m / 2 ≡ m = omega arith in
    let down : (2 * m - 1) / 2 ≡ m - 1 = omega arith in
    rw (bit_and-halves (2 * m) (2 * m - 1), up, down) (omega arith)

IsPow-of_bit_and : (f n : ℕ) → n ≤ f → 0 < n → bit_and n (n - 1) ≡ 0 → IsPow n
IsPow-of_bit_and zero n h p e = absurd (omega arith)
IsPow-of_bit_and (suc f) n h p e = elim (parity n) [
  | inl even ↦ IsPow-double n (n / 2) even (
      IsPow-of_bit_and f (n / 2) (omega arith) (omega arith)
        (omega (arith, even_case (n / 2) (omega arith), ap (λ m. bit_and m (m - 1)) even)))
  | inr odd ↦ (0, omega (arith, odd_case (n / 2), ap (λ m. bit_and m (m - 1)) odd, less_one))
]
  where
    less_one :
        bit_and (2 * (n / 2) + 1) (2 * (n / 2) + 1 - 1) ≡ bit_and (2 * (n / 2) + 1) (2 * (n / 2))
    less_one = ap (bit_and (2 * (n / 2) + 1)) (omega arith)

IsPow-bit_and : (k : ℕ) → bit_and (2 ^ k) (2 ^ k - 1) ≡ 0
IsPow-bit_and k = rw (bit_and-mask k (2 ^ k)) (mod_self (2 ^ k))

-- `is_power_of_2` answers true exactly for the powers of two, over all 64-bit values.
pub is_power_of_2_iff : (n : ℕ) → n < u64_mod → (is_power_of_2 n ≡ true) ↔ IsPow n
unfolding is_power_of_2
is_power_of_2_iff n h = (only_if, if_pow)
  where
    minus : 0 < n → sub64 n 1 ≡ n - 1
    minus p = sub64_of_le n 1 p h

    only_if : is_power_of_2 n ≡ true → IsPow n
    only_if e =
        let p : 0 < n = ground arith in
        IsPow-of_bit_and n n (omega arith) p (ground (arith, minus p))

    if_pow : IsPow n → is_power_of_2 n ≡ true
    if_pow (k, e) =
        let p : 0 < n = omega (arith, pow_pos k) in
        ground (arith, minus p, IsPow-bit_and k, ap (λ m. bit_and m (m - 1)) e)

-- The highest one of `n` stands `clz` places below the top.
clz_bounds :
    (w n : ℕ)
    → 0 < n
    → n < 2 ^ w
    → (clz w n < w) × (2 ^ (w - clz w n - 1) ≤ n) × (n < 2 * 2 ^ (w - clz w n - 1))
unfolding clz
clz_bounds zero n p h = absurd (omega arith)
clz_bounds (suc w) n p h = elim (Bool-cases (leb (2 ^ w) n)) [
  | inl top ↦
      let here : suc w - 0 - 1 ≡ w = omega arith in
      rw (top, here) (omega arith, leb→le (2 ^ w) n top, omega (arith, two-pow-succ w))
  | inr below ↦
      let r = clz_bounds w n p (ground arith) in
      let here : suc w - suc (clz w n) - 1 ≡ w - clz w n - 1 = omega arith in
      rw (below, here) (omega arith, r.1, r.2)
]

-- For a non-zero 64-bit `n` the result is the power of two with `result ≤ n < 2 * result`.
pub roundup_pow_of_two_bounds :
    (n : ℕ)
    → 0 < n
    → n < u64_mod
    → IsPow (roundup_pow_of_two n) × (roundup_pow_of_two n ≤ n) × (n < 2 * roundup_pow_of_two n)
unfolding roundup_pow_of_two
roundup_pow_of_two_bounds n p h =
    let r = clz_bounds 64 n p h in
    let some_n : (n == 0) ≡ false = ground arith in rw some_n ((64 - clz 64 n - 1, refl), r.1, r.2)

-- So a value that is no power of two is rounded down, below itself.
pub roundup_pow_of_two-lt :
    (n : ℕ) → 0 < n → n < u64_mod → is_power_of_2 n ≡ false → roundup_pow_of_two n < n
roundup_pow_of_two-lt n p h e =
    let r = roundup_pow_of_two_bounds n p h in
    le_or_eq (roundup_pow_of_two n) r.1
      λ same. false≢true (sym e ∙ (is_power_of_2_iff n h).1 (subst IsPow same r.0))
  where
    le_or_eq : (m : ℕ) → m ≤ n → (m ≡ n → ⊥) → m < n
    le_or_eq m l ne = omega arith
