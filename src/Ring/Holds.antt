-- ===== src/Ring/Holds.antt =====
-- When a ring stands for a queue of bytes, and what its counters then say.
use Prim.Native.Nat.{◌∣◌}
use native.Mathlib.Nat.{
  dvd_refl, dvd_trans, dvd-mul_left, two-pow-succ, mod-mod_of_dvd, mod-lt, pow-succ',
  pow-le-pow_right,
}
use ig_libs.Base.{
  ℕ, zero, suc, ◌+◌, ◌-◌, ◌*◌, ◌%◌, ◌^◌, ◌≤◌, ◌<◌, bit_and, ◌≡◌, sym, ap, subst, ◌∙◌, arith, some,
  List, length,
}
use ig_libs.Base.Bits.{bit_and-mask, pow_pos}
use ig_libs.Base.Words.{u64_mod, add64, sub64, sub64_of_le}
use ig_libs.Ring.{RingBuffer, ring_buffer_readable_size}
use ig_libs.Ring.Window.{window}

-- The ring's counters, modulo 2 ^ 64, stand `length q` apart, and the bytes from `m_out` on are `q`.
pub record Holds (r : RingBuffer) (q : List ℕ) : Type 0 where
  pub storage : List ℕ
  pub held : r.m_buffer ≡ some storage
  pub sized : length storage ≡ r.m_size
  pub width : ℕ
  pub pow : r.m_size ≡ 2 ^ width
  pub narrow : width < 64
  pub out_small : r.m_out < u64_mod
  pub used : r.m_in ≡ (r.m_out + length q) % u64_mod
  pub fits : length q ≤ r.m_size
  pub bytes : window storage r.m_size r.m_out (length q) ≡ q

pow-dvd : (k d : ℕ) → 2 ^ k ∣ 2 ^ (k + d)
pow-dvd k zero = subst (λ n. 2 ^ k ∣ 2 ^ n) {x = k} {y = k + 0} (omega arith) (dvd_refl (2 ^ k))
pow-dvd k (suc d) =
    subst (λ n. 2 ^ k ∣ n) {x = 2 * 2 ^ (k + d)} {y = 2 ^ (k + suc d)} step
      (dvd_trans (2 ^ k) (pow-dvd k d) (dvd-mul_left (2 ^ (k + d)) 2))
  where
    step : 2 * 2 ^ (k + d) ≡ 2 ^ (k + suc d)
    step =
        sym (pow-succ' 2 (k + d)) ∙ ap (λ n. 2 ^ n) {x = suc (k + d)} {y = k + suc d} (omega arith)

pub size-dvd : (n k : ℕ) → n ≡ 2 ^ k → k < 64 → n ∣ u64_mod
size-dvd n k e h =
    subst (λ m. m ∣ u64_mod) (sym e)
      (subst (λ j. 2 ^ k ∣ 2 ^ j) {x = k + (64 - k)} {y = 64} (omega arith) (pow-dvd k (64 - k)))

pub size_small : (n k : ℕ) → n ≡ 2 ^ k → k < 64 → 2 * n ≤ u64_mod
size_small n k e h =
    omega (arith, two-pow-succ k, pow-le-pow_right {n = 2} (omega arith) {i = suc k} {j = 64} h)

module _ {r : RingBuffer} {q : List ℕ} (v : Holds r q) where
  open v use {pow, narrow, used, fits, out_small, width}

  pub size_pos : 0 < r.m_size
  size_pos = omega (arith, pow, pow_pos width)

  pub size_bound : 2 * r.m_size ≤ u64_mod
  size_bound = size_small r.m_size width pow narrow

  -- `m_in - m_out`
  pub readable_lem : sub64 r.m_in r.m_out ≡ length q
  unfolding sub64
  readable_lem = omega (arith, size_bound, used, fits, out_small)

  -- `m_size - m_in + m_out`
  pub writable_lem : add64 (sub64 r.m_size r.m_in) r.m_out ≡ r.m_size - length q
  unfolding sub64 add64
  writable_lem = omega (arith, size_bound, used, fits, out_small)

  -- `counter & (m_size - 1)`
  pub offset_lem : (c : ℕ) → bit_and c (sub64 r.m_size 1) ≡ c % r.m_size
  offset_lem c =
      ap (bit_and c) (sub64_of_le r.m_size 1 size_pos (omega (arith, size_bound, size_pos)))
      ∙ subst (λ n. bit_and c (n - 1) ≡ c % n) (sym pow) (bit_and-mask width c)

  pub to_end_lem : (c : ℕ) → sub64 r.m_size (c % r.m_size) ≡ r.m_size - c % r.m_size
  to_end_lem c =
      sub64_of_le r.m_size (c % r.m_size) (omega (arith, mod-lt c size_pos))
        (omega (arith, size_bound, size_pos))

  -- A counter that wraps at 2 ^ 64 keeps its place in the ring.
  pub wrap-mod : (c : ℕ) → c % u64_mod % r.m_size ≡ c % r.m_size
  wrap-mod c = mod-mod_of_dvd r.m_size c (size-dvd r.m_size width pow narrow)

  -- The bytes held end where the next byte goes.
  pub same_place : r.m_in % r.m_size ≡ (r.m_out + length q) % r.m_size
  same_place = ap (λ c. c % r.m_size) used ∙ wrap-mod (r.m_out + length q)

  pub ring_buffer_readable_size_lem : ring_buffer_readable_size r ≡ length q
  unfolding ring_buffer_readable_size
  ring_buffer_readable_size_lem = readable_lem
