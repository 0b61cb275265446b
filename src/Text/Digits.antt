-- ===== src/Text/Digits.antt =====
-- is_all_digit, strtodigit and str2int against decimal notation.
use ig_libs.Base.{
  ℕ, zero, suc, ◌+◌, ◌-◌, ◌*◌, ◌/◌, ◌%◌, ◌≤◌, ◌<◌, min, ◌≡◌, ◌≢◌, ◌↔◌, inl, inr, refl, ap, ◌∙◌,
  arith, true, false, Bool-cases, pos, if◌then◌else◌, ltb, ltb→lt, some, List, [], ◌∷◌, ◌++◌, ◌==◌,
}
use ig_libs.Text.{is_digit, digits_to_nul, is_all_digit, read_digits, strtodigit, str2int, u32_max}

-- The bytes before the first NUL.
pub c_string : List ℕ → List ℕ
c_string [] = []
c_string (c ∷ s) = let rest = c_string s in if c == 0 then [] else c ∷ rest

abbrev pub AllDigits : List ℕ → Type 0
AllDigits [] = Unit {0}
AllDigits (c ∷ s) = ((48 ≤ c) × (c ≤ 57)) × AllDigits s

digits_to_nul_iff : (s : List ℕ) → (digits_to_nul s ≡ true) ↔ AllDigits (c_string s)
unfolding digits_to_nul c_string
digits_to_nul_iff [] = (λ h. tt, λ h. refl)
digits_to_nul_iff (c ∷ s) =
    (λ h. ground (arith, (digits_to_nul_iff s).0), λ h. ground (arith, (digits_to_nul_iff s).1))

-- is_all_digit answers true exactly for a non-empty string whose bytes before its first NUL are
-- decimal digits; what stands behind a NUL is not looked at.
pub is_all_digit_iff : (s : List ℕ) → (is_all_digit s ≡ true) ↔ ((s ≢ []) × AllDigits (c_string s))
unfolding is_all_digit
is_all_digit_iff [] = (λ h. cc, λ h. absurd (h.0 refl))
is_all_digit_iff (c ∷ s) =
    (λ h. (λ e. cc, (digits_to_nul_iff (c ∷ s)).0 h), λ h. (digits_to_nul_iff (c ∷ s)).1 h.1)

-- Decimal notation.
unfoldable pub decimal_loop : ℕ → ℕ → List ℕ
decimal_loop zero n = []
decimal_loop (suc fuel) n =
    let upper = decimal_loop fuel (n / 10) in
    if ltb n 10 then (48 + n) ∷ [] else upper ++ ((48 + n % 10) ∷ [])

unfoldable pub decimal : ℕ → List ℕ
unfolding decimal_loop
decimal n = decimal_loop (suc n) n

AllDigits-append : (xs ys : List ℕ) → AllDigits xs → AllDigits ys → AllDigits (xs ++ ys)
AllDigits-append [] ys h k = k
AllDigits-append (x ∷ xs) ys h k = (h.0, AllDigits-append xs ys h.1 k)

decimal_loop-AllDigits : (fuel n : ℕ) → AllDigits (decimal_loop fuel n)
unfolding decimal_loop
decimal_loop-AllDigits zero n = tt
decimal_loop-AllDigits (suc fuel) n = elim (Bool-cases (ltb n 10)) [
  | inl small ↦ rw small ((omega arith, omega (arith, ltb→lt n 10)), tt)
  | inr large ↦
      rw large (
        AllDigits-append _ _ (decimal_loop-AllDigits fuel (n / 10))
          ((omega arith, omega arith), tt))
]

digit : (x : ℕ) → (48 ≤ x) × (x ≤ 57) → is_digit x ≡ true
digit x h = ground arith

read_digits-append :
    (acc : ℕ) (xs ys : List ℕ)
    → AllDigits xs
    → read_digits acc (xs ++ ys) ≡ read_digits (read_digits acc xs) ys
unfolding read_digits
read_digits-append acc [] ys h = refl
read_digits-append acc (x ∷ xs) ys h =
    rw (digit x h.0) (read_digits-append (acc * 10 + (x - 48)) xs ys h.1)

read_digits-one : (acc d : ℕ) → d < 10 → read_digits acc ((48 + d) ∷ []) ≡ acc * 10 + d
unfolding read_digits
read_digits-one acc d h = rw (digit (48 + d) (omega arith, omega arith)) (omega arith)

read_digits-decimal : (fuel n : ℕ) → n < fuel → read_digits 0 (decimal_loop fuel n) ≡ n
unfolding decimal_loop
read_digits-decimal zero n h = absurd (omega arith)
read_digits-decimal (suc fuel) n h = elim (Bool-cases (ltb n 10)) [
  | inl small ↦ rw small (omega (arith, read_digits-one 0 n (ltb→lt n 10 small)))
  | inr large ↦ rw large (
      read_digits-append 0 (decimal_loop fuel (n / 10)) ((48 + n % 10) ∷ [])
        (decimal_loop-AllDigits fuel (n / 10))
      ∙ read_digits-one (read_digits 0 (decimal_loop fuel (n / 10))) (n % 10) (omega arith)
      ∙ omega (arith, read_digits-decimal fuel (n / 10) (ground arith)))
]

c_string-digits : (s : List ℕ) → AllDigits s → c_string s ≡ s
unfolding c_string
c_string-digits [] h = refl
c_string-digits (c ∷ s) h =
    let some_byte : (c == 0) ≡ false = ground arith in
    rw some_byte (ap (◌∷◌ c) (c_string-digits s h.1))

decimal_loop-ne-nil : (fuel n : ℕ) → decimal_loop (suc fuel) n ≢ []
unfolding decimal_loop
decimal_loop-ne-nil fuel n = elim (Bool-cases (ltb n 10)) [
  | inl small ↦ rw small (λ e. cc)
  | inr large ↦ rw large (append_ne (decimal_loop fuel (n / 10)))
]
  where
    append_ne : (xs : List ℕ) → xs ++ ((48 + n % 10) ∷ []) ≢ []
    append_ne [] e = cc
    append_ne (x ∷ xs) e = cc

-- Reading the decimal notation of any number succeeds; it gives the number, or 2 ^ 32 - 1 where
-- the number does not fit in 32 bits.
pub str2int-decimal : (n out : ℕ) → str2int (some (decimal n)) out ≡ (pos 0, min n u32_max)
unfolding str2int decimal strtodigit
str2int-decimal n out = rw (accepted, read_digits-decimal (suc n) n (omega arith))
  where
    digits : AllDigits (decimal_loop (suc n) n)
    digits = decimal_loop-AllDigits (suc n) n

    accepted : is_all_digit (decimal_loop (suc n) n) ≡ true
    accepted =
        (is_all_digit_iff (decimal_loop (suc n) n)).1
          (decimal_loop-ne-nil n n, rw (c_string-digits (decimal_loop (suc n) n) digits) digits)
