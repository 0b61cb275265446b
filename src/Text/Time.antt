-- ===== src/Text/Time.antt =====
-- parse_str_time of string_utils.cpp, with `strptime` at its one format "%Y-%m-%d %H:%M:%S" in the C locale. `mktime`, which knows the
-- time zone, is a parameter.
pub mod RoundTrip
use ig_libs.Base.{
  ◌>>=◌, ℕ, zero, suc, ◌+◌, ◌-◌, ◌*◌, ℤ, sub_ℕ, pos, negsuc, eqb_ℤ, Bool, ◌&&◌, Option, none, some,
  List, [], ◌∷◌, leb, ◌==◌, if◌then◌else◌,
}
use ig_libs.Text.{is_digit, skip_spaces}

-- The fields of `struct tm` that `mktime` looks at.
pub record Tm : Type 0 where
  pub tm_year : ℤ
  pub tm_mon : ℕ
  pub tm_mday : ℕ
  pub tm_hour : ℕ
  pub tm_min : ℕ
  pub tm_sec : ℕ
  pub tm_isdst : ℤ

-- At most `n` digits more, while the number can stay at `top` or below.
digits_loop : ℕ → ℕ → ℕ → List ℕ → ℕ × List ℕ
digits_loop zero top val s = (val, s)
digits_loop (suc n) top val [] = (val, [])
digits_loop (suc n) top val (c ∷ s) =
    let more = digits_loop n top (val * 10 + (c - 48)) s in
    if leb (val * 10) top && is_digit c then more else (val, c ∷ s)

abbrev in_range : ℕ → ℕ → ℕ × List ℕ → Option (ℕ × List ℕ)
in_range low top (val, s) = if leb low val && leb val top then some (val, s) else none

blanks : List ℕ → List ℕ
blanks [] = []
blanks (c ∷ s) = let rest = blanks s in if c == 32 then rest else c ∷ s

abbrev number_at : ℕ → ℕ → ℕ → List ℕ → Option (ℕ × List ℕ)
unfolding digits_loop
number_at low top n [] = none
number_at low top n (c ∷ s) =
    if is_digit c then in_range low top (digits_loop (n - 1) top (c - 48) s) else none

-- A number of at most `n` digits, behind blanks, and what is behind it.
get_number : ℕ → ℕ → ℕ → List ℕ → Option (ℕ × List ℕ)
unfolding number_at blanks
get_number low top n s = number_at low top n (blanks s)

literal : ℕ → List ℕ → Option (List ℕ)
literal c [] = none
literal c (x ∷ s) = if x == c then some s else none

-- The fields that the format names are written, and the others stay. What is behind the text that is read stays, too.
pub strptime : List ℕ → Tm → Option (Tm × List ℕ)
unfolding get_number literal
strptime s tm = do
  (year, s1) ← get_number 0 9999 4 s
  s2 ← literal 45 s1
  (month, s3) ← get_number 1 12 2 s2
  s4 ← literal 45 s3
  (day, s5) ← get_number 1 31 2 s4
  (hour, s6) ← get_number 0 23 2 (skip_spaces s5)
  s7 ← literal 58 s6
  (minute, s8) ← get_number 0 59 2 s7
  s9 ← literal 58 s8
  (second, rest) ← get_number 0 61 2 s9
  some (
    record tm {
      tm_year = sub_ℕ year 1900;
      tm_mon = month - 1;
      tm_mday = day;
      tm_hour = hour;
      tm_min = minute;
      tm_sec = second;
    },
    rest,
  )

abbrev pub time_made : (Tm → ℤ) → ℤ → Option (Tm × List ℕ) → ℤ × ℤ
time_made mktime time none = (negsuc 0, time)
time_made mktime time (some (tm, rest)) =
    let made = mktime tm in (if eqb_ℤ made (negsuc 0) then negsuc 0 else pos 0, made)

-- The return value and `time`. `tm` is not initialised; what it holds is an argument. The text is NULL or the bytes before the NUL.
unfoldable pub parse_str_time : (Tm → ℤ) → Tm → Option (List ℕ) → ℤ → ℤ × ℤ
unfolding strptime skip_spaces
parse_str_time mktime tm none time = (negsuc 0, time)
parse_str_time mktime tm (some []) time = (negsuc 0, time)
parse_str_time mktime tm (some (c ∷ s)) time = time_made mktime time (strptime (c ∷ s) tm)
