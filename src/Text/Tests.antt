-- ===== src/Text/Tests.antt =====
-- The string helpers at concrete texts.
use ig_libs.Base.{ℤ, ℕ, ◌≡◌, ◌⊎◌, refl, arith, true, false, pos, negsuc, some, List, [], ◌∷◌}
use ig_libs.Text.{split, trim, str2int, is_utf8, u32_max, atoi}
use ig_libs.Text.Split.{IsSplit, split-IsSplit}
use ig_libs.Text.Digits.{decimal, str2int-decimal}
use ig_libs.Text.Time.{Tm, parse_str_time}
use ig_libs.Text.Time.RoundTrip.{written_time, parse_str_time-written}
use ig_libs.Text.Trim.{IsTrimmed, trim-IsTrimmed}
use ig_libs.Text.Utf8.{IsText}
use ig_libs.Text.Utf8.Loop.{is_utf8-Decides}

-- "a;b;;" has three pieces.
abbrev hosts : List ℕ
hosts = b'a' ∷ b';' ∷ b'b' ∷ b';' ∷ b';' ∷ []

split-hosts : split hosts b';' ≡ (b'a' ∷ []) ∷ (b'b' ∷ []) ∷ [] ∷ []
unfolding split
split-hosts = refl

trim_both : trim (32 ∷ 9 ∷ 65 ∷ 32 ∷ 66 ∷ 32 ∷ []) (32 ∷ 9 ∷ []) ≡ 65 ∷ 32 ∷ 66 ∷ []
unfolding trim
trim_both = refl

split-IsSplit_example : IsSplit b';' hosts (split hosts b';')
split-IsSplit_example = split-IsSplit hosts b';'

-- " -12x"
atoi_minus : atoi (32 ∷ 45 ∷ 49 ∷ 50 ∷ 120 ∷ []) ≡ negsuc 11
unfolding atoi
atoi_minus = refl

atoi_plus : atoi (43 ∷ 49 ∷ 50 ∷ []) ≡ pos 12
unfolding atoi
atoi_plus = refl

abbrev twelve : List ℕ
twelve = 49 ∷ 50 ∷ []

str2int-decimal_example : str2int (some (decimal 5000000000)) 7 ≡ (pos 0, u32_max)
str2int-decimal_example = str2int-decimal 5000000000 7

trim-IsTrimmed_example :
    IsTrimmed (32 ∷ []) (32 ∷ 65 ∷ 32 ∷ []) (trim (32 ∷ 65 ∷ 32 ∷ []) (32 ∷ []))
trim-IsTrimmed_example = trim-IsTrimmed (32 ∷ 65 ∷ 32 ∷ []) (32 ∷ [])

-- The two bytes of U+00E9.
abbrev e_acute : List ℕ
e_acute = 0xC3 ∷ 0xA9 ∷ []

is_utf8-Decides_example :
    ((is_utf8 e_acute ≡ some true) × IsText e_acute)
    ⊎ ((is_utf8 e_acute ≡ some false) × (¬ IsText e_acute))
is_utf8-Decides_example = is_utf8-Decides e_acute (omega arith)

-- A mktime that gives the hour, and a structure with anything in it.
abbrev hour_of : Tm → ℤ
hour_of tm = pos tm.tm_hour

abbrev anything : Tm
anything = record {
  tm_year = pos 0;
  tm_mon = 0;
  tm_mday = 0;
  tm_hour = 0;
  tm_min = 0;
  tm_sec = 0;
  tm_isdst = pos 7;
}

parse_str_time-written_example :
    parse_str_time hour_of anything (some (written_time 2014 5 6 7 8 9 [])) (pos 0) ≡ (pos 0, pos 7)
parse_str_time-written_example =
    parse_str_time-written hour_of anything 2014 5 6 7 8 9 [] (pos 0) (omega arith) (omega arith)
      (omega arith) (omega arith) (omega arith) (omega arith) (omega arith) (omega arith)

-- "2014-13-06" has no such month.
parse_str_time_month :
    parse_str_time hour_of anything (some (written_time 2014 13 6 7 8 9 [])) (pos 3)
    ≡ (negsuc 0, pos 3)
unfolding parse_str_time written_time
parse_str_time_month = refl
