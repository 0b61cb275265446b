-- ===== src/Text/Time/RoundTrip.antt =====
-- parse_str_time on a written time.
use ig_libs.Base.{
  ℕ, ◌+◌, ◌-◌, ◌*◌, ◌/◌, ◌%◌, ◌≤◌, ◌<◌, ◌≡◌, refl, arith, ℤ, sub_ℕ, pos, negsuc, eqb_ℤ, true, false,
  some, List, ◌∷◌, leb, ◌==◌, if◌then◌else◌,
}
use ig_libs.Text.{is_digit, skip_spaces}
use ig_libs.Text.Time.{
  Tm, digits_loop, blanks, number_at, get_number, literal, strptime, parse_str_time,
}

-- Two and four decimal digits, in front of a text.
abbrev pub two_digits : ℕ → List ℕ → List ℕ
two_digits n s = (48 + n / 10) ∷ (48 + n % 10) ∷ s

abbrev pub four_digits : ℕ → List ℕ → List ℕ
four_digits n s = (48 + n / 1000) ∷ (48 + n / 100 % 10) ∷ (48 + n / 10 % 10) ∷ (48 + n % 10) ∷ s

-- "YYYY-MM-DD HH:MM:SS", in front of a text.
unfoldable pub written_time : ℕ → ℕ → ℕ → ℕ → ℕ → ℕ → List ℕ → List ℕ
written_time year month day hour minute second s = four_digits year (
    45
    ∷ two_digits month (
        45
        ∷ two_digits day
            (32 ∷ two_digits hour (58 ∷ two_digits minute (58 ∷ two_digits second s)))))

digit_test : (d : ℕ) → d < 10 → is_digit (48 + d) ≡ true
digit_test d h = ground arith

get_number-two :
    (low top n : ℕ) (s : List ℕ)
    → low ≤ n
    → n ≤ top
    → top ≤ 99
    → get_number low top 2 (two_digits n s) ≡ some (n, s)
unfolding get_number number_at blanks digits_loop
get_number-two low top n s l t k =
    let no_blank : (48 + n / 10 == 32) ≡ false = ground arith in
    let first : is_digit (48 + n / 10) ≡ true = digit_test (n / 10) (omega arith) in
    let second : is_digit (48 + n % 10) ≡ true = digit_test (n % 10) (omega arith) in
    let room : leb ((48 + n / 10 - 48) * 10) top ≡ true = ground arith in
    let whole : (48 + n / 10 - 48) * 10 + (48 + n % 10 - 48) ≡ n = omega arith in
    let at_least : leb low n ≡ true = ground arith in
    let at_most : leb n top ≡ true = ground arith in
    rw (no_blank, first, room, second, whole, at_least, at_most) refl

get_number-four :
    (n : ℕ) (s : List ℕ) → n ≤ 9999 → get_number 0 9999 4 (four_digits n s) ≡ some (n, s)
unfolding get_number number_at blanks digits_loop
get_number-four n s t =
    let no_blank : (48 + n / 1000 == 32) ≡ false = ground arith in
    let first : is_digit (48 + n / 1000) ≡ true = digit_test (n / 1000) (omega arith) in
    let second : is_digit (48 + n / 100 % 10) ≡ true = digit_test (n / 100 % 10) (omega arith) in
    let third : is_digit (48 + n / 10 % 10) ≡ true = digit_test (n / 10 % 10) (omega arith) in
    let fourth : is_digit (48 + n % 10) ≡ true = digit_test (n % 10) (omega arith) in
    let one : 48 + n / 1000 - 48 ≡ n / 1000 = omega arith in
    let two : n / 1000 * 10 + (48 + n / 100 % 10 - 48) ≡ n / 100 = omega arith in
    let three : n / 100 * 10 + (48 + n / 10 % 10 - 48) ≡ n / 10 = omega arith in
    let four : n / 10 * 10 + (48 + n % 10 - 48) ≡ n = omega arith in
    let room_one : leb (n / 1000 * 10) 9999 ≡ true = ground arith in
    let room_two : leb (n / 100 * 10) 9999 ≡ true = ground arith in
    let room_three : leb (n / 10 * 10) 9999 ≡ true = ground arith in
    let at_least : leb 0 n ≡ true = ground arith in
    let at_most : leb n 9999 ≡ true = ground arith in
    rw
      (
        no_blank, first, one, room_one, second, two, room_two, third, three, room_three, fourth,
        four, at_least, at_most,
      )
      refl

skip_spaces-two : (n : ℕ) (s : List ℕ) → skip_spaces (32 ∷ two_digits n s) ≡ two_digits n s
unfolding skip_spaces
skip_spaces-two n s =
    let no_space : (48 + n / 10 == 32) ≡ false = ground arith in
    let no_control : leb (48 + n / 10) 13 ≡ false = ground arith in
    let high : leb 9 (48 + n / 10) ≡ true = ground arith in rw (no_space, high, no_control) refl

-- For a date and time whose fields are in the ranges of the format, parse_str_time reads the text "YYYY-MM-DD HH:MM:SS" and, where mktime does not give
-- -1, returns 0 with what mktime makes of the fields: the year less 1900, the month less 1, and the others as they are written. What
-- stands behind the text is not looked at, and tm_isdst is what the uninitialised structure held.
pub parse_str_time-written :
    (mktime : Tm → ℤ) (tm : Tm) (year month day hour minute second : ℕ) (behind : List ℕ) (time : ℤ)
    → year ≤ 9999
    → 1 ≤ month
    → month ≤ 12
    → 1 ≤ day
    → day ≤ 31
    → hour ≤ 23
    → minute ≤ 59
    → second ≤ 61
    → parse_str_time mktime tm (some (written_time year month day hour minute second behind)) time
      ≡ (let made = mktime (record {
        tm_year = sub_ℕ year 1900;
        tm_mon = month - 1;
        tm_mday = day;
        tm_hour = hour;
        tm_min = minute;
        tm_sec = second;
        tm_isdst = tm.tm_isdst;
      }) in
          (if eqb_ℤ made (negsuc 0) then negsuc 0 else pos 0, made))
unfolding parse_str_time strptime written_time literal
parse_str_time-written mktime tm year month day hour minute second behind time y m m' d d' h mi s =
    rw
      (
        get_number-four year _ y,
        get_number-two 1 12 month _ m m' (omega arith),
        get_number-two 1 31 day _ d d' (omega arith),
        skip_spaces-two hour _,
        get_number-two 0 23 hour _ (omega arith) h (omega arith),
        get_number-two 0 59 minute _ (omega arith) mi (omega arith),
        get_number-two 0 61 second _ (omega arith) s (omega arith),
      )
      refl
