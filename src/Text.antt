-- ===== src/Text.antt =====
-- string_utils.h and string_utils.cpp: a string is the list of its bytes.
pub mod Split
pub mod Digits
pub mod Trim
pub mod Utf8
pub mod Time
mod Tests
use ig_libs.Base.{
  ℕ, zero, suc, ◌+◌, ◌-◌, ◌*◌, ◌%◌, ◌^◌, min, bit_and, ℤ, sub_ℕ, pos, negsuc, Bool, true, false,
  not, ◌&&◌, ◌||◌, Option, none, some, List, [], ◌∷◌, ◌++◌, length, get_or, take, drop, leb, ltb,
  ◌==◌, if◌then◌else◌,
}

-- `getline(iss, item, delim)`: the bytes before the delimiter, which is taken off, and the rest of the stream.
pub getline : ℕ → List ℕ → List ℕ × List ℕ
getline delim [] = ([], [])
getline delim (c ∷ s) =
    let (item, rest) = getline delim s in if c == delim then ([], s) else (c ∷ item, rest)

-- At the end of the stream `getline` fails. Each turn takes a byte or more.
split_loop : ℕ → ℕ → List ℕ → List (List ℕ)
split_loop zero delim s = []
split_loop (suc fuel) delim [] = []
split_loop (suc fuel) delim (c ∷ s) =
    let (item, rest) = getline delim (c ∷ s) in item ∷ split_loop fuel delim rest

unfoldable pub split : List ℕ → ℕ → List (List ℕ)
unfolding split_loop getline
split s delim = split_loop (length s) delim s

-- `==` of two strings.
unfoldable pub same_text : List ℕ → List ℕ → Bool
same_text [] [] = true
same_text (c ∷ s) (d ∷ t) = c == d && same_text s t
same_text _ _ = false

-- `isdigit` of the C locale.
abbrev pub is_digit : ℕ → Bool
is_digit c = leb 48 c && leb c 57

-- The loop over `s.c_str()`, which ends at the first NUL.
digits_to_nul : List ℕ → Bool
digits_to_nul [] = true
digits_to_nul (c ∷ s) = c == 0 || is_digit c && digits_to_nul s

unfoldable pub is_all_digit : List ℕ → Bool
unfolding digits_to_nul
is_all_digit [] = false
is_all_digit (c ∷ s) = digits_to_nul (c ∷ s)

-- `charlist.find(c) != npos`
pub contains : List ℕ → ℕ → Bool
contains [] c = false
contains (x ∷ charlist) c = x == c || contains charlist c

front_count : List ℕ → List ℕ → ℕ
front_count charlist [] = 0
front_count charlist (c ∷ s) = if contains charlist c then suc (front_count charlist s) else 0

-- `while (pos > 0)`, with the position and the count where it stops.
back_loop : List ℕ → List ℕ → ℕ → ℕ → ℕ × ℕ
back_loop charlist s zero cnt = (0, cnt)
back_loop charlist s (suc p) cnt =
    let more = back_loop charlist s p (suc cnt) in
    if contains charlist (get_or s (suc p) 0) then more else (suc p, cnt)

-- `s.erase(pos, n)`
erase : List ℕ → ℕ → ℕ → List ℕ
erase s p n = take p s ++ drop (p + n) s

trim_back : List ℕ → List ℕ → List ℕ
trim_back [] charlist = []
trim_back (c ∷ s) charlist =
    let (p, cnt) = back_loop charlist (c ∷ s) (length (c ∷ s) - 1) 0 in
    if cnt == 0 then c ∷ s else erase (c ∷ s) (p + 1) cnt

pub trim : List ℕ → List ℕ → List ℕ
unfolding front_count erase trim_back back_loop contains
trim s charlist =
    let cnt = front_count charlist s in trim_back (if cnt == 0 then s else erase s 0 cnt) charlist

abbrev pub u32_max : ℕ
u32_max = 2 ^ 32 - 1

-- The leading digits of a text, as a number.
read_digits : ℕ → List ℕ → ℕ
read_digits acc [] = acc
read_digits acc (c ∷ s) =
    let more = read_digits (acc * 10 + (c - 48)) s in if is_digit c then more else acc

-- `ss << str; ss >> out` into a `uint32_t`: the largest value where the number does not fit.
pub strtodigit : List ℕ → ℕ
unfolding read_digits
strtodigit s = min (read_digits 0 s) u32_max

abbrev is_space : ℕ → Bool
is_space c = c == 32 || (leb 9 c && leb c 13)

skip_spaces : List ℕ → List ℕ
skip_spaces [] = []
skip_spaces (c ∷ s) = let rest = skip_spaces s in if is_space c then rest else c ∷ s

-- The low 32 bits as an `int`.
abbrev cut_to_int : ℕ → ℤ
cut_to_int n = let low = n % 2 ^ 32 in if ltb low (2 ^ 31) then pos low else sub_ℕ low (2 ^ 32)

signed : List ℕ → ℤ
unfolding read_digits
signed [] = pos 0
signed (c ∷ s) =
    if c == 45
    then cut_to_int (2 ^ 64 - min (read_digits 0 s) (2 ^ 63))
    else cut_to_int (min (read_digits 0 (if c == 43 then s else c ∷ s)) (2 ^ 63 - 1))

-- `atoi` of the C library: `strtol`, which stops at the bounds of a `long`, cut to an `int`.
pub atoi : List ℕ → ℤ
unfolding skip_spaces signed
atoi s = signed (skip_spaces s)

-- The return value and `out`. The argument is NULL or the bytes before the terminating NUL.
pub str2int : Option (List ℕ) → ℕ → ℤ × ℕ
str2int none out = (negsuc 0, out)
str2int (some s) out = if is_all_digit s then (pos 0, strtodigit s) else (negsuc 0, out)

-- The step of `i` for the byte `s[i]`; 0 where the byte starts no character.
pub lead_width : ℕ → ℕ
lead_width c =
    if bit_and c 0x80 == 0
    then 1
    else (if bit_and c 0xE0 == 0xC0
        then 2
        else (if bit_and c 0xF0 == 0xE0 then 3 else (if bit_and c 0xF8 == 0xF0 then 4 else 0)))

-- `for (++pos; pos != i; ++pos)`: the next `n` bytes continue a character.
continues : List ℕ → ℕ → ℕ → Bool
continues s p zero = true
continues s p (suc n) = bit_and (get_or s p 0) 0xC0 == 0x80 && continues s (suc p) n

-- `none` if the fuel runs out.
utf8_loop : ℕ → List ℕ → ℕ → Option Bool
utf8_loop zero s i = none
utf8_loop (suc fuel) s i =
    let w = lead_width (get_or s i 0) in
    let rest = utf8_loop fuel s (i + w) in
    if i == length s
    then some true
    else (if w == 0 || ltb (length s) (i + w) || not (continues s (suc i) (w - 1))
        then some false
        else rest)

pub is_utf8 : List ℕ → Option Bool
unfolding utf8_loop
is_utf8 s = utf8_loop (suc (length s)) s 0
