-- ===== src/Config/Printed.antt =====
-- Reading a file that was written as `key=value` lines.
use ig_libs.Base.{
  ℕ, ◌≡◌, ◌≢◌, refl, arith, Bool, true, false, not, ◌&&◌, some, List, [], ◌∷◌, ◌++◌, ◌==◌,
}
use ig_libs.Config.{cut, text_lines, is_delim, skip_delims, token, key_value}

-- No delimiter, newline or NUL.
abbrev pub is_plain : ℕ → Bool
is_plain c = not (is_delim c) && not (c == 10) && not (c == 0)

abbrev pub AllPlain : List ℕ → Type 0
AllPlain [] = Unit {0}
AllPlain (c ∷ s) = (is_plain c ≡ true) × AllPlain s

-- Bytes of a line.
abbrev pub AllInLine : List ℕ → Type 0
AllInLine [] = Unit {0}
AllInLine (c ∷ s) = ((c == 10) ≡ false) × ((c == 0) ≡ false) × AllInLine s

cut-AllInLine : (line s : List ℕ) → AllInLine line → cut (line ++ (10 ∷ s)) ≡ (line, text_lines s)
unfolding cut text_lines
cut-AllInLine [] s h = refl
cut-AllInLine (c ∷ line) s (nl, nul, h) = rw (cut-AllInLine line s h, nl, nul)

pub text_lines-AllInLine :
    (line s : List ℕ) → AllInLine line → text_lines (line ++ (10 ∷ s)) ≡ line ∷ text_lines s
unfolding text_lines
text_lines-AllInLine [] s h = rw (cut-AllInLine [] s h)
text_lines-AllInLine (c ∷ line) s h = rw (cut-AllInLine (c ∷ line) s h)

pub AllPlain-AllInLine : (s t : List ℕ) → AllPlain s → AllInLine t → AllInLine (s ++ t)
AllPlain-AllInLine [] t h k = k
AllPlain-AllInLine (c ∷ s) t (p, h) k = (ground arith, ground arith, AllPlain-AllInLine s t h k)

pub AllPlain-AllInLine_self : (s : List ℕ) → AllPlain s → AllInLine s
AllPlain-AllInLine_self [] h = tt
AllPlain-AllInLine_self (c ∷ s) (p, h) = (ground arith, ground arith, AllPlain-AllInLine_self s h)

token_word : (w s : List ℕ) → AllPlain w → token (w ++ (61 ∷ s)) ≡ (w, s)
unfolding token
token_word [] s h = refl
token_word (c ∷ w) s (p, h) = let d : is_delim c ≡ false = ground arith in rw (token_word w s h, d)

token_end : (w : List ℕ) → AllPlain w → token w ≡ (w, [])
unfolding token
token_end [] h = refl
token_end (c ∷ w) (p, h) = let d : is_delim c ≡ false = ground arith in rw (token_end w h, d)

skip_delims-AllPlain : (c : ℕ) (s : List ℕ) → is_plain c ≡ true → skip_delims (c ∷ s) ≡ c ∷ s
unfolding skip_delims
skip_delims-AllPlain c s p = let d : is_delim c ≡ false = ground arith in rw d

pub key_value_lem :
    (key val : List ℕ)
    → AllPlain key
    → AllPlain val
    → key ≢ []
    → val ≢ []
    → key_value (key ++ (61 ∷ val)) ≡ some (key, val)
unfolding key_value
key_value_lem [] val h k ne ne' = absurd (ne refl)
key_value_lem (c ∷ key) [] h k ne ne' = absurd (ne' refl)
key_value_lem (c ∷ key) (d ∷ val) (p, h) (q, k) ne ne' =
    rw
      (
        skip_delims-AllPlain c (key ++ (61 ∷ d ∷ val)) p,
        token_word (c ∷ key) (d ∷ val) (p, h),
        skip_delims-AllPlain d val q,
        token_end (d ∷ val) (q, k),
      )
      refl
