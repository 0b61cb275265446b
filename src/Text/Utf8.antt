-- ===== src/Text/Utf8.antt =====
-- BossCommon::is_utf8 against the byte patterns of the table above it.
pub mod Loop
use ig_libs.Base.{
  ℕ, zero, suc, ◌+◌, ◌-◌, ◌≤◌, ◌<◌, ◌≡◌, ◌≢◌, ◌↔◌, ◌⊎◌, inl, inr, refl, sym, ap, subst, ◌∙◌, arith,
  Bool, true, false, not, ◌&&◌, ◌||◌, Bool-cases, Option, some, none, bit_and, List, [], ◌∷◌, ◌++◌,
  length, get_or, drop, ◌==◌, ltb, leb, if◌then◌else◌, ==_iff, &&_both,
}
use ig_libs.Base.Bits.{all_below, all_below_sound}
use ig_libs.Text.{lead_width, continues, utf8_loop, is_utf8}

-- 10xxxxxx
abbrev pub IsTail : ℕ → Type 0
IsTail c = (0x80 ≤ c) × (c < 0xC0)

-- The bytes of one character: 0xxxxxxx; 110xxxxx, 1110xxxx or 11110xxx and one, two or three 10xxxxxx.
pub data IsCharacter : List ℕ → Type 0 where
  one : {a : ℕ} → a < 0x80 → IsCharacter (a ∷ [])
  two : {a b : ℕ} → 0xC0 ≤ a → a < 0xE0 → IsTail b → IsCharacter (a ∷ b ∷ [])
  three : {a b c : ℕ} → 0xE0 ≤ a → a < 0xF0 → IsTail b → IsTail c → IsCharacter (a ∷ b ∷ c ∷ [])
  four :
      {a b c d : ℕ}
      → 0xF0 ≤ a
      → a < 0xF8
      → IsTail b
      → IsTail c
      → IsTail d
      → IsCharacter (a ∷ b ∷ c ∷ d ∷ [])

-- A text is a sequence of characters.
pub data IsText : List ℕ → Type 0 where
  nil : IsText []
  cons : {c s t : List ℕ} → IsCharacter c → IsText s → t ≡ c ++ s → IsText t

abbrev pub AllBytes : List ℕ → Type 0
AllBytes [] = Unit {0}
AllBytes (c ∷ s) = (c < 256) × AllBytes s

-- The width by ranges.
abbrev range_width : ℕ → ℕ
range_width c =
    if ltb c 0x80
    then 1
    else (if ltb c 0xC0
        then 0
        else (if ltb c 0xE0 then 2 else (if ltb c 0xF0 then 3 else (if ltb c 0xF8 then 4 else 0))))

width_table : all_below 256 (λ c. lead_width c == range_width c) ≡ true
unfolding all_below lead_width
width_table = refl

lead_width-ranges : (c : ℕ) → c < 256 → lead_width c ≡ range_width c
lead_width-ranges c h =
    (==_iff _ _).0 (all_below_sound (λ c. lead_width c == range_width c) 256 c h width_table)

is_tail : ℕ → Bool
is_tail c = bit_and c 0xC0 == 0x80

tail_table :
    all_below 256
      (λ c. if is_tail c then leb 0x80 c && ltb c 0xC0 else not (leb 0x80 c && ltb c 0xC0))
    ≡ true
unfolding all_below is_tail
tail_table = refl

is_tail_iff : (c : ℕ) → c < 256 → (is_tail c ≡ true) ↔ IsTail c
is_tail_iff c h =
    let row =
      all_below_sound
        (λ c. if is_tail c then leb 0x80 c && ltb c 0xC0 else not (leb 0x80 c && ltb c 0xC0)) 256 c
        h tail_table in
    (λ e. ground arith, λ e. ground arith)

-- Whether the next `n` bytes all continue a character.
tails : List ℕ → ℕ → Bool
tails s zero = true
tails [] (suc n) = false
tails (c ∷ s) (suc n) = is_tail c && tails s n

-- A text that begins with `c` goes on as the width of `c` says.
abbrev Goes : List ℕ → Type 0
Goes [] = Unit {0}
Goes (c ∷ t) =
    (0 < range_width c)
    × (range_width c ≤ length (c ∷ t))
    × (tails t (range_width c - 1) ≡ true)
    × IsText (drop (range_width c) (c ∷ t))

tail_test : (c : ℕ) → IsTail c → is_tail c ≡ true
tail_test c h = (is_tail_iff c (omega arith)).1 h

IsCharacter-Goes : {c s : List ℕ} → IsCharacter c → IsText s → Goes (c ++ s)
unfolding tails
IsCharacter-Goes (one {a} h) st =
    let w : range_width a ≡ 1 = ground arith in rw w (omega arith, omega arith, refl, st)
IsCharacter-Goes (two {a} {b} h k hb) st =
    let w : range_width a ≡ 2 = ground arith in
    rw w (omega arith, omega arith, rw (tail_test b hb) refl, st)
IsCharacter-Goes (three {a} {b} {c} h k hb hc) st =
    let w : range_width a ≡ 3 = ground arith in
    rw w (omega arith, omega arith, rw (tail_test b hb, tail_test c hc) refl, st)
IsCharacter-Goes (four {a} {b} {c} {d} h k hb hc hd) st =
    let w : range_width a ≡ 4 = ground arith in
    rw w (omega arith, omega arith, rw (tail_test b hb, tail_test c hc, tail_test d hd) refl, st)

IsText-Goes : {t : List ℕ} → IsText t → Goes t
IsText-Goes nil = tt
IsText-Goes (cons ch st e) = subst Goes (sym e) (IsCharacter-Goes ch st)

-- The ranges that the widths stand for.
width_cases :
    (c : ℕ)
    → ((c < 0x80) × (range_width c ≡ 1))
      ⊎ ((range_width c ≡ 0)
          ⊎ ((0xC0 ≤ c) × (c < 0xE0) × (range_width c ≡ 2)
              ⊎ ((0xE0 ≤ c) × (c < 0xF0) × (range_width c ≡ 3)
                  ⊎ (0xF0 ≤ c) × (c < 0xF8) × (range_width c ≡ 4))))
width_cases c = ground arith

tails-cons :
    (n : ℕ) (t : List ℕ)
    → AllBytes t
    → tails t (suc n) ≡ true
    → (b : ℕ) × (s : List ℕ) × (t ≡ b ∷ s) × IsTail b × (tails s n ≡ true) × AllBytes s
unfolding tails
tails-cons n [] a h = cc
tails-cons n (b ∷ s) a h =
    let both = &&_both (is_tail b) (tails s n) h in
    (b, s, refl, (is_tail_iff b a.0).0 both.0, both.1, a.1)

Goes-IsText : (c : ℕ) (t : List ℕ) → AllBytes t → Goes (c ∷ t) → IsText (c ∷ t)
Goes-IsText c t a g = by (width_cases c)
  where
    step : {w : ℕ} → range_width c ≡ w → (tails t (w - 1) ≡ true) × IsText (drop w (c ∷ t))
    step {w} e = subst (λ w. (tails t (w - 1) ≡ true) × IsText (drop w (c ∷ t))) e (g.2, g.3)

    by :
        ((c < 0x80) × (range_width c ≡ 1))
          ⊎ ((range_width c ≡ 0)
              ⊎ ((0xC0 ≤ c) × (c < 0xE0) × (range_width c ≡ 2)
                  ⊎ ((0xE0 ≤ c) × (c < 0xF0) × (range_width c ≡ 3)
                      ⊎ (0xF0 ≤ c) × (c < 0xF8) × (range_width c ≡ 4))))
        → IsText (c ∷ t)
    by (inl (h, w)) = cons (one h) (step w).1 refl
    by (inr (inl w)) = absurd (omega (arith, g.0))
    by (inr (inr (inl (h, k, w)))) =
        let (b, s, e, tb, more, bs) = tails-cons 0 t a (step w).0 in
        cons (two h k tb) (subst (λ t. IsText (drop 2 (c ∷ t))) e (step w).1) (ap (◌∷◌ c) e)
    by (inr (inr (inr (inl (h, k, w))))) =
        let (b, s, e, tb, more, bs) = tails-cons 1 t a (step w).0 in
        let (b', s', e', tb', more', bs') = tails-cons 0 s bs more in
        let whole : t ≡ b ∷ b' ∷ s' = e ∙ ap (◌∷◌ b) e' in
        cons (three h k tb tb') (subst (λ t. IsText (drop 3 (c ∷ t))) whole (step w).1)
          (ap (◌∷◌ c) whole)
    by (inr (inr (inr (inr (h, k, w))))) =
        let (b, s, e, tb, more, bs) = tails-cons 2 t a (step w).0 in
        let (b', s', e', tb', more', bs') = tails-cons 1 s bs more in
        let (b'', s'', e'', tb'', more'', bs'') = tails-cons 0 s' bs' more' in
        let whole : t ≡ b ∷ b' ∷ b'' ∷ s'' = e ∙ ap (◌∷◌ b) (e' ∙ ap (◌∷◌ b') e'') in
        cons (four h k tb tb' tb'') (subst (λ t. IsText (drop 4 (c ∷ t))) whole (step w).1)
          (ap (◌∷◌ c) whole)
