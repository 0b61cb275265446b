-- ===== src/Text/Utf8/Loop.antt =====
-- The loop of is_utf8, first over what is left of the text instead of over an index.
use ig_libs.Base.{
  ℕ, zero, suc, ◌+◌, ◌-◌, ◌≤◌, ◌<◌, ◌≡◌, ◌⊎◌, inl, inr, refl, sym, ap, subst, ◌∙◌, arith, Bool,
  true, false, not, ◌||◌, Bool-cases, Option, some, none, List, [], ◌∷◌, length, length-drop,
  get_or, drop, ◌==◌, ltb, if◌then◌else◌,
}
use ig_libs.Base.Tabulate.{get_or-drop, drop-drop}
use ig_libs.Text.{continues, utf8_loop, is_utf8}
use ig_libs.Text.Utf8.{
  IsText, nil, AllBytes, tails, is_tail, range_width, lead_width-ranges, IsText-Goes, Goes-IsText,
}

refused : List ℕ → ℕ → Bool
unfolding tails
refused [] w = w == 0
refused (c ∷ t) w = w == 0 || ltb (length (c ∷ t)) w || not (tails t (w - 1))

suffix_loop : ℕ → List ℕ → Option Bool
suffix_loop zero t = none
suffix_loop (suc fuel) [] = some true
suffix_loop (suc fuel) (c ∷ t) =
    let rest = suffix_loop fuel (drop (range_width c) (c ∷ t)) in
    if refused (c ∷ t) (range_width c) then some false else rest

-- The answer is right, and there is one.
abbrev Decides : List ℕ → Option Bool → Type 0
Decides t o = ((o ≡ some true) × IsText t) ⊎ ((o ≡ some false) × (¬ IsText t))

drop-AllBytes : (n : ℕ) (t : List ℕ) → AllBytes t → AllBytes (drop n t)
drop-AllBytes zero t a = a
drop-AllBytes (suc n) [] a = tt
drop-AllBytes (suc n) (c ∷ t) a = drop-AllBytes n t a.1

refused-Goes : (c : ℕ) (t : List ℕ) → refused (c ∷ t) (range_width c) ≡ true → IsText (c ∷ t) → ⊥
unfolding refused
refused-Goes c t e h = let g = IsText-Goes h in ground (arith, g.0, g.1, g.2)

accepted-Goes :
    (c : ℕ) (t : List ℕ)
    → refused (c ∷ t) (range_width c) ≡ false
    → (0 < range_width c) × (range_width c ≤ length (c ∷ t)) × (tails t (range_width c - 1) ≡ true)
unfolding refused
accepted-Goes c t e = ground arith

suffix_loop-Decides :
    (fuel : ℕ) (t : List ℕ) → length t < fuel → AllBytes t → Decides t (suffix_loop fuel t)
unfolding suffix_loop
suffix_loop-Decides zero t h a = absurd (omega arith)
suffix_loop-Decides (suc fuel) [] h a = inl (refl, nil)
suffix_loop-Decides (suc fuel) (c ∷ t) h a = elim (Bool-cases (refused (c ∷ t) (range_width c))) [
  | inl bad ↦ rw bad (inr (refl, refused-Goes c t bad))
  | inr good ↦
      let g = accepted-Goes c t good in
      rw good (
        onward g (
          suffix_loop-Decides fuel (drop (range_width c) (c ∷ t))
            (omega (arith, length-drop (range_width c) (c ∷ t), g.0))
            (drop-AllBytes (range_width c) (c ∷ t) a)))
]
  where
    onward :
        (0 < range_width c)
          × (range_width c ≤ length (c ∷ t))
          × (tails t (range_width c - 1) ≡ true)
        → Decides (drop (range_width c) (c ∷ t)) (suffix_loop fuel (drop (range_width c) (c ∷ t)))
        → Decides (c ∷ t) (suffix_loop fuel (drop (range_width c) (c ∷ t)))
    onward g (inl (e, s)) = inl (e, Goes-IsText c t a.1 (g.0, g.1, g.2, s))
    onward g (inr (e, no_text)) = inr (e, λ s. no_text (IsText-Goes s).3)

list_cases : (t : List ℕ) → (t ≡ []) ⊎ ((c : ℕ) × (r : List ℕ) × (t ≡ c ∷ r))
list_cases [] = inl refl
list_cases (c ∷ r) = inr (c, r, refl)

-- What stands at index `i`, seen from the rest of the text.
byte_at : (s : List ℕ) (i : ℕ) → get_or s i 0 ≡ get_or (drop i s) 0 0
byte_at s i = ap (λ j. get_or s j 0) {y = i + 0} (omega arith) ∙ sym (get_or-drop i 0 s 0)

after_byte : (s : List ℕ) (i : ℕ) → drop (suc i) s ≡ drop 1 (drop i s)
after_byte s i = ap (λ n. drop n s) {x = suc i} {y = i + 1} (omega arith) ∙ drop-drop i 1 s

continues-tails : (s : List ℕ) (p n : ℕ) → continues s p n ≡ tails (drop p s) n
unfolding continues tails is_tail
continues-tails s p zero = refl
continues-tails s p (suc n) = elim (list_cases (drop p s)) [
  | inl e ↦ rw (byte_at s p, e) refl
  | inr (c, r, e) ↦ rw (byte_at s p, continues-tails s (suc p) n, after_byte s p, e) refl
]

module _ (s : List ℕ) (i c : ℕ) (r : List ℕ) (e : drop i s ≡ c ∷ r) where
  length-rest : length s ≡ i + length (c ∷ r)
  length-rest = omega (arith, ap length e, length-drop i s)

  same_test :
      (w : ℕ)
      → (w == 0 || ltb (length s) (i + w) || not (continues s (suc i) (w - 1))) ≡ refused (c ∷ r) w
  unfolding refused
  same_test w = rw (continues-tails s (suc i) (w - 1), after_byte s i, e) (ap both same_end)
    where
      both : Bool → Bool
      both b = w == 0 || b || not (tails r (w - 1))

      same_end : ltb (length s) (i + w) ≡ ltb (length (c ∷ r)) w
      same_end = ground (arith, length-rest)

get_or-AllBytes :
    (s : List ℕ) (c : ℕ) (r : List ℕ) (i : ℕ) → AllBytes s → drop i s ≡ c ∷ r → c < 256
get_or-AllBytes s c r i a e = (subst AllBytes e (drop-AllBytes i s a)).0

utf8_loop-suffix :
    (fuel : ℕ) (s : List ℕ) (i : ℕ)
    → i ≤ length s
    → AllBytes s
    → utf8_loop fuel s i ≡ suffix_loop fuel (drop i s)
unfolding utf8_loop suffix_loop
utf8_loop-suffix zero s i h a = refl
utf8_loop-suffix (suc fuel) s i h a = elim (list_cases (drop i s)) [
  | inl e ↦
      let at_end : (i == length s) ≡ true = ground (arith, ap length e, length-drop i s) in
      rw (at_end, e) refl
  | inr (c, r, e) ↦
      let inside : (i == length s) ≡ false = ground (arith, length-rest s i c r e) in
      rw
        (
          inside,
          byte_at s i,
          e,
          lead_width-ranges c (get_or-AllBytes s c r i a e),
          same_test s i c r e (range_width c),
        )
        (elim (Bool-cases (refused (c ∷ r) (range_width c))) [
          | inl bad ↦ rw bad refl
          | inr good ↦ rw good (
              utf8_loop-suffix fuel s (i + range_width c)
                (omega (arith, length-rest s i c r e, accepted-Goes c r good)) a
              ∙ ap (suffix_loop fuel) (drop-drop i (range_width c) s ∙ ap (drop (range_width c)) e))
        ])
]

-- On bytes is_utf8 always answers: true for exactly the texts that are a sequence of characters
-- in the byte patterns of its table, and false for the others.
pub is_utf8-Decides :
    (s : List ℕ)
    → AllBytes s
    → ((is_utf8 s ≡ some true) × IsText s) ⊎ ((is_utf8 s ≡ some false) × (¬ IsText s))
unfolding is_utf8
is_utf8-Decides s a =
    rw (utf8_loop-suffix (suc (length s)) s 0 (omega arith) a)
      (suffix_loop-Decides (suc (length s)) s (omega arith) a)
