-- ===== src/Ring/Written.antt =====
-- A write in two parts: the window that it fills, and the windows that it leaves alone.
use native.Mathlib.Nat.{mod-lt}
use ig_libs.Base.{
  ℕ, ◌+◌, ◌-◌, ◌%◌, ◌≤◌, ◌<◌, min, ◌≡◌, ap, ◌∙◌, ◌⊎◌, inl, inr, List, arith, length, get_or, take,
  drop, length-take, length-drop,
}
use ig_libs.Base.Tabulate.{tabulate_ext, tabulate-get_or, get_or-take, get_or-drop, mod_step}
use ig_libs.Ring.{blit}
use ig_libs.Ring.Window.{window, length-blit, get_or-blit_in, get_or-blit_out}

-- What a write of `xs` in two parts leaves: the first part at `s % n`, the rest at the start.
abbrev pub written : List ℕ → ℕ → ℕ → List ℕ → List ℕ
written b n s xs =
    blit (blit b (s % n) (take (min (length xs) (n - s % n)) xs)) 0
      (take (length xs - min (length xs) (n - s % n)) (drop (min (length xs) (n - s % n)) xs))

module _ (b : List ℕ) (n s : ℕ) (xs : List ℕ) (p : 0 < n) (e : length b ≡ n)
    (h : length xs ≤ n) where
  abbrev l : ℕ
  l = min (length xs) (n - s % n)

  abbrev first : List ℕ
  first = take l xs

  abbrev second : List ℕ
  second = take (length xs - l) (drop l xs)

  length-first : length first ≡ l
  length-first = omega (arith, length-take l xs)

  length-second : length second ≡ length xs - l
  length-second = omega (arith, length-take (length xs - l) (drop l xs), length-drop l xs)

  written-first : (i : ℕ) → i < l → get_or (written b n s xs) ((s + i) % n) 0 ≡ get_or xs i 0
  written-first i k =
      let at : (s + i) % n ≡ s % n + i =
        omega (arith, mod-lt s p, mod_step s i n p (omega arith)) in
      rw at (
        get_or-blit_out (blit b (s % n) first) 0 second (s % n + i)
          (inr (omega (arith, length-second, mod-lt s p)))
        ∙ get_or-blit_in b (s % n) first i (omega (arith, length-first))
            (omega (arith, length-first, mod-lt s p))
        ∙ get_or-take l i xs 0 k)

  written-second :
      (i : ℕ) → l ≤ i → i < length xs → get_or (written b n s xs) ((s + i) % n) 0 ≡ get_or xs i 0
  written-second i k m =
      let at : (s + i) % n ≡ 0 + (i - l) =
        omega (arith, mod-lt s p, mod_step s i n p (omega arith)) in
      rw at (
        get_or-blit_in (blit b (s % n) first) 0 second (i - l) (omega (arith, length-second))
          (omega (arith, length-second, length-blit b (s % n) first))
        ∙ get_or-take (length xs - l) (i - l) (drop l xs) 0 (omega arith)
        ∙ get_or-drop l (i - l) xs 0
        ∙ ap (λ j. get_or xs j 0) {x = l + (i - l)} (omega arith))

  pub window-written : window (written b n s xs) n s (length xs) ≡ xs
  window-written = tabulate_ext (length xs) _ _ (λ i k. at i k (split i)) ∙ tabulate-get_or xs 0
    where
      split : (i : ℕ) → (i < l) ⊎ (l ≤ i)
      split i = omega arith

      at :
          (i : ℕ)
          → i < length xs
          → (i < l) ⊎ (l ≤ i)
          → get_or (written b n s xs) ((s + i) % n) 0 ≡ get_or xs i 0
      at i k (inl low) = written-first i low
      at i k (inr high) = written-second i high k

  written-out :
      (j : ℕ)
      → (j < s % n) ⊎ (s % n + l ≤ j)
      → length xs - l ≤ j
      → get_or (written b n s xs) j 0 ≡ get_or b j 0
  written-out j out above =
      get_or-blit_out (blit b (s % n) first) 0 second j (inr (omega (arith, length-second)))
      ∙ get_or-blit_out b (s % n) first j (apart out)
    where
      apart : (j < s % n) ⊎ (s % n + l ≤ j) → (j < s % n) ⊎ (s % n + length first ≤ j)
      apart o = omega (arith, length-first)

  pub window-kept :
      (o u : ℕ)
      → s % n ≡ (o + u) % n
      → u + length xs ≤ n
      → window (written b n s xs) n o u ≡ window b n o u
  window-kept o u se k =
      tabulate_ext u _ _ λ i iu. written-out ((o + i) % n) (apart i iu) (above i iu)
    where
      apart : (i : ℕ) → i < u → ((o + i) % n < s % n) ⊎ (s % n + l ≤ (o + i) % n)
      apart i iu =
          omega (arith, mod-lt o p, mod_step o i n p (omega arith), mod_step o u n p (omega arith))

      above : (i : ℕ) → i < u → length xs - l ≤ (o + i) % n
      above i iu =
          omega (arith, mod-lt o p, mod_step o i n p (omega arith), mod_step o u n p (omega arith))
