-- ===== src/Ring/Window.antt =====
-- The bytes from a counter on, round a storage of `n` places; what copies in two parts do to them.
use native.Mathlib.Nat.{mod-lt, mod-add-mod}
use ig_libs.Base.{
  ℕ, zero, suc, ◌+◌, ◌-◌, ◌%◌, ◌≤◌, ◌<◌, min, ◌≡◌, refl, sym, ap, ap₂, ◌∙◌, ◌⊎◌, inl, inr, List, [],
  ◌∷◌, ◌++◌, arith, append-nil, length, get_or, set, take, drop, length-set,
}
use ig_libs.Base.Tabulate.{tabulate, tabulate_ext, tabulate-add, slice-tabulate, mod_step}
use ig_libs.Ring.{blit}

pub length-blit : (b : List ℕ) (off : ℕ) (xs : List ℕ) → length (blit b off xs) ≡ length b
unfolding blit
length-blit b off [] = refl
length-blit b off (x ∷ xs) = length-blit (set b off x) (suc off) xs ∙ length-set b off x

get_or-set_self : (b : List ℕ) (i v : ℕ) → i < length b → get_or (set b i v) i 0 ≡ v
get_or-set_self [] i v h = absurd (omega arith)
get_or-set_self (x ∷ b) zero v h = refl
get_or-set_self (x ∷ b) (suc i) v h = get_or-set_self b i v (omega arith)

get_or-set_above : (b : List ℕ) (i j v : ℕ) → i < j → get_or (set b i v) j 0 ≡ get_or b j 0
get_or-set_above [] i j v h = refl
get_or-set_above (x ∷ b) zero zero v h = absurd (omega arith)
get_or-set_above (x ∷ b) (suc i) zero v h = absurd (omega arith)
get_or-set_above (x ∷ b) zero (suc j) v h = refl
get_or-set_above (x ∷ b) (suc i) (suc j) v h = get_or-set_above b i j v (omega arith)

get_or-set_below : (b : List ℕ) (i j v : ℕ) → j < i → get_or (set b i v) j 0 ≡ get_or b j 0
get_or-set_below [] i j v h = refl
get_or-set_below (x ∷ b) zero j v h = absurd (omega arith)
get_or-set_below (x ∷ b) (suc i) zero v h = refl
get_or-set_below (x ∷ b) (suc i) (suc j) v h = get_or-set_below b i j v (omega arith)

get_or-blit_below :
    (b : List ℕ) (off : ℕ) (xs : List ℕ) (i : ℕ)
    → i < off
    → get_or (blit b off xs) i 0 ≡ get_or b i 0
unfolding blit
get_or-blit_below b off [] i h = refl
get_or-blit_below b off (x ∷ xs) i h =
    get_or-blit_below (set b off x) (suc off) xs i (omega arith) ∙ get_or-set_below b off i x h

pub get_or-blit_out :
    (b : List ℕ) (off : ℕ) (xs : List ℕ) (i : ℕ)
    → (i < off) ⊎ (off + length xs ≤ i)
    → get_or (blit b off xs) i 0 ≡ get_or b i 0
unfolding blit
get_or-blit_out b off xs i (inl h) = get_or-blit_below b off xs i h
get_or-blit_out b off [] i (inr h) = refl
get_or-blit_out b off (x ∷ xs) i (inr h) =
    get_or-blit_out (set b off x) (suc off) xs i (inr (omega arith))
    ∙ get_or-set_above b off i x (omega arith)

pub get_or-blit_in :
    (b : List ℕ) (off : ℕ) (xs : List ℕ) (i : ℕ)
    → i < length xs
    → off + length xs ≤ length b
    → get_or (blit b off xs) (off + i) 0 ≡ get_or xs i 0
unfolding blit
get_or-blit_in b off [] i h k = absurd (omega arith)
get_or-blit_in b off (x ∷ xs) zero h k =
    ap (λ j. get_or (blit (set b off x) (suc off) xs) j 0) {y = off} (omega arith)
    ∙ get_or-blit_below (set b off x) (suc off) xs off (omega arith)
    ∙ get_or-set_self b off x (omega arith)
get_or-blit_in b off (x ∷ xs) (suc i) h k =
    ap (λ j. get_or (blit (set b off x) (suc off) xs) j 0) {y = suc off + i} (omega arith)
    ∙ get_or-blit_in (set b off x) (suc off) xs i (omega arith) (omega (arith, length-set b off x))

-- `c` bytes from counter `s` on.
abbrev pub window : List ℕ → ℕ → ℕ → ℕ → List ℕ
window b n s c = tabulate c (λ i. get_or b ((s + i) % n) 0)

pub window-start : (b : List ℕ) (n s t c : ℕ) → s % n ≡ t % n → window b n s c ≡ window b n t c
window-start b n s t c e = tabulate_ext c _ _ λ i h. ap (λ j. get_or b j 0) (shift i)
  where
    shift : (i : ℕ) → (s + i) % n ≡ (t + i) % n
    shift i = sym (mod-add-mod s n i) ∙ ap (λ j. (j + i) % n) e ∙ mod-add-mod t n i

pub window-add :
    (b : List ℕ) (n s c d : ℕ) → window b n s (c + d) ≡ window b n s c ++ window b n (s + c) d
window-add b n s c d =
    tabulate-add c d (λ i. get_or b ((s + i) % n) 0)
    ∙ ap (◌++◌ (window b n s c)) (
        tabulate_ext d _ _
          λ i h. ap (λ j. get_or b (j % n) 0) {x = s + (c + i)} {y = s + c + i} (omega arith))

-- A window that stays below the end of the storage is a slice of it.
pub window-slice :
    (b : List ℕ) (n s c : ℕ)
    → 0 < n
    → length b ≡ n
    → s % n + c ≤ n
    → take c (drop (s % n) b) ≡ window b n s c
window-slice b n s c p e h =
    slice-tabulate b (s % n) c 0 (omega arith)
    ∙ tabulate_ext c _ _ λ i k. ap (λ j. get_or b j 0) (sym (at i k))
  where
    at : (i : ℕ) → i < c → (s + i) % n ≡ s % n + i
    at i k = omega (arith, mod_step s i n p (omega arith))

-- A read in two parts, the second one from the start of the storage, gives the window.
pub window-read :
    (b : List ℕ) (n s c : ℕ)
    → 0 < n
    → length b ≡ n
    → c ≤ n
    → let l = min c (n - s % n) in
      take l (drop (s % n) b) ++ take (c - l) (drop 0 b) ≡ window b n s c
window-read b n s c p e h = elim (le_or_lt c (n - s % n)) [
  | inl flat ↦
      let l_eq : min c (n - s % n) ≡ c = omega arith in
      let rest : c - c ≡ 0 = omega arith in
      rw (l_eq, rest) (append-nil _ ∙ window-slice b n s c p e (omega (arith, mod-lt s p)))
  | inr wraps ↦
      let l_eq : min c (n - s % n) ≡ n - s % n = omega arith in
      let l = n - s % n in
      let turn : (s + l) % n ≡ 0 = omega (arith, mod-lt s p, mod_step s l n p (omega arith)) in
      let total : l + (c - l) ≡ c = omega arith in
      rw l_eq (
        ap₂ ◌++◌ (window-slice b n s l p e (omega (arith, mod-lt s p))) (second l turn wraps)
        ∙ sym (window-add b n s l (c - l))
        ∙ ap (window b n s) total)
]
  where
    le_or_lt : (x y : ℕ) → (x ≤ y) ⊎ (y < x)
    le_or_lt x y = omega arith

    second :
        (l : ℕ)
        → (s + l) % n ≡ 0
        → n - s % n < c
        → take (c - l) (drop 0 b) ≡ window b n (s + l) (c - l)
    second l turn w =
        ap (λ o. take (c - l) (drop o b)) (sym turn)
        ∙ window-slice b n (s + l) (c - l) p e (omega arith)
