-- ===== src/Base/Tabulate.antt =====
-- Lists given by a function of the index, and slices of a list seen that way.
use native.Mathlib.Nat.{mod-lt, mod-add-mod, mod-eq_of_lt, mod-eq-sub-mod}
use ig_libs.Base.Lists.{length, get_or, take, drop}
use Prim.Native.Nat.{ℕ, zero, suc, ◌+◌, ◌-◌, ◌%◌, ◌≤◌, ◌<◌}
use mathlib.Core.Path.{◌≡◌, refl, sym, ap, ap₂, ◌∙◌}
use mathlib.Core.Logic.{◌⊎◌, inl, inr}
use mathlib.Core.List.{List, [], ◌∷◌, ◌++◌}
use native.Mathlib.Decide.{dec_lt}
use native.Mathlib.Omega.{arith}

module _ {ℓ} {A : Type ℓ} where
  unfoldable pub tabulate : ℕ → (ℕ → A) → List A
  tabulate zero f = []
  tabulate (suc n) f = f 0 ∷ tabulate n (λ i. f (suc i))

  pub length-tabulate : (n : ℕ) (f : ℕ → A) → length (tabulate n f) ≡ n
  unfolding tabulate
  length-tabulate zero f = refl
  length-tabulate (suc n) f = ap suc (length-tabulate n (λ i. f (suc i)))

  pub tabulate_ext :
      (n : ℕ) (f g : ℕ → A) → ((i : ℕ) → i < n → f i ≡ g i) → tabulate n f ≡ tabulate n g
  unfolding tabulate
  tabulate_ext zero f g h = refl
  tabulate_ext (suc n) f g h =
      ap₂ ◌∷◌ (h 0 (omega arith))
        (tabulate_ext n (λ i. f (suc i)) (λ i. g (suc i)) (λ i k. h (suc i) (omega arith)))

  pub tabulate-add :
      (m n : ℕ) (f : ℕ → A) → tabulate (m + n) f ≡ tabulate m f ++ tabulate n (λ i. f (m + i))
  unfolding tabulate
  tabulate-add zero n f =
      ap (λ k. tabulate k f) {x = 0 + n} {y = n} (omega arith)
      ∙ tabulate_ext n f (λ i. f (0 + i)) (λ i k. ap f (omega arith))
  tabulate-add (suc m) n f =
      ap (λ k. tabulate k f) {x = suc m + n} {y = suc (m + n)} (omega arith)
      ∙ ap (λ l. f 0 ∷ l)
          (tabulate-add m n (λ i. f (suc i))
            ∙ ap (◌++◌ (tabulate m (λ i. f (suc i)))) (
                tabulate_ext n (λ i. f (suc (m + i))) (λ i. f (suc m + i))
                  (λ i k. ap f (omega arith))))

  pub tabulate-get_or : (xs : List A) (d : A) → tabulate (length xs) (λ i. get_or xs i d) ≡ xs
  unfolding tabulate
  tabulate-get_or [] d = refl
  tabulate-get_or (x ∷ xs) d = ap (◌∷◌ x) (tabulate-get_or xs d)

  pub slice-tabulate :
      (xs : List A) (off n : ℕ) (d : A)
      → off + n ≤ length xs
      → take n (drop off xs) ≡ tabulate n (λ i. get_or xs (off + i) d)
  unfolding tabulate
  slice-tabulate xs off zero d h = refl
  slice-tabulate [] off (suc n) d h = absurd (omega arith)
  slice-tabulate (x ∷ xs) zero (suc n) d h = ap (◌∷◌ x) (
      slice-tabulate xs zero n d (omega arith)
      ∙ tabulate_ext n (λ i. get_or xs (0 + i) d) (λ i. get_or (x ∷ xs) (0 + suc i) d)
          (λ i k. ap (λ j. get_or (x ∷ xs) j d) {x = suc (0 + i)} (omega arith)))
  slice-tabulate (x ∷ xs) (suc off) (suc n) d h =
      slice-tabulate xs off (suc n) d (omega arith)
      ∙ tabulate_ext (suc n) (λ i. get_or xs (off + i) d) (λ i. get_or (x ∷ xs) (suc off + i) d)
          (λ i k. ap (λ j. get_or (x ∷ xs) j d) {x = suc (off + i)} (omega arith))

  pub take-append_self : (xs ys : List A) → take (length xs) (xs ++ ys) ≡ xs
  take-append_self [] ys = refl
  take-append_self (x ∷ xs) ys = ap (◌∷◌ x) (take-append_self xs ys)

  pub take-append : (xs ys : List A) (k : ℕ) → k ≤ length xs → take k (xs ++ ys) ≡ take k xs
  take-append xs ys zero h = refl
  take-append [] ys (suc k) h = absurd (omega arith)
  take-append (x ∷ xs) ys (suc k) h = ap (◌∷◌ x) (take-append xs ys k (omega arith))

  pub drop-append_self : (xs ys : List A) → drop (length xs) (xs ++ ys) ≡ ys
  drop-append_self [] ys = refl
  drop-append_self (x ∷ xs) ys = drop-append_self xs ys

  pub get_or-take : (n i : ℕ) (xs : List A) (d : A) → i < n → get_or (take n xs) i d ≡ get_or xs i d
  get_or-take zero i xs d h = absurd (omega arith)
  get_or-take (suc n) i [] d h = refl
  get_or-take (suc n) zero (x ∷ xs) d h = refl
  get_or-take (suc n) (suc i) (x ∷ xs) d h = get_or-take n i xs d (omega arith)

  pub get_or-drop : (n i : ℕ) (xs : List A) (d : A) → get_or (drop n xs) i d ≡ get_or xs (n + i) d
  get_or-drop zero i xs d = ap (λ j. get_or xs j d) (omega arith)
  get_or-drop (suc n) i [] d = refl
  get_or-drop (suc n) i (x ∷ xs) d =
      get_or-drop n i xs d ∙ ap (λ j. get_or (x ∷ xs) j d) {x = suc (n + i)} (omega arith)

-- Going `i` steps round a ring of `n` places wraps at most once.
pub mod_step :
    (s i n : ℕ)
    → 0 < n
    → i ≤ n
    → ((s % n + i < n) × ((s + i) % n ≡ s % n + i))
      ⊎ ((n ≤ s % n + i) × ((s + i) % n ≡ s % n + i - n))
mod_step s i n p h = elim (dec_lt (s % n + i) n) [
  | yes low ↦ inl (low, sym (mod-add-mod s n i) ∙ mod-eq_of_lt low)
  | no high ↦ inr (
    omega arith,
    sym (mod-add-mod s n i)
        ∙ mod-eq-sub-mod {n = s % n + i} {m = n} (omega arith)
        ∙ mod-eq_of_lt {n = s % n + i - n} {m = n} (omega (arith, mod-lt s p)),
  )
]

module _ {ℓ} {A : Type ℓ} where
  pub take-take : (l n : ℕ) (xs : List A) → l ≤ n → take l (take n xs) ≡ take l xs
  take-take zero n xs h = refl
  take-take (suc l) zero xs h = absurd (omega arith)
  take-take (suc l) (suc n) [] h = refl
  take-take (suc l) (suc n) (x ∷ xs) h = ap (◌∷◌ x) (take-take l n xs (omega arith))

  pub drop-take : (l n : ℕ) (xs : List A) → drop l (take n xs) ≡ take (n - l) (drop l xs)
  drop-take zero n xs = ap (λ k. take k xs) (omega arith)
  drop-take (suc l) zero xs = sym (ap (λ k. take k (drop (suc l) xs)) {y = 0} (omega arith))
  drop-take (suc l) (suc n) [] = sym (take-nil (suc n - suc l))
    where
      take-nil : (k : ℕ) → take {A = A} k [] ≡ []
      take-nil zero = refl
      take-nil (suc k) = refl
  drop-take (suc l) (suc n) (x ∷ xs) = drop-take l n xs ∙ ap (λ k. take k (drop l xs)) (omega arith)

  pub take_all : (n : ℕ) (xs : List A) → length xs ≤ n → take n xs ≡ xs
  take_all zero [] h = refl
  take_all zero (x ∷ xs) h = absurd (omega arith)
  take_all (suc n) [] h = refl
  take_all (suc n) (x ∷ xs) h = ap (◌∷◌ x) (take_all n xs (omega arith))

  drop-nil : (n : ℕ) → drop {A = A} n [] ≡ []
  drop-nil zero = refl
  drop-nil (suc n) = refl

  pub drop-drop : (i w : ℕ) (s : List A) → drop (i + w) s ≡ drop w (drop i s)
  drop-drop zero w s = ap (λ n. drop n s) (omega arith)
  drop-drop (suc i) w [] = drop-nil (suc i + w) ∙ sym (drop-nil w)
  drop-drop (suc i) w (x ∷ s) =
      ap (λ n. drop n (x ∷ s)) {x = suc i + w} {y = suc (i + w)} (omega arith) ∙ drop-drop i w s

  pub take-add : (a b : ℕ) (s : List A) → take (a + b) s ≡ take a s ++ take b (drop a s)
  take-add zero b s = ap (λ n. take n s) (omega arith)
  take-add (suc a) b [] =
      ap (λ n. take {A = A} n []) {x = suc a + b} {y = suc (a + b)} (omega arith) ∙ sym (take-nil b)
    where
      take-nil : (k : ℕ) → take {A = A} k [] ≡ []
      take-nil zero = refl
      take-nil (suc k) = refl
  take-add (suc a) b (x ∷ s) =
      ap (λ n. take n (x ∷ s)) {x = suc a + b} {y = suc (a + b)} (omega arith)
      ∙ ap (◌∷◌ x) (take-add a b s)
