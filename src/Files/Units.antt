-- ===== src/Files/Units.antt =====
-- convert_disk_size_unit: which unit it takes.
use native.Mathlib.Nat.{pow-succ'}
use ig_libs.Base.{
  ℕ, zero, suc, ◌+◌, ◌/◌, ◌^◌, ◌≤◌, ◌<◌, ◌≡◌, ◌⊎◌, refl, inl, inr, ap, ◌∙◌, arith, true, false,
  Bool-cases, some, List, [], ◌∷◌, ◌++◌, length, get_or, get_elem?, leb, leb→le, ltb,
}
use ig_libs.Files.{units, unit_found, with_unit, unit_loop, convert_disk_size_unit}

get_elem?-get_or :
    (xs : List (List ℕ)) (i : ℕ) → i < length xs → get_elem? xs i ≡ some (get_or xs i [])
get_elem?-get_or [] i h = absurd (omega arith)
get_elem?-get_or (x ∷ xs) zero h = refl
get_elem?-get_or (x ∷ xs) (suc i) h = get_elem?-get_or xs i (omega arith)

module _ {F : Type 0} (divided : F → F) where
  -- Divided by 1024.0 a number of times.
  pub divided_times : ℕ → F → F
  divided_times zero x = x
  divided_times (suc n) x = divided_times n (divided x)

module _ {F : Type 0} (of_u64 : ℕ → F) (divided : F → F) (written : F → List ℕ) where
  unit_loop_stop :
      (fuel bytes count : ℕ) (result : F)
      → bytes < 1024
      → unit_loop of_u64 divided written (suc fuel) bytes count result ≡ some (count, result)
  unfolding unit_loop
  unit_loop_stop fuel bytes count result small =
      let no_loop : leb 1024 bytes ≡ false = ground arith in rw no_loop

  unit_loop_more :
      (fuel bytes count : ℕ) (result : F)
      → 1024 ≤ bytes
      → count ≤ 8
      → unit_loop of_u64 divided written (suc fuel) bytes count result
        ≡ unit_loop of_u64 divided written fuel (bytes / 1024) (count + 1) (divided result)
  unfolding unit_loop
  unit_loop_more fuel bytes count result large room =
      let loop : leb 1024 bytes ≡ true = ground arith in
      let inside : ltb 8 count ≡ false = ground arith in rw (loop, inside)

  -- The number of divisions, for which there is fuel.
  unit_loop_lem :
      (bound extra bytes count : ℕ) (result : F)
      → bytes < 1024 ^ suc bound
      → count + bound ≤ 8
      → (n : ℕ) × (n ≤ bound)
        × (unit_loop of_u64 divided written (suc (bound + extra)) bytes count result
            ≡ some (count + n, divided_times divided n result))
        × (bytes < 1024 ^ suc n)
        × ((n ≡ 0) ⊎ (1024 ^ n ≤ bytes))
  unfolding divided_times
  unit_loop_lem zero extra bytes count result small room = (
    0,
    omega arith,
    unit_loop_stop (zero + extra) bytes count result (omega arith)
        ∙ ap (λ x. some (x, result)) (omega arith),
    omega arith,
    inl refl,
  )
  unit_loop_lem (suc bound) extra bytes count result small room =
      elim (Bool-cases (leb 1024 bytes)) [
        | inr few ↦ (
          0,
          omega arith,
          unit_loop_stop (suc bound + extra) bytes count result (ground arith)
              ∙ ap (λ x. some (x, result)) (omega arith),
          ground arith,
          inl refl,
        )
        | inl many ↦ further (leb→le 1024 bytes many) (
            unit_loop_lem bound extra (bytes / 1024) (count + 1) (divided result)
              (omega (arith, pow-succ' 1024 (suc bound))) (omega arith))
      ]
    where
      further :
          1024 ≤ bytes
          → (n : ℕ) × (n ≤ bound)
            × (unit_loop of_u64 divided written
                  (suc (bound + extra))
                  (bytes / 1024)
                  (count + 1)
                  (divided result)
                ≡ some (count + 1 + n, divided_times divided n (divided result)))
            × (bytes / 1024 < 1024 ^ suc n)
            × ((n ≡ 0) ⊎ (1024 ^ n ≤ bytes / 1024))
          → (n : ℕ) × (n ≤ suc bound)
            × (unit_loop of_u64 divided written (suc (suc bound + extra)) bytes count result
                ≡ some (count + n, divided_times divided n result))
            × (bytes < 1024 ^ suc n)
            × ((n ≡ 0) ⊎ (1024 ^ n ≤ bytes))
      further large (n, low, e, below, above) = (
        suc n,
        omega arith,
        unit_loop_more (suc bound + extra) bytes count result large (omega arith)
            ∙ ap
                (λ f.
                  unit_loop of_u64 divided written f (bytes / 1024) (count + 1) (divided result))
                (omega arith)
            ∙ e
            ∙ ap (λ x. some (x, divided_times divided n (divided result))) (omega arith),
        omega (arith, pow-succ' 1024 (suc n)),
        inr (raised above),
      )
        where
          raised : (n ≡ 0) ⊎ (1024 ^ n ≤ bytes / 1024) → 1024 ^ suc n ≤ bytes
          raised (inl z) = rw z large
          raised (inr k) = omega (arith, pow-succ' 1024 n)

  -- For a 64-bit number of bytes convert_disk_size_unit stays inside its table of units. It divides a number of times, at most six,
  -- and takes the unit of that place; it is the place of the unit that the number of bytes reaches without reaching the next, the first
  -- one where it reaches none.
  pub convert_disk_size_unit_result :
      (bytes : ℕ)
      → bytes < 2 ^ 64
      → (n : ℕ) × (n ≤ 6)
        × (convert_disk_size_unit of_u64 divided written bytes
            ≡ some (written (divided_times divided n (of_u64 bytes)) ++ get_or units n []))
        × (bytes < 1024 ^ suc n)
        × ((n ≡ 0) ⊎ (1024 ^ n ≤ bytes))
  unfolding convert_disk_size_unit
  convert_disk_size_unit_result bytes fits =
      let (n, low, e, below, above) =
        unit_loop_lem 6 4 bytes 0 (of_u64 bytes) (omega arith) (omega arith) in
      (
        n,
        low,
        ap (unit_found of_u64 divided written)
              (e ∙ ap (λ x. some (x, divided_times divided n (of_u64 bytes))) (omega arith))
            ∙ ap (with_unit of_u64 divided written (divided_times divided n (of_u64 bytes)))
                (get_elem?-get_or units n (omega arith)),
        below,
        above,
      )
