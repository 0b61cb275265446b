-- ===== src/Files/Scan.antt =====
-- get_dir_files_size against the files of the directory.
use native.Mathlib.Nat.{zero-add}
use ig_libs.Base.{
  ℕ, zero, suc, ◌+◌, ◌-◌, ◌%◌, ◌^◌, ◌<◌, max, ◌≡◌, refl, inl, inr, ap, ◌∙◌, arith, ℤ, pos, negsuc,
  true, false, Bool-cases, Option, none, some, List, [], ◌∷◌, ◌++◌, length, take, leb,
  if◌then◌else◌,
}
use ig_libs.Base.Words.{add64, u64_mod}
use ig_libs.Files.{
  Entry, FileLister, is_file, read_on, next, next_in, entry_read, count_loop, scanned, sized,
  entries_left, files_counted, get_dir_files_size, open_again, opened, close, start, new_lister,
}

-- The names of the files.
unfoldable pub file_names : List Entry → List (List ℕ)
file_names [] = []
file_names (e ∷ es) = if is_file e then e.d_name ∷ file_names es else file_names es

abbrev pub or_nothing : Option (List Entry) → List Entry
or_nothing none = []
or_nothing (some entries) = entries

abbrev plus : Option ℕ → Option ℕ → Option ℕ
plus none b = none
plus (some a) none = none
plus (some a) (some b) = some (a + b)

-- The sizes together, where each file has one.
unfoldable pub total_of : (List ℕ → Option ℕ) → List ℕ → List (List ℕ) → Option ℕ
total_of stat path [] = some 0
total_of stat path (name ∷ names) = plus (stat (path ++ (47 ∷ name))) (total_of stat path names)

abbrev pub reported : ℕ → ℕ → ℕ → Option ℕ → ℤ × ℕ × ℕ
reported file_count total_size n none = (negsuc 0, file_count, total_size)
reported file_count total_size n (some total) = (pos 0, n, total % u64_mod)

-- What reading gives: nothing where there are no files, and else the first of them.
abbrev IsRead : List Entry → Option (List ℕ × List Entry) → Type 0
IsRead left none = file_names left ≡ []
IsRead left (some (name, behind)) =
    (file_names left ≡ name ∷ file_names behind) × (length behind < length left)

read_on-IsRead : (left : List Entry) → IsRead left (read_on left)
unfolding read_on file_names
read_on-IsRead [] = refl
read_on-IsRead (e ∷ left) = elim (Bool-cases (is_file e)) [
  | inl yes_f ↦ rw yes_f (rw yes_f refl, omega arith)
  | inr no_f ↦ rw no_f (further no_f (read_on left) (read_on-IsRead left))
]
  where
    further :
        is_file e ≡ false → (r : Option (List ℕ × List Entry)) → IsRead left r → IsRead (e ∷ left) r
    further no_f none h = rw no_f h
    further no_f (some (name, behind)) (h, k) = (rw no_f h, omega (arith, k))

abbrev grown : ℕ → ℕ → ℕ → Option ℕ → Option (ℕ × ℕ)
grown count path_size n none = none
grown count path_size n (some total) = some (count + n, (path_size + total) % u64_mod)

pair_eq : {a b c d : ℕ} → a ≡ b → c ≡ d → ◌≡◌ {A = ℕ × ℕ} (a, c) (b, d)
pair_eq e f = rw (e, f)

add64_last : (a b : ℕ) → add64 a b ≡ (a + (b + 0)) % u64_mod
unfolding add64
add64_last a b = ap (λ x. (a + x) % u64_mod) (omega arith)

grown_step :
    (count path_size size n : ℕ) (total : Option ℕ)
    → grown (count + 1) (add64 path_size size) n total
      ≡ grown count path_size (suc n) (plus (some size) total)
unfolding add64
grown_step count path_size size n none = refl
grown_step count path_size size n (some t) = ap some (pair_eq (omega arith) (omega arith))

take-positive :
    (n : ℕ) (x : List ℕ) (xs : List (List ℕ)) → 0 < n → take n (x ∷ xs) ≡ x ∷ take (n - 1) xs
take-positive zero x xs h = absurd (omega arith)
take-positive (suc n) x xs h = ap (λ k. x ∷ take k xs) (omega arith)

take_none : (n : ℕ) → take {A = List ℕ} n [] ≡ []
take_none zero = refl
take_none (suc n) = refl

module _ (stat : List ℕ → Option ℕ) (path : List ℕ) (max_count : ℕ) (few : max_count < 2 ^ 32) where
  -- The first files, and their sizes together.
  result_of : ℕ → ℕ → List (List ℕ) → Option (ℕ × ℕ)
  result_of count path_size seen = grown count path_size (length seen) (total_of stat path seen)

  count_loop_lem :
      (fuel : ℕ) (l : FileLister) (entries left : List Entry) (file_name : List ℕ)
      (count path_size : ℕ)
      → l.m_dir ≡ some (entries, left)
      → length left < fuel
      → count < max 1 max_count
      → path_size < u64_mod
      → count_loop stat path max_count fuel l file_name count path_size
        ≡ some (result_of count path_size (take (max 1 max_count - count) (file_names left)))
  unfolding count_loop next total_of result_of add64 next_in read_on
  count_loop_lem zero l entries left file_name count path_size e k low fits = absurd (omega arith)
  count_loop_lem (suc fuel) l entries left file_name count path_size e k low fits = rw e (
      by (read_on left) (read_on-IsRead left) (λ l' behind name size.
        count_loop_lem fuel l' entries behind name (count + 1) (add64 path_size size)))
    where
      next_count : (count + 1) % 2 ^ 32 ≡ count + 1
      next_count = omega arith

      further : max 1 max_count - (count + 1) ≡ max 1 max_count - count - 1
      further = omega arith

      last : leb max_count (count + 1) ≡ true → max 1 max_count - count - 1 ≡ 0
      last enough = ground arith

      by :
          (r : Option (List ℕ × List Entry))
          → IsRead left r
          → ((l' : FileLister) (behind : List Entry) (name : List ℕ) (size : ℕ)
              → l'.m_dir ≡ some (entries, behind)
              → length behind < fuel
              → count + 1 < max 1 max_count
              → add64 path_size size < u64_mod
              → count_loop stat path max_count fuel l' name (count + 1) (add64 path_size size)
                ≡ some (
                    result_of
                      (count + 1)
                      (add64 path_size size)
                      (take (max 1 max_count - (count + 1)) (file_names behind))))
          → scanned stat path max_count
              (count_loop stat path max_count fuel)
              count
              path_size
              (entry_read l file_name entries r)
            ≡ some (result_of count path_size (take (max 1 max_count - count) (file_names left)))
      by none h ih =
          rw (h, take_none (max 1 max_count - count))
            (ap (λ x. some (some x)) (pair_eq (omega arith) (omega arith)))
      by (some (name, behind)) (h, shorter) ih =
          rw (h, take-positive (max 1 max_count - count) name (file_names behind) (omega arith))
            (file (stat (path ++ (47 ∷ name))))
        where
          file :
              (size : Option ℕ)
              → sized stat path max_count
                  (count_loop stat path max_count fuel)
                  (record l { m_dir = some (entries, behind) })
                  name
                  ((count + 1) % 2 ^ 32)
                  path_size
                  size
                ≡ some (
                    grown count path_size
                      (suc (length (take (max 1 max_count - count - 1) (file_names behind))))
                      (plus size (
                        total_of stat path
                          (take (max 1 max_count - count - 1) (file_names behind)))))
          file none = refl
          file (some size) = rw next_count (elim (Bool-cases (leb max_count (count + 1))) [
            | inl enough ↦ rw enough (
                rw (last enough) (ap (λ x. some (some (count + 1, x))) (add64_last path_size size)))
            | inr more ↦ rw more (
                ih (record l { m_dir = some (entries, behind) }) behind name size refl
                  (omega (arith, shorter)) (ground arith) (omega arith)
                ∙ rw further (ap some (grown_step count path_size size _ _)))
          ])

  -- If `max_count` is a 32-bit number, then get_dir_files_size returns and looks at the first `max_count` files of the directory, entries of unknown type among them,
  -- at one at least, and at none where the directory cannot be opened. It returns 0 with their number and their sizes together,
  -- modulo 2 ^ 64, or -1, with nothing written, where one of them has no size.
  pub get_dir_files_size_result :
      (opendir : List ℕ → Option (List Entry)) (file_count total_size : ℕ)
      → get_dir_files_size opendir stat path file_count total_size max_count
        ≡ some (
            let seen = take (max 1 max_count) (file_names (or_nothing (opendir path))) in
            reported file_count total_size (length seen) (total_of stat path seen))
  unfolding get_dir_files_size open_again start close result_of count_loop next next_in file_names
      total_of
  get_dir_files_size_result opendir file_count total_size = by (opendir path)
    where
      whole : max 1 max_count - 0 ≡ max 1 max_count
      whole = omega arith

      told :
          (n : ℕ) (total : Option ℕ)
          → files_counted file_count total_size (some (grown 0 0 n total))
            ≡ some (reported file_count total_size n total)
      told n none = refl
      told n (some total) = rw (zero-add n, zero-add total) refl

      by :
          (dir : Option (List Entry))
          → files_counted file_count total_size (
              count_loop stat path max_count
                (suc (entries_left (start (opened (close (new_lister path)) dir).1).m_dir))
                (start (opened (close (new_lister path)) dir).1)
                []
                0
                0)
            ≡ some (
                let seen = take (max 1 max_count) (file_names (or_nothing dir)) in
                reported file_count total_size (length seen) (total_of stat path seen))
      by none = rw (take_none (max 1 max_count)) refl
      by (some entries) =
          rw
            (
              count_loop_lem (suc (length entries))
                  (record (new_lister path) { m_dir = some (entries, entries) }) entries entries []
                  0 0 refl (omega arith) (omega arith) (omega arith),
              whole,
            )
            (told _ _)
