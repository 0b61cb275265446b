-- ===== src/Files/Tests.antt =====
-- Runs of the directory functions.
use ig_libs.Base.{
  ℕ, suc, ◌^◌, ◌≤◌, ◌<◌, ◌≡◌, ◌≢◌, ◌⊎◌, refl, inl, inr, arith, pos, Bool, true, false, Bool-cases,
  Option, some, List, [], ◌∷◌, ◌++◌, take, get_or, if◌then◌else◌,
}
use ig_libs.Text.{split, same_text}
use ig_libs.Files.{
  Entry, Answer, made, exists, refused, units, makedir, make_all, get_dir_files_size,
  convert_disk_size_unit,
}
use ig_libs.Config.Stored.{same_text_refl}
use ig_libs.Files.Scan.{file_names, total_of, get_dir_files_size_result}
use ig_libs.Files.Units.{divided_times, convert_disk_size_unit_result}
use ig_libs.Files.Makedir.{MkdirLaws, joined, makedir_makes}

-- A file "a", the directory "b", and a file "c".
abbrev listing : List ℕ → Option (List Entry)
listing path = some (
    record { d_type = 8; d_name = 97 ∷ [] }
    ∷ record { d_type = 4; d_name = 98 ∷ [] }
    ∷ record { d_type = 0; d_name = 99 ∷ [] }
    ∷ [])

abbrev ten : List ℕ → Option ℕ
ten path = some 10

get_dir_files_size_result_example :
    get_dir_files_size listing ten (47 ∷ []) 7 7 2 ≡ some (pos 0, 2, 20)
unfolding file_names total_of
get_dir_files_size_result_example =
    get_dir_files_size_result ten (47 ∷ []) 2 (omega arith) listing 7 7

convert_disk_size_unit_result_example :
    (n : ℕ) × (n ≤ 6)
    × (convert_disk_size_unit (λ b. b) (λ x. x) (λ x. x ∷ []) 5000
        ≡ some ((divided_times (λ x. x) n 5000 ∷ []) ++ get_or units n []))
    × (5000 < 1024 ^ suc n)
    × ((n ≡ 0) ⊎ (1024 ^ n ≤ 5000))
convert_disk_size_unit_result_example =
    convert_disk_size_unit_result (λ b. b) (λ x. x) (λ x. x ∷ []) 5000 (omega arith)

-- Directories that are there, in the order in which they were made.
contains_path : List (List ℕ) → List ℕ → Bool
contains_path [] path = false
contains_path (p ∷ ps) path =
    let rest = contains_path ps path in if same_text p path then true else rest

abbrev make_if : Bool → List (List ℕ) → List ℕ → Answer × List (List ℕ)
make_if true w path = (exists, w)
make_if false w path = (made, path ∷ w)

abbrev make_one : List (List ℕ) → List ℕ → Answer × List (List ℕ)
make_one w path = make_if (contains_path w path) w path

abbrev IsThere : List (List ℕ) → List ℕ → Type 0
IsThere w path = contains_path w path ≡ true

make_one-MkdirLaws : MkdirLaws make_one IsThere
unfolding contains_path
make_one-MkdirLaws = record { there = there_lem; stays = stays_lem }
  where
    there_lem :
        (w : List (List ℕ)) (path : List ℕ)
        → (make_one w path).0 ≢ refused
        → IsThere (make_one w path).1 path
    there_lem w path ok = by (contains_path w path) refl
      where
        by : (b : Bool) → contains_path w path ≡ b → IsThere (make_if b w path).1 path
        by true e = e
        by false e = rw (same_text_refl path) refl

    stays_lem :
        (w : List (List ℕ)) (path other : List ℕ)
        → IsThere w other
        → IsThere (make_one w path).1 other
    stays_lem w path other h = by (contains_path w path)
      where
        by : (b : Bool) → IsThere (make_if b w path).1 other
        by true = h
        by false = elim (Bool-cases (same_text path other)) [
          | inl same ↦ rw same refl
          | inr other_path ↦ rw other_path h
        ]

-- "/a/b"
abbrev a_b : List ℕ
a_b = 97 ∷ 47 ∷ 98 ∷ []

makedir_makes_example :
    (out : Bool × List (List ℕ)) × (makedir make_one (47 ∷ a_b) [] ≡ out)
    × (out.0 ≡ true
        → (k : ℕ) → 0 < k
        → k ≤ 2
        → IsThere out.1 ([] ++ joined (take k ((97 ∷ []) ∷ (98 ∷ []) ∷ []))))
    × (out.0 ≡ false → (v : List (List ℕ)) × (p : List ℕ) × ((make_one v p).0 ≡ refused))
unfolding split
makedir_makes_example =
    makedir_makes make_one IsThere make_one-MkdirLaws (47 ∷ a_b) [] ((97 ∷ []) ∷ (98 ∷ []) ∷ []) []
      refl (inl refl)

makedir_both :
    makedir make_one (47 ∷ a_b) [] ≡ (true, (47 ∷ 97 ∷ 47 ∷ 98 ∷ []) ∷ (47 ∷ 97 ∷ []) ∷ [])
unfolding makedir split make_all contains_path same_text
makedir_both = refl
