-- ===== src/Config/Tests.antt =====
-- Runs of Config on small files.
use ig_libs.Base.{
  ℕ, ◌<◌, ◌≡◌, refl, arith, subst, Bool, true, false, Option, none, some, List, [], ◌∷◌,
  if◌then◌else◌,
}
use ig_libs.Text.{same_text}
use ig_libs.Config.{
  Config, ConfigHash, new_config, find, parse, load, add_lines, text_lines, add_line, cut,
  pair_read, key_value, skip_delims, token, assign,
}
use ig_libs.Config.Stored.{parse_keeps_first}
use ig_libs.Config.Includes.{IsRanked, included, AllBelow, parse_ends}
use ig_libs.Config.RoundTrip.{printed, load-printed, AllEntries}
use mathlib.Core.Option.{some-injective}

-- Keys a and b, values 1 and 2.
abbrev a_one : List ℕ × List ℕ
a_one = (97 ∷ [], 49 ∷ [])

abbrev a_two : List ℕ × List ℕ
a_two = (97 ∷ [], 50 ∷ [])

-- "include y", "a=2".
abbrev text_x : List ℕ
text_x = 105 ∷ 110 ∷ 99 ∷ 108 ∷ 117 ∷ 100 ∷ 101 ∷ 32 ∷ 121 ∷ 10 ∷ 97 ∷ 61 ∷ 50 ∷ 10 ∷ []

-- "y" holds "a=1".
abbrev files : List ℕ → Option (List ℕ)
files path =
    if same_text path (120 ∷ [])
    then some text_x
    else (if same_text path (121 ∷ []) then some (97 ∷ 61 ∷ 49 ∷ []) else none)

files-parse : parse files 2 false (120 ∷ []) [] ≡ some (true, a_one ∷ [])
unfolding parse same_text add_lines text_lines add_line cut pair_read key_value skip_delims token
    find assign
files-parse = refl

files_overwrite : parse files 2 true (120 ∷ []) [] ≡ some (true, a_two ∷ [])
unfolding parse same_text add_lines text_lines add_line cut pair_read key_value skip_delims token
    find assign
files_overwrite = refl

parse_again : parse files 2 false (120 ∷ []) (a_two ∷ []) ≡ some (true, a_two ∷ [])
unfolding parse same_text add_lines text_lines add_line cut pair_read key_value skip_delims token
    find assign
parse_again = refl

two_found : find (97 ∷ []) (a_two ∷ []) ≡ some (50 ∷ [])
unfolding find same_text
two_found = refl

parse_keeps_first_example : find (97 ∷ []) (a_two ∷ []) ≡ some (50 ∷ [])
parse_keeps_first_example =
    parse_keeps_first files 2 (120 ∷ []) (97 ∷ []) (50 ∷ []) (a_two ∷ []) (a_two ∷ []) true
      parse_again two_found

rank : List ℕ → ℕ
rank path = if same_text path (120 ∷ []) then 1 else 0

files-IsRanked : IsRanked files rank
unfolding rank text_lines cut same_text key_value skip_delims token
files-IsRanked path bytes e = by (same_text path (120 ∷ [])) (same_text path (121 ∷ [])) e
  where
    by :
        (x y : Bool)
        → (if x then some text_x else (if y then some (97 ∷ 61 ∷ 49 ∷ []) else none)) ≡ some bytes
        → AllBelow rank (if x then 1 else 0) (included (text_lines bytes))
    by true y e =
        subst (λ b. AllBelow rank 1 (included (text_lines b))) (some-injective _ _ e)
          (omega arith, tt)
    by false true e =
        subst (λ b. AllBelow rank 0 (included (text_lines b))) (some-injective _ _ e) tt
    by false false e = cc

parse_ends_example :
    (o : Bool × ConfigHash) × ((depth : ℕ)
      → rank (120 ∷ []) < depth
      → parse files depth false (120 ∷ []) [] ≡ some o)
parse_ends_example = parse_ends files rank false (120 ∷ []) [] files-IsRanked

-- "a=1", "b=2", "a=2".
abbrev entries : List (List ℕ × List ℕ)
entries = a_one ∷ (98 ∷ [], 50 ∷ []) ∷ a_two ∷ []

abbrev one_file : List ℕ → Option (List ℕ)
one_file path = some (printed entries)

entries-AllEntries : AllEntries entries
unfolding same_text
entries-AllEntries = (
  ((refl, tt), (refl, tt), (λ e. cc), (λ e. cc), refl, refl),
  (
    ((refl, tt), (refl, tt), (λ e. cc), (λ e. cc), refl, refl),
    (((refl, tt), (refl, tt), (λ e. cc), (λ e. cc), refl, refl), tt),
  ),
)

load-printed_example :
    (c' : Config) × (load one_file 1 new_config (some (120 ∷ [])) false ≡ some (true, c'))
    × (find (97 ∷ []) c'.m_config_hash ≡ some (49 ∷ []))
unfolding same_text
load-printed_example =
    load-printed one_file 0 new_config (120 ∷ []) false entries (97 ∷ []) refl entries-AllEntries
