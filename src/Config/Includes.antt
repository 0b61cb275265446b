-- ===== src/Config/Includes.antt =====
-- When Config::parse ends: the files that include one another have no cycle. A file that begins by including
-- itself is never read to its end.
use ig_libs.Base.{
  ℕ, zero, suc, ◌≤◌, ◌<◌, ◌≡◌, refl, ap, ◌∙◌, arith, Bool, true, false, Option, none, some, List,
  [], ◌∷◌, if◌then◌else◌,
}
use ig_libs.Text.{same_text}
use ig_libs.Config.{
  ConfigHash, store, include_word, is_comment, Parsed, pair_read, key_value, add_line, add_lines,
  file_read, text_lines, parse,
}
use ig_libs.Config.Stored.{same_text_refl}

abbrev and_included : Bool → List ℕ → List (List ℕ) → List (List ℕ)
and_included true val rest = val ∷ rest
and_included false val rest = rest

abbrev or_include : Bool → Option (List ℕ × List ℕ) → List (List ℕ) → List (List ℕ)
or_include true pair rest = rest
or_include false none rest = rest
or_include false (some (key, val)) rest = and_included (same_text include_word key) val rest

-- The paths that the lines include, in their order.
abbrev pub included : List (List ℕ) → List (List ℕ)
included [] = []
included (line ∷ lines) = or_include (is_comment line) (key_value line) (included lines)

abbrev pub AllBelow : (List ℕ → ℕ) → ℕ → List (List ℕ) → Type 0
AllBelow rank bound [] = Unit {0}
AllBelow rank bound (path ∷ paths) = (rank path < bound) × AllBelow rank bound paths

-- Every file includes only files of a lower rank.
abbrev pub IsRanked : (List ℕ → Option (List ℕ)) → (List ℕ → ℕ) → Type 0
IsRanked file rank =
    (path bytes : List ℕ)
    → file path ≡ some bytes
    → AllBelow rank (rank path) (included (text_lines bytes))

-- There is a result, and it is the same at any depth from `bound` on.
abbrev pub Ends : ℕ → (ℕ → Parsed) → Type 0
Ends bound f = (o : Bool × ConfigHash) × ((depth : ℕ) → bound ≤ depth → f depth ≡ some o)

module _ (overwrite : Bool) (include : ℕ → List ℕ → ConfigHash → Parsed) (bound : ℕ) where
  AllEnd : List (List ℕ) → Type 0
  AllEnd [] = Unit {0}
  AllEnd (path ∷ paths) =
      ((h : ConfigHash) → Ends bound (λ depth. include depth path h)) × AllEnd paths

  -- One line, and what the lines behind it need.
  add_line-Ends :
      (line : List ℕ) (rest : List (List ℕ)) (h : ConfigHash)
      → AllEnd (or_include (is_comment line) (key_value line) rest)
      → Ends bound (λ depth. add_line (include depth) overwrite line h) × AllEnd rest
  unfolding add_line pair_read AllEnd
  add_line-Ends line rest h all = by (is_comment line) (key_value line) all
    where
      by :
          (comment : Bool) (pair : Option (List ℕ × List ℕ))
          → AllEnd (or_include comment pair rest)
          → Ends bound (λ depth.
            if comment then some (true, h) else pair_read (include depth) overwrite h pair)
            × AllEnd rest
      by true pair all = (((true, h), λ depth k. refl), all)
      by false none all = (((true, h), λ depth k. refl), all)
      by false (some (key, val)) all = word (same_text include_word key) all
        where
          word :
              (b : Bool)
              → AllEnd (and_included b val rest)
              → Ends bound (λ depth.
                if b then include depth val h else some (true, store overwrite key val h))
                × AllEnd rest
          word true all = (all.0 h, all.1)
          word false all = (((true, store overwrite key val h), λ depth k. refl), all)

  add_lines-Ends :
      (lines : List (List ℕ)) (h : ConfigHash)
      → AllEnd (included lines)
      → Ends bound (λ depth. add_lines (include depth) overwrite lines h)
  unfolding add_lines
  add_lines-Ends [] h all = ((true, h), λ depth k. refl)
  add_lines-Ends (line ∷ lines) h all =
      let (((ok, h'), e), rest) = add_line-Ends line (included lines) h all in
      after ok h' e (λ h''. add_lines-Ends lines h'' rest)
    where
      after :
          (ok : Bool) (h' : ConfigHash)
          → ((depth : ℕ)
              → bound ≤ depth
              → add_line (include depth) overwrite line h ≡ some (ok, h'))
          → ((h'' : ConfigHash)
              → Ends bound (λ depth. add_lines (include depth) overwrite lines h''))
          → Ends bound (λ depth. add_lines (include depth) overwrite (line ∷ lines) h)
      after false h' e next = ((false, h'), λ depth k. rw (e depth k) refl)
      after true h' e next = let (o, e') = next h' in (o, λ depth k. rw (e depth k) (e' depth k))

-- One file deeper.
under :
    (file : List ℕ → Option (List ℕ)) (overwrite : Bool) (bound : ℕ) (path : List ℕ)
    (h : ConfigHash) (bytes : Option (List ℕ))
    → file path ≡ bytes
    → Ends bound (λ depth. file_read (parse file depth overwrite) overwrite h bytes)
    → Ends (suc bound) (λ depth. parse file depth overwrite path h)
unfolding parse
under file overwrite bound path h bytes e (o, f) = (o, at)
  where
    at : (depth : ℕ) → suc bound ≤ depth → parse file depth overwrite path h ≡ some o
    at zero k = absurd (omega arith)
    at (suc depth) k =
        ap (file_read (parse file depth overwrite) overwrite h) e ∙ f depth (omega arith)

module _ (file : List ℕ → Option (List ℕ)) (rank : List ℕ → ℕ) (overwrite : Bool) where
  abbrev AllParse : ℕ → Type 0
  AllParse n =
      (path : List ℕ) (h : ConfigHash)
      → rank path < n
      → Ends (suc (rank path)) (λ depth. parse file depth overwrite path h)

  below-AllEnd :
      (n bound : ℕ) (paths : List (List ℕ))
      → bound ≤ n
      → AllParse n
      → AllBelow rank bound paths
      → AllEnd overwrite (λ depth. parse file depth overwrite) bound paths
  unfolding AllEnd
  below-AllEnd n bound [] small ih h = tt
  below-AllEnd n bound (path ∷ paths) small ih (low, lower) = (
    (λ h. let (o, f) = ih path h (omega arith) in (o, λ depth k. f depth (omega arith))),
    below-AllEnd n bound paths small ih lower,
  )

  -- By induction on a bound of the rank.
  parse-Ends : IsRanked file rank → (n : ℕ) → AllParse n
  parse-Ends ranked zero path h l = absurd (omega arith)
  parse-Ends ranked (suc n) path h l = by (file path) refl (parse-Ends ranked n)
    where
      by :
          (bytes : Option (List ℕ))
          → file path ≡ bytes
          → AllParse n
          → Ends (suc (rank path)) (λ depth. parse file depth overwrite path h)
      by none e ih = under file overwrite (rank path) path h none e ((false, h), λ depth k. refl)
      by (some bytes) e ih = under file overwrite (rank path) path h (some bytes) e (
          add_lines-Ends overwrite (λ depth. parse file depth overwrite) (rank path)
            (text_lines bytes) h
            (below-AllEnd n (rank path) (included (text_lines bytes)) (omega arith) ih
              (ranked path bytes e)))

-- If every file includes only files of a lower rank, then parsing a file ends; there is one result, which parsing
-- has at every depth above the file's rank.
pub parse_ends :
    (file : List ℕ → Option (List ℕ)) (rank : List ℕ → ℕ) (overwrite : Bool) (path : List ℕ)
    (h : ConfigHash)
    → IsRanked file rank
    → (o : Bool × ConfigHash) × ((depth : ℕ)
        → rank path < depth
        → parse file depth overwrite path h ≡ some o)
parse_ends file rank overwrite path h ranked =
    parse-Ends file rank overwrite ranked (suc (rank path)) path h (omega arith)

-- A file whose first line includes the file itself is read for ever: no depth is enough.
pub include_self :
    (file : List ℕ → Option (List ℕ)) (depth : ℕ) (overwrite : Bool) (path bytes line : List ℕ)
    (lines : List (List ℕ)) (h : ConfigHash)
    → file path ≡ some bytes
    → text_lines bytes ≡ line ∷ lines
    → is_comment line ≡ false
    → key_value line ≡ some (include_word, path)
    → parse file depth overwrite path h ≡ none
unfolding parse add_lines add_line pair_read
include_self file zero overwrite path bytes line lines h e l c kv = refl
include_self file (suc depth) overwrite path bytes line lines h e l c kv = rw (
  e,
  l,
  c,
  kv,
  same_text_refl include_word,
  include_self file depth overwrite path bytes line lines h e l c kv,
)
