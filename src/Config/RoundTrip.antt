-- ===== src/Config/RoundTrip.antt =====
-- Loading a written file gives each key the first of its values, or with `overwrite` the last one.
use ig_libs.Base.{
  ℕ, suc, ◌≡◌, ◌≢◌, refl, sym, ap, ◌∙◌, Bool, true, false, Option, none, some, List, [], ◌∷◌, ◌++◌,
  if◌then◌else◌,
}
use ig_libs.Text.{same_text}
use ig_libs.Config.{
  Config, ConfigHash, find, store, text_lines, include_word, is_comment, Parsed, pair_read,
  add_line, add_lines, parse, load,
}
use ig_libs.Config.Stored.{or_else, find-store, same_text→eq}
use ig_libs.Config.Printed.{
  AllPlain, key_value_lem, text_lines-AllInLine, AllPlain-AllInLine, AllPlain-AllInLine_self,
}

-- A key and a value that a line can hold: words, of which the key begins no comment and is not `include`.
abbrev pub IsEntry : List ℕ × List ℕ → Type 0
IsEntry (key, val) =
    AllPlain key
    × AllPlain val
    × (key ≢ [])
    × (val ≢ [])
    × (is_comment key ≡ false)
    × (same_text include_word key ≡ false)

abbrev pub AllEntries : List (List ℕ × List ℕ) → Type 0
AllEntries [] = Unit {0}
AllEntries (e ∷ es) = IsEntry e × AllEntries es

-- A line for each entry.
unfoldable pub printed : List (List ℕ × List ℕ) → List ℕ
printed [] = []
printed ((key, val) ∷ es) = (key ++ (61 ∷ val)) ++ (10 ∷ printed es)

store_all : Bool → List (List ℕ × List ℕ) → ConfigHash → ConfigHash
store_all overwrite [] h = h
store_all overwrite ((key, val) ∷ es) h = store_all overwrite es (store overwrite key val h)

abbrev or_found : Option (List ℕ) → Option (List ℕ) → Option (List ℕ)
or_found none y = y
or_found (some x) y = some x

-- The value of the first entry with the key, and that of the last.
abbrev pub first_of : List ℕ → List (List ℕ × List ℕ) → Option (List ℕ)
first_of k [] = none
first_of k ((key, val) ∷ es) = or_found (if same_text key k then some val else none) (first_of k es)

abbrev pub last_of : List ℕ → List (List ℕ × List ℕ) → Option (List ℕ)
last_of k [] = none
last_of k ((key, val) ∷ es) = or_found (last_of k es) (if same_text key k then some val else none)

or_found-none : (x : Option (List ℕ)) → or_found x none ≡ x
or_found-none none = refl
or_found-none (some v) = refl

find-store_last :
    (k : List ℕ) (es : List (List ℕ × List ℕ)) (h : ConfigHash)
    → find k (store_all true es h) ≡ or_found (last_of k es) (find k h)
unfolding store_all
find-store_last k [] h = refl
find-store_last k ((key, val) ∷ es) h =
    find-store_last k es (store true key val h)
    ∙ ap (or_found (last_of k es)) (find-store true k key val h)
    ∙ regroup (last_of k es) (same_text key k)
  where
    regroup :
        (x : Option (List ℕ)) (same : Bool)
        → or_found x (if same then some val else find k h)
          ≡ or_found (or_found x (if same then some val else none)) (find k h)
    regroup none true = refl
    regroup none false = refl
    regroup (some v) same = refl

find-store_first :
    (k : List ℕ) (es : List (List ℕ × List ℕ)) (h : ConfigHash)
    → find k (store_all false es h) ≡ or_found (find k h) (first_of k es)
unfolding store_all
find-store_first k [] h = sym (or_found-none (find k h))
find-store_first k ((key, val) ∷ es) h =
    find-store_first k es (store false key val h)
    ∙ ap (λ x. or_found x (first_of k es)) (find-store false k key val h)
    ∙ by (same_text key k) refl
  where
    taken : (x : Option (List ℕ)) → or_found (or_else x val) (first_of k es) ≡ or_found x (some val)
    taken none = refl
    taken (some v) = refl

    by :
        (same : Bool)
        → same_text key k ≡ same
        → or_found (if same then or_else (find key h) val else find k h) (first_of k es)
          ≡ or_found (find k h) (or_found (if same then some val else none) (first_of k es))
    by true e = taken (find key h) ∙ ap (λ x. or_found (find x h) (some val)) (same_text→eq key k e)
    by false e = refl

is_comment_word :
    (key rest : List ℕ) → key ≢ [] → is_comment key ≡ false → is_comment (key ++ rest) ≡ false
is_comment_word [] rest ne c = absurd (ne refl)
is_comment_word (x ∷ key) rest ne c = c

add_lines-printed :
    (include : List ℕ → ConfigHash → Parsed) (overwrite : Bool) (es : List (List ℕ × List ℕ))
    (h : ConfigHash)
    → AllEntries es
    → add_lines include overwrite (text_lines (printed es)) h
      ≡ some (true, store_all overwrite es h)
unfolding add_lines add_line pair_read printed store_all text_lines
add_lines-printed include overwrite [] h all = refl
add_lines-printed include overwrite ((key, val) ∷ es) h ((pk, pv, nk, nv, c, w), all) =
    rw
      (text_lines-AllInLine (key ++ (61 ∷ val)) (printed es)
        (AllPlain-AllInLine key (61 ∷ val) pk (refl, refl, AllPlain-AllInLine_self val pv)))
      (rw (is_comment_word key (61 ∷ val) nk c, key_value_lem key val pk pv nk nv, w)
        (add_lines-printed include overwrite es (store overwrite key val h) all))

-- Loading a file that has a line `key=value` for each of some entries, all of them words, no key being `include` or the begin of a
-- comment, succeeds; a key then has the value of its first entry, or with `overwrite` that of its last, and no other key has one.
pub load-printed :
    (file : List ℕ → Option (List ℕ)) (depth : ℕ) (c : Config) (path : List ℕ) (overwrite : Bool)
    (es : List (List ℕ × List ℕ)) (k : List ℕ)
    → file path ≡ some (printed es)
    → AllEntries es
    → (c' : Config) × (load file (suc depth) c (some path) overwrite ≡ some (true, c'))
      × (find k c'.m_config_hash ≡ (if overwrite then last_of k es else first_of k es))
unfolding load parse find
load-printed file depth c path overwrite es k e all = (
  record { m_config_hash = store_all overwrite es []; m_file_name = some path },
  rw (e, add_lines-printed (parse file depth overwrite) overwrite es [] all) refl,
  value overwrite,
)
  where
    value : (w : Bool) → find k (store_all w es []) ≡ (if w then last_of k es else first_of k es)
    value true = find-store_last k es [] ∙ or_found-none (last_of k es)
    value false = find-store_first k es []
