-- ===== src/Config/Stored.antt =====
-- The table of a Config: what a look-up finds behind a store, and that without `overwrite` the first value stays.
use mathlib.Core.Bool.{false≢true}
use ig_libs.Base.{
  ◌>>=◌, ℕ, zero, suc, ◌≡◌, ◌↔◌, inl, inr, refl, sym, ap, ◌∙◌, arith, Bool, true, false, Option,
  none, some, List, [], ◌∷◌, ==_refl, subst, Bool-cases, if◌then◌else◌,
}
use ig_libs.Text.{same_text}
use ig_libs.Config.{
  ConfigHash, find, assign, store, assign_found, include_word, is_comment, Parsed, pair_read,
  key_value, add_line, add_lines, file_read, text_lines, parse,
}

-- The value that is there, or else the one given.
abbrev pub or_else : Option (List ℕ) → List ℕ → Option (List ℕ)
or_else none val = some val
or_else (some old) val = some old

pub same_text_refl : (s : List ℕ) → same_text s s ≡ true
unfolding same_text
same_text_refl [] = refl
same_text_refl (c ∷ s) = rw (==_refl c, same_text_refl s)

pub same_text→eq : (s t : List ℕ) → same_text s t ≡ true → s ≡ t
unfolding same_text
same_text→eq [] [] h = refl
same_text→eq [] (d ∷ t) h = cc
same_text→eq (c ∷ s) [] h = cc
same_text→eq (c ∷ s) (d ∷ t) h = ground (arith, same_text→eq s t)

pub same_text_iff : (s t : List ℕ) → (same_text s t ≡ true) ↔ (s ≡ t)
same_text_iff s t = (same_text→eq s t, λ e. subst (λ u. same_text s u ≡ true) e (same_text_refl s))

pub find-assign :
    (k key val : List ℕ) (h : ConfigHash)
    → find k (assign key val h) ≡ (if same_text key k then some val else find k h)
unfolding find assign
find-assign k key val [] = refl
find-assign k key val ((x, v) ∷ h) = elim (Bool-cases (same_text x key)) [
  | inl same ↦
      let e : x ≡ key = same_text→eq x key same in
      rw same (
        rw e (elim (Bool-cases (same_text key k)) [
          | inl yes_k ↦ rw yes_k refl
          | inr no_k ↦ rw no_k refl
        ]))
  | inr other ↦ rw other (
      rw (find-assign k key val h) (elim (Bool-cases (same_text x k)) [
        | inl here ↦
            let apart : same_text key k ≡ false = not_same x key k (same_text→eq x k here) other in
            rw (here, apart) refl
        | inr there ↦ rw there refl
      ]))
]
  where
    not_same : (x key k : List ℕ) → x ≡ k → same_text x key ≡ false → same_text key k ≡ false
    not_same x key k e o = elim (Bool-cases (same_text key k)) [
      | inr no_k ↦ no_k
      | inl yes_k ↦
          absurd (false≢true (sym o ∙ (same_text_iff x key).1 (e ∙ sym (same_text→eq key k yes_k))))
    ]

-- A store is an assignment where the key is new, or where values are to be written again.
pub find-store :
    (overwrite : Bool) (k key val : List ℕ) (h : ConfigHash)
    → find k (store overwrite key val h) ≡ (
        if same_text key k
        then (if overwrite then some val else or_else (find key h) val)
        else find k h)
unfolding store
find-store overwrite k key val h = by overwrite (find key h) refl
  where
    same_value :
        (w : Bool)
        → (if same_text key k then some val else find k h)
          ≡ (if same_text key k then (if w then some val else some val) else find k h)
    same_value true = refl
    same_value false = refl

    by :
        (w : Bool) (found : Option (List ℕ))
        → find key h ≡ found
        → find k (assign_found w key val h found)
          ≡ (if same_text key k then (if w then some val else or_else found val) else find k h)
    by w none e = find-assign k key val h ∙ same_value w
    by true (some old) e = find-assign k key val h
    by false (some old) e = elim (Bool-cases (same_text key k)) [
      | inl yes_k ↦ rw yes_k (ap (λ x. find x h) (sym (same_text→eq key k yes_k)) ∙ e)
      | inr no_k ↦ rw no_k refl
    ]

-- Every key that has a value has it behind as well.
abbrev Grows : ConfigHash → Parsed → Type 0
Grows h none = Unit {0}
Grows h (some (ok, h')) = (k v : List ℕ) → find k h ≡ some v → find k h' ≡ some v

store-Grows : (key val : List ℕ) (h : ConfigHash) → Grows h (some (true, store false key val h))
store-Grows key val h k v e = find-store false k key val h ∙ kept
  where
    kept : (if same_text key k then or_else (find key h) val else find k h) ≡ some v
    kept = elim (Bool-cases (same_text key k)) [
      | inl yes_k ↦
          let old : find key h ≡ some v = ap (λ x. find x h) (same_text→eq key k yes_k) ∙ e in
          rw (yes_k, old) refl
      | inr no_k ↦ rw no_k e
    ]

module _ (include : List ℕ → ConfigHash → Parsed)
    (grows : (path : List ℕ) (h : ConfigHash) → Grows h (include path h)) where
  pair_read-Grows :
      (h : ConfigHash) (pair : Option (List ℕ × List ℕ)) → Grows h (pair_read include false h pair)
  unfolding pair_read
  pair_read-Grows h none = λ k v e. e
  pair_read-Grows h (some (key, val)) = elim (Bool-cases (same_text include_word key)) [
    | inl word ↦ rw word (grows val h)
    | inr other ↦ rw other (store-Grows key val h)
  ]

  add_line-Grows : (line : List ℕ) (h : ConfigHash) → Grows h (add_line include false line h)
  unfolding add_line
  add_line-Grows line h = elim (Bool-cases (is_comment line)) [
    | inl yes_c ↦ rw yes_c (λ k v e. e)
    | inr no_c ↦ rw no_c (pair_read-Grows h (key_value line))
  ]

  add_lines-Grows :
      (lines : List (List ℕ)) (h : ConfigHash) → Grows h (add_lines include false lines h)
  unfolding add_lines
  add_lines-Grows [] h = λ k v e. e
  add_lines-Grows (line ∷ lines) h =
      after (add_line include false line h) (add_line-Grows line h) (add_lines-Grows lines)
    where
      after :
          (out : Parsed)
          → Grows h out
          → ((h' : ConfigHash) → Grows h' (add_lines include false lines h'))
          → Grows h
              (out >>= λ o. (if o.0 then add_lines include false lines o.1 else some (false, o.1)))
      after none g rest = tt
      after (some (false, h')) g rest = g
      after (some (true, h')) g rest = through (add_lines include false lines h') (rest h')
        where
          through : (out : Parsed) → Grows h' out → Grows h out
          through none r = tt
          through (some (ok, h'')) r = λ k v e. r k v (g k v e)

parse-Grows :
    (file : List ℕ → Option (List ℕ)) (depth : ℕ) (path : List ℕ) (h : ConfigHash)
    → Grows h (parse file depth false path h)
unfolding parse
parse-Grows file zero path h = tt
parse-Grows file (suc depth) path h = by (file path) (parse-Grows file depth)
  where
    by :
        (bytes : Option (List ℕ))
        → ((p : List ℕ) (h' : ConfigHash) → Grows h' (parse file depth false p h'))
        → Grows h (file_read (parse file depth false) false h bytes)
    by none g = λ k v e. e
    by (some bytes) g = add_lines-Grows (parse file depth false) g (text_lines bytes) h

-- Without `overwrite`, parsing a file, through all that it includes, leaves every key that has a value
-- with that value, whether parsing succeeds or not.
pub parse_keeps_first :
    (file : List ℕ → Option (List ℕ)) (depth : ℕ) (path key val : List ℕ) (h h' : ConfigHash)
    (ok : Bool)
    → parse file depth false path h ≡ some (ok, h')
    → find key h ≡ some val
    → find key h' ≡ some val
parse_keeps_first file depth path key val h h' ok e there =
    let grows : Grows h (some (ok, h')) = subst (Grows h) e (parse-Grows file depth path h) in
    grows key val there
