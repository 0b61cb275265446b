-- ===== src/Text/Split.antt =====
-- BossCommon::split against the text put together again.
use ig_libs.Base.{
  ℕ, zero, suc, ◌≤◌, ◌<◌, ◌≡◌, ◌≢◌, ◌⊎◌, inl, inr, refl, sym, ap, ◌∙◌, arith, false, Bool-cases,
  List, [], ◌∷◌, ◌++◌, append_assoc, length, length-append, ◌==◌, ==_iff, ==_refl,
}
use ig_libs.Text.{getline, split_loop, split}

-- No byte of the piece is the delimiter.
abbrev pub Clean : ℕ → List ℕ → Type 0
Clean d [] = Unit {0}
Clean d (c ∷ s) = (c ≢ d) × Clean d s

abbrev pub AllClean : ℕ → List (List ℕ) → Type 0
AllClean d [] = Unit {0}
AllClean d (p ∷ ps) = Clean d p × AllClean d ps

-- Each piece with the delimiter behind it.
pub terminated : ℕ → List (List ℕ) → List ℕ
terminated d [] = []
terminated d (p ∷ ps) = p ++ (d ∷ terminated d ps)

getline-Clean : (d : ℕ) (p rest : List ℕ) → Clean d p → getline d (p ++ (d ∷ rest)) ≡ (p, rest)
unfolding getline
getline-Clean d [] rest h = rw (==_refl d)
getline-Clean d (c ∷ p) rest h = rw (differs, getline-Clean d p rest h.1) refl
  where
    differs : (c == d) ≡ false
    differs = ground arith

-- What one `getline` takes off a text that has not ended.
record Taken (d : ℕ) (s item rest : List ℕ) : Type 0 where
  clean : Clean d item
  whole : (s ≡ item ++ (d ∷ rest)) ⊎ ((s ≡ item) × (rest ≡ []))
  shorter : length rest ≤ length s
  progress : (s ≡ []) ⊎ (length rest < length s)

getline-Taken : (d : ℕ) (s : List ℕ) → Taken d s (getline d s).0 (getline d s).1
unfolding getline
getline-Taken d [] = record {
  clean = tt;
  whole = inr (refl, refl);
  shorter = omega arith;
  progress = inl refl;
}
getline-Taken d (c ∷ s) = elim (Bool-cases (c == d)) [
  | inl here ↦ rw here (record {
    clean = tt;
    whole = inl (ap (λ x. x ∷ s) ((==_iff c d).0 here));
    shorter = omega arith;
    progress = inr (omega arith);
  })
  | inr other ↦
      let t = getline-Taken d s in
      rw other (record {
        clean = (ground arith, t.clean);
        whole = extend t.whole;
        shorter = omega (arith, t.shorter);
        progress = inr (omega (arith, t.shorter));
      })
]
  where
    extend :
        (s ≡ (getline d s).0 ++ (d ∷ (getline d s).1))
          ⊎ ((s ≡ (getline d s).0) × ((getline d s).1 ≡ []))
        → (c ∷ s ≡ (c ∷ (getline d s).0) ++ (d ∷ (getline d s).1))
          ⊎ ((c ∷ s ≡ c ∷ (getline d s).0) × ((getline d s).1 ≡ []))
    extend (inl e) = inl (ap (◌∷◌ c) e)
    extend (inr (e, f)) = inr (ap (◌∷◌ c) e, f)

-- The pieces are clean, and with a delimiter behind each they are the text, or the text and one
-- delimiter more.
abbrev pub IsSplit : ℕ → List ℕ → List (List ℕ) → Type 0
IsSplit d s ps = AllClean d ps × ((terminated d ps ≡ s) ⊎ (terminated d ps ≡ s ++ (d ∷ [])))

split_loop-nil : (fuel d : ℕ) → split_loop fuel d [] ≡ []
unfolding split_loop
split_loop-nil zero d = refl
split_loop-nil (suc fuel) d = refl

split_loop-IsSplit : (fuel d : ℕ) (s : List ℕ) → length s ≤ fuel → IsSplit d s (split_loop fuel d s)
unfolding split_loop terminated
split_loop-IsSplit zero d [] h = (tt, inl refl)
split_loop-IsSplit zero d (c ∷ s) h = absurd (omega arith)
split_loop-IsSplit (suc fuel) d [] h = (tt, inl refl)
split_loop-IsSplit (suc fuel) d (c ∷ s) h =
    let t = getline-Taken d (c ∷ s) in
    let ih = split_loop-IsSplit fuel d (getline d (c ∷ s)).1 (smaller t.progress) in
    ((t.clean, ih.0), join (getline d (c ∷ s)).0 (getline d (c ∷ s)).1 t.whole ih.1)
  where
    smaller :
        (c ∷ s ≡ []) ⊎ (length (getline d (c ∷ s)).1 < length (c ∷ s))
        → length (getline d (c ∷ s)).1 ≤ fuel
    smaller (inl e) = ground arith
    smaller (inr k) = omega arith

    join :
        (item rest : List ℕ)
        → (c ∷ s ≡ item ++ (d ∷ rest)) ⊎ ((c ∷ s ≡ item) × (rest ≡ []))
        → (terminated d (split_loop fuel d rest) ≡ rest)
          ⊎ (terminated d (split_loop fuel d rest) ≡ rest ++ (d ∷ []))
        → (item ++ (d ∷ terminated d (split_loop fuel d rest)) ≡ c ∷ s)
          ⊎ (item ++ (d ∷ terminated d (split_loop fuel d rest)) ≡ (c ∷ s) ++ (d ∷ []))
    join item rest (inl e) (inl r) = inl (rw r (sym e))
    join item rest (inl e) (inr r) =
        inr (rw r (sym (append_assoc item (d ∷ rest) (d ∷ [])) ∙ ap (λ x. x ++ (d ∷ [])) (sym e)))
    join item rest (inr (e, f)) _ =
        inr (rw (f, split_loop-nil fuel d, terminated) (ap (λ x. x ++ (d ∷ [])) (sym e)))

split_loop-step :
    (fuel d : ℕ) (s : List ℕ)
    → 0 < length s
    → split_loop (suc fuel) d s ≡ (getline d s).0 ∷ split_loop fuel d (getline d s).1
unfolding split_loop
split_loop-step fuel d [] h = absurd (omega arith)
split_loop-step fuel d (c ∷ s) h = refl

split_loop-terminated :
    (fuel d : ℕ) (ps : List (List ℕ))
    → AllClean d ps
    → length (terminated d ps) ≤ fuel
    → split_loop fuel d (terminated d ps) ≡ ps
unfolding terminated
split_loop-terminated fuel d [] h k = split_loop-nil fuel d
split_loop-terminated zero d (p ∷ ps) h k =
    absurd (omega (arith, length-append p (d ∷ terminated d ps)))
split_loop-terminated (suc fuel) d (p ∷ ps) h k =
    let long = length-append p (d ∷ terminated d ps) in
    split_loop-step fuel d (p ++ (d ∷ terminated d ps)) (omega (arith, long))
    ∙ rw (getline-Clean d p (terminated d ps) h.0)
        (ap (◌∷◌ p) (split_loop-terminated fuel d ps h.1 (omega (arith, long))))

-- No piece of split() has the delimiter in it, and the pieces, a delimiter behind each, are the
-- text again, or the text with one delimiter more at its end.
pub split-IsSplit : (s : List ℕ) (d : ℕ) → IsSplit d s (split s d)
unfolding split
split-IsSplit s d = split_loop-IsSplit (length s) d s (omega arith)

-- Pieces without the delimiter, written with a delimiter behind each, come back from split().
pub split-terminated : (ps : List (List ℕ)) (d : ℕ) → AllClean d ps → split (terminated d ps) d ≡ ps
unfolding split
split-terminated ps d h = split_loop-terminated (length (terminated d ps)) d ps h (omega arith)
