-- ===== src/Text/Trim.antt =====
-- BossCommon::trim: what is cut off, and where the cut ends.
use ig_libs.Base.{
  ℕ, zero, suc, ◌+◌, ◌-◌, ◌≤◌, ◌<◌, ◌≡◌, ◌⊎◌, inl, inr, refl, sym, ap, ◌∙◌, arith, true, false,
  Bool-cases, List, [], ◌∷◌, ◌++◌, append-nil, append_assoc, length, get_or, take, drop,
  take-append-drop, length-take, length-drop, ◌==◌, if◌then◌else◌,
}
use ig_libs.Base.Tabulate.{get_or-take, get_or-drop, take_all}
use ig_libs.Text.{contains, front_count, back_loop, erase, trim_back, trim}

-- Every byte is one of the list's.
abbrev pub AllIn : List ℕ → List ℕ → Type 0
AllIn charlist [] = Unit {0}
AllIn charlist (c ∷ s) = (contains charlist c ≡ true) × AllIn charlist s

AllIn-append : (cs xs ys : List ℕ) → AllIn cs xs → AllIn cs ys → AllIn cs (xs ++ ys)
AllIn-append cs [] ys h k = k
AllIn-append cs (x ∷ xs) ys h k = (h.0, AllIn-append cs xs ys h.1 k)

AllIn-of_get_or :
    (cs xs : List ℕ) → ((i : ℕ) → i < length xs → contains cs (get_or xs i 0) ≡ true) → AllIn cs xs
AllIn-of_get_or cs [] h = tt
AllIn-of_get_or cs (x ∷ xs) h =
    (h 0 (omega arith), AllIn-of_get_or cs xs (λ i k. h (suc i) (omega arith)))

front-AllIn : (cs s : List ℕ) → AllIn cs (take (front_count cs s) s)
unfolding front_count
front-AllIn cs [] = tt
front-AllIn cs (c ∷ s) = ground (arith, front-AllIn cs s)

-- The text is empty, or its first byte is not of the list.
abbrev StartsOut : List ℕ → List ℕ → Type 0
StartsOut cs s = (s ≡ []) ⊎ (contains cs (get_or s 0 0) ≡ false)

front-StartsOut : (cs s : List ℕ) → StartsOut cs (drop (front_count cs s) s)
unfolding front_count
front-StartsOut cs [] = inl refl
front-StartsOut cs (c ∷ s) = elim (Bool-cases (contains cs c)) [
  | inl more ↦ rw more (front-StartsOut cs s)
  | inr stop ↦ rw stop (inr stop)
]

erase_front : (s : List ℕ) (n : ℕ) → (if n == 0 then s else erase s 0 n) ≡ drop n s
unfolding erase
erase_front s zero = refl
erase_front s (suc n) =
    let some_cut : (suc n == 0) ≡ false = ground arith in
    rw some_cut (ap (λ k. drop k s) {x = 0 + suc n} {y = suc n} (omega arith))

-- Where the second loop stops: what it passed is of the list.
record Stops (cs s : List ℕ) (start cnt p total : ℕ) : Type 0 where
  counted : p + total ≡ start + cnt
  passed : (i : ℕ) → p < i → i ≤ start → contains cs (get_or s i 0) ≡ true
  stop : (p ≡ 0) ⊎ (contains cs (get_or s p 0) ≡ false)

back_loop-Stops :
    (cs s : List ℕ) (start cnt : ℕ)
    → Stops cs s start cnt (back_loop cs s start cnt).0 (back_loop cs s start cnt).1
unfolding back_loop
back_loop-Stops cs s zero cnt = record {
  counted = refl;
  passed = λ i h k. absurd (omega arith);
  stop = inl refl;
}
back_loop-Stops cs s (suc start) cnt = elim (Bool-cases (contains cs (get_or s (suc start) 0))) [
  | inr out ↦
      rw out (record { counted = refl; passed = λ i h k. absurd (omega arith); stop = inr out })
  | inl more ↦
      let ih = back_loop-Stops cs s start (suc cnt) in
      rw more (record {
        counted = omega (arith, ih.counted);
        passed = λ i h k. last_or_before more ih.passed i h (split i k);
        stop = ih.stop;
      })
]
  where
    split : (i : ℕ) → i ≤ suc start → (i ≡ suc start) ⊎ (i ≤ start)
    split i k = omega arith

    last_or_before :
        {p : ℕ}
        → contains cs (get_or s (suc start) 0) ≡ true
        → ((i : ℕ) → p < i → i ≤ start → contains cs (get_or s i 0) ≡ true)
        → (i : ℕ) → p < i
        → (i ≡ suc start) ⊎ (i ≤ start)
        → contains cs (get_or s i 0) ≡ true
    last_or_before more before i h (inl e) = ap (λ j. contains cs (get_or s j 0)) e ∙ more
    last_or_before more before i h (inr k) = before i h k

-- What `trim` leaves of `s`: bytes of the list are cut off both ends, and neither end of the rest
-- is one of them.
pub record IsTrimmed (charlist s t : List ℕ) : Type 0 where
  pub front : List ℕ
  pub back : List ℕ
  pub whole : s ≡ front ++ (t ++ back)
  pub front_in : AllIn charlist front
  pub back_in : AllIn charlist back
  pub ends_out :
      (t ≡ [])
      ⊎ ((contains charlist (get_or t 0 0) ≡ false)
          × (contains charlist (get_or t (length t - 1) 0) ≡ false))

-- A cut behind index `p` of a text whose later bytes are all of the list.
module _ (cs s : List ℕ) (p total : ℕ) (some_byte : 0 < length s)
    (out : contains cs (get_or s 0 0) ≡ false) (st : Stops cs s (length s - 1) 0 p total) where
  abbrev kept : List ℕ
  kept = take (suc p) s

  cut : (if total == 0 then s else erase s (p + 1) total) ≡ kept
  unfolding erase
  cut = elim (Bool-cases (total == 0)) [
    | inl none_cut ↦ rw none_cut (sym (take_all (suc p) s (ground (arith, st.counted))))
    | inr some_cut ↦ rw some_cut (
        ap (◌++◌ (take (p + 1) s)) nothing_left
        ∙ append-nil _
        ∙ ap (λ n. take n s) {x = p + 1} {y = suc p} (omega arith))
  ]
    where
      nil_of_length : (xs : List ℕ) → length xs ≡ 0 → xs ≡ []
      nil_of_length [] e = refl
      nil_of_length (x ∷ xs) e = absurd (omega arith)

      nothing_left : drop (p + 1 + total) s ≡ []
      nothing_left = nil_of_length _ (omega (arith, length-drop (p + 1 + total) s, st.counted))

  last_out : contains cs (get_or s p 0) ≡ false
  last_out = by st.stop
    where
      by : (p ≡ 0) ⊎ (contains cs (get_or s p 0) ≡ false) → contains cs (get_or s p 0) ≡ false
      by (inl e) = ap (λ i. contains cs (get_or s i 0)) e ∙ out
      by (inr e) = e

  kept-IsTrimmed : IsTrimmed cs s kept
  kept-IsTrimmed = record {
    front = [];
    back = drop (suc p) s;
    whole = sym (take-append-drop (suc p) s);
    front_in = tt;
    back_in = AllIn-of_get_or cs (drop (suc p) s) λ i k.
        ap (contains cs) (get_or-drop (suc p) i s 0)
        ∙ st.passed (suc p + i) (omega arith) (omega (arith, length-drop (suc p) s));
    ends_out = inr (
      ap (contains cs) (get_or-take (suc p) 0 s 0 (omega arith)) ∙ out,
      ap (λ i. contains cs (get_or kept i 0)) last_index
          ∙ ap (contains cs) (get_or-take (suc p) p s 0 (omega arith))
          ∙ last_out,
    );
  }
    where
      last_index : length kept - 1 ≡ p
      last_index = omega (arith, length-take (suc p) s, st.counted)

trim_back-IsTrimmed : (s cs : List ℕ) → StartsOut cs s → IsTrimmed cs s (trim_back s cs)
unfolding trim_back
trim_back-IsTrimmed [] cs h = record {
  front = [];
  back = [];
  whole = refl;
  front_in = tt;
  back_in = tt;
  ends_out = inl refl;
}
trim_back-IsTrimmed (c ∷ s) cs (inl e) = absurd (ground arith)
trim_back-IsTrimmed (c ∷ s) cs (inr out) =
    let st = back_loop-Stops cs (c ∷ s) (length (c ∷ s) - 1) 0 in
    let (p, total) = back_loop cs (c ∷ s) (length (c ∷ s) - 1) 0 in
    rw (cut cs (c ∷ s) p total (omega arith) out st)
      (kept-IsTrimmed cs (c ∷ s) p total (omega arith) out st)

-- trim() cuts bytes of the list off both ends, and no more of them stand at either end: the text is
-- a front and a back of such bytes around what is left, which is empty or begins and ends with
-- other bytes.
pub trim-IsTrimmed : (s charlist : List ℕ) → IsTrimmed charlist s (trim s charlist)
unfolding trim
trim-IsTrimmed s cs =
    let n = front_count cs s in
    rw (erase_front s n) (behind (trim_back-IsTrimmed (drop n s) cs (front-StartsOut cs s)))
  where
    behind : {t : List ℕ} → IsTrimmed cs (drop (front_count cs s) s) t → IsTrimmed cs s t
    behind {t} r = record {
      front = take (front_count cs s) s ++ r.front;
      back = r.back;
      whole =
          sym (take-append-drop (front_count cs s) s)
          ∙ ap (◌++◌ (take (front_count cs s) s)) r.whole
          ∙ sym (append_assoc (take (front_count cs s) s) r.front (t ++ r.back));
      front_in = AllIn-append cs (take (front_count cs s) s) r.front (front-AllIn cs s) r.front_in;
      back_in = r.back_in;
      ends_out = r.ends_out;
    }
