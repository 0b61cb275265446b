-- ===== src/Files/Makedir.antt =====
-- makedir: which directories are there behind it, given what mkdir promises.
use mathlib.Core.List.{append_assoc}
use ig_libs.Base.{
  ℕ, zero, suc, ◌≤◌, ◌<◌, ◌≡◌, ◌≢◌, ◌⊎◌, refl, inl, inr, sym, ap, arith, subst, Bool, true, false,
  List, [], ◌∷◌, ◌++◌, append-nil, length, take,
}
use ig_libs.Text.{split, same_text}
use ig_libs.Files.{Answer, made, exists, refused, made_or_not, make_all, from_first, makedir}

-- A "/" before each name.
pub joined : List (List ℕ) → List ℕ
joined [] = []
joined (name ∷ names) = (47 ∷ name) ++ joined names

-- The root, the directory that the process is in, or the one above it.
abbrev pub IsStart : List ℕ → Type 0
IsStart dir = (dir ≡ []) ⊎ (dir ≡ 46 ∷ []) ⊎ (dir ≡ 46 ∷ 46 ∷ [])

-- What mkdir promises: if it does not refuse, the path is there, and it takes nothing away.
pub record MkdirLaws {W : Type 0} (mkdir : W → List ℕ → Answer × W) (Exists : W → List ℕ → Type 0)
    : Type 0 where
  pub there : (w : W) (path : List ℕ) → (mkdir w path).0 ≢ refused → Exists (mkdir w path).1 path
  pub stays : (w : W) (path other : List ℕ) → Exists w other → Exists (mkdir w path).1 other

module _ {W : Type 0} (mkdir : W → List ℕ → Answer × W) (Exists : W → List ℕ → Type 0)
    (laws : MkdirLaws mkdir Exists) where
  -- Nothing is taken away, success has made every directory, and only a refusal is a failure.
  record Makes (dir : List ℕ) (names : List (List ℕ)) (w : W) (out : Bool × W) : Type 0 where
    kept : (other : List ℕ) → Exists w other → Exists out.1 other
    all_made :
        out.0 ≡ true
        → (k : ℕ) → 0 < k
        → k ≤ length names
        → Exists out.1 (dir ++ joined (take k names))
    failed : out.0 ≡ false → (v : W) × (path : List ℕ) × ((mkdir v path).0 ≡ refused)

  make_all-Makes :
      (names : List (List ℕ)) (dir : List ℕ) (w : W)
      → Makes dir names w (make_all mkdir dir names w)
  unfolding make_all joined
  make_all-Makes [] dir w = record {
    kept = λ other h. h;
    all_made = λ e k low high. absurd (omega arith);
    failed = λ e. cc;
  }
  make_all-Makes (name ∷ names) dir w =
      by (mkdir w (dir ++ (47 ∷ name))).0 (mkdir w (dir ++ (47 ∷ name))).1 refl refl
        (make_all-Makes names (dir ++ (47 ∷ name)))
    where
      dir' : List ℕ
      dir' = dir ++ (47 ∷ name)

      went_on :
          (w' : W)
          → (mkdir w dir').1 ≡ w'
          → (mkdir w dir').0 ≢ refused
          → Makes dir' names w' (make_all mkdir dir' names w')
          → Makes dir (name ∷ names) w (make_all mkdir dir' names w')
      went_on w' e ok m = record {
        kept = λ other h. m.kept other (subst (λ x. Exists x other) e (laws.stays w dir' other h));
        all_made = first_or_later;
        failed = m.failed;
      }
        where
          first_or_later :
              (make_all mkdir dir' names w').0 ≡ true
              → (k : ℕ) → 0 < k
              → k ≤ length (name ∷ names)
              → Exists (make_all mkdir dir' names w').1 (dir ++ joined (take k (name ∷ names)))
          first_or_later done zero low high = absurd (omega arith)
          first_or_later done (suc zero) low high =
              subst (Exists (make_all mkdir dir' names w').1)
                (ap (◌++◌ dir) (sym (append-nil (47 ∷ name))))
                (m.kept dir' (subst (λ x. Exists x dir') e (laws.there w dir' ok)))
          first_or_later done (suc (suc k)) low high =
              subst (Exists (make_all mkdir dir' names w').1)
                (append_assoc dir (47 ∷ name) (joined (take (suc k) names)))
                (m.all_made done (suc k) (omega arith) (omega arith))

      by :
          (a : Answer) (w' : W)
          → (mkdir w dir').0 ≡ a
          → (mkdir w dir').1 ≡ w'
          → ((w' : W) → Makes dir' names w' (make_all mkdir dir' names w'))
          → Makes dir (name ∷ names) w (made_or_not mkdir (make_all mkdir dir' names) (a, w'))
      by made w' a e ih = went_on w' e (λ r. cc) (ih w')
      by exists w' a e ih = went_on w' e (λ r. cc) (ih w')
      by refused w' a e ih = record {
        kept = λ other h. subst (λ x. Exists x other) e (laws.stays w dir' other h);
        all_made = λ e. cc;
        failed = λ f. (w, dir', a);
      }

  from_first_start :
      (start : List ℕ) (names : List (List ℕ)) (w : W)
      → IsStart start
      → from_first mkdir (start ∷ names) w ≡ make_all mkdir start names w
  unfolding same_text
  from_first_start start names w (inl e) = rw e refl
  from_first_start start names w (inr (inl e)) = rw e refl
  from_first_start start names w (inr (inr e)) = rw e refl

  -- Let mkdir keep what it promises, and let split cut a path into "", "." or ".." and then some names. If makedir
  -- returns true, the directory of the first names is there for any number of them. It returns false only
  -- if mkdir refuses some path, for another reason than that it is there.
  pub makedir_makes :
      (path start : List ℕ) (names : List (List ℕ)) (w : W)
      → split path 47 ≡ start ∷ names
      → IsStart start
      → (out : Bool × W) × (makedir mkdir path w ≡ out)
        × (out.0 ≡ true
            → (k : ℕ) → 0 < k
            → k ≤ length names
            → Exists out.1 (start ++ joined (take k names)))
        × (out.0 ≡ false → (v : W) × (p : List ℕ) × ((mkdir v p).0 ≡ refused))
  unfolding makedir
  makedir_makes path start names w e s =
      let m = make_all-Makes names start w in
      (make_all mkdir start names w, rw e (from_first_start start names w s), m.all_made, m.failed)
