-- ===== src/Ring/Shared/Places.antt =====
-- One byte stored in, or loaded from, a ring that holds `q`.
use native.Mathlib.Nat.{mod-lt}
use ig_libs.Base.{
  ℕ, suc, ◌+◌, ◌%◌, ◌≤◌, ◌<◌, ◌≡◌, refl, sym, ap, ap₂, ◌∙◌, ◌⊎◌, arith, List, ◌++◌, length, get_or,
  take, drop,
}
use ig_libs.Base.Tabulate.{tabulate_ext, tabulate-get_or, mod_step}
use ig_libs.Ring.{RingBuffer, blit}
use ig_libs.Ring.Window.{window, window-add, window-slice, get_or-blit_in, get_or-blit_out}
use ig_libs.Ring.Holds.{Holds, size_pos, offset_lem, to_end_lem}
use ig_libs.Ring.Shared.{copy_place}

-- Both copies put byte `k` at the counter's place `k` steps on.
pub copy_place_lem :
    {r : RingBuffer} {q : List ℕ} (v : Holds r q) (c len k : ℕ)
    → k < len
    → len ≤ r.m_size
    → copy_place r c len k ≡ (c + k) % r.m_size
unfolding copy_place
copy_place_lem {r} v c len k h fit =
    rw (offset_lem v c, to_end_lem v c)
      (ground (arith, mod-lt c (size_pos v), mod_step c k r.m_size (size_pos v)))

module _ (b : List ℕ) (n s k : ℕ) (byte : List ℕ) (p : 0 < n) (e : length b ≡ n)
    (one : length byte ≡ 1) where
  abbrev stored : List ℕ
  stored = blit b ((s + k) % n) byte

  -- Windows that end before the place stay.
  pub window-stored_out :
      (o u t : ℕ) → (s + k) % n ≡ (o + t) % n → u ≤ t → t < n → window stored n o u ≡ window b n o u
  window-stored_out o u t at before few =
      tabulate_ext u _ _ λ i h. get_or-blit_out b ((s + k) % n) byte ((o + i) % n) (apart i h)
    where
      apart :
          (i : ℕ) → i < u → ((o + i) % n < (s + k) % n) ⊎ ((s + k) % n + length byte ≤ (o + i) % n)
      apart i h =
          omega
            (arith, one, mod-lt o p, mod_step o i n p (omega arith), mod_step o t n p (omega arith))

  -- The window up to the place has the byte at its end.
  pub window-stored_next : k < n → window stored n s (suc k) ≡ window b n s k ++ byte
  window-stored_next h =
      ap (window stored n s) {x = suc k} {y = k + 1} (omega arith)
      ∙ window-add stored n s k 1
      ∙ ap₂ ◌++◌ (window-stored_out s k k refl (omega arith) h) last
    where
      last : window stored n (s + k) 1 ≡ byte
      last =
          ap (window stored n (s + k)) (sym one)
          ∙ tabulate_ext (length byte) _ _ (λ i j.
            ap (λ x. get_or stored x 0) (place i j)
            ∙ get_or-blit_in b ((s + k) % n) byte i j (omega (arith, one, e, mod-lt (s + k) p)))
          ∙ tabulate-get_or byte 0
        where
          place : (i : ℕ) → i < length byte → (s + k + i) % n ≡ (s + k) % n + i
          place i j =
              ap (λ c. c % n) {x = s + k + i} {y = s + k} (omega (arith, one)) ∙ omega (arith, one)

-- The byte loaded at the place is the next one of the window.
pub window-loaded_next :
    (b : List ℕ) (n s k : ℕ)
    → 0 < n
    → length b ≡ n
    → window b n s (suc k) ≡ window b n s k ++ take 1 (drop ((s + k) % n) b)
window-loaded_next b n s k p e =
    ap (window b n s) {x = suc k} {y = k + 1} (omega arith)
    ∙ window-add b n s k 1
    ∙ ap (◌++◌ (window b n s k))
        (sym (window-slice b n (s + k) 1 p e (omega (arith, mod-lt (s + k) p))))
