-- ===== src/Ring/Shared/Invariant.antt =====
-- What holds between any two accesses, and that each access keeps it.
use native.Mathlib.Nat.{mod-add-mod}
use ig_libs.Base.{
  ℕ, suc, ◌+◌, ◌%◌, ◌≤◌, ◌<◌, min, ◌≡◌, refl, sym, ap, ap₂, subst, ◌∙◌, arith, some, List, ◌++◌,
  length, take, drop, length-append, length-drop,
}
use ig_libs.Base.Tabulate.{tabulate}
use ig_libs.Base.Words.{add64}
use ig_libs.Ring.{RingBuffer, blit}
use ig_libs.Ring.Window.{window, window-add, window-start, length-blit}
use ig_libs.Ring.Read.{front_lem, window-after_read}
use ig_libs.Ring.Holds.{Holds, size_pos, readable_lem, writable_lem, same_place}
use ig_libs.Ring.Shared.{Writer, Reader, idle, storing, loading, write_start, read_start}
use ig_libs.Ring.Shared.Places.{window-stored_out, window-loaded_next}

-- What the writer has copied stands behind `q`, in free space.
abbrev pub Writing : (r : RingBuffer) (q : List ℕ) → Holds r q → Writer → Type 0
Writing r q v idle = Unit {0}
Writing r q v (storing buffer len k) =
    (k ≤ len)
    × (len ≤ length buffer)
    × (len + length q ≤ r.m_size)
    × (window v.storage r.m_size r.m_in k ≡ take k buffer)

-- What the reader has copied is the front of `q`.
abbrev pub Reading : List ℕ → Reader → Type 0
Reading q idle = Unit {0}
Reading q (loading len k got) = (k ≤ len) × (len ≤ length q) × (got ≡ take k q)

module _ {r : RingBuffer} {q : List ℕ} (v : Holds r q) where
  open v use {storage, held, sized, used, fits, out_small, bytes, width, pow, narrow}

  pub write_start-Writing :
      (buffer : List ℕ) (wanted : ℕ)
      → wanted ≤ length buffer
      → Writing r q v (write_start r buffer wanted)
  unfolding write_start tabulate
  write_start-Writing buffer wanted h =
      (omega arith, omega arith, omega (arith, writable_lem v, fits), refl)

  pub read_start-Reading : (wanted : ℕ) → Reading q (read_start r wanted)
  unfolding read_start
  read_start-Reading wanted = (omega arith, omega (arith, readable_lem v), refl)

  -- The ring after a byte was stored in its free space.
  unfoldable pub store-Holds :
      (k : ℕ) (byte : List ℕ)
      → length byte ≡ 1
      → k + length q < r.m_size
      → Holds (record r { m_buffer = some (blit storage ((r.m_in + k) % r.m_size) byte) }) q
  store-Holds k byte one room = record {
    storage = blit storage ((r.m_in + k) % r.m_size) byte;
    held = refl;
    sized = length-blit storage ((r.m_in + k) % r.m_size) byte ∙ sized;
    width = width;
    pow = pow;
    narrow = narrow;
    out_small = out_small;
    used = used;
    fits = fits;
    bytes =
        window-stored_out storage r.m_size r.m_in k byte (size_pos v) sized one r.m_out (length q)
          (length q + k) ahead (omega arith) (omega arith)
        ∙ bytes;
  }
    where
      ahead : (r.m_in + k) % r.m_size ≡ (r.m_out + (length q + k)) % r.m_size
      ahead =
          sym (mod-add-mod r.m_in r.m_size k)
          ∙ ap (λ c. (c + k) % r.m_size) (same_place v)
          ∙ mod-add-mod (r.m_out + length q) r.m_size k
          ∙ ap (λ c. c % r.m_size) (omega arith)

  -- The ring after the writer has moved `m_in`.
  pub publish-Holds :
      (sent : List ℕ)
      → length sent + length q ≤ r.m_size
      → window storage r.m_size r.m_in (length sent) ≡ sent
      → Holds (record r { m_in = add64 r.m_in (length sent) }) (q ++ sent)
  unfolding add64
  publish-Holds sent room there = record {
    storage = storage;
    held = held;
    sized = sized;
    width = width;
    pow = pow;
    narrow = narrow;
    out_small = out_small;
    used = omega (arith, used, out_small, length-append q sent);
    fits = omega (arith, length-append q sent);
    bytes =
        ap (window storage r.m_size r.m_out) (length-append q sent)
        ∙ window-add storage r.m_size r.m_out (length q) (length sent)
        ∙ ap₂ ◌++◌ bytes (
            window-start storage r.m_size (r.m_out + length q) r.m_in (length sent)
              (sym (same_place v))
            ∙ there);
  }

  -- The ring after the reader has moved `m_out`.
  unfoldable pub release-Holds :
      (len : ℕ) → len ≤ length q → Holds (record r { m_out = add64 r.m_out len }) (drop len q)
  unfolding add64
  release-Holds len h = record {
    storage = storage;
    held = held;
    sized = sized;
    width = width;
    pow = pow;
    narrow = narrow;
    out_small = omega arith;
    used = omega (arith, used, out_small, length-drop len q);
    fits = omega (arith, fits, length-drop len q);
    bytes =
        subst (λ n. window storage r.m_size (add64 r.m_out n) (length (drop n q)) ≡ drop n q)
          {x = min len (length q)} (omega arith) (window-after_read len v);
  }

  window-take : (k : ℕ) → k ≤ length q → window storage r.m_size r.m_out k ≡ take k q
  window-take k h =
      subst (λ n. window storage r.m_size r.m_out n ≡ take n q) {x = min k (length q)} (omega arith)
        (front_lem k v)

  pub take_next :
      (k : ℕ)
      → suc k ≤ length q
      → take k q ++ take 1 (drop ((r.m_out + k) % r.m_size) storage) ≡ take (suc k) q
  take_next k h =
      ap (λ xs. xs ++ take 1 (drop ((r.m_out + k) % r.m_size) storage))
        (sym (window-take k (omega arith)))
      ∙ sym (window-loaded_next storage r.m_size r.m_out k (size_pos v) sized)
      ∙ window-take (suc k) h
