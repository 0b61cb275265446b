-- ===== src/Ring/Write.antt =====
-- RingBuffer::ring_buffer_write against the queue that the ring stands for.
use native.Mathlib.Nat.{mod-lt}
use ig_libs.Base.{
  ℕ, ◌+◌, ◌-◌, ◌%◌, ◌≤◌, min, ◌≡◌, refl, sym, ap, ap₂, ◌∙◌, arith, some, List, length, ◌++◌, take,
  drop, length-take, length-append,
}
use ig_libs.Base.Tabulate.{take-take, drop-take}
use ig_libs.Base.Words.{add64}
use ig_libs.Ring.{RingBuffer, blit, ring_buffer_write}
use ig_libs.Ring.Window.{window, window-add, window-start, length-blit}
use ig_libs.Ring.Written.{written, window-written, window-kept}
use ig_libs.Ring.Memory.{load_bytes_lem, store_bytes_lem}
use ig_libs.Ring.Holds.{Holds, size_pos, writable_lem, offset_lem, to_end_lem, same_place}

module _ {r : RingBuffer} {q : List ℕ} (src : List ℕ) (wanted : ℕ) (v : Holds r q)
    (enough : wanted ≤ length src) where
  open v use {storage, held, sized, used, fits, out_small, bytes, width, pow, narrow}

  abbrev len : ℕ
  len = min wanted (r.m_size - length q)

  abbrev off : ℕ
  off = r.m_in % r.m_size

  abbrev l : ℕ
  l = min len (r.m_size - off)

  abbrev after_write : RingBuffer
  after_write = record r {
    m_buffer = some (written storage r.m_size r.m_in (take len src));
    m_in = add64 r.m_in len;
  }

  length-sent : length (take len src) ≡ len
  length-sent = omega (arith, length-take len src)

  -- The two copies of the code are the two parts of `written`.
  two_parts :
      blit (blit storage off (take l src)) 0 (take (len - l) (drop l src))
      ≡ written storage r.m_size r.m_in (take len src)
  two_parts = rw length-sent (
      ap₂ (λ xs ys. blit (blit storage off xs) 0 ys) (sym (take-take l len src (omega arith)))
        (ap (take (len - l)) refl ∙ second))
    where
      second : take (len - l) (drop l src) ≡ take (len - l) (drop l (take len src))
      second = sym (
          ap (take (len - l)) (drop-take l len src)
          ∙ take-take (len - l) (len - l) (drop l src) (omega arith))

  ring_buffer_write_run : ring_buffer_write r src wanted ≡ some (len, after_write)
  unfolding ring_buffer_write
  ring_buffer_write_run =
      rw
        (
          writable_lem v,
          offset_lem v r.m_in,
          to_end_lem v r.m_in,
          held,
          load_bytes_lem src 0 l (omega arith),
          store_bytes_lem storage off (take l src)
              (omega (arith, length-take l src, sized, mod-lt r.m_in (size_pos v))),
          load_bytes_lem src l (len - l) (omega arith),
          store_bytes_lem (blit storage off (take l src)) 0 (take (len - l) (drop l src)) room,
        )
        (ap (λ b. some (len, record r { m_buffer = some b; m_in = add64 r.m_in len })) two_parts)
    where
      room : 0 + length (take (len - l) (drop l src)) ≤ length (blit storage off (take l src))
      room =
          omega
            (arith, length-take (len - l) (drop l src), length-blit storage off (take l src), sized)

  abbrev stored : List ℕ
  stored = written storage r.m_size r.m_in (take len src)

  stored-window : window stored r.m_size r.m_out (length (q ++ take len src)) ≡ q ++ take len src
  stored-window =
      ap (window stored r.m_size r.m_out) (length-append q (take len src))
      ∙ window-add stored r.m_size r.m_out (length q) (length (take len src))
      ∙ ap₂ ◌++◌
          (window-kept storage r.m_size r.m_in (take len src) (size_pos v) sized short r.m_out
              (length q) (same_place v) (omega (arith, length-sent, fits))
            ∙ bytes)
          (window-start stored r.m_size (r.m_out + length q) r.m_in (length (take len src))
              (sym (same_place v))
            ∙ window-written storage r.m_size r.m_in (take len src) (size_pos v) sized short)
    where
      short : length (take len src) ≤ r.m_size
      short = omega (arith, length-sent)

  after_write-Holds : Holds after_write (q ++ take len src)
  unfolding add64
  after_write-Holds = record {
    storage = stored;
    held = refl;
    sized = length-blit (blit storage off _) 0 _ ∙ length-blit storage off _ ∙ sized;
    width = width;
    pow = pow;
    narrow = narrow;
    out_small = out_small;
    used = omega (arith, used, out_small, length-append q (take len src), length-sent);
    fits = omega (arith, fits, length-append q (take len src), length-sent);
    bytes = stored-window;
  }

  -- A ring that holds `q` takes the first `len` bytes of the caller's buffer, `len` being the
  -- smaller of the wanted count and the free space; it returns `len`, faults nowhere, keeps its size and holds `q`
  -- followed by those bytes, also where the storage or the 64-bit counters wrap. The caller's
  -- buffer has the wanted count of bytes.
  pub ring_buffer_write_refines :
      (r' : RingBuffer) × (ring_buffer_write r src wanted
        ≡ some (min wanted (r.m_size - length q), r'))
      × Holds r' (q ++ take (min wanted (r.m_size - length q)) src)
      × (r'.m_size ≡ r.m_size)
  ring_buffer_write_refines = (after_write, ring_buffer_write_run, after_write-Holds, refl)
