-- ===== src/Ring/Read.antt =====
-- RingBuffer::ring_buffer_read against the queue that the ring stands for.
use native.Mathlib.Nat.{mod-lt}
use ig_libs.Base.{
  ℕ, ◌+◌, ◌-◌, ◌%◌, min, ◌≡◌, refl, sym, ap, ◌∙◌, arith, some, List, length, get_or, ◌++◌, take,
  drop, length-drop,
}
use ig_libs.Base.Tabulate.{take-append_self, drop-append_self, length-tabulate}
use ig_libs.Base.Words.{add64}
use ig_libs.Ring.{RingBuffer, ring_buffer_read}
use ig_libs.Ring.Window.{window, window-add, window-start, window-read}
use ig_libs.Ring.Memory.{load_bytes_lem}
use ig_libs.Ring.Holds.{Holds, size_pos, readable_lem, offset_lem, to_end_lem, wrap-mod}

module _ {r : RingBuffer} {q : List ℕ} (wanted : ℕ) (v : Holds r q) where
  open v use {storage, held, sized, used, fits, out_small, bytes, width, pow, narrow}

  abbrev len : ℕ
  len = min wanted (length q)

  abbrev off : ℕ
  off = r.m_out % r.m_size

  abbrev l : ℕ
  l = min len (r.m_size - off)

  abbrev after_read : RingBuffer
  after_read = record r { m_out = add64 r.m_out len }

  abbrev front : List ℕ
  front = window storage r.m_size r.m_out len

  abbrev back : List ℕ
  back = window storage r.m_size (r.m_out + len) (length q - len)

  -- The bytes that are read and those that stay make up the queue.
  front-append-back : front ++ back ≡ q
  front-append-back =
      sym (window-add storage r.m_size r.m_out len (length q - len))
      ∙ ap (window storage r.m_size r.m_out) (omega arith)
      ∙ bytes

  length-front : length front ≡ len
  length-front = length-tabulate len (λ i. get_or storage ((r.m_out + i) % r.m_size) 0)

  pub front_lem : front ≡ take len q
  front_lem =
      sym (take-append_self front back)
      ∙ ap (λ n. take n (front ++ back)) length-front
      ∙ ap (take len) front-append-back

  back_lem : back ≡ drop len q
  back_lem =
      sym (drop-append_self front back)
      ∙ ap (λ n. drop n (front ++ back)) length-front
      ∙ ap (drop len) front-append-back

  ring_buffer_read_run : ring_buffer_read r wanted ≡ some (len, take len q, after_read)
  unfolding ring_buffer_read
  ring_buffer_read_run =
      rw
        (
          readable_lem v,
          offset_lem v r.m_out,
          to_end_lem v r.m_out,
          held,
          load_bytes_lem storage off l (omega (arith, sized, mod-lt r.m_out (size_pos v))),
          load_bytes_lem storage 0 (len - l) (omega (arith, sized, fits)),
        )
        (ap (λ bs. some (len, bs, record after_read { m_buffer = some storage }))
          (window-read storage r.m_size r.m_out len (size_pos v) sized (omega (arith, fits))
            ∙ front_lem))

  pub window-after_read :
      window storage r.m_size (add64 r.m_out len) (length (drop len q)) ≡ drop len q
  unfolding add64
  window-after_read =
      ap (window storage r.m_size (add64 r.m_out len)) (length-drop len q)
      ∙ window-start storage r.m_size (add64 r.m_out len) (r.m_out + len) (length q - len)
          (wrap-mod v (r.m_out + len))
      ∙ back_lem

  after_read-Holds : Holds after_read (drop len q)
  unfolding add64
  after_read-Holds = record {
    storage = storage;
    held = held;
    sized = sized;
    width = width;
    pow = pow;
    narrow = narrow;
    out_small = omega arith;
    used = omega (arith, used, out_small, length-drop len q);
    fits = omega (arith, fits, length-drop len q);
    bytes = window-after_read;
  }

  -- A ring that holds `q` gives its oldest `len` bytes, `len` being the smaller of the wanted
  -- count and the bytes held; it returns `len`, faults nowhere, keeps its size and holds the rest of `q`, also
  -- where the storage or the 64-bit counters wrap.
  pub ring_buffer_read_refines :
      (r' : RingBuffer) × (ring_buffer_read r wanted
        ≡ some (min wanted (length q), take (min wanted (length q)) q, r'))
      × Holds r' (drop (min wanted (length q)) q)
      × (r'.m_size ≡ r.m_size)
  ring_buffer_read_refines = (after_read, ring_buffer_read_run, after_read-Holds, refl)
