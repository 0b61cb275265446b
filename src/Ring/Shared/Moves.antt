-- ===== src/Ring/Shared/Moves.antt =====
-- Each access of the writer and of the reader keeps what holds between accesses.
use native.Mathlib.Nat.{mod-lt}
use ig_libs.Base.{
  ℕ, suc, ◌+◌, ◌-◌, ◌%◌, ◌<◌, ◌≡◌, refl, sym, ap, subst, ◌∙◌, inl, inr, arith, append-nil, Option,
  some, List, [], ◌++◌, length, take, drop, take-append-drop, length-take, length-drop, ltb→lt,
  Bool-cases, ltb,
}
use ig_libs.Base.Tabulate.{take-add}
use ig_libs.Base.Words.{add64}
use ig_libs.Ring.{RingBuffer, blit, load_bytes}
use ig_libs.Ring.Window.{window}
use ig_libs.Ring.Memory.{load_bytes_lem, store_bytes_lem}
use ig_libs.Ring.Holds.{Holds, size_pos}
use ig_libs.Ring.Shared.{Writer, Reader, idle, storing, loading, write_next, read_next}
use ig_libs.Ring.Shared.Places.{copy_place_lem, window-stored_next}
use ig_libs.Ring.Shared.Invariant.{
  Writing, Reading, store-Holds, publish-Holds, release-Holds, take_next,
}

-- The accesses that a call has yet to make.
abbrev pub writes_left : Writer → ℕ
writes_left idle = 0
writes_left (storing buffer len k) = suc (len - k)

abbrev pub reads_left : Reader → ℕ
reads_left idle = 0
reads_left (loading len k got) = suc (len - k)

-- One access of the writer: no fault; what it publishes goes behind `q`; its own facts hold again.
abbrev pub WriterMoved :
    RingBuffer → List ℕ → Writer → Option (RingBuffer × Writer × List ℕ) → Type 0
WriterMoved r q w out =
    (r' : RingBuffer) × (w' : Writer) × (bytes : List ℕ) × (out ≡ some (r', w', bytes))
    × (writes_left w' ≡ writes_left w - 1)
    × ((q' : List ℕ) × (q' ≡ q ++ bytes)
        × ((v' : Holds r' q') × (r'.m_size ≡ r.m_size) × Writing r' q' v' w'))

-- One access of the reader: no fault; what it hands over was the front of `q`; the storage and the writer's counter stay.
abbrev pub ReaderMoved :
    (r : RingBuffer) (q : List ℕ)
    → Holds r q
    → Reader
    → Option (RingBuffer × Reader × List ℕ)
    → Type 0
ReaderMoved r q v d out =
    (r' : RingBuffer) × (d' : Reader) × (bytes : List ℕ) × (out ≡ some (r', d', bytes))
    × (reads_left d' ≡ reads_left d - 1)
    × ((q' : List ℕ) × (q ≡ bytes ++ q')
        × ((v' : Holds r' q') × (v'.storage ≡ v.storage)
            × (r'.m_size ≡ r.m_size)
            × (r'.m_in ≡ r.m_in)
            × Reading q' d'))

pub write_next-Writing :
    {r : RingBuffer} {q : List ℕ} (v : Holds r q) (w : Writer)
    → Writing r q v w
    → WriterMoved r q w (write_next r w)
unfolding write_next store-Holds
write_next-Writing {r} {q} v idle h =
    (r, idle, [], refl, omega arith, (q, sym (append-nil q), (v, refl, tt)))
write_next-Writing {r} {q} v (storing buffer len k) (kl, lb, room, there) =
    elim (Bool-cases (ltb k len)) [
      | inl more ↦
          let lt : k < len = ltb→lt k len more in
          let byte = take 1 (drop k buffer) in
          let one : length byte ≡ 1 =
            omega (arith, length-take 1 (drop k buffer), length-drop k buffer) in
          let in_store : (r.m_in + k) % r.m_size < r.m_size = mod-lt (r.m_in + k) (size_pos v) in
          let spot = (r.m_in + k) % r.m_size in
          rw
            (
              more,
              load_bytes_lem buffer k 1 (omega arith),
              copy_place_lem v r.m_in len k lt (omega arith),
              v.held,
              store_bytes_lem v.storage spot byte (omega (arith, one, v.sized, in_store)),
            )
            (
              record r { m_buffer = some (blit v.storage spot byte) },
              storing buffer len (suc k),
              [],
              refl,
              omega arith,
              (
                q,
                sym (append-nil q),
                (
                  store-Holds v k byte one (omega arith),
                  refl,
                  (
                    omega arith,
                    lb,
                    room,
                    window-stored_next v.storage r.m_size r.m_in k byte (size_pos v) v.sized one
                          (omega arith)
                        ∙ ap (λ xs. xs ++ byte) there
                        ∙ sym (take-add k 1 buffer)
                        ∙ ap (λ n. take n buffer) {x = k + 1} {y = suc k} (omega arith),
                  ),
                ),
              ),
            )
      | inr done ↦
          let all : k ≡ len = ground (arith, kl) in
          let sent = take len buffer in
          let size : length sent ≡ len = omega (arith, length-take len buffer) in
          rw done (
            record r { m_in = add64 r.m_in len },
            idle,
            sent,
            refl,
            omega arith,
            (
              q ++ sent,
              refl,
              (
                subst (λ n. Holds (record r { m_in = add64 r.m_in n }) (q ++ sent)) size
                    (publish-Holds v sent (omega (arith, size)) (
                      ap (window v.storage r.m_size r.m_in) (size ∙ sym all)
                      ∙ there
                      ∙ ap (λ n. take n buffer) all)),
                refl,
                tt,
              ),
            ),
          )
    ]

pub read_next-Reading :
    {r : RingBuffer} {q : List ℕ} (v : Holds r q) (d : Reader)
    → Reading q d
    → ReaderMoved r q v d (read_next r d)
unfolding read_next release-Holds
read_next-Reading {r} {q} v idle h =
    (r, idle, [], refl, omega arith, (q, refl, (v, refl, refl, refl, tt)))
read_next-Reading {r} {q} v (loading len k got) (kl, lq, front) = elim (Bool-cases (ltb k len)) [
  | inl more ↦
      let lt : k < len = ltb→lt k len more in
      let spot = (r.m_out + k) % r.m_size in
      let byte = take 1 (drop spot v.storage) in
      let loaded : load_bytes r.m_buffer spot 1 ≡ some byte =
        ap (λ m. load_bytes m spot 1) v.held
        ∙ load_bytes_lem v.storage spot 1
            (omega (arith, v.sized, mod-lt (r.m_out + k) (size_pos v))) in
      rw (more, copy_place_lem v r.m_out len k lt (omega (arith, v.fits)), loaded)
        (
          r,
          loading len (suc k) (got ++ byte),
          [],
          refl,
          omega arith,
          (
            q,
            refl,
            (
              v,
              refl,
              refl,
              refl,
              (omega arith, lq, ap (λ xs. xs ++ byte) front ∙ take_next v k (omega arith)),
            ),
          ),
        )
  | inr done ↦
      let all : k ≡ len = ground (arith, kl) in
      rw done (
        record r { m_out = add64 r.m_out len },
        idle,
        got,
        refl,
        omega arith,
        (
          drop len q,
          sym (take-append-drop len q)
              ∙ ap (λ xs. xs ++ drop len q) (ap (λ n. take n q) (sym all) ∙ sym front),
          (release-Holds v len lq, refl, refl, refl, tt),
        ),
      )
]
