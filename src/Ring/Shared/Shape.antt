-- ===== src/Ring/Shared/Shape.antt =====
-- What a call of the shared ring is made of: an access is one byte on, or the last.
use ig_libs.Base.{
  ◌>>=◌, ℕ, suc, ◌+◌, ◌≤◌, ◌≡◌, ◌⊎◌, inl, inr, sym, ap, arith, Bool-cases, ltb, Option, none, some,
  List, [], ◌++◌, length, take,
}
use mathlib.Core.Option.{some-injective}
use ig_libs.Base.Words.{add64}
use ig_libs.Ring.{RingBuffer, load_bytes, store_bytes}
use ig_libs.Ring.Holds.{Holds, readable_lem, writable_lem}
use ig_libs.Ring.Shared.{
  Writer, Reader, idle, storing, loading, copy_place, write_start, write_next, read_start,
  read_next,
}

abbrev pub StoredOn : List ℕ → ℕ → ℕ → Writer → List ℕ → Type 0
StoredOn buffer len k w bytes =
    ((w ≡ storing buffer len (suc k)) × (bytes ≡ [])) ⊎ ((w ≡ idle) × (bytes ≡ take len buffer))

abbrev pub LoadedOn : ℕ → ℕ → List ℕ → Reader → List ℕ → Type 0
LoadedOn len k got d bytes =
    ((got' : List ℕ) × (d ≡ loading len (suc k) got') × (bytes ≡ []))
    ⊎ ((d ≡ idle) × (bytes ≡ got) × (len ≤ k))

abbrev on_stored :
    RingBuffer → List ℕ → ℕ → ℕ → Option (Option (List ℕ)) → Option (RingBuffer × Writer × List ℕ)
on_stored r buffer len k o = do
  stored ← o
  some (record r { m_buffer = stored }, storing buffer len (suc k), [])

abbrev on_byte :
    RingBuffer → List ℕ → ℕ → ℕ → Option (List ℕ) → Option (RingBuffer × Writer × List ℕ)
on_byte r buffer len k o = do
  byte ← o
  on_stored r buffer len k (store_bytes r.m_buffer (copy_place r r.m_in len k) byte)

abbrev on_loaded :
    RingBuffer → ℕ → ℕ → List ℕ → Option (List ℕ) → Option (RingBuffer × Reader × List ℕ)
on_loaded r len k got o = do byte ← o; some (r, loading len (suc k) (got ++ byte), [])

pub write_next-StoredOn :
    (r : RingBuffer) (buffer : List ℕ) (len k : ℕ) {r' : RingBuffer} {w : Writer} {bytes : List ℕ}
    → write_next r (storing buffer len k) ≡ some (r', w, bytes)
    → StoredOn buffer len k w bytes
unfolding write_next
write_next-StoredOn r buffer len k {r'} {w} {bytes} e = elim (Bool-cases (ltb k len)) [
  | inl more ↦ by_load (load_bytes (some buffer) k 1) (rw more at e)
  | inr done ↦
      let p =
        some-injective (record r { m_in = add64 r.m_in len }, idle, take len buffer) (r', w, bytes)
          (rw done at e) in
      inr (sym (ap (λ o. o.1) p), sym (ap (λ o. o.2) p))
]
  where
    by_store :
        (o : Option (Option (List ℕ)))
        → on_stored r buffer len k o ≡ some (r', w, bytes)
        → StoredOn buffer len k w bytes
    by_store none e = absurd (cc)
    by_store (some stored) e =
        let p =
          some-injective (record r { m_buffer = stored }, storing buffer len (suc k), [])
            (r', w, bytes) e in
        inl (sym (ap (λ o. o.1) p), sym (ap (λ o. o.2) p))

    by_load :
        (o : Option (List ℕ))
        → on_byte r buffer len k o ≡ some (r', w, bytes)
        → StoredOn buffer len k w bytes
    by_load none e = absurd (cc)
    by_load (some byte) e = by_store (store_bytes r.m_buffer (copy_place r r.m_in len k) byte) e

pub read_next-LoadedOn :
    (r : RingBuffer) (len k : ℕ) (got : List ℕ) {r' : RingBuffer} {d : Reader} {bytes : List ℕ}
    → read_next r (loading len k got) ≡ some (r', d, bytes)
    → LoadedOn len k got d bytes
unfolding read_next
read_next-LoadedOn r len k got {r'} {d} {bytes} e = elim (Bool-cases (ltb k len)) [
  | inl more ↦ by_load (load_bytes r.m_buffer (copy_place r r.m_out len k) 1) (rw more at e)
  | inr done ↦
      let p =
        some-injective (record r { m_out = add64 r.m_out len }, idle, got) (r', d, bytes)
          (rw done at e) in
      inr (sym (ap (λ o. o.1) p), sym (ap (λ o. o.2) p), ground arith)
]
  where
    by_load :
        (o : Option (List ℕ))
        → on_loaded r len k got o ≡ some (r', d, bytes)
        → LoadedOn len k got d bytes
    by_load none e = absurd (cc)
    by_load (some byte) e =
        let p = some-injective (r, loading len (suc k) (got ++ byte), []) (r', d, bytes) e in
        inl (got ++ byte, sym (ap (λ o. o.1) p), sym (ap (λ o. o.2) p))

-- A call that has room for all, or finds as many bytes as it wants, is for all of them.
pub write_start-all :
    {r : RingBuffer} {q : List ℕ} (buffer : List ℕ)
    → Holds r q
    → length buffer + length q ≤ r.m_size
    → write_start r buffer (length buffer) ≡ storing buffer (length buffer) 0
unfolding write_start
write_start-all buffer v room = ap (λ len. storing buffer len 0) (omega (arith, writable_lem v))

pub read_start-all :
    {r : RingBuffer} {q : List ℕ} (wanted : ℕ)
    → Holds r q
    → wanted ≤ length q
    → read_start r wanted ≡ loading wanted 0 []
unfolding read_start
read_start-all wanted v there = ap (λ len. loading len 0 []) (omega (arith, readable_lem v))
