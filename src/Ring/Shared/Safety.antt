-- ===== src/Ring/Shared/Safety.antt =====
-- What is handed over is what was published, in its order, under every interleaving.
use ig_libs.Base.{
  ℕ, ◌≤◌, ◌≡◌, ◌≢◌, refl, sym, ap, subst, ◌∙◌, arith, append_assoc, none, List, [], ◌++◌, length,
  length-append,
}
use ig_libs.Base.Tabulate.{take-append}
use mathlib.Core.Option.{some-injective}
use ig_libs.Ring.{RingBuffer}
use ig_libs.Ring.Holds.{Holds}
use ig_libs.Ring.Shared.{
  Writer, Reader, idle, storing, loading, write_next, read_next, System, Step, call_write,
  move_writer, call_read, move_reader, Reach, start, later,
}
use ig_libs.Ring.Shared.Invariant.{Writing, Reading, write_start-Writing, read_start-Reading}
use ig_libs.Ring.Shared.Moves.{write_next-Writing, read_next-Reading}

pub record Inv (size : ℕ) (s : System) : Type 0 where
  pub queue : List ℕ
  pub holds : Holds s.ring queue
  pub kept : s.ring.m_size ≡ size
  pub history : s.sent ≡ s.received ++ queue
  pub writing : Writing s.ring queue holds s.writer
  pub reading : Reading queue s.reader

-- The front of the queue stays its front when more is published.
Reading-append : (q bytes : List ℕ) (d : Reader) → Reading q d → Reading (q ++ bytes) d
Reading-append q bytes idle h = tt
Reading-append q bytes (loading len k got) (kl, lq, front) =
    (kl, omega (arith, length-append q bytes), front ∙ sym (take-append q bytes k (omega arith)))

-- Bytes that leave the queue take nothing from the writer's room.
Writing-released :
    {r r' : RingBuffer} {q q' : List ℕ} (v : Holds r q) (v' : Holds r' q') (w : Writer)
    → v'.storage ≡ v.storage
    → r'.m_size ≡ r.m_size
    → r'.m_in ≡ r.m_in
    → length q' ≤ length q
    → Writing r q v w
    → Writing r' q' v' w
Writing-released v v' idle st size at less h = tt
Writing-released {r} {r'} v v' (storing buffer len k) st size at less (kl, lb, room, there) =
    (kl, lb, omega arith, rw (st, size, at) there)

pub Step-Inv : {size : ℕ} {s t : System} → Inv size s → Step s t → Inv size t
Step-Inv i (call_write buffer wanted e h) = record {
  queue = i.queue;
  holds = i.holds;
  kept = i.kept;
  history = i.history;
  writing = write_start-Writing i.holds buffer wanted h;
  reading = i.reading;
}
Step-Inv {size} {s} i (move_writer e) =
    let (r', w', bytes, e', left, (q', qe, (v', same, wr))) =
      write_next-Writing i.holds s.writer i.writing in
    subst (λ o. Inv size (record s { ring = o.0; writer = o.1; sent = s.sent ++ o.2 }))
      (some-injective (r', w', bytes) _ (sym e' ∙ e))
      (record {
        queue = q';
        holds = v';
        kept = same ∙ i.kept;
        history =
            ap (λ xs. xs ++ bytes) i.history
            ∙ append_assoc s.received i.queue bytes
            ∙ ap (◌++◌ s.received) (sym qe);
        writing = wr;
        reading =
            subst (λ q. Reading q s.reader) (sym qe)
              (Reading-append i.queue bytes s.reader i.reading);
      })
Step-Inv i (call_read wanted e) = record {
  queue = i.queue;
  holds = i.holds;
  kept = i.kept;
  history = i.history;
  writing = i.writing;
  reading = read_start-Reading i.holds wanted;
}
Step-Inv {size} {s} i (move_reader e) =
    let (r', d', bytes, e', left, (q', qe, (v', st, same, at, rd))) =
      read_next-Reading i.holds s.reader i.reading in
    subst (λ o. Inv size (record s { ring = o.0; reader = o.1; received = s.received ++ o.2 }))
      (some-injective (r', d', bytes) _ (sym e' ∙ e))
      (record {
        queue = q';
        holds = v';
        kept = same ∙ i.kept;
        history = i.history ∙ ap (◌++◌ s.received) qe ∙ sym (append_assoc s.received bytes q');
        writing =
            Writing-released i.holds v' s.writer st same at
              (omega (arith, ap length qe, length-append bytes q')) i.writing;
        reading = rd;
      })

pub Reach-Inv : {r : RingBuffer} {s : System} → Holds r [] → Reach r s → Inv r.m_size s
Reach-Inv v start = record {
  queue = [];
  holds = v;
  kept = refl;
  history = refl;
  writing = tt;
  reading = tt;
}
Reach-Inv v (later reach step) = Step-Inv (Reach-Inv v reach) step

-- On a ring that starts empty, with one writer and one reader whose accesses come in any order, at
-- any point between two accesses: the bytes published are those handed over followed by no more than the ring's size of
-- others, so nothing is lost, doubled, torn or put out of order; the ring holds exactly those others; and
-- neither thread's next access is a fault.
pub shared_ring_safe :
    {r : RingBuffer} {s : System}
    → Holds r []
    → Reach r s
    → (q : List ℕ) × (s.sent ≡ s.received ++ q)
      × (length q ≤ r.m_size)
      × Holds s.ring q
      × (write_next s.ring s.writer ≢ none)
      × (read_next s.ring s.reader ≢ none)
shared_ring_safe {r} {s} v reach =
    let i = Reach-Inv v reach in
    let (r', w', b', e', l', _) = write_next-Writing i.holds s.writer i.writing in
    let (r'', d', b'', e'', l'', _) = read_next-Reading i.holds s.reader i.reading in
    (i.queue, i.history, omega (arith, i.holds.fits, i.kept), i.holds, (λ n. cc), (λ n. cc))
