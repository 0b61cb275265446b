-- ===== src/Queue/Threads/Safety.antt =====
-- The two threads together.
use ig_libs.Base.{
  ℕ, ◌≤◌, ◌≡◌, ◌≢◌, refl, sym, ap, subst, ◌∙◌, arith, none, List, [], ◌++◌, length, length-append,
}
use ig_libs.Ring.Holds.{Holds}
use ig_libs.Ring.Shared.{write_next, read_next, call_write, move_writer, call_read, move_reader}
use ig_libs.Ring.Shared.Safety.{Step-Inv}
use ig_libs.Ring.Shared.Moves.{write_next-Writing, read_next-Reading}
use ig_libs.Queue.{SharedQueue, get_size}
use ig_libs.Queue.Threads.{
  Putter, Taker, resting, tested, putting, ringing, getting, clearing, Pair, seen, Step,
  write_calls, write_enters, write_moves, rings, read_calls, read_enters, read_moves, clears, Reach,
  start, later,
}
use ig_libs.Queue.Threads.Whole.{
  put_in, put_count, got_out, AllWhole, AllExact, PutInv, TakeInv, PairInv, PutInv-kept,
  TakeInv-kept,
}
use ig_libs.Queue.Threads.Puts.{write_called-PutInv, write_enters-PutInv, write_moves-PutInv}
use ig_libs.Queue.Threads.Takes.{read_called-TakeInv, read_enters-TakeInv, read_moves-TakeInv}

-- What a thread knows at a place that it is known to be at.
puts_at :
    {size : ℕ} {s : Pair} (p : Putter)
    → s.putter ≡ p
    → PairInv size s
    → PutInv size s.core p s.written s.rung
puts_at {size} {s} p e i = subst (λ p. PutInv size s.core p s.written s.rung) e i.puts

takes_at :
    {size : ℕ} {s : Pair} (t : Taker) → s.taker ≡ t → PairInv size s → TakeInv s.core t s.taken
takes_at {size} {s} t e i = subst (λ t. TakeInv s.core t s.taken) e i.takes

Step-PairInv : {size : ℕ} {s t : Pair} → PairInv size s → Step s t → PairInv size t
Step-PairInv {size} {s} i (write_calls msg write_notify e) = record {
  ring = i.ring;
  puts =
      write_called-PutInv (seen s) s.core s.written s.rung msg write_notify refl i.ring
        (puts_at resting e i);
  takes = i.takes;
}
Step-PairInv {size} {s} i (write_enters msg write_notify e) =
    let p = puts_at (tested msg write_notify) e i in
    record {
      ring = Step-Inv i.ring (call_write msg (length msg) (p.place.0) (omega arith));
      puts = write_enters-PutInv s.core s.written s.rung msg write_notify i.ring p;
      takes = TakeInv-kept s.core _ s.taker refl refl (omega arith) i.takes;
    }
Step-PairInv {size} {s} i (write_moves msg write_notify {r} {w} {bytes} e m) = record {
  ring = Step-Inv i.ring (move_writer m);
  puts =
      write_moves-PutInv s.core s.written s.rung msg write_notify r w bytes m
        (puts_at (putting msg write_notify) e i);
  takes =
      TakeInv-kept s.core _ s.taker refl refl (omega (arith, length-append s.core.sent bytes))
        i.takes;
}
Step-PairInv {size} {s} i (rings e) =
    let p = puts_at ringing e i in
    record {
      ring = i.ring;
      puts = record {
        place = p.place;
        stream = p.stream;
        whole = p.whole;
        bells = omega (arith, p.bells);
      };
      takes = i.takes;
    }
Step-PairInv {size} {s} i (read_calls wanted clear_notify e) = record {
  ring = i.ring;
  puts = i.puts;
  takes =
      read_called-TakeInv (seen s) s.core s.taken wanted clear_notify refl i.ring
        (takes_at resting e i);
}
Step-PairInv {size} {s} i (read_enters wanted clear_notify e) =
    let t = takes_at (tested wanted clear_notify) e i in
    record {
      ring = Step-Inv i.ring (call_read wanted (t.place.0));
      puts = PutInv-kept s.core _ s.putter refl refl (omega arith) i.puts;
      takes = read_enters-TakeInv s.core s.taken wanted clear_notify i.ring t;
    }
Step-PairInv {size} {s} i (read_moves wanted clear_notify {r} {d} {bytes} e m) = record {
  ring = Step-Inv i.ring (move_reader m);
  puts =
      PutInv-kept s.core _ s.putter refl refl (omega (arith, length-append s.core.received bytes))
        i.puts;
  takes =
      read_moves-TakeInv s.core s.taken wanted clear_notify r d bytes i.ring m
        (takes_at (getting wanted clear_notify) e i);
}
Step-PairInv {size} {s} i (clears e) =
    let t = takes_at clearing e i in
    record {
      ring = i.ring;
      puts = i.puts;
      takes = record { place = t.place; stream = t.stream; exact = t.exact };
    }

Reach-PairInv :
    {q : SharedQueue} {s : Pair} → Holds q.m_ring_buffer [] → Reach q s → PairInv (get_size q) s
unfolding get_size
Reach-PairInv v start = record {
  ring = record { queue = []; holds = v; kept = refl; history = refl; writing = tt; reading = tt };
  puts = record { place = refl; stream = refl; whole = tt; bells = omega arith };
  takes = record { place = refl; stream = refl; exact = tt };
}
Reach-PairInv v (later reach step) = Step-PairInv (Reach-PairInv v reach) step

-- Let a queue be empty, and let one thread call write and another read, any number of times, their accesses in any order. At any point: each
-- write whose return value is settled has taken its whole message, and the value is its length, or nothing, and the value is -1; each such read has
-- given as many bytes as it was asked for, and the value is their number, or none, and the value is -1; the messages taken are, one behind the other, the
-- bytes given followed by no more than the queue's size of others; the pipe has been given no more bytes than messages were
-- taken; and no access to the ring is a fault.
pub queue_threads_safe :
    {q : SharedQueue} {s : Pair}
    → Holds q.m_ring_buffer []
    → Reach q s
    → AllWhole s.written
      × AllExact s.taken
      × ((rest : List ℕ) × (put_in s.written ≡ got_out s.taken ++ rest)
          × (length rest ≤ get_size q))
      × (s.rung ≤ put_count s.written)
      × (write_next s.core.ring s.core.writer ≢ none)
      × (read_next s.core.ring s.core.reader ≢ none)
unfolding get_size
queue_threads_safe {q} {s} v reach =
    let i = Reach-PairInv v reach in
    let (r', w', b', e', l', _) = write_next-Writing i.ring.holds s.core.writer i.ring.writing in
    let (r'', d', b'', e'', l'', _) = read_next-Reading i.ring.holds s.core.reader i.ring.reading in
    (
      i.puts.whole,
      i.takes.exact,
      (
        i.ring.queue,
        sym i.puts.stream ∙ i.ring.history ∙ ap (λ xs. xs ++ i.ring.queue) i.takes.stream,
        omega (arith, i.ring.holds.fits, i.ring.kept),
      ),
      omega (arith, i.puts.bells),
      (λ n. cc),
      (λ n. cc),
    )
