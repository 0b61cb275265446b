-- ===== src/Singleton/Tests.antt =====
-- Two threads in GetInstance.
use ig_libs.Base.{ℕ, ◌≡◌, refl, true, none, some}
use ig_libs.Singleton.{
  System, move, moves, begin, Reach, start, later, returned, placed, reading, unlocking,
  second_test, making, locking,
}
use ig_libs.Singleton.Safety.{get_instance_unique}

-- Both make the first test; 0 makes the object while 1 waits, and then 1 finds it.
abbrev both_done : System
both_done = record {
  globals = record { m_instance = some 0; m_lock = none; created = 1 };
  threads = placed 1 (returned (some 0)) (
      placed 0 (returned (some 0)) (
        placed 1 reading (
          placed 1 unlocking (
            placed 1 second_test (
              placed 0 reading (
                placed 0 unlocking (
                  placed 0 making (
                    placed 0 second_test
                      (placed 1 locking (placed 0 locking begin.threads))))))))));
}

both_done-Reach : Reach both_done
unfolding move
both_done-Reach =
    later
      (later
        (later
          (later
            (later
              (later
                (later
                  (later
                    (later (later (later start (moves 0 true refl)) (moves 1 true refl))
                      (moves 0 true refl))
                    (moves 0 true refl))
                  (moves 0 true refl))
                (moves 0 true refl))
              (moves 1 true refl))
            (moves 1 true refl))
          (moves 1 true refl))
        (moves 0 true refl))
      (moves 1 true refl)

get_instance_unique_example :
    (◌≡◌ {A = ℕ} 0 0) × (both_done.globals.m_instance ≡ some 0) × (both_done.globals.created ≡ 1)
get_instance_unique_example = get_instance_unique both_done 0 1 0 0 both_done-Reach refl refl
