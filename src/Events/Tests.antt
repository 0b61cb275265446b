-- ===== src/Events/Tests.antt =====
-- Each event reaches its own handler.
use ig_libs.Base.{ℕ, ℤ, pos, ◌≡◌, refl, List, [], ◌∷◌}
use ig_libs.Events.{
  Handlers, new_event_handler, set_event_args, handle_write_event, handle_read_event,
  handle_error_event, handle_close_event,
}

-- Which handler was called, and with what.
abbrev Called : Type 0
Called = ℕ × ℤ × ℕ

abbrev recorder : Handlers (List Called)
recorder = record {
  read_handler = λ fd arg w. (pos 0, (0, fd, arg) ∷ w);
  write_handler = λ fd arg w. (pos 1, (1, fd, arg) ∷ w);
  error_handler = λ fd arg w. (pos 2, (2, fd, arg) ∷ w);
  close_handler = λ fd arg w. (pos 3, (3, fd, arg) ∷ w);
}

all_events :
    (handle_close_event recorder
      (set_event_args (pos 4) 9 new_event_handler)
      (handle_error_event recorder
        (set_event_args (pos 4) 9 new_event_handler)
        (handle_write_event recorder
          (set_event_args (pos 4) 9 new_event_handler)
          (handle_read_event recorder (set_event_args (pos 4) 9 new_event_handler) []).1).1).1).1
    ≡ (3, pos 4, 9) ∷ (2, pos 4, 9) ∷ (1, pos 4, 9) ∷ (0, pos 4, 9) ∷ []
unfolding handle_write_event handle_read_event handle_error_event handle_close_event
all_events = refl
