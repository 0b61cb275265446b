-- ===== src/Events.antt =====
-- event_handler.h: a descriptor and an argument, and the handlers that get them.
mod Tests
use ig_libs.Base.{ℕ, ℤ, negsuc}

-- A pointer is a number, 0 for NULL.
pub record EventHandler : Type 0 where
  pub m_fd : ℤ
  pub m_arg : ℕ

abbrev pub new_event_handler : EventHandler
new_event_handler = record { m_fd = negsuc 0; m_arg = 0 }

abbrev pub event_handler : ℤ → ℕ → EventHandler
event_handler fd arg = record { m_fd = fd; m_arg = arg }

abbrev pub set_event_args : ℤ → ℕ → EventHandler → EventHandler
set_event_args fd arg h = record { m_fd = fd; m_arg = arg }

-- The virtual functions.
pub record Handlers (W : Type 0) : Type 0 where
  pub read_handler : ℤ → ℕ → W → ℤ × W
  pub write_handler : ℤ → ℕ → W → ℤ × W
  pub error_handler : ℤ → ℕ → W → ℤ × W
  pub close_handler : ℤ → ℕ → W → ℤ × W

module _ {W : Type 0} (v : Handlers W) (h : EventHandler) where
  pub handle_write_event : W → ℤ × W
  handle_write_event w = v.write_handler h.m_fd h.m_arg w

  pub handle_read_event : W → ℤ × W
  handle_read_event w = v.read_handler h.m_fd h.m_arg w

  pub handle_error_event : W → ℤ × W
  handle_error_event w = v.error_handler h.m_fd h.m_arg w

  pub handle_close_event : W → ℤ × W
  handle_close_event w = v.close_handler h.m_fd h.m_arg w
