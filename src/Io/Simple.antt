-- ===== src/Io/Simple.antt =====
-- The keys, the switches and the leds of io_utils.c. A read also gives the state after it.
use ptr24_lab.Prelude.{ℕ, Outcome, ok, ◌>>=◌}
use ptr24_lab.Io.Board.{
  Board, Io, AccessType, ioctl, mmap, io_keys, io_switch, io_leds, read_request, write_request,
  load_reg, store_reg, call,
}

module _ (b : Board) where
  unfoldable pub read_key : AccessType → Io b → Outcome (ℕ × Io b)
  read_key ioctl io = ok (call b io (read_request 1) 0)
  read_key mmap io = do value ← load_reg b io io_keys; ok (value, io)

  unfoldable pub read_switch : AccessType → Io b → Outcome (ℕ × Io b)
  read_switch ioctl io = ok (call b io (read_request 0) 0)
  read_switch mmap io = do value ← load_reg b io io_switch; ok (value, io)

  unfoldable pub write_led : AccessType → ℕ → Io b → Outcome (Io b)
  write_led ioctl value io = ok (call b io (write_request 3) value).1
  write_led mmap value io = store_reg b io io_leds value

  unfoldable pub read_led : AccessType → Io b → Outcome (ℕ × Io b)
  read_led ioctl io = ok (call b io (read_request 2) 0)
  read_led mmap io = do value ← load_reg b io io_leds; ok (value, io)
