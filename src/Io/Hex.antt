-- ===== src/Io/Hex.antt =====
-- The digits of io_utils.c. The offset of a digit is computed in `unsigned`.
use ptr24_lab.Prelude.{ℕ, Bool, ◌+◌, ◌*◌, ◌%◌, ◌^◌, Outcome, ok, ◌>>=◌, ltb, if◌then◌else◌}
use ptr24_lab.Io.Board.{
  Board, Io, AccessType, ioctl, mmap, io_hex0, reg_size, read_request, write_request, load_reg,
  store_reg, call,
}

-- `IO_HEX0 + hex*REG_SIZE`.
abbrev pub hex_offset : ℕ → ℕ
hex_offset hex = io_hex0 + hex * reg_size % 2 ^ 32

abbrev nb_hex : ℕ
nb_hex = 6

-- Whether the switches over the digit have a case for it: HEX0 to HEX5.
abbrev has_case : ℕ → Bool
has_case hex = ltb hex nb_hex

module _ (b : Board) where
  -- The requests of digit 0 to digit 5 are numbered 5, 7 to 15; no other digit has one.
  unfoldable pub write_hex : AccessType → ℕ → ℕ → Io b → Outcome (Io b)
  write_hex ioctl hex value io =
      if has_case hex then ok (call b io (write_request (5 + 2 * hex)) value).1 else ok io
  write_hex mmap hex value io = store_reg b io (hex_offset hex) value

  -- The requests are numbered 4, 6 to 14.
  unfoldable pub read_hex : AccessType → ℕ → Io b → Outcome (ℕ × Io b)
  read_hex ioctl hex io =
      if has_case hex then ok (call b io (read_request (4 + 2 * hex)) 0) else ok (0, io)
  read_hex mmap hex io = do value ← load_reg b io (hex_offset hex); ok (value, io)
