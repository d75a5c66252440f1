-- ===== src/Io/Gpio.antt =====
-- The pins of io_utils.c, in two banks of two registers each. The switch over the bank is written
-- out, request by request, as it stands in the source.
use ptr24_lab.Prelude.{ℕ, zero, suc, ◌+◌, ◌*◌, ◌%◌, ◌^◌, Outcome, ok, ◌>>=◌, Option, some, none}
use ptr24_lab.Io.Board.{
  Board, Io, Request, AccessType, ioctl, mmap, RegSel, reg_low, reg_high, sel_index,
  io_gpio_en_b0_0, io_gpio_val_b0_0, gpio_bank_size, reg_size, read_request, write_request,
  load_reg, store_reg, call,
}

-- `bank*GPIO_BANK_SIZE + sel*REG_SIZE` past a base.
abbrev pub gpio_offset : ℕ → ℕ → RegSel → ℕ
gpio_offset base bank sel = base + bank * gpio_bank_size % 2 ^ 32 + sel_index sel * reg_size

abbrev pub write_en_request : ℕ → RegSel → Option Request
write_en_request zero reg_high = some (write_request 17)
write_en_request zero reg_low = some (write_request 17)
write_en_request (suc zero) reg_high = some (read_request 24)
write_en_request (suc zero) reg_low = some (read_request 22)
write_en_request (suc (suc bank)) sel = none

abbrev pub read_en_request : ℕ → RegSel → Option Request
read_en_request zero reg_high = some (read_request 16)
read_en_request zero reg_low = some (read_request 16)
read_en_request (suc zero) reg_high = some (read_request 24)
read_en_request (suc zero) reg_low = some (read_request 22)
read_en_request (suc (suc bank)) sel = none

abbrev pub write_val_request : ℕ → RegSel → Option Request
write_val_request zero reg_high = some (write_request 21)
write_val_request zero reg_low = some (write_request 19)
write_val_request (suc zero) reg_high = some (read_request 28)
write_val_request (suc zero) reg_low = some (read_request 26)
write_val_request (suc (suc bank)) sel = none

abbrev pub read_val_request : ℕ → RegSel → Option Request
read_val_request zero reg_high = some (read_request 20)
read_val_request zero reg_low = some (read_request 18)
read_val_request (suc zero) reg_high = some (read_request 28)
read_val_request (suc zero) reg_low = some (read_request 26)
read_val_request (suc (suc bank)) sel = none

module _ (b : Board) where
  -- The call of `ioctl` for the chosen request, if the switch has a case for the bank.
  abbrev pub call? : Io b → Option Request → ℕ → ℕ × Io b
  call? io none value = (value, io)
  call? io (some r) value = call b io r value

  unfoldable pub write_gpio_en : AccessType → ℕ → RegSel → ℕ → Io b → Outcome (Io b)
  write_gpio_en ioctl bank sel value io = ok (call? io (write_en_request bank sel) value).1
  write_gpio_en mmap bank sel value io = store_reg b io (gpio_offset io_gpio_en_b0_0 bank sel) value

  unfoldable pub read_gpio_en : AccessType → ℕ → RegSel → Io b → Outcome (ℕ × Io b)
  read_gpio_en ioctl bank sel io = ok (call? io (read_en_request bank sel) 0)
  read_gpio_en mmap bank sel io = do
    value ← load_reg b io (gpio_offset io_gpio_en_b0_0 bank sel)
    ok (value, io)

  unfoldable pub write_gpio_val : AccessType → ℕ → RegSel → ℕ → Io b → Outcome (Io b)
  write_gpio_val ioctl bank sel value io = ok (call? io (write_val_request bank sel) value).1
  write_gpio_val mmap bank sel value io =
      store_reg b io (gpio_offset io_gpio_val_b0_0 bank sel) value

  unfoldable pub read_gpio_val : AccessType → ℕ → RegSel → Io b → Outcome (ℕ × Io b)
  read_gpio_val ioctl bank sel io = ok (call? io (read_val_request bank sel) 0)
  read_gpio_val mmap bank sel io = do
    value ← load_reg b io (gpio_offset io_gpio_val_b0_0 bank sel)
    ok (value, io)
