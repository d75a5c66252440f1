-- ===== src/Io/Registers.antt =====
-- The registers behind the mapping do not overlap: what one call writes the matching call reads, and
-- no other register changes.
use ptr24_lab.Prelude.{
  ℕ, ◌+◌, ◌%◌, ◌^◌, ◌<◌, ◌≤◌, ◌≡◌, ◌≢◌, ◌⊎◌, refl, Outcome, ok, ◌>>=◌, arith, ap, ◌∙◌, le→leb,
}
use ptr24_lab.Io.Board.{
  Board, IsMemory, Io, Pointer, mmap, reg_low, reg_high, io_switch, io_keys, io_leds,
  io_gpio_en_b0_0, io_gpio_val_b0_0, load_reg, store_reg, reg_size, map_size,
}
use ptr24_lab.Io.Interface.{
  Output, led, hex, gpio_en, gpio_val, Reg, keys, switches, out, IsOutput, IsReg,
}
use ptr24_lab.Io.Simple.{read_key, read_switch, read_led, write_led}
use ptr24_lab.Io.Hex.{hex_offset, read_hex, write_hex}
use ptr24_lab.Io.Gpio.{gpio_offset, read_gpio_en, write_gpio_en, read_gpio_val, write_gpio_val}

abbrev pub output_offset : Output → ℕ
output_offset led = io_leds
output_offset (hex n) = hex_offset n
output_offset (gpio_en bank sel) = gpio_offset io_gpio_en_b0_0 bank sel
output_offset (gpio_val bank sel) = gpio_offset io_gpio_val_b0_0 bank sel

abbrev pub offset : Reg → ℕ
offset keys = io_keys
offset switches = io_switch
offset (out o) = output_offset o

output_offset-injective :
    (o o' : Output) → IsOutput o → IsOutput o' → output_offset o ≡ output_offset o' → o ≡ o'
output_offset-injective led o' h h' e = ground arith
output_offset-injective (hex n) o' h h' e = ground arith
output_offset-injective (gpio_en n sel) o' h h' e = ground arith
output_offset-injective (gpio_val n sel) o' h h' e = ground arith

output_offset_bounds :
    (o : Output) → IsOutput o → (8 ≤ output_offset o) × (output_offset o + reg_size ≤ map_size)
output_offset_bounds led h = omega arith
output_offset_bounds (hex n) h = omega arith
output_offset_bounds (gpio_en bank reg_low) h = omega arith
output_offset_bounds (gpio_en bank reg_high) h = omega arith
output_offset_bounds (gpio_val bank reg_low) h = omega arith
output_offset_bounds (gpio_val bank reg_high) h = omega arith

output_offset_aligned : (o : Output) → IsOutput o → output_offset o % 4 ≡ 0
output_offset_aligned led h = omega arith
output_offset_aligned (hex n) h = omega arith
output_offset_aligned (gpio_en bank reg_low) h = omega arith
output_offset_aligned (gpio_en bank reg_high) h = omega arith
output_offset_aligned (gpio_val bank reg_low) h = omega arith
output_offset_aligned (gpio_val bank reg_high) h = omega arith

-- The words of two registers do not overlap.
pub offset_apart :
    (o : Output) (r : Reg)
    → IsOutput o
    → IsReg r
    → out o ≢ r
    → (output_offset o + 4 ≤ offset r) ⊎ (offset r + 4 ≤ output_offset o)
offset_apart o keys h h' ne = omega (arith, output_offset_bounds o h)
offset_apart o switches h h' ne = omega (arith, output_offset_bounds o h)
offset_apart o (out o') h h' ne =
    let differ : output_offset o ≢ output_offset o' =
      λ e. ne (ap out (output_offset-injective o o' h h' e)) in
    omega (arith, differ, output_offset_aligned o h, output_offset_aligned o' h')

module _ (b : Board) where
  -- The calls through the mapping.
  abbrev pub write_reg : Output → ℕ → Io b → Outcome (Io b)
  write_reg led value io = write_led b mmap value io
  write_reg (hex n) value io = write_hex b mmap n value io
  write_reg (gpio_en bank sel) value io = write_gpio_en b mmap bank sel value io
  write_reg (gpio_val bank sel) value io = write_gpio_val b mmap bank sel value io

  abbrev pub read_reg : Reg → Io b → Outcome (ℕ × Io b)
  read_reg keys io = read_key b mmap io
  read_reg switches io = read_switch b mmap io
  read_reg (out led) io = read_led b mmap io
  read_reg (out (hex n)) io = read_hex b mmap n io
  read_reg (out (gpio_en bank sel)) io = read_gpio_en b mmap bank sel io
  read_reg (out (gpio_val bank sel)) io = read_gpio_val b mmap bank sel io

  write_reg_lem :
      (o : Output) (v : ℕ) (io : Io b) → write_reg o v io ≡ store_reg b io (output_offset o) v
  unfolding write_led write_hex write_gpio_en write_gpio_val
  write_reg_lem led v io = refl
  write_reg_lem (hex n) v io = refl
  write_reg_lem (gpio_en bank sel) v io = refl
  write_reg_lem (gpio_val bank sel) v io = refl

  read_reg_lem :
      (r : Reg) (io : Io b) → read_reg r io ≡ (load_reg b io (offset r) >>= λ value. ok (value, io))
  unfolding read_led read_hex read_gpio_en read_gpio_val read_key read_switch
  read_reg_lem keys io = refl
  read_reg_lem switches io = refl
  read_reg_lem (out led) io = refl
  read_reg_lem (out (hex n)) io = refl
  read_reg_lem (out (gpio_en bank sel)) io = refl
  read_reg_lem (out (gpio_val bank sel)) io = refl

  pub write_reg-poke :
      (o : Output) (v : ℕ) (io : Io b)
      → IsOutput o
      → io.ioctrls ≡ Pointer.valid
      → write_reg o v io ≡ ok (record io { dev = b.poke io.dev (output_offset o) v })
  write_reg-poke o v io h e =
      rw (write_reg_lem o v io, e, le→leb _ _ (output_offset_bounds o h).1) refl

  offset_fits : (r : Reg) → IsReg r → offset r + reg_size ≤ map_size
  offset_fits keys h = omega arith
  offset_fits switches h = omega arith
  offset_fits (out o) h = (output_offset_bounds o h).1

  pub read_reg-peek :
      (r : Reg) (io : Io b)
      → IsReg r
      → io.ioctrls ≡ Pointer.valid
      → read_reg r io ≡ ok (b.peek io.dev (offset r), io)
  read_reg-peek r io h e = rw (read_reg_lem r io, e, le→leb _ _ (offset_fits r h)) refl

-- Through a valid mapping of registers that keep what is stored in them: a write of a 32-bit value
-- to the leds, to one of the six digits or to one of the pin registers of the two banks succeeds; a
-- read of the same register gives the value; and a read of each other register of the board gives
-- what it gave before.
write_reg-read_reg :
    (b : Board) (io : Io b) (o : Output) (v : ℕ)
    → IsMemory b
    → io.ioctrls ≡ Pointer.valid
    → IsOutput o
    → v < 2 ^ 32
    → (io' : Io b) × (write_reg b o v io ≡ ok io')
      × (read_reg b (out o) io' ≡ ok (v, io'))
      × ((r : Reg)
          → IsReg r
          → out o ≢ r
          → (w : ℕ) × (read_reg b r io ≡ ok (w, io)) × (read_reg b r io' ≡ ok (w, io')))
write_reg-read_reg b io o v memory e h small =
    let io' : Io b = record io { dev = b.poke io.dev (output_offset o) v } in
    (
      io',
      write_reg-poke b o v io h e,
      read_reg-peek b (out o) io' h e
          ∙ ap (λ w. ok (w, io')) (memory.peek-poke_self io.dev (output_offset o) v small),
      (λ r h' ne. (
        b.peek io.dev (offset r),
        read_reg-peek b r io h' e,
        read_reg-peek b r io' h' e
            ∙ ap (λ w. ok (w, io'))
                (memory.peek-poke_apart io.dev (output_offset o) (offset r) v
                  (offset_apart o r h h' ne)),
      )),
    )
